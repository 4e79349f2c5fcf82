-- ===== src/Ledger/Cache.antt =====
-- The wallet's cache of nullifiers in contracts/rust/src/ledger.rs.
use cape.Base.{◌≡◌, refl, true, some, List, [], ◌∷◌, map, arith, nat_eq, if◌then◌else◌}
use cape.Base.Fresh.{contains}
use cape.Base.Map.{insert, lookup-insert}
use cape.Cap.{Nullifier}
use cape.Ledger.{CapeNullifierSet, get, multi_insert}

-- After `multi_insert` the inserted nullifiers are known to be spent, and what was known of the
-- others stays, known or unknown.
get-multi_insert :
    (ns : List Nullifier) (set : CapeNullifierSet) (n : Nullifier)
    → get (multi_insert set (map (λ m. (m, tt)) ns)) n
      ≡ (if contains ns n then some true else get set n)
unfolding get multi_insert
get-multi_insert [] set n = refl
get-multi_insert (m ∷ ns) set n =
    ground (arith, get-multi_insert ns (insert m true set) n, lookup-insert n m true set)
