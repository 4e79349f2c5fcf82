-- ===== src/Ledger.antt =====
-- contracts/rust/src/ledger.rs: the transitions of a CAPE ledger, the wallet's cache of nullifiers
-- and the validator that trusts the query service.
pub mod Uids
pub mod Cache
mod Tests
use Prim.Native.Nat.{zero, suc}
use cape.Base.{
  ℕ, ◌+◌, ◌%◌, Bool, true, false, Option, none, some, Outcome, ok, err, List, [], ◌∷◌, ◌++◌, map,
  nat_eq,
}
use cape.Base.Map.{Map, lookup, insert}
use cape.Cap.{Nullifier, RecordCommitment, RecordOpening, TransactionNote, CapLib, u64_mod}
use cape.Model.Types.{EthereumAddr, Erc20Code, CapeModelTxn, cap_txn, burn}
use cape.Model.Notes.{nullifiers, commitments}

-- `HashMap<Nullifier, bool>`: in the set, not in the set, or unknown.
abbrev pub CapeNullifierSet : Type 0
CapeNullifierSet = Map Nullifier Bool

unfoldable pub get : CapeNullifierSet → Nullifier → Option Bool
get set n = lookup n set

unfoldable pub insert_nullifier : CapeNullifierSet → Nullifier → Bool → CapeNullifierSet
insert_nullifier set n value = insert n value set

-- The proofs are units, and the call never fails.
unfoldable pub multi_insert : CapeNullifierSet → List (Nullifier × Unit {0}) → CapeNullifierSet
multi_insert set [] = set
multi_insert set ((n, _) ∷ ns) = multi_insert (insert n true set) ns

-- The kinds of reef that the code makes, by the name of the function that makes them.
pub data CapKind : Type 0 where
  send_kind receive_kind mint_kind freeze_kind unfreeze_kind unknown_kind : CapKind

pub data CapeTransactionKind : Type 0 where
  cap_kind : CapKind → CapeTransactionKind
  burn_kind wrap_kind faucet_kind : CapeTransactionKind

pub data CapeTransition : Type 0 where
  transaction : CapeModelTxn → CapeTransition
  wrap_transition : Erc20Code → EthereumAddr → RecordOpening → CapeTransition
  faucet : RecordOpening → CapeTransition

unfoldable pub proven_nullifiers : CapeTransition → List (Nullifier × Unit {0})
unfolding nullifiers
proven_nullifiers (transaction txn) = map (λ n. (n, tt)) (nullifiers txn)
proven_nullifiers (wrap_transition code src ro) = []
proven_nullifiers (faucet ro) = []

-- `none` is the panic of `commitments`.
unfoldable pub output_commitments : CapLib → CapeTransition → Option (List RecordCommitment)
output_commitments lib (transaction txn) = commitments lib txn
output_commitments lib (wrap_transition code src ro) = some (lib.record_commitment ro ∷ [])
output_commitments lib (faucet ro) = some (lib.record_commitment ro ∷ [])

unfoldable pub output_openings : CapeTransition → Option (List RecordOpening)
output_openings (transaction txn) = none
output_openings (wrap_transition code src ro) = some (ro ∷ [])
output_openings (faucet ro) = some (ro ∷ [])

unfoldable pub kind : CapeTransition → CapeTransactionKind
kind (transaction (cap_txn (TransactionNote.transfer note))) = cap_kind send_kind
kind (transaction (cap_txn (TransactionNote.mint note))) = cap_kind mint_kind
kind (transaction (cap_txn (TransactionNote.freeze note))) = cap_kind freeze_kind
kind (transaction (burn xfr ro)) = burn_kind
kind (wrap_transition code src ro) = wrap_kind
kind (faucet ro) = faucet_kind

pub record CommittedCapeTransition : Type 0 where
  pub block_id : ℕ
  pub txn_id : ℕ
  pub output_start : ℕ
  pub output_size : ℕ
  pub transition : CapeTransition

-- `CapeBlock(Vec<CapeTransition>)`
abbrev pub CapeBlock : Type 0
CapeBlock = List CapeTransition

unfoldable pub add_transaction : CapeBlock → CapeTransition → CapeBlock
add_transaction block txn = block ++ (txn ∷ [])

pub record CapeTruster : Type 0 where
  pub now : ℕ
  pub num_records : ℕ

-- `for _ in 0..n { uids.push(uid); uid += 1; }`, on a `u64`; the uids are in order.
unfoldable pub count_uids : ℕ → ℕ → List ℕ × ℕ
count_uids zero uid = ([], uid)
count_uids (suc n) uid = let rest = count_uids n ((uid + 1) % u64_mod) in (uid ∷ rest.0, rest.1)

-- The length of the outputs is a method of reef's `Transaction`.
module _ (output_len : CapeTransition → ℕ) where
  unfoldable pub block_uids : CapeBlock → ℕ → List ℕ × ℕ
  block_uids [] uid = ([], uid)
  block_uids (txn ∷ txns) uid =
      let (first, uid') = count_uids (output_len txn) uid in
      let (others, last) = block_uids txns uid' in (first ++ others, last)

  unfoldable pub validate_and_apply : CapeTruster → CapeBlock → List ℕ × CapeTruster
  unfolding block_uids
  validate_and_apply t block =
      let (uids, uid) = block_uids block t.num_records in
      (uids, record { now = (t.now + 1) % u64_mod; num_records = uid })
