-- ===== src/Faucet/Places.antt =====
-- Where the requests of faucet/src/faucet.rs are: in the index, in the channel, or with a worker.
use cape.Base.{
  ℕ, zero, suc, ◌+◌, ◌≤◌, ◌≡◌, ◌≢◌, sym, List, [], ◌∷◌, ◌++◌, ◌==◌, nat_eq, nat_beq_iff,
  if◌then◌else◌, arith,
}
use cape.Base.Map.{insert, contains_key, lookup-insert, lookup-erase}
use cape.Faucet.Types.{UserPubKey, FaucetStatus, AppendLog}
use cape.Faucet.Index.{persist_entry, insert_key, remove_key}
use cape.Faucet.Queue.{Queue, healthcheck}
use cape.Faucet.Workers.{Worker, idle, busy, crashed, get_worker, set_worker}

-- How often a key is in a list.
abbrev pub count : UserPubKey → List UserPubKey → ℕ
count k [] = 0
count k (x ∷ xs) = (if k == x then 1 else 0) + count k xs

pub count-append :
    (k : UserPubKey) (xs : List UserPubKey) (x : UserPubKey)
    → count k (xs ++ (x ∷ [])) ≡ count k xs + (if k == x then 1 else 0)
count-append k [] x = omega arith
count-append k (y ∷ ys) x = omega (arith, count-append k ys x)

abbrev pub weight : UserPubKey → Worker → ℕ
weight k idle = 0
weight k (busy x) = if k == x then 1 else 0
weight k crashed = 0

-- How many workers have the key.
abbrev pub held : UserPubKey → List Worker → ℕ
held k [] = 0
held k (w ∷ ws) = weight k w + held k ws

pub held-set_worker :
    (k : UserPubKey) (ws : List Worker) (w : ℕ) (x y : Worker)
    → get_worker ws w ≡ x
    → x ≢ crashed
    → held k (set_worker ws w y) + weight k x ≡ held k ws + weight k y
held-set_worker k [] w x y at alive = absurd (alive (sym at))
held-set_worker k (z ∷ ws) zero x y at alive = rw at (omega arith)
held-set_worker k (z ∷ ws) (suc w) x y at alive = omega (arith, held-set_worker k ws w x y at alive)

pub weight-held :
    (k : UserPubKey) (ws : List Worker) (w : ℕ) (x : Worker)
    → get_worker ws w ≡ x
    → weight k x ≤ held k ws
weight-held k [] w x e = rw (sym e) (omega arith)
weight-held k (z ∷ ws) zero x e = rw (sym e) (omega arith)
weight-held k (z ∷ ws) (suc w) x e = omega (arith, weight-held k ws w x e)

module _ (log : AppendLog) where
  -- Whether the index has the key, as a number.
  abbrev pub indexed : UserPubKey → Queue log → ℕ
  indexed k q = if contains_key q.index.index k then 1 else 0

  -- The healthcheck touches its own key only.
  pub checked-indexed :
      (k default_key : UserPubKey) (stat : FaucetStatus) (q : Queue log)
      → k ≢ default_key
      → (indexed k (healthcheck log default_key stat q).0 ≡ indexed k q)
        × ((healthcheck log default_key stat q).0.channel ≡ q.channel)
  unfolding healthcheck insert_key remove_key persist_entry
  checked-indexed k default_key stat q other = ground (
    arith,
    lookup-insert k default_key 0 q.index.index,
    lookup-erase k default_key q.index.index,
    lookup-erase k default_key (insert default_key 0 q.index.index),
    nat_beq_iff k default_key,
  )
