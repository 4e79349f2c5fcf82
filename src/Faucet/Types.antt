-- ===== src/Faucet/Types.antt =====
-- The types of faucet/src/faucet.rs, and the log that keeps the queue.
use cape.Base.{ℕ, ◌≡◌, Bool, true, false, Option, List, [], ◌∷◌, ◌++◌, Outcome}
use cape.Base.Map.{Map}

-- A key that asks for grants; it is only stored, compared and passed on.
abbrev pub UserPubKey : Type 0
UserPubKey = ℕ

pub data FaucetStatus : Type 0 where
  initializing available : FaucetStatus

pub data FaucetError : Type 0 where
  transfer_failed internal : FaucetError
  queue_full : ℕ → FaucetError
  already_in_queue : UserPubKey → FaucetError
  persistence unavailable address_not_found : FaucetError

-- The status of the answer.
unfoldable pub status : FaucetError → ℕ
status transfer_failed = 400
status internal = 500
status (already_in_queue key) = 400
status (queue_full max_len) = 500
status persistence = 500
status unavailable = 503
status address_not_found = 400

-- `key -> Some(n)` sets the grants of a key, `key -> None` deletes it.
abbrev pub Entry : Type 0
Entry = UserPubKey × Option ℕ

-- `AppendLog` and `AtomicStore` of atomic_store. An entry that is stored waits for a commit of the
-- store, which publishes all that wait, in order; a step that fails changes nothing. A store is loaded
-- from what is published.
pub record AppendLog : Type 1 where
  pub Store : Type 0
  -- What is published, and what waits, oldest first.
  pub iter : Store → List Entry
  pub waiting : Store → List Entry
  pub store_resource : Store → Entry → Store × Bool
  -- `queue.commit_version` and `store.commit_version`
  pub commit_queue : Store → Store × Bool
  pub commit_store : Store → Store × Bool
  pub stored_law :
      (s : Store) (e : Entry)
      → (store_resource s e).1 ≡ true
      → (iter (store_resource s e).0 ≡ iter s)
        × (waiting (store_resource s e).0 ≡ waiting s ++ (e ∷ []))
  pub not_stored_law :
      (s : Store) (e : Entry)
      → (store_resource s e).1 ≡ false
      → (iter (store_resource s e).0 ≡ iter s) × (waiting (store_resource s e).0 ≡ waiting s)
  pub queue_law :
      (s : Store) → (iter (commit_queue s).0 ≡ iter s) × (waiting (commit_queue s).0 ≡ waiting s)
  pub committed_law :
      (s : Store)
      → (commit_store s).1 ≡ true
      → (iter (commit_store s).0 ≡ iter s ++ waiting s) × (waiting (commit_store s).0 ≡ [])
  pub not_committed_law :
      (s : Store)
      → (commit_store s).1 ≡ false
      → (iter (commit_store s).0 ≡ iter s) × (waiting (commit_store s).0 ≡ waiting s)

pub record FaucetQueueIndex (S : Type 0) : Type 0 where
  pub index : Map UserPubKey ℕ
  pub store : S

-- The channel holds the keys that wait for a worker.
pub record FaucetQueue (S : Type 0) : Type 0 where
  pub channel : List UserPubKey
  pub closed : Bool
  pub index : FaucetQueueIndex S
  pub max_len : Option ℕ

-- What a call leaves and returns.
abbrev pub Result : Type 0 → Type 0 → Type 0
Result S A = S × Outcome FaucetError A
