-- ===== src/Faucet/Index.antt =====
-- The operations of `FaucetQueueIndex` in faucet/src/faucet.rs.
use cape.Base.{
  ℕ, ◌+◌, ◌%◌, Bool, true, false, Option, none, some, nat_eq, if◌then◌else◌, leb, ok, err, panic,
}
use cape.Base.Map.{lookup, insert, erase, contains_key}
use cape.Cap.{u64_mod}
use cape.Faucet.Types.{UserPubKey, Entry, persistence, AppendLog, FaucetQueueIndex, Result}

module _ (log : AppendLog) where
  abbrev pub Index : Type 0
  Index = FaucetQueueIndex log.Store

  -- `?` after a step of the store: a step that fails is the last, and nothing is undone.
  abbrev pub then_step : log.Store × Bool → (log.Store → log.Store × Bool) → log.Store × Bool
  then_step (s, true) next = next s
  then_step (s, false) next = (s, false)

  unfoldable pub store_entry : log.Store → Entry → log.Store × Bool
  store_entry s e = then_step (then_step (log.store_resource s e) log.commit_queue) log.commit_store

  -- An error leaves the new store, and the index as it was.
  unfoldable pub persist_entry : UserPubKey → Option ℕ → Index → Result Index (Unit {0})
  persist_entry key entry i =
      let r = store_entry i.store (key, entry) in
      (record i { store = r.0 }, if r.1 then ok tt else err persistence)

  -- What follows when the entry has been stored.
  abbrev pub and_then :
      {A : Type 0} → Result Index (Unit {0}) → (Index → Index × A) → Result Index A
  and_then (i, ok _) f = let r = f i in (r.0, ok r.1)
  and_then (i, err e) f = (i, err e)
  and_then (i, panic) f = (i, panic)

  unfoldable pub insert_key : UserPubKey → Index → Result Index Bool
  insert_key key i =
      if contains_key i.index key
      then (i, ok false)
      else and_then (persist_entry key (some 0) i)
          (λ j. (record j { index = insert key 0 j.index }, true))

  unfoldable pub remove_key : UserPubKey → Index → Result Index (Unit {0})
  remove_key key i =
      and_then (persist_entry key none i) (λ j. (record j { index = erase key j.index }, tt))

  -- The grants after one more; the last one removes the key.
  unfoldable pub grant_given : UserPubKey → ℕ → ℕ → Index → Result Index Bool
  grant_given key grants_given max_grants i =
      if leb max_grants grants_given
      then and_then (remove_key key i) (λ j. (j, false))
      else and_then (persist_entry key (some grants_given) i)
          (λ j. (record j { index = insert key grants_given j.index }, true))

  -- `self.index[&key]` panics on a key that is missing.
  unfoldable pub grant_key : UserPubKey → ℕ → Index → Result Index Bool
  grant_key key max_grants i = elim (lookup key i.index) [
    | none ↦ (i, panic)
    | some given ↦ grant_given key ((given + 1) % u64_mod) max_grants i
  ]
