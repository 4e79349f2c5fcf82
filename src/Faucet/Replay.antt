-- ===== src/Faucet/Replay.antt =====
-- The index of `FaucetQueueIndex` in faucet/src/faucet.rs is what its log says, whatever calls have
-- been made and whichever writes have failed: a restart recovers it.
use cape.Base.{
  ap, ℕ, ◌+◌, ◌%◌, ◌≡◌, ◌∙◌, sym, refl, Bool, true, false, Bool-cases, Option-cases, inl, inr,
  Option, none, some, List, [], ◌∷◌, ◌++◌, nat_eq, if◌then◌else◌, leb, arith,
}
use cape.Base.Map.{Map, lookup, contains_key, lookup-insert, lookup-erase}
use cape.Cap.{u64_mod}
use cape.Faucet.Types.{UserPubKey, Entry, AppendLog}
use cape.Faucet.Index.{
  Index, then_step, store_entry, persist_entry, insert_key, remove_key, grant_key, grant_given,
}
use cape.Faucet.Queue.{load}
use cape.Faucet.Load.{replay, replay_entry, load-replay}

replay-append :
    (m : Map UserPubKey ℕ) (es : List Entry) (e : Entry)
    → replay m (es ++ (e ∷ [])) ≡ replay_entry (replay m es) e
replay-append m [] e = refl
replay-append m (x ∷ es) e = replay-append (replay_entry m x) es e

-- A call of the index.
pub data IndexCall : Type 0 where
  insert_call remove_call : UserPubKey → IndexCall
  grant_call : UserPubKey → ℕ → IndexCall

module _ (log : AppendLog) where
  -- What a call leaves, whether it succeeds or not.
  abbrev pub run_call : IndexCall → Index log → Index log
  run_call (insert_call key) i = (insert_key log key i).0
  run_call (remove_call key) i = (remove_key log key i).0
  run_call (grant_call key max_grants) i = (grant_key log key max_grants i).0

  abbrev pub run_calls : List IndexCall → Index log → Index log
  run_calls [] i = i
  run_calls (c ∷ cs) i = run_calls cs (run_call c i)

  -- The index agrees with its log, and no entry waits.
  abbrev Agrees : Index log → Type 0
  Agrees i =
      ((k : UserPubKey) → lookup k i.index ≡ lookup k (replay [] (log.iter i.store)))
      × (log.waiting i.store ≡ [])

  -- The index after a write has been made, or not.
  abbrev written : Bool → Entry → Index log → log.Store → Index log
  written true e i store = record { index = replay_entry i.index e; store = store }
  written false e i store = record i { store = store }

  replay_entry-cong :
      (m n : Map UserPubKey ℕ) (e : Entry)
      → ((k : UserPubKey) → lookup k m ≡ lookup k n)
      → (k : UserPubKey) → lookup k (replay_entry m e) ≡ lookup k (replay_entry n e)
  replay_entry-cong m n (key, none) same k =
      ground (arith, lookup-erase k key m, lookup-erase k key n, same k)
  replay_entry-cong m n (key, some val) same k =
      ground (arith, lookup-insert k key val m, lookup-insert k key val n, same k)

  -- Every call leaves the index as it was, or makes one write.
  insert_key_lem :
      (key : UserPubKey) (i : Index log)
      → (insert_key log key i).0 ≡ (
          if contains_key i.index key
          then i
          else written
              (store_entry log i.store (key, some 0)).1
              (key, some 0)
              i
              (store_entry log i.store (key, some 0)).0)
  unfolding insert_key persist_entry
  insert_key_lem key i = ground arith

  remove_key_lem :
      (key : UserPubKey) (i : Index log)
      → (remove_key log key i).0
        ≡ written
            (store_entry log i.store (key, none)).1
            (key, none)
            i
            (store_entry log i.store (key, none)).0
  unfolding remove_key persist_entry
  remove_key_lem key i = ground arith

  grant_given_lem :
      (key : UserPubKey) (given max_grants : ℕ) (i : Index log)
      → (grant_given log key given max_grants i).0 ≡ (
          if leb max_grants given
          then (remove_key log key i).0
          else written
              (store_entry log i.store (key, some given)).1
              (key, some given)
              i
              (store_entry log i.store (key, some given)).0)
  unfolding grant_given persist_entry
  grant_given_lem key given max_grants i = ground arith

  if-Agrees : (b : Bool) (i j : Index log) → Agrees i → Agrees j → Agrees (if b then i else j)
  if-Agrees true i j hi hj = hi
  if-Agrees false i j hi hj = hj

  -- A write that succeeds has published the entry after all that waited; one that fails before its
  -- commits has changed nothing.
  store_entry-stored :
      (s : log.Store) (e : Entry)
      → (store_entry log s e).1 ≡ true
      → (log.iter (store_entry log s e).0 ≡ log.iter s ++ (log.waiting s ++ (e ∷ [])))
        × (log.waiting (store_entry log s e).0 ≡ [])
  unfolding store_entry
  store_entry-stored s e h = after_store (log.store_resource s e) refl h
    where
      after_commit :
          (r : log.Store × Bool) (t : log.Store)
          → r ≡ log.commit_queue t
          → (log.iter t ≡ log.iter s)
          → (log.waiting t ≡ log.waiting s ++ (e ∷ []))
          → (then_step log r log.commit_store).1 ≡ true
          → (log.iter (then_step log r log.commit_store).0
              ≡ log.iter s ++ (log.waiting s ++ (e ∷ [])))
            × (log.waiting (then_step log r log.commit_store).0 ≡ [])
      after_commit (u, false) t same it wt done = cc
      after_commit (u, true) t same it wt done =
          let first : u ≡ (log.commit_queue t).0 = ap (λ q. q.0) same in
          let (iu, wu) = log.queue_law t in
          let (ic, wc) = log.committed_law u done in
          let iu' : log.iter u ≡ log.iter s = ap log.iter first ∙ (iu ∙ it) in
          let wu' : log.waiting u ≡ log.waiting s ++ (e ∷ []) = ap log.waiting first ∙ (wu ∙ wt) in
          (rw (iu', wu') at ic, wc)

      after_store :
          (r : log.Store × Bool)
          → r ≡ log.store_resource s e
          → (then_step log (then_step log r log.commit_queue) log.commit_store).1 ≡ true
          → (log.iter (then_step log (then_step log r log.commit_queue) log.commit_store).0
              ≡ log.iter s ++ (log.waiting s ++ (e ∷ [])))
            × (log.waiting (then_step log (then_step log r log.commit_queue) log.commit_store).0
                ≡ [])
      after_store (t, false) same done = cc
      after_store (t, true) same done =
          let first : t ≡ (log.store_resource s e).0 = ap (λ q. q.0) same in
          let (is, ws) = log.stored_law s e (sym (ap (λ q. q.1) same)) in
          after_commit (log.commit_queue t) t refl (ap log.iter first ∙ is)
            (ap log.waiting first ∙ ws) done

module _ (log : AppendLog) (queue_commits : (s : log.Store) → (log.commit_queue s).1 ≡ true)
    (store_commits : (s : log.Store) → (log.commit_store s).1 ≡ true) where
  store_entry-failed :
      (s : log.Store) (e : Entry)
      → (store_entry log s e).1 ≡ false
      → (log.iter (store_entry log s e).0 ≡ log.iter s)
        × (log.waiting (store_entry log s e).0 ≡ log.waiting s)
  unfolding store_entry
  store_entry-failed s e h = after_store (log.store_resource s e) refl h
    where
      after_store :
          (r : log.Store × Bool)
          → r ≡ log.store_resource s e
          → (then_step log (then_step log r log.commit_queue) log.commit_store).1 ≡ false
          → (log.iter (then_step log (then_step log r log.commit_queue) log.commit_store).0
              ≡ log.iter s)
            × (log.waiting (then_step log (then_step log r log.commit_queue) log.commit_store).0
                ≡ log.waiting s)
      after_store (t, true) same failed =
          absurd (always (log.commit_queue t) (queue_commits t) failed)
        where
          always :
              (r : log.Store × Bool) → r.1 ≡ true → (then_step log r log.commit_store).1 ≡ false → ⊥
          always (u, true) done failed = let committed = store_commits u in cc
          always (u, false) done failed = cc
      after_store (t, false) same failed =
          let first : t ≡ (log.store_resource s e).0 = ap (λ q. q.0) same in
          let (is, ws) = log.not_stored_law s e (sym (ap (λ q. q.1) same)) in
          (ap log.iter first ∙ is, ap log.waiting first ∙ ws)

  written-Agrees :
      (e : Entry) (i : Index log)
      → Agrees log i
      → Agrees log (written log (store_entry log i.store e).1 e i (store_entry log i.store e).0)
  written-Agrees e i (same, settled) = elim (Bool-cases (store_entry log i.store e).1) [
    | inl stored ↦
        let (published, left) = store_entry-stored log i.store e stored in
        let all : log.iter (store_entry log i.store e).0 ≡ log.iter i.store ++ (e ∷ []) =
          rw settled at published in
        rw stored (
          λ k.
              rw (all, replay-append [] (log.iter i.store) e)
                (replay_entry-cong log i.index (replay [] (log.iter i.store)) e same k),
          left,
        )
    | inr failed ↦
        let (published, left) = store_entry-failed i.store e failed in
        rw failed (λ k. rw published (same k), left ∙ settled)
  ]

  remove_key-Agrees :
      (key : UserPubKey) (i : Index log) → Agrees log i → Agrees log (remove_key log key i).0
  remove_key-Agrees key i h = rw (remove_key_lem log key i) (written-Agrees (key, none) i h)

  run_call-Agrees : (c : IndexCall) (i : Index log) → Agrees log i → Agrees log (run_call log c i)
  unfolding grant_key
  run_call-Agrees (insert_call key) i h =
      rw (insert_key_lem log key i)
        (if-Agrees log (contains_key i.index key) i _ h (written-Agrees (key, some 0) i h))
  run_call-Agrees (remove_call key) i h = remove_key-Agrees key i h
  run_call-Agrees (grant_call key max_grants) i h = elim (Option-cases (lookup key i.index)) [
    | inl missing ↦ rw (missing, run_call, grant_key) h
    | inr (given, found) ↦
        let n : ℕ = (given + 1) % u64_mod in
        rw (found, run_call, grant_key)
          (rw (grant_given_lem log key n max_grants i) (
            if-Agrees log (leb max_grants n) (remove_key log key i).0 _ (remove_key-Agrees key i h)
              (written-Agrees (key, some n) i h)))
  ]

  run_calls-Agrees :
      (cs : List IndexCall) (i : Index log) → Agrees log i → Agrees log (run_calls log cs i)
  run_calls-Agrees [] i h = h
  run_calls-Agrees (c ∷ cs) i h = run_calls-Agrees cs (run_call log c i) (run_call-Agrees c i h)

  -- While commits succeed, and from a store in which nothing waits: a queue is loaded and then serves
  -- any sequence of insertions, grants and removals, whose entries may fail to be stored. Loading
  -- what is published afterwards gives every key the grants that it has in memory, and no others.
  pub run_calls-reload :
      (cs : List IndexCall) (store : log.Store) (max_len : Option ℕ) (key : UserPubKey)
      → log.waiting store ≡ []
      → let i = run_calls log cs (load log store max_len).index in
        lookup key (load log i.store max_len).index.index ≡ lookup key i.index
  unfolding load
  run_calls-reload cs store max_len key settled =
      let i : Index log = run_calls log cs (load log store max_len).index in
      (load-replay log i.store max_len).0 key
      ∙ sym (
          (run_calls-Agrees cs (load log store max_len).index
              ((load-replay log store max_len).0, settled)).0
            key)
