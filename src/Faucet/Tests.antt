-- ===== src/Faucet/Tests.antt =====
-- Runs of the faucet's queue on a log in memory, and the theorems at these inputs.
use cape.Base.{
  ◌≡◌, refl, Bool, true, false, none, some, List, [], ◌∷◌, ◌++◌, arith, length, if◌then◌else◌, ltb,
  nat_eq,
}
use cape.Base.Map.{lookup}
use cape.Faucet.Types.{Entry, AppendLog, UserPubKey}
use cape.Faucet.Index.{Index, store_entry, persist_entry, insert_key}
use cape.Faucet.Queue.{load, load_entries, load_entry, note_value, note_request, present}
use cape.Faucet.Load.{replay, requeue, load-replay}
use cape.Faucet.Replay.{
  IndexCall, insert_call, remove_call, grant_call, run_calls, run_calls-reload,
}

-- What is published, and what waits; a commit of the store that fails, once.
abbrev Memory : Type 0
Memory = List Entry × List Entry × Bool

-- A log in memory that takes six entries.
abbrev bounded_write : Memory → Entry → Memory × Bool
bounded_write (es, ws, fails) e =
    if ltb (length es) 6 then ((es, ws ++ (e ∷ []), fails), true) else ((es, ws, fails), false)

abbrev publish : Memory → Memory × Bool
publish (es, ws, true) = ((es, ws, false), false)
publish (es, ws, false) = ((es ++ ws, [], false), true)

bounded_write-stored :
    (s : Memory) (e : Entry)
    → (bounded_write s e).1 ≡ true
    → ((bounded_write s e).0.0 ≡ s.0) × ((bounded_write s e).0.1 ≡ s.1 ++ (e ∷ []))
bounded_write-stored (es, ws, fails) e h = ground arith

bounded_write-failed :
    (s : Memory) (e : Entry)
    → (bounded_write s e).1 ≡ false
    → ((bounded_write s e).0.0 ≡ s.0) × ((bounded_write s e).0.1 ≡ s.1)
bounded_write-failed (es, ws, fails) e h = ground arith

publish-done :
    (s : Memory) → (publish s).1 ≡ true → ((publish s).0.0 ≡ s.0 ++ s.1) × ((publish s).0.1 ≡ [])
publish-done (es, ws, true) h = cc
publish-done (es, ws, false) h = (refl, refl)

publish-failed :
    (s : Memory) → (publish s).1 ≡ false → ((publish s).0.0 ≡ s.0) × ((publish s).0.1 ≡ s.1)
publish-failed (es, ws, true) h = (refl, refl)
publish-failed (es, ws, false) h = cc

-- A log whose first commit fails, if the store says so.
abbrev failing_log : AppendLog
failing_log = record {
  Store = Memory;
  iter = λ s. s.0;
  waiting = λ s. s.1;
  store_resource = bounded_write;
  commit_queue = λ s. (s, true);
  commit_store = publish;
  stored_law = bounded_write-stored;
  not_stored_law = bounded_write-failed;
  queue_law = λ s. (refl, refl);
  committed_law = publish-done;
  not_committed_law = publish-failed;
}

-- The insertion of 4 fails with its commit, and 4 is not in the index; but the next insertion publishes
-- both, so 4 is there after a restart.
abbrev after_failure : Index failing_log
after_failure =
    run_calls failing_log (insert_call 4 ∷ insert_call 5 ∷ [])
      (record { index = []; store = ([], [], true) })

published_later :
    (lookup 4 after_failure.index ≡ none)
    × (lookup 4 (load failing_log after_failure.store none).index.index ≡ some 0)
unfolding insert_key persist_entry store_entry load load_entries load_entry note_value note_request
    present
published_later = (refl, refl)

-- The same log, whose commits never fail.
abbrev small_write : List Entry × List Entry → Entry → (List Entry × List Entry) × Bool
small_write (es, ws) e =
    if ltb (length es) 6 then ((es, ws ++ (e ∷ [])), true) else ((es, ws), false)

small_write-stored :
    (s : List Entry × List Entry) (e : Entry)
    → (small_write s e).1 ≡ true
    → ((small_write s e).0.0 ≡ s.0) × ((small_write s e).0.1 ≡ s.1 ++ (e ∷ []))
small_write-stored (es, ws) e h = ground arith

small_write-failed :
    (s : List Entry × List Entry) (e : Entry)
    → (small_write s e).1 ≡ false
    → ((small_write s e).0.0 ≡ s.0) × ((small_write s e).0.1 ≡ s.1)
small_write-failed (es, ws) e h = ground arith

abbrev small_log : AppendLog
small_log = record {
  Store = List Entry × List Entry;
  iter = λ s. s.0;
  waiting = λ s. s.1;
  store_resource = small_write;
  commit_queue = λ s. (s, true);
  commit_store = λ s. ((s.0 ++ s.1, []), true);
  stored_law = small_write-stored;
  not_stored_law = small_write-failed;
  queue_law = λ s. (refl, refl);
  committed_law = λ s h. (refl, refl);
  not_committed_law = λ s h. cc;
}

-- The key 1 has been served, 2 has been granted once, and 3 waits.
abbrev entries : List Entry
entries = (1, some 0) ∷ (2, some 0) ∷ (1, none) ∷ (3, some 0) ∷ (2, some 1) ∷ []

abbrev stored : List Entry × List Entry
stored = (entries, [])

load-replay_example :
    let q = load small_log stored none in
    ((key : UserPubKey) → lookup key q.index.index ≡ lookup key (replay [] entries))
    × (q.channel ≡ requeue [] entries)
load-replay_example = load-replay small_log stored none

-- The key that was served is not sent again.
channel : (load small_log stored none).channel ≡ 2 ∷ 3 ∷ []
unfolding load load_entries load_entry note_value note_request present
channel = refl

abbrev calls : List IndexCall
calls = insert_call 4 ∷ grant_call 3 5 ∷ remove_call 2 ∷ []

run_calls-reload_example :
    let i = run_calls small_log calls (load small_log stored none).index in
    lookup 4 (load small_log i.store none).index.index ≡ lookup 4 i.index
run_calls-reload_example =
    run_calls-reload small_log (λ s. refl) (λ s. refl) calls stored none 4 refl
