-- ===== src/Faucet/WorkerTests.antt =====
-- Two workers of faucet/src/faucet.rs at one queue.
use cape.Base.{◌+◌, ◌≡◌, ◌≤◌, refl, true, none, List, [], ◌∷◌, ◌++◌, arith, nat_eq}
use cape.Faucet.Types.{Entry, AppendLog, available}
use cape.Faucet.Index.{store_entry}
use cape.Faucet.Queue.{load, load_entries, present, transferred, other_error}
use cape.Faucet.Workers.{Event, requested, checked, taken, answered, Faucet, run_events}
use cape.Faucet.Places
use cape.Faucet.Places.{count, held}
use cape.Faucet.Once.{started, started-AtMostOnce}
use cape.Faucet.Kept.{run_events-Kept}

abbrev endless_log : AppendLog
endless_log = record {
  Store = List Entry × List Entry;
  iter = λ s. s.0;
  waiting = λ s. s.1;
  store_resource = λ s e. ((s.0, s.1 ++ (e ∷ [])), true);
  commit_queue = λ s. (s, true);
  commit_store = λ s. ((s.0 ++ s.1, []), true);
  stored_law = λ s e h. (refl, refl);
  not_stored_law = λ s e h. cc;
  queue_law = λ s. (refl, refl);
  committed_law = λ s h. (refl, refl);
  not_committed_law = λ s h. cc;
}

-- The keys 5 and 6 are requested and taken; a transfer to 6 fails and one to 5 is made.
abbrev events : List (Event endless_log)
events =
    requested available true 5
    ∷ requested available true 6
    ∷ taken 0
    ∷ taken 1
    ∷ checked available
    ∷ answered 1 other_error
    ∷ answered 0 transferred
    ∷ requested available true 5
    ∷ []

abbrev faucet : Faucet endless_log
faucet = started endless_log ([], []) none 2

started-AtMostOnce_example :
    let f = run_events endless_log 0 2 events faucet in
    held 5 f.workers + count 5 f.queue.channel ≤ Places.indexed endless_log 5 f.queue
started-AtMostOnce_example =
    started-AtMostOnce endless_log 5 0 2 2 ([], []) none events (omega arith)

run_events-Kept_example :
    let f = run_events endless_log 0 2 events faucet in
    held 6 f.workers + count 6 f.queue.channel ≡ Places.indexed endless_log 6 f.queue
unfolding load load_entries present store_entry
run_events-Kept_example =
    run_events-Kept endless_log (λ s e. refl) 6 0 2 events faucet (omega arith) refl refl
