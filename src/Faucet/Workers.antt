-- ===== src/Faucet/Workers.antt =====
-- The workers of faucet/src/faucet.rs at their queue, with the requests and the healthchecks between
-- their steps, in any order.
use cape.Base.{
  ℕ, zero, suc, Bool, none, some, List, [], ◌∷◌, nat_eq, if◌then◌else◌, Outcome, ok, err, panic,
}
use cape.Faucet.Types.{UserPubKey, FaucetStatus, FaucetError, AppendLog}
use cape.Faucet.Queue.{Queue, pop, healthcheck, request_fee_assets, Transfer, serve_round}

-- What a worker is at: waiting for a request, serving one, or ended by a panic.
pub data Worker : Type 0 where
  idle : Worker
  busy : UserPubKey → Worker
  crashed : Worker

abbrev pub get_worker : List Worker → ℕ → Worker
get_worker [] w = crashed
get_worker (x ∷ ws) zero = x
get_worker (x ∷ ws) (suc w) = get_worker ws w

abbrev pub set_worker : List Worker → ℕ → Worker → List Worker
set_worker [] w y = []
set_worker (x ∷ ws) zero y = y ∷ ws
set_worker (x ∷ ws) (suc w) y = x ∷ set_worker ws w y

-- What happens next: a request, with the status of the service and the answer of the address book, a
-- healthcheck, a worker that takes a request, or a worker's transfer that ends.
pub data Event (log : AppendLog) : Type 0 where
  requested : FaucetStatus → Bool → UserPubKey → Event log
  checked : FaucetStatus → Event log
  taken : ℕ → Event log
  answered : ℕ → Transfer log → Event log

module _ (log : AppendLog) where
  pub record Faucet : Type 0 where
    pub queue : Queue log
    pub workers : List Worker

  -- The end of a round: the worker goes on with its key, or waits for the next one.
  abbrev pub worker_after : UserPubKey → Outcome FaucetError Bool → Worker
  worker_after key (ok more) = if more then busy key else idle
  worker_after key (err e) = idle
  worker_after key panic = crashed

  abbrev pub take_request : ℕ → Worker → Faucet → Faucet
  take_request w idle f = elim (pop log f.queue) [
    | none ↦ f
    | some (key, q) ↦ record { queue = q; workers = set_worker f.workers w (busy key) }
  ]
  take_request w (busy key) f = f
  take_request w crashed f = f

  abbrev pub end_transfer : ℕ → ℕ → Transfer log → Worker → Faucet → Faucet
  end_transfer num_grants w t (busy key) f =
      let r = serve_round log key num_grants t f.queue in
      record { queue = r.0; workers = set_worker f.workers w (worker_after key r.1) }
  end_transfer num_grants w t idle f = f
  end_transfer num_grants w t crashed f = f

  -- The default key of the healthcheck and the number of grants are the faucet's.
  unfoldable pub run_event : UserPubKey → ℕ → Event log → Faucet → Faucet
  run_event default_key num_grants (requested stat registered key) f = record f {
    queue = (request_fee_assets log stat registered key f.queue).0;
  }
  run_event default_key num_grants (checked stat) f = record f {
    queue = (healthcheck log default_key stat f.queue).0;
  }
  run_event default_key num_grants (taken w) f = take_request w (get_worker f.workers w) f
  run_event default_key num_grants (answered w t) f =
      end_transfer num_grants w t (get_worker f.workers w) f

  unfoldable pub run_events : UserPubKey → ℕ → List (Event log) → Faucet → Faucet
  run_events default_key num_grants [] f = f
  run_events default_key num_grants (e ∷ es) f =
      run_events default_key num_grants es (run_event default_key num_grants e f)
