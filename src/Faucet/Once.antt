-- ===== src/Faucet/Once.antt =====
-- A request of faucet/src/faucet.rs is in one place at most, whatever fails.
use cape.Base.{
  ℕ, zero, suc, ◌+◌, ◌-◌, ◌%◌, ◌≤◌, ◌≡◌, ◌≢◌, refl, ap, Bool, true, false, inl, inr, Option-cases,
  Option, none, some, List, [], ◌∷◌, ◌==◌, nat_eq, nat_beq_iff, if◌then◌else◌, arith,
}
use cape.Base.Map.{Map, lookup, insert, erase, contains_key, lookup-insert, lookup-erase}
use cape.Cap.{u64_mod}
use cape.Faucet.Types.{UserPubKey, FaucetStatus, initializing, available, AppendLog, Entry}
use cape.Faucet.Index.{Index, persist_entry, insert_key, remove_key, grant_key, grant_given}
use cape.Faucet.Queue.{
  Queue, load, push, insert_request, send, pop, grant, more_grants, fail, request_fee_assets,
  Transfer, transferred, pubkey_not_found, other_error, serve_round,
}
use cape.Faucet.Load.{replay, requeue, requeue_entry, without, load-replay}
use cape.Faucet.Workers.{
  Worker, idle, busy, crashed, get_worker, Event, requested, checked, taken, answered, Faucet,
  worker_after, take_request, end_transfer, run_event, run_events,
}
use cape.Faucet.Places.{
  count, count-append, weight, held, held-set_worker, weight-held, indexed, checked-indexed,
}

abbrev pub all_idle : ℕ → List Worker
all_idle zero = []
all_idle (suc n) = idle ∷ all_idle n

held-all_idle : (k : UserPubKey) (n : ℕ) → held k (all_idle n) ≡ 0
held-all_idle k zero = refl
held-all_idle k (suc n) = omega (arith, held-all_idle k n)

count-without :
    (k key : UserPubKey) (ks : List UserPubKey)
    → count k (without key ks) ≡ (if k == key then 0 else count k ks)
count-without k key [] = ground arith
count-without k key (x ∷ ks) =
    ground (arith, count-without k key ks, nat_beq_iff k key, nat_beq_iff k x, nat_beq_iff x key)

-- A key that the log queues is one that it has.
requeue-indexed :
    (k : UserPubKey) (ks : List UserPubKey) (m : Map UserPubKey ℕ) (es : List Entry)
    → count k ks ≤ (if contains_key m k then 1 else 0)
    → count k (requeue ks es) ≤ (if contains_key (replay m es) k then 1 else 0)
requeue-indexed k ks m [] h = h
requeue-indexed k ks m ((key, none) ∷ es) h =
    requeue-indexed k (without key ks) (erase key m) es
      (ground (arith, h, count-without k key ks, lookup-erase k key m))
requeue-indexed k ks m ((key, some val) ∷ es) h =
    requeue-indexed k (requeue_entry ks (key, some val)) (insert key val m) es (
      ground (
        arith,
        h,
        count-without k key ks,
        count-append k (without key ks) key,
        lookup-insert k key val m,
        nat_beq_iff k key,
      ))

module _ (log : AppendLog) where
  push-indexed :
      (k key : UserPubKey) (q : Queue log) (h : ℕ)
      → h + count k q.channel ≤ indexed log k q
      → h + count k (push log key q).0.channel ≤ indexed log k (push log key q).0
  unfolding push insert_request send insert_key persist_entry
  push-indexed k key q h below =
      ground (
        arith,
        lookup-insert k key 0 q.index.index,
        count-append k q.channel key,
        nat_beq_iff k key,
      )

  requested-indexed :
      (k key : UserPubKey) (stat : FaucetStatus) (registered : Bool) (q : Queue log) (h : ℕ)
      → h + count k q.channel ≤ indexed log k q
      → h + count k (request_fee_assets log stat registered key q).0.channel
        ≤ indexed log k (request_fee_assets log stat registered key q).0
  unfolding request_fee_assets
  requested-indexed k key initializing registered q h below = below
  requested-indexed k key available true q h below = push-indexed k key q h below
  requested-indexed k key available false q h below = below

  -- A grant to a key that the index has.
  granted-indexed :
      (k key given num_grants n : ℕ) (i : Index log) (h c : ℕ)
      → lookup key i.index ≡ some given
      → h + weight k (busy key) + c ≤ (if contains_key i.index k then 1 else 0)
      → let r = grant_given log key n num_grants i in
        h + weight k (worker_after log key (more_grants log r.1)) + c
        ≤ (if contains_key r.0.index k then 1 else 0)
  unfolding grant_given remove_key persist_entry
  granted-indexed k key given num_grants n i h c found below =
      ground (arith, lookup-erase k key i.index, lookup-insert k key n i.index, nat_beq_iff k key)

  -- A round of a worker that has a key: it keeps the key, gives it back to the channel, or drops it.
  round-indexed :
      (k key : UserPubKey) (num_grants : ℕ) (t : Transfer log) (q : Queue log) (h : ℕ)
      → h + weight k (busy key) + count k q.channel ≤ indexed log k q
      → let r = serve_round log key num_grants t q in
        h + weight k (worker_after log key r.1) + count k r.0.channel ≤ indexed log k r.0
  unfolding serve_round grant grant_key grant_given remove_key persist_entry fail send
  round-indexed k key num_grants transferred q h below =
      elim (Option-cases (lookup key q.index.index)) [
        | inl missing ↦ rw (missing, grant_key) (ground arith)
        | inr (given, found) ↦
            rw (found, grant_key)
              (granted-indexed k key given num_grants ((given + 1) % u64_mod) q.index h
                (count k q.channel) found below)
      ]
  round-indexed k key num_grants pubkey_not_found q h below =
      ground (arith, lookup-erase k key q.index.index, nat_beq_iff k key)
  round-indexed k key num_grants other_error q h below =
      ground (arith, count-append k q.channel key)

  -- The key is in at most one place, the channel or a worker, and only if the index has it.
  abbrev pub AtMostOnce : UserPubKey → Faucet log → Type 0
  AtMostOnce k f = held k f.workers + count k f.queue.channel ≤ indexed log k f.queue

  take_request-AtMostOnce :
      (k : UserPubKey) (w : ℕ) (f : Faucet log)
      → AtMostOnce k f
      → AtMostOnce k (take_request log w (get_worker f.workers w) f)
  unfolding pop
  take_request-AtMostOnce k w f h = with_worker (get_worker f.workers w) refl
    where
      with_channel :
          (keys : List UserPubKey)
          → f.queue.channel ≡ keys
          → get_worker f.workers w ≡ idle
          → AtMostOnce k (take_request log w idle f)
      with_channel [] e free = rw e (omega (arith, h, ap (count k) e))
      with_channel (key ∷ rest) e free =
          let moved = held-set_worker k f.workers w idle (busy key) free (λ p. cc) in
          let counted : count k f.queue.channel ≡ weight k (busy key) + count k rest =
            ap (count k) e in
          rw e (omega (arith, h, moved, counted))

      with_worker :
          (x : Worker) → get_worker f.workers w ≡ x → AtMostOnce k (take_request log w x f)
      with_worker idle free = with_channel f.queue.channel refl free
      with_worker (busy key) e = h
      with_worker crashed e = h

  end_transfer-AtMostOnce :
      (k : UserPubKey) (num_grants w : ℕ) (t : Transfer log) (f : Faucet log)
      → AtMostOnce k f
      → AtMostOnce k (end_transfer log num_grants w t (get_worker f.workers w) f)
  end_transfer-AtMostOnce k num_grants w t f h = with_worker (get_worker f.workers w) refl
    where
      with_worker :
          (x : Worker)
          → get_worker f.workers w ≡ x
          → AtMostOnce k (end_transfer log num_grants w t x f)
      with_worker idle e = h
      with_worker crashed e = h
      with_worker (busy key) e =
          let r = serve_round log key num_grants t f.queue in
          let moved =
            held-set_worker k f.workers w (busy key) (worker_after log key r.1) e (λ p. cc) in
          let others : ℕ = held k f.workers - weight k (busy key) in
          let with_key : weight k (busy key) ≤ held k f.workers =
            weight-held k f.workers w (busy key) e in
          let round =
            round-indexed k key num_grants t f.queue others (omega (arith, h, with_key)) in
          omega (arith, round, moved, with_key)

  run_event-AtMostOnce :
      (k default_key : UserPubKey) (num_grants : ℕ) (e : Event log) (f : Faucet log)
      → k ≢ default_key
      → AtMostOnce k f
      → AtMostOnce k (run_event log default_key num_grants e f)
  unfolding run_event
  run_event-AtMostOnce k default_key num_grants (requested stat registered key) f other h =
      requested-indexed k key stat registered f.queue (held k f.workers) h
  run_event-AtMostOnce k default_key num_grants (checked stat) f other h =
      let (same_present, same_channel) = checked-indexed log k default_key stat f.queue other in
      omega (arith, h, same_present, ap (count k) same_channel)
  run_event-AtMostOnce k default_key num_grants (taken w) f other h =
      take_request-AtMostOnce k w f h
  run_event-AtMostOnce k default_key num_grants (answered w t) f other h =
      end_transfer-AtMostOnce k num_grants w t f h

  run_events-AtMostOnce :
      (k default_key : UserPubKey) (num_grants : ℕ) (es : List (Event log)) (f : Faucet log)
      → k ≢ default_key
      → AtMostOnce k f
      → AtMostOnce k (run_events log default_key num_grants es f)
  unfolding run_events
  run_events-AtMostOnce k default_key num_grants [] f other h = h
  run_events-AtMostOnce k default_key num_grants (e ∷ es) f other h =
      run_events-AtMostOnce k default_key num_grants es (run_event log default_key num_grants e f)
        other (run_event-AtMostOnce k default_key num_grants e f other h)

  -- A faucet that has just been loaded.
  abbrev pub started : log.Store → Option ℕ → ℕ → Faucet log
  started store max_len num_workers = record {
    queue = load log store max_len;
    workers = all_idle num_workers;
  }

  -- After a restart, whatever is requested and checked, however the workers' steps come between, and
  -- whichever transfers and writes fail: a key other than the healthcheck's is with one worker or once
  -- in the channel at most, and only while the index has it.
  pub started-AtMostOnce :
      (k default_key : UserPubKey) (num_grants num_workers : ℕ) (store : log.Store)
      (max_len : Option ℕ) (es : List (Event log))
      → k ≢ default_key
      → let f = run_events log default_key num_grants es (started store max_len num_workers) in
        held k f.workers + count k f.queue.channel ≤ indexed log k f.queue
  started-AtMostOnce k default_key num_grants num_workers store max_len es other =
      let (same_index, same_channel) = load-replay log store max_len in
      let waiting = requeue-indexed k [] [] (log.iter store) (omega arith) in
      let nobody = held-all_idle k num_workers in
      run_events-AtMostOnce k default_key num_grants es (started store max_len num_workers) other
        (ground (arith, waiting, nobody, same_index k, ap (count k) same_channel))
