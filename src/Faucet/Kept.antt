-- ===== src/Faucet/Kept.antt =====
-- While the log of faucet/src/faucet.rs can be written, no request is lost.
use cape.Base.{
  ℕ, ◌+◌, ◌-◌, ◌%◌, ◌≤◌, ◌≡◌, ◌≢◌, refl, ap, Bool, true, false, inl, inr, Option-cases, none, some,
  List, [], ◌∷◌, nat_eq, nat_beq_iff, if◌then◌else◌, arith,
}
use cape.Base.Map.{lookup, contains_key, lookup-insert, lookup-erase}
use cape.Cap.{u64_mod}
use cape.Faucet.Types.{UserPubKey, FaucetStatus, initializing, available, AppendLog, Entry}
use cape.Faucet.Index.{
  store_entry, Index, persist_entry, insert_key, remove_key, grant_key, grant_given,
}
use cape.Faucet.Queue.{
  Queue, push, insert_request, send, pop, grant, more_grants, fail, healthcheck, request_fee_assets,
  Transfer, transferred, pubkey_not_found, other_error, serve_round,
}
use cape.Faucet.Workers.{
  Worker, idle, busy, crashed, get_worker, Event, requested, checked, taken, answered, Faucet,
  worker_after, take_request, end_transfer, run_event, run_events,
}
use cape.Faucet.Places.{
  count, count-append, weight, held, held-set_worker, weight-held, indexed, checked-indexed,
}

module _ (log : AppendLog)
    (stores : (s : log.Store) (e : Entry) → (store_entry log s e).1 ≡ true) where
  -- The channel takes messages.
  abbrev Open : Queue log → Type 0
  Open q = q.closed ≡ false

  push-kept :
      (k key : UserPubKey) (q : Queue log) (h : ℕ)
      → Open q
      → h + count k q.channel ≡ indexed log k q
      → Open (push log key q).0
        × (h + count k (push log key q).0.channel ≡ indexed log k (push log key q).0)
  unfolding push insert_request send insert_key persist_entry
  push-kept k key q h opened same = ground (
    arith,
    stores q.index.store (key, some 0),
    lookup-insert k key 0 q.index.index,
    count-append k q.channel key,
    nat_beq_iff k key,
  )

  requested-kept :
      (k key : UserPubKey) (stat : FaucetStatus) (registered : Bool) (q : Queue log) (h : ℕ)
      → Open q
      → h + count k q.channel ≡ indexed log k q
      → let p = (request_fee_assets log stat registered key q).0 in
        Open p × (h + count k p.channel ≡ indexed log k p)
  unfolding request_fee_assets
  requested-kept k key initializing registered q h opened same = (opened, same)
  requested-kept k key available true q h opened same = push-kept k key q h opened same
  requested-kept k key available false q h opened same = (opened, same)

  healthcheck-Open :
      (default_key : UserPubKey) (stat : FaucetStatus) (q : Queue log)
      → Open q
      → Open (healthcheck log default_key stat q).0
  unfolding healthcheck
  healthcheck-Open default_key stat q opened = ground arith

  granted-kept :
      (k key given num_grants n : ℕ) (i : Index log) (h c : ℕ)
      → lookup key i.index ≡ some given
      → h + weight k (busy key) + c ≡ (if contains_key i.index k then 1 else 0)
      → let r = grant_given log key n num_grants i in
        h + weight k (worker_after log key (more_grants log r.1)) + c
        ≡ (if contains_key r.0.index k then 1 else 0)
  unfolding grant_given remove_key persist_entry
  granted-kept k key given num_grants n i h c found same = ground (
    arith,
    stores i.store (key, none),
    stores i.store (key, some n),
    lookup-erase k key i.index,
    lookup-insert k key n i.index,
    nat_beq_iff k key,
  )

  round-kept :
      (k key : UserPubKey) (num_grants : ℕ) (t : Transfer log) (q : Queue log) (h : ℕ)
      → Open q
      → h + weight k (busy key) + count k q.channel ≡ indexed log k q
      → let r = serve_round log key num_grants t q in
        Open r.0
        × (h + weight k (worker_after log key r.1) + count k r.0.channel ≡ indexed log k r.0)
  unfolding serve_round grant grant_key remove_key persist_entry fail send
  round-kept k key num_grants transferred q h opened same = (
    opened,
    elim (Option-cases (lookup key q.index.index)) [
      | inl missing ↦ rw (missing, grant_key) (ground (arith, missing, same, nat_beq_iff k key))
      | inr (given, found) ↦
          rw (found, grant_key)
            (granted-kept k key given num_grants ((given + 1) % u64_mod) q.index h
              (count k q.channel) found same)
    ],
  )
  round-kept k key num_grants pubkey_not_found q h opened same =
      ground (
        arith,
        stores q.index.store (key, none),
        lookup-erase k key q.index.index,
        nat_beq_iff k key,
      )
  round-kept k key num_grants other_error q h opened same =
      ground (arith, count-append k q.channel key)

  -- The index has the key as often as the channel and the workers.
  abbrev pub Kept : UserPubKey → Faucet log → Type 0
  Kept k f = Open f.queue × (held k f.workers + count k f.queue.channel ≡ indexed log k f.queue)

  take_request-Kept :
      (k : UserPubKey) (w : ℕ) (f : Faucet log)
      → Kept k f
      → Kept k (take_request log w (get_worker f.workers w) f)
  unfolding pop
  take_request-Kept k w f (opened, same) = with_worker (get_worker f.workers w) refl
    where
      with_channel :
          (keys : List UserPubKey)
          → f.queue.channel ≡ keys
          → get_worker f.workers w ≡ idle
          → Kept k (take_request log w idle f)
      with_channel [] e free = rw e (opened, omega (arith, same, ap (count k) e))
      with_channel (key ∷ rest) e free =
          let moved = held-set_worker k f.workers w idle (busy key) free (λ p. cc) in
          let counted : count k f.queue.channel ≡ weight k (busy key) + count k rest =
            ap (count k) e in
          rw e (opened, omega (arith, same, moved, counted))

      with_worker : (x : Worker) → get_worker f.workers w ≡ x → Kept k (take_request log w x f)
      with_worker idle free = with_channel f.queue.channel refl free
      with_worker (busy key) e = (opened, same)
      with_worker crashed e = (opened, same)

  end_transfer-Kept :
      (k : UserPubKey) (num_grants w : ℕ) (t : Transfer log) (f : Faucet log)
      → Kept k f
      → Kept k (end_transfer log num_grants w t (get_worker f.workers w) f)
  end_transfer-Kept k num_grants w t f (opened, same) = with_worker (get_worker f.workers w) refl
    where
      with_worker :
          (x : Worker) → get_worker f.workers w ≡ x → Kept k (end_transfer log num_grants w t x f)
      with_worker idle e = (opened, same)
      with_worker crashed e = (opened, same)
      with_worker (busy key) e =
          let r = serve_round log key num_grants t f.queue in
          let moved =
            held-set_worker k f.workers w (busy key) (worker_after log key r.1) e (λ p. cc) in
          let others : ℕ = held k f.workers - weight k (busy key) in
          let with_key : weight k (busy key) ≤ held k f.workers =
            weight-held k f.workers w (busy key) e in
          let (still_open, round) =
            round-kept k key num_grants t f.queue others opened (omega (arith, same, with_key)) in
          (still_open, omega (arith, round, moved, with_key))

  run_event-Kept :
      (k default_key : UserPubKey) (num_grants : ℕ) (e : Event log) (f : Faucet log)
      → k ≢ default_key
      → Kept k f
      → Kept k (run_event log default_key num_grants e f)
  unfolding run_event
  run_event-Kept k default_key num_grants (requested stat registered key) f other (opened, same) =
      requested-kept k key stat registered f.queue (held k f.workers) opened same
  run_event-Kept k default_key num_grants (checked stat) f other (opened, same) =
      let (same_present, same_channel) = checked-indexed log k default_key stat f.queue other in
      (
        healthcheck-Open default_key stat f.queue opened,
        omega (arith, same, same_present, ap (count k) same_channel),
      )
  run_event-Kept k default_key num_grants (taken w) f other h = take_request-Kept k w f h
  run_event-Kept k default_key num_grants (answered w t) f other h =
      end_transfer-Kept k num_grants w t f h

  -- While every write succeeds, in an open channel: whatever is requested and checked, and however the
  -- workers' steps come between, the index has a key other than the healthcheck's exactly as long as one
  -- worker has it or it is in the channel.
  pub run_events-Kept :
      (k default_key : UserPubKey) (num_grants : ℕ) (es : List (Event log)) (f : Faucet log)
      → k ≢ default_key
      → f.queue.closed ≡ false
      → held k f.workers + count k f.queue.channel ≡ indexed log k f.queue
      → let g = run_events log default_key num_grants es f in
        held k g.workers + count k g.queue.channel ≡ indexed log k g.queue
  unfolding run_events
  run_events-Kept k default_key num_grants [] f other opened same = same
  run_events-Kept k default_key num_grants (e ∷ es) f other opened same =
      let (still_open, still) = run_event-Kept k default_key num_grants e f other (opened, same) in
      run_events-Kept k default_key num_grants es (run_event log default_key num_grants e f) other
        still_open still
