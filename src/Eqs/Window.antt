-- ===== src/Eqs/Window.antt =====
-- The loop of `EthPolling::check` in eqs/src/eth_polling.rs ends.
use cape.Base.{
  ℕ, zero, suc, ◌+◌, ◌≤◌, ◌<◌, ◌≡◌, inl, inr, refl, Bool, false, Option, some, List, [], ◌∷◌, arith,
  ok, err, panic, Outcome-cases, Option-cases, Bool-cases, ltb, ok_or, >>=-eq-ok,
}
use cape.Cap.{u64_mod}
use cape.Model.Types.{CapeModelTxn}
use cape.Eqs.Types.{
  ReceiverMemo, Signature, EqsLib, EthEventIndex, CapeEvent, block_committed,
  erc20_tokens_deposited, faucet_initialized, asset_sponsored, Confirmations,
  latest_confirmed_block_number, no_block_number,
}
use cape.Eqs.Commit.{Call, Polling, handle_block_committed}
use cape.Eqs.Polling.{
  Node, check, check_range, finish_range, fetch_until, process_events, process_event, handle_event,
  handle_deposited, handle_faucet, handle_sponsored,
}

pub latest_confirmed-le :
    (c : Confirmations) (latest n : ℕ)
    → latest_confirmed_block_number c latest ≡ some n
    → n ≤ latest
unfolding latest_confirmed_block_number
latest_confirmed-le c latest n h = ground arith

module _ (lib : EqsLib) where
  -- The settings of the polling and the block of the next query.
  record SameSettings (p q : Polling lib) : Type 0 where
    next : q.next_block_to_query ≡ p.next_block_to_query
    most : q.max_blocks_to_query ≡ p.max_blocks_to_query
    depth : q.num_confirmations ≡ p.num_confirmations

  handle_block_committed-SameSettings :
      (p q : Polling lib) (i : EthEventIndex) (decoded : Option (List CapeModelTxn))
      (fetched : Option (List (List ReceiverMemo × Signature)))
      → handle_block_committed lib decoded fetched i p ≡ ok q
      → SameSettings p q
  unfolding handle_block_committed
  handle_block_committed-SameSettings p q i decoded fetched h = ground arith

  handle_event-SameSettings :
      (i : EthEventIndex) (event : CapeEvent) (p q : Polling lib) (persist persist' : Bool)
      → handle_event lib i event (p, persist) ≡ ok (q, persist')
      → SameSettings p q
  unfolding handle_event handle_deposited handle_faucet handle_sponsored
  handle_event-SameSettings i (block_committed decoded fetched) p q persist persist' h =
      let (p', handled, e) = >>=-eq-ok (handle_block_committed lib decoded fetched i p) _ h in
      handle_block_committed-SameSettings p q i decoded fetched (ground arith)
  handle_event-SameSettings i (erc20_tokens_deposited decoded code src) p q persist persist' h =
      ground arith
  handle_event-SameSettings i (faucet_initialized decoded) p q persist persist' h = ground arith
  handle_event-SameSettings i (asset_sponsored code address) p q persist persist' h = ground arith

  process_events-SameSettings :
      (es : List (EthEventIndex × CapeEvent)) (p q : Polling lib) (persist persist' : Bool)
      → process_events lib es (p, persist) ≡ ok (q, persist')
      → SameSettings p q
  unfolding process_events process_event
  process_events-SameSettings [] p q persist persist' h = ground arith
  process_events-SameSettings ((i, event) ∷ es) p q persist persist' h =
      let ((p', persist1), first, rest) =
        >>=-eq-ok (process_event lib (i, event) (p, persist)) _ h in
      ground (
        arith,
        handle_event-SameSettings i event p p' persist persist1,
        process_events-SameSettings es p' q persist1 persist' rest,
      )

  pub check_range_lem :
      (to : ℕ) (events : Option (List (EthEventIndex × CapeEvent))) (p q : Polling lib)
      → check_range lib to events p ≡ ok q
      → to + 1 < u64_mod
      → (q.next_block_to_query ≡ to + 1)
        × (q.max_blocks_to_query ≡ p.max_blocks_to_query)
        × (q.num_confirmations ≡ p.num_confirmations)
  unfolding check_range finish_range
  check_range_lem to events p q h small =
      let (es, queried, h1) = >>=-eq-ok (ok_or events _) _ h in
      let ((p', persist), processed, h2) = >>=-eq-ok (process_events lib es (p, false)) _ h1 in
      ground (arith, process_events-SameSettings es p p' false persist processed)

  -- The loop of `check` always ends: with a node whose latest block stays at or below `bound`, fuel
  -- for the blocks that are left and two rounds more is enough, and the loop gives a result.
  pub check_total :
      (node : Node lib) (bound : ℕ)
      → ((round n : ℕ) → node.latest round ≡ some n → n ≤ bound)
      → (fuel round : ℕ) (p : Polling lib) → bound + 2 ≤ p.next_block_to_query + fuel
      → p.next_block_to_query ≤ bound + 1
      → bound + 1 + p.max_blocks_to_query < u64_mod
      → (r : Polling lib × Call lib ℕ) × (check lib node fuel round p ≡ some r)
  unfolding check fetch_until
  check_total node bound below zero round p enough start small = absurd (omega arith)
  check_total node bound below (suc fuel) round p enough start small =
      elim (Option-cases (node.latest round)) [
        | inl offline ↦ rw (offline, check) ((p, err no_block_number), refl)
        | inr (latest, online) ↦
            elim (Option-cases (latest_confirmed_block_number p.num_confirmations latest)) [
              | inl young ↦ rw (online, young, check) ((p, ok 0), refl)
              | inr (last, confirmed) ↦ elim (Bool-cases (ltb last p.next_block_to_query)) [
                | inl done ↦
                    rw (online, confirmed, done, check) ((p, ok p.next_block_to_query), refl)
                | inr more ↦
                    let to : ℕ = fetch_until lib last p in
                    let le : last ≤ bound = omega (
                      arith,
                      below round latest online,
                      latest_confirmed-le p.num_confirmations latest last confirmed,
                    ) in
                    elim (Outcome-cases
                      (check_range lib to (node.query round p.next_block_to_query to) p)) [
                        | inl (q, read) ↦
                            let (next, most, depth) =
                              check_range_lem to _ p q read (ground arith) in
                            let (r, e) =
                              check_total node bound below fuel (suc round) q (ground arith)
                                (ground arith) (rw most small) in
                            (
                              r,
                              rw (online, check)
                                  (rw (confirmed, check) (rw (more, check) (rw (read, check) e))),
                            )
                        | inr (inl (e, failed)) ↦ (
                          (p, err e),
                          rw (online, check)
                              (rw (confirmed, check) (rw (more, check) (rw (failed, check)))),
                        )
                        | inr (inr crashed) ↦ (
                          (p, panic),
                          rw (online, check)
                              (rw (confirmed, check) (rw (more, check) (rw (crashed, check)))),
                        )
                      ]
              ]
            ]
      ]
