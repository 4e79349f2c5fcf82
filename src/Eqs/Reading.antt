-- ===== src/Eqs/Reading.antt =====
-- What `EthPolling::check` in eqs/src/eth_polling.rs has read when it reports a height.
use cape.Base.{
  ℕ, zero, suc, ◌+◌, ◌≤◌, ◌<◌, ◌≡◌, ◌⊎◌, inl, inr, ap, Bool, false, true, Option, none, some, List,
  [], ◌∷◌, ◌++◌, arith, ok, Outcome-cases, Option-cases, Bool-cases, ltb, ok_or, >>=-eq-ok,
}
use cape.Cap.{u64_mod}
use cape.Model.Types.{CapeModelTxn}
use cape.Eqs.Types.{
  ReceiverMemo, Signature, EqsLib, EthEventIndex, CapeEvent, block_committed,
  erc20_tokens_deposited, faucet_initialized, asset_sponsored, latest_confirmed_block_number,
}
use cape.Eqs.Commit.{Polling, handle_block_committed}
use cape.Eqs.Polling.{
  Node, check, check_range, finish_range, fetch_until, process_events, process_event, handle_event,
  is_repeat, handle_deposited, handle_faucet, handle_sponsored,
}
use cape.Eqs.Window.{latest_confirmed-le, check_range_lem}

module _ (lib : EqsLib) where
  -- A state without the place of the next query and without what is persisted.
  abbrev pub read_state : Polling lib → Polling lib
  read_state p = record p { next_block_to_query = 0; persisted = none }

  handle_block_committed-read_state :
      (p q : Polling lib) (i : EthEventIndex) (decoded : Option (List CapeModelTxn))
      (fetched : Option (List (List ReceiverMemo × Signature)))
      → handle_block_committed lib decoded fetched i p ≡ ok q
      → handle_block_committed lib decoded fetched i (read_state p) ≡ ok (read_state q)
  unfolding handle_block_committed
  handle_block_committed-read_state p q i decoded fetched h = ground arith

  -- An event is handled alike, whether something was reported before it or not.
  handle_event-read_state :
      (i : EthEventIndex) (event : CapeEvent) (p q : Polling lib) (b b' c : Bool)
      → handle_event lib i event (p, b) ≡ ok (q, b')
      → (c' : Bool) × (handle_event lib i event (read_state p, c) ≡ ok (read_state q, c'))
  unfolding handle_event handle_deposited handle_faucet handle_sponsored
  handle_event-read_state i (block_committed decoded fetched) p q b b' c h =
      let (p', handled, e) = >>=-eq-ok (handle_block_committed lib decoded fetched i p) _ h in
      (true, rw (handle_block_committed-read_state p p' i decoded fetched handled) (ground arith))
  handle_event-read_state i (erc20_tokens_deposited decoded code src) p q b b' c h =
      (c, ground arith)
  handle_event-read_state i (faucet_initialized decoded) p q b b' c h = (true, ground arith)
  handle_event-read_state i (asset_sponsored code address) p q b b' c h = (true, ground arith)

  process_event-read_state :
      (e : EthEventIndex × CapeEvent) (p q : Polling lib) (b b' c : Bool)
      → process_event lib e (p, b) ≡ ok (q, b')
      → (c' : Bool) × (process_event lib e (read_state p, c) ≡ ok (read_state q, c'))
  unfolding process_event
  process_event-read_state (i, event) p q b b' c h =
      elim (Bool-cases (is_repeat p.last_event_index i)) [
        | inl repeated ↦ (c, rw repeated (ground arith))
        | inr new ↦ rw new (handle_event-read_state i event p q b b' c (rw new at h))
      ]

  process_events-read_state :
      (es : List (EthEventIndex × CapeEvent)) (p q : Polling lib) (b b' c : Bool)
      → process_events lib es (p, b) ≡ ok (q, b')
      → (c' : Bool) × (process_events lib es (read_state p, c) ≡ ok (read_state q, c'))
  unfolding process_events
  process_events-read_state [] p q b b' c h = (c, ground arith)
  process_events-read_state (e ∷ es) p q b b' c h =
      let ((p1, b1), first, rest) = >>=-eq-ok (process_event lib e (p, b)) _ h in
      let (c1, first') = process_event-read_state e p p1 b b1 c first in
      let (c2, rest') = process_events-read_state es p1 q b1 b' c1 rest in (c2, rw first' rest')

  process_events-append :
      (xs ys : List (EthEventIndex × CapeEvent)) (r s t : Polling lib × Bool)
      → process_events lib xs r ≡ ok s
      → process_events lib ys s ≡ ok t
      → process_events lib (xs ++ ys) r ≡ ok t
  unfolding process_events
  process_events-append [] ys r s t first rest = ground (arith, first, rest)
  process_events-append (x ∷ xs) ys r s t first rest =
      let (r1, one, more) = >>=-eq-ok (process_event lib x r) _ first in
      rw one (process_events-append xs ys r1 s t more rest)

  -- A round that asked for the events up to a block, and what it was answered.
  abbrev pub Part : Type 0
  Part = ℕ × ℕ × List (EthEventIndex × CapeEvent)

  -- The rounds asked for all blocks from one on up to a last one, without a gap, and were answered.
  abbrev pub Covers : Node lib → ℕ → ℕ → List Part → Type 0
  Covers node from next [] = from ≡ next
  Covers node from next ((round, to, es) ∷ parts) =
      (from ≤ to) × (node.query round from to ≡ some es) × Covers node (to + 1) next parts

  abbrev pub all_events : List Part → List (EthEventIndex × CapeEvent)
  all_events [] = []
  all_events ((round, to, es) ∷ parts) = es ++ all_events parts

  -- A reading from one state to another.
  abbrev pub Reads : Node lib → Polling lib → Polling lib → Type 0
  Reads node p q =
      (parts : List Part) × (persist : Bool) × Covers node p.next_block_to_query
        q.next_block_to_query parts
      × (process_events lib (all_events parts) (read_state p, false) ≡ ok (read_state q, persist))

  process_events-any :
      (es : List (EthEventIndex × CapeEvent)) (p q : Polling lib) (b b' c : Bool)
      → process_events lib es (read_state p, b) ≡ ok (read_state q, b')
      → (c' : Bool) × (process_events lib es (read_state p, c) ≡ ok (read_state q, c'))
  process_events-any es p q b b' c h =
      process_events-read_state es (read_state p) (read_state q) b b' c h

  -- A round before a reading.
  check_range-Reads :
      (node : Node lib) (round to : ℕ) (p p' q : Polling lib)
      → p.next_block_to_query ≤ to
      → to + 1 < u64_mod
      → check_range lib to (node.query round p.next_block_to_query to) p ≡ ok p'
      → Reads node p' q
      → Reads node p q
  unfolding check_range finish_range
  check_range-Reads node round to p p' q start small read (parts, persist, covers, later) =
      let (next, most, depth) = check_range_lem lib to _ p p' read small in
      let (es, asked, h1) =
        >>=-eq-ok (ok_or (node.query round p.next_block_to_query to) _) _ read in
      let ((p1, b1), processed, h2) = >>=-eq-ok (process_events lib es (p, false)) _ h1 in
      let (b2, first) = process_events-read_state es p p1 false b1 false processed in
      let same : read_state p1 ≡ read_state p' = ground (arith, h2) in
      let first' : process_events lib es (read_state p, false) ≡ ok (read_state p', b2) =
        rw same at first in
      let (b3, rest) = process_events-any (all_events parts) p' q false persist b2 later in
      (
        (round, to, es) ∷ parts,
        b3,
        (
          start,
          ok_or-eq-some _ (node.query round p.next_block_to_query to) asked,
          rw next at covers,
        ),
        process_events-append es (all_events parts) (read_state p, false) (read_state p', b2)
            (read_state q, b3) first' rest,
      )
    where
      ok_or-eq-some :
          {E : Type 0} (e : E) (o : Option (List (EthEventIndex × CapeEvent)))
          {es : List (EthEventIndex × CapeEvent)}
          → ok_or o e ≡ ok es
          → o ≡ some es
      ok_or-eq-some e none h = cc
      ok_or-eq-some e (some es) h = cc

  -- Nothing is read when the loop ends at once.
  stopped : (node : Node lib) (p q : Polling lib) → p ≡ q → Reads node p q
  unfolding process_events
  stopped node p q same = ([], false, ap (λ r. r.next_block_to_query) same, ground (arith, same))

  -- What a height says: in the last round no block was confirmed, and the height is 0, or the last
  -- confirmed block lies below the height, which is the next block to query.
  abbrev pub CaughtUp : Node lib → Polling lib → ℕ → Type 0
  CaughtUp node q n =
      (round : ℕ) × (latest : ℕ) × (node.latest round ≡ some latest)
      × (((latest_confirmed_block_number q.num_confirmations latest ≡ none) × (n ≡ 0))
          ⊎ ((last : ℕ) × (latest_confirmed_block_number q.num_confirmations latest ≡ some last)
              × (last < n)
              × (n ≡ q.next_block_to_query)))

  -- With a node whose latest block stays at or below a bound, far enough below 2^64: when `check`
  -- returns a height, the ranges that it has asked for follow each other without a gap from the block
  -- where it started up to the next one to query; the state is that of processing their events one
  -- after the other, but for what is persisted; and no block is confirmed, or every confirmed block
  -- lies below the height, which is the next block to query.
  pub check-Reads :
      (node : Node lib) (bound : ℕ)
      → ((round n : ℕ) → node.latest round ≡ some n → n ≤ bound)
      → (fuel round : ℕ) (p q : Polling lib) (n : ℕ) → bound + 1 + p.max_blocks_to_query < u64_mod
      → check lib node fuel round p ≡ some (q, ok n)
      → Reads node p q × CaughtUp node q n
  unfolding check fetch_until
  check-Reads node bound below zero round p q n small h = cc
  check-Reads node bound below (suc fuel) round p q n small h =
      elim (Option-cases (node.latest round)) [
        | inl offline ↦ ground arith
        | inr (latest, online) ↦
            elim (Option-cases (latest_confirmed_block_number p.num_confirmations latest)) [
              | inl young ↦
                  let same : p ≡ q = ground arith in
                  (stopped node p q same, (round, latest, online, inl (ground arith, ground arith)))
              | inr (last, confirmed) ↦ elim (Bool-cases (ltb last p.next_block_to_query)) [
                | inl done ↦
                    let same : p ≡ q = ground arith in
                    (
                      stopped node p q same,
                      (round, latest, online, inr (last, ground arith, ground arith, ground arith)),
                    )
                | inr more ↦
                    let to : ℕ = fetch_until lib last p in
                    let le : last ≤ bound = omega (
                      arith,
                      below round latest online,
                      latest_confirmed-le p.num_confirmations latest last confirmed,
                    ) in
                    elim (Outcome-cases
                      (check_range lib to (node.query round p.next_block_to_query to) p)) [
                        | inl (p', read) ↦
                            let (next, most, depth) =
                              check_range_lem lib to _ p p' read (ground arith) in
                            let (later, caught) =
                              check-Reads node bound below fuel (suc round) p' q n (rw most small)
                                (ground arith) in
                            (
                              check_range-Reads node round to p p' q (ground arith) (ground arith)
                                  read later,
                              caught,
                            )
                        | inr (inl (e, failed)) ↦ absurd (ground arith)
                        | inr (inr crashed) ↦ absurd (ground arith)
                      ]
              ]
            ]
      ]
