-- ===== src/Wallet/Progress.antt =====
-- The stream of wallet/src/backend.rs reaches its end, and its delays stay within their bounds.
use cape.Base.{
  ℕ, ◌+◌, ◌-◌, ◌≤◌, ◌<◌, ◌≡◌, refl, sym, ap, ◌∙◌, subst, inl, inr, min, Bool-cases, Option-cases,
  Option, none, some, List, [], ◌∷◌, ◌++◌, arith, length, length-take, length-drop, leb, take, drop,
  leb→le, All, All-map, true, none≢some,
}
use cape.Cap.{u64_mod}
use cape.Eqs.Types.{EqsLib}
use cape.Eqs.Commit.{QueryState, Event}
use cape.Wallet.Stream.{
  StreamState, next_request, slow_down, receive, answer, answered, poll, stream, subscribe,
}
use cape.Wallet.Delivery.{
  Prefix, Within, Earlier, answer-take, receive-page, receive-from, next_request_lem, poll_lem,
  stream-follows, some-injective,
}

module _ (lib : EqsLib) where
  -- How many of the polls reach the service.
  abbrev pub reached_by : Option (QueryState lib) → ℕ
  reached_by none = 0
  reached_by (some q) = 1

  abbrev pub reached : List (Option (QueryState lib)) → ℕ
  reached [] = 0
  reached (service ∷ services) = reached_by service + reached services

  -- The service has the events up to a number, when it can be reached.
  abbrev pub Ready : List (Event lib) → ℕ → Option (QueryState lib) → Type 0
  Ready events to none = Unit
  Ready events to (some q) = Prefix q.events events × (to ≤ length q.events)

  Ready-Earlier :
      (events : List (Event lib)) (to : ℕ) (service : Option (QueryState lib))
      → Ready events to service
      → Earlier lib events service
  Ready-Earlier events to none ready = tt
  Ready-Earlier events to (some q) ready = ready.0

  -- A service that is reached and has the events moves the stream on.
  answer-progress :
      (service : Option (QueryState lib)) (events : List (Event lib)) (s : StreamState) (to : ℕ)
      → Ready events to service
      → s.from < to
      → to < u64_mod
      → s.from + reached_by service
        ≤ (receive (answer lib service s.from (some (to - s.from))) s).1.from
  unfolding receive slow_down
  answer-progress none events s to ready ahead small = omega arith
  answer-progress (some q) events s to ready ahead small =
      let count = to - s.from in
      let page = take (min count 100) (drop s.from q.events) in
      let place : (receive (some page) s).1.from ≡ s.from + length page =
        (receive-from (some page) s).0 ∙ ap (λ es. s.from + length es) (receive-page page s) in
      rw
        (
          answer-take lib q s.from (some count) (omega (arith, ahead, small))
              (omega arith, omega (arith, small)),
          place,
        )
        (omega (
          arith,
          length-take (min count 100) (drop s.from q.events),
          length-drop s.from q.events,
          ready.1,
          ahead,
        ))

  poll-progress :
      (service : Option (QueryState lib)) (events : List (Event lib)) (s t : StreamState) (to : ℕ)
      (es : List (Event lib))
      → Ready events to service
      → s.to ≡ some to
      → Within s.to s.from
      → to < u64_mod
      → poll lib service s ≡ some (es, t)
      → s.from + reached_by service ≤ t.from
  unfolding poll
  poll-progress service events s t to es ready ends within small h =
      elim (next_request_lem lib s within) [
        | inl done ↦ absurd (none≢some (sym (ap (answered lib service s) done) ∙ h))
        | inr (count, asked, small_count, bounded) ↦
            let (ahead, exact) = bounded to ends in
            let got : receive (answer lib service s.from count) s ≡ (es, t) =
              some-injective (sym (ap (answered lib service s) asked) ∙ h) in
            subst (λ x. s.from + reached_by service ≤ x.1.from) got
              (subst
                (λ c.
                  s.from + reached_by service ≤ (receive (answer lib service s.from c) s).1.from)
                (sym exact) (answer-progress service events s to ready ahead small))
      ]

  answered-none :
      (service : Option (QueryState lib)) (s : StreamState) (o : Option (ℕ × Option ℕ))
      → answered lib service s o ≡ none
      → o ≡ none
  answered-none service s none h = refl
  answered-none service s (some request) h = absurd (none≢some (sym h))

  -- A stream that does not ask is at its end.
  finished :
      (s : StreamState) (to : ℕ)
      → s.to ≡ some to
      → s.from ≤ to
      → next_request s ≡ none
      → s.from ≡ to
  unfolding next_request
  finished s to ends before h = elim (Bool-cases (leb to s.from)) [
    | inl done ↦ omega (arith, leb→le to s.from done, before)
    | inr going ↦ ground (arith, h, ends, going)
  ]

  at_end : (s : StreamState) (to : ℕ) → s.to ≡ some to → s.from ≡ to → next_request s ≡ none
  unfolding next_request
  at_end s to ends there = let done : leb to s.from ≡ true = ground arith in rw (ends, done) refl

  stream-arrives :
      (services : List (Option (QueryState lib))) (events : List (Event lib)) (s : StreamState)
      (to : ℕ)
      → All (Ready events to) services
      → s.to ≡ some to
      → s.from ≤ to
      → to < u64_mod
      → length events < u64_mod
      → to ≤ s.from + reached services
      → ((stream lib services s).1.from ≡ to) × ((stream lib services s).1.to ≡ some to)
  unfolding stream poll
  stream-arrives [] events s to ready ends before small room enough = (omega arith, ends)
  stream-arrives (service ∷ services) events s to ready ends before small room enough =
      let within : Within s.to s.from = subst (λ o. Within o s.from) (sym ends) (before, small) in
      elim (Option-cases (poll lib service s)) [
        | inl ended ↦
            rw ended
              (finished s to ends before (answered-none service s (next_request s) ended), ends)
        | inr ((es, t), polled) ↦
            let (follows, small_t, kept, within_t) =
              poll_lem lib service events s t es (Ready-Earlier events to service ready.0)
                (omega (arith, before, small)) room within polled in
            let ends_t : t.to ≡ some to = kept ∙ ends in
            let w : Within (some to) t.from = subst (λ o. Within o t.from) ends_t within_t in
            let moved = poll-progress service events s t to es ready.0 ends within small polled in
            let rest =
              stream-arrives services events t to ready.1 ends_t w.0 small room
                (omega (arith, moved, enough)) in
            rw polled rest
      ]

  -- With numbers of events below 2^64: a stream up to an event that the service has whenever it is
  -- reached ends after as many polls that reach the service as it has events to yield, whatever
  -- polls fail between them, and has yielded just these events.
  pub stream-delivers :
      (services : List (Option (QueryState lib))) (events : List (Event lib)) (s : StreamState)
      (to : ℕ)
      → All (Ready events to) services
      → s.to ≡ some to
      → s.from ≤ to
      → to < u64_mod
      → length events < u64_mod
      → to ≤ s.from + reached services
      → let r = stream lib services s in
        (next_request r.1 ≡ none) × (drop s.from events ≡ r.0 ++ drop to events)
  stream-delivers services events s to ready ends before small room enough =
      let (there, kept) = stream-arrives services events s to ready ends before small room enough in
      let (follows, inside) =
        stream-follows lib services events s
          (All-map (Ready events to) (Earlier lib events) (Ready-Earlier events to) services ready)
          (omega (arith, before, small)) room
          (subst (λ o. Within o s.from) (sym ends) (before, small)) in
      (
        at_end (stream lib services s).1 to kept there,
        subst (λ n. drop s.from events ≡ (stream lib services s).0 ++ drop n events) there follows,
      )

  -- The delay of a stream lies between its bounds.
  abbrev pub Delayed : ℕ → StreamState → Type 0
  Delayed least s =
      (s.min_backoff ≡ least) × (s.max_backoff ≡ 10000) × (least ≤ s.backoff) × (s.backoff ≤ 10000)

  receive-Delayed :
      {A : Type 0} (page : Option (List A)) (least : ℕ) (s : StreamState)
      → least ≤ 10000
      → Delayed least s
      → Delayed least (receive page s).1
  unfolding receive slow_down
  receive-Delayed none least s small h =
      (h.0, h.1, omega (arith, small, h), omega (arith, small, h))
  receive-Delayed (some []) least s small h =
      (h.0, h.1, omega (arith, small, h), omega (arith, small, h))
  receive-Delayed (some (e ∷ es)) least s small h =
      (h.0, h.1, omega (arith, h), omega (arith, small, h))

  stream-Delayed :
      (services : List (Option (QueryState lib))) (least : ℕ) (s : StreamState)
      → least ≤ 10000
      → Delayed least s
      → Delayed least (stream lib services s).1
  unfolding stream poll
  stream-Delayed [] least s small h = h
  stream-Delayed (service ∷ services) least s small h = elim (Option-cases (next_request s)) [
    | inl ended ↦ rw ended h
    | inr ((from, count), asked) ↦
        let page = answer lib service from count in
        rw asked (
          stream-Delayed services least (receive page s).1 small
            (receive-Delayed page least s small h))
  ]

  -- However the polls of a subscription go, each delay lies between the least one and ten seconds, when
  -- the least one does.
  pub subscribe-backoff :
      (services : List (Option (QueryState lib))) (min_polling_delay from : ℕ) (to : Option ℕ)
      → min_polling_delay ≤ 10000
      → let s = (stream lib services (subscribe min_polling_delay from to)).1 in
        (min_polling_delay ≤ s.backoff) × (s.backoff ≤ 10000)
  unfolding subscribe
  subscribe-backoff services min_polling_delay from to small =
      let (least, most, above, below) =
        stream-Delayed services min_polling_delay (subscribe min_polling_delay from to) small
          (refl, refl, omega arith, small) in
      (above, below)
