-- ===== src/Wallet/Delivery.antt =====
-- What the stream of wallet/src/backend.rs yields of the events of the query service.
use cape.Base.{
  ℕ, zero, suc, ◌+◌, ◌-◌, ◌≤◌, ◌<◌, ◌≡◌, refl, sym, ap, ◌∙◌, subst, ◌⊎◌, inl, inr, min, Bool-cases,
  Option-cases, Option, none, some, List, [], ◌∷◌, ◌++◌, append_assoc, arith, length, length-append,
  length-take, length-drop, leb, take, drop, take-nil, All, none≢some,
}
use cape.Cap.{u64_mod}
use cape.Eqs.Types.{EqsLib}
use cape.Eqs.Commit.{QueryState, Event}
use cape.Eqs.Routes.{Param, optional}
use cape.Eqs.Pages.{get_events_since_lem, optional-integer}
use cape.Wallet.Stream.{
  StreamState, next_request, event_bindings, slow_down, receive, answer, answered, poll, stream,
  received,
}

pub some-injective : {A : Type 0} {x y : A} → some x ≡ some y → x ≡ y
some-injective h = cc

module _ {A : Type 0} where
  -- A vector that has been appended to.
  abbrev pub Prefix : List A → List A → Type 0
  Prefix front xs = (rest : List A) × (xs ≡ front ++ rest)

  page_start :
      (k : ℕ) (front rest : List A)
      → front ++ rest ≡ take k front ++ drop (length (take k front)) (front ++ rest)
  page_start zero front rest = refl
  page_start (suc k) [] rest = refl
  page_start (suc k) (x ∷ front) rest = ap (◌∷◌ x) (page_start k front rest)

  -- A page of an earlier vector is what follows in the later one.
  page_follows :
      (k from : ℕ) (front rest : List A)
      → let page = take k (drop from front) in
        drop from (front ++ rest) ≡ page ++ drop (from + length page) (front ++ rest)
  page_follows k zero front rest =
      let same : 0 + length (take k front) ≡ length (take k front) = omega arith in
      rw same (page_start k front rest)
  page_follows k (suc from) [] rest =
      let none_there : take {A = A} k [] ≡ [] = take-nil k in
      let same : suc from + 0 ≡ suc from = omega arith in rw (none_there, same) refl
  page_follows k (suc from) (x ∷ front) rest =
      let n = length (take k (drop from front)) in
      let same : suc from + n ≡ suc (from + n) = omega arith in
      rw same (page_follows k from front rest)

  -- What is received moves the stream on by as much as it yields.
  pub receive-from :
      (page : Option (List A)) (s : StreamState)
      → ((receive page s).1.from ≡ s.from + length (receive page s).0)
        × ((receive page s).1.to ≡ s.to)
  unfolding receive slow_down
  receive-from none s = (omega arith, refl)
  receive-from (some []) s = (omega arith, refl)
  receive-from (some (e ∷ es)) s = (refl, refl)

  pub receive-page : (page : List A) (s : StreamState) → (receive (some page) s).0 ≡ page
  unfolding receive
  receive-page [] s = refl
  receive-page (e ∷ es) s = refl

  -- The place never leaves the numbers below a bound.
  page-bounded :
      (from : ℕ) (es xs : List A)
      → drop from xs ≡ es ++ drop (from + length es) xs
      → from < u64_mod
      → length xs < u64_mod
      → from + length es < u64_mod
  page-bounded from es xs h small room = omega (
    arith,
    ap length h,
    length-append es (drop (from + length es) xs),
    length-drop from xs,
    length-drop (from + length es) xs,
  )

-- A stream with an end has not passed it.
abbrev pub Within : Option ℕ → ℕ → Type 0
Within none from = Unit
Within (some to) from = (from ≤ to) × (to < u64_mod)

module _ (lib : EqsLib) where
  -- The service at an earlier time, when it can be reached.
  abbrev pub Earlier : List (Event lib) → Option (QueryState lib) → Type 0
  Earlier events none = Unit
  Earlier events (some q) = Prefix q.events events

  abbrev pub limit : Option ℕ → ℕ
  limit none = 100
  limit (some count) = min count 100

  -- A request is answered with a page.
  pub answer-take :
      (q : QueryState lib) (from : ℕ) (count : Option ℕ)
      → from < u64_mod
      → Within count 0
      → answer lib (some q) from count ≡ some (take (limit count) (drop from q.events))
  unfolding optional
  answer-take q from none small small_count = ap received (
      get_events_since_lem lib (event_bindings from none) q from 100
        (optional-integer lib (event_bindings from none Param.first) from 0 refl small) refl)
  answer-take q from (some count) small small_count = ap received (
      get_events_since_lem lib (event_bindings from (some count)) q from count
        (optional-integer lib (event_bindings from (some count) Param.first) from 0 refl small)
        (optional-integer lib (event_bindings from (some count) Param.max_count) count 100 refl
          small_count.1))

  -- An answer holds what follows the place that was asked for.
  answer-follows :
      (service : Option (QueryState lib)) (events : List (Event lib)) (s : StreamState)
      (count : Option ℕ)
      → Earlier events service
      → s.from < u64_mod
      → Within count 0
      → let r = receive (answer lib service s.from count) s in
        drop s.from events ≡ r.0 ++ drop r.1.from events
  unfolding receive slow_down
  answer-follows none events s count earlier small small_count = refl
  answer-follows (some q) events s count (rest, grown) small small_count =
      let page = take (limit count) (drop s.from q.events) in
      let r = receive (some page) s in
      let same : r.0 ≡ page = receive-page page s in
      let place : r.1.from ≡ s.from + length page =
        (receive-from (some page) s).0 ∙ ap (λ es. s.from + length es) same in
      rw (answer-take q s.from count small small_count, same, place, grown)
        (page_follows (limit count) s.from q.events rest)

  -- An answer holds no more than was asked for.
  answer-length :
      (service : Option (QueryState lib)) (s : StreamState) (count : Option ℕ)
      → s.from < u64_mod
      → Within count 0
      → length (receive (answer lib service s.from count) s).0 ≤ limit count
  unfolding receive slow_down
  answer-length none s count small small_count = omega arith
  answer-length (some q) s count small small_count =
      let page = take (limit count) (drop s.from q.events) in
      let same : (receive (some page) s).0 ≡ page = receive-page page s in
      rw (answer-take q s.from count small small_count, same)
        (omega (arith, length-take (limit count) (drop s.from q.events)))

  -- A stream that asks asks for what is left up to its end.
  pub next_request_lem :
      (s : StreamState)
      → Within s.to s.from
      → (next_request s ≡ none)
        ⊎ ((count : Option ℕ) × (next_request s ≡ some (s.from, count))
            × Within count 0
            × ((to : ℕ) → s.to ≡ some to → (s.from < to) × (count ≡ some (to - s.from))))
  unfolding next_request
  next_request_lem s within = elim (Option-cases s.to) [
    | inl endless ↦ inr (none, rw endless refl, tt, λ to h. absurd (none≢some (sym endless ∙ h)))
    | inr (to, ends) ↦ elim (Bool-cases (leb to s.from)) [
      | inl done ↦ inl (rw (ends, done) refl)
      | inr going ↦
          let w : Within (some to) s.from = subst (λ o. Within o s.from) ends within in
          inr (
            some (to - s.from),
            rw (ends, going) refl,
            (omega arith, omega (arith, w.0, w.1)),
            λ other h. ground (arith, ends, h),
          )
    ]
  ]

  -- One poll.
  pub poll_lem :
      (service : Option (QueryState lib)) (events : List (Event lib)) (s t : StreamState)
      (es : List (Event lib))
      → Earlier events service
      → s.from < u64_mod
      → length events < u64_mod
      → Within s.to s.from
      → poll lib service s ≡ some (es, t)
      → (drop s.from events ≡ es ++ drop t.from events)
        × (t.from < u64_mod)
        × (t.to ≡ s.to)
        × Within t.to t.from
  unfolding poll
  poll_lem service events s t es earlier small room within h = elim (next_request_lem s within) [
    | inl done ↦ absurd (none≢some (sym (ap (answered lib service s) done) ∙ h))
    | inr (count, asked, small_count, bounded) ↦
        let r = receive (answer lib service s.from count) s in
        let got : r ≡ (es, t) = some-injective (sym (ap (answered lib service s) asked) ∙ h) in
        let follows : drop s.from events ≡ es ++ drop t.from events =
          subst (λ x. drop s.from events ≡ x.0 ++ drop x.1.from events) got
            (answer-follows service events s count earlier small small_count) in
        let place : t.from ≡ s.from + length es =
          subst (λ x. x.1.from ≡ s.from + length x.0) got
            (receive-from (answer lib service s.from count) s).0 in
        let kept : t.to ≡ s.to =
          subst (λ x. x.1.to ≡ s.to) got (receive-from (answer lib service s.from count) s).1 in
        let few : length es ≤ limit count =
          subst (λ x. length x.0 ≤ limit count) got
            (answer-length service s count small small_count) in
        (
          follows,
          subst (λ n. n < u64_mod) (sym place)
              (page-bounded s.from es events
                (subst (λ n. drop s.from events ≡ es ++ drop n events) place follows) small room),
          kept,
          elim (Option-cases s.to) [
            | inl endless ↦ subst (λ o. Within o t.from) (sym (kept ∙ endless)) tt
            | inr (to, ends) ↦
                let (ahead, exact) = bounded to ends in
                let w : Within (some to) s.from = subst (λ o. Within o s.from) ends within in
                let few' : length es ≤ min (to - s.from) 100 =
                  subst (λ o. length es ≤ limit o) exact few in
                subst (λ o. Within o t.from) (sym (kept ∙ ends))
                  (omega (arith, place, few', ahead), w.1)
          ],
        )
  ]

  -- With places and numbers of events below 2^64, and a stream that starts before its end:
  -- whatever states the query service goes through as its events are appended to, and whichever
  -- polls fail, what the stream has yielded, followed by the events from its place on, are the
  -- events from its start on, so none is missed, repeated or moved, and it has not passed its end.
  pub stream-follows :
      (services : List (Option (QueryState lib))) (events : List (Event lib)) (s : StreamState)
      → All (Earlier events) services
      → s.from < u64_mod
      → length events < u64_mod
      → Within s.to s.from
      → let r = stream lib services s in
        (drop s.from events ≡ r.0 ++ drop r.1.from events) × Within s.to r.1.from
  unfolding stream
  stream-follows [] events s earlier small room within = (refl, within)
  stream-follows (service ∷ services) events s earlier small room within =
      elim (Option-cases (poll lib service s)) [
        | inl ended ↦ rw ended (refl, within)
        | inr ((es, t), polled) ↦
            let (follows, small_t, kept, within_t) =
              poll_lem service events s t es earlier.0 small room within polled in
            let rest = stream lib services t in
            let (others, w) = stream-follows services events t earlier.1 small_t room within_t in
            let all : drop s.from events ≡ (es ++ rest.0) ++ drop rest.1.from events =
              follows
              ∙ (ap (λ ys. es ++ ys) others
                  ∙ sym (append_assoc es rest.0 (drop rest.1.from events))) in
            let inside : Within s.to rest.1.from = subst (λ o. Within o rest.1.from) kept w in
            rw polled (all, inside)
      ]
