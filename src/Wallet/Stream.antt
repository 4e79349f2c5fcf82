-- ===== src/Wallet/Stream.antt =====
-- The stream of events that `CapeBackend::subscribe` of wallet/src/backend.rs makes by polling the
-- query service.
use cape.Base.{
  ℕ, ◌+◌, ◌-◌, ◌*◌, min, Option, none, some, List, [], ◌∷◌, ◌++◌, ok, err, panic, Outcome, length,
  leb, if◌then◌else◌,
}
use cape.Eqs.Types.{EqsLib}
use cape.Eqs.Commit.{QueryState, Event}
use cape.Eqs.Routes.{Bindings, Param, integer, RouteError, get_events_since, UrlSegmentValue}

-- Times are in milliseconds. The client of the service is what answers the polls.
pub record StreamState : Type 0 where
  pub from : ℕ
  pub to : Option ℕ
  pub backoff : ℕ
  pub min_backoff : ℕ
  pub max_backoff : ℕ

unfoldable pub subscribe : ℕ → ℕ → Option ℕ → StreamState
subscribe min_polling_delay from to = record {
  from = from;
  to = to;
  backoff = min_polling_delay;
  min_backoff = min_polling_delay;
  max_backoff = 10000;
}

-- The first event that is asked for and how many at most; `none` ends the stream.
unfoldable pub next_request : StreamState → Option (ℕ × Option ℕ)
next_request s = elim (s.to) [
  | none ↦ some (s.from, none)
  | some to ↦ if leb to s.from then none else some (s.from, some (to - s.from))
]

abbrev pub segment : Option ℕ → Option UrlSegmentValue
segment none = none
segment (some n) = some (integer n)

-- The URL `get_events_since/{first}/{max_count}` as the service reads it.
abbrev pub event_bindings : ℕ → Option ℕ → Bindings
event_bindings from count Param.first = some (integer from)
event_bindings from count Param.max_count = segment count
event_bindings from count _ = none

-- The next delay, when there was no event.
unfoldable pub slow_down : StreamState → StreamState
slow_down s = record s { backoff = min (s.backoff * 2) s.max_backoff }

module _ {A : Type 0} where
  -- What a poll yields, and the state after it; an error leaves where the stream is.
  unfoldable pub receive : Option (List A) → StreamState → List A × StreamState
  receive none s = ([], slow_down s)
  receive (some []) s = ([], slow_down s)
  receive (some (e ∷ es)) s =
      (e ∷ es, record s { from = s.from + length (e ∷ es); backoff = s.min_backoff })

-- An error of the service and a lost connection are one to the client.
abbrev pub received : {A : Type 0} → Outcome RouteError (List A) → Option (List A)
received (ok es) = some es
received (err e) = none
received panic = none

module _ (lib : EqsLib) where
  -- The answer of the service in some state; `none` is a service that is not reached.
  abbrev pub answer : Option (QueryState lib) → ℕ → Option ℕ → Option (List (Event lib))
  answer none from count = none
  answer (some q) from count = received (get_events_since lib (event_bindings from count) q)

  -- The answer to a request; no request ends the stream.
  abbrev pub answered :
      Option (QueryState lib)
      → StreamState
      → Option (ℕ × Option ℕ)
      → Option (List (Event lib) × StreamState)
  answered service s none = none
  answered service s (some (from, count)) = some (receive (answer service from count) s)

  -- One round of `stream::unfold`.
  unfoldable pub poll :
      Option (QueryState lib) → StreamState → Option (List (Event lib) × StreamState)
  poll service s = answered service s (next_request s)

  -- `flatten`: the events of a round come before those of the rounds after it.
  abbrev pub flatten :
      StreamState
      → Option (List (Event lib) × StreamState)
      → (StreamState → List (Event lib) × StreamState)
      → List (Event lib) × StreamState
  flatten s none rest = ([], s)
  flatten s (some (es, t)) rest = (es ++ (rest t).0, (rest t).1)

  -- The stream while the service goes through these states, one for each poll: the events that are
  -- yielded, one after the other, and where it is then.
  unfoldable pub stream :
      List (Option (QueryState lib)) → StreamState → List (Event lib) × StreamState
  stream [] s = ([], s)
  stream (service ∷ services) s = flatten s (poll service s) (stream services)
