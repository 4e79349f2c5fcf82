-- ===== src/Eqs/Pages.antt =====
-- The pages of events that `get_events_since` of eqs/src/routes.rs returns.
use cape.Base.{
  ℕ, zero, suc, ◌+◌, ◌-◌, ◌%◌, min, ◌<◌, ◌≡◌, Bool-cases, inl, inr, refl, ap, Option, some, List,
  [], ◌∷◌, arith, ok, length, take, drop, length-drop, leb,
}
use cape.Cap.{u64_mod}
use cape.Eqs.Types.{EqsLib}
use cape.Eqs.Commit.{QueryState}
use cape.Eqs.Routes.{
  Bindings, UrlSegmentValue, eqs_max_event_count, integer, first, max_count, get_events_since,
  slice, optional, as_u64,
}

module _ {A : Type 0} where
  -- A count past the end takes everything.
  take-min : (n : ℕ) (xs : List A) → take (min n (length xs)) xs ≡ take n xs
  take-min zero xs = ground arith
  take-min (suc n) [] = ground arith
  take-min (suc n) (x ∷ xs) =
      let e : min (suc n) (length (x ∷ xs)) ≡ suc (min n (length xs)) = omega arith in
      rw e (ap (◌∷◌ x) (take-min n xs))

  take-empty : (n : ℕ) (xs : List A) → length xs ≡ 0 → take n xs ≡ []
  take-empty zero xs h = refl
  take-empty (suc n) [] h = refl
  take-empty (suc n) (x ∷ xs) h = absurd (omega arith)

module _ (lib : EqsLib) where
  -- The page of parameters that have been read.
  pub get_events_since_lem :
      (bindings : Bindings) (s : QueryState lib) (from count : ℕ)
      → optional (bindings first) 0 ≡ ok from
      → optional (bindings max_count) eqs_max_event_count ≡ ok count
      → get_events_since lib bindings s ≡ ok (take (min count 100) (drop from s.events))
  unfolding get_events_since slice
  get_events_since_lem bindings s from count at_first at_count =
      elim (Bool-cases (leb (length s.events) from)) [
        | inl past ↦
            let none_left : take (min count 100) (drop from s.events) ≡ [] =
              take-empty (min count 100) (drop from s.events)
                (ground (arith, length-drop from s.events)) in
            rw (at_first, past, none_left)
        | inr inside ↦
            let same : min (from + min count 100) (length s.events) - from
                ≡ min (min count 100) (length (drop from s.events)) =
              ground (arith, length-drop from s.events) in
            rw (at_first, at_count, inside, same)
              (ap ok (take-min (min count 100) (drop from s.events)))
      ]

  -- A parameter below 2^64 is read as it is.
  pub optional-integer :
      (value : Option UrlSegmentValue) (n default : ℕ)
      → value ≡ some (integer n)
      → n < u64_mod
      → optional value default ≡ ok n
  unfolding optional as_u64
  optional-integer value n default given small =
      let e : n % u64_mod ≡ n = omega arith in rw (given, e)

  -- `get_events_since` with the parameters first and max_count, whole numbers below 2^64, returns at
  -- most 100 and at most max_count of the events, from the first on; past the end there are none.
  get_events_since-take :
      (bindings : Bindings) (s : QueryState lib) (from count : ℕ)
      → bindings first ≡ some (integer from)
      → bindings max_count ≡ some (integer count)
      → from < u64_mod
      → count < u64_mod
      → get_events_since lib bindings s ≡ ok (take (min count 100) (drop from s.events))
  get_events_since-take bindings s from count at_first at_count small_from small_count =
      get_events_since_lem bindings s from count
        (optional-integer (bindings first) from 0 at_first small_from)
        (optional-integer (bindings max_count) count eqs_max_event_count at_count small_count)
