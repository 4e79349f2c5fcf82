-- ===== src/Wallet/Waits.antt =====
-- The waiting loops of wallet/src/backend.rs end.
use cape.Base.{
  ℕ, zero, suc, ◌+◌, ◌*◌, ◌≤◌, ◌<◌, ◌≡◌, refl, sym, subst, ◌⊎◌, inl, inr, Bool, true, false,
  Bool-cases, Outcome-cases, Option, none, some, arith, Outcome, ok, err, panic, leb, leb→le,
}
use cape.Model.Types.{EthereumAddr}
use cape.Eqs.Routes.{RouteError}
use cape.Wallet.Backend.{
  Call, failed, get_eqs, connect_from, wait_for_eqs, wait_from, wait_for_wrapped_erc20_code,
}

-- The delays of so many attempts, each twice the one before.
abbrev pub delays : ℕ → ℕ → ℕ
delays zero backoff = 0
delays (suc left) backoff = backoff + delays left (backoff * 2)

-- So many attempts from one on are refused.
abbrev pub Refused : (ℕ → Bool) → ℕ → ℕ → Type 0
Refused connects zero attempt = Unit
Refused connects (suc left) attempt =
    (connects attempt ≡ false) × Refused connects left (attempt + 1)

connect_from_lem :
    (connects : ℕ → Bool) (left attempt backoff : ℕ)
    → ((n : ℕ) × (n < left)
        × Refused connects n attempt
        × (connects (attempt + n) ≡ true)
        × (connect_from connects left attempt backoff ≡ (ok tt, delays n backoff)))
      ⊎ (Refused connects left attempt
          × (connect_from connects left attempt backoff ≡ (err failed, delays left backoff)))
unfolding connect_from
connect_from_lem connects zero attempt backoff = inr (tt, refl)
connect_from_lem connects (suc left) attempt backoff = elim (Bool-cases (connects attempt)) [
  | inl connected ↦
      let here : attempt + 0 ≡ attempt = omega arith in
      inl (0, omega arith, tt, rw here connected, rw connected refl)
  | inr refused ↦ elim (connect_from_lem connects left (attempt + 1) (backoff * 2)) [
    | inl (n, below, before, connected, result) ↦
        let next : attempt + suc n ≡ attempt + 1 + n = omega arith in
        inl (
          suc n,
          omega (arith, below),
          (refused, before),
          rw next connected,
          rw (refused, result) refl,
        )
    | inr (after, result) ↦ inr ((refused, after), rw (refused, result) refl)
  ]
]

-- Waiting for the query service ends with the first of eight attempts that connects, after the delays
-- before it, half a second at first and each twice the one before, or with an error when all are
-- refused, after 127.5 seconds.
pub wait_for_eqs_lem :
    (connects : ℕ → Bool)
    → ((n : ℕ) × (n < 8)
        × Refused connects n 0
        × (connects n ≡ true)
        × (wait_for_eqs connects ≡ (ok tt, delays n 500)))
      ⊎ (Refused connects 8 0 × (wait_for_eqs connects ≡ (err failed, 127500)))
unfolding wait_for_eqs
wait_for_eqs_lem connects = elim (connect_from_lem connects 8 0 500) [
  | inl (n, below, before, connected, result) ↦
      let same : 0 + n ≡ n = omega arith in
      inl (n, below, before, subst (λ m. connects m ≡ true) same connected, result)
  | inr r ↦ inr r
]

pub get_eqs-returns :
    {A : Type 0} (answer : Option (Outcome RouteError A)) → get_eqs answer ≡ panic → ⊥
unfolding get_eqs
get_eqs-returns none h = cc
get_eqs-returns (some (ok a)) h = cc
get_eqs-returns (some (err e)) h = cc
get_eqs-returns (some panic) h = cc

module _ (answers : ℕ → Option (Outcome RouteError (Option EthereumAddr))) (elapsed : ℕ → ℕ)
    (time : ℕ) where
  -- What the result of a wait says of a round: the service knows the address, it cannot be asked, or
  -- it knows none and the time is over.
  abbrev pub Waited : ℕ → Call (Unit {0}) → Type 0
  Waited round (ok u) =
      (n : ℕ) × (address : EthereumAddr) × (round ≤ n) × (get_eqs (answers n) ≡ ok (some address))
  Waited round (err e) =
      (n : ℕ) × (round ≤ n)
      × ((get_eqs (answers n) ≡ err e)
          ⊎ ((e ≡ failed) × (get_eqs (answers n) ≡ ok none) × (time ≤ elapsed n)))
  Waited round panic = ⊥

  Waited-earlier : (round : ℕ) (r : Call (Unit {0})) → Waited (round + 1) r → Waited round r
  Waited-earlier round (ok u) (n, address, later, known) = (n, address, omega (arith, later), known)
  Waited-earlier round (err e) (n, later, why) = (n, omega (arith, later), why)
  Waited-earlier round panic w = w

  -- A wait that goes on.
  abbrev Wait : ℕ → ℕ → Type 0
  Wait fuel round =
      (r : Call (Unit {0})) × (wait_from answers elapsed (some time) fuel round ≡ some r)
      × Waited round r

  one_round :
      (fuel round : ℕ) → ((time ≤ elapsed round) ⊎ Wait fuel (round + 1)) → Wait (suc fuel) round
  unfolding wait_from
  one_round fuel round next = elim (Outcome-cases (get_eqs (answers round))) [
    | inl (some address, known) ↦ (ok tt, rw known refl, (round, address, omega arith, known))
    | inl (none, unknown) ↦ elim (Bool-cases (leb time (elapsed round))) [
      | inl late ↦ (
        err failed,
        rw (unknown, late) refl,
        (round, omega arith, inr (refl, unknown, leb→le time (elapsed round) late)),
      )
      | inr early ↦ elim next [
        | inl late ↦ absurd (ground (arith, early, late))
        | inr (r, result, w) ↦ (r, rw (unknown, early) result, Waited-earlier round r w)
      ]
    ]
    | inr (inl (e, broken)) ↦ (err e, rw broken refl, (round, omega arith, inl broken))
    | inr (inr crashed) ↦ absurd (get_eqs-returns (answers round) crashed)
  ]

  wait_from_lem : (fuel round : ℕ) → time ≤ elapsed (round + fuel) → Wait (suc fuel) round
  wait_from_lem zero round late =
      let here : round + 0 ≡ round = omega arith in
      one_round zero round (inl (subst (λ n. time ≤ elapsed n) here late))
  wait_from_lem (suc fuel) round late =
      let next : round + suc fuel ≡ round + 1 + fuel = omega arith in
      one_round (suc fuel) round
        (inr (wait_from_lem fuel (round + 1) (subst (λ n. time ≤ elapsed n) next late)))

  -- With a timeout, and a clock that has passed it by a round, the wait for an asset ends by that
  -- round: well when the service knew the asset's address in one, with an error when it could not be
  -- asked, or did not know it after the timeout.
  wait_for_wrapped_erc20_code_total :
      (rounds : ℕ)
      → time ≤ elapsed rounds
      → (r : Call (Unit {0})) × (wait_for_wrapped_erc20_code answers elapsed
            (some time)
            (rounds + 1)
          ≡ some r)
        × Waited 0 r
  unfolding wait_for_wrapped_erc20_code
  wait_for_wrapped_erc20_code_total rounds late =
      let from_start : 0 + rounds ≡ rounds = omega arith in
      let one_more : rounds + 1 ≡ suc rounds = omega arith in
      rw one_more (wait_from_lem rounds 0 (subst (λ n. time ≤ elapsed n) (sym from_start) late))
