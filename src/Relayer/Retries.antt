-- ===== src/Relayer/Retries.antt =====
-- The retries of `submit_block` in relayer/src/lib.rs.
use cape.Base.{
  ℕ, zero, suc, ◌+◌, ◌≤◌, ◌<◌, ◌≡◌, refl, true, false, ◌&&◌, Bool-cases, inl, inr, some, ltb, arith,
}
use cape.Relayer.{Answers, map_err, is_nonce, submit_from, submit_block}

-- The attempts before one all ended in a nonce error.
abbrev pub NonceErrors : Answers → ℕ → ℕ → Type 0
NonceErrors answers from zero = Unit
NonceErrors answers from (suc n) =
    (is_nonce (map_err (answers from)) ≡ true) × NonceErrors answers (from + 1) n

submit_from_lem :
    (answers : Answers) (max_retries fuel attempt : ℕ)
    → attempt ≤ max_retries
    → max_retries < attempt + fuel
    → (n : ℕ) × (submit_from answers max_retries fuel attempt
        ≡ some (map_err (answers (attempt + n))))
      × (attempt + n ≤ max_retries)
      × NonceErrors answers attempt n
      × ((is_nonce (map_err (answers (attempt + n))) && ltb (attempt + n) max_retries) ≡ false)
unfolding submit_from
submit_from_lem answers max_retries zero attempt below enough = absurd (omega arith)
submit_from_lem answers max_retries (suc fuel) attempt below enough =
    elim (Bool-cases (is_nonce (map_err (answers attempt)) && ltb attempt max_retries)) [
      | inl retry ↦
          let nonce : is_nonce (map_err (answers attempt)) ≡ true = ground arith in
          let (n, e, le, nonces, last) =
            submit_from_lem answers max_retries fuel (attempt + 1) (ground arith) (omega arith) in
          let next : attempt + 1 + n ≡ attempt + suc n = omega arith in
          (
            suc n,
            rw (retry, submit_from) (rw next at e),
            rw next at le,
            (nonce, nonces),
            rw next at last,
          )
      | inr done ↦
          let here : attempt + 0 ≡ attempt = omega arith in
          (0, rw (here, done, submit_from) refl, rw here below, tt, rw here done)
    ]

-- `submit_block` always comes to an end, within the first attempt and max_retries more: its result is
-- the answer to the first attempt that is not a nonce error, or to the last attempt.
pub submit_block_lem :
    (answers : Answers) (max_retries : ℕ)
    → (n : ℕ) × (submit_block answers max_retries ≡ some (map_err (answers n)))
      × (n ≤ max_retries)
      × NonceErrors answers 0 n
      × ((is_nonce (map_err (answers n)) && ltb n max_retries) ≡ false)
unfolding submit_block
submit_block_lem answers max_retries =
    let (n, e, le, nonces, last) =
      submit_from_lem answers max_retries (suc max_retries) 0 (omega arith) (omega arith) in
    let same : 0 + n ≡ n = omega arith in (n, rw same at e, rw same at le, nonces, rw same at last)
