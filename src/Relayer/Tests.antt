-- ===== src/Relayer/Tests.antt =====
-- A submission that is retried, and the theorem at it.
use cape.Base.{ℕ, zero, suc, ◌≤◌, ◌≡◌, refl, true, false, ◌&&◌, some, ltb, ok, err}
use cape.Relayer.{
  Message, nonce_too_low, Answers, map_err, is_nonce, classify, submit_from, submit_block,
}
use cape.Relayer.Retries.{NonceErrors, submit_block_lem}

abbrev too_low : Message
too_low nonce_too_low = true
too_low _ = false

-- The first attempt comes too early.
abbrev late : Answers
late zero = err too_low
late (suc n) = ok 77

retried : submit_block late 2 ≡ some (ok 77)
unfolding submit_block submit_from classify
retried = refl

submit_block_lem_example :
    (n : ℕ) × (submit_block late 2 ≡ some (map_err (late n)))
    × (n ≤ 2)
    × NonceErrors late 0 n
    × ((is_nonce (map_err (late n)) && ltb n 2) ≡ false)
submit_block_lem_example = submit_block_lem late 2
