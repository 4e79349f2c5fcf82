-- ===== src/Ledger/Uids.antt =====
-- The uids that `CapeTruster::validate_and_apply` of contracts/rust/src/ledger.rs hands out.
use cape.Base.{ℕ, zero, suc, ◌+◌, ◌<◌, ◌≡◌, ap, ◌∙◌, List, [], ◌∷◌, ◌++◌, arith}
use cape.Cap.{u64_mod}
use cape.Ledger.{CapeTransition, CapeBlock, CapeTruster, count_uids, block_uids, validate_and_apply}

-- The numbers `from`, `from + 1`, …, as many as `n`.
abbrev pub range : ℕ → ℕ → List ℕ
range from zero = []
range from (suc n) = from ∷ range (from + 1) n

range-append : (m n from : ℕ) → range from (m + n) ≡ range from m ++ range (from + m) n
range-append zero n from = ground arith
range-append (suc m) n from =
    let e : suc m + n ≡ suc (m + n) = omega arith in
    let shift : from + 1 + m ≡ from + suc m = omega arith in
    rw e (
      ap (◌∷◌ from) (range-append m n (from + 1) ∙ ap (λ k. range (from + 1) m ++ range k n) shift))

count_uids_lem : (n uid : ℕ) → uid + n < u64_mod → count_uids n uid ≡ (range uid n, uid + n)
unfolding count_uids
count_uids_lem zero uid h = ground arith
count_uids_lem (suc n) uid h = ground (arith, count_uids_lem n (uid + 1))

module _ (output_len : CapeTransition → ℕ) where
  -- All the outputs of a block.
  abbrev pub outputs_len : CapeBlock → ℕ
  outputs_len [] = 0
  outputs_len (txn ∷ txns) = output_len txn + outputs_len txns

  block_uids_lem :
      (block : CapeBlock) (uid : ℕ)
      → uid + outputs_len block < u64_mod
      → block_uids output_len block uid ≡ (range uid (outputs_len block), uid + outputs_len block)
  unfolding block_uids
  block_uids_lem [] uid h = ground arith
  block_uids_lem (txn ∷ txns) uid h = ground (
    arith,
    count_uids_lem (output_len txn) uid,
    block_uids_lem txns (uid + output_len txn),
    range-append (output_len txn) (outputs_len txns) uid,
  )

  -- While the counters stay below 2 ^ 64: the uids of a block are consecutive from the number of
  -- records, one for each output, the number of records grows by their number, and time by one.
  pub validate_and_apply-consecutive :
      (t : CapeTruster) (block : CapeBlock)
      → t.num_records + outputs_len block < u64_mod
      → t.now + 1 < u64_mod
      → validate_and_apply output_len t block ≡ (
        range t.num_records (outputs_len block),
        record { now = t.now + 1; num_records = t.num_records + outputs_len block },
      )
  unfolding validate_and_apply
  validate_and_apply-consecutive t block h k = ground (arith, block_uids_lem block t.num_records h)
