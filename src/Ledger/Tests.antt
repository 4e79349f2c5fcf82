-- ===== src/Ledger/Tests.antt =====
-- The uids of a small block, and the theorem at it.
use cape.Base.{nat_eq, ℕ, ◌≡◌, false, [], ◌∷◌, arith}
use cape.Cap.{RecordOpening}
use cape.Ledger.{
  CapeTransition, CapeBlock, faucet, wrap_transition, transaction, validate_and_apply,
}
use cape.Ledger.Uids.{validate_and_apply-consecutive}

-- Two outputs to a transaction, one to all else.
abbrev two_outputs : CapeTransition → ℕ
two_outputs (transaction txn) = 2
two_outputs (wrap_transition code src ro) = 1
two_outputs (faucet ro) = 1

abbrev grant : RecordOpening
grant = record {
  amount = 5;
  asset_def = record { code = 0; policy_ref = 0 };
  pub_key = 1;
  freeze_flag = false;
  blind = 2;
}

abbrev small_block : CapeBlock
small_block = faucet grant ∷ wrap_transition [] [] grant ∷ []

validate_and_apply-consecutive_example :
    validate_and_apply two_outputs (record { now = 7; num_records = 3 }) small_block
    ≡ (3 ∷ 4 ∷ [], record { now = 8; num_records = 5 })
validate_and_apply-consecutive_example =
    validate_and_apply-consecutive two_outputs (record { now = 7; num_records = 3 }) small_block
      (omega arith) (omega arith)
