-- ===== src/Faucet/BreakingTests.antt =====
-- The theorems on the breaking up of records in faucet/src/faucet.rs at a small wallet.
use cape.Base.{
  ℕ, ◌≡◌, refl, false, Option, none, some, List, [], ◌∷◌, ◌++◌, length, arith, map, nat_eq,
}
use cape.Faucet.Breaking.{
  until_wait, maintain_enough_records, any_above, RecordInfo, Receipt, FaucetWallet, max_by_amount,
  split, spendable_records, is_spendable, must_break_up, next_split, split_record, split_loop,
  break_up_records,
}
use cape.Faucet.Maintaining.{failing_transfers_spin}
use cape.Faucet.Splits.{Ends, split_loop_total, exact_double_waits}

abbrev info : ℕ → RecordInfo
info n = record { asset_code = 1; amount = n; frozen = false; on_hold = false }

-- A wallet is its free records and those that arrive; a transfer spends the first.
abbrev Records : Type 0
Records = List RecordInfo × List RecordInfo

abbrev spend_first : Records → List ℕ → Records × Option Receipt
spend_first ([], arriving) amounts = (([], arriving), none)
spend_first (r ∷ rs, arriving) amounts = ((rs, arriving ++ map info amounts), some (length rs))

abbrev small_wallet : FaucetWallet
small_wallet = record {
  Wallet = Records;
  native_code = 1;
  records = λ w. w.0;
  transfer = spend_first;
  await_transactions = λ w receipts. (w.0 ++ w.1, []);
}

abbrev one_record : ℕ → Records
one_record n = (info n ∷ [], [])

split_loop_total_example :
    Ends small_wallet 10 3 (split_loop small_wallet 10 3 4 [] (one_record 45))
split_loop_total_example = split_loop_total small_wallet 10 3 (one_record 45)

exact_double_waits_example :
    (must_break_up small_wallet 10 3 (one_record 20) ≡ false)
    × (next_split small_wallet 10 3 (one_record 20) 0 ≡ split 10 10)
unfolding spendable_records is_spendable max_by_amount
exact_double_waits_example =
    exact_double_waits small_wallet 10 3 (one_record 20) (info 20) refl refl (omega arith)

-- One record of 45 becomes two, the first of which is split again.
broken_up :
    break_up_records small_wallet 10 3 3 (one_record 45)
    ≡ some ((info 22 ∷ [], info 12 ∷ info 11 ∷ []), some (1 ∷ []))
unfolding break_up_records split_loop next_split spendable_records is_spendable split_record
    max_by_amount
broken_up = refl

-- The same wallet when every transfer is refused.
abbrev refusing_wallet : FaucetWallet
refusing_wallet = record small_wallet { transfer = λ w amounts. (w, none) }

failing_transfers_spin_example :
    (break_up_records refusing_wallet 10 3 2 (one_record 45) ≡ some (one_record 45, none))
    × (until_wait refusing_wallet 10 3 2 9 (one_record 45) ≡ none)
unfolding must_break_up spendable_records is_spendable any_above
failing_transfers_spin_example =
    failing_transfers_spin refusing_wallet 10 3 (one_record 45) 1 9 refl (λ amounts. refl)

-- After the wakeup the records are enough.
maintained :
    maintain_enough_records small_wallet 10 3 3 9 ((λ w. (w.0 ++ w.1, [])) ∷ []) (one_record 70)
    ≡ some (info 35 ∷ info 18 ∷ info 17 ∷ [], [])
unfolding maintain_enough_records until_wait break_up_records split_loop next_split must_break_up
    spendable_records is_spendable any_above split_record max_by_amount
maintained = refl
