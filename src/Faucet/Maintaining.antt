-- ===== src/Faucet/Maintaining.antt =====
-- The thread of faucet/src/faucet.rs that breaks records up, while transfers fail.
use cape.Base.{
  ℕ, zero, suc, ◌+◌, ◌*◌, ◌-◌, ◌/◌, ◌<◌, ◌≡◌, refl, Bool-cases, Option-cases, inl, inr, true, false,
  none, some, List, [], ◌∷◌, length, arith, leb,
}
use cape.Faucet.Breaking.{
  RecordInfo, FaucetWallet, max_by_amount, any_above, split, split_record, spendable_records,
  must_break_up, next_split, split_loop, break_up_records, until_wait,
}
use cape.Faucet.Splits.{any_above-Largest, max_by_amount_lem}

max_by_amount-some :
    (n : ℕ) (rs : List RecordInfo)
    → any_above n rs ≡ true
    → (r : RecordInfo) × (max_by_amount rs ≡ some r) × (n < r.amount)
unfolding any_above max_by_amount
max_by_amount-some n rs h = elim (Option-cases (max_by_amount rs)) [
  | inl nothing ↦ absurd (no_record rs nothing h)
  | inr (r, found) ↦ elim (Bool-cases (leb r.amount n)) [
    | inl small ↦
        let none_above =
          any_above-Largest n r rs (ground (arith, small)) (max_by_amount_lem rs r found) in
        absurd (ground (arith, none_above, h))
    | inr large ↦ (r, found, ground (arith, large))
  ]
]
  where
    no_record : (rs : List RecordInfo) → max_by_amount rs ≡ none → any_above n rs ≡ true → ⊥
    no_record [] nothing above = cc
    no_record (s ∷ rs) nothing above = cc

module _ (lib : FaucetWallet) (grant_size num_records : ℕ) where
  must_break_up-split :
      (w : lib.Wallet)
      → must_break_up lib grant_size num_records w ≡ true
      → (change half : ℕ) × (next_split lib grant_size num_records w 0 ≡ split change half)
  unfolding must_break_up next_split split_record
  must_break_up-split w h =
      let records = spendable_records lib grant_size num_records w in
      elim (Bool-cases (leb num_records (length records))) [
        | inl reached ↦ absurd (ground (arith, reached, h))
        | inr short ↦
            let above : any_above (grant_size * 2) records ≡ true = ground (arith, short, h) in
            let (r, found, large) = max_by_amount-some (grant_size * 2) records above in
            let short_here : leb num_records (length records + 2 * 0) ≡ false =
              ground (arith, short) in
            let big : leb (grant_size * 2) r.amount ≡ true = ground (arith, large) in
            (r.amount - r.amount / 2, r.amount / 2, rw (short_here, found, big) refl)
      ]

  spins :
      (w : lib.Wallet) (rounds fuel : ℕ)
      → must_break_up lib grant_size num_records w ≡ true
      → break_up_records lib grant_size num_records rounds w ≡ some (w, none)
      → until_wait lib grant_size num_records rounds fuel w ≡ none
  unfolding until_wait
  spins w rounds zero needed given_up = refl
  spins w rounds (suc fuel) needed given_up =
      rw (needed, given_up) (spins w rounds fuel needed given_up)

  -- While transfers fail and leave the wallet as it is, a wallet whose records must be broken up keeps the
  -- thread busy: break_up_records gives up at once, and maintain_enough_records calls it again without
  -- a wait, however many rounds it is given.
  pub failing_transfers_spin :
      (w : lib.Wallet) (rounds fuel : ℕ)
      → must_break_up lib grant_size num_records w ≡ true
      → ((amounts : List ℕ) → lib.transfer w amounts ≡ (w, none))
      → (break_up_records lib grant_size num_records (suc rounds) w ≡ some (w, none))
        × (until_wait lib grant_size num_records (suc rounds) fuel w ≡ none)
  unfolding break_up_records split_loop
  failing_transfers_spin w rounds fuel needed refused =
      let (change, half, next) = must_break_up-split w needed in
      let given_up : break_up_records lib grant_size num_records (suc rounds) w ≡ some (w, none) =
        rw (next, refused (change ∷ half ∷ [])) refl in
      (given_up, spins w (suc rounds) fuel needed given_up)
