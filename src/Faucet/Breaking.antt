-- ===== src/Faucet/Breaking.antt =====
-- How faucet/src/faucet.rs breaks its records up: `spendable_records`, the wait of
-- `maintain_enough_records`, and `break_up_records`.
use cape.Base.{
  ℕ, zero, suc, ◌+◌, ◌-◌, ◌*◌, ◌/◌, Bool, true, false, not, ◌&&◌, ◌||◌, Option, none, some, List,
  [], ◌∷◌, ◌++◌, filter, length, ◌==◌, nat_eq, ltb, leb, if◌then◌else◌,
}

-- A record of the wallet, by what the faucet asks of it.
pub record RecordInfo : Type 0 where
  pub asset_code : ℕ
  pub amount : ℕ
  pub frozen : Bool
  pub on_hold : Bool

abbrev pub Receipt : Type 0
Receipt = ℕ

-- The wallet of seahorse: its records, a transfer of amounts to the faucet's own address, of which
-- `none` is an error, and the wait for transactions.
pub record FaucetWallet : Type 1 where
  pub Wallet : Type 0
  pub native_code : ℕ
  pub records : Wallet → List RecordInfo
  pub transfer : Wallet → List ℕ → Wallet × Option Receipt
  pub await_transactions : Wallet → List Receipt → Wallet

-- `max_by`: the last of the largest.
abbrev pub larger : RecordInfo → Option RecordInfo → RecordInfo
larger r none = r
larger r (some m) = if ltb m.amount r.amount then r else m

unfoldable pub max_by_amount : List RecordInfo → Option RecordInfo
max_by_amount [] = none
max_by_amount (r ∷ rs) = some (larger r (max_by_amount rs))

unfoldable pub any_above : ℕ → List RecordInfo → Bool
any_above n [] = false
any_above n (r ∷ rs) = ltb n r.amount || any_above n rs

-- What the loop of `break_up_records` does next: it has enough records, it has none that is large
-- enough, or it splits one into two amounts, the change first.
pub data Next : Type 0 where
  enough no_large : Next
  split : ℕ → ℕ → Next

unfoldable pub split_record : ℕ → Option RecordInfo → Next
split_record grant_size none = no_large
split_record grant_size (some r) =
    if leb (grant_size * 2) r.amount
    then split (r.amount - r.amount / 2) (r.amount / 2)
    else no_large

module _ (lib : FaucetWallet) (grant_size num_records : ℕ) where
  unfoldable pub is_spendable : RecordInfo → Bool
  is_spendable r =
      (r.asset_code == lib.native_code)
      && (leb grant_size r.amount && (not r.frozen && not r.on_hold))

  unfoldable pub spendable_records : lib.Wallet → List RecordInfo
  spendable_records w = filter is_spendable (lib.records w)

  -- Whether `maintain_enough_records` leaves its wait.
  unfoldable pub must_break_up : lib.Wallet → Bool
  must_break_up w =
      if leb num_records (length (spendable_records w))
      then false
      else any_above (grant_size * 2) (spendable_records w)

  unfoldable pub next_split : lib.Wallet → ℕ → Next
  next_split w made =
      if leb num_records (length (spendable_records w) + 2 * made)
      then enough
      else split_record grant_size (max_by_amount (spendable_records w))

  -- The wallet, the receipts, and whether there are records enough once they are final.
  abbrev pub Round : Type 0
  Round = lib.Wallet × List Receipt × Bool

  -- The end of a round of the inner loop: a transfer that fails ends it.
  abbrev pub after_transfer :
      List Receipt
      → (List Receipt → lib.Wallet → Option Round)
      → lib.Wallet × Option Receipt
      → Option Round
  after_transfer transactions again (w, none) = some (w, transactions, false)
  after_transfer transactions again (w, some receipt) = again (transactions ++ (receipt ∷ [])) w

  abbrev pub do_next :
      List Receipt → (List Receipt → lib.Wallet → Option Round) → lib.Wallet → Next → Option Round
  do_next transactions again w enough = some (w, transactions, true)
  do_next transactions again w no_large = some (w, transactions, false)
  do_next transactions again w (split change_amount split_amount) =
      after_transfer transactions again (lib.transfer w (change_amount ∷ split_amount ∷ []))

  -- The inner loop, on fuel.
  unfoldable pub split_loop : ℕ → List Receipt → lib.Wallet → Option Round
  split_loop zero transactions w = none
  split_loop (suc fuel) transactions w =
      do_next transactions (split_loop fuel) w (next_split w (length transactions))

  abbrev pub after_round :
      (lib.Wallet → Option (lib.Wallet × Option (List Receipt)))
      → Option Round
      → Option (lib.Wallet × Option (List Receipt))
  after_round again none = none
  after_round again (some (w, transactions, true)) = some (w, some transactions)
  after_round again (some (w, [], false)) = some (w, none)
  after_round again (some (w, t ∷ ts, false)) = again (lib.await_transactions w (t ∷ ts))

  -- The outer loop, on fuel; each inner loop has fuel enough.
  unfoldable pub break_up_records : ℕ → lib.Wallet → Option (lib.Wallet × Option (List Receipt))
  break_up_records zero w = none
  break_up_records (suc fuel) w =
      after_round (break_up_records fuel) (split_loop (suc num_records) [] w)

  abbrev pub after_break :
      (lib.Wallet → Option lib.Wallet)
      → Option (lib.Wallet × Option (List Receipt))
      → Option lib.Wallet
  after_break again none = none
  after_break again (some (w, none)) = again w
  after_break again (some (w, some transactions)) = some w

  -- What `maintain_enough_records` does up to its next wait for a wakeup, on fuel, with the fuel of
  -- `break_up_records`.
  unfoldable pub until_wait : ℕ → ℕ → lib.Wallet → Option lib.Wallet
  until_wait rounds zero w = none
  until_wait rounds (suc fuel) w =
      if must_break_up w
      then after_break (until_wait rounds fuel) (break_up_records rounds w)
      else some w

  -- Between the wait and the wakeup the wallet changes.
  unfoldable pub maintain_enough_records :
      ℕ → ℕ → List (lib.Wallet → lib.Wallet) → lib.Wallet → Option lib.Wallet
  maintain_enough_records rounds fuel [] w = until_wait rounds fuel w
  maintain_enough_records rounds fuel (change ∷ wakeups) w = elim (until_wait rounds fuel w) [
    | none ↦ none
    | some w' ↦ maintain_enough_records rounds fuel wakeups (change w')
  ]
