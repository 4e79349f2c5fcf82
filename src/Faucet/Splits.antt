-- ===== src/Faucet/Splits.antt =====
-- The records that faucet/src/faucet.rs breaks up, and the end of its loops.
use cape.Base.{
  ℕ, zero, suc, ◌+◌, ◌-◌, ◌*◌, ◌/◌, ◌≤◌, ◌<◌, ◌≡◌, refl, subst, ◌⊎◌, inl, inr, Bool, true, false,
  Bool-cases, Option-cases, Option, none, some, List, [], ◌∷◌, ◌++◌, length, length-append, All,
  arith, ltb, leb, leb→le,
}
use cape.Faucet.Breaking.{
  RecordInfo, Receipt, FaucetWallet, max_by_amount, any_above, Next, enough, no_large, split,
  split_record, spendable_records, must_break_up, next_split, Round, after_transfer, do_next,
  split_loop,
}

-- A record is the largest of some.
abbrev pub Largest : RecordInfo → List RecordInfo → Type 0
Largest r = All (λ (s : RecordInfo). s.amount ≤ r.amount)

All-weaken :
    (m r : RecordInfo) (rs : List RecordInfo) → m.amount ≤ r.amount → Largest m rs → Largest r rs
All-weaken m r [] le h = tt
All-weaken m r (s ∷ rs) le h = (omega (arith, le, h.0), All-weaken m r rs le h.1)

max_by_amount-none :
    (rs : List RecordInfo) (r : RecordInfo) → max_by_amount rs ≡ none → Largest r rs
unfolding max_by_amount
max_by_amount-none [] r h = tt
max_by_amount-none (s ∷ rs) r h = cc

pub max_by_amount_lem :
    (rs : List RecordInfo) (r : RecordInfo) → max_by_amount rs ≡ some r → Largest r rs
unfolding max_by_amount
max_by_amount_lem [] r h = cc
max_by_amount_lem (s ∷ rs) r h = elim (Option-cases (max_by_amount rs)) [
  | inl alone ↦
      let same : s ≡ r = ground (arith, alone, h) in
      let nothing : Largest r rs = max_by_amount-none rs r alone in
      (subst (λ (x : RecordInfo). s.amount ≤ x.amount) same (omega arith), nothing)
  | inr (m, found) ↦
      let below : Largest m rs = max_by_amount_lem rs m found in
      elim (Bool-cases (ltb m.amount s.amount)) [
        | inl above ↦
            let same : s ≡ r = ground (arith, found, above, h) in
            let le : m.amount ≤ s.amount = ground (arith, above) in
            subst (λ (x : RecordInfo). Largest x (s ∷ rs)) same
              (omega arith, All-weaken m s rs le below)
        | inr under ↦
            let same : m ≡ r = ground (arith, found, under, h) in
            let le : s.amount ≤ m.amount = ground (arith, under) in
            subst (λ (x : RecordInfo). Largest x (s ∷ rs)) same (le, below)
      ]
]

pub any_above-Largest :
    (n : ℕ) (r : RecordInfo) (rs : List RecordInfo)
    → r.amount ≤ n
    → Largest r rs
    → any_above n rs ≡ false
unfolding any_above
any_above-Largest n r [] le h = refl
any_above-Largest n r (s ∷ rs) le h =
    let below : ltb n s.amount ≡ false = ground (arith, h.0, le) in
    rw below (any_above-Largest n r rs le h.1)

module _ (lib : FaucetWallet) (grant_size num_records : ℕ) where
  -- The inner loop has ended, and what it then reports.
  abbrev pub Ends : Option (Round lib grant_size num_records) → Type 0
  Ends o =
      (w : lib.Wallet) × (ts : List Receipt) × (done : Bool) × (o ≡ some (w, ts, done))
      × ((done ≡ false)
          ⊎ (num_records ≤ length (spendable_records lib grant_size num_records w) + 2 * length ts))

  -- There are enough records exactly when the loop says so.
  next_split-enough :
      (w : lib.Wallet) (made : ℕ)
      → next_split lib grant_size num_records w made ≡ enough
      → num_records ≤ length (spendable_records lib grant_size num_records w) + 2 * made
  unfolding next_split split_record
  next_split-enough w made h =
      elim (Bool-cases
        (leb num_records (length (spendable_records lib grant_size num_records w) + 2 * made))) [
          | inl reached ↦
              leb→le num_records
                (length (spendable_records lib grant_size num_records w) + 2 * made) reached
          | inr short ↦ absurd (ground (arith, short, h))
        ]

  after_transfer-Ends :
      (transactions : List Receipt)
      (again : List Receipt → lib.Wallet → Option (Round lib grant_size num_records))
      (r : lib.Wallet × Option Receipt)
      → ((receipt : Receipt) (w : lib.Wallet) → Ends (again (transactions ++ (receipt ∷ [])) w))
      → Ends (after_transfer lib grant_size num_records transactions again r)
  after_transfer-Ends transactions again (w, none) rest = (w, transactions, false, refl, inl refl)
  after_transfer-Ends transactions again (w, some receipt) rest = rest receipt w

  do_next-Ends :
      (transactions : List Receipt)
      (again : List Receipt → lib.Wallet → Option (Round lib grant_size num_records))
      (w : lib.Wallet) (n : Next)
      → next_split lib grant_size num_records w (length transactions) ≡ n
      → ((receipt : Receipt) (w' : lib.Wallet) → Ends (again (transactions ++ (receipt ∷ [])) w'))
      → Ends (do_next lib grant_size num_records transactions again w n)
  do_next-Ends transactions again w enough h rest =
      (w, transactions, true, refl, inr (next_split-enough w (length transactions) h))
  do_next-Ends transactions again w no_large h rest = (w, transactions, false, refl, inl refl)
  do_next-Ends transactions again w (split change half) h rest =
      after_transfer-Ends transactions again (lib.transfer w (change ∷ half ∷ [])) rest

  split_loop_lem :
      (fuel : ℕ) (transactions : List Receipt) (w : lib.Wallet)
      → num_records ≤ 2 * length transactions + fuel
      → Ends (split_loop lib grant_size num_records (suc fuel) transactions w)
  unfolding split_loop next_split
  split_loop_lem zero transactions w budget =
      let reached : leb num_records
            (length (spendable_records lib grant_size num_records w) + 2 * length transactions)
          ≡ true =
        ground (arith, budget) in
      rw reached (w, transactions, true, refl, inr (omega (arith, budget)))
  split_loop_lem (suc fuel) transactions w budget =
      do_next-Ends transactions (split_loop lib grant_size num_records (suc fuel)) w
        (next_split lib grant_size num_records w (length transactions)) refl
        (λ receipt w'.
          split_loop_lem fuel (transactions ++ (receipt ∷ [])) w'
            (omega (arith, budget, length-append transactions (receipt ∷ []))))

  -- The inner loop ends whatever the wallet does: with fuel for the records that are wanted and one
  -- round more it gives a result, and when it reports enough, the spendable records and two for each
  -- transaction are as many as are wanted.
  pub split_loop_total :
      (w : lib.Wallet) → Ends (split_loop lib grant_size num_records (suc num_records) [] w)
  split_loop_total w = split_loop_lem num_records [] w (omega arith)

  -- A record is split when there are too few, and it is a largest of the spendable ones: the two amounts
  -- are its halves, the first the larger by one at most, and each is a grant at least.
  next_split_lem :
      (w : lib.Wallet) (made change half : ℕ)
      → next_split lib grant_size num_records w made ≡ split change half
      → (r : RecordInfo) × Largest r (spendable_records lib grant_size num_records w)
        × (change + half ≡ r.amount)
        × (grant_size ≤ half)
        × (half ≤ change)
        × (change ≤ half + 1)
        × (length (spendable_records lib grant_size num_records w) + 2 * made < num_records)
  unfolding next_split split_record
  next_split_lem w made change half h =
      let records = spendable_records lib grant_size num_records w in
      elim (Bool-cases (leb num_records (length records + 2 * made))) [
        | inl reached ↦ absurd (ground (arith, reached, h))
        | inr short ↦ elim (Option-cases (max_by_amount records)) [
          | inl nothing ↦ absurd (ground (arith, short, nothing, h))
          | inr (r, found) ↦ elim (Bool-cases (leb (grant_size * 2) r.amount)) [
            | inr small ↦ absurd (ground (arith, short, found, small, h))
            | inl large ↦
                let first : r.amount - r.amount / 2 ≡ change =
                  ground (arith, short, found, large, h) in
                let second : r.amount / 2 ≡ half = ground (arith, short, found, large, h) in
                let le : grant_size * 2 ≤ r.amount = leb→le (grant_size * 2) r.amount large in
                (
                  r,
                  max_by_amount_lem records r found,
                  omega (arith, first, second),
                  omega (arith, second, le),
                  omega (arith, first, second),
                  omega (arith, first, second),
                  ground (arith, short),
                )
          ]
        ]
      ]

  -- When there are too few spendable records and a largest is exactly two grants, the loop would split
  -- it into two grants, but the wait that comes before the loop does not end.
  pub exact_double_waits :
      (w : lib.Wallet) (r : RecordInfo)
      → max_by_amount (spendable_records lib grant_size num_records w) ≡ some r
      → r.amount ≡ grant_size * 2
      → length (spendable_records lib grant_size num_records w) < num_records
      → (must_break_up lib grant_size num_records w ≡ false)
        × (next_split lib grant_size num_records w 0 ≡ split grant_size grant_size)
  unfolding must_break_up next_split split_record
  exact_double_waits w r found double few =
      let records = spendable_records lib grant_size num_records w in
      let none_above : any_above (grant_size * 2) records ≡ false =
        any_above-Largest (grant_size * 2) r records (omega (arith, double))
          (max_by_amount_lem records r found) in
      let short : leb num_records (length records) ≡ false = ground (arith, few) in
      let short_here : leb num_records (length records + 2 * 0) ≡ false = ground (arith, few) in
      let big : leb (grant_size * 2) r.amount ≡ true = ground (arith, double) in
      let half : r.amount / 2 ≡ grant_size = omega (arith, double) in
      let change : r.amount - grant_size ≡ grant_size = omega (arith, double) in
      (rw (short, none_above) refl, rw (short_here, found, big, half, change) refl)
