-- ===== src/Wallet/Sponsors.antt =====
-- When `register_erc20_asset` of wallet/src/backend.rs comes to an end.
use cape.Base.{
  ℕ, zero, suc, ◌+◌, ◌<◌, ◌≡◌, refl, Bool, subst, ◌⊎◌, inl, inr, arith, Option, none, some, Outcome,
  ok, err, panic, Outcome-cases,
}
use cape.Cap.{AssetDefinition}
use cape.Model.Types.{EthereumAddr, Erc20Code}
use cape.Eqs.Routes.{RouteError}
use cape.Wallet.Backend.{Call, get_eqs, wait_from, wait_for_wrapped_erc20_code}
use cape.Wallet.Waits.{get_eqs-returns}
use cape.Wallet.Ethereum.{pending_done, settled, EthRpc, Polls, register_erc20_asset}

module _ (answers : ℕ → Option (Outcome RouteError (Option EthereumAddr))) where
  -- The service is asked so many times from a round on, and knows no address of the asset.
  abbrev pub Unknown : ℕ → ℕ → Type 0
  Unknown zero round = Unit
  Unknown (suc n) round = (get_eqs (answers round) ≡ ok none) × Unknown n (round + 1)

  -- How an answer ends a wait without a timeout: well by an address, badly by an error.
  abbrev pub Ends : ℕ → Call (Unit {0}) → Type 0
  Ends round (ok done) = (address : EthereumAddr) × (get_eqs (answers round) ≡ ok (some address))
  Ends round (err e) = get_eqs (answers round) ≡ err e
  Ends round panic = ⊥

  wait_from_untimed :
      (elapsed : ℕ → ℕ) (fuel round : ℕ)
      → ((n : ℕ) × (n < fuel)
          × Unknown n round
          × (r : Call (Unit {0})) × (wait_from answers elapsed none fuel round ≡ some r)
          × Ends (round + n) r)
        ⊎ (Unknown fuel round × (wait_from answers elapsed none fuel round ≡ none))
  unfolding wait_from
  wait_from_untimed elapsed zero round = inr (tt, refl)
  wait_from_untimed elapsed (suc fuel) round =
      let here : round + 0 ≡ round = omega arith in
      elim (Outcome-cases (get_eqs (answers round))) [
        | inl (some address, known) ↦
            inl (0, omega arith, tt, ok tt, rw known refl, (address, rw here known))
        | inl (none, unknown) ↦ elim (wait_from_untimed elapsed fuel (round + 1)) [
          | inl (n, below, before, r, result, ends) ↦
              let next : round + 1 + n ≡ round + suc n = omega arith in
              inl (
                suc n,
                omega (arith, below),
                (unknown, before),
                r,
                rw (unknown, result) refl,
                subst (λ m. Ends m r) next ends,
              )
          | inr (after, result) ↦ inr ((unknown, after), rw (unknown, result) refl)
        ]
        | inr (inl (e, broken)) ↦ inl (0, omega arith, tt, err e, rw broken refl, rw here broken)
        | inr (inr crashed) ↦ absurd (get_eqs-returns (answers round) crashed)
      ]

module _ {World : Type 0} where
  -- Once its transaction has come to a receipt, of a success or not, or was dropped,
  -- register_erc20_asset ends only by an answer of the query service: within the rounds of the fuel the
  -- first answer that knows the asset's address ends it well, whatever the receipt, and the first error
  -- ends it with that error, and while the service knows no address it goes on.
  pub register_erc20_asset_lem :
      (eth : EthRpc World) (polls : Polls World) (elapsed : ℕ → ℕ) (fuel : ℕ)
      (asset : AssetDefinition) (erc20_code : Erc20Code) (sponsor : EthereumAddr) (w w' : World)
      (receipt : Option Bool)
      → eth.sponsor_cape_asset erc20_code asset sponsor w ≡ (w', pending_done receipt)
      → let r = register_erc20_asset (some eth) polls elapsed fuel asset erc20_code sponsor w in
        (r.0 ≡ w')
        × (((n : ℕ) × (n < fuel)
              × Unknown (polls w') n 0
              × (result : Call (Unit {0})) × (r.1 ≡ some result)
              × Ends (polls w') n result)
            ⊎ (Unknown (polls w') fuel 0 × (r.1 ≡ none)))
  unfolding register_erc20_asset settled wait_for_wrapped_erc20_code
  register_erc20_asset_lem eth polls elapsed fuel asset erc20_code sponsor w w' receipt h = (
    rw h refl,
    rw h (elim (wait_from_untimed (polls w') elapsed fuel 0) [
      | inl (n, below, before, r, result, ends) ↦
          let same : 0 + n ≡ n = omega arith in
          inl (n, below, before, r, result, subst (λ m. Ends (polls w') m r) same ends)
      | inr (after, result) ↦ inr (after, result)
    ]),
  )
