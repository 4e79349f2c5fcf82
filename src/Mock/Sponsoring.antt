-- ===== src/Mock/Sponsoring.antt =====
-- A wallet (wallet/src/wallet.rs) on the network of wallet/src/mocks.rs: what it sponsors it can wrap.
use cape.Base.{
  ℕ, ◌≡◌, refl, ap, ◌∙◌, true, false, none, some, [], ◌∷◌, ◌++◌, arith, ok, ◌==◌, nat_eq, list_eq,
  ==_refl, All,
}
use cape.Base.Map.{Map, lookup, insert, contains_key, contains_key-lookup, lookup-insert_self}
use cape.Cap.{AssetDefinition, asset_definition_eq, RecordOpening}
use cape.Model.Types.{EthereumAddr, Erc20Code}
use cape.Model.Assets
use cape.Model.Assets.{is_erc20_asset_def_valid, erc20_asset_description, deposited_plus}
use cape.Model.Submit
use cape.Ledger.{CapeTransition}
use cape.Eqs.Types.{EqsLib}
use cape.Wallet.Backend.{Call}
use cape.Wallet.Interface.{WalletLib}
use cape.Wallet.Extension.{build_sponsor, submit_sponsor, submit_wrap}
use cape.Mock.Network.{
  MockCapeNetwork, handle_event, handle_events, submit_operations, register_erc20, wrap_erc20,
}
use cape.Mock.Backend.{find_code, get_wrapped_asset, mock_backend}

abbrev pub Registrar : Type 0
Registrar = Map AssetDefinition (Erc20Code × EthereumAddr)

-- No asset with the code is registered.
abbrev pub NewCode : ℕ → Registrar → Type 0
NewCode code =
    All (λ (e : AssetDefinition × (Erc20Code × EthereumAddr)). (e.0.code == code) ≡ false)

other_code : (a j : AssetDefinition) → (j.code == a.code) ≡ false → (a == j) ≡ false
other_code a j h = ground arith

NewCode-lookup : (a : AssetDefinition) (m : Registrar) → NewCode a.code m → lookup a m ≡ none
NewCode-lookup a [] h = refl
NewCode-lookup a ((j, v) ∷ m) h = rw (other_code a j h.0) (NewCode-lookup a m h.1)

find_code-insert :
    (a : AssetDefinition) (code : Erc20Code) (src : EthereumAddr) (m : Registrar)
    → NewCode a.code m
    → find_code a.code (insert a (code, src) m) ≡ some code
unfolding find_code
find_code-insert a code src [] h = rw (==_refl a.code) refl
find_code-insert a code src ((j, v) ∷ m) h =
    rw (other_code a j h.0, h.0) (find_code-insert a code src m h.1)

module _ (lib : EqsLib) where
  abbrev counted : MockCapeNetwork lib → Assets.State lib.cap_lib
  counted net = Submit.next_state_number lib.cap_lib net.contract

  -- The network with an asset registered.
  abbrev registered :
      AssetDefinition → Erc20Code → EthereumAddr → MockCapeNetwork lib → MockCapeNetwork lib
  registered asset code sponsor net = record net {
    contract = record (counted net) {
      erc20_registrar = insert asset (code, sponsor) net.contract.erc20_registrar;
    };
  }

  register_erc20_ok :
      (asset : AssetDefinition) (code : Erc20Code) (sponsor : EthereumAddr)
      (net : MockCapeNetwork lib)
      → is_erc20_asset_def_valid lib.cap_lib asset code sponsor ≡ true
      → lookup asset net.contract.erc20_registrar ≡ none
      → register_erc20 lib asset code sponsor net ≡ ok (registered asset code sponsor net)
  unfolding register_erc20 submit_operations handle_events Submit.submit_operations
      Submit.apply_operations Submit.apply_operation Submit.next_state_number Assets.register
  register_erc20_ok asset code sponsor net valid unregistered =
      let new : contains_key (counted net).erc20_registrar asset ≡ false =
        contains_key-lookup (counted net).erc20_registrar asset unregistered in
      rw (valid, new) refl

  -- The network with a deposit pending.
  abbrev wrapped :
      Erc20Code → EthereumAddr → RecordOpening → MockCapeNetwork lib → MockCapeNetwork lib
  wrapped code src ro net = record net {
    contract = record (counted net) {
      erc20_deposits = net.contract.erc20_deposits ++ (lib.cap_lib.record_commitment ro ∷ []);
      erc20_deposited =
          insert code (deposited_plus (lookup code net.contract.erc20_deposited) ro.amount)
            net.contract.erc20_deposited;
    };
    pending_erc20_deposits =
        insert (lib.cap_lib.record_commitment ro) (code, src, ro) net.pending_erc20_deposits;
  }

  wrap_erc20_ok :
      (code : Erc20Code) (src sponsor : EthereumAddr) (ro : RecordOpening)
      (net : MockCapeNetwork lib)
      → lookup ro.asset_def net.contract.erc20_registrar ≡ some (code, sponsor)
      → wrap_erc20 lib code src ro net ≡ ok (wrapped code src ro net)
  unfolding wrap_erc20 submit_operations handle_events handle_event Submit.submit_operations
      Submit.apply_operations Submit.apply_operation Submit.next_state_number Assets.wrap
  wrap_erc20_ok code src sponsor ro net entry = rw (entry, ==_refl code) refl

  module _ (submit : CapeTransition → MockCapeNetwork lib → MockCapeNetwork lib × Call (Unit {0}))
      (wallet : WalletLib (mock_backend lib submit)) where
    -- An asset that the wallet has built is what the contract asks of one.
    build_sponsor-valid :
        (code : Erc20Code) (sponsor : EthereumAddr) (policy : ℕ) (net : MockCapeNetwork lib)
        (asset : AssetDefinition)
        → lib.cap_lib.verify_foreign
            (wallet.new_foreign (erc20_asset_description lib.cap_lib code sponsor policy))
            (erc20_asset_description lib.cap_lib code sponsor policy)
          ≡ true
        → ((c : ℕ) (d : AssetDefinition)
            → wallet.new_definition c policy ≡ some d
            → (d.code ≡ c) × (d.policy_ref ≡ policy))
        → build_sponsor lib.cap_lib (mock_backend lib submit) wallet code sponsor policy net
          ≡ ok asset
        → is_erc20_asset_def_valid lib.cap_lib asset code sponsor ≡ true
    unfolding build_sponsor is_erc20_asset_def_valid
    build_sponsor-valid code sponsor policy net asset verifies keeps built =
        let c : ℕ = wallet.new_foreign (erc20_asset_description lib.cap_lib code sponsor policy) in
        let made : wallet.new_definition c policy ≡ some asset = ground arith in
        let (same_code, same_policy) = keeps c asset made in rw (same_code, same_policy) verifies

    submit_sponsor_ok :
        (code : Erc20Code) (sponsor : EthereumAddr) (asset : AssetDefinition)
        (net : MockCapeNetwork lib)
        → is_erc20_asset_def_valid lib.cap_lib asset code sponsor ≡ true
        → lookup asset net.contract.erc20_registrar ≡ none
        → submit_sponsor lib.cap_lib (mock_backend lib submit) wallet code sponsor asset net
          ≡ (registered asset code sponsor net, ok tt)
    unfolding submit_sponsor is_erc20_asset_def_valid
    submit_sponsor_ok code sponsor asset net valid unregistered =
        rw (valid, register_erc20_ok asset code sponsor net valid unregistered) refl

    submit_wrap_ok :
        (code : Erc20Code) (src sponsor : EthereumAddr) (ro : RecordOpening)
        (net : MockCapeNetwork lib)
        → find_code ro.asset_def.code net.contract.erc20_registrar ≡ some code
        → lookup ro.asset_def net.contract.erc20_registrar ≡ some (code, sponsor)
        → submit_wrap lib.cap_lib (mock_backend lib submit) wallet src ro net
          ≡ (wrapped code src ro net, ok tt)
    unfolding submit_wrap get_wrapped_asset
    submit_wrap_ok code src sponsor ro net found entry =
        rw (found, wrap_erc20_ok code src sponsor ro net entry) refl

    -- Sponsor, then wrap.
    pub sponsor-wrap :
        (code : Erc20Code) (sponsor src : EthereumAddr) (policy : ℕ) (net : MockCapeNetwork lib)
        (asset : AssetDefinition) (ro : RecordOpening)
        → lib.cap_lib.verify_foreign
            (wallet.new_foreign (erc20_asset_description lib.cap_lib code sponsor policy))
            (erc20_asset_description lib.cap_lib code sponsor policy)
          ≡ true
        → ((c : ℕ) (d : AssetDefinition)
            → wallet.new_definition c policy ≡ some d
            → (d.code ≡ c) × (d.policy_ref ≡ policy))
        → build_sponsor lib.cap_lib (mock_backend lib submit) wallet code sponsor policy net
          ≡ ok asset
        → NewCode asset.code net.contract.erc20_registrar
        → ro.asset_def ≡ asset
        → let first =
            submit_sponsor lib.cap_lib (mock_backend lib submit) wallet code sponsor asset net in
          let second = submit_wrap lib.cap_lib (mock_backend lib submit) wallet src ro first.0 in
          (first.1 ≡ ok tt)
          × (second.1 ≡ ok tt)
          × (second.0.contract.erc20_deposits
              ≡ net.contract.erc20_deposits ++ (lib.cap_lib.record_commitment ro ∷ []))
          × (lookup (lib.cap_lib.record_commitment ro) second.0.pending_erc20_deposits
              ≡ some (code, src, ro))
    unfolding Submit.next_state_number
    sponsor-wrap code sponsor src policy net asset ro verifies keeps built new of_asset =
        let valid = build_sponsor-valid code sponsor policy net asset verifies keeps built in
        let first =
          submit_sponsor_ok code sponsor asset net valid
            (NewCode-lookup asset net.contract.erc20_registrar new) in
        let next : MockCapeNetwork lib = registered asset code sponsor net in
        let found : find_code ro.asset_def.code next.contract.erc20_registrar ≡ some code =
          rw of_asset (find_code-insert asset code sponsor net.contract.erc20_registrar new) in
        let entry : lookup ro.asset_def next.contract.erc20_registrar ≡ some (code, sponsor) =
          rw of_asset (lookup-insert_self asset (code, sponsor) net.contract.erc20_registrar) in
        let second =
          ap (λ r. submit_wrap lib.cap_lib (mock_backend lib submit) wallet src ro r.0) first
          ∙ submit_wrap_ok code src sponsor ro next found entry in
        (
          ap (λ r. r.1) first,
          ap (λ r. r.1) second,
          ap (λ r. r.0.contract.erc20_deposits) second,
          ap (λ r. lookup (lib.cap_lib.record_commitment ro) r.0.pending_erc20_deposits) second
              ∙ lookup-insert_self (lib.cap_lib.record_commitment ro) (code, src, ro)
                  net.pending_erc20_deposits,
        )
