-- ===== src/Wallet/Extension.antt =====
-- `CapeWalletExt` of wallet/src/wallet.rs: sponsoring, wrapping and burning.
use cape.Base.{
  ℕ, Bool, true, false, Option, none, some, List, ◌++◌, ok, err, panic, unwrap, ok_or, guard,
  assert, ◌>>=◌, ◌>>◌, ◌==◌, nat_eq, get_elem?,
}
use cape.Cap.{AssetDefinition, RecordOpening, TransferNote, Bytes, CapLib}
use cape.Model.Types.{EthereumAddr, Erc20Code, CapeModelTxn}
use cape.Model.Notes.{cape_burn_magic_bytes}
use cape.Model.Assets.{erc20_asset_description}
use cape.Ledger.{CapeTransition, transaction}
use cape.AddressBook.Files.{UserAddress}
use cape.Wallet.Backend.{Call, crypto_error, insufficient_balance, undefined_asset}
use cape.Wallet.Interface.{WalletBackend, WalletLib}

-- A call after one that changes the backend.
abbrev pub and_then : {S A B : Type 0} → S × Call A → (A → S → S × Call B) → S × Call B
and_then (s, ok a) next = next a s
and_then (s, err e) next = (s, err e)
and_then (s, panic) next = (s, panic)

-- A call that leaves the backend as it is.
abbrev pub reading : {S A B : Type 0} → S → Call A → (A → S → S × Call B) → S × Call B
reading s (ok a) next = next a s
reading s (err e) next = (s, err e)
reading s panic next = (s, panic)

-- The magic bytes and the address that the tokens go to.
unfoldable pub burn_bound_data : EthereumAddr → Bytes
burn_bound_data dst_addr = cape_burn_magic_bytes ++ dst_addr

module _ (cap_lib : CapLib) (backend : WalletBackend) (lib : WalletLib backend) where
  unfoldable pub build_sponsor :
      Erc20Code → EthereumAddr → ℕ → backend.Backend → Call AssetDefinition
  build_sponsor erc20_code sponsor_addr policy s = do
    backend.wait_for_eqs s
    ok_or
        (lib.new_definition
          (lib.new_foreign (erc20_asset_description cap_lib erc20_code sponsor_addr policy)) policy)
        crypto_error

  unfoldable pub submit_sponsor :
      Erc20Code
      → EthereumAddr
      → AssetDefinition
      → backend.Backend
      → backend.Backend × Call (Unit {0})
  submit_sponsor erc20_code sponsor_addr asset s =
      reading s
        (guard
          (cap_lib.verify_foreign asset.code
            (erc20_asset_description cap_lib erc20_code sponsor_addr asset.policy_ref))
          crypto_error)
        (λ u. backend.register_erc20_asset asset erc20_code sponsor_addr)

  unfoldable pub sponsor :
      Erc20Code → EthereumAddr → ℕ → backend.Backend → backend.Backend × Call AssetDefinition
  sponsor erc20_code sponsor_addr policy s =
      reading s (build_sponsor erc20_code sponsor_addr policy s) (λ asset s.
        and_then (submit_sponsor erc20_code sponsor_addr asset s)
          (λ u s. and_then (lib.import_asset asset s) (λ u s. (s, ok asset))))

  -- The blinding factor is an argument.
  unfoldable pub record_opening :
      AssetDefinition → UserAddress → ℕ → Bool → ℕ → backend.Backend → Call RecordOpening
  record_opening asset address amount freeze_flag blind s =
      backend.get_public_key address s >>= λ pub_key.
      ok (lib.new_opening blind amount asset pub_key freeze_flag)

  unfoldable pub build_wrap :
      AssetDefinition → UserAddress → ℕ → ℕ → backend.Backend → Call RecordOpening
  build_wrap cap_asset dst_addr amount blind s =
      record_opening cap_asset dst_addr amount false blind s

  unfoldable pub submit_wrap :
      EthereumAddr → RecordOpening → backend.Backend → backend.Backend × Call (Unit {0})
  submit_wrap src_addr ro s =
      reading s
        (backend.get_wrapped_erc20_code ro.asset_def.code s >>= λ code.
          ok_or code (undefined_asset ro.asset_def.code))
        (λ erc20_code. backend.wrap_erc20 erc20_code src_addr ro)

  unfoldable pub wrap :
      EthereumAddr
      → AssetDefinition
      → UserAddress
      → ℕ
      → ℕ
      → backend.Backend
      → backend.Backend × Call (Unit {0})
  wrap src_addr cap_asset dst_addr amount blind s =
      reading s (build_wrap cap_asset dst_addr amount blind s) (submit_wrap src_addr)

  -- The opening of the second output, which the assertions are about.
  abbrev pub burned_opening : ℕ → ℕ → UserAddress → List RecordOpening → Call RecordOpening
  burned_opening cap_asset amount burn_address outputs = do
    ro ← unwrap (get_elem? outputs 1)
    assert (ro.asset_def.code == cap_asset)
    assert (ro.amount == amount)
    assert (lib.address ro.pub_key == burn_address)
    ok ro

  abbrev pub burn_txn : TransferNote → RecordOpening → CapeTransition
  burn_txn note ro = transaction (CapeModelTxn.burn note ro)

  unfoldable pub burn :
      Option UserAddress
      → EthereumAddr
      → ℕ
      → ℕ
      → ℕ
      → backend.Backend
      → backend.Backend × Call (Unit {0})
  burn account dst_addr cap_asset amount fee s =
      reading s (ok_or (get_elem? (lib.pub_keys s) 0) insufficient_balance) (λ key s.
        and_then
          (lib.build_transfer account cap_asset (lib.address key) amount fee
            (burn_bound_data dst_addr) s)
          (λ built s.
            reading s (burned_opening cap_asset amount (lib.address key) built.1)
              (λ ro s. backend.submit (burn_txn built.0 ro) s)))

  -- An error is no wrapped asset.
  unfoldable pub wrapped_erc20 : ℕ → backend.Backend → Call (Option Erc20Code)
  wrapped_erc20 asset s = elim (backend.get_wrapped_erc20_code asset s) [
    | ok code ↦ ok code
    | err e ↦ ok none
    | panic ↦ panic
  ]

  abbrev is_some : Option Erc20Code → Bool
  is_some none = false
  is_some (some code) = true

  unfoldable pub is_wrapped_asset : ℕ → backend.Backend → Call Bool
  is_wrapped_asset asset s = wrapped_erc20 asset s >>= λ code. ok (is_some code)
