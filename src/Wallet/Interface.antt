-- ===== src/Wallet/Interface.antt =====
-- `CapeWalletBackend` of wallet/src/wallet.rs: what the wallet's extensions ask of a backend. A call that
-- may change the backend gives it back.
use cape.Base.{ℕ, Bool, Option, List}
use cape.Cap.{AssetDefinition, RecordOpening, TransferNote, Bytes}
use cape.Model.Types.{EthereumAddr, Erc20Code}
use cape.Ledger.{CapeTransition}
use cape.AddressBook.Files.{UserAddress, UserPubKey}
use cape.Wallet.Backend.{Call}

pub record WalletBackend : Type 1 where
  pub Backend : Type 0
  pub wait_for_eqs : Backend → Call (Unit {0})
  pub register_erc20_asset :
      AssetDefinition → Erc20Code → EthereumAddr → Backend → Backend × Call (Unit {0})
  pub get_wrapped_erc20_code : ℕ → Backend → Call (Option Erc20Code)
  pub wrap_erc20 : Erc20Code → EthereumAddr → RecordOpening → Backend → Backend × Call (Unit {0})
  pub get_public_key : UserAddress → Backend → Call UserPubKey
  pub submit : CapeTransition → Backend → Backend × Call (Unit {0})

-- The wallet of seahorse around a backend, and what is called of jf_cap.
pub record WalletLib (backend : WalletBackend) : Type 1 where
  -- `AssetCode::new_foreign`
  pub new_foreign : Bytes → ℕ
  -- `AssetDefinition::new`; `none` is an error
  pub new_definition : ℕ → ℕ → Option AssetDefinition
  -- `RecordOpening::new`, with the random blinding factor
  pub new_opening : ℕ → ℕ → AssetDefinition → UserPubKey → Bool → RecordOpening
  pub address : UserPubKey → UserAddress
  -- `pub_keys`, `import_asset` and `build_transfer`; the last gives the note and the openings of its
  -- outputs, for an asset, an address, an amount, a fee and the bound data
  pub pub_keys : backend.Backend → List UserPubKey
  pub import_asset : AssetDefinition → backend.Backend → backend.Backend × Call (Unit {0})
  pub build_transfer :
      Option UserAddress
      → ℕ
      → UserAddress
      → ℕ
      → ℕ
      → Bytes
      → backend.Backend
      → backend.Backend × Call (TransferNote × List RecordOpening)
