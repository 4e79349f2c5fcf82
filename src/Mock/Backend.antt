-- ===== src/Mock/Backend.antt =====
-- `MockCapeBackend` of wallet/src/mocks.rs: the network as the backend of a wallet.
use cape.Base.{
  ℕ, Bool, Option, none, some, [], ◌∷◌, Outcome, ok, err, panic, ok_or, ◌==◌, nat_eq, if◌then◌else◌,
}
use cape.Base.Map.{Map, lookup, insert}
use cape.Cap.{AssetDefinition}
use cape.Model.Types.{EthereumAddr, Erc20Code, CapeValidationError}
use cape.Ledger.{CapeTransition, CapeNullifierSet, get, insert_nullifier}
use cape.Cap.{Nullifier}
use cape.Eqs.Types.{EqsLib}
use cape.AddressBook.Files.{UserAddress, UserPubKey}
use cape.Wallet.Backend.{Call, failed}
use cape.Wallet.Interface.{WalletBackend}
use cape.Mock.Network.{MockCapeNetwork, register_erc20, wrap_erc20, nullifier_spent}

-- The first entry whose definition has the code.
unfoldable pub find_code : ℕ → Map AssetDefinition (Erc20Code × EthereumAddr) → Option Erc20Code
find_code asset [] = none
find_code asset ((definition, (code, sponsor)) ∷ m) =
    let rest = find_code asset m in if definition.code == asset then some code else rest

module _ (lib : EqsLib) where
  unfoldable pub get_wrapped_asset : MockCapeNetwork lib → ℕ → Call (Option Erc20Code)
  get_wrapped_asset net asset = ok (find_code asset net.contract.erc20_registrar)

  unfoldable pub get_public_key : MockCapeNetwork lib → UserAddress → Call UserPubKey
  get_public_key net address = ok_or (lookup address net.address_map) failed

  -- The address of the key is an argument.
  unfoldable pub register_user_key :
      (UserPubKey → UserAddress) → UserPubKey → MockCapeNetwork lib → MockCapeNetwork lib
  register_user_key address_of pub_key net = record net {
    address_map = insert (address_of pub_key) pub_key net.address_map;
  }

  -- The answer for a nullifier, and the cache with it.
  abbrev pub cached_proof :
      CapeNullifierSet → Nullifier → MockCapeNetwork lib → Option Bool → Bool × CapeNullifierSet
  cached_proof set n net (some ret) = (ret, set)
  cached_proof set n net none =
      let ret = nullifier_spent lib net n in (ret, insert_nullifier set n ret)

  unfoldable pub get_nullifier_proof :
      CapeNullifierSet → Nullifier → MockCapeNetwork lib → Bool × CapeNullifierSet
  get_nullifier_proof set n net = cached_proof set n net (get set n)

  -- `map_err(cape_to_wallet_err)`; an error leaves the network.
  abbrev pub settled :
      MockCapeNetwork lib
      → Outcome CapeValidationError (MockCapeNetwork lib)
      → MockCapeNetwork lib × Call (Unit {0})
  settled net (ok n) = (n, ok tt)
  settled net (err e) = (net, err failed)
  settled net panic = (net, panic)

  -- The submission of a transaction goes through seahorse's ledger.
  abbrev pub mock_backend :
      (CapeTransition → MockCapeNetwork lib → MockCapeNetwork lib × Call (Unit {0})) → WalletBackend
  mock_backend submit = record {
    Backend = MockCapeNetwork lib;
    wait_for_eqs = λ net. ok tt;
    register_erc20_asset =
        λ asset code sponsor net. settled net (register_erc20 lib asset code sponsor net);
    get_wrapped_erc20_code = λ asset net. get_wrapped_asset net asset;
    wrap_erc20 = λ code src ro net. settled net (wrap_erc20 lib code src ro net);
    get_public_key = λ address net. get_public_key net address;
    submit = submit;
  }
