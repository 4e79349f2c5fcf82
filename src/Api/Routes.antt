-- ===== src/Api/Routes.antt =====
-- The routes of wallet/src/wallet-api/routes.rs that sponsor, wrap, unwrap, mint and send, over the
-- wallet of wallet/src/wallet.rs. A wallet is its backend's state.
use cape.Base.{ℕ, Option, none, some, List, [], ◌∷◌, ok, err, panic, unwrap, ok_or, ◌>>=◌, map}
use cape.Cap.{AssetDefinition, RecordOpening, Bytes, CapLib}
use cape.Model.Types.{EthereumAddr}
use cape.AddressBook.Files.{UserAddress}
use cape.Wallet.Backend.{CapeWalletError}
use cape.Wallet.Backend
use cape.Wallet.Interface.{WalletBackend, WalletLib}
use cape.Wallet.Extension
use cape.Wallet.Extension.{build_wrap, submit_wrap, submit_sponsor}
use cape.Api.Values.{
  CapeApiError, wallet_failed, missing_wallet, deserialize_failed, other, Call, TaggedBase64,
  UrlSegmentValue, Encodings, as_string, as_u64, as_u128, as_identifier,
}

pub data RouteParam : Type 0 where
  source_param eth_address_param asset_param amount_param fee_param erc20_param sponsor_param :
      RouteParam
  timeout_param destination_param minter_param recipient_param sender_param : RouteParam

abbrev pub RouteBindings : Type 0
RouteBindings = RouteParam → Option UrlSegmentValue

-- What is called of ethers and of seahorse's wallet; `none` is an error.
pub record RouteLib (backend : WalletBackend) : Type 0 where
  pub encodings : Encodings
  -- `parse::<Address>`
  pub parse_address : Bytes → Option EthereumAddr
  -- `from_tagged_blob`
  pub user_address : TaggedBase64 → Option UserAddress
  pub asset_code : TaggedBase64 → Option ℕ
  -- `asset`, `mint`, `transfer` and `wait_for_sponsor` of a wallet
  pub asset : ℕ → backend.Backend → Option AssetDefinition
  pub mint :
      Option UserAddress
      → ℕ
      → ℕ
      → ℕ
      → UserAddress
      → backend.Backend
      → backend.Backend × Backend.Call (Unit {0})
  pub transfer :
      Option UserAddress
      → ℕ
      → List (UserAddress × ℕ)
      → ℕ
      → backend.Backend
      → backend.Backend × Backend.Call (Unit {0})
  pub wait_for_sponsor : ℕ → ℕ → backend.Backend → backend.Backend × Backend.Call (Unit {0})

-- The errors of the wallet as those of a route.
abbrev pub as_call : {A : Type 0} → CapeApiError → Backend.Call A → Call A
as_call e (ok a) = ok a
as_call e (err x) = err e
as_call e panic = panic

-- `require_wallet`, and what follows with the wallet.
abbrev pub with_wallet : {W A : Type 0} → Option W → (W → W × Call A) → Option W × Call A
with_wallet none next = (none, err missing_wallet)
with_wallet (some w) next = (some (next w).0, (next w).1)

-- Parameters first; what fails there leaves the wallet.
abbrev pub parsed : {W A B : Type 0} → W → Call A → (A → W × Call B) → W × Call B
parsed w (ok a) next = next a
parsed w (err e) next = (w, err e)
parsed w panic next = (w, panic)

module _ (backend : WalletBackend) (routes : RouteLib backend) where
  -- `to::<T>`
  abbrev pub to : {A : Type 0} → (TaggedBase64 → Option A) → UrlSegmentValue → Call A
  to read value = as_identifier value >>= λ i. ok_or (read i) deserialize_failed

  -- `bindings[...]`; a parameter that is missing is a panic.
  abbrev pub required : {A : Type 0} → Option UrlSegmentValue → (UrlSegmentValue → Call A) → Call A
  required value read = unwrap {E = CapeApiError} value >>= read

  abbrev pub optional :
      {A : Type 0} → Option UrlSegmentValue → (UrlSegmentValue → Call A) → Call (Option A)
  optional none read = ok none
  optional (some value) read = read value >>= λ a. ok (some a)

  abbrev pub eth_address : UrlSegmentValue → Call EthereumAddr
  eth_address value = as_string routes.encodings value >>= λ s. ok_or (routes.parse_address s) other

  -- What a burn is asked for.
  pub record UnwrapRequest : Type 0 where
    pub source : Option UserAddress
    pub eth_addr : EthereumAddr
    pub asset : ℕ
    pub amount : ℕ
    pub fee : ℕ

  unfoldable pub unwrap_request : RouteBindings → Call UnwrapRequest
  unwrap_request bindings = do
    source ← optional (bindings source_param) (to routes.user_address)
    eth_addr ← required (bindings eth_address_param) eth_address
    asset ← required (bindings asset_param) (to routes.asset_code)
    amount ← required (bindings amount_param) as_u128
    fee ← required (bindings fee_param) as_u128
    ok (record { source = source; eth_addr = eth_addr; asset = asset; amount = amount; fee = fee })

  pub record MintRequest : Type 0 where
    pub asset : ℕ
    pub amount : ℕ
    pub fee : ℕ
    pub minter : Option UserAddress
    pub recipient : UserAddress

  unfoldable pub mint_request : RouteBindings → Call MintRequest
  mint_request bindings = do
    asset ← required (bindings asset_param) (to routes.asset_code)
    amount ← required (bindings amount_param) as_u128
    fee ← required (bindings fee_param) as_u128
    minter ← optional (bindings minter_param) (to routes.user_address)
    recipient ← required (bindings recipient_param) (to routes.user_address)
    ok (record {
      asset = asset;
      amount = amount;
      fee = fee;
      minter = minter;
      recipient = recipient;
    })

  unfoldable pub mint :
      RouteBindings → Option backend.Backend → Option backend.Backend × Call (Unit {0})
  mint bindings s = with_wallet s (λ w. parsed w (mint_request bindings) (λ r.
      let (v, answer) = routes.mint r.minter r.fee r.asset r.amount r.recipient w in
      (v, as_call other answer)))

  pub record SendRequest : Type 0 where
    pub recipient : UserAddress
    pub asset : ℕ
    pub amount : ℕ
    pub fee : ℕ
    pub sender : Option UserAddress

  unfoldable pub send_request : RouteBindings → Call SendRequest
  send_request bindings = do
    recipient ← required (bindings recipient_param) (to routes.user_address)
    asset ← required (bindings asset_param) (to routes.asset_code)
    amount ← required (bindings amount_param) as_u128
    fee ← required (bindings fee_param) as_u128
    sender ← optional (bindings sender_param) (to routes.user_address)
    ok (record {
      recipient = recipient;
      asset = asset;
      amount = amount;
      fee = fee;
      sender = sender;
    })

  unfoldable pub send :
      RouteBindings → Option backend.Backend → Option backend.Backend × Call (Unit {0})
  send bindings s = with_wallet s (λ w. parsed w (send_request bindings) (λ r.
      let (v, answer) = routes.transfer r.sender r.asset ((r.recipient, r.amount) ∷ []) r.fee w in
      (v, as_call wallet_failed answer)))

  -- The body of the request is the definition; 60 seconds if no timeout is given.
  unfoldable pub waitforsponsor :
      AssetDefinition
      → RouteBindings
      → Option backend.Backend
      → Option backend.Backend × Call (Unit {0})
  waitforsponsor asset bindings s = with_wallet s (λ w.
      parsed w (optional (bindings timeout_param) as_u64) (λ time.
        let (v, answer) = routes.wait_for_sponsor asset.code (timeout_or time) w in
        (v, as_call wallet_failed answer)))
    where
      timeout_or : Option ℕ → ℕ
      timeout_or none = 60
      timeout_or (some time) = time

  module _ (lib : WalletLib backend) where
    unfoldable pub getaddress : Option backend.Backend → Call (List UserAddress)
    getaddress s = ok_or s missing_wallet >>= λ w. ok (map lib.address (lib.pub_keys w))

    -- The blinding factor is an argument.
    unfoldable pub buildwrap :
        RouteBindings → ℕ → CapLib → Option backend.Backend → Call RecordOpening
    buildwrap bindings blind cap_lib s = do
      w ← ok_or s missing_wallet
      destination ← required (bindings destination_param) (to routes.user_address)
      code ← required (bindings asset_param) (to routes.asset_code)
      definition ← unwrap (routes.asset code w)
      amount ← required (bindings amount_param) as_u128
      as_call other (build_wrap cap_lib backend lib definition destination amount blind w)

    module _ (cap_lib : CapLib) where
      -- The definition and the opening of the next two are the request's body.
      unfoldable pub submitsponsor :
          AssetDefinition
          → RouteBindings
          → Option backend.Backend
          → Option backend.Backend × Call AssetDefinition
      submitsponsor asset bindings s = with_wallet s (λ w.
          parsed w (required (bindings erc20_param) eth_address) (λ erc20_code.
            parsed w (required (bindings sponsor_param) eth_address) (λ sponsor.
              parsed w (ok_or (routes.asset asset.code w) wallet_failed) (λ info.
                let (v, answer) = submit_sponsor cap_lib backend lib erc20_code sponsor asset w in
                (v, (as_call wallet_failed answer >>= λ u. ok info))))))

      unfoldable pub submitwrap :
          RecordOpening
          → RouteBindings
          → Option backend.Backend
          → Option backend.Backend × Call (Unit {0})
      submitwrap ro bindings s = with_wallet s (λ w.
          parsed w (required (bindings eth_address_param) eth_address) (λ src.
            let (v, answer) = submit_wrap cap_lib backend lib src ro w in
            (v, as_call other answer)))

      unfoldable pub unwrap_tokens :
          RouteBindings → Option backend.Backend → Option backend.Backend × Call (Unit {0})
      unwrap_tokens bindings s = with_wallet s (λ w. parsed w (unwrap_request bindings) (λ r.
          let (v, answer) =
            Extension.burn cap_lib backend lib r.source r.eth_addr r.asset r.amount r.fee w in
          (v, as_call other answer)))
