-- ===== src/Api/Assets.antt =====
-- The routes of wallet/src/wallet-api/routes.rs that define assets, make keys and add balances up.
use cape.Base.{
  ℕ, ◌+◌, Bool, true, false, Option, none, some, List, [], ◌∷◌, ok, err, panic, unwrap, ok_or,
  ◌>>=◌, ◌==◌, nat_eq, list_eq, if◌then◌else◌,
}
use cape.Base.Map.{Map, lookup, insert}
use cape.Cap.{AssetDefinition, Bytes, CapLib}
use cape.AddressBook.Files.{UserAddress, UserPubKey}
use cape.Wallet.Interface.{WalletBackend, WalletLib}
use cape.Wallet.Extension.{build_sponsor}
use cape.Api.Values.{
  missing_wallet, param, other, Call, TaggedBase64, UrlSegmentValue, as_string, as_boolean, as_u128,
  as_base64,
}
use cape.Api.Routes.{RouteLib, as_call, with_wallet, parsed, to, required, optional, eth_address}

pub data AssetParam : Type 0 where
  symbol_param description_param freezing_key_param viewing_key_param view_amount_param : AssetParam
  view_address_param viewing_threshold_param erc20_code_param sponsor_addr_param : AssetParam

abbrev pub AssetBindings : Type 0
AssetBindings = AssetParam → Option UrlSegmentValue

-- `AssetPolicy` of jf_cap, by its builder's calls; `none` is an error. A policy is a number, as in the
-- other parts.
pub record PolicyLib : Type 0 where
  pub default_policy : ℕ
  pub freezer_pub_key : TaggedBase64 → Option ℕ
  pub auditor_pub_key : TaggedBase64 → Option ℕ
  pub set_freezer_pub_key : ℕ → ℕ → ℕ
  pub set_auditor_pub_key : ℕ → ℕ → ℕ
  pub reveal_blinding_factor : ℕ → Option ℕ
  pub reveal_amount : ℕ → Option ℕ
  pub reveal_user_address : ℕ → Option ℕ
  pub set_reveal_threshold : ℕ → ℕ → ℕ

-- Which key a route names, in its first part.
pub data KeyType : Type 0 where
  sending_key viewing_key freezing_key : KeyType

-- "send", "sending", "view", "viewing", "freeze", "freezing"
unfoldable pub key_type : Bytes → Call KeyType
key_type name =
    if name == (115 ∷ 101 ∷ 110 ∷ 100 ∷ [])
    then ok sending_key
    else if name == (115 ∷ 101 ∷ 110 ∷ 100 ∷ 105 ∷ 110 ∷ 103 ∷ [])
    then ok sending_key
    else if name == (118 ∷ 105 ∷ 101 ∷ 119 ∷ [])
    then ok viewing_key
    else if name == (118 ∷ 105 ∷ 101 ∷ 119 ∷ 105 ∷ 110 ∷ 103 ∷ [])
    then ok viewing_key
    else if name == (102 ∷ 114 ∷ 101 ∷ 101 ∷ 122 ∷ 101 ∷ [])
    then ok freezing_key
    else if name == (102 ∷ 114 ∷ 101 ∷ 101 ∷ 122 ∷ 105 ∷ 110 ∷ 103 ∷ [])
    then ok freezing_key
    else err param

-- The balances of an account by their assets, and of the accounts by their addresses.
abbrev pub Balances : Type 0
Balances = Map ℕ ℕ

abbrev or_default : Option ℕ → ℕ
or_default none = 0
or_default (some balance) = balance

-- Sums are taken to stay below 2^256, where the source's would panic.
-- `*aggregate.entry(asset).or_default() += balance`
unfoldable pub add_balance : ℕ → ℕ → Balances → Balances
add_balance asset balance aggregate =
    insert asset (or_default (lookup asset aggregate) + balance) aggregate

unfoldable pub add_balances : Balances → Balances → Balances
add_balances [] aggregate = aggregate
add_balances ((asset, balance) ∷ rest) aggregate =
    add_balances rest (add_balance asset balance aggregate)

unfoldable pub aggregate_all : Map UserAddress Balances → Balances → Balances
aggregate_all [] aggregate = aggregate
aggregate_all ((address, balances) ∷ rest) aggregate =
    aggregate_all rest (add_balances balances aggregate)

pub data BalanceInfo : Type 0 where
  one : ℕ → BalanceInfo
  account : Balances → BalanceInfo
  all_accounts : Map UserAddress Balances → Balances → BalanceInfo

module _ (policies : PolicyLib) (backend : WalletBackend) (routes : RouteLib backend) where
  abbrev flag : Option UrlSegmentValue → Call Bool
  flag none = ok false
  flag (some value) = as_boolean value

  -- A builder's call that is made if a flag is set.
  abbrev if_set : Bool → (ℕ → Option ℕ) → ℕ → Call ℕ
  if_set true build policy = ok_or (build policy) other
  if_set false build policy = ok policy

  abbrev threshold : Option ℕ → ℕ → ℕ
  threshold none policy = policy
  threshold (some t) policy = policies.set_reveal_threshold policy t

  -- What is revealed to a viewing key, the blinding factor always.
  unfoldable pub viewing_policy : AssetBindings → UrlSegmentValue → ℕ → Call ℕ
  viewing_policy bindings key policy = do
    auditor ← to backend routes policies.auditor_pub_key key
    revealing ←
        ok_or (policies.reveal_blinding_factor (policies.set_auditor_pub_key policy auditor)) other
    view_amount ← flag (bindings view_amount_param)
    with_amount ← if_set view_amount policies.reveal_amount revealing
    view_address ← flag (bindings view_address_param)
    with_address ← if_set view_address policies.reveal_user_address with_amount
    t ← optional backend routes (bindings viewing_threshold_param) as_u128
    ok (threshold t with_address)

  abbrev freezing_policy : Option UrlSegmentValue → Call ℕ
  freezing_policy none = ok policies.default_policy
  freezing_policy (some key) = to backend routes policies.freezer_pub_key key >>= λ freezer.
      ok (policies.set_freezer_pub_key policies.default_policy freezer)

  abbrev with_viewing : Option UrlSegmentValue → AssetBindings → ℕ → Call ℕ
  with_viewing none bindings policy = ok policy
  with_viewing (some key) bindings policy = viewing_policy bindings key policy

  unfoldable pub asset_policy : AssetBindings → Call ℕ
  asset_policy bindings =
      freezing_policy (bindings freezing_key_param)
      >>= with_viewing (bindings viewing_key_param) bindings

  abbrev or_empty : Option Bytes → Bytes
  or_empty none = []
  or_empty (some s) = s

  -- `define_asset` of seahorse is a parameter, which gives the asset's code.
  unfoldable pub newasset :
      (Bytes → Bytes → ℕ → backend.Backend → backend.Backend × Call ℕ)
      → AssetBindings
      → Option backend.Backend
      → Option backend.Backend × Call AssetDefinition
  newasset define_asset bindings s = with_wallet s (λ w.
      parsed w (optional backend routes (bindings symbol_param) (as_string routes.encodings))
        (λ symbol. parsed w (asset_policy bindings) (λ policy.
          parsed w (optional backend routes (bindings description_param) as_base64) (λ description.
            let (v, code) = define_asset (or_empty symbol) (or_empty description) policy w in
            (v, (code >>= λ c. unwrap (routes.asset c v)))))))

  -- The asset that is to be sponsored, its symbol and its description; the route writes the last two
  -- into a string with it.
  unfoldable pub buildsponsor :
      CapLib
      → WalletLib backend
      → AssetBindings
      → Option backend.Backend
      → Call (AssetDefinition × (Bytes × Bytes))
  buildsponsor cap_lib lib bindings s = do
    w ← ok_or s missing_wallet
    symbol ← optional backend routes (bindings symbol_param) (as_string routes.encodings)
    description ← optional backend routes (bindings description_param) (as_string routes.encodings)
    policy ← asset_policy bindings
    erc20_code ← required backend routes (bindings erc20_code_param) (eth_address backend routes)
    sponsor ← required backend routes (bindings sponsor_addr_param) (eth_address backend routes)
    asset ← as_call other (build_sponsor cap_lib backend lib erc20_code sponsor policy w)
    ok (asset, (or_empty symbol, or_empty description))

  -- A key of the type that the route names, with the description; seahorse makes it.
  unfoldable pub newkey :
      (KeyType → Bytes → backend.Backend → backend.Backend × Call ℕ)
      → Bytes
      → AssetBindings
      → Option backend.Backend
      → Option backend.Backend × Call ℕ
  newkey generate_key name bindings s = with_wallet s (λ w.
      parsed w (optional backend routes (bindings description_param) (as_string routes.encodings))
        (λ description.
          parsed w (key_type name) (λ type. generate_key type (or_empty description) w)))

  module _ (lib : WalletLib backend) (assets : backend.Backend → List ℕ)
      (balance_breakdown : UserAddress → ℕ → backend.Backend → ℕ) where
    abbrev collect : UserAddress → List ℕ → backend.Backend → Balances
    collect address [] w = []
    collect address (code ∷ codes) w =
        insert code (balance_breakdown address code w) (collect address codes w)

    unfoldable pub account_balances : UserAddress → backend.Backend → Balances
    account_balances address w = collect address (assets w) w

    abbrev collect_accounts : List UserPubKey → backend.Backend → Map UserAddress Balances
    collect_accounts [] w = []
    collect_accounts (key ∷ keys) w =
        insert (lib.address key) (account_balances (lib.address key) w) (collect_accounts keys w)

    unfoldable pub all_balances : backend.Backend → Map UserAddress Balances
    all_balances w = collect_accounts (lib.pub_keys w) w

    abbrev balances_of : Option UserAddress → Option ℕ → backend.Backend → Call BalanceInfo
    balances_of (some address) (some asset) w = ok (one (balance_breakdown address asset w))
    balances_of (some address) none w = ok (account (account_balances address w))
    balances_of none none w =
        let by_account = all_balances w in
        ok (all_accounts by_account (aggregate_all by_account []))
    balances_of none (some asset) w = panic

    -- The values of `:address` and `:asset`
    unfoldable pub getbalance :
        Option UrlSegmentValue → Option UrlSegmentValue → Option backend.Backend → Call BalanceInfo
    getbalance address_value asset_value s = do
      w ← ok_or s missing_wallet
      address ← optional backend routes address_value (to backend routes routes.user_address)
      asset ← optional backend routes asset_value (to backend routes routes.asset_code)
      balances_of address asset w
