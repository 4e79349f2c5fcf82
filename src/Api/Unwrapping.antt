-- ===== src/Api/Unwrapping.antt =====
-- The unwrap route of wallet/src/wallet-api/routes.rs down to the contract.
use cape.Base.{
  ℕ, ◌≡◌, refl, sym, ap, subst, ◌∙◌, Option, none, some, [], ◌∷◌, length, ok, err, panic, unwrap,
  ok_or, >>=-eq-ok,
}
use cape.Cap.{RecordOpening, TransferNote, Bytes, CapLib}
use cape.Model.Types.{EthereumAddr, CapeModelTxn}
use cape.Model.Notes.{extract_burn_dst}
use cape.AddressBook.Files.{UserAddress}
use cape.Blocks.{CapeBlock, from_cape_transactions, into_cape_transactions}
use cape.Wallet.Backend
use cape.Wallet.Interface.{WalletBackend, WalletLib}
use cape.Wallet.Extension
use cape.Wallet.Extension.{burn_txn}
use cape.Wallet.Burning.{TransferLaws, burn-submitted}
use cape.Api.Values.{
  CapeApiError, other, deserialize_failed, Call, TaggedBase64, UrlSegmentValue, boolean,
  hexadecimal, integer, identifier, base64, unparsed, parse_failed, literal, as_string,
  as_identifier, as_u128,
}
use cape.Api.Routes.{
  source_param, eth_address_param, asset_param, amount_param, fee_param, RouteBindings, RouteLib,
  as_call, with_wallet, parsed, to, required, optional, eth_address, UnwrapRequest, unwrap_request,
  unwrap_tokens,
}

module _ {W : Type 0} where
  with_wallet-ok :
      {A : Type 0} (s : Option W) (next : W → W × Call A) (a : A)
      → (with_wallet s next).1 ≡ ok a
      → (w : W) × (s ≡ some w)
        × ((next w).1 ≡ ok a)
        × (with_wallet s next ≡ (some (next w).0, (next w).1))
  with_wallet-ok none next a h = cc
  with_wallet-ok (some w) next a h = (w, refl, h, refl)

  parsed-ok :
      {A B : Type 0} (w : W) (call : Call A) (next : A → W × Call B) (b : B)
      → (parsed w call next).1 ≡ ok b
      → (a : A) × (call ≡ ok a) × (parsed w call next ≡ next a)
  parsed-ok w (ok a) next b h = (a, refl, refl)
  parsed-ok w (err e) next b h = cc
  parsed-ok w panic next b h = cc

as_call-ok :
    {A : Type 0} (e : CapeApiError) (call : Backend.Call A) (a : A)
    → as_call e call ≡ ok a
    → call ≡ ok a
as_call-ok e (ok b) a h = cc
as_call-ok e (err x) a h = cc
as_call-ok e panic a h = cc

ok-eq : {A : Type 0} (a b : A) → Path (Call A) (ok a) (ok b) → a ≡ b
ok-eq a b h = cc

ok_or-ok :
    {A : Type 0} (value : Option A) (e : CapeApiError) (a : A)
    → ok_or value e ≡ ok a
    → value ≡ some a
ok_or-ok none e a h = cc
ok_or-ok (some b) e a h = cc

unwrap-ok :
    {A : Type 0} (value : Option A) (a : A)
    → unwrap {E = CapeApiError} value ≡ ok a
    → value ≡ some a
unwrap-ok none a h = cc
unwrap-ok (some b) a h = cc

as_identifier-ok :
    (v : UrlSegmentValue) (i : TaggedBase64) → as_identifier v ≡ ok i → v ≡ identifier i
unfolding as_identifier
as_identifier-ok (boolean b) i h = cc
as_identifier-ok (hexadecimal x) i h = cc
as_identifier-ok (integer x) i h = cc
as_identifier-ok (identifier x) i h = cc
as_identifier-ok (base64 x) i h = cc
as_identifier-ok (unparsed x) i h = cc
as_identifier-ok (parse_failed x y) i h = cc
as_identifier-ok (literal x) i h = cc

as_u128-ok : (v : UrlSegmentValue) (n : ℕ) → as_u128 v ≡ ok n → v ≡ integer n
unfolding as_u128
as_u128-ok (boolean b) n h = cc
as_u128-ok (hexadecimal x) n h = cc
as_u128-ok (integer x) n h = cc
as_u128-ok (identifier x) n h = cc
as_u128-ok (base64 x) n h = cc
as_u128-ok (unparsed x) n h = cc
as_u128-ok (parse_failed x y) n h = cc
as_u128-ok (literal x) n h = cc

-- The address, the asset and the amount that the parameters give.
abbrev pub Asked :
    (backend : WalletBackend) → RouteLib backend → RouteBindings → EthereumAddr → ℕ → ℕ → Type 0
Asked backend routes bindings dst asset amount =
    (value : UrlSegmentValue) × (text : Bytes) × (i : TaggedBase64) × (bindings eth_address_param
      ≡ some value)
    × (as_string routes.encodings value ≡ ok text)
    × (routes.parse_address text ≡ some dst)
    × (bindings asset_param ≡ some (identifier i))
    × (routes.asset_code i ≡ some asset)
    × (bindings amount_param ≡ some (integer amount))

module _ (cap_lib : CapLib) (backend : WalletBackend) (lib : WalletLib backend)
    (laws : TransferLaws cap_lib backend lib) (routes : RouteLib backend)
    (address_size : (text : Bytes) (dst : EthereumAddr)
      → routes.parse_address text ≡ some dst
      → length dst ≡ 20) where
  unwrap_request-Asked :
      (bindings : RouteBindings) (r : UnwrapRequest backend routes)
      → unwrap_request backend routes bindings ≡ ok r
      → Asked backend routes bindings r.eth_addr r.asset r.amount
  unfolding unwrap_request
  unwrap_request-Asked bindings r h =
      let (source, _, after_source) =
        >>=-eq-ok
          (optional backend routes (bindings source_param) (to backend routes routes.user_address))
          _ h in
      let (dst, read, after_address) =
        >>=-eq-ok
          (required backend routes (bindings eth_address_param) (eth_address backend routes)) _
          after_source in
      let (value, at_address, read_value) =
        >>=-eq-ok (unwrap {E = CapeApiError} (bindings eth_address_param)) _ read in
      let (text, as_text, read_text) = >>=-eq-ok (as_string routes.encodings value) _ read_value in
      let (asset, read_asset, after_asset) =
        >>=-eq-ok
          (required backend routes (bindings asset_param) (to backend routes routes.asset_code)) _
          after_address in
      let (asset_value, at_asset, as_asset) =
        >>=-eq-ok (unwrap {E = CapeApiError} (bindings asset_param)) _ read_asset in
      let (i, tagged, read_code) = >>=-eq-ok (as_identifier asset_value) _ as_asset in
      let (amount, read_amount, after_amount) =
        >>=-eq-ok (required backend routes (bindings amount_param) as_u128) _ after_asset in
      let (amount_value, at_amount, as_amount) =
        >>=-eq-ok (unwrap {E = CapeApiError} (bindings amount_param)) _ read_amount in
      let (fee, _, made) =
        >>=-eq-ok (required backend routes (bindings fee_param) as_u128) _ after_amount in
      subst (λ x. Asked backend routes bindings x.eth_addr x.asset x.amount)
        (ok-eq
          (record { source = source; eth_addr = dst; asset = asset; amount = amount; fee = fee }) r
          made)
        (
          value,
          text,
          i,
          unwrap-ok (bindings eth_address_param) value at_address,
          as_text,
          ok_or-ok (routes.parse_address text) other dst read_text,
          unwrap-ok (bindings asset_param) asset_value at_asset
              ∙ ap some (as_identifier-ok asset_value i tagged),
          ok_or-ok (routes.asset_code i) deserialize_failed asset read_code,
          unwrap-ok (bindings amount_param) amount_value at_amount
              ∙ ap some (as_u128-ok amount_value amount as_amount),
        )

  -- An unwrapping that is answered with success.
  pub unwrap_tokens-burned :
      (bindings : RouteBindings) (s : Option backend.Backend) (miner : UserAddress)
      → (unwrap_tokens backend routes lib cap_lib bindings s).1 ≡ ok tt
      → (dst : EthereumAddr) × (note : TransferNote) × (ro : RecordOpening) × (t : backend.Backend)
        × (b : CapeBlock) × Asked backend routes bindings dst ro.asset_def.code ro.amount
        × ((unwrap_tokens backend routes lib cap_lib bindings s).0
            ≡ some (backend.submit (burn_txn cap_lib backend lib note ro) t).0)
        × ((backend.submit (burn_txn cap_lib backend lib note ro) t).1 ≡ ok tt)
        × (extract_burn_dst note ≡ some (some dst))
        × (from_cape_transactions cap_lib (CapeModelTxn.burn note ro ∷ []) miner ≡ ok b)
        × (into_cape_transactions b ≡ ok (CapeModelTxn.burn note ro ∷ [], miner))
  unfolding unwrap_tokens
  unwrap_tokens-burned bindings s miner done =
      let (w, opened, inside, e1) = with_wallet-ok s (with_open bindings) tt done in
      let (r, asked, e2) =
        parsed-ok w (unwrap_request backend routes bindings) (burned w) tt inside in
      let answered = as_call-ok other (burning w r).1 tt (sym (ap (λ x. x.1) e2) ∙ inside) in
      let read_params = unwrap_request-Asked bindings r asked in
      let size = address_size read_params.1 r.eth_addr read_params.5 in
      let (note, ro, t, b, submitted, code, same_amount, dst, made, read) =
        burn-submitted cap_lib backend lib laws r.source r.eth_addr r.asset r.amount r.fee w miner
          size answered in
      (
        r.eth_addr,
        note,
        ro,
        t,
        b,
        subst (λ a. Asked backend routes bindings r.eth_addr a ro.amount) (sym code)
            (subst (λ n. Asked backend routes bindings r.eth_addr r.asset n) (sym same_amount)
              read_params),
        ap (λ x. x.0) e1 ∙ ap (λ x. some x.0) e2 ∙ ap (λ x. some x.0) submitted,
        sym (ap (λ x. x.1) submitted) ∙ answered,
        dst,
        made,
        read,
      )
    where
      burning :
          backend.Backend → UnwrapRequest backend routes → backend.Backend × Backend.Call (Unit {0})
      burning w r = Extension.burn cap_lib backend lib r.source r.eth_addr r.asset r.amount r.fee w

      burned : backend.Backend → UnwrapRequest backend routes → backend.Backend × Call (Unit {0})
      burned w r = ((burning w r).0, as_call other (burning w r).1)

      with_open : RouteBindings → backend.Backend → backend.Backend × Call (Unit {0})
      with_open bindings w = parsed w (unwrap_request backend routes bindings) (burned w)
