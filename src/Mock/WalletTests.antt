-- ===== src/Mock/WalletTests.antt =====
-- A small wallet on the network of wallet/src/mocks.rs that sponsors, wraps and burns.
use cape.Base.{
  Bool, none≢some, ◌==◌, true, Option, Bool-cases, inl, inr, ℕ, zero, suc, ◌≡◌, refl, false, none,
  some, List, [], ◌∷◌, arith, ok, nat_eq, get_elem?, length, sym, ap, subst, ◌∙◌, list_eq,
}
use cape.Base.Map.{lookup}
use cape.Cap.{AssetDefinition, RecordOpening, TransferNote, Bytes, asset_definition_eq}
use cape.Model.Notes.{extract_burn_dst}
use cape.Model.Assets.{erc20_asset_description}
use cape.Blocks.{from_cape_transactions, into_cape_transactions, CapeBlock}
use cape.Wallet.Backend.{Call}
use cape.Wallet.Interface.{WalletLib, WalletBackend}
use cape.Wallet.Extension.{build_sponsor, submit_sponsor, submit_wrap, burn, burn_txn}
use cape.Wallet.Burning.{TransferLaws, burn-submitted}
use cape.Model.Types.{EthereumAddr, CapeModelTxn}
use cape.Api.Values.{literal, identifier, integer, as_string, as_u128, as_identifier}
use cape.Api.Routes.{RouteParam, RouteBindings, RouteLib, unwrap_request, unwrap_tokens}
use cape.Api.Unwrapping.{Asked, unwrap_tokens-burned}
use cape.Samples.{cap_tree, eqs_lib, keys}
use cape.Mock.Network.{MockCapeNetwork, empty_network}
use cape.Mock.Backend.{mock_backend}
use cape.Mock.Sponsoring.{sponsor-wrap}

abbrev network : MockCapeNetwork eqs_lib
network = empty_network eqs_lib keys []

abbrev backend : WalletBackend
backend = mock_backend eqs_lib (λ txn net. (net, ok tt))

abbrev opening : ℕ → ℕ → AssetDefinition → ℕ → RecordOpening
opening blind amount asset key = record {
  amount = amount;
  asset_def = asset;
  pub_key = key;
  freeze_flag = false;
  blind = blind;
}

abbrev outputs_of : ℕ → ℕ → ℕ → ℕ → List RecordOpening
outputs_of asset address amount fee =
    opening 1 fee (record { code = 0; policy_ref = 0 }) address
    ∷ opening 2 amount (record { code = asset; policy_ref = 0 }) address
    ∷ []

abbrev commitments_of : List RecordOpening → List ℕ
commitments_of [] = []
commitments_of (ro ∷ ros) = cap_tree.record_commitment ro ∷ commitments_of ros

commitments_of-get_elem? :
    (ros : List RecordOpening) (i : ℕ) (ro : RecordOpening)
    → get_elem? ros i ≡ some ro
    → get_elem? (commitments_of ros) i ≡ some (cap_tree.record_commitment ro)
commitments_of-get_elem? [] i ro h = cc
commitments_of-get_elem? (r ∷ ros) zero ro h = ground arith
commitments_of-get_elem? (r ∷ ros) (suc i) ro h = commitments_of-get_elem? ros i ro h

abbrev transfer_of : Bytes → List RecordOpening → TransferNote
transfer_of bound ros = record {
  inputs_nullifiers = 1 ∷ [];
  output_commitments = commitments_of ros;
  merkle_root = 0;
  valid_until = 9;
  extra_proof_bound_data = bound;
  proof = 0;
}

abbrev wallet : WalletLib backend
wallet = record {
  new_foreign = λ description. length description;
  new_definition = λ code policy. some (record { code = code; policy_ref = policy });
  new_opening = λ blind amount asset key freeze. opening blind amount asset key;
  address = λ key. key;
  pub_keys = λ net. 5 ∷ [];
  import_asset = λ asset net. (net, ok tt);
  build_transfer = λ account asset address amount fee bound net. (
    net,
    ok (
      transfer_of bound (outputs_of asset address amount fee),
      outputs_of asset address amount fee,
    ),
  );
}

abbrev asset : AssetDefinition
asset = record { code = 34; policy_ref = 3 }

sponsor-wrap_example :
    let first = submit_sponsor cap_tree backend wallet (7 ∷ []) (8 ∷ []) asset network in
    let second = submit_wrap cap_tree backend wallet (6 ∷ []) (opening 2 5 asset 9) first.0 in
    (first.1 ≡ ok tt)
    × (second.1 ≡ ok tt)
    × (second.0.contract.erc20_deposits ≡ 2005 ∷ [])
    × (lookup 2005 second.0.pending_erc20_deposits ≡ some (7 ∷ [], 6 ∷ [], opening 2 5 asset 9))
unfolding build_sponsor erc20_asset_description cape.Model.State.init
sponsor-wrap_example =
    sponsor-wrap eqs_lib (λ txn net. (net, ok tt)) wallet (7 ∷ []) (8 ∷ []) (6 ∷ []) 3 network asset
      (opening 2 5 asset 9) refl (λ c d h. (cc, cc)) refl tt refl

built-bound :
    (bound : Bytes) (ros outputs : List RecordOpening) (s t : MockCapeNetwork eqs_lib)
    (note : TransferNote)
    → Path
        (MockCapeNetwork eqs_lib × Call (TransferNote × List RecordOpening))
        (s, ok (transfer_of bound ros, ros))
        (t, ok (note, outputs))
    → (note.extra_proof_bound_data ≡ bound) × (note.output_commitments ≡ commitments_of outputs)
built-bound bound ros outputs s t note h =
    let (a, b) : (transfer_of bound ros ≡ note) × (ros ≡ outputs) = (cc, cc) in
    (
      sym (ap (λ n. n.extra_proof_bound_data) a),
      sym (ap (λ n. n.output_commitments) a) ∙ ap commitments_of b,
    )

transfer_laws : TransferLaws cap_tree backend wallet
transfer_laws = record {
  bound_law = λ account asset address amount fee bound s t note outputs h.
      (built-bound bound (outputs_of asset address amount fee) outputs s t note h).0;
  outputs_law = λ account asset address amount fee bound s t note outputs i ro h k.
      subst (λ cs. get_elem? cs i ≡ some (cap_tree.record_commitment ro))
        (sym (built-bound bound (outputs_of asset address amount fee) outputs s t note h).1)
        (commitments_of-get_elem? outputs i ro k);
}

abbrev recipient : List ℕ
recipient =
    1 ∷ 2 ∷ 3 ∷ 4 ∷ 5 ∷ 6 ∷ 7 ∷ 8 ∷ 9 ∷ 10 ∷ 11 ∷ 12 ∷ 13 ∷ 14 ∷ 15 ∷ 16 ∷ 17 ∷ 18 ∷ 19 ∷ 20 ∷ []

burn-submitted_example :
    (note : TransferNote) × (ro : RecordOpening) × (t : MockCapeNetwork eqs_lib) × (b : CapeBlock)
    × (burn cap_tree backend wallet none recipient 47 5 1 network
        ≡ backend.submit (burn_txn cap_tree backend wallet note ro) t)
    × (ro.asset_def.code ≡ 47)
    × (ro.amount ≡ 5)
    × (extract_burn_dst note ≡ some (some recipient))
    × (from_cape_transactions cap_tree (CapeModelTxn.burn note ro ∷ []) 4 ≡ ok b)
    × (into_cape_transactions b ≡ ok (CapeModelTxn.burn note ro ∷ [], 4))
unfolding burn
burn-submitted_example =
    burn-submitted cap_tree backend wallet transfer_laws none recipient 47 5 1 network 4 refl refl

-- 20 bytes are an address, whatever they are.
abbrev twenty : Bool → Bytes → Option EthereumAddr
twenty true text = some text
twenty false text = none

abbrev routes : RouteLib backend
routes = record {
  encodings = record {
    parse_tagged = λ s. none;
    to_tagged_string = λ t. t.value;
    decode_base64 = λ s. none;
    is_utf8 = λ s. true;
  };
  parse_address = λ text. twenty (length text == 20) text;
  user_address = λ i. get_elem? i.value 0;
  asset_code = λ i. get_elem? i.value 0;
  asset = λ code net. none;
  mint = λ minter fee asset amount recipient net. (net, ok tt);
  transfer = λ sender asset receivers fee net. (net, ok tt);
  wait_for_sponsor = λ asset time net. (net, ok tt);
}

some-eq : (x y : Bytes) → Path (Option Bytes) (some x) (some y) → x ≡ y
some-eq x y h = cc

address_size :
    (text : Bytes) (dst : EthereumAddr) → routes.parse_address text ≡ some dst → length dst ≡ 20
address_size text dst h = elim (Bool-cases (length text == 20)) [
  | inl fits ↦
      let same : text ≡ dst = some-eq text dst (sym (ap (λ b. twenty b text) fits) ∙ h) in
      subst (λ d. length d ≡ 20) same (ground (arith, fits))
  | inr differs ↦ absurd (none≢some (sym (ap (λ b. twenty b text) differs) ∙ h))
]

abbrev unwrapping : RouteBindings
unwrapping RouteParam.eth_address_param = some (literal recipient)
unwrapping RouteParam.asset_param = some (identifier (record { tag = []; value = 47 ∷ [] }))
unwrapping RouteParam.amount_param = some (integer 5)
unwrapping RouteParam.fee_param = some (integer 1)
unwrapping _ = none

unwrap_tokens-burned_example :
    (dst : EthereumAddr) × (note : TransferNote) × (ro : RecordOpening) × (t : MockCapeNetwork
      eqs_lib)
    × (b : CapeBlock) × Asked backend routes unwrapping dst ro.asset_def.code ro.amount
    × ((unwrap_tokens backend routes wallet cap_tree unwrapping (some network)).0
        ≡ some (backend.submit (burn_txn cap_tree backend wallet note ro) t).0)
    × ((backend.submit (burn_txn cap_tree backend wallet note ro) t).1 ≡ ok tt)
    × (extract_burn_dst note ≡ some (some dst))
    × (from_cape_transactions cap_tree (CapeModelTxn.burn note ro ∷ []) 4 ≡ ok b)
    × (into_cape_transactions b ≡ ok (CapeModelTxn.burn note ro ∷ [], 4))
unfolding unwrap_tokens unwrap_request burn as_string as_u128 as_identifier
unwrap_tokens-burned_example =
    unwrap_tokens-burned cap_tree backend wallet transfer_laws routes address_size unwrapping
      (some network) 4 refl
