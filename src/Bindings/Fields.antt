-- ===== src/Bindings/Fields.antt =====
-- Words, points, policies, definitions and openings of contracts/rust/src/types.rs. A conversion that
-- panics gives `none`.
use cape.Base.{
  ℕ, zero, suc, ◌-◌, Bool, Option, none, some, List, [], ◌∷◌, ◌++◌, ◌==◌, nat_eq, ltb, length, take,
  drop, if◌then◌else◌,
}
use cape.Bindings.Jf.{
  PrimeField, Canonical, Jf, AssetPolicy, AssetDefinition, Assets, RecordOpening,
}
use cape.Bindings.Sol.{SolPoint, SolAssetPolicy, SolAssetDefinition, SolRecordOpening}

infixr 5 ◌>>?◌
-- What follows a conversion that may panic.
abbrev pub ◌>>?◌ : {A B : Type 0} → Option A → (A → Option B) → Option B
none >>? f = none
some a >>? f = f a

-- A conversion of every entry; one panic is a panic of the whole.
unfoldable pub convert_all : {A B : Type 0} → (A → Option B) → List A → Option (List B)
convert_all convert [] = some []
convert_all convert (a ∷ rest) = convert a >>? λ b. convert_all convert rest >>? λ bs. some (b ∷ bs)

module _ (jf : Jf) where
  unfoldable pub field_to_u256 : (field : PrimeField) → field.Elem → ℕ
  field_to_u256 field f = jf.from_little_endian (field.to_bytes f)

  unfoldable pub u256_to_field : (field : PrimeField) → ℕ → field.Elem
  u256_to_field field v = field.from_le_bytes_mod_order (jf.to_little_endian v)

  -- `jf_conversion_for_u256_new_type`
  unfoldable pub u256_of : (type : Canonical) → type.Elem → ℕ
  u256_of type v = jf.from_little_endian (type.serialize v)

  unfoldable pub of_u256 : (type : Canonical) → ℕ → Option type.Elem
  of_u256 type v_sol = type.deserialize (jf.to_little_endian v_sol)

  -- `jf_conversion_for_ed_on_bn254_new_type`
  unfoldable pub point_of : (type : Canonical) → type.Elem → SolPoint
  point_of type pk =
      let bytes = type.serialize pk in
      record {
        x = jf.from_little_endian (take 32 bytes);
        y = jf.from_little_endian (drop 32 bytes);
      }

  unfoldable pub of_point : (type : Canonical) → SolPoint → Option type.Elem
  of_point type p =
      let bytes =
        jf.fr.serialize (u256_to_field jf.fr p.x) ++ jf.fr.serialize (u256_to_field jf.fr p.y) in
      if length bytes == 64 then type.deserialize bytes else none

  unfoldable pub policy_to_sol : AssetPolicy jf → SolAssetPolicy
  policy_to_sol policy = record {
    auditor_pk = point_of jf.auditor_pub_key policy.auditor_pk;
    cred_pk = point_of jf.cred_issuer_pub_key policy.cred_pk;
    freezer_pk = point_of jf.freezer_pub_key policy.freezer_pk;
    reveal_map = field_to_u256 jf.fr (jf.reveal_field policy.reveal_map);
    reveal_threshold = policy.reveal_threshold;
  }

  -- The bits of a word of 13 bits from the i-th on, the highest first.
  unfoldable pub reveal_bits : ℕ → ℕ → ℕ → List Bool
  reveal_bits map_sol i zero = []
  reveal_bits map_sol i (suc left) = jf.bit map_sol (12 - i) ∷ reveal_bits map_sol (suc i) left

  -- A map of more than 13 bits is a panic.
  unfoldable pub reveal_map_of : ℕ → Option jf.RevealMap
  reveal_map_of map_sol =
      if ltb map_sol 8192 then some (jf.new_reveal_map (reveal_bits map_sol 0 13)) else none

  unfoldable pub policy_from_sol : SolAssetPolicy → Option (AssetPolicy jf)
  policy_from_sol policy_sol = of_point jf.auditor_pub_key policy_sol.auditor_pk >>? λ auditor.
      of_point jf.cred_issuer_pub_key policy_sol.cred_pk >>? λ cred.
      of_point jf.freezer_pub_key policy_sol.freezer_pk >>? λ freezer.
      reveal_map_of policy_sol.reveal_map >>? λ reveal. some (record {
        auditor_pk = auditor;
        cred_pk = cred;
        freezer_pk = freezer;
        reveal_map = reveal;
        reveal_threshold = policy_sol.reveal_threshold;
      })

  unfoldable pub definition_to_sol : AssetDefinition jf → SolAssetDefinition
  definition_to_sol def = record {
    code = u256_of jf.asset_code def.code;
    policy = policy_to_sol def.policy;
  }

  unfoldable pub opening_to_sol : RecordOpening jf → SolRecordOpening
  opening_to_sol ro = record {
    amount = ro.amount;
    asset_def = definition_to_sol ro.asset_def;
    user_addr = point_of jf.ver_key ro.pub_key.address;
    enc_key = jf.enc_key_bytes ro.pub_key.enc_key;
    freeze_flag = ro.frozen;
    blind = u256_of jf.blind_factor ro.blind;
  }

  module _ (assets : Assets jf) where
    -- The policy is read only for a code that is not the native one.
    unfoldable pub definition_from_sol : SolAssetDefinition → Option (AssetDefinition jf)
    definition_from_sol def_sol = of_u256 jf.asset_code def_sol.code >>? λ code.
        if assets.is_native code
        then some assets.native
        else (policy_from_sol def_sol.policy >>? λ policy. assets.new code policy)

    unfoldable pub opening_from_sol : SolRecordOpening → Option (RecordOpening jf)
    opening_from_sol ro_sol = definition_from_sol ro_sol.asset_def >>? λ asset_def.
        of_point jf.ver_key ro_sol.user_addr >>? λ address.
        jf.enc_key_of ro_sol.enc_key >>? λ enc_key.
        of_u256 jf.blind_factor ro_sol.blind >>? λ blind. some (record {
          amount = ro_sol.amount;
          asset_def = asset_def;
          pub_key = record { address = address; enc_key = enc_key };
          frozen = ro_sol.freeze_flag;
          blind = blind;
        })
