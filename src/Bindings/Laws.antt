-- ===== src/Bindings/Laws.antt =====
-- What is relied on of ethers' words, of arkworks and of jf_cap in the conversions of
-- contracts/rust/src/types.rs.
use cape.Base.{
  ℕ, ◌-◌, ◌<◌, ◌≡◌, ◌⊎◌, ◌&&◌, Bool, true, false, some, List, ◌∷◌, ◌++◌, ◌==◌, nat_eq, ltb, length,
  take, get_elem?, All,
}
use cape.Cap.{Bytes}
use cape.Bindings.Jf.{PrimeField, Canonical, Jf, AssetDefinition, Assets}
use cape.Bindings.Sol.{G1Point}
use cape.Bindings.Fields.{field_to_u256}
use cape.Bindings.Plonk.{g1_points}

-- 32 bytes.
abbrev pub IsWord : Bytes → Type 0
IsWord bytes = (length bytes ≡ 32) × All (λ b. b < 256) bytes

pub record FieldLaws (field : PrimeField) : Type 0 where
  pub bytes_word : (f : field.Elem) → IsWord (field.to_bytes f)
  pub bytes_read : (f : field.Elem) → field.from_le_bytes_mod_order (field.to_bytes f) ≡ f
  pub serialize_word : (f : field.Elem) → IsWord (field.serialize f)
  pub serialize_read : (f : field.Elem) → field.from_le_bytes_mod_order (field.serialize f) ≡ f

-- A value is read back from what it is written as.
pub record CanonicalLaws (type : Canonical) (Written : Bytes → Type 0) : Type 0 where
  pub written : (v : type.Elem) → Written (type.serialize v)
  pub read : (v : type.Elem) → type.deserialize (type.serialize v) ≡ some v

-- The coordinates, one after the other.
abbrev pub IsPoint : (field : PrimeField) → Bytes → Type 0
IsPoint field bytes =
    (x : field.Elem) × (y : field.Elem) × (bytes ≡ field.serialize x ++ field.serialize y)

abbrev pub Finite : G1Point → Type 0
Finite p = ((p.x == 0) && (p.y == 0)) ≡ false

pub record BindingLaws (jf : Jf) : Type 0 where
  pub word_law :
      (bytes : Bytes) → IsWord bytes → jf.to_little_endian (jf.from_little_endian bytes) ≡ bytes
  pub fr_laws : FieldLaws jf.fr
  pub fq_laws : FieldLaws jf.fq
  pub nullifier_laws : CanonicalLaws jf.nullifier IsWord
  pub record_commitment_laws : CanonicalLaws jf.record_commitment IsWord
  pub node_value_laws : CanonicalLaws jf.node_value IsWord
  pub asset_code_laws : CanonicalLaws jf.asset_code IsWord
  pub internal_asset_code_laws : CanonicalLaws jf.internal_asset_code IsWord
  pub blind_factor_laws : CanonicalLaws jf.blind_factor IsWord
  pub auditor_laws : CanonicalLaws jf.auditor_pub_key (IsPoint jf.fr)
  pub cred_laws : CanonicalLaws jf.cred_issuer_pub_key (IsPoint jf.fr)
  pub freezer_laws : CanonicalLaws jf.freezer_pub_key (IsPoint jf.fr)
  pub ver_key_laws : CanonicalLaws jf.ver_key (IsPoint jf.fr)
  pub enc_key_law : (key : jf.EncKey) → jf.enc_key_of (jf.enc_key_bytes key) ≡ some key
  -- a map is made of 13 bits, which are those of its field element, the first the highest
  pub map_law :
      (m : jf.RevealMap)
      → (bits : List Bool) × (length bits ≡ 13)
        × (m ≡ jf.new_reveal_map bits)
        × (ltb (field_to_u256 jf jf.fr (jf.reveal_field m)) 8192 ≡ true)
        × ((i : ℕ) (b : Bool)
            → get_elem? bits i ≡ some b
            → jf.bit (field_to_u256 jf jf.fr (jf.reveal_field m)) (12 - i) ≡ b)
  -- an ephemeral key is two scalars of a ciphertext
  pub scalars_law :
      (c : jf.Ciphertext)
      → (x : jf.fr.Elem) × (y : jf.fr.Elem) × (rest : List jf.fr.Elem) × (jf.to_scalars c
          ≡ x ∷ y ∷ rest)
  pub ciphertext_law : (c : jf.Ciphertext) → jf.from_scalars (jf.to_scalars c) ≡ some c
  -- a proof is 36 field elements; (0, 0) is no point of the curve
  pub length_law : (p : jf.Proof) → length (jf.proof_fields p) ≡ 36
  pub curve_law : (p : jf.Proof) → All Finite (g1_points jf (take 26 (jf.proof_fields p)))
  pub proof_law : (p : jf.Proof) → jf.proof_of (jf.proof_fields p) ≡ some p

-- A definition that `native` or `new` has made.
abbrev pub Made : (jf : Jf) → Assets jf → AssetDefinition jf → Type 0
Made jf assets def =
    ((assets.is_native def.code ≡ true) × (def ≡ assets.native))
    ⊎ ((assets.is_native def.code ≡ false) × (assets.new def.code def.policy ≡ some def))
