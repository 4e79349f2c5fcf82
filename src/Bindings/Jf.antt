-- ===== src/Bindings/Jf.antt =====
-- The types of jf_cap and of arkworks that contracts/rust/src/types.rs converts, with every field that
-- it reads, and what it calls of them and of the 256-bit words of ethers.
use cape.Base.{ℕ, Bool, Option, List}
use cape.Cap.{Bytes}

-- A field: `to_bytes!`, `serialize` and `from_le_bytes_mod_order`.
pub record PrimeField : Type 1 where
  pub Elem : Type 0
  pub to_bytes : Elem → Bytes
  pub serialize : Elem → Bytes
  pub from_le_bytes_mod_order : Bytes → Elem

-- A type with `CanonicalSerialize` and `CanonicalDeserialize`; `none` is an error.
pub record Canonical : Type 1 where
  pub Elem : Type 0
  pub serialize : Elem → Bytes
  pub deserialize : Bytes → Option Elem

pub record Jf : Type 1 where
  -- `U256`; a word is its number
  pub from_little_endian : Bytes → ℕ
  pub to_little_endian : ℕ → Bytes
  pub bit : ℕ → ℕ → Bool
  -- the scalars and the coordinates of BN254; x and y of `G1Affine::zero()`
  pub fr : PrimeField
  pub fq : PrimeField
  pub zero_x : fq.Elem
  pub zero_y : fq.Elem
  -- what is written as one word
  pub nullifier : Canonical
  pub record_commitment : Canonical
  pub node_value : Canonical
  pub asset_code : Canonical
  pub internal_asset_code : Canonical
  pub blind_factor : Canonical
  -- points, uncompressed
  pub auditor_pub_key : Canonical
  pub cred_issuer_pub_key : Canonical
  pub freezer_pub_key : Canonical
  pub ver_key : Canonical
  -- the encryption key in 32 bytes; `none` is a panic
  pub EncKey : Type 0
  pub enc_key_bytes : EncKey → Bytes
  pub enc_key_of : Bytes → Option EncKey
  -- `BaseField::from(map)` and `RevealMap::new`
  pub RevealMap : Type 0
  pub reveal_field : RevealMap → fr.Elem
  pub new_reveal_map : List Bool → RevealMap
  -- `elgamal::Ciphertext`, and `Proof` with its `into` and `try_into`
  pub Ciphertext : Type 0
  pub to_scalars : Ciphertext → List fr.Elem
  pub from_scalars : List fr.Elem → Option Ciphertext
  pub Proof : Type 0
  pub proof_fields : Proof → List fq.Elem
  pub proof_of : List fq.Elem → Option Proof

pub record AssetPolicy (jf : Jf) : Type 0 where
  pub auditor_pk : jf.auditor_pub_key.Elem
  pub cred_pk : jf.cred_issuer_pub_key.Elem
  pub freezer_pk : jf.freezer_pub_key.Elem
  pub reveal_map : jf.RevealMap
  pub reveal_threshold : ℕ

pub record AssetDefinition (jf : Jf) : Type 0 where
  pub code : jf.asset_code.Elem
  pub policy : AssetPolicy jf

-- `AssetCode::native()` as a test, `AssetDefinition::native` and `AssetDefinition::new`.
pub record Assets (jf : Jf) : Type 0 where
  pub is_native : jf.asset_code.Elem → Bool
  pub native : AssetDefinition jf
  pub new : jf.asset_code.Elem → AssetPolicy jf → Option (AssetDefinition jf)

pub record UserPubKey (jf : Jf) : Type 0 where
  pub address : jf.ver_key.Elem
  pub enc_key : jf.EncKey

pub record RecordOpening (jf : Jf) : Type 0 where
  pub amount : ℕ
  pub asset_def : AssetDefinition jf
  pub pub_key : UserPubKey jf
  -- whether it is `FreezeFlag::Frozen`
  pub frozen : Bool
  pub blind : jf.blind_factor.Elem

pub record TransferAux (jf : Jf) : Type 0 where
  pub merkle_root : jf.node_value.Elem
  pub fee : ℕ
  pub valid_until : ℕ
  pub txn_memo_ver_key : jf.ver_key.Elem
  pub extra_proof_bound_data : Bytes

-- `MintAuxInfo` and `FreezeAuxInfo`, of the same fields.
pub record FeeAux (jf : Jf) : Type 0 where
  pub merkle_root : jf.node_value.Elem
  pub fee : ℕ
  pub txn_memo_ver_key : jf.ver_key.Elem

pub record TransferNote (jf : Jf) : Type 0 where
  pub inputs_nullifiers : List jf.nullifier.Elem
  pub output_commitments : List jf.record_commitment.Elem
  pub proof : jf.Proof
  pub audit_memo : jf.Ciphertext
  pub aux_info : TransferAux jf

pub record MintNote (jf : Jf) : Type 0 where
  pub input_nullifier : jf.nullifier.Elem
  pub chg_comm : jf.record_commitment.Elem
  pub mint_comm : jf.record_commitment.Elem
  pub mint_amount : ℕ
  pub mint_asset_def : AssetDefinition jf
  pub mint_internal_asset_code : jf.internal_asset_code.Elem
  pub proof : jf.Proof
  pub audit_memo : jf.Ciphertext
  pub aux_info : FeeAux jf

pub record FreezeNote (jf : Jf) : Type 0 where
  pub input_nullifiers : List jf.nullifier.Elem
  pub output_commitments : List jf.record_commitment.Elem
  pub proof : jf.Proof
  pub aux_info : FeeAux jf
