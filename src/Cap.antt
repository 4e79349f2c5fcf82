-- ===== src/Cap.antt =====
-- The types of the library jf_cap that contracts/rust/src/model.rs handles, with the fields that it
-- reads, and the calls that it makes of that library, of key_set and of the ABI encoder. Keys, field
-- elements, proofs and amounts stand as numbers: the program only stores, compares and passes them.
use cape.Base.{ℕ, ◌≡◌, ◌↔◌, ◌&&◌, Bool, true, Option, List, arith, Eq, ◌==◌, nat_eq}

abbrev pub Bytes : Type 0
Bytes = List ℕ

abbrev pub Nullifier : Type 0
Nullifier = ℕ

abbrev pub RecordCommitment : Type 0
RecordCommitment = ℕ

abbrev pub NodeValue : Type 0
NodeValue = ℕ

abbrev pub VerKey : Type 0
VerKey = ℕ

abbrev pub TxnApiError : Type 0
TxnApiError = ℕ

-- The modulus of a `u64`.
abbrev pub u64_mod : ℕ
u64_mod = 18446744073709551616

-- The modulus of a `u128`.
abbrev pub u128_mod : ℕ
u128_mod = 340282366920938463463374607431768211456

pub record AssetDefinition : Type 0 where
  pub code : ℕ
  pub policy_ref : ℕ

abbrev pub asset_definition_beq : AssetDefinition → AssetDefinition → Bool
asset_definition_beq a b = (a.code == b.code) && (a.policy_ref == b.policy_ref)

pub asset_definition_beq_iff : (a b : AssetDefinition) → (asset_definition_beq a b ≡ true) ↔ (a ≡ b)
asset_definition_beq_iff a b = ground arith

instance abbrev pub asset_definition_eq : Eq AssetDefinition
asset_definition_eq = record { eq = asset_definition_beq; eq_iff = asset_definition_beq_iff }

pub record RecordOpening : Type 0 where
  pub amount : ℕ
  pub asset_def : AssetDefinition
  pub pub_key : ℕ
  pub freeze_flag : Bool
  pub blind : ℕ

pub record TransferNote : Type 0 where
  pub inputs_nullifiers : List Nullifier
  pub output_commitments : List RecordCommitment
  pub merkle_root : NodeValue
  pub valid_until : ℕ
  pub extra_proof_bound_data : Bytes
  pub proof : ℕ

pub record MintNote : Type 0 where
  pub input_nullifier : Nullifier
  pub chg_comm : RecordCommitment
  pub mint_comm : RecordCommitment
  pub mint_asset_def : AssetDefinition
  pub merkle_root : NodeValue
  pub proof : ℕ

pub record FreezeNote : Type 0 where
  pub input_nullifiers : List Nullifier
  pub output_commitments : List RecordCommitment
  pub merkle_root : NodeValue
  pub proof : ℕ

pub data TransactionNote : Type 0 where
  transfer : TransferNote → TransactionNote
  mint : MintNote → TransactionNote
  freeze : FreezeNote → TransactionNote

pub record MerkleCommitment : Type 0 where
  pub root_value : NodeValue
  pub height : ℕ
  pub num_leaves : ℕ

-- `VerifierKeySet` of key_set: keys by the number of inputs and outputs.
pub record VerifierKeySet : Type 0 where
  pub mint : VerKey
  pub xfr : ℕ → ℕ → Option VerKey
  pub freeze : ℕ → ℕ → Option VerKey

-- What the program calls and does not implement.
pub record CapLib : Type 1 where
  -- `MerkleFrontier` and `FilledMTBuilder`
  pub Frontier : Type 0
  pub Builder : Type 0
  pub from_frontier : MerkleCommitment → Frontier → Option Builder
  pub push : Builder → RecordCommitment → Builder
  pub into_frontier_and_commitment : Builder → Frontier × MerkleCommitment
  -- `RecordCommitment::from(&ro)`
  pub record_commitment : RecordOpening → RecordCommitment
  -- `AbiEncode::encode(types::AssetPolicy::from(policy))`
  pub encode_policy : ℕ → Bytes
  -- `code.verify_foreign(&description).is_ok()`
  pub verify_foreign : ℕ → Bytes → Bool
  -- `TransactionNote::output_commitments`
  pub output_commitments : TransactionNote → List RecordCommitment
  -- `none` is `Ok(())`
  pub txn_batch_verify :
      List TransactionNote → List NodeValue → ℕ → List VerKey → Option TxnApiError
