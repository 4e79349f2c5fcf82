-- ===== src/Bindings/Sol.antt =====
-- The types of the bindings that are generated from contracts/contracts/CAPE.sol, AssetRegistry.sol,
-- interfaces/IPlonkVerifier.sol and the libraries EdOnBN254.sol and BN254.sol. A word is its number.
use cape.Base.{ℕ, Bool, List}
use cape.Cap.{Bytes}

-- `EdOnBN254Point`
pub record SolPoint : Type 0 where
  pub x : ℕ
  pub y : ℕ

pub record G1Point : Type 0 where
  pub x : ℕ
  pub y : ℕ

pub record SolAssetPolicy : Type 0 where
  pub auditor_pk : SolPoint
  pub cred_pk : SolPoint
  pub freezer_pk : SolPoint
  pub reveal_map : ℕ
  pub reveal_threshold : ℕ

pub record SolAssetDefinition : Type 0 where
  pub code : ℕ
  pub policy : SolAssetPolicy

pub record SolRecordOpening : Type 0 where
  pub amount : ℕ
  pub asset_def : SolAssetDefinition
  pub user_addr : SolPoint
  pub enc_key : Bytes
  pub freeze_flag : Bool
  pub blind : ℕ

pub record SolAuditMemo : Type 0 where
  pub ephemeral_key : SolPoint
  pub scalars : List ℕ

pub record SolTransferAux : Type 0 where
  pub merkle_root : ℕ
  pub fee : ℕ
  pub valid_until : ℕ
  pub txn_memo_ver_key : SolPoint
  pub extra_proof_bound_data : Bytes

-- `MintAuxInfo` and `FreezeAuxInfo`, of the same fields.
pub record SolFeeAux : Type 0 where
  pub merkle_root : ℕ
  pub fee : ℕ
  pub txn_memo_ver_key : SolPoint

pub record PlonkProof : Type 0 where
  pub wire_0 : G1Point
  pub wire_1 : G1Point
  pub wire_2 : G1Point
  pub wire_3 : G1Point
  pub wire_4 : G1Point
  pub prod_perm : G1Point
  pub split_0 : G1Point
  pub split_1 : G1Point
  pub split_2 : G1Point
  pub split_3 : G1Point
  pub split_4 : G1Point
  pub zeta : G1Point
  pub zeta_omega : G1Point
  pub wire_eval_0 : ℕ
  pub wire_eval_1 : ℕ
  pub wire_eval_2 : ℕ
  pub wire_eval_3 : ℕ
  pub wire_eval_4 : ℕ
  pub sigma_eval_0 : ℕ
  pub sigma_eval_1 : ℕ
  pub sigma_eval_2 : ℕ
  pub sigma_eval_3 : ℕ
  pub prod_perm_zeta_omega_eval : ℕ

pub record SolTransferNote : Type 0 where
  pub input_nullifiers : List ℕ
  pub output_commitments : List ℕ
  pub proof : PlonkProof
  pub audit_memo : SolAuditMemo
  pub aux_info : SolTransferAux

pub record SolMintNote : Type 0 where
  pub input_nullifier : ℕ
  pub chg_comm : ℕ
  pub mint_comm : ℕ
  pub mint_amount : ℕ
  pub mint_asset_def : SolAssetDefinition
  pub mint_internal_asset_code : ℕ
  pub proof : PlonkProof
  pub audit_memo : SolAuditMemo
  pub aux_info : SolFeeAux

pub record SolFreezeNote : Type 0 where
  pub input_nullifiers : List ℕ
  pub output_commitments : List ℕ
  pub proof : PlonkProof
  pub aux_info : SolFeeAux

pub record SolBurnNote : Type 0 where
  pub transfer_note : SolTransferNote
  pub record_opening : SolRecordOpening

pub record SolCapeBlock : Type 0 where
  pub miner_addr : SolPoint
  pub note_types : List ℕ
  pub transfer_notes : List SolTransferNote
  pub mint_notes : List SolMintNote
  pub freeze_notes : List SolFreezeNote
  pub burn_notes : List SolBurnNote
