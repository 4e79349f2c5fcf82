-- ===== src/Bindings/Notes.antt =====
-- The notes of contracts/rust/src/types.rs, and the burn note and the block of
-- contracts/rust/src/cape/mod.rs.
use cape.Base.{ℕ, Option, some, ◌==◌, nat_eq, if◌then◌else◌, map}
use cape.Blocks
use cape.Blocks.{NoteType}
use cape.Bindings.Jf.{Jf, Assets, TransferAux, FeeAux, TransferNote, MintNote, FreezeNote}
use cape.Bindings.Sol.{SolTransferAux, SolFeeAux, SolTransferNote, SolMintNote, SolFreezeNote}
use cape.Bindings.Fields.{
  ◌>>?◌, convert_all, u256_of, of_u256, point_of, of_point, definition_to_sol, definition_from_sol,
}
use cape.Bindings.Plonk.{proof_to_sol, proof_from_sol, memo_to_sol, memo_from_sol}

-- `to_u8` and `from_u8` with `unwrap_or`, of a type that derives them.
unfoldable pub to_u8 : NoteType → ℕ
to_u8 Blocks.NoteType.transfer_type = 0
to_u8 Blocks.NoteType.mint_type = 1
to_u8 Blocks.NoteType.freeze_type = 2
to_u8 Blocks.NoteType.burn_type = 3

unfoldable pub from_u8 : ℕ → NoteType
from_u8 t =
    if t == 1
    then Blocks.NoteType.mint_type
    else if t == 2
    then Blocks.NoteType.freeze_type
    else if t == 3
    then Blocks.NoteType.burn_type
    else Blocks.NoteType.transfer_type

module _ (jf : Jf) where
  unfoldable pub transfer_aux_to_sol : TransferAux jf → SolTransferAux
  transfer_aux_to_sol aux = record {
    merkle_root = u256_of jf jf.node_value aux.merkle_root;
    fee = aux.fee;
    valid_until = aux.valid_until;
    txn_memo_ver_key = point_of jf jf.ver_key aux.txn_memo_ver_key;
    extra_proof_bound_data = aux.extra_proof_bound_data;
  }

  unfoldable pub transfer_aux_from_sol : SolTransferAux → Option (TransferAux jf)
  transfer_aux_from_sol aux_sol = of_u256 jf jf.node_value aux_sol.merkle_root >>? λ root.
      of_point jf jf.ver_key aux_sol.txn_memo_ver_key >>? λ key. some (record {
        merkle_root = root;
        fee = aux_sol.fee;
        valid_until = aux_sol.valid_until;
        txn_memo_ver_key = key;
        extra_proof_bound_data = aux_sol.extra_proof_bound_data;
      })

  unfoldable pub fee_aux_to_sol : FeeAux jf → SolFeeAux
  fee_aux_to_sol aux = record {
    merkle_root = u256_of jf jf.node_value aux.merkle_root;
    fee = aux.fee;
    txn_memo_ver_key = point_of jf jf.ver_key aux.txn_memo_ver_key;
  }

  unfoldable pub fee_aux_from_sol : SolFeeAux → Option (FeeAux jf)
  fee_aux_from_sol aux_sol = of_u256 jf jf.node_value aux_sol.merkle_root >>? λ root.
      of_point jf jf.ver_key aux_sol.txn_memo_ver_key >>? λ key.
      some (record { merkle_root = root; fee = aux_sol.fee; txn_memo_ver_key = key })

  unfoldable pub transfer_to_sol : TransferNote jf → Option SolTransferNote
  transfer_to_sol note = proof_to_sol jf note.proof >>? λ proof.
      memo_to_sol jf note.audit_memo >>? λ memo. some (record {
        input_nullifiers = map (u256_of jf jf.nullifier) note.inputs_nullifiers;
        output_commitments = map (u256_of jf jf.record_commitment) note.output_commitments;
        proof = proof;
        audit_memo = memo;
        aux_info = transfer_aux_to_sol note.aux_info;
      })

  unfoldable pub transfer_from_sol : SolTransferNote → Option (TransferNote jf)
  transfer_from_sol note_sol =
      convert_all (of_u256 jf jf.nullifier) note_sol.input_nullifiers >>? λ nullifiers.
      convert_all (of_u256 jf jf.record_commitment) note_sol.output_commitments >>? λ commitments.
      proof_from_sol jf note_sol.proof >>? λ proof. memo_from_sol jf note_sol.audit_memo >>? λ memo.
      transfer_aux_from_sol note_sol.aux_info >>? λ aux. some (record {
        inputs_nullifiers = nullifiers;
        output_commitments = commitments;
        proof = proof;
        audit_memo = memo;
        aux_info = aux;
      })

  unfoldable pub mint_to_sol : MintNote jf → Option SolMintNote
  mint_to_sol note = proof_to_sol jf note.proof >>? λ proof.
      memo_to_sol jf note.audit_memo >>? λ memo. some (record {
        input_nullifier = u256_of jf jf.nullifier note.input_nullifier;
        chg_comm = u256_of jf jf.record_commitment note.chg_comm;
        mint_comm = u256_of jf jf.record_commitment note.mint_comm;
        mint_amount = note.mint_amount;
        mint_asset_def = definition_to_sol jf note.mint_asset_def;
        mint_internal_asset_code = u256_of jf jf.internal_asset_code note.mint_internal_asset_code;
        proof = proof;
        audit_memo = memo;
        aux_info = fee_aux_to_sol note.aux_info;
      })

  unfoldable pub freeze_to_sol : FreezeNote jf → Option SolFreezeNote
  freeze_to_sol note = proof_to_sol jf note.proof >>? λ proof. some (record {
    input_nullifiers = map (u256_of jf jf.nullifier) note.input_nullifiers;
    output_commitments = map (u256_of jf jf.record_commitment) note.output_commitments;
    proof = proof;
    aux_info = fee_aux_to_sol note.aux_info;
  })

  unfoldable pub freeze_from_sol : SolFreezeNote → Option (FreezeNote jf)
  freeze_from_sol note_sol =
      convert_all (of_u256 jf jf.nullifier) note_sol.input_nullifiers >>? λ nullifiers.
      convert_all (of_u256 jf jf.record_commitment) note_sol.output_commitments >>? λ commitments.
      proof_from_sol jf note_sol.proof >>? λ proof. fee_aux_from_sol note_sol.aux_info >>? λ aux.
      some (record {
        input_nullifiers = nullifiers;
        output_commitments = commitments;
        proof = proof;
        aux_info = aux;
      })

  module _ (assets : Assets jf) where
    unfoldable pub mint_from_sol : SolMintNote → Option (MintNote jf)
    mint_from_sol note_sol = of_u256 jf jf.nullifier note_sol.input_nullifier >>? λ nullifier.
        of_u256 jf jf.record_commitment note_sol.chg_comm >>? λ chg_comm.
        of_u256 jf jf.record_commitment note_sol.mint_comm >>? λ mint_comm.
        definition_from_sol jf assets note_sol.mint_asset_def >>? λ asset_def.
        of_u256 jf jf.internal_asset_code note_sol.mint_internal_asset_code >>? λ internal_code.
        proof_from_sol jf note_sol.proof >>? λ proof.
        memo_from_sol jf note_sol.audit_memo >>? λ memo.
        fee_aux_from_sol note_sol.aux_info >>? λ aux. some (record {
          input_nullifier = nullifier;
          chg_comm = chg_comm;
          mint_comm = mint_comm;
          mint_amount = note_sol.mint_amount;
          mint_asset_def = asset_def;
          mint_internal_asset_code = internal_code;
          proof = proof;
          audit_memo = memo;
          aux_info = aux;
        })
