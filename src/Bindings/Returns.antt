-- ===== src/Bindings/Returns.antt =====
-- Notes and blocks of contracts/rust/src/types.rs and contracts/rust/src/cape/mod.rs are read back.
use cape.Base.{◌≡◌, refl, Option, some, List, [], ◌∷◌, map, All}
use cape.Blocks
use cape.Blocks.{NoteType}
use cape.Bindings.Jf.{Jf, Assets, TransferAux, FeeAux, TransferNote, MintNote, FreezeNote}
use cape.Bindings.Sol.{SolCapeBlock}
use cape.Bindings.Fields.{
  convert_all, u256_of, of_u256, point_of, definition_to_sol, opening_to_sol,
}
use cape.Bindings.Notes.{
  to_u8, from_u8, transfer_aux_to_sol, transfer_aux_from_sol, fee_aux_to_sol, fee_aux_from_sol,
  transfer_to_sol, transfer_from_sol, mint_to_sol, mint_from_sol, freeze_to_sol, freeze_from_sol,
}
use cape.Bindings.Block.{
  BurnNote, CapeBlock, burn_to_sol, burn_from_sol, block_to_sol, block_from_sol,
}
use cape.Bindings.Laws.{BindingLaws, Made}
use cape.Bindings.Words.{
  convert_all-map, map-map, of_u256-u256_of, of_point-point_of,
  definition_from_sol-definition_to_sol, opening_from_sol-opening_to_sol,
}
use cape.Bindings.Proofs.{proof_from_sol-proof_to_sol, memo_from_sol-memo_to_sol}

-- A value that can be converted, and back.
abbrev pub Returns : {A B : Type 0} → (A → Option B) → (B → Option A) → A → Type 0
Returns {A} {B} to from a = (b : B) × (to a ≡ some b) × (from b ≡ some a)

convert_all-Returns :
    {A B : Type 0} (to : A → Option B) (from : B → Option A) (Good : A → Type 0)
    → ((a : A) → Good a → Returns to from a)
    → (as_list : List A) → All Good as_list
    → Returns (convert_all to) (convert_all from) as_list
unfolding convert_all
convert_all-Returns to from Good each [] good = ([], refl, refl)
convert_all-Returns to from Good each (a ∷ rest) (here, later) =
    let (b, e, f) = each a here in
    let (bs, es, fs) = convert_all-Returns to from Good each rest later in
    (b ∷ bs, rw (e, es) refl, rw (f, fs) refl)

from_u8-to_u8 : (t : NoteType) → from_u8 (to_u8 t) ≡ t
unfolding from_u8 to_u8
from_u8-to_u8 Blocks.NoteType.transfer_type = refl
from_u8-to_u8 Blocks.NoteType.mint_type = refl
from_u8-to_u8 Blocks.NoteType.freeze_type = refl
from_u8-to_u8 Blocks.NoteType.burn_type = refl

-- A block whose definitions are made by jf_cap.
pub record BlockMade (jf : Jf) (assets : Assets jf) (blk : CapeBlock jf) : Type 0 where
  pub mints_made : All (λ n. Made jf assets n.mint_asset_def) blk.mint_notes
  pub burns_made : All (λ n. Made jf assets n.burned_ro.asset_def) blk.burn_notes

module _ (jf : Jf) (laws : BindingLaws jf) where
  nullifiers_back :
      (ns : List jf.nullifier.Elem)
      → convert_all (of_u256 jf jf.nullifier) (map (u256_of jf jf.nullifier) ns) ≡ some ns
  nullifiers_back =
      convert_all-map (u256_of jf jf.nullifier) (of_u256 jf jf.nullifier)
        (of_u256-u256_of jf laws jf.nullifier laws.nullifier_laws)

  commitments_back :
      (cs : List jf.record_commitment.Elem)
      → convert_all (of_u256 jf jf.record_commitment) (map (u256_of jf jf.record_commitment) cs)
        ≡ some cs
  commitments_back =
      convert_all-map (u256_of jf jf.record_commitment) (of_u256 jf jf.record_commitment)
        (of_u256-u256_of jf laws jf.record_commitment laws.record_commitment_laws)

  transfer_aux_back :
      (aux : TransferAux jf) → transfer_aux_from_sol jf (transfer_aux_to_sol jf aux) ≡ some aux
  unfolding transfer_aux_from_sol transfer_aux_to_sol
  transfer_aux_back aux =
      rw
        (
          of_u256-u256_of jf laws jf.node_value laws.node_value_laws aux.merkle_root,
          of_point-point_of jf laws jf.ver_key laws.ver_key_laws aux.txn_memo_ver_key,
        )
        refl

  fee_aux_back : (aux : FeeAux jf) → fee_aux_from_sol jf (fee_aux_to_sol jf aux) ≡ some aux
  unfolding fee_aux_from_sol fee_aux_to_sol
  fee_aux_back aux =
      rw
        (
          of_u256-u256_of jf laws jf.node_value laws.node_value_laws aux.merkle_root,
          of_point-point_of jf laws jf.ver_key laws.ver_key_laws aux.txn_memo_ver_key,
        )
        refl

  transfer_back :
      (note : TransferNote jf) → Returns (transfer_to_sol jf) (transfer_from_sol jf) note
  unfolding transfer_to_sol transfer_from_sol
  transfer_back note =
      let (proof, made, read) = proof_from_sol-proof_to_sol jf laws note.proof in
      let (memo, memo_made, memo_read) = memo_from_sol-memo_to_sol jf laws note.audit_memo in
      (
        record {
          input_nullifiers = map (u256_of jf jf.nullifier) note.inputs_nullifiers;
          output_commitments = map (u256_of jf jf.record_commitment) note.output_commitments;
          proof = proof;
          audit_memo = memo;
          aux_info = transfer_aux_to_sol jf note.aux_info;
        },
        rw (made, memo_made) refl,
        rw
            (
              nullifiers_back note.inputs_nullifiers,
              commitments_back note.output_commitments,
              read,
              memo_read,
              transfer_aux_back note.aux_info,
            )
            refl,
      )

  freeze_back : (note : FreezeNote jf) → Returns (freeze_to_sol jf) (freeze_from_sol jf) note
  unfolding freeze_to_sol freeze_from_sol
  freeze_back note =
      let (proof, made, read) = proof_from_sol-proof_to_sol jf laws note.proof in
      (
        record {
          input_nullifiers = map (u256_of jf jf.nullifier) note.input_nullifiers;
          output_commitments = map (u256_of jf jf.record_commitment) note.output_commitments;
          proof = proof;
          aux_info = fee_aux_to_sol jf note.aux_info;
        },
        rw made refl,
        rw
            (
              nullifiers_back note.input_nullifiers,
              commitments_back note.output_commitments,
              read,
              fee_aux_back note.aux_info,
            )
            refl,
      )

  module _ (assets : Assets jf) where
    mint_back :
        (note : MintNote jf)
        → Made jf assets note.mint_asset_def
        → Returns (mint_to_sol jf) (mint_from_sol jf assets) note
    unfolding mint_to_sol mint_from_sol
    mint_back note made_def =
        let (proof, made, read) = proof_from_sol-proof_to_sol jf laws note.proof in
        let (memo, memo_made, memo_read) = memo_from_sol-memo_to_sol jf laws note.audit_memo in
        let commitment = of_u256-u256_of jf laws jf.record_commitment laws.record_commitment_laws in
        (
          record {
            input_nullifier = u256_of jf jf.nullifier note.input_nullifier;
            chg_comm = u256_of jf jf.record_commitment note.chg_comm;
            mint_comm = u256_of jf jf.record_commitment note.mint_comm;
            mint_amount = note.mint_amount;
            mint_asset_def = definition_to_sol jf note.mint_asset_def;
            mint_internal_asset_code =
                u256_of jf jf.internal_asset_code note.mint_internal_asset_code;
            proof = proof;
            audit_memo = memo;
            aux_info = fee_aux_to_sol jf note.aux_info;
          },
          rw (made, memo_made) refl,
          rw
              (
                of_u256-u256_of jf laws jf.nullifier laws.nullifier_laws note.input_nullifier,
                commitment note.chg_comm,
                commitment note.mint_comm,
                definition_from_sol-definition_to_sol jf laws assets note.mint_asset_def made_def,
                of_u256-u256_of jf laws jf.internal_asset_code laws.internal_asset_code_laws
                    note.mint_internal_asset_code,
                read,
                memo_read,
                fee_aux_back note.aux_info,
              )
              refl,
        )

    burn_back :
        (note : BurnNote jf)
        → Made jf assets note.burned_ro.asset_def
        → Returns (burn_to_sol jf) (burn_from_sol jf assets) note
    unfolding burn_to_sol burn_from_sol
    burn_back note made_def =
        let (transfer, made, read) = transfer_back note.transfer_note in
        (
          record { transfer_note = transfer; record_opening = opening_to_sol jf note.burned_ro },
          rw made refl,
          rw (read, opening_from_sol-opening_to_sol jf laws assets note.burned_ro made_def) refl,
        )

    always : (notes : List (TransferNote jf)) → All (λ n. Unit {0}) notes
    always [] = tt
    always (n ∷ ns) = (tt, always ns)

    always_freeze : (notes : List (FreezeNote jf)) → All (λ n. Unit {0}) notes
    always_freeze [] = tt
    always_freeze (n ∷ ns) = (tt, always_freeze ns)

    -- The block that a client sends to the contract is read back by those who decode it.
    pub block_from_sol-block_to_sol :
        (blk : CapeBlock jf)
        → BlockMade jf assets blk
        → (blk_sol : SolCapeBlock) × (block_to_sol jf blk ≡ some blk_sol)
          × (block_from_sol jf assets blk_sol ≡ some blk)
    unfolding block_to_sol block_from_sol
    block_from_sol-block_to_sol blk made =
        let (transfers, t1, t2) =
          convert_all-Returns (transfer_to_sol jf) (transfer_from_sol jf) (λ n. Unit {0})
            (λ n u. transfer_back n) blk.transfer_notes (always blk.transfer_notes) in
        let (mints, m1, m2) =
          convert_all-Returns (mint_to_sol jf) (mint_from_sol jf assets)
            (λ n. Made jf assets n.mint_asset_def) mint_back blk.mint_notes made.mints_made in
        let (freezes, f1, f2) =
          convert_all-Returns (freeze_to_sol jf) (freeze_from_sol jf) (λ n. Unit {0})
            (λ n u. freeze_back n) blk.freeze_notes (always_freeze blk.freeze_notes) in
        let (burns, b1, b2) =
          convert_all-Returns (burn_to_sol jf) (burn_from_sol jf assets)
            (λ n. Made jf assets n.burned_ro.asset_def) burn_back blk.burn_notes made.burns_made in
        (
          record {
            miner_addr = point_of jf jf.ver_key blk.miner_addr;
            note_types = map to_u8 blk.note_types;
            transfer_notes = transfers;
            mint_notes = mints;
            freeze_notes = freezes;
            burn_notes = burns;
          },
          rw (t1, m1, f1, b1) refl,
          rw
              (
                of_point-point_of jf laws jf.ver_key laws.ver_key_laws blk.miner_addr,
                t2,
                m2,
                f2,
                b2,
                map-map to_u8 from_u8 from_u8-to_u8 blk.note_types,
              )
              refl,
        )
