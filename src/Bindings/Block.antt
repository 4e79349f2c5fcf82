-- ===== src/Bindings/Block.antt =====
-- The burn note and the block of contracts/rust/src/cape/mod.rs, with the full notes of jf_cap, and
-- their conversions.
use cape.Base.{Option, some, List, map}
use cape.Blocks.{NoteType}
use cape.Bindings.Jf.{Jf, Assets, RecordOpening, TransferNote, MintNote, FreezeNote}
use cape.Bindings.Sol.{SolBurnNote, SolCapeBlock}
use cape.Bindings.Fields.{◌>>?◌, convert_all, point_of, of_point, opening_to_sol, opening_from_sol}
use cape.Bindings.Notes.{
  to_u8, from_u8, transfer_to_sol, transfer_from_sol, mint_to_sol, mint_from_sol, freeze_to_sol,
  freeze_from_sol,
}

pub record BurnNote (jf : Jf) : Type 0 where
  pub transfer_note : TransferNote jf
  pub burned_ro : RecordOpening jf

pub record CapeBlock (jf : Jf) : Type 0 where
  pub miner_addr : jf.ver_key.Elem
  pub note_types : List NoteType
  pub transfer_notes : List (TransferNote jf)
  pub mint_notes : List (MintNote jf)
  pub freeze_notes : List (FreezeNote jf)
  pub burn_notes : List (BurnNote jf)

module _ (jf : Jf) where
  unfoldable pub burn_to_sol : BurnNote jf → Option SolBurnNote
  burn_to_sol note = transfer_to_sol jf note.transfer_note >>? λ transfer.
      some (record { transfer_note = transfer; record_opening = opening_to_sol jf note.burned_ro })

  unfoldable pub block_to_sol : CapeBlock jf → Option SolCapeBlock
  block_to_sol blk = convert_all (transfer_to_sol jf) blk.transfer_notes >>? λ transfers.
      convert_all (mint_to_sol jf) blk.mint_notes >>? λ mints.
      convert_all (freeze_to_sol jf) blk.freeze_notes >>? λ freezes.
      convert_all burn_to_sol blk.burn_notes >>? λ burns. some (record {
        miner_addr = point_of jf jf.ver_key blk.miner_addr;
        note_types = map to_u8 blk.note_types;
        transfer_notes = transfers;
        mint_notes = mints;
        freeze_notes = freezes;
        burn_notes = burns;
      })

  module _ (assets : Assets jf) where
    unfoldable pub burn_from_sol : SolBurnNote → Option (BurnNote jf)
    burn_from_sol note_sol = transfer_from_sol jf note_sol.transfer_note >>? λ transfer.
        opening_from_sol jf assets note_sol.record_opening >>? λ ro.
        some (record { transfer_note = transfer; burned_ro = ro })

    unfoldable pub block_from_sol : SolCapeBlock → Option (CapeBlock jf)
    block_from_sol blk_sol = of_point jf jf.ver_key blk_sol.miner_addr >>? λ miner.
        convert_all (transfer_from_sol jf) blk_sol.transfer_notes >>? λ transfers.
        convert_all (mint_from_sol jf assets) blk_sol.mint_notes >>? λ mints.
        convert_all (freeze_from_sol jf) blk_sol.freeze_notes >>? λ freezes.
        convert_all burn_from_sol blk_sol.burn_notes >>? λ burns. some (record {
          miner_addr = miner;
          note_types = map from_u8 blk_sol.note_types;
          transfer_notes = transfers;
          mint_notes = mints;
          freeze_notes = freezes;
          burn_notes = burns;
        })
