-- ===== src/Bindings/Tests.antt =====
-- A block of a burn and a mint, for the conversions of contracts/rust/src/cape/mod.rs.
use cape.Base.{◌≡◌, inl, inr, refl, Bool, true, false, some, [], ◌∷◌, nat_eq}
use cape.Blocks
use cape.Blocks.{NoteType}
use cape.Bindings.Jf.{AssetPolicy, Assets, RecordOpening, TransferNote, MintNote}
use cape.Bindings.Sol.{SolCapeBlock}
use cape.Bindings.Block.{CapeBlock, block_to_sol, block_from_sol}
use cape.Bindings.Returns.{block_from_sol-block_to_sol}
use cape.Bindings.Samples.{small_jf, small_laws}

abbrev policy : Bool → AssetPolicy small_jf
policy m = record {
  auditor_pk = true;
  cred_pk = false;
  freezer_pk = true;
  reveal_map = m;
  reveal_threshold = 7;
}

-- The native code is `false`.
abbrev small_assets : Assets small_jf
small_assets = record {
  is_native = λ code. elim code [ true ↦ false | false ↦ true ];
  native = record { code = false; policy = policy false };
  new = λ code policy. some (record { code = code; policy = policy });
}

abbrev transfer_note : TransferNote small_jf
transfer_note = record {
  inputs_nullifiers = true ∷ false ∷ [];
  output_commitments = false ∷ true ∷ [];
  proof = false;
  audit_memo = true;
  aux_info = record {
    merkle_root = true;
    fee = 2;
    valid_until = 5;
    txn_memo_ver_key = true;
    extra_proof_bound_data = 69 ∷ 115 ∷ [];
  };
}

abbrev opening : RecordOpening small_jf
opening = record {
  amount = 12;
  asset_def = record { code = false; policy = policy false };
  pub_key = record { address = true; enc_key = false };
  frozen = true;
  blind = true;
}

abbrev mint_note : MintNote small_jf
mint_note = record {
  input_nullifier = true;
  chg_comm = false;
  mint_comm = true;
  mint_amount = 100;
  mint_asset_def = record { code = true; policy = policy true };
  mint_internal_asset_code = true;
  proof = true;
  audit_memo = false;
  aux_info = record { merkle_root = true; fee = 3; txn_memo_ver_key = false };
}

abbrev block : CapeBlock small_jf
block = record {
  miner_addr = true;
  note_types = Blocks.NoteType.burn_type ∷ Blocks.NoteType.mint_type ∷ [];
  transfer_notes = [];
  mint_notes = mint_note ∷ [];
  freeze_notes = [];
  burn_notes = record { transfer_note = transfer_note; burned_ro = opening } ∷ [];
}

block_from_sol-block_to_sol_example :
    (blk_sol : SolCapeBlock) × (block_to_sol small_jf block ≡ some blk_sol)
    × (block_from_sol small_jf small_assets blk_sol ≡ some block)
block_from_sol-block_to_sol_example =
    block_from_sol-block_to_sol small_jf small_laws small_assets block
      (record { mints_made = (inr (refl, refl), tt); burns_made = (inl (refl, refl), tt) })
