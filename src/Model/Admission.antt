-- ===== src/Model/Admission.antt =====
-- Which transactions the checks of contracts/rust/src/model.rs let through, described without the
-- order in which the code tests.
use cape.Base.{
  ◌≤◌, ◌≡◌, refl, inl, inr, none, some, List, [], ◌∷◌, arith, ok, Option-cases, length, nat_eq,
  list_eq, ℕ, nat_beq_iff,
}
use cape.Base.Map.{Map, lookup}
use cape.Cap.{
  Nullifier, RecordCommitment, TransferNote, RecordOpening, TransactionNote, AssetDefinition,
  CapLib, asset_definition_eq,
}
use cape.Model.Types.{EthereumAddr, Erc20Code, CapeModelTxn, cap_txn, burn, send_erc20}
use cape.Model.Notes.{extract_burn_dst}
use cape.Model.Assets.{State}
use cape.Model.Block.{Checked, check_txn, is_cap_asset_def_valid}

-- The evidence that a burn is in order: its outputs, the registered asset, the recipient and the
-- deposits of the asset's token.
pub record BurnEvidence (lib : CapLib) (registrar : Map AssetDefinition (Erc20Code × EthereumAddr))
    (erc20_deposited : Map Erc20Code ℕ) (xfr : TransferNote) (ro : RecordOpening) : Type 0 where
  pub fee_change : RecordCommitment
  pub others : List RecordCommitment
  pub entry : Erc20Code × EthereumAddr
  pub dst_addr : EthereumAddr
  pub deposited : ℕ
  pub outputs : xfr.output_commitments ≡ fee_change ∷ lib.record_commitment ro ∷ others
  pub registered : lookup ro.asset_def registrar ≡ some entry
  pub addressed : extract_burn_dst xfr ≡ some (some dst_addr)
  pub held : lookup entry.0 erc20_deposited ≡ some deposited
  pub covered : ro.amount ≤ deposited

module _ (lib : CapLib) where
  -- A transaction that may stand in a block, and what is taken from it.
  abbrev pub Admissible : State lib → CapeModelTxn → Checked → Type 0
  Admissible s (cap_txn (TransactionNote.mint note)) c =
      (c.vkey ≡ s.verif_crs.mint)
      × (c.merkle_root ≡ note.merkle_root)
      × (c.new_records ≡ note.chg_comm ∷ note.mint_comm ∷ [])
      × (c.note ≡ TransactionNote.mint note)
      × (c.sent ≡ [])
  Admissible s (cap_txn (TransactionNote.transfer note)) c =
      (extract_burn_dst note ≡ some none)
      × (s.verif_crs.xfr (length note.inputs_nullifiers) (length note.output_commitments)
          ≡ some c.vkey)
      × (c.merkle_root ≡ note.merkle_root)
      × (c.new_records ≡ note.output_commitments)
      × (c.note ≡ TransactionNote.transfer note)
      × (c.sent ≡ [])
  Admissible s (cap_txn (TransactionNote.freeze note)) c =
      (s.verif_crs.freeze (length note.input_nullifiers) (length note.output_commitments)
        ≡ some c.vkey)
      × (c.merkle_root ≡ note.merkle_root)
      × (c.new_records ≡ note.output_commitments)
      × (c.note ≡ TransactionNote.freeze note)
      × (c.sent ≡ [])
  Admissible s (burn xfr ro) c =
      (b : BurnEvidence lib s.erc20_registrar s.erc20_deposited xfr ro) × (s.verif_crs.xfr
          (length xfr.inputs_nullifiers) (length xfr.output_commitments)
        ≡ some c.vkey)
      × (c.merkle_root ≡ xfr.merkle_root)
      × (c.new_records ≡ b.fee_change ∷ b.others)
      × (c.note ≡ TransactionNote.transfer xfr)
      × (c.sent ≡ send_erc20 b.entry.0 ro.amount b.dst_addr ∷ [])

  burn-Admissible :
      (s : State lib) (xfr : TransferNote) (ro : RecordOpening) (c : Checked)
      (outs : List RecordCommitment)
      → xfr.output_commitments ≡ outs
      → check_txn lib s (burn xfr ro) ≡ ok c
      → Admissible s (burn xfr ro) c
  unfolding check_txn
  burn-Admissible s xfr ro c [] e h = ground arith
  burn-Admissible s xfr ro c (x ∷ []) e h = ground arith
  burn-Admissible s xfr ro c (x ∷ y ∷ outs) e h =
      elim (Option-cases (lookup ro.asset_def s.erc20_registrar)) [
        | inl miss ↦ ground arith
        | inr (entry, found) ↦ elim (Option-cases (extract_burn_dst xfr)) [
          | inl miss ↦ ground arith
          | inr (field, f) ↦ elim (Option-cases field) [
            | inl miss ↦ ground arith
            | inr (dst, d) ↦ elim (Option-cases (lookup entry.0 s.erc20_deposited)) [
              | inl miss ↦ ground arith
              | inr (deposited, h1) ↦ (
                record {
                  fee_change = x;
                  others = outs;
                  entry = entry;
                  dst_addr = dst;
                  deposited = deposited;
                  outputs = ground (arith, nat_beq_iff y (lib.record_commitment ro));
                  registered = found;
                  addressed = ground arith;
                  held = h1;
                  covered = ground arith;
                },
                ground arith,
                ground arith,
                ground arith,
                ground arith,
                ground arith,
              )
            ]
          ]
        ]
      ]

  -- Each transaction that passes the checks is admissible.
  pub check_txn_sound :
      (s : State lib) (t : CapeModelTxn) (c : Checked) → check_txn lib s t ≡ ok c → Admissible s t c
  unfolding check_txn is_cap_asset_def_valid
  check_txn_sound s (cap_txn (TransactionNote.mint note)) c h = ground arith
  check_txn_sound s (cap_txn (TransactionNote.transfer note)) c h = ground arith
  check_txn_sound s (cap_txn (TransactionNote.freeze note)) c h = ground arith
  check_txn_sound s (burn xfr ro) c h = burn-Admissible s xfr ro c xfr.output_commitments refl h

  -- Each admissible transaction passes them.
  pub check_txn_complete :
      (s : State lib) (t : CapeModelTxn) (c : Checked) → Admissible s t c → check_txn lib s t ≡ ok c
  unfolding check_txn is_cap_asset_def_valid
  check_txn_complete s (cap_txn (TransactionNote.mint note)) c h = ground arith
  check_txn_complete s (cap_txn (TransactionNote.transfer note)) c h = ground arith
  check_txn_complete s (cap_txn (TransactionNote.freeze note)) c h = ground arith
  check_txn_complete s (burn xfr ro) c (b, key, root, records, note, sent) =
      ground (arith, nat_beq_iff (lib.record_commitment ro) (lib.record_commitment ro))

  -- The checks do not read the published nullifiers.
  pub Admissible-nullifiers :
      (s : State lib) (ns : List Nullifier) (t : CapeModelTxn) (c : Checked)
      → Admissible (record s { nullifiers = ns }) t c
      → Admissible s t c
  Admissible-nullifiers s ns (cap_txn (TransactionNote.mint note)) c h = h
  Admissible-nullifiers s ns (cap_txn (TransactionNote.transfer note)) c h = h
  Admissible-nullifiers s ns (cap_txn (TransactionNote.freeze note)) c h = h
  Admissible-nullifiers s ns (burn xfr ro) c h = h

  -- The other way round.
  pub Admissible-with_nullifiers :
      (s : State lib) (ns : List Nullifier) (t : CapeModelTxn) (c : Checked)
      → Admissible s t c
      → Admissible (record s { nullifiers = ns }) t c
  Admissible-with_nullifiers s ns (cap_txn (TransactionNote.mint note)) c h = h
  Admissible-with_nullifiers s ns (cap_txn (TransactionNote.transfer note)) c h = h
  Admissible-with_nullifiers s ns (cap_txn (TransactionNote.freeze note)) c h = h
  Admissible-with_nullifiers s ns (burn xfr ro) c h = h
