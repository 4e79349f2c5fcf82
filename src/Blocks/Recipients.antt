-- ===== src/Blocks/Recipients.antt =====
-- The recipient of a burn as contracts/rust/src/cape/mod.rs reads it, the kind of a note, and the
-- commitments of a block.
use cape.Base.{
  ◌*◌, ◌≡◌, ◌≤◌, refl, arith, false, not, Option-cases, inl, inr, Option, some, List, [], ◌∷◌, ◌++◌,
  Outcome, ok, err, panic, unwrap, ok_or, assert, ◌>>=◌, ◌>>◌, if◌then◌else◌, ltb, length,
  length-drop, length-take, drop, take, nat_eq, list_eq,
}
use cape.Cap.{Bytes, CapLib, RecordOpening, RecordCommitment, TransferNote, TransactionNote}
use cape.Model.Types.{EthereumAddr, CapeModelTxn}
use cape.Model.Notes.{commitments, extract_burn_dst}
use cape.Blocks.{
  NoteType, transfer_type, mint_type, freeze_type, burn_type, BurnNote, CapeBlock, BlockError,
  dom_sep_cape_burn, is_burn_note, burn_note, into_cape_transactions,
}

-- What Rust's and ethers' libraries make of text.
pub record TextLib : Type 1 where
  pub Text : Type 0
  pub from_utf8 : Bytes → Option Text
  -- `parse::<Address>`
  pub parse_address : Text → Option EthereumAddr
  -- The text of an address has two hexadecimal digits for each of its 20 bytes.
  pub digits :
      (bytes : Bytes) (text : Text) (addr : EthereumAddr)
      → from_utf8 bytes ≡ some text
      → parse_address text ≡ some addr
      → 2 * 20 ≤ length bytes

pub data RecipientError : Type 0 where
  utf8_error invalid_address : RecipientError

-- Slicing panics if there are less bytes than the magic ones.
unfoldable pub withdraw_recipient : TextLib → BurnNote → Outcome RecipientError EthereumAddr
withdraw_recipient text_lib b = do
  let field_data = b.transfer_note.extra_proof_bound_data
  assert (not (ltb (length field_data) (length dom_sep_cape_burn)))
  text ← ok_or (text_lib.from_utf8 (drop (length dom_sep_cape_burn) field_data)) utf8_error
  ok_or (text_lib.parse_address text) invalid_address

-- `From<TransactionNote> for NoteType`
unfoldable pub note_type : TransactionNote → NoteType
note_type (TransactionNote.transfer n) = if is_burn_note n then burn_type else transfer_type
note_type (TransactionNote.mint n) = mint_type
note_type (TransactionNote.freeze n) = freeze_type

-- Of 32 bytes the 20 after the magic ones are too few for the text of an address.
withdraw_recipient-err :
    (text_lib : TextLib) (b : BurnNote)
    → length b.transfer_note.extra_proof_bound_data ≡ 32
    → (e : RecipientError) × (withdraw_recipient text_lib b ≡ err e)
unfolding withdraw_recipient
withdraw_recipient-err text_lib b whole =
    let bytes : Bytes = drop 12 b.transfer_note.extra_proof_bound_data in
    let few : length bytes ≡ 20 =
      omega (arith, length-drop 12 b.transfer_note.extra_proof_bound_data) in
    let long : ltb (length b.transfer_note.extra_proof_bound_data) 12 ≡ false = rw whole refl in
    elim (Option-cases (text_lib.from_utf8 bytes)) [
      | inl no_text ↦ (utf8_error, rw (long, no_text) refl)
      | inr (text, decoded) ↦ elim (Option-cases (text_lib.parse_address text)) [
        | inl refused ↦ (invalid_address, rw (long, decoded, refused) refl)
        | inr (addr, parsed) ↦
            absurd (omega (arith, text_lib.digits bytes text addr decoded parsed))
      ]
    ]

module _ (lib : CapLib) where
  burn_note-eq-ok :
      (note : TransferNote) (ro : RecordOpening) (b : BurnNote)
      → burn_note lib note ro ≡ ok b
      → (length b.transfer_note.extra_proof_bound_data ≡ 32)
        × (take 12 b.transfer_note.extra_proof_bound_data ≡ dom_sep_cape_burn)
  unfolding burn_note is_burn_note
  burn_note-eq-ok note ro b h = ground arith

  -- `flat_map(|tx| tx.commitments())`
  unfoldable pub all_commitments : List CapeModelTxn → Outcome BlockError (List RecordCommitment)
  all_commitments [] = ok []
  all_commitments (tx ∷ txns) = do
    first ← unwrap (commitments lib tx)
    others ← all_commitments txns
    ok (first ++ others)

  -- `CapeBlock::commitments`; its unwrap panics on a malformed block.
  unfoldable pub block_commitments : CapeBlock → Outcome BlockError (List RecordCommitment)
  block_commitments b = elim (into_cape_transactions b) [
    | ok r ↦ all_commitments r.0
    | err e ↦ panic
    | panic ↦ panic
  ]

  -- A burn note that is generated from a note has 32 bound bytes with the magic ones first: the
  -- contract reads an address of it, and withdraw_recipient fails with an error.
  pub withdraw_recipient-burn_note :
      (text_lib : TextLib) (note : TransferNote) (ro : RecordOpening) (b : BurnNote)
      → burn_note lib note ro ≡ ok b
      → (dst : EthereumAddr) × (extract_burn_dst b.transfer_note ≡ some (some dst))
        × (length dst ≡ 20)
        × (e : RecipientError) × (withdraw_recipient text_lib b ≡ err e)
  unfolding extract_burn_dst
  withdraw_recipient-burn_note text_lib note ro b h =
      let (whole, magic) = burn_note-eq-ok note ro b h in
      let bytes = b.transfer_note.extra_proof_bound_data in
      let (e, refused) = withdraw_recipient-err text_lib b whole in
      (
        take 20 (drop 12 bytes),
        rw (whole, magic) refl,
        ground (arith, length-take 20 (drop 12 bytes), length-drop 12 bytes),
        e,
        refused,
      )
