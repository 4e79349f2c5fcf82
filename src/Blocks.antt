-- ===== src/Blocks.antt =====
-- The block that the contract's clients build and read, contracts/rust/src/cape/mod.rs.
use cape.Base.{
  ℕ, Bool, true, false, not, ◌||◌, ◌&&◌, Option, none, some, List, [], ◌∷◌, ◌++◌, Outcome, ok, err,
  panic, guard, assert, unwrap, ok_or, ◌>>=◌, ◌>>◌, ◌==◌, nat_eq, list_eq, if◌then◌else◌, ltb,
  reverse, length, get_elem?, take,
}
use cape.Cap.{CapLib, Bytes, TransferNote, MintNote, FreezeNote, TransactionNote, RecordOpening}
use cape.Model.Types.{CapeModelTxn, cap_txn, burn}
mod Order
pub mod Sending
pub mod Fetching
mod Recipients
mod Tests

abbrev pub UserAddress : Type 0
UserAddress = ℕ

pub data NoteType : Type 0 where
  transfer_type mint_type freeze_type burn_type : NoteType

pub record BurnNote : Type 0 where
  pub transfer_note : TransferNote
  pub burned_ro : RecordOpening

pub record CapeBlock : Type 0 where
  pub miner_addr : UserAddress
  pub note_types : List NoteType
  pub transfer_notes : List TransferNote
  pub mint_notes : List MintNote
  pub freeze_notes : List FreezeNote
  pub burn_notes : List BurnNote

pub data BlockError : Type 0 where
  malformed_burned_note mismatched_openings malformed_block : BlockError

-- "EsSCAPE burn"
abbrev pub dom_sep_cape_burn : Bytes
dom_sep_cape_burn = 69 ∷ 115 ∷ 83 ∷ 67 ∷ 65 ∷ 80 ∷ 69 ∷ 32 ∷ 98 ∷ 117 ∷ 114 ∷ 110 ∷ []

-- `starts_with`
unfoldable pub is_burn_note : TransferNote → Bool
is_burn_note note = take 12 note.extra_proof_bound_data == dom_sep_cape_burn

-- The lists that the loop of `generate` fills, each in the order of the notes.
pub record Sorted : Type 0 where
  pub types : List NoteType
  pub transfers : List TransferNote
  pub mints : List MintNote
  pub freezes : List FreezeNote
  pub burns : List TransferNote

unfoldable pub sort_note : TransactionNote → Sorted → Sorted
sort_note (TransactionNote.transfer n) rest =
    if is_burn_note n
    then record rest { burns = n ∷ rest.burns; types = burn_type ∷ rest.types }
    else record rest { transfers = n ∷ rest.transfers; types = transfer_type ∷ rest.types }
sort_note (TransactionNote.mint n) rest = record rest {
  mints = n ∷ rest.mints;
  types = mint_type ∷ rest.types;
}
sort_note (TransactionNote.freeze n) rest = record rest {
  freezes = n ∷ rest.freezes;
  types = freeze_type ∷ rest.types;
}

unfoldable pub sort_notes : List TransactionNote → Sorted
sort_notes [] = record { types = []; transfers = []; mints = []; freezes = []; burns = [] }
sort_notes (n ∷ ns) = sort_note n (sort_notes ns)

-- The notes and the burned openings of `from_cape_transactions`.
unfoldable pub notes_of : List CapeModelTxn → List TransactionNote × List RecordOpening
notes_of [] = ([], [])
notes_of (cap_txn note ∷ txns) = let rest = notes_of txns in (note ∷ rest.0, rest.1)
notes_of (burn xfr ro ∷ txns) =
    let rest = notes_of txns in (TransactionNote.transfer xfr ∷ rest.0, ro ∷ rest.1)

-- The notes that are left to `into_cape_transactions`.
pub record Remaining : Type 0 where
  pub transfers : List TransferNote
  pub mints : List MintNote
  pub freezes : List FreezeNote
  pub burns : List BurnNote

-- One note of the type, and what is left; `none` if there is no such note.
unfoldable pub next_txn : NoteType → Remaining → Option (CapeModelTxn × Remaining)
next_txn transfer_type r = elim r.transfers [
  | [] ↦ none
  | n ∷ ns ↦ some (cap_txn (TransactionNote.transfer n), record r { transfers = ns })
]
next_txn mint_type r = elim r.mints [
  | [] ↦ none
  | n ∷ ns ↦ some (cap_txn (TransactionNote.mint n), record r { mints = ns })
]
next_txn freeze_type r = elim r.freezes [
  | [] ↦ none
  | n ∷ ns ↦ some (cap_txn (TransactionNote.freeze n), record r { freezes = ns })
]
next_txn burn_type r = elim r.burns [
  | [] ↦ none
  | n ∷ ns ↦ some (burn n.transfer_note n.burned_ro, record r { burns = ns })
]

abbrev pub Call : Type 0 → Type 0
Call A = Outcome BlockError A

-- The `map` over the types; the first type without a note makes the whole fail.
unfoldable pub next_txns : List NoteType → Remaining → Call (List CapeModelTxn)
next_txns [] r = ok []
next_txns (t ∷ ts) r = do
  first ← ok_or (next_txn t r) malformed_block
  others ← next_txns ts first.1
  ok (first.0 ∷ others)

-- The notes of each type are taken from the end.
unfoldable pub into_cape_transactions : CapeBlock → Call (List CapeModelTxn × UserAddress)
into_cape_transactions b = do
  txns ← next_txns b.note_types (record {
    transfers = reverse b.transfer_notes;
    mints = reverse b.mint_notes;
    freezes = reverse b.freeze_notes;
    burns = reverse b.burn_notes;
  })
  ok (txns, b.miner_addr)

module _ (lib : CapLib) where
  abbrev opens : Option ℕ → RecordOpening → Bool
  opens none ro = false
  opens (some rc) ro = rc == lib.record_commitment ro

  unfoldable pub burn_note : TransferNote → RecordOpening → Call BurnNote
  burn_note note ro = do
    guard
        (not (ltb (length note.output_commitments) 2)
          && (opens (get_elem? note.output_commitments 1) ro
              && ((length note.extra_proof_bound_data == 32) && is_burn_note note)))
        malformed_burned_note
    ok (record { transfer_note = note; burned_ro = ro })

  -- `Result::unwrap`
  abbrev pub unwrap_note : Call BurnNote → Call BurnNote
  unwrap_note (ok b) = ok b
  unwrap_note (err e) = panic
  unwrap_note panic = panic

  -- `unwrap` on each of the zipped pairs.
  unfoldable pub burn_notes_of : List TransferNote → List RecordOpening → Call (List BurnNote)
  burn_notes_of [] ros = ok []
  burn_notes_of (n ∷ ns) [] = ok []
  burn_notes_of (n ∷ ns) (ro ∷ ros) = do
    b ← unwrap_note (burn_note n ro)
    bs ← burn_notes_of ns ros
    ok (b ∷ bs)

  unfoldable pub generate : List TransactionNote → List RecordOpening → UserAddress → Call CapeBlock
  generate notes burned_ros miner = do
    let s = sort_notes notes
    guard (length s.burns == length burned_ros) mismatched_openings
    burns ← burn_notes_of s.burns burned_ros
    ok (record {
      miner_addr = miner;
      note_types = s.types;
      transfer_notes = s.transfers;
      mint_notes = s.mints;
      freeze_notes = s.freezes;
      burn_notes = burns;
    })

  unfoldable pub from_cape_transactions : List CapeModelTxn → UserAddress → Call CapeBlock
  from_cape_transactions txns miner = let r = notes_of txns in generate r.0 r.1 miner
