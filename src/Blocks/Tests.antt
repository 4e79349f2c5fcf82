-- ===== src/Blocks/Tests.antt =====
-- Blocks of a few transactions, and the theorem at one of them.
use cape.Base.{
  Option, arith, if◌then◌else◌, ltb, length, ◌≤◌, ◌*◌, ◌++◌, err, false, reverse, ℕ, ◌≡◌, refl,
  true, none, some, List, [], ◌∷◌, map, ok,
}
use cape.Cap.{RecordOpening, CapLib, TransferNote, MintNote, TransactionNote}
use cape.Model.Types.{EthereumAddr, CapeModelTxn, cap_txn}
use cape.Model.Notes.{extract_burn_dst}
use cape.Blocks.{
  BurnNote, dom_sep_cape_burn, burn_note, CapeBlock, from_cape_transactions, generate, sort_notes,
  sort_note, notes_of, is_burn_note, burn_notes_of, into_cape_transactions, next_txns, next_txn,
  transfer_type, mint_type,
}
use cape.Blocks.Recipients.{
  TextLib, RecipientError, withdraw_recipient, withdraw_recipient-burn_note,
}
use cape.Blocks.Order.{
  type_of, transfers_in, mints_in, freezes_in, burns_in, into_cape_transactions-reversed,
}

abbrev any_lib : CapLib
any_lib = record {
  Frontier = Unit {0};
  Builder = Unit {0};
  from_frontier = λ commitment leaves. some tt;
  push = λ leaves rc. tt;
  into_frontier_and_commitment =
      λ leaves. (tt, record { root_value = 0; height = 24; num_leaves = 0 });
  record_commitment = λ ro. ro.amount;
  encode_policy = λ policy. [];
  verify_foreign = λ code description. true;
  output_commitments = λ note. [];
  txn_batch_verify = λ notes roots height keys. none;
}

abbrev note : ℕ → TransferNote
note n = record {
  inputs_nullifiers = n ∷ [];
  output_commitments = [];
  merkle_root = 0;
  valid_until = 10;
  extra_proof_bound_data = [];
  proof = n;
}

abbrev mint : MintNote
mint = record {
  input_nullifier = 7;
  chg_comm = 1;
  mint_comm = 2;
  mint_asset_def = record { code = 1; policy_ref = 0 };
  merkle_root = 0;
  proof = 0;
}

abbrev txn : ℕ → CapeModelTxn
txn n = cap_txn (TransactionNote.transfer (note n))

abbrev txns : List CapeModelTxn
txns = txn 1 ∷ cap_txn (TransactionNote.mint mint) ∷ txn 2 ∷ []

abbrev block : CapeBlock
block = record {
  miner_addr = 5;
  note_types = transfer_type ∷ mint_type ∷ transfer_type ∷ [];
  transfer_notes = note 1 ∷ note 2 ∷ [];
  mint_notes = mint ∷ [];
  freeze_notes = [];
  burn_notes = [];
}

-- The two transfers have changed places.
swapped :
    into_cape_transactions block ≡ ok (txn 2 ∷ cap_txn (TransactionNote.mint mint) ∷ txn 1 ∷ [], 5)
unfolding into_cape_transactions next_txns next_txn
swapped = refl

into_cape_transactions-reversed_example :
    (ts : List CapeModelTxn) × (into_cape_transactions block ≡ ok (ts, 5))
    × (map type_of ts ≡ map type_of txns)
    × (transfers_in ts ≡ reverse (transfers_in txns))
    × (mints_in ts ≡ reverse (mints_in txns))
    × (freezes_in ts ≡ reverse (freezes_in txns))
    × (burns_in ts ≡ reverse (burns_in txns))
unfolding from_cape_transactions generate sort_notes sort_note notes_of is_burn_note burn_notes_of
into_cape_transactions-reversed_example =
    into_cape_transactions-reversed any_lib txns 5 block (refl, (refl, tt)) refl

-- The length of a text is looked at alone.
abbrev parse : List ℕ → Option (List ℕ)
parse text = if ltb (length text) 40 then none else some text

long_enough :
    (bytes text addr : List ℕ)
    → some bytes ≡ some text
    → parse text ≡ some addr
    → 2 * 20 ≤ length bytes
long_enough bytes text addr same parsed = ground arith

-- Text is its bytes.
abbrev text_lib : TextLib
text_lib = record {
  Text = List ℕ;
  from_utf8 = λ bytes. some bytes;
  parse_address = parse;
  digits = long_enough;
}

abbrev burned : TransferNote
burned = record (note 1) {
  output_commitments = 3 ∷ 9 ∷ [];
  extra_proof_bound_data =
      dom_sep_cape_burn
      ++ (1 ∷ 2 ∷ 3 ∷ 4 ∷ 5 ∷ 6 ∷ 7 ∷ 8 ∷ 9 ∷ 10 ∷ 11 ∷ 12 ∷ 13 ∷ 14 ∷ 15 ∷ 16 ∷ 17 ∷ 18 ∷ 19 ∷ 20
          ∷ []);
}

abbrev burned_opening : RecordOpening
burned_opening = record {
  amount = 9;
  asset_def = record { code = 1; policy_ref = 0 };
  pub_key = 2;
  freeze_flag = false;
  blind = 0;
}

abbrev generated : BurnNote
generated = record { transfer_note = burned; burned_ro = burned_opening }

withdraw_recipient-burn_note_example :
    (dst : EthereumAddr) × (extract_burn_dst burned ≡ some (some dst))
    × (length dst ≡ 20)
    × (e : RecipientError) × (withdraw_recipient text_lib generated ≡ err e)
unfolding burn_note is_burn_note
withdraw_recipient-burn_note_example =
    withdraw_recipient-burn_note any_lib text_lib burned burned_opening generated refl
