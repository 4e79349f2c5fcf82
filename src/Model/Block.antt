-- ===== src/Model/Block.antt =====
-- The operation `SubmitBlock` of `submit_operations` in contracts/rust/src/model.rs, in the steps in
-- which the code runs it: the filter, the checks of one transaction, the loop, the batch
-- verification and the update of the record tree.
use cape.Base.{
  ℕ, Bool, true, false, not, ◌||◌, Option, none, some, List, [], ◌∷◌, ◌++◌, Outcome, ok, err, guard,
  assert, unwrap, ok_or, ◌>>=◌, ◌>>◌, ◌==◌, nat_eq, list_eq, if◌then◌else◌, leb, length, get_elem?,
  remove, drop_last, filter, all,
}
use cape.Base.Map.{lookup}
use cape.Base.Fresh.{contains}
use cape.Cap.{
  Nullifier, NodeValue, RecordCommitment, VerKey, AssetDefinition, TransactionNote, CapLib,
  MerkleCommitment, asset_definition_eq,
}
use cape.Model.Types.{
  EthereumAddr, CapeModelTxn, cap_txn, burn, CapeModelEthEffect, send_erc20, emit, block_committed,
  CapeValidationError, invalid_cap_def, unregistered_erc20, nullifier_already_exists,
  incorrect_burn_opening, incorrect_burn_field, unsupported_burn_size, bad_merkle_root,
  bad_merkle_path, crypto_error, cape_num_roots,
}
use cape.Model.Notes.{nullifiers, extract_burn_dst}
use cape.Model.State.{CapeLedgerState, CapeContractState}
use cape.Model.Assets.{State, Result}

-- `is_cap_asset_def_valid`: the check is left to the library.
unfoldable pub is_cap_asset_def_valid : AssetDefinition → Bool
is_cap_asset_def_valid def = true

-- `t.nullifiers().into_iter().all(|x| !new_state.nullifiers.contains(&x))`
unfoldable pub is_unspent : List Nullifier → CapeModelTxn → Bool
is_unspent spent t = all (λ x. not (contains spent x)) (nullifiers t)

-- The loop that publishes the nullifiers of one transaction.
unfoldable pub insert_nullifiers :
    List Nullifier → List Nullifier → Outcome CapeValidationError (List Nullifier)
insert_nullifiers [] spent = ok spent
insert_nullifiers (n ∷ ns) spent =
    let rest = insert_nullifiers ns (n ∷ spent) in
    if contains spent n then err (nullifier_already_exists n) else rest

-- What the checks of one transaction hand to the loop: the tuple of the code, and the effect that
-- a burn pushes.
pub record Checked : Type 0 where
  pub vkey : VerKey
  pub merkle_root : NodeValue
  pub new_records : List RecordCommitment
  pub note : TransactionNote
  pub sent : List CapeModelEthEffect

-- The address of a valid burn, and nothing for all else.
abbrev pub burn_dst : Option (Option EthereumAddr) → Option EthereumAddr
burn_dst (some (some dst)) = some dst
burn_dst (some none) = none
burn_dst none = none

-- `Some(None) == field`
abbrev pub is_no_burn : Option (Option EthereumAddr) → Bool
is_no_burn (some none) = true
is_no_burn (some (some dst)) = false
is_no_burn none = false

-- `merkle_root != record_merkle_commitment.root_value && !past_record_merkle_roots.contains(..)`,
-- negated.
unfoldable pub is_recent_root : {F : Type 0} → CapeLedgerState F → NodeValue → Bool
is_recent_root ledger root =
    (root == ledger.record_merkle_commitment.root_value)
    || contains ledger.past_record_merkle_roots root

-- `pop_back` if the queue is full, and `push_front`.
unfoldable pub push_root : NodeValue → List NodeValue → List NodeValue
push_root root past = root ∷ (if leb cape_num_roots (length past) then drop_last past else past)

-- The variables of the loop over the transactions.
pub record Loop (F : Type 0) : Type 0 where
  pub new_state : CapeContractState F
  pub effects : List CapeModelEthEffect
  pub verif_keys : List VerKey
  pub merkle_roots : List NodeValue
  pub records_to_insert : List RecordCommitment
  pub notes : List TransactionNote

module _ (lib : CapLib) where
  -- The checks by the kind of the transaction. `checked_sub(..).unwrap()` panics on underflow, and
  -- its result is dropped, as in the code.
  unfoldable pub check_txn : State lib → CapeModelTxn → Outcome CapeValidationError Checked
  check_txn s (cap_txn (TransactionNote.mint mint)) = do
    guard (is_cap_asset_def_valid mint.mint_asset_def) (invalid_cap_def mint.mint_asset_def)
    ok (record {
      vkey = s.verif_crs.mint;
      merkle_root = mint.merkle_root;
      new_records = mint.chg_comm ∷ mint.mint_comm ∷ [];
      note = TransactionNote.mint mint;
      sent = [];
    })
  check_txn s (burn xfr ro) = do
    let num_inputs = length xfr.inputs_nullifiers
    let num_outputs = length xfr.output_commitments
    guard (leb 2 num_outputs) (unsupported_burn_size num_inputs num_outputs)
    expected_comm ← unwrap (get_elem? xfr.output_commitments 1)
    guard (expected_comm == lib.record_commitment ro) (incorrect_burn_opening expected_comm ro)
    entry ← ok_or (lookup ro.asset_def s.erc20_registrar) (unregistered_erc20 ro.asset_def)
    dst_addr ← ok_or (burn_dst (extract_burn_dst xfr)) (incorrect_burn_field xfr)
    deposited ← unwrap (lookup entry.0 s.erc20_deposited)
    assert (leb ro.amount deposited)
    verif_key ←
        ok_or (s.verif_crs.xfr num_inputs num_outputs)
          (unsupported_burn_size num_inputs num_outputs)
    output_commitments ← unwrap (remove xfr.output_commitments 1)
    ok (record {
      vkey = verif_key;
      merkle_root = xfr.merkle_root;
      new_records = output_commitments;
      note = TransactionNote.transfer xfr;
      sent = send_erc20 entry.0 ro.amount dst_addr ∷ [];
    })
  check_txn s (cap_txn (TransactionNote.transfer note)) = do
    let num_inputs = length note.inputs_nullifiers
    let num_outputs = length note.output_commitments
    guard (is_no_burn (extract_burn_dst note)) (incorrect_burn_field note)
    verif_key ←
        ok_or (s.verif_crs.xfr num_inputs num_outputs)
          (unsupported_burn_size num_inputs num_outputs)
    ok (record {
      vkey = verif_key;
      merkle_root = note.merkle_root;
      new_records = note.output_commitments;
      note = TransactionNote.transfer note;
      sent = [];
    })
  check_txn s (cap_txn (TransactionNote.freeze note)) = do
    let num_inputs = length note.input_nullifiers
    let num_outputs = length note.output_commitments
    verif_key ←
        ok_or (s.verif_crs.freeze num_inputs num_outputs)
          (unsupported_burn_size num_inputs num_outputs)
    ok (record {
      vkey = verif_key;
      merkle_root = note.merkle_root;
      new_records = note.output_commitments;
      note = TransactionNote.freeze note;
      sent = [];
    })

  -- One round of the loop.
  unfoldable pub process_txn :
      Loop lib.Frontier → CapeModelTxn → Outcome CapeValidationError (Loop lib.Frontier)
  process_txn l t = do
    spent ← insert_nullifiers (nullifiers t) l.new_state.nullifiers
    let s = record (l.new_state) { nullifiers = spent }
    c ← check_txn s t
    guard (is_recent_root s.ledger c.merkle_root) bad_merkle_root
    ok (record {
      new_state = s;
      effects = l.effects ++ c.sent;
      verif_keys = l.verif_keys ++ (c.vkey ∷ []);
      merkle_roots = l.merkle_roots ++ (c.merkle_root ∷ []);
      records_to_insert = l.records_to_insert ++ c.new_records;
      notes = l.notes ++ (c.note ∷ []);
    })

  unfoldable pub process_txns :
      Loop lib.Frontier → List CapeModelTxn → Outcome CapeValidationError (Loop lib.Frontier)
  process_txns l [] = ok l
  process_txns l (t ∷ ts) = process_txn l t >>= λ l'. process_txns l' ts

  -- `map_err(..)?` on the answer of the library.
  abbrev verified : {A : Type 0} → Option ℕ → A → Outcome CapeValidationError A
  verified none a = ok a
  verified (some e) a = err (crypto_error e)

  -- The batch verification, which an empty block skips.
  unfoldable pub verify_batch :
      Loop lib.Frontier → List CapeModelTxn → Outcome CapeValidationError (Unit {0})
  verify_batch l [] = ok tt
  verify_batch l (t ∷ ts) = do
    assert (length (t ∷ ts) == length l.notes)
    assert (length (t ∷ ts) == length l.verif_keys)
    assert (length (t ∷ ts) == length l.merkle_roots)
    verified
        (lib.txn_batch_verify l.notes l.merkle_roots l.new_state.ledger.state_number l.verif_keys)
        tt

  unfoldable pub push_all : lib.Builder → List RecordCommitment → lib.Builder
  push_all builder [] = builder
  push_all builder (rc ∷ rcs) = push_all (lib.push builder rc) rcs

  -- The state after the tree has been rebuilt.
  unfoldable pub commit_block : State lib → lib.Frontier × MerkleCommitment → State lib
  commit_block s (frontier, commitment) = record s {
    erc20_deposits = [];
    ledger = record (s.ledger) {
      record_merkle_commitment = commitment;
      record_merkle_frontier = frontier;
      past_record_merkle_roots =
          push_root s.ledger.record_merkle_commitment.root_value s.ledger.past_record_merkle_roots;
    };
  }

  -- From the batch verification to the end.
  unfoldable pub finish_block : Loop lib.Frontier → List CapeModelTxn → Result lib
  finish_block l filtered_txns = do
    let s = l.new_state
    verify_batch l filtered_txns
    builder ←
        ok_or (lib.from_frontier s.ledger.record_merkle_commitment s.ledger.record_merkle_frontier)
          bad_merkle_path
    ok (
      commit_block s (
          lib.into_frontier_and_commitment
            (push_all builder (l.records_to_insert ++ s.erc20_deposits))),
      l.effects ++ (emit (block_committed filtered_txns s.erc20_deposits) ∷ []),
    )

  abbrev pub start : State lib → Loop lib.Frontier
  start s = record {
    new_state = s;
    effects = [];
    verif_keys = [];
    merkle_roots = [];
    records_to_insert = [];
    notes = [];
  }

  unfoldable pub submit_block : List CapeModelTxn → State lib → Result lib
  submit_block txns s =
      let filtered_txns = filter (is_unspent s.nullifiers) txns in
      process_txns (start s) filtered_txns >>= λ l. finish_block l filtered_txns
