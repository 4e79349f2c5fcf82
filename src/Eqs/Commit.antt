-- ===== src/Eqs/Commit.antt =====
-- The handling of a `BlockCommitted` event in `EthPolling::check_range` of eqs/src/eth_polling.rs.
use cape.Base.{
  ℕ, ◌+◌, ◌%◌, Option, none, some, List, [], ◌∷◌, ◌++◌, map, Outcome, ok, unwrap, assert, ◌>>=◌,
  ◌>>◌, ◌==◌, nat_eq, pair_eq, if◌then◌else◌, length, get_elem?,
}
use cape.Base.Map.{insert}
use cape.Cap.{Nullifier, RecordCommitment, TransactionNote, u64_mod}
use cape.Model.Types.{CapeModelTxn, cap_txn, burn}
use cape.Ledger.{CapeTransition, transaction, output_commitments, proven_nullifiers, kind}
use cape.Eqs.Types.{
  EqsLib, ReceiverMemo, Signature, EthEventIndex, IoError, LedgerEvent, commit_event, memos_event,
  QueryResultState, EthPolling,
}

-- The note whose signature is checked.
unfoldable pub note_of : CapeModelTxn → TransactionNote
note_of (cap_txn note) = note
note_of (burn xfr ro) = TransactionNote.transfer xfr

-- `zip` of the transactions and the memos, which are as many.
abbrev pub with_memos :
    List CapeModelTxn
    → List (List ReceiverMemo × Signature)
    → List (CapeModelTxn × List ReceiverMemo × Signature)
with_memos [] ms = []
with_memos (tx ∷ txs) [] = []
with_memos (tx ∷ txs) ((memos, sig) ∷ ms) = (tx, memos, sig) ∷ with_memos txs ms

module _ (lib : EqsLib) where
  abbrev pub Call : Type 0 → Type 0
  Call A = Outcome IoError A

  abbrev pub Output : Type 0
  Output = ReceiverMemo × RecordCommitment × ℕ × lib.MerklePath

  abbrev pub Event : Type 0
  Event = LedgerEvent lib.MerklePath

  abbrev pub QueryState : Type 0
  QueryState = QueryResultState lib.cap_lib.Frontier lib.MerklePath

  abbrev pub Polling : Type 0
  Polling = EthPolling lib.cap_lib.Frontier lib.MerklePath

  -- `flat_map(|txn| txn.output_commitments())`
  unfoldable pub all_output_commitments : List CapeTransition → Call (List RecordCommitment)
  all_output_commitments [] = ok []
  all_output_commitments (t ∷ ts) = do
    first ← unwrap (output_commitments lib.cap_lib t)
    others ← all_output_commitments ts
    ok (first ++ others)

  -- The loop that pushes the commitments and notes their uids.
  unfoldable pub push_commitments : lib.Tree → List RecordCommitment → lib.Tree × List ℕ
  push_commitments tree [] = (tree, [])
  push_commitments tree (rc ∷ rcs) =
      let rest = push_commitments (lib.push_leaf tree rc) rcs in
      (rest.0, lib.num_leaves tree ∷ rest.1)

  unfoldable pub leaf_paths : lib.Tree → List ℕ → Call (List lib.MerklePath)
  leaf_paths tree [] = ok []
  leaf_paths tree (uid ∷ uids) = do
    path ← unwrap (lib.leaf_path tree uid)
    paths ← leaf_paths tree uids
    ok (path ∷ paths)

  -- The tree, the uids and the paths; with no tree there are none.
  unfoldable pub extend_tree :
      Option lib.Tree
      → List RecordCommitment
      → Call (Option lib.Tree × List ℕ × List lib.MerklePath)
  extend_tree none rcs = ok (none, [], [])
  extend_tree (some tree) rcs =
      let r = push_commitments tree rcs in leaf_paths r.0 r.1 >>= λ paths. ok (some r.0, r.1, paths)

  -- The outputs of one transaction's memos from an index on; an index out of range panics.
  unfoldable pub memo_outputs :
      List RecordCommitment
      → List ℕ
      → List lib.MerklePath
      → ℕ
      → List ReceiverMemo
      → Call (List Output)
  memo_outputs rcs uids paths index [] = ok []
  memo_outputs rcs uids paths index (memo ∷ memos) = do
    rc ← unwrap (get_elem? rcs index)
    uid ← unwrap (get_elem? uids index)
    path ← unwrap (get_elem? paths index)
    others ← memo_outputs rcs uids paths (index + 1) memos
    ok ((memo, rc, uid, path) ∷ others)

  -- The events of the transactions whose signature over the memos is valid. The index is moved on
  -- by the memos of these alone.
  unfoldable pub memo_events :
      ℕ
      → List RecordCommitment
      → List ℕ
      → List lib.MerklePath
      → ℕ
      → ℕ
      → List (CapeModelTxn × List ReceiverMemo × Signature)
      → Call (List Event)
  memo_events block_id rcs uids paths txn_id index [] = ok []
  memo_events block_id rcs uids paths txn_id index ((tx, memos, sig) ∷ rest) =
      let skipped = memo_events block_id rcs uids paths (txn_id + 1) index rest in
      let following =
        memo_events block_id rcs uids paths (txn_id + 1) (index + length memos) rest in
      let emitted = memo_outputs rcs uids paths index memos >>= λ outputs. following >>= λ events.
      ok (
        memos_event outputs
          (some (block_id, txn_id, lib.commit (transaction tx), kind (transaction tx)))
        ∷ events) in
      if lib.verify_memos (note_of tx) memos sig then emitted else skipped

  -- One round of the loop that fills the indices.
  unfoldable pub index_transition : ℕ → ℕ → ℕ → CapeTransition → QueryState → QueryState
  index_transition block_id txn_id uid t s = record s {
    transaction_by_id =
        insert (block_id, txn_id)
          (record {
            block_id = block_id;
            txn_id = txn_id;
            output_start = uid;
            output_size = lib.output_len t;
            transition = t;
          })
          s.transaction_by_id;
    transaction_id_by_hash = insert (lib.commit t) (block_id, txn_id) s.transaction_id_by_hash;
    nullifiers = map (λ (n : Nullifier × Unit {0}). n.0) (proven_nullifiers t) ++ s.nullifiers;
  }

  -- The loop; `uids[record_index]` panics out of range.
  unfoldable pub index_transitions :
      ℕ → List ℕ → ℕ → ℕ → List CapeTransition → QueryState → Call QueryState
  index_transitions block_id uids txn_id record_index [] s = ok s
  index_transitions block_id uids txn_id record_index (t ∷ ts) s = do
    uid ← unwrap (get_elem? uids record_index)
    index_transitions block_id uids (txn_id + 1) (record_index + lib.output_len t) ts
        (index_transition block_id txn_id uid t s)

  -- The tree of the updated state.
  unfoldable pub update_tree : Option lib.Tree → QueryState → QueryState
  update_tree none s = s
  update_tree (some tree) s = record s {
    ledger_state = record (s.ledger_state) {
      record_merkle_commitment = lib.commitment tree;
      record_merkle_frontier = lib.frontier tree;
    };
  }

  abbrev pub push_events : QueryState → List Event → QueryState
  push_events s es = record s { events = s.events ++ es }

  -- The end of the handler: the next block, and how far the events have been processed.
  abbrev pub report : Polling → EthEventIndex → QueryState → Polling
  report p current_index indexed = record p {
    pending_commit_event = [];
    query_result_state = record indexed {
      ledger_state = record (indexed.ledger_state) {
        state_number = (indexed.ledger_state.state_number + 1) % u64_mod;
      };
      last_reported_index = some current_index;
    };
    last_event_index = some current_index;
  }

  unfoldable pub handle_block_committed :
      Option (List CapeModelTxn)
      → Option (List (List ReceiverMemo × Signature))
      → EthEventIndex
      → Polling
      → Call Polling
  handle_block_committed decoded fetched current_index p = do
    memos ← unwrap fetched
    model_txns ← unwrap decoded
    assert (length model_txns == length memos)
    let transitions = map transaction model_txns
    let pending_commit = transitions ++ p.pending_commit_event
    output_record_commitments ← all_output_commitments pending_commit
    let s = p.query_result_state
    let block_id = s.ledger_state.state_number
    tree ←
        extend_tree
          (lib.restore_from_frontier s.ledger_state.record_merkle_commitment
            s.ledger_state.record_merkle_frontier)
          output_record_commitments
    memo_evs ←
        memo_events block_id output_record_commitments tree.1 tree.2 0 0
          (with_memos model_txns memos)
    indexed ← index_transitions block_id tree.1 0 0 transitions (
        update_tree tree.0
          (push_events s (commit_event pending_commit block_id (block_id + 1) ∷ memo_evs)))
    ok (report p current_index indexed)
