-- ===== src/Eqs/Handled.antt =====
-- The steps of a `BlockCommitted` event that is handled without a panic (eqs/src/eth_polling.rs).
use cape.Base.{
  ℕ, ◌+◌, ◌≡◌, refl, Option, some, List, ◌∷◌, ◌++◌, map, arith, ok, unwrap, assert, >>=-eq-ok,
  length, ◌==◌, nat_eq,
}
use cape.Cap.{RecordCommitment}
use cape.Model.Types.{CapeModelTxn}
use cape.Ledger.{transaction}
use cape.Eqs.Types.{EqsLib, EthEventIndex, ReceiverMemo, Signature, commit_event}
use cape.Eqs.Commit.{
  Event, QueryState, Polling, all_output_commitments, extend_tree, memo_events, with_memos,
  index_transitions, update_tree, push_events, report, handle_block_committed,
}

module _ (lib : EqsLib) where
  -- The values in between, and what each step has made of them.
  pub record Handled (decoded : Option (List CapeModelTxn))
      (fetched : Option (List (List ReceiverMemo × Signature))) (i : EthEventIndex)
      (p q : Polling lib) : Type 0 where
    pub memos : List (List ReceiverMemo × Signature)
    pub txns : List CapeModelTxn
    pub rcs : List RecordCommitment
    pub tree : Option lib.Tree × List ℕ × List lib.MerklePath
    pub evs : List (Event lib)
    pub noted : QueryState lib
    pub indexed : QueryState lib
    pub fetch : fetched ≡ some memos
    pub decode : decoded ≡ some txns
    pub as_many : length txns ≡ length memos
    pub outputs :
        all_output_commitments lib (map transaction txns ++ p.pending_commit_event) ≡ ok rcs
    pub extended :
        extend_tree lib
          (lib.restore_from_frontier p.query_result_state.ledger_state.record_merkle_commitment
            p.query_result_state.ledger_state.record_merkle_frontier)
          rcs
        ≡ ok tree
    pub made :
        memo_events lib p.query_result_state.ledger_state.state_number rcs tree.1 tree.2 0 0
          (with_memos txns memos)
        ≡ ok evs
    pub noting :
        noted
        ≡ update_tree lib tree.0 (
            push_events lib p.query_result_state (
              commit_event
                (map transaction txns ++ p.pending_commit_event)
                p.query_result_state.ledger_state.state_number
                (p.query_result_state.ledger_state.state_number + 1)
              ∷ evs))
    pub filled :
        index_transitions lib p.query_result_state.ledger_state.state_number tree.1 0 0
          (map transaction txns)
          noted
        ≡ ok indexed
    pub result : q ≡ report lib p i indexed

  pub handle_block_committed_lem :
      (decoded : Option (List CapeModelTxn))
      (fetched : Option (List (List ReceiverMemo × Signature))) (i : EthEventIndex)
      (p q : Polling lib)
      → handle_block_committed lib decoded fetched i p ≡ ok q
      → Handled decoded fetched i p q
  unfolding handle_block_committed
  handle_block_committed_lem decoded fetched i p q h =
      let (memos, fetch, h1) = >>=-eq-ok (unwrap fetched) _ h in
      let (txns, decode, h2) = >>=-eq-ok (unwrap decoded) _ h1 in
      let (_, same, h3) = >>=-eq-ok (assert (length txns == length memos)) _ h2 in
      let (rcs, outs, h4) =
        >>=-eq-ok (all_output_commitments lib (map transaction txns ++ p.pending_commit_event)) _
          h3 in
      let s = p.query_result_state in
      let restored =
        lib.restore_from_frontier s.ledger_state.record_merkle_commitment
          s.ledger_state.record_merkle_frontier in
      let (tree, extended, h5) = >>=-eq-ok (extend_tree lib restored rcs) _ h4 in
      let block_id : ℕ = s.ledger_state.state_number in
      let (evs, made, h6) =
        >>=-eq-ok (memo_events lib block_id rcs tree.1 tree.2 0 0 (with_memos txns memos)) _ h5 in
      let noted : QueryState lib = update_tree lib tree.0 (
        push_events lib s (
          commit_event (map transaction txns ++ p.pending_commit_event) block_id (block_id + 1)
          ∷ evs)) in
      let (indexed, filled, h7) =
        >>=-eq-ok (index_transitions lib block_id tree.1 0 0 (map transaction txns) noted) _ h6 in
      record {
        memos = memos;
        txns = txns;
        rcs = rcs;
        tree = tree;
        evs = evs;
        noted = noted;
        indexed = indexed;
        fetch = ground arith;
        decode = ground arith;
        as_many = ground arith;
        outputs = outs;
        extended = extended;
        made = made;
        noting = refl;
        filled = filled;
        result = ground arith;
      }
