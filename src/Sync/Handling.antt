-- ===== src/Sync/Handling.antt =====
-- What the query service of eqs/src/eth_polling.rs holds of the record tree after a block, and the
-- handling of one list of events after another.
use cape.Base.{
  ℕ, ◌+◌, ◌≡◌, refl, subst, Bool, Option, some, List, [], ◌∷◌, ◌++◌, map, arith, ok, >>=-eq-ok,
  unwrap, get_elem?,
}
use cape.Cap.{asset_definition_eq, RecordOpening, RecordCommitment}
use cape.Model.Types.{EthereumAddr, Erc20Code, CapeModelTxn}
use cape.Ledger.{CapeTransition, transaction, wrap_transition}
use cape.Ledger
use cape.Eqs.Types.{EqsLib, EthEventIndex, CapeEvent, ReceiverMemo, Signature}
use cape.Eqs.Commit.{
  QueryState, Polling, all_output_commitments, handle_block_committed, extend_tree, update_tree,
  index_transitions, index_transition, push_commitments,
}
use cape.Eqs.Handled.{handle_block_committed_lem}
use cape.Eqs.Polling.{process_events, process_event}

module _ (lib : EqsLib) where
  index_transitions-ledger_state :
      (block_id : ℕ) (uids : List ℕ) (txn_id record_index : ℕ) (ts : List CapeTransition)
      (s s' : QueryState lib)
      → index_transitions lib block_id uids txn_id record_index ts s ≡ ok s'
      → s'.ledger_state ≡ s.ledger_state
  unfolding index_transitions index_transition
  index_transitions-ledger_state block_id uids txn_id record_index [] s s' h = ground arith
  index_transitions-ledger_state block_id uids txn_id record_index (t ∷ ts) s s' h =
      let (uid, at, rest) = >>=-eq-ok (unwrap (get_elem? uids record_index)) _ h in
      index_transitions-ledger_state block_id uids (txn_id + 1) (record_index + lib.output_len t) ts
        (index_transition lib block_id txn_id uid t s) s' rest

  pub extend_tree-eq-some :
      (t : lib.Tree) (rcs : List RecordCommitment)
      (r : Option lib.Tree × List ℕ × List lib.MerklePath)
      → extend_tree lib (some t) rcs ≡ ok r
      → r.0 ≡ some (push_commitments lib t rcs).0
  unfolding extend_tree
  extend_tree-eq-some t rcs r h = ground arith

  pub wrap-outputs :
      (code : Erc20Code) (src : EthereumAddr) (ro : RecordOpening)
      → all_output_commitments lib (wrap_transition code src ro ∷ [])
        ≡ ok (lib.cap_lib.record_commitment ro ∷ [])
  unfolding all_output_commitments Ledger.output_commitments
  wrap-outputs code src ro = refl

  -- The tree that a handled block leaves in the service.
  pub handle_block_committed-tree :
      (ts : List CapeModelTxn) (fetched : Option (List (List ReceiverMemo × Signature)))
      (i : EthEventIndex) (p q : Polling lib) (t : lib.Tree) (rcs : List RecordCommitment)
      → handle_block_committed lib (some ts) fetched i p ≡ ok q
      → lib.restore_from_frontier p.query_result_state.ledger_state.record_merkle_commitment
          p.query_result_state.ledger_state.record_merkle_frontier
        ≡ some t
      → all_output_commitments lib (map transaction ts ++ p.pending_commit_event) ≡ ok rcs
      → let u = (push_commitments lib t rcs).0 in
        (q.query_result_state.ledger_state.record_merkle_commitment ≡ lib.commitment u)
        × (q.query_result_state.ledger_state.record_merkle_frontier ≡ lib.frontier u)
        × (q.pending_commit_event ≡ [])
        × (q.last_event_index ≡ some i)
  unfolding update_tree
  handle_block_committed-tree ts fetched i p q t rcs h restored outputs =
      let v = handle_block_committed_lem lib (some ts) fetched i p q h in
      let same : v.txns ≡ ts = let d = v.decode in ground arith in
      let outs : all_output_commitments lib (map transaction ts ++ p.pending_commit_event)
          ≡ ok v.rcs =
        subst
          (λ us.
            all_output_commitments lib (map transaction us ++ p.pending_commit_event) ≡ ok v.rcs)
          same v.outputs in
      let rcs_same : v.rcs ≡ rcs = ground arith in
      let grown : v.tree.0 ≡ some (push_commitments lib t rcs).0 =
        extend_tree-eq-some t rcs v.tree (
          subst (λ o. extend_tree lib o rcs ≡ ok v.tree) restored
            (subst
              (λ cs.
                extend_tree lib
                  (lib.restore_from_frontier
                    p.query_result_state.ledger_state.record_merkle_commitment
                    p.query_result_state.ledger_state.record_merkle_frontier)
                  cs
                ≡ ok v.tree)
              rcs_same v.extended)) in
      let kept : v.indexed.ledger_state ≡ v.noted.ledger_state =
        index_transitions-ledger_state p.query_result_state.ledger_state.state_number v.tree.1 0 0
          (map transaction v.txns) v.noted v.indexed v.filled in
      let noting = v.noting in
      let result = v.result in (ground arith, ground arith, ground arith, ground arith)

  pub process_events-append :
      (es fs : List (EthEventIndex × CapeEvent)) (x z : Polling lib × Bool)
      → process_events lib (es ++ fs) x ≡ ok z
      → (y : Polling lib × Bool) × (process_events lib es x ≡ ok y)
        × (process_events lib fs y ≡ ok z)
  unfolding process_events
  process_events-append [] fs x z h = (x, refl, h)
  process_events-append (e ∷ es) fs x z h =
      let (y, first, rest) = >>=-eq-ok (process_event lib e x) _ h in
      let (w, left, right) = process_events-append es fs y z rest in (w, ground arith, right)
