-- ===== src/Eqs/Index.antt =====
-- The indices that `EthPolling::check_range` of eqs/src/eth_polling.rs fills for a committed block.
use cape.Base.{
  ℕ, zero, suc, ◌+◌, ◌<◌, ◌≡◌, refl, ap, subst, ◌∙◌, Option, none, some, List, [], ◌∷◌, map, arith,
  ok, get_elem?, none≢some, length, unwrap, >>=-eq-ok, nat_eq, pair_eq,
}
use cape.Base.Map.{lookup, lookup-insert_self, lookup-insert_ne}
use cape.Cap.{RecordOpening, RecordCommitment}
use cape.Ledger.Uids.{range}
use cape.Model.Types.{CapeModelTxn}
use cape.Ledger.{CapeTransition, CommittedCapeTransition, transaction, faucet}
use cape.Eqs.Types.{EqsLib, EthEventIndex, ReceiverMemo, Signature}
use cape.Eqs.Commit.{
  QueryState, Polling, index_transition, index_transitions, handle_block_committed, update_tree,
  push_commitments, extend_tree,
}
use cape.Eqs.Polling.{handle_faucet}
use cape.Eqs.Handled.{handle_block_committed_lem}

module _ (lib : EqsLib) where
  -- The outputs of the first `k` transitions.
  abbrev pub outputs_before : ℕ → List CapeTransition → ℕ
  outputs_before zero ts = 0
  outputs_before (suc k) [] = 0
  outputs_before (suc k) (t ∷ ts) = lib.output_len t + outputs_before k ts

  -- A transition is found under its block and its position, with the uid of its first output.
  abbrev pub FoundAt : QueryState lib → ℕ → ℕ → List ℕ → ℕ → CapeTransition → Type 0
  FoundAt s block_id txn_id uids offset t =
      (c : CommittedCapeTransition) × (lookup (block_id, txn_id) s.transaction_by_id ≡ some c)
      × (c.transition ≡ t)
      × (c.output_size ≡ lib.output_len t)
      × (get_elem? uids offset ≡ some c.output_start)

  index_transitions_others :
      (block_id : ℕ) (uids : List ℕ) (txn_id record_index : ℕ) (ts : List CapeTransition)
      (s s' : QueryState lib) (id : ℕ × ℕ)
      → index_transitions lib block_id uids txn_id record_index ts s ≡ ok s'
      → ((id.0 ≡ block_id) → id.1 < txn_id)
      → lookup id s'.transaction_by_id ≡ lookup id s.transaction_by_id
  unfolding index_transitions index_transition
  index_transitions_others block_id uids txn_id record_index [] s s' id h out = ground arith
  index_transitions_others block_id uids txn_id record_index (t ∷ ts) s s' id h out =
      let (uid, at, rest) = >>=-eq-ok (unwrap (get_elem? uids record_index)) _ h in
      index_transitions_others block_id uids (txn_id + 1) (record_index + lib.output_len t) ts
        (index_transition lib block_id txn_id uid t s) s' id rest
        (λ e. let k : id.1 < txn_id = out e in omega arith)
      ∙ lookup-insert_ne id (block_id, txn_id) _ s.transaction_by_id
          (λ e.
            let same : id.1 ≡ txn_id = ap (λ (i : ℕ × ℕ). i.1) e in
            let k : id.1 < txn_id = out (ap (λ (i : ℕ × ℕ). i.0) e) in omega arith)

  index_transitions_lem :
      (block_id : ℕ) (uids : List ℕ) (txn_id record_index : ℕ) (ts : List CapeTransition)
      (s s' : QueryState lib) (k : ℕ) (t : CapeTransition)
      → index_transitions lib block_id uids txn_id record_index ts s ≡ ok s'
      → get_elem? ts k ≡ some t
      → FoundAt s' block_id (txn_id + k) uids (record_index + outputs_before k ts) t
  unfolding index_transitions index_transition
  index_transitions_lem block_id uids txn_id record_index [] s s' k t h at = absurd (none≢some at)
  index_transitions_lem block_id uids txn_id record_index (u ∷ ts) s s' zero t h at =
      let (uid, here, rest) = >>=-eq-ok (unwrap (get_elem? uids record_index)) _ h in
      let s1 : QueryState lib = index_transition lib block_id txn_id uid u s in
      let c : CommittedCapeTransition = record {
        block_id = block_id;
        txn_id = txn_id;
        output_start = uid;
        output_size = lib.output_len u;
        transition = u;
      } in
      let id : txn_id + 0 ≡ txn_id = omega arith in
      let start : record_index + 0 ≡ record_index = omega arith in
      let kept : lookup (block_id, txn_id) s'.transaction_by_id ≡ some c =
        index_transitions_others block_id uids (txn_id + 1) (record_index + lib.output_len u) ts s1
          s' (block_id, txn_id) rest (λ e. omega arith)
        ∙ lookup-insert_self (block_id, txn_id) c s.transaction_by_id in
      rw (id, start) (c, kept, ground arith, ground arith, ground arith)
  index_transitions_lem block_id uids txn_id record_index (u ∷ ts) s s' (suc k) t h at =
      let (uid, here, rest) = >>=-eq-ok (unwrap (get_elem? uids record_index)) _ h in
      let id : txn_id + 1 + k ≡ txn_id + suc k = omega arith in
      let start : record_index + lib.output_len u + outputs_before k ts
          ≡ record_index + (lib.output_len u + outputs_before k ts) =
        omega arith in
      rw (id, start) at
        (index_transitions_lem block_id uids (txn_id + 1) (record_index + lib.output_len u) ts
          (index_transition lib block_id txn_id uid u s) s' k t rest at)

  update_tree-transaction_by_id :
      (tree : Option lib.Tree) (s : QueryState lib) (id : ℕ × ℕ)
      → lookup id (update_tree lib tree s).transaction_by_id ≡ lookup id s.transaction_by_id
  unfolding update_tree
  update_tree-transaction_by_id none s id = refl
  update_tree-transaction_by_id (some tree) s id = refl

  get_elem?-range : (from n k x : ℕ) → get_elem? (range from n) k ≡ some x → x ≡ from + k
  get_elem?-range from zero k x h = cc
  get_elem?-range from (suc n) zero x h = ground arith
  get_elem?-range from (suc n) (suc k) x h =
      let e : x ≡ from + 1 + k = get_elem?-range (from + 1) n k x h in omega arith

  get_elem?-map :
      (txns : List CapeModelTxn) (k : ℕ) (t : CapeModelTxn)
      → get_elem? txns k ≡ some t
      → get_elem? (map transaction txns) k ≡ some (transaction t)
  get_elem?-map [] k t h = absurd (none≢some h)
  get_elem?-map (u ∷ txns) zero t h = ground arith
  get_elem?-map (u ∷ txns) (suc k) t h = get_elem?-map txns k t h

  -- What the faucet's event leaves.
  handle_faucet_lem :
      (decoded : Option RecordOpening) (i : EthEventIndex) (p q : Polling lib)
      → handle_faucet lib decoded i p ≡ ok q
      → (opening : RecordOpening) × (c : CommittedCapeTransition)
        × (q.query_result_state.ledger_state.state_number ≡ 0)
        × (lookup (0, 0) q.query_result_state.transaction_by_id ≡ some c)
        × (c.transition ≡ faucet opening)
  unfolding handle_faucet update_tree
  handle_faucet_lem none i p q h = absurd (ground arith)
  handle_faucet_lem (some ro) i p q h =
      let c : CommittedCapeTransition = record {
        block_id = 0;
        txn_id = 0;
        output_start = 0;
        output_size = 1;
        transition = faucet ro;
      } in
      (
        ro,
        c,
        ground arith,
        ground (arith, lookup-insert_self (0, 0) c p.query_result_state.transaction_by_id),
        refl,
      )

  module _
      (grows : (tree : lib.Tree) (rc : RecordCommitment)
        → lib.num_leaves (lib.push_leaf tree rc) ≡ lib.num_leaves tree + 1) where
    push_commitments-range :
        (tree : lib.Tree) (rcs : List RecordCommitment)
        → (push_commitments lib tree rcs).1 ≡ range (lib.num_leaves tree) (length rcs)
    unfolding push_commitments
    push_commitments-range tree [] = refl
    push_commitments-range tree (rc ∷ rcs) = ap (◌∷◌ (lib.num_leaves tree)) (
        push_commitments-range (lib.push_leaf tree rc) rcs
        ∙ ap (λ n. range n (length rcs)) (grows tree rc))

    extend_tree-range :
        (tree : lib.Tree) (rcs : List RecordCommitment)
        (r : Option lib.Tree × List ℕ × List lib.MerklePath)
        → extend_tree lib (some tree) rcs ≡ ok r
        → r.1 ≡ range (lib.num_leaves tree) (length rcs)
    unfolding extend_tree
    extend_tree-range tree rcs r h = ground (arith, push_commitments-range tree rcs)

    -- When a block has been handled, over a tree that the state restores: the transaction at each
    -- position is found under the number of the block and that position, with its number of outputs,
    -- and its first uid counts on from the leaves of the tree by the outputs before it.
    pub handle_block_committed-indexes :
        (txns : List CapeModelTxn) (fetched : Option (List (List ReceiverMemo × Signature)))
        (i : EthEventIndex) (p q : Polling lib) (tree : lib.Tree) (k : ℕ) (t : CapeModelTxn)
        → lib.restore_from_frontier p.query_result_state.ledger_state.record_merkle_commitment
            p.query_result_state.ledger_state.record_merkle_frontier
          ≡ some tree
        → handle_block_committed lib (some txns) fetched i p ≡ ok q
        → get_elem? txns k ≡ some t
        → (c : CommittedCapeTransition) × (lookup
              (p.query_result_state.ledger_state.state_number, k)
              q.query_result_state.transaction_by_id
            ≡ some c)
          × (c.transition ≡ transaction t)
          × (c.output_size ≡ lib.output_len (transaction t))
          × (c.output_start ≡ lib.num_leaves tree + outputs_before k (map transaction txns))
    handle_block_committed-indexes txns fetched i p q tree k t restored h at =
        let v = handle_block_committed_lem lib (some txns) fetched i p q h in
        let same : v.txns ≡ txns = let d = v.decode in ground arith in
        let block_id : ℕ = p.query_result_state.ledger_state.state_number in
        let txs : List CapeTransition = map transaction txns in
        let uids : v.tree.1 ≡ range (lib.num_leaves tree) (length v.rcs) =
          extend_tree-range tree v.rcs v.tree
            (subst (λ o. extend_tree lib o v.rcs ≡ ok v.tree) restored v.extended) in
        let zeros : (0 + k ≡ k) × (0 + outputs_before k txs ≡ outputs_before k txs) =
          (omega arith, omega arith) in
        let (c, found, same_t, size, start) : FoundAt v.indexed block_id k v.tree.1
            (outputs_before k txs) (transaction t) =
          rw (zeros.0, zeros.1) at
            (index_transitions_lem block_id v.tree.1 0 0 txs v.noted v.indexed k (transaction t)
              (subst
                (λ ts.
                  index_transitions lib block_id v.tree.1 0 0 (map transaction ts) v.noted
                  ≡ ok v.indexed)
                same v.filled)
              (get_elem?-map txns k t at)) in
        (
          c,
          ap (λ (r : Polling lib). lookup (block_id, k) r.query_result_state.transaction_by_id)
                v.result
              ∙ found,
          same_t,
          size,
          get_elem?-range (lib.num_leaves tree) (length v.rcs) (outputs_before k txs) c.output_start
              (subst (λ us. get_elem? us (outputs_before k txs) ≡ some c.output_start) uids start),
        )

    -- When the faucet's event has been handled and then a block that is not empty, over a tree that
    -- the state restores: the identifier (0, 0) names the faucet's transition after the first, and
    -- the first transaction of the block after the second.
    pub faucet_overwritten :
        (ro : Option RecordOpening) (i j : EthEventIndex) (p q r : Polling lib) (tree : lib.Tree)
        (tx : CapeModelTxn) (txs : List CapeModelTxn)
        (fetched : Option (List (List ReceiverMemo × Signature)))
        → handle_faucet lib ro i p ≡ ok q
        → lib.restore_from_frontier q.query_result_state.ledger_state.record_merkle_commitment
            q.query_result_state.ledger_state.record_merkle_frontier
          ≡ some tree
        → handle_block_committed lib (some (tx ∷ txs)) fetched j q ≡ ok r
        → ((opening : RecordOpening) × (c : CommittedCapeTransition) × (lookup
                (0, 0)
                q.query_result_state.transaction_by_id
              ≡ some c)
            × (c.transition ≡ faucet opening))
          × ((c : CommittedCapeTransition) × (lookup (0, 0) r.query_result_state.transaction_by_id
                ≡ some c)
              × (c.transition ≡ transaction tx))
    faucet_overwritten ro i j p q r tree tx txs fetched granted restored committed =
        let (opening, c, zero_state, filed, same) = handle_faucet_lem ro i p q granted in
        let (c', filed', same', size, start) =
          handle_block_committed-indexes (tx ∷ txs) fetched j q r tree 0 tx restored committed
            (ground arith) in
        (
          (opening, c, filed, same),
          (
            c',
            subst (λ n. lookup (n, 0) r.query_result_state.transaction_by_id ≡ some c') zero_state
                filed',
            same',
          ),
        )
