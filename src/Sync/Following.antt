-- ===== src/Sync/Following.antt =====
-- What the query service of eqs/src/eth_polling.rs has when it is in step with the contract of
-- contracts/rust/src/model.rs, and a deposit's and a block's event.
use cape.Base.{
  ℕ, suc, ◌+◌, ◌≡◌, refl, sym, ap, ◌∙◌, false, Option, some, List, [], ◌∷◌, ◌++◌, map, arith, ok,
  length,
}
use cape.Cap.{asset_definition_eq, RecordOpening, RecordCommitment}
use cape.Model.Types.{EthereumAddr, Erc20Code, CapeModelTxn, CapeModelEvent}
use cape.Model.Assets.{State}
use cape.Model.Block.{Checked, commit_block, push_all}
use cape.Model.Rounds.{AllAdmissible, all_records}
use cape.Model.Acceptance.{block_result}
use cape.Ledger.{transaction, wrap_transition}
use cape.Eqs.Types.{
  EqsLib, EthEventIndex, CapeEvent, erc20_tokens_deposited, ReceiverMemo, Signature,
}
use cape.Eqs.Commit.{Polling, all_output_commitments, handle_block_committed, push_commitments}
use cape.Eqs.Polling.{is_repeat}
use cape.Sync.Handling.{wrap-outputs, handle_block_committed-tree}
use cape.Sync.Trees.{TreeLaws, push_all-push_commitments}
use cape.Sync.Outputs.{AllAdmissible-outputs, all_output_commitments-append}

module _ (lib : EqsLib) (index : ℕ → EthEventIndex)
    (memos : ℕ → Option (List (List ReceiverMemo × Signature))) where
  -- The event with a number as the node reports it: at its place in the chain, a block with its
  -- transactions in order and with the memos of the call.
  abbrev pub announced : ℕ → CapeModelEvent → EthEventIndex × CapeEvent
  announced n (CapeModelEvent.block_committed txns wraps) =
      (index n, CapeEvent.block_committed (some txns) (memos n))
  announced n (CapeModelEvent.erc20_deposited code src ro) =
      (index n, erc20_tokens_deposited (some ro) code src)

  abbrev pub announce : ℕ → List CapeModelEvent → List (EthEventIndex × CapeEvent)
  announce n [] = []
  announce n (e ∷ es) = announced n e ∷ announce (n + 1) es

  pub announce-append :
      (n : ℕ) (es fs : List CapeModelEvent)
      → announce n (es ++ fs) ≡ announce n es ++ announce (n + length es) fs
  announce-append n [] fs = let e : n + 0 ≡ n = omega arith in rw e refl
  announce-append n (e ∷ es) fs =
      let same : n + suc (length es) ≡ n + 1 + length es = omega arith in
      rw same (ap (◌∷◌ (announced n e)) (announce-append (n + 1) es fs))

  -- The service has read the contract's events up to the one with the number: both trees are one, the
  -- pending wraps are the contract's pending deposits, and the next event is not taken for a repeat.
  pub record Following (s : State lib.cap_lib) (n : ℕ) (p : Polling lib) : Type 0 where
    pub tree : lib.Tree
    pub contract_commitment : s.ledger.record_merkle_commitment ≡ lib.commitment tree
    pub contract_frontier : s.ledger.record_merkle_frontier ≡ lib.frontier tree
    pub service_commitment :
        p.query_result_state.ledger_state.record_merkle_commitment ≡ lib.commitment tree
    pub service_frontier :
        p.query_result_state.ledger_state.record_merkle_frontier ≡ lib.frontier tree
    pub pending : all_output_commitments lib p.pending_commit_event ≡ ok s.erc20_deposits
    pub unread : is_repeat p.last_event_index (index n) ≡ false

  module _ (laws : TreeLaws lib)
      (later : (n : ℕ) → is_repeat (some (index n)) (index (n + 1)) ≡ false) where
    pub deposited-Following :
        (code : Erc20Code) (src : EthereumAddr) (ro : RecordOpening) (s t : State lib.cap_lib)
        (n : ℕ) (p : Polling lib)
        → Following s n p
        → t.ledger ≡ s.ledger
        → t.erc20_deposits ≡ s.erc20_deposits ++ (lib.cap_lib.record_commitment ro ∷ [])
        → Following t (n + 1) (record p {
          pending_commit_event = p.pending_commit_event ++ (wrap_transition code src ro ∷ []);
          last_event_index = some (index n);
        })
    deposited-Following code src ro s t n p f same_ledger deposits = record {
      tree = f.tree;
      contract_commitment =
          ap (λ l. l.record_merkle_commitment) same_ledger ∙ f.contract_commitment;
      contract_frontier = ap (λ l. l.record_merkle_frontier) same_ledger ∙ f.contract_frontier;
      service_commitment = f.service_commitment;
      service_frontier = f.service_frontier;
      pending =
          all_output_commitments-append lib p.pending_commit_event
            (wrap_transition code src ro ∷ []) s.erc20_deposits
            (lib.cap_lib.record_commitment ro ∷ []) f.pending (wrap-outputs lib code src ro)
          ∙ ap ok (sym deposits);
      unread = later n;
    }

    pub committed-Following :
        (ts : List CapeModelTxn) (cs : List Checked) (builder : lib.cap_lib.Builder)
        (s : State lib.cap_lib) (n : ℕ) (p q : Polling lib)
        → Following s n p
        → AllAdmissible lib.cap_lib s ts cs
        → lib.cap_lib.from_frontier s.ledger.record_merkle_commitment
            s.ledger.record_merkle_frontier
          ≡ some builder
        → handle_block_committed lib (some ts) (memos n) (index n) p ≡ ok q
        → Following (block_result lib.cap_lib s ts cs builder).0 (n + 1) q
    unfolding commit_block all_output_commitments
    committed-Following ts cs builder s n p q f adms restored h =
        let rcs : List RecordCommitment = all_records cs ++ s.erc20_deposits in
        let t : lib.Tree = laws.restored f.tree in
        let u : lib.Tree = (push_commitments lib t rcs).0 in
        let outputs : all_output_commitments lib (map transaction ts ++ p.pending_commit_event)
            ≡ ok rcs =
          all_output_commitments-append lib (map transaction ts) p.pending_commit_event
            (all_records cs) s.erc20_deposits (AllAdmissible-outputs lib laws s ts cs adms)
            f.pending in
        let (commitment, frontier, none_left, read) =
          handle_block_committed-tree lib ts (memos n) (index n) p q t rcs h
            (rw (f.service_commitment, f.service_frontier) (laws.restore_law f.tree)) outputs in
        let same_builder : builder ≡ laws.builder_of t =
          let from = laws.from_law f.tree in
          let same_tree = laws.restored_law f.tree in
          let c = f.contract_commitment in let g = f.contract_frontier in ground arith in
        let into : lib.cap_lib.into_frontier_and_commitment (push_all lib.cap_lib builder rcs)
            ≡ (lib.frontier u, lib.commitment u) =
          ap lib.cap_lib.into_frontier_and_commitment (
            ap (λ b. push_all lib.cap_lib b rcs) same_builder
            ∙ push_all-push_commitments lib laws t rcs)
          ∙ laws.into_law u in
        record {
          tree = u;
          contract_commitment = ap (λ x. x.1) into;
          contract_frontier = ap (λ x. x.0) into;
          service_commitment = commitment;
          service_frontier = frontier;
          pending = ap (all_output_commitments lib) none_left;
          unread = ap (λ last. is_repeat last (index (n + 1))) read ∙ later n;
        }

    -- What does not touch the ledger or the deposits keeps the service in step.
    pub Following-cong :
        (s t : State lib.cap_lib) (n : ℕ) (p : Polling lib)
        → t.ledger.record_merkle_commitment ≡ s.ledger.record_merkle_commitment
        → t.ledger.record_merkle_frontier ≡ s.ledger.record_merkle_frontier
        → t.erc20_deposits ≡ s.erc20_deposits
        → Following s n p
        → Following t n p
    Following-cong s t n p commitment frontier deposits f = record {
      tree = f.tree;
      contract_commitment = commitment ∙ f.contract_commitment;
      contract_frontier = frontier ∙ f.contract_frontier;
      service_commitment = f.service_commitment;
      service_frontier = f.service_frontier;
      pending = f.pending ∙ ap ok (sym deposits);
      unread = f.unread;
    }
