-- ===== src/Sync/Service.antt =====
-- The query service of eqs/src/eth_polling.rs after the calls of contracts/rust/src/model.rs: its tree
-- and its pending wraps are the contract's.
use cape.Base.{
  ℕ, ◌+◌, ◌≡◌, refl, sym, ap, subst, ◌∙◌, Bool, false, Option, none, some, List, [], ◌∷◌, ◌++◌,
  filter, arith, ok, >>=-eq-ok, Ensures, Ensures-intro, length, length-append,
}
use cape.Base.Map.{insert}
use cape.Cap.{asset_definition_eq, AssetDefinition, RecordOpening, VerifierKeySet}
use cape.Model.Types.{
  EthereumAddr, Erc20Code, CapeModelTxn, CapeModelOperation, CapeModelEthEffect, emit,
  CapeModelEvent,
}
use cape.Model.State.{init}
use cape.Model.Assets.{State, register, wrap}
use cape.Model.Assets.Laws.{register_lem, wrap_lem, wrap_result}
use cape.Model.Block.{submit_block, is_unspent}
use cape.Model.Submit.{apply_operation, next_state_number, history}
use cape.Model.Rounds.{all_sent}
use cape.Model.Acceptance.{Accepts, block_result, submit_block_iff}
use cape.Model.Traces.{history_rel}
use cape.Ledger.{wrap_transition}
use cape.Eqs.Types.{
  EqsLib, EthEventIndex, CapeEvent, erc20_tokens_deposited, ReceiverMemo, Signature,
}
use cape.Eqs.Commit.{Polling, all_output_commitments, handle_block_committed}
use cape.Eqs.Polling.{is_repeat, process_events, process_event, handle_event, handle_deposited}
use cape.Sync.Handling.{process_events-append}
use cape.Sync.Trees.{TreeLaws}
use cape.Sync.Outputs.{emitted, emitted-append, emitted-all_sent}
use cape.Sync.Following.{
  announce, announce-append, Following, deposited-Following, committed-Following, Following-cong,
}

module _ (lib : EqsLib) (index : ℕ → EthEventIndex)
    (memos : ℕ → Option (List (List ReceiverMemo × Signature))) (laws : TreeLaws lib)
    (later : (n : ℕ) → is_repeat (some (index n)) (index (n + 1)) ≡ false) where
  -- Reading the events of a call keeps the service in step.
  abbrev pub Follows : State lib.cap_lib → State lib.cap_lib × List CapeModelEthEffect → Type 0
  Follows s r =
      (n : ℕ) (p q : Polling lib) (b c : Bool)
      → Following lib index memos s n p
      → process_events lib (announce lib index memos n (emitted r.1)) (p, b) ≡ ok (q, c)
      → Following lib index memos r.0 (n + length (emitted r.1)) q

  Follows-same : (s : State lib.cap_lib) → Follows s (s, [])
  unfolding process_events
  Follows-same s n p q b c f h =
      let e : p ≡ q = ground arith in
      let here : n + 0 ≡ n = omega arith in rw here (subst (Following lib index memos s n) e f)

  Follows-trans :
      (s t u : State lib.cap_lib) (es fs : List CapeModelEthEffect)
      → Follows s (t, es)
      → Follows t (u, fs)
      → Follows s (u, es ++ fs)
  Follows-trans s t u es fs h k n p q b c f processed =
      let split : announce lib index memos n (emitted (es ++ fs))
          ≡ announce lib index memos n (emitted es)
            ++ announce lib index memos (n + length (emitted es)) (emitted fs) =
        ap (announce lib index memos n) (emitted-append es fs)
        ∙ announce-append lib index memos n (emitted es) (emitted fs) in
      let ((p', b'), left, right) =
        process_events-append lib (announce lib index memos n (emitted es))
          (announce lib index memos (n + length (emitted es)) (emitted fs)) (p, b) (q, c)
          (subst (λ l. process_events lib l (p, b) ≡ ok (q, c)) split processed) in
      let count : n + length (emitted es) + length (emitted fs) ≡ n + length (emitted (es ++ fs)) =
        omega (arith, ap length (emitted-append es fs), length-append (emitted es) (emitted fs)) in
      subst (λ m. Following lib index memos u m q) count
        (k (n + length (emitted es)) p' q b' c (h n p p' b b' f left) right)

  -- One event that comes next.
  next_event :
      (i : EthEventIndex) (e : CapeEvent) (p q : Polling lib) (b c : Bool)
      → is_repeat p.last_event_index i ≡ false
      → process_events lib ((i, e) ∷ []) (p, b) ≡ ok (q, c)
      → handle_event lib i e (p, b) ≡ ok (q, c)
  unfolding process_events process_event
  next_event i e p q b c new h = ground arith

  next_state_number-Follows :
      (s : State lib.cap_lib) → Follows s (next_state_number lib.cap_lib s, [])
  unfolding next_state_number
  next_state_number-Follows s n p q b c f h =
      Following-cong lib index memos laws later s (next_state_number lib.cap_lib s) (n + 0) q refl
        refl refl (Follows-same s n p q b c f h)

  register-Follows :
      (def : AssetDefinition) (code : Erc20Code) (sponsor : EthereumAddr) (s : State lib.cap_lib)
      → Follows s (
        record s { erc20_registrar = insert def (code, sponsor) s.erc20_registrar },
        CapeModelEthEffect.check_erc20_exists code ∷ [],
      )
  register-Follows def code sponsor s n p q b c f h =
      Following-cong lib index memos laws later s
        (record s { erc20_registrar = insert def (code, sponsor) s.erc20_registrar }) (n + 0) q refl
        refl refl (Follows-same s n p q b c f h)

  wrap-Follows :
      (code : Erc20Code) (src : EthereumAddr) (ro : RecordOpening) (s : State lib.cap_lib)
      → Follows s (wrap_result lib.cap_lib code src ro s)
  unfolding handle_event handle_deposited
  wrap-Follows code src ro s n p q b c f h =
      let handled : handle_event lib (index n) (erc20_tokens_deposited (some ro) code src) (p, b)
          ≡ ok (q, c) =
        next_event (index n) (erc20_tokens_deposited (some ro) code src) p q b c f.unread h in
      let p' : Polling lib = record p {
        pending_commit_event = p.pending_commit_event ++ (wrap_transition code src ro ∷ []);
        last_event_index = some (index n);
      } in
      let e : p' ≡ q = ground arith in
      subst (Following lib index memos (wrap_result lib.cap_lib code src ro s).0 (n + 1)) e (
        deposited-Following lib index memos laws later code src ro s
          (wrap_result lib.cap_lib code src ro s).0 n p f refl refl)

  Accepts-Follows :
      (s : State lib.cap_lib) (ts : List CapeModelTxn)
      (r : State lib.cap_lib × List CapeModelEthEffect)
      → Accepts lib.cap_lib s ts r
      → Follows s r
  unfolding handle_event
  Accepts-Follows s ts r (cs, builder, fresh, adms, good, restored, e) =
      let last : List CapeModelEthEffect =
        emit (CapeModelEvent.block_committed ts s.erc20_deposits) ∷ [] in
      let events : emitted (all_sent cs ++ last)
          ≡ CapeModelEvent.block_committed ts s.erc20_deposits ∷ [] =
        emitted-append (all_sent cs) last
        ∙ ap (λ es. es ++ emitted last) (emitted-all_sent lib laws s ts cs adms) in
      subst (Follows s) (sym e) (λ n p q b c f h.
        let handled : handle_event lib (index n) (CapeEvent.block_committed (some ts) (memos n))
              (p, b)
            ≡ ok (q, c) =
          next_event (index n) (CapeEvent.block_committed (some ts) (memos n)) p q b c f.unread (
            subst (λ es. process_events lib (announce lib index memos n es) (p, b) ≡ ok (q, c))
              events h) in
        let (q', done, same) =
          >>=-eq-ok (handle_block_committed lib (some ts) (memos n) (index n) p) _ handled in
        let same_q : q' ≡ q = ground arith in
        let count : n + 1 ≡ n + length (emitted (all_sent cs ++ last)) =
          omega (arith, ap length events) in
        subst (λ m. Following lib index memos (block_result lib.cap_lib s ts cs builder).0 m q)
          count
          (subst (Following lib index memos (block_result lib.cap_lib s ts cs builder).0 (n + 1))
            same_q
            (committed-Following lib index memos laws later ts cs builder s n p q' f adms restored
              done)))

  apply_operation-Follows :
      (o : CapeModelOperation) (s : State lib.cap_lib)
      → Ensures (Follows s) (apply_operation lib.cap_lib o s)
  unfolding apply_operation
  apply_operation-Follows (CapeModelOperation.register_erc20 def code sponsor) s =
      Ensures-intro (Follows s) (register lib.cap_lib def code sponsor s) (λ r h.
        subst (Follows s) (sym (register_lem lib.cap_lib def code sponsor s r h).2)
          (register-Follows def code sponsor s))
  apply_operation-Follows (CapeModelOperation.wrap_erc20 code src ro) s =
      Ensures-intro (Follows s) (wrap lib.cap_lib code src ro s) (λ r h.
        subst (Follows s) (sym (wrap_lem lib.cap_lib code src ro s r h).2)
          (wrap-Follows code src ro s))
  apply_operation-Follows (CapeModelOperation.submit_block txns) s =
      Ensures-intro (Follows s) (submit_block lib.cap_lib txns s) (λ r h.
        Accepts-Follows s (filter (is_unspent s.nullifiers) txns) r
          ((submit_block_iff lib.cap_lib txns s r).0 h))

  -- When jf_cap's tree, its frontier and the builder grow alike, a new contract and a new query
  -- service start from the same record tree; after any history of calls, and when the service
  -- has handled all events of the history in order, each announced once, later than those before
  -- it, with its block as it was committed, both have the same commitment and frontier of the
  -- record tree, and the outputs of the service's pending wraps are the contract's pending
  -- deposits.
  pub history-Following :
      (calls : List (List CapeModelOperation)) (keys : VerifierKeySet) (t : lib.Tree)
      (p q : Polling lib) (c : Bool)
      → p.query_result_state.ledger_state.record_merkle_commitment ≡ lib.commitment t
      → p.query_result_state.ledger_state.record_merkle_frontier ≡ lib.frontier t
      → p.pending_commit_event ≡ []
      → p.last_event_index ≡ none
      → process_events lib
          (announce lib index memos 0
            (emitted (history lib.cap_lib calls (init keys (lib.commitment t) (lib.frontier t))).1))
          (p, false)
        ≡ ok (q, c)
      → let s = (history lib.cap_lib calls (init keys (lib.commitment t) (lib.frontier t))).0 in
        let service = q.query_result_state.ledger_state in
        (service.record_merkle_commitment ≡ s.ledger.record_merkle_commitment)
        × (service.record_merkle_frontier ≡ s.ledger.record_merkle_frontier)
        × (all_output_commitments lib q.pending_commit_event ≡ ok s.erc20_deposits)
  unfolding init next_state_number all_output_commitments is_repeat
  history-Following calls keys t p q c commitment frontier empty unread processed =
      let f : Following lib index memos (init keys (lib.commitment t) (lib.frontier t)) 0 p =
        record {
          tree = t;
          contract_commitment = refl;
          contract_frontier = refl;
          service_commitment = commitment;
          service_frontier = frontier;
          pending = ap (all_output_commitments lib) empty;
          unread = ap (λ last. is_repeat last (index 0)) unread;
        } in
      let g =
        history_rel lib.cap_lib Follows Follows-same next_state_number-Follows Follows-trans
          apply_operation-Follows calls (init keys (lib.commitment t) (lib.frontier t)) 0 p q false
          c f processed in
      (
        g.service_commitment ∙ sym g.contract_commitment,
        g.service_frontier ∙ sym g.contract_frontier,
        g.pending,
      )
