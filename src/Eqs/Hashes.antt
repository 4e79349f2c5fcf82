-- ===== src/Eqs/Hashes.antt =====
-- Every hash that `EthPolling::check_range` of eqs/src/eth_polling.rs indexes leads to a transaction,
-- so that `get_transaction_by_hash` of eqs/src/routes.rs does not fail on it.
use cape.Base.{
  ℕ, ◌+◌, ◌≡◌, ◌≢◌, ◌∙◌, sym, subst, Bool, false, Bool-cases, Option-cases, Outcome-cases, inl, inr,
  Option, none, some, List, [], ◌∷◌, arith, ok, err, unwrap, >>=-eq-ok, get_elem?, ◌==◌, nat_eq,
  pair_eq, map, ◌++◌,
}
use cape.Base.Map.{Map, lookup, insert, lookup-insert, lookup-insert_self}
use cape.Ledger.{CapeTransition, CommittedCapeTransition, transaction}
use cape.Eqs.Types.{
  EqsLib, EthEventIndex, CapeEvent, block_committed, erc20_tokens_deposited, faucet_initialized,
  asset_sponsored, Hash, commit_event,
}
use cape.Eqs.Commit.{
  QueryState, Polling, index_transition, index_transitions, handle_block_committed, update_tree,
  push_events,
}
use cape.Eqs.Polling.{
  is_repeat, process_events, process_event, handle_event, handle_deposited, handle_faucet,
  handle_sponsored,
}
use cape.Eqs.Handled.{handle_block_committed_lem}
use cape.Eqs.Routes.{
  Bindings, get_transaction_by_hash, hash_without_transaction, to, as_identifier, resolve,
  UrlSegmentValue, identifier, boolean, hexadecimal, integer, unparsed, parse_failed, literal, hash,
}

-- A hash that is indexed names an identifier that is.
abbrev Resolving : Map Hash (ℕ × ℕ) → Map (ℕ × ℕ) CommittedCapeTransition → Type 0
Resolving by_hash by_id =
    (h : Hash) (id : ℕ × ℕ)
    → lookup h by_hash ≡ some id
    → (c : CommittedCapeTransition) × (lookup id by_id ≡ some c)

insert-Resolving :
    (h : Hash) (id : ℕ × ℕ) (c : CommittedCapeTransition) (by_hash : Map Hash (ℕ × ℕ))
    (by_id : Map (ℕ × ℕ) CommittedCapeTransition)
    → Resolving by_hash by_id
    → Resolving (insert h id by_hash) (insert id c by_id)
insert-Resolving h id c by_hash by_id ok_before h' id' found = elim (Bool-cases (id' == id)) [
  | inl same ↦ (c, rw (lookup-insert id' id c by_id, same))
  | inr other ↦ elim (Bool-cases (h' == h)) [
    | inl same ↦
        let e : id ≡ id' = ground (arith, lookup-insert h' h id by_hash) in
        (c, subst (λ i. lookup i (insert id c by_id) ≡ some c) e (lookup-insert_self id c by_id))
    | inr new ↦
        let (c', kept) = ok_before h' id' (ground (arith, lookup-insert h' h id by_hash)) in
        (c', rw (lookup-insert id' id c by_id, other) kept)
  ]
]

module _ (lib : EqsLib) where
  abbrev Resolves : QueryState lib → Type 0
  Resolves s = Resolving s.transaction_id_by_hash s.transaction_by_id

  index_transitions-Resolves :
      (block_id : ℕ) (uids : List ℕ) (txn_id record_index : ℕ) (ts : List CapeTransition)
      (s s' : QueryState lib)
      → index_transitions lib block_id uids txn_id record_index ts s ≡ ok s'
      → Resolves s
      → Resolves s'
  unfolding index_transitions index_transition
  index_transitions-Resolves block_id uids txn_id record_index [] s s' h before =
      let e : s ≡ s' = ground arith in subst Resolves e before
  index_transitions-Resolves block_id uids txn_id record_index (t ∷ ts) s s' h before =
      let (uid, at, rest) = >>=-eq-ok (unwrap (get_elem? uids record_index)) _ h in
      index_transitions-Resolves block_id uids (txn_id + 1) (record_index + lib.output_len t) ts
        (index_transition lib block_id txn_id uid t s) s' rest
        (insert-Resolving (lib.commit t) (block_id, txn_id) _ s.transaction_id_by_hash
          s.transaction_by_id before)

  update_tree-Resolves :
      (tree : Option lib.Tree) (s : QueryState lib) → Resolves s → Resolves (update_tree lib tree s)
  unfolding update_tree
  update_tree-Resolves none s h = h
  update_tree-Resolves (some tree) s h = h

  handle_event-Resolves :
      (i : EthEventIndex) (event : CapeEvent) (p q : Polling lib) (persist persist' : Bool)
      → handle_event lib i event (p, persist) ≡ ok (q, persist')
      → Resolves p.query_result_state
      → Resolves q.query_result_state
  unfolding handle_event handle_deposited handle_sponsored handle_faucet update_tree
  handle_event-Resolves i (block_committed decoded fetched) p q persist persist' h before =
      let (p', handled, e) = >>=-eq-ok (handle_block_committed lib decoded fetched i p) _ h in
      let v = handle_block_committed_lem lib decoded fetched i p p' handled in
      let same : p' ≡ q = ground arith in
      let noted : Resolves v.noted = subst Resolves (sym v.noting) (
        update_tree-Resolves v.tree.0
          (push_events lib p.query_result_state (
            commit_event (map transaction v.txns ++ p.pending_commit_event)
              p.query_result_state.ledger_state.state_number
              (p.query_result_state.ledger_state.state_number + 1)
            ∷ v.evs))
          before) in
      subst (λ (r : Polling lib). Resolves r.query_result_state) (sym v.result ∙ same)
        (index_transitions-Resolves p.query_result_state.ledger_state.state_number v.tree.1 0 0
          (map transaction v.txns) v.noted v.indexed v.filled noted)
  handle_event-Resolves i (erc20_tokens_deposited decoded code src) p q persist persist' h before =
      let e : p.query_result_state ≡ q.query_result_state = ground arith in subst Resolves e before
  handle_event-Resolves i (faucet_initialized none) p q persist persist' h before =
      absurd (ground arith)
  handle_event-Resolves i (faucet_initialized (some ro)) p q persist persist' h before =
      let s = p.query_result_state in
      let c : CommittedCapeTransition = record {
        block_id = 0;
        txn_id = 0;
        output_start = 0;
        output_size = 1;
        transition = CapeTransition.faucet ro;
      } in
      let hashes : insert (lib.commit (CapeTransition.faucet ro)) (0, 0) s.transaction_id_by_hash
          ≡ q.query_result_state.transaction_id_by_hash =
        ground arith in
      let ids : insert (0, 0) c s.transaction_by_id ≡ q.query_result_state.transaction_by_id =
        ground arith in
      subst (λ m. Resolving m q.query_result_state.transaction_by_id) hashes
        (subst
          (Resolving
            (insert (lib.commit (CapeTransition.faucet ro)) (0, 0) s.transaction_id_by_hash))
          ids
          (insert-Resolving (lib.commit (CapeTransition.faucet ro)) (0, 0) c
            s.transaction_id_by_hash s.transaction_by_id before))
  handle_event-Resolves i (asset_sponsored code address) p q persist persist' h before =
      let e : handle_sponsored lib code address i p ≡ q = ground arith in
      subst (λ (r : Polling lib). Resolves r.query_result_state) e before

  process_events-Resolves :
      (es : List (EthEventIndex × CapeEvent)) (p q : Polling lib) (persist persist' : Bool)
      → process_events lib es (p, persist) ≡ ok (q, persist')
      → Resolves p.query_result_state
      → Resolves q.query_result_state
  unfolding process_events process_event
  process_events-Resolves [] p q persist persist' h before =
      let e : p ≡ q = ground arith in
      subst (λ (r : Polling lib). Resolves r.query_result_state) e before
  process_events-Resolves ((i, event) ∷ es) p q persist persist' h before =
      let ((p', persist1), first, rest) =
        >>=-eq-ok (process_event lib (i, event) (p, persist)) _ h in
      process_events-Resolves es p' q persist1 persist' rest
        (elim (Bool-cases (is_repeat p.last_event_index i)) [
          | inl again ↦
              let e : p ≡ p' = ground arith in
              subst (λ (r : Polling lib). Resolves r.query_result_state) e before
          | inr new ↦
              handle_event-Resolves i event p p' persist persist1 (rw (sym first, new)) before
        ])

  to-ne :
      (from_tagged_blob : ℕ → Option ℕ) (value : UrlSegmentValue)
      → to from_tagged_blob value ≢ err hash_without_transaction
  unfolding to as_identifier
  to-ne from_tagged_blob (identifier i) failed = ground arith
  to-ne from_tagged_blob (boolean b) failed = ground arith
  to-ne from_tagged_blob (hexadecimal b) failed = ground arith
  to-ne from_tagged_blob (integer b) failed = ground arith
  to-ne from_tagged_blob (unparsed b) failed = ground arith
  to-ne from_tagged_blob (parse_failed b) failed = ground arith
  to-ne from_tagged_blob (literal b) failed = ground arith

  resolve-ne :
      (s : QueryState lib) (h : Hash)
      → Resolves s
      → resolve lib (lookup h s.transaction_id_by_hash) s ≢ err hash_without_transaction
  resolve-ne s h resolves failed = elim (Option-cases (lookup h s.transaction_id_by_hash)) [
    | inl missing ↦ ground arith
    | inr (id, found) ↦ let (c, there) = resolves h id found in ground arith
  ]

  -- From a state that has indexed nothing, whatever events have been processed:
  -- `get_transaction_by_hash` never finds a hash whose transaction is missing.
  pub get_transaction_by_hash-resolves :
      (es : List (EthEventIndex × CapeEvent)) (p q : Polling lib) (persist : Bool)
      (from_tagged_blob : ℕ → Option ℕ) (bindings : Bindings)
      → p.query_result_state.transaction_id_by_hash ≡ []
      → process_events lib es (p, false) ≡ ok (q, persist)
      → get_transaction_by_hash lib from_tagged_blob bindings q.query_result_state
        ≢ err hash_without_transaction
  unfolding get_transaction_by_hash
  get_transaction_by_hash-resolves es p q persist from_tagged_blob bindings empty processed failed =
      let resolves : Resolves q.query_result_state =
        process_events-Resolves es p q false persist processed
          (λ h id found. absurd (ground arith)) in
      elim (Option-cases (bindings hash)) [
        | inl missing ↦ ground arith
        | inr (value, given) ↦ elim (Outcome-cases (to from_tagged_blob value)) [
          | inl (h, parsed) ↦
              resolve-ne q.query_result_state h resolves (rw (given, parsed) at failed)
          | inr (inl (e, bad)) ↦ ground (arith, to-ne from_tagged_blob value)
          | inr (inr crashed) ↦ ground arith
        ]
      ]
