-- ===== src/Model/Roots.antt =====
-- The queue of past roots of contracts/rust/src/model.rs.
use cape.Base.{
  ℕ, ◌+◌, ◌≤◌, ◌≡◌, refl, sym, ap, subst, ◌∙◌, List, [], ◌∷◌, ◌++◌, arith, filter, Ensures,
  Ensures-intro, length, take, append_assoc, append-nil, ok, err, panic, ◌>>=◌, length-take,
  length-append,
}
use cape.Cap.{CapLib, NodeValue, TransactionNote}
use cape.Model.Types.{
  CapeModelTxn, CapeModelOperation, CapeModelEvent, CapeModelEthEffect, cap_txn, burn, emit,
  block_committed, receive_erc20, check_erc20_exists, send_erc20, cape_num_roots,
}
use cape.Model.Assets.{State, Result, register, wrap}
use cape.Model.Assets.Laws.{register_lem, wrap_lem}
use cape.Model.Block.{Checked, submit_block, is_unspent, commit_block}
use cape.Model.Submit.{
  apply_operation, apply_operations, next_state_number, submit_operations, settle, history,
}
use cape.Model.Admission.{Admissible}
use cape.Model.Rounds.{AllAdmissible, all_sent}
use cape.Model.RootQueue.{take_all, take-append-take, push_root-eq-take}
use cape.Model.Acceptance.{Accepts, submit_block_iff}

-- How many blocks the effects announce.
abbrev pub blocks_by : CapeModelEthEffect → ℕ
blocks_by (emit (block_committed txns wraps)) = 1
blocks_by (emit (CapeModelEvent.erc20_deposited code src ro)) = 0
blocks_by (receive_erc20 code amount src) = 0
blocks_by (check_erc20_exists code) = 0
blocks_by (send_erc20 code amount dst) = 0

abbrev pub blocks : List CapeModelEthEffect → ℕ
blocks [] = 0
blocks (e ∷ es) = blocks_by e + blocks es

blocks-append : (es fs : List CapeModelEthEffect) → blocks (es ++ fs) ≡ blocks es + blocks fs
blocks-append [] fs = omega arith
blocks-append (e ∷ es) fs = omega (arith, blocks-append es fs)

module _ (lib : CapLib) where
  -- The root that an operation replaces if it succeeds: that of the record tree before the block.
  abbrev pub replaced : CapeModelOperation → State lib → List NodeValue
  replaced (CapeModelOperation.register_erc20 def code sponsor) s = []
  replaced (CapeModelOperation.wrap_erc20 code src ro) s = []
  replaced (CapeModelOperation.submit_block txns) s =
      s.ledger.record_merkle_commitment.root_value ∷ []

  -- An operation that fails ends the run.
  abbrev pub and_before :
      Result lib → (State lib → List NodeValue) → List NodeValue → List NodeValue
  and_before (ok r) later first = later r.0 ++ first
  and_before (err e) later first = []
  and_before panic later first = []

  -- The roots that a run of operations replaces, newest first.
  abbrev pub replaced_by_run : List CapeModelOperation → State lib → List NodeValue
  replaced_by_run [] s = []
  replaced_by_run (o ∷ ops) s =
      and_before (apply_operation lib o s) (replaced_by_run ops) (replaced o s)

  -- A call that fails replaces none.
  abbrev pub if_returned : Result lib → List NodeValue → List NodeValue
  if_returned (ok r) roots = roots
  if_returned (err e) roots = []
  if_returned panic roots = []

  abbrev pub replaced_by_call : List CapeModelOperation → State lib → List NodeValue
  replaced_by_call ops s =
      if_returned (submit_operations lib ops s) (replaced_by_run ops (next_state_number lib s))

  abbrev pub replaced_by_history : List (List CapeModelOperation) → State lib → List NodeValue
  replaced_by_history [] s = []
  replaced_by_history (ops ∷ calls) s =
      replaced_by_history calls (settle lib s (submit_operations lib ops s)).0
      ++ replaced_by_call ops s

  -- The roots come in at the front of the queue, one for each block that is announced, and all beyond
  -- the capacity are let go.
  abbrev Rotates : List NodeValue → State lib → State lib × List CapeModelEthEffect → Type 0
  Rotates roots s r =
      length s.ledger.past_record_merkle_roots ≤ cape_num_roots
      → (length roots ≡ blocks r.1)
        × (r.0.ledger.past_record_merkle_roots
            ≡ take cape_num_roots (roots ++ s.ledger.past_record_merkle_roots))

  Rotates-same : (s : State lib) → Rotates [] s (s, [])
  Rotates-same s h = (refl, sym (take_all cape_num_roots s.ledger.past_record_merkle_roots h))

  Rotates-trans :
      (rs qs : List NodeValue) (s t u : State lib) (es fs : List CapeModelEthEffect)
      → Rotates rs s (t, es)
      → Rotates qs t (u, fs)
      → Rotates (qs ++ rs) s (u, es ++ fs)
  Rotates-trans rs qs s t u es fs h k small =
      let past : List NodeValue = s.ledger.past_record_merkle_roots in
      let (n, e) = h small in
      let (m, f) = k (rw e (omega (arith, length-take cape_num_roots (rs ++ past)))) in
      (
        omega (arith, length-append qs rs, blocks-append es fs, n, m),
        f
            ∙ (ap (λ old. take cape_num_roots (qs ++ old)) e
                ∙ (take-append-take cape_num_roots cape_num_roots qs (rs ++ past) (omega arith)
                    ∙ ap (take cape_num_roots) (sym (append_assoc qs rs past)))),
      )

  blocks-sent :
      (s : State lib) (t : CapeModelTxn) (c : Checked) → Admissible lib s t c → blocks c.sent ≡ 0
  blocks-sent s (cap_txn (TransactionNote.mint note)) c h = ap blocks h.4
  blocks-sent s (cap_txn (TransactionNote.transfer note)) c h = ap blocks h.5
  blocks-sent s (cap_txn (TransactionNote.freeze note)) c h = ap blocks h.4
  blocks-sent s (burn xfr ro) c h = ap blocks h.5

  blocks-all_sent :
      (s : State lib) (ts : List CapeModelTxn) (cs : List Checked)
      → AllAdmissible lib s ts cs
      → blocks (all_sent cs) ≡ 0
  blocks-all_sent s [] [] h = refl
  blocks-all_sent s [] (c ∷ cs) h = absurd h
  blocks-all_sent s (t ∷ ts) [] h = absurd h
  blocks-all_sent s (t ∷ ts) (c ∷ cs) h = omega (
    arith,
    blocks-append c.sent (all_sent cs),
    blocks-sent s t c h.0,
    blocks-all_sent s ts cs h.2,
  )

  Accepts-Rotates :
      (s : State lib) (ts : List CapeModelTxn) (r : State lib × List CapeModelEthEffect)
      → Accepts lib s ts r
      → Rotates (s.ledger.record_merkle_commitment.root_value ∷ []) s r
  unfolding commit_block
  Accepts-Rotates s ts r (cs, builder, fresh, adms, good, restored, e) =
      let last : List CapeModelEthEffect = emit (block_committed ts s.erc20_deposits) ∷ [] in
      let root : NodeValue = s.ledger.record_merkle_commitment.root_value in
      subst (Rotates (root ∷ []) s) (sym e) (λ small. (
        omega (arith, blocks-append (all_sent cs) last, blocks-all_sent s ts cs adms),
        push_root-eq-take root s.ledger.past_record_merkle_roots small,
      ))

  apply_operation-Rotates :
      (o : CapeModelOperation) (s : State lib)
      → Ensures (Rotates (replaced o s) s) (apply_operation lib o s)
  unfolding apply_operation
  apply_operation-Rotates (CapeModelOperation.register_erc20 def code sponsor) s =
      Ensures-intro (Rotates [] s) (register lib def code sponsor s) (λ r h.
        subst (Rotates [] s) (sym (register_lem lib def code sponsor s r h).2) (Rotates-same s))
  apply_operation-Rotates (CapeModelOperation.wrap_erc20 code src ro) s =
      Ensures-intro (Rotates [] s) (wrap lib code src ro s)
        (λ r h. subst (Rotates [] s) (sym (wrap_lem lib code src ro s r h).2) (Rotates-same s))
  apply_operation-Rotates (CapeModelOperation.submit_block txns) s =
      Ensures-intro (Rotates (replaced (CapeModelOperation.submit_block txns) s) s)
        (submit_block lib txns s)
        (λ r h.
          Accepts-Rotates s (filter (is_unspent s.nullifiers) txns) r
            ((submit_block_iff lib txns s r).0 h))

  -- The effects of a run are appended to those that were there.
  abbrev Runs :
      List NodeValue
      → State lib
      → List CapeModelEthEffect
      → State lib × List CapeModelEthEffect
      → Type 0
  Runs roots s es r = (fs : List CapeModelEthEffect) × (r.1 ≡ es ++ fs) × Rotates roots s (r.0, fs)

  after_operation :
      (ops : List CapeModelOperation) (s : State lib) (es : List CapeModelEthEffect)
      (first : List NodeValue) (r : Result lib)
      → Ensures (Rotates first s) r
      → ((t : State lib) (fs : List CapeModelEthEffect)
          → Ensures (Runs (replaced_by_run ops t) t fs) (apply_operations lib ops t fs))
      → Ensures
          (Runs (and_before r (replaced_by_run ops) first) s es)
          (r >>= λ q. apply_operations lib ops q.0 (es ++ q.1))
  after_operation ops s es first (err e) h rest = tt
  after_operation ops s es first panic h rest = tt
  after_operation ops s es first (ok (t, fs)) h rest =
      later (apply_operations lib ops t (es ++ fs)) (rest t (es ++ fs))
    where
      roots : List NodeValue
      roots = replaced_by_run ops t

      later :
          (r : Result lib)
          → Ensures (Runs roots t (es ++ fs)) r
          → Ensures (Runs (roots ++ first) s es) r
      later (ok (u, all)) (gs, e, k) =
          (fs ++ gs, e ∙ append_assoc es fs gs, Rotates-trans first roots s t u fs gs h k)
      later (err e) k = tt
      later panic k = tt

  apply_operations-Runs :
      (ops : List CapeModelOperation) (s : State lib) (es : List CapeModelEthEffect)
      → Ensures (Runs (replaced_by_run ops s) s es) (apply_operations lib ops s es)
  unfolding apply_operations
  apply_operations-Runs [] s es = ([], sym (append-nil es), Rotates-same s)
  apply_operations-Runs (o ∷ ops) s es =
      after_operation ops s es (replaced o s) (apply_operation lib o s)
        (apply_operation-Rotates o s) (apply_operations-Runs ops)

  -- The state number is no part of the queue.
  returned-Rotates :
      (s : State lib) (roots : List NodeValue) (r : Result lib)
      → Ensures (Runs roots (next_state_number lib s) []) r
      → Rotates (if_returned r roots) s (settle lib s r)
  unfolding next_state_number
  returned-Rotates s roots (ok (u, es)) (fs, e, k) = subst (λ gs. Rotates roots s (u, gs)) (sym e) k
  returned-Rotates s roots (err e) h = Rotates-same s
  returned-Rotates s roots panic h = Rotates-same s

  submit_operations-Rotates :
      (ops : List CapeModelOperation) (s : State lib)
      → Rotates (replaced_by_call ops s) s (settle lib s (submit_operations lib ops s))
  unfolding submit_operations
  submit_operations-Rotates ops s =
      returned-Rotates s (replaced_by_run ops (next_state_number lib s))
        (apply_operations lib ops (next_state_number lib s) [])
        (apply_operations-Runs ops (next_state_number lib s) [])

  -- Over any history of calls from a state with at most 40 past roots, the queue is the first 40 of the
  -- roots that the record tree had before each block that a call committed, newest first, and of the
  -- old past roots; and there are as many of these roots as blocks are announced.
  pub history-past_record_merkle_roots :
      (calls : List (List CapeModelOperation)) (s : State lib)
      → length s.ledger.past_record_merkle_roots ≤ 40
      → let r = history lib calls s in
        (length (replaced_by_history calls s) ≡ blocks r.1)
        × (r.0.ledger.past_record_merkle_roots
            ≡ take 40 (replaced_by_history calls s ++ s.ledger.past_record_merkle_roots))
  unfolding history
  history-past_record_merkle_roots [] s small = Rotates-same s small
  history-past_record_merkle_roots (ops ∷ calls) s small =
      let r = settle lib s (submit_operations lib ops s) in
      let rest = history lib calls r.0 in
      Rotates-trans (replaced_by_call ops s) (replaced_by_history calls r.0) s r.0 rest.0 r.1 rest.1
        (submit_operations-Rotates ops s) (history-past_record_merkle_roots calls r.0) small
