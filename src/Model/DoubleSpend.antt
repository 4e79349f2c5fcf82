-- ===== src/Model/DoubleSpend.antt =====
-- No nullifier is spent twice: what the `BlockCommitted` events of contracts/rust/src/model.rs
-- publish over a history of calls.
use cape.Base.{
  ◌≡◌, refl, sym, ap, subst, ◌∙◌, Bool, true, false, ◌||◌, List, [], ◌∷◌, ◌++◌, filter, arith,
  Ensures, Ensures-intro, append-nil, append_assoc, nat_eq,
}
use cape.Base.Fresh.{contains, Distinct, FreshFor}
use cape.Cap.{Nullifier, TransactionNote, CapLib, VerifierKeySet, MerkleCommitment}
use cape.Model.Types.{
  CapeModelTxn, CapeModelOperation, CapeModelEvent, CapeModelEthEffect, cap_txn, burn, emit,
  block_committed, receive_erc20, check_erc20_exists, send_erc20,
}
use cape.Model.State.{init}
use cape.Model.Assets.{State, register, wrap}
use cape.Model.Block.{Checked, submit_block, is_unspent, commit_block}
use cape.Model.Submit.{apply_operation, next_state_number, history}
use cape.Model.Spent.{
  insert_all, spent_by, insert_all-append, FreshFor-append, FreshFor-Distinct, contains-insert_all,
}
use cape.Model.Admission.{Admissible}
use cape.Model.Rounds.{AllAdmissible, all_sent}
use cape.Model.Acceptance.{Accepts, submit_block_iff}
use cape.Model.Traces.{history_rel}

-- The nullifiers of the blocks that an effect announces.
abbrev pub published_by : CapeModelEthEffect → List Nullifier
published_by (emit (block_committed txns wraps)) = spent_by txns
published_by (emit (CapeModelEvent.erc20_deposited code src ro)) = []
published_by (receive_erc20 code amount src) = []
published_by (check_erc20_exists code) = []
published_by (send_erc20 code amount dst) = []

abbrev pub published : List CapeModelEthEffect → List Nullifier
published [] = []
published (e ∷ es) = published_by e ++ published es

published-append :
    (es fs : List CapeModelEthEffect) → published (es ++ fs) ≡ published es ++ published fs
published-append [] fs = refl
published-append (e ∷ es) fs =
    rw (published-append es fs) (sym (append_assoc (published_by e) (published es) (published fs)))

or_false : (b : Bool) → (b || false) ≡ b
or_false true = refl
or_false false = refl

module _ (lib : CapLib) where
  -- The published nullifiers were fresh one after the other, and the set has grown by them alone.
  abbrev pub Publishes : State lib → State lib × List CapeModelEthEffect → Type 0
  Publishes s r =
      FreshFor s.nullifiers (published r.1)
      × (r.0.nullifiers ≡ insert_all (published r.1) s.nullifiers)

  published-sent :
      (s : State lib) (t : CapeModelTxn) (c : Checked)
      → Admissible lib s t c
      → published c.sent ≡ []
  published-sent s (cap_txn (TransactionNote.mint note)) c h = ap published h.4
  published-sent s (cap_txn (TransactionNote.transfer note)) c h = ap published h.5
  published-sent s (cap_txn (TransactionNote.freeze note)) c h = ap published h.4
  published-sent s (burn xfr ro) c h = ap published h.5

  published-all_sent :
      (s : State lib) (ts : List CapeModelTxn) (cs : List Checked)
      → AllAdmissible lib s ts cs
      → published (all_sent cs) ≡ []
  published-all_sent s [] [] h = refl
  published-all_sent s [] (c ∷ cs) h = absurd h
  published-all_sent s (t ∷ ts) [] h = absurd h
  published-all_sent s (t ∷ ts) (c ∷ cs) h =
      rw (published-append c.sent (all_sent cs), published-sent s t c h.0)
        (published-all_sent s ts cs h.2)

  Accepts-Publishes :
      (s : State lib) (ts : List CapeModelTxn) (r : State lib × List CapeModelEthEffect)
      → Accepts lib s ts r
      → Publishes s r
  unfolding commit_block
  Accepts-Publishes s ts r (cs, builder, fresh, adms, good, restored, e) =
      let same : published r.1 ≡ spent_by ts =
        ap (λ (q : State lib × List CapeModelEthEffect). published q.1) e
        ∙ (published-append (all_sent cs) (emit (block_committed ts s.erc20_deposits) ∷ [])
            ∙ (ap (λ ns. ns ++ (spent_by ts ++ [])) (published-all_sent s ts cs adms)
                ∙ append-nil (spent_by ts))) in
      (
        subst (FreshFor s.nullifiers) (sym same) fresh,
        ap (λ (q : State lib × List CapeModelEthEffect). q.0.nullifiers) e
            ∙ ap (λ ns. insert_all ns s.nullifiers) (sym same),
      )

  -- A block publishes exactly what its transactions spend; the other operations publish nothing.
  pub apply_operation-Publishes :
      (o : CapeModelOperation) (s : State lib) → Ensures (Publishes s) (apply_operation lib o s)
  unfolding apply_operation register wrap
  apply_operation-Publishes (CapeModelOperation.register_erc20 def code sponsor) s = ground arith
  apply_operation-Publishes (CapeModelOperation.wrap_erc20 code src ro) s = ground arith
  apply_operation-Publishes (CapeModelOperation.submit_block txns) s =
      Ensures-intro (Publishes s) (submit_block lib txns s) (λ r h.
        Accepts-Publishes s (filter (is_unspent s.nullifiers) txns) r
          ((submit_block_iff lib txns s r).0 h))

  Publishes-trans :
      (s t u : State lib) (es fs : List CapeModelEthEffect)
      → Publishes s (t, es)
      → Publishes t (u, fs)
      → Publishes s (u, es ++ fs)
  Publishes-trans s t u es fs (fresh, e) (fresh', e') = rw (published-append es fs) (
    FreshFor-append (published es) (published fs) s.nullifiers fresh
        (subst (λ ns. FreshFor ns (published fs)) e fresh'),
    e'
        ∙ (ap (insert_all (published fs)) e
            ∙ sym (insert_all-append (published es) (published fs) s.nullifiers)),
  )

  -- Over any history the nullifiers are fresh one after the other.
  pub history-Publishes :
      (calls : List (List CapeModelOperation)) (s : State lib) → Publishes s (history lib calls s)
  unfolding next_state_number
  history-Publishes =
      history_rel lib Publishes (λ s. (tt, refl)) (λ s. (tt, refl)) Publishes-trans
        apply_operation-Publishes

  -- From a new contract, over any history of calls with any operations: the nullifiers of all the
  -- blocks that are committed are pairwise distinct, and the contract's set holds them and no other.
  pub history-no_double_spend :
      (calls : List (List CapeModelOperation)) (crs : VerifierKeySet) (tree : MerkleCommitment)
      (frontier : lib.Frontier)
      → let r = history lib calls (init crs tree frontier) in
        Distinct (published r.1)
        × ((n : Nullifier) → contains r.0.nullifiers n ≡ contains (published r.1) n)
  unfolding init
  history-no_double_spend calls crs tree frontier =
      let s : State lib = init crs tree frontier in
      let (fresh, e) = history-Publishes calls s in
      (
        FreshFor-Distinct (published (history lib calls s).1) [] fresh,
        λ n.
            ap (λ ns. contains ns n) e
            ∙ (contains-insert_all (published (history lib calls s).1) [] n ∙ or_false _),
      )
