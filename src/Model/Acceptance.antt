-- ===== src/Model/Acceptance.antt =====
-- When `SubmitBlock` of contracts/rust/src/model.rs accepts a block, and what it then leaves, as a
-- specification that does not mention the loop.
use cape.Base.{
  ◌≡◌, ◌↔◌, refl, ap, subst, none, some, List, [], ◌∷◌, ◌++◌, map, filter, arith, ok, >>=-eq-ok,
  Option-cases, inl, inr, length, nat_eq, suc,
}
use cape.Base.Fresh.{FreshFor}
use cape.Cap.{CapLib}
use cape.Model.Types.{CapeModelTxn, CapeModelEthEffect, emit, block_committed}
use cape.Model.Assets.{State}
use cape.Model.Block.{
  Checked, Loop, process_txns, is_unspent, verify_batch, push_all, commit_block, finish_block,
  start, submit_block,
}
use cape.Model.Spent.{insert_all, spent_by}
use cape.Model.Rounds.{
  AllAdmissible, advance, all_sent, all_records, process_txns_lem, process_txns_of_AllAdmissible,
}

module _ (lib : CapLib) where
  -- The library accepts the proofs, or there are none.
  abbrev pub Verified : State lib → List CapeModelTxn → List Checked → Type 0
  Verified s [] cs = Unit
  Verified s (t ∷ ts) cs =
      lib.txn_batch_verify (map (λ c. c.note) cs) (map (λ c. c.merkle_root) cs)
        s.ledger.state_number (map (λ c. c.vkey) cs)
      ≡ none

  -- The state and the effects of a block with the transactions `ts`, of which `cs` is known.
  abbrev pub block_result :
      State lib
      → List CapeModelTxn
      → List Checked
      → lib.Builder
      → State lib × List CapeModelEthEffect
  block_result s ts cs builder = (
    commit_block lib (record s { nullifiers = insert_all (spent_by ts) s.nullifiers })
        (lib.into_frontier_and_commitment
          (push_all lib builder (all_records cs ++ s.erc20_deposits))),
    all_sent cs ++ (emit (block_committed ts s.erc20_deposits) ∷ []),
  )

  -- A block of the transactions `ts` is in order: no nullifier is spent before or twice, each
  -- transaction is admissible against the state before the block, the proofs verify, and the tree
  -- can be restored.
  abbrev pub Accepts : State lib → List CapeModelTxn → State lib × List CapeModelEthEffect → Type 0
  Accepts s ts r =
      (cs : List Checked) × (builder : lib.Builder) × FreshFor s.nullifiers (spent_by ts)
      × AllAdmissible lib s ts cs
      × Verified s ts cs
      × (lib.from_frontier s.ledger.record_merkle_commitment s.ledger.record_merkle_frontier
          ≡ some builder)
      × (r ≡ block_result s ts cs builder)

  length-AllAdmissible :
      (s : State lib) (ts : List CapeModelTxn) (cs : List Checked)
      → AllAdmissible lib s ts cs
      → length cs ≡ length ts
  length-AllAdmissible s [] [] h = refl
  length-AllAdmissible s [] (c ∷ cs) h = absurd h
  length-AllAdmissible s (t ∷ ts) [] h = absurd h
  length-AllAdmissible s (t ∷ ts) (c ∷ cs) h = ap suc (length-AllAdmissible s ts cs h.2)

  length-map : {A : Type 0} (f : Checked → A) (cs : List Checked) → length (map f cs) ≡ length cs
  length-map f [] = refl
  length-map f (c ∷ cs) = ap suc (length-map f cs)

  abbrev after_loop : State lib → List CapeModelTxn → List Checked → Loop lib.Frontier
  after_loop s ts cs = advance lib (start lib s) (spent_by ts) cs

  verify_batch_lem :
      (s : State lib) (ts : List CapeModelTxn) (cs : List Checked) {u : Unit {0}}
      → verify_batch lib (after_loop s ts cs) ts ≡ ok u
      → Verified s ts cs
  unfolding verify_batch
  verify_batch_lem s [] cs h = tt
  verify_batch_lem s (t ∷ ts) cs h = ground arith

  verify_batch_of_Verified :
      (s : State lib) (ts : List CapeModelTxn) (cs : List Checked)
      → AllAdmissible lib s ts cs
      → Verified s ts cs
      → verify_batch lib (after_loop s ts cs) ts ≡ ok tt
  unfolding verify_batch
  verify_batch_of_Verified s [] cs adms h = refl
  verify_batch_of_Verified s (t ∷ ts) cs adms h = ground (
    arith,
    length-AllAdmissible s (t ∷ ts) cs adms,
    length-map (λ c. c.note) cs,
    length-map (λ c. c.vkey) cs,
    length-map (λ c. c.merkle_root) cs,
  )

  finish_block_lem :
      (s : State lib) (ts : List CapeModelTxn) (cs : List Checked)
      (r : State lib × List CapeModelEthEffect)
      → FreshFor s.nullifiers (spent_by ts)
      → AllAdmissible lib s ts cs
      → finish_block lib (after_loop s ts cs) ts ≡ ok r
      → Accepts s ts r
  unfolding finish_block
  finish_block_lem s ts cs r fresh adms h =
      let (u, good, h1) = >>=-eq-ok (verify_batch lib (after_loop s ts cs) ts) _ h in
      elim (Option-cases
        (lib.from_frontier s.ledger.record_merkle_commitment s.ledger.record_merkle_frontier)) [
          | inl missing ↦ ground arith
          | inr (builder, restored) ↦
              (cs, builder, fresh, adms, verify_batch_lem s ts cs good, restored, ground arith)
        ]

  finish_block_of_Accepts :
      (s : State lib) (ts : List CapeModelTxn) (r : State lib × List CapeModelEthEffect)
      → (h : Accepts s ts r) → finish_block lib (after_loop s ts h.0) ts ≡ ok r
  unfolding finish_block
  finish_block_of_Accepts s ts r (cs, builder, fresh, adms, good, restored, e) =
      rw (verify_batch_of_Verified s ts cs adms good) (ground arith)

  -- `SubmitBlock` succeeds exactly on the blocks that are in order once the transactions with a
  -- nullifier already published are dropped, and its state and effects are the block's result.
  pub submit_block_iff :
      (txns : List CapeModelTxn) (s : State lib) (r : State lib × List CapeModelEthEffect)
      → (submit_block lib txns s ≡ ok r) ↔ Accepts s (filter (is_unspent s.nullifiers) txns) r
  unfolding submit_block
  submit_block_iff txns s r = (
    λ h.
        let ts : List CapeModelTxn = filter (is_unspent s.nullifiers) txns in
        let (l, looped, h1) = >>=-eq-ok (process_txns lib (start lib s) ts) _ h in
        let (cs, fresh, adms, e) = process_txns_lem lib (start lib s) ts l looped in
        finish_block_lem s ts cs r fresh adms
          (subst (λ (k : Loop lib.Frontier). finish_block lib k ts ≡ ok r) e h1),
    λ h.
        let ts : List CapeModelTxn = filter (is_unspent s.nullifiers) txns in
        rw (process_txns_of_AllAdmissible lib (start lib s) ts h.0 h.2 h.3)
          (finish_block_of_Accepts s ts r h),
  )
