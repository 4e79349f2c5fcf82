-- ===== src/Model/Rounds.antt =====
-- The loop over the transactions of a block in contracts/rust/src/model.rs as one step: what it
-- leaves, and when it gets through.
use cape.Base.{
  ◌≡◌, sym, ap, subst, ◌∙◌, true, List, [], ◌∷◌, ◌++◌, map, arith, ok, >>=-eq-ok, append-nil,
  append_assoc, nat_eq,
}
use cape.Base.Fresh.{FreshFor}
use cape.Cap.{Nullifier, RecordCommitment, CapLib}
use cape.Model.Types.{CapeModelTxn, CapeModelEthEffect}
use cape.Model.Notes.{nullifiers}
use cape.Model.Assets.{State}
use cape.Model.Block.{
  Checked, Loop, check_txn, process_txn, process_txns, is_recent_root, insert_nullifiers,
}
use cape.Model.Spent.{
  insert_all, spent_by, insert_all-append, FreshFor-append, insert_nullifiers_lem,
  insert_nullifiers_of_FreshFor, FreshFor-append-left, FreshFor-append-right,
}
use cape.Model.Admission.{
  Admissible, check_txn_sound, check_txn_complete, Admissible-nullifiers,
  Admissible-with_nullifiers,
}

-- The effects of the burns, in order.
abbrev pub all_sent : List Checked → List CapeModelEthEffect
all_sent [] = []
all_sent (c ∷ cs) = c.sent ++ all_sent cs

-- The records to insert, in order.
abbrev pub all_records : List Checked → List RecordCommitment
all_records [] = []
all_records (c ∷ cs) = c.new_records ++ all_records cs

module _ (lib : CapLib) where
  -- The checks of all transactions against one state.
  abbrev pub AllAdmissible : State lib → List CapeModelTxn → List Checked → Type 0
  AllAdmissible s [] [] = Unit
  AllAdmissible s [] (c ∷ cs) = ⊥
  AllAdmissible s (t ∷ ts) [] = ⊥
  AllAdmissible s (t ∷ ts) (c ∷ cs) =
      Admissible lib s t c × (is_recent_root s.ledger c.merkle_root ≡ true) × AllAdmissible s ts cs

  AllAdmissible-nullifiers :
      (s : State lib) (ns : List Nullifier) (ts : List CapeModelTxn) (cs : List Checked)
      → AllAdmissible (record s { nullifiers = ns }) ts cs
      → AllAdmissible s ts cs
  AllAdmissible-nullifiers s ns [] [] h = h
  AllAdmissible-nullifiers s ns [] (c ∷ cs) h = h
  AllAdmissible-nullifiers s ns (t ∷ ts) [] h = h
  AllAdmissible-nullifiers s ns (t ∷ ts) (c ∷ cs) h =
      (Admissible-nullifiers lib s ns t c h.0, h.1, AllAdmissible-nullifiers s ns ts cs h.2)

  AllAdmissible-with_nullifiers :
      (s : State lib) (ns : List Nullifier) (ts : List CapeModelTxn) (cs : List Checked)
      → AllAdmissible s ts cs
      → AllAdmissible (record s { nullifiers = ns }) ts cs
  AllAdmissible-with_nullifiers s ns [] [] h = h
  AllAdmissible-with_nullifiers s ns [] (c ∷ cs) h = h
  AllAdmissible-with_nullifiers s ns (t ∷ ts) [] h = h
  AllAdmissible-with_nullifiers s ns (t ∷ ts) (c ∷ cs) h = (
    Admissible-with_nullifiers lib s ns t c h.0,
    h.1,
    AllAdmissible-with_nullifiers s ns ts cs h.2,
  )

  -- The variables of the loop after the nullifiers `ns` and the checked transactions `cs`.
  abbrev pub advance : Loop lib.Frontier → List Nullifier → List Checked → Loop lib.Frontier
  advance l ns cs = record {
    new_state = record (l.new_state) { nullifiers = insert_all ns l.new_state.nullifiers };
    effects = l.effects ++ all_sent cs;
    verif_keys = l.verif_keys ++ map (λ c. c.vkey) cs;
    merkle_roots = l.merkle_roots ++ map (λ c. c.merkle_root) cs;
    records_to_insert = l.records_to_insert ++ all_records cs;
    notes = l.notes ++ map (λ c. c.note) cs;
  }

  advance_nil : (l : Loop lib.Frontier) → advance l [] [] ≡ l
  advance_nil l = ground (
    arith,
    append-nil l.effects,
    append-nil l.verif_keys,
    append-nil l.merkle_roots,
    append-nil l.records_to_insert,
    append-nil l.notes,
  )

  advance_cons :
      (l : Loop lib.Frontier) (ns ms : List Nullifier) (c : Checked) (cs : List Checked)
      → advance (advance l ns (c ∷ [])) ms cs ≡ advance l (ns ++ ms) (c ∷ cs)
  advance_cons l ns ms c cs = simp (insert_all-append, append_assoc, append-nil)

  -- What one round does when it gets through.
  process_txn_lem :
      (l : Loop lib.Frontier) (t : CapeModelTxn) (l' : Loop lib.Frontier)
      → process_txn lib l t ≡ ok l'
      → (c : Checked) × FreshFor l.new_state.nullifiers (nullifiers t)
        × Admissible lib l.new_state t c
        × (is_recent_root l.new_state.ledger c.merkle_root ≡ true)
        × (l' ≡ advance l (nullifiers t) (c ∷ []))
  unfolding process_txn
  process_txn_lem l t l' h =
      let (spent, inserted, h1) =
        >>=-eq-ok (insert_nullifiers (nullifiers t) l.new_state.nullifiers) _ h in
      let (c, checked, h2) =
        >>=-eq-ok (check_txn lib (record (l.new_state) { nullifiers = spent }) t) _ h1 in
      (
        c,
        ground (arith, insert_nullifiers_lem (nullifiers t) l.new_state.nullifiers),
        Admissible-nullifiers lib l.new_state spent t c (check_txn_sound lib _ t c checked),
        ground arith,
        ground (
          arith,
          insert_nullifiers_lem (nullifiers t) l.new_state.nullifiers,
          append-nil c.sent,
          append-nil c.new_records,
        ),
      )

  -- The round gets through on an admissible transaction with fresh nullifiers.
  process_txn_of_Admissible :
      (l : Loop lib.Frontier) (t : CapeModelTxn) (c : Checked)
      → FreshFor l.new_state.nullifiers (nullifiers t)
      → Admissible lib l.new_state t c
      → is_recent_root l.new_state.ledger c.merkle_root ≡ true
      → process_txn lib l t ≡ ok (advance l (nullifiers t) (c ∷ []))
  unfolding process_txn is_recent_root
  process_txn_of_Admissible l t c fresh adm recent =
      let ns : List Nullifier = insert_all (nullifiers t) l.new_state.nullifiers in
      let s : State lib = record (l.new_state) { nullifiers = ns } in
      rw (insert_nullifiers_of_FreshFor (nullifiers t) l.new_state.nullifiers fresh) (
        ground (
          arith,
          check_txn_complete lib s t c (Admissible-with_nullifiers lib l.new_state ns t c adm),
          append-nil c.sent,
          append-nil c.new_records,
        ))

  -- What the loop does when it gets through.
  pub process_txns_lem :
      (l : Loop lib.Frontier) (ts : List CapeModelTxn) (l' : Loop lib.Frontier)
      → process_txns lib l ts ≡ ok l'
      → (cs : List Checked) × FreshFor l.new_state.nullifiers (spent_by ts)
        × AllAdmissible l.new_state ts cs
        × (l' ≡ advance l (spent_by ts) cs)
  unfolding process_txns
  process_txns_lem l [] l' h = ([], tt, tt, ground (arith, advance_nil l))
  process_txns_lem l (t ∷ ts) l' h =
      let (l1, first, h1) = >>=-eq-ok (process_txn lib l t) _ h in
      let (c, fresh, adm, recent, e1) = process_txn_lem l t l1 first in
      let (cs, freshs, adms, e) = process_txns_lem l1 ts l' h1 in
      (
        c ∷ cs,
        FreshFor-append (nullifiers t) (spent_by ts) l.new_state.nullifiers fresh (
            subst (λ (k : Loop lib.Frontier). FreshFor k.new_state.nullifiers (spent_by ts)) e1
              freshs),
        (
          adm,
          recent,
          AllAdmissible-nullifiers l.new_state (insert_all (nullifiers t) l.new_state.nullifiers) ts
              cs (subst (λ (k : Loop lib.Frontier). AllAdmissible k.new_state ts cs) e1 adms),
        ),
        e
            ∙ (ap (λ k. advance k (spent_by ts) cs) e1
                ∙ advance_cons l (nullifiers t) (spent_by ts) c cs),
      )

  -- The loop gets through a list of admissible transactions whose nullifiers are fresh in turn.
  pub process_txns_of_AllAdmissible :
      (l : Loop lib.Frontier) (ts : List CapeModelTxn) (cs : List Checked)
      → FreshFor l.new_state.nullifiers (spent_by ts)
      → AllAdmissible l.new_state ts cs
      → process_txns lib l ts ≡ ok (advance l (spent_by ts) cs)
  unfolding process_txns
  process_txns_of_AllAdmissible l [] [] fresh adms = ap ok (sym (advance_nil l))
  process_txns_of_AllAdmissible l [] (c ∷ cs) fresh adms = absurd adms
  process_txns_of_AllAdmissible l (t ∷ ts) [] fresh adms = absurd adms
  process_txns_of_AllAdmissible l (t ∷ ts) (c ∷ cs) fresh (adm, recent, adms) =
      let fresh_t : FreshFor l.new_state.nullifiers (nullifiers t) =
        FreshFor-append-left (nullifiers t) (spent_by ts) l.new_state.nullifiers fresh in
      let fresh_ts : FreshFor (insert_all (nullifiers t) l.new_state.nullifiers) (spent_by ts) =
        FreshFor-append-right (nullifiers t) (spent_by ts) l.new_state.nullifiers fresh in
      rw (process_txn_of_Admissible l t c fresh_t adm recent) (
        process_txns_of_AllAdmissible (advance l (nullifiers t) (c ∷ [])) ts cs fresh_ts (
          AllAdmissible-with_nullifiers l.new_state
            (insert_all (nullifiers t) l.new_state.nullifiers) ts cs adms)
        ∙ ap ok (advance_cons l (nullifiers t) (spent_by ts) c cs))
