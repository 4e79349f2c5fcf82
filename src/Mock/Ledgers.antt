-- ===== src/Mock/Ledgers.antt =====
-- What the events of a call leave in `MockCapeNetwork` of wallet/src/mocks.rs: its records and its pending
-- deposits.
use cape.Base.{
  ℕ, ◌+◌, ◌≡◌, refl, sym, ap, subst, ◌∙◌, inl, inr, Bool-cases, Option, none, some, List, [], ◌∷◌,
  ◌++◌, arith, Outcome, ok, err, panic, unwrap, guard, ok_or, >>=-eq-ok, ◌==◌, nat_eq, nat_beq_iff,
  All, pair_eq,
}
use cape.Base.Map.{Map, lookup, insert, erase}
use cape.Cap.{RecordCommitment}
use cape.Ledger
use cape.Ledger.{CapeTransition, transaction, wrap_transition, kind}
use cape.Eqs.Types.{EqsLib, ReceiverMemo, Signature}
use cape.Eqs.Commit.{push_commitments, all_output_commitments}
use cape.Mock.Network.{
  Deposit, MockCapeNetwork, generate_event, take_deposits, add_transactions, validate_memos,
  merkle_paths, not_posted, post_memos, unwrap_result, post_call_data, post_all,
  invalid_transaction_id, memos_already_posted, PostError,
}

unwrap-ok : {E A : Type 0} (o : Option A) (a : A) → unwrap {E = E} o ≡ ok a → o ≡ some a
unwrap-ok none a h = cc
unwrap-ok (some b) a h = ground arith

module _ {V : Type 0} (P : ℕ × V → Type 0) where
  pub All-insert : (k : ℕ) (v : V) (m : Map ℕ V) → All P m → P (k, v) → All P (insert k v m)
  All-insert k v [] h p = (p, tt)
  All-insert k v ((j, w) ∷ m) h p = elim (Bool-cases (k == j)) [
    | inl same ↦ rw same (p, h.1)
    | inr other ↦ rw other (h.0, All-insert k v m h.1 p)
  ]

  All-erase : (k : ℕ) (m : Map ℕ V) → All P m → All P (erase k m)
  All-erase k [] h = tt
  All-erase k ((j, w) ∷ m) h = elim (Bool-cases (k == j)) [
    | inl same ↦ rw same (All-erase k m h.1)
    | inr other ↦ rw other (h.0, All-erase k m h.1)
  ]

  All-lookup : (k : ℕ) (v : V) (m : Map ℕ V) → All P m → lookup k m ≡ some v → P (k, v)
  All-lookup k v [] h found = cc
  All-lookup k v ((j, w) ∷ m) h found = elim (Bool-cases (k == j)) [
    | inl same ↦
        let ej : j ≡ k = sym ((nat_beq_iff k j).0 same) in
        let ew : w ≡ v = ground (arith, same, found) in
        subst (λ p. P p) (ap (λ i. (i, w)) ej ∙ ap (λ x. (k, x)) ew) h.0
    | inr other ↦ All-lookup k v m h.1 (ground (arith, other, found))
  ]

module _ (lib : EqsLib) where
  -- A pending deposit is filed under its record's commitment.
  abbrev pub Keyed : RecordCommitment × Deposit → Type 0
  Keyed (comm, deposit) = lib.cap_lib.record_commitment deposit.2 ≡ comm

  pub take_deposits_lem :
      {E : Type 0} (comms : List RecordCommitment) (pending : Map RecordCommitment Deposit)
      (taken : List CapeTransition × Map RecordCommitment Deposit)
      → All Keyed pending
      → take_deposits lib {E = E} comms pending ≡ ok taken
      → (all_output_commitments lib taken.0 ≡ ok comms) × All Keyed taken.1
  unfolding take_deposits all_output_commitments Ledger.output_commitments
  take_deposits_lem [] pending taken keyed h =
      let same : taken ≡ ([], pending) = ground arith in rw same (refl, keyed)
  take_deposits_lem {E = E} (comm ∷ comms) pending taken keyed h =
      let ((code, src, ro), deposit, h1) = >>=-eq-ok (unwrap {E = E} (lookup comm pending)) _ h in
      let (rest, others, h2) =
        >>=-eq-ok (take_deposits lib {E = E} comms (erase comm pending)) _ h1 in
      let (outputs, kept) =
        take_deposits_lem comms (erase comm pending) rest (All-erase Keyed comm pending keyed)
          others in
      let key : lib.cap_lib.record_commitment ro ≡ comm =
        All-lookup Keyed comm (code, src, ro) pending keyed
          (unwrap-ok (lookup comm pending) (code, src, ro) deposit) in
      let same : taken ≡ (wrap_transition code src ro ∷ rest.0, rest.1) = ground arith in
      rw (same, outputs, key) (refl, kept)

  pub push_commitments-append :
      (t : lib.Tree) (xs ys : List RecordCommitment)
      → (push_commitments lib t (xs ++ ys)).0
        ≡ (push_commitments lib (push_commitments lib t xs).0 ys).0
  unfolding push_commitments
  push_commitments-append t [] ys = refl
  push_commitments-append t (x ∷ xs) ys = push_commitments-append (lib.push_leaf t x) xs ys

  -- What a step of the network leaves alone.
  abbrev pub Keeps : MockCapeNetwork lib → MockCapeNetwork lib → Type 0
  Keeps net net' =
      (net'.records ≡ net.records) × (net'.pending_erc20_deposits ≡ net.pending_erc20_deposits)

  pub add_transactions_lem :
      {E : Type 0} (i : ℕ) (ts : List CapeTransition) (net net' : MockCapeNetwork lib)
      (rcs : List RecordCommitment)
      → add_transactions lib {E = E} i ts net ≡ ok net'
      → all_output_commitments lib ts ≡ ok rcs
      → (net'.records ≡ (push_commitments lib net.records rcs).0)
        × (net'.pending_erc20_deposits ≡ net.pending_erc20_deposits)
  unfolding add_transactions all_output_commitments push_commitments
  add_transactions_lem i [] net net' rcs h outputs =
      let same : net' ≡ net = ground arith in
      let empty : rcs ≡ [] = ground arith in rw (same, empty) (refl, refl)
  add_transactions_lem {E = E} i (t ∷ ts) net net' rcs h outputs =
      let (comms, at, h1) =
        >>=-eq-ok (unwrap {E = E} (Ledger.output_commitments lib.cap_lib t)) _ h in
      let (first, at_first, o1) =
        >>=-eq-ok (unwrap (Ledger.output_commitments lib.cap_lib t)) _ outputs in
      let (others, at_others, o2) = >>=-eq-ok (all_output_commitments lib ts) _ o1 in
      let r = push_commitments lib net.records comms in
      let added : MockCapeNetwork lib = record net {
        records = r.0;
        txns = insert (net.block_height, i) (record { txn = t; uids = r.1; memos = none }) net.txns;
      } in
      let (grown, kept) = add_transactions_lem {E = E} (i + 1) ts added net' others h1 at_others in
      let same : first ≡ comms = ground arith in
      let all : rcs ≡ comms ++ others = ground arith in
      (
        grown
            ∙ (sym (push_commitments-append net.records comms others)
                ∙ ap (λ xs. (push_commitments lib net.records xs).0) (sym all)),
        kept,
      )

  post_memos-Keeps :
      (block_id txn_id : ℕ) (memos : List ReceiverMemo) (sig : Signature)
      (net net' : MockCapeNetwork lib)
      → post_memos lib block_id txn_id memos sig net ≡ ok net'
      → Keeps net net'
  unfolding post_memos generate_event
  post_memos-Keeps block_id txn_id memos sig net net' h =
      let (txn, found, h1) =
        >>=-eq-ok (ok_or (lookup (block_id, txn_id) net.txns) invalid_transaction_id) _ h in
      let (u, fresh, h2) = >>=-eq-ok (guard (not_posted lib txn.memos) memos_already_posted) _ h1 in
      let (v, valid, h3) = >>=-eq-ok (validate_memos lib txn.txn memos sig) _ h2 in
      let (paths, at, h4) =
        >>=-eq-ok (merkle_paths lib {E = PostError} net.records txn.uids) _ h3 in
      let (comms, outputs, h5) =
        >>=-eq-ok (unwrap {E = PostError} (Ledger.output_commitments lib.cap_lib txn.txn)) _ h4 in
      (ground arith, ground arith)

  unwrap_result-ok :
      {E F A : Type 0} (r : Outcome F A) (a : A) → unwrap_result lib {E = E} r ≡ ok a → r ≡ ok a
  unwrap_result-ok (ok b) a h = ground arith
  unwrap_result-ok (err e) a h = cc
  unwrap_result-ok panic a h = cc

  post_call_data-Keeps :
      {E : Type 0} (txn_id : ℕ) (called : Option (List ReceiverMemo × Signature))
      (net net' : MockCapeNetwork lib)
      → post_call_data lib {E = E} txn_id called net ≡ ok net'
      → Keeps net net'
  unfolding post_call_data
  post_call_data-Keeps txn_id none net net' h = (ground arith, ground arith)
  post_call_data-Keeps txn_id (some (memos, sig)) net net' h =
      post_memos-Keeps net.block_height txn_id memos sig net net'
        (unwrap_result-ok (post_memos lib net.block_height txn_id memos sig net) net' h)

  pub post_all-Keeps :
      {E : Type 0} (txn_id : ℕ) (ts : List CapeTransition) (net net' : MockCapeNetwork lib)
      → post_all lib {E = E} txn_id ts net ≡ ok net'
      → Keeps net net'
  unfolding post_all post_call_data
  post_all-Keeps txn_id [] net net' h = (ground arith, ground arith)
  post_all-Keeps {E = E} txn_id (t ∷ ts) net net' h =
      let called = lookup (lib.commit t) net.call_data in
      let left : MockCapeNetwork lib = record net {
        call_data = erase (lib.commit t) net.call_data;
      } in
      let (posted, first, h1) = >>=-eq-ok (post_call_data lib {E = E} txn_id called left) _ h in
      let (records, pending) = post_call_data-Keeps {E = E} txn_id called left posted first in
      let (records', pending') = post_all-Keeps {E = E} (txn_id + 1) ts posted net' h1 in
      (records' ∙ records, pending' ∙ pending)
