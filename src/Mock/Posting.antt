-- ===== src/Mock/Posting.antt =====
-- The memos of a transaction are posted once, `post_memos` of wallet/src/mocks.rs.
use cape.Base.{
  ℕ, ◌==◌, if◌then◌else◌, true, length, ◌≡◌, refl, sym, ap, ◌∙◌, Option, none, some, List, arith,
  ok, err, unwrap, guard, ok_or, >>=-eq-ok, nat_eq, pair_eq,
}
use cape.Base.Map.{lookup, insert, lookup-insert, lookup-insert_self}
use cape.Ledger
use cape.Ledger.{CapeTransition, transaction, wrap_transition}
use cape.Eqs.Types.{EqsLib, memos_event, ReceiverMemo, Signature}
use cape.Eqs.Commit.{Output, note_of}
use cape.Mock.Network.{
  MockCapeNetwork, CommittedTransaction, generate_event, validate_memos, merkle_paths, izip,
  not_posted, post_memos, invalid_transaction_id, memos_already_posted, PostError,
}

ok_or-some : {E A : Type 0} (e : E) (o : Option A) (a : A) → ok_or o e ≡ ok a → o ≡ some a
ok_or-some e none a h = cc
ok_or-some e (some b) a h = ground arith

module _ (lib : EqsLib) where
  -- The memos are signed by a transaction of users, and are as many as its outputs.
  abbrev pub MemosOf : CapeTransition → List ReceiverMemo → Signature → Type 0
  MemosOf (transaction txn) memos sig =
      (lib.verify_memos (note_of txn) memos sig ≡ true)
      × (length memos ≡ lib.output_len (transaction txn))
  MemosOf (wrap_transition code src ro) memos sig = ⊥
  MemosOf (CapeTransition.faucet ro) memos sig = ⊥

  validate_memos-MemosOf :
      (t : CapeTransition) (memos : List ReceiverMemo) (sig : Signature) (u : Unit {0})
      → validate_memos lib t memos sig ≡ ok u
      → MemosOf t memos sig
  unfolding validate_memos
  validate_memos-MemosOf (transaction txn) memos sig u h = ground arith
  validate_memos-MemosOf (wrap_transition code src ro) memos sig u h = cc
  validate_memos-MemosOf (CapeTransition.faucet ro) memos sig u h = cc

  not_posted-none :
      {E : Type 0} (e : E) (u : Unit {0}) (m : Option (List (Output lib) × Signature))
      → guard (not_posted lib m) e ≡ ok u
      → m ≡ none
  not_posted-none e u none h = refl
  not_posted-none e u (some posted) h = cc

  -- Memos that are posted are those of a transaction of users that has none yet: its note verifies their
  -- signature, and they are as many as its outputs. Afterwards the transaction is kept
  -- with outputs and this signature, all others have what they had, and no memos are posted for it
  -- again.
  pub post_memos_once :
      (block_id txn_id : ℕ) (memos memos' : List ReceiverMemo) (sig sig' : Signature)
      (net net' : MockCapeNetwork lib)
      → post_memos lib block_id txn_id memos sig net ≡ ok net'
      → (txn : CommittedTransaction lib) × (lookup (block_id, txn_id) net.txns ≡ some txn)
        × (txn.memos ≡ none)
        × MemosOf txn.txn memos sig
        × (outputs : List (Output lib)) × ((other : ℕ × ℕ)
            → lookup other net'.txns ≡ (
                if other == (block_id, txn_id)
                then some (record txn { memos = some (outputs, sig) })
                else lookup other net.txns))
        × (post_memos lib block_id txn_id memos' sig' net' ≡ err memos_already_posted)
  unfolding post_memos generate_event
  post_memos_once block_id txn_id memos memos' sig sig' net net' h =
      let (txn, found, h1) =
        >>=-eq-ok (ok_or (lookup (block_id, txn_id) net.txns) invalid_transaction_id) _ h in
      let (u, fresh, h2) = >>=-eq-ok (guard (not_posted lib txn.memos) memos_already_posted) _ h1 in
      let (v, valid, h3) = >>=-eq-ok (validate_memos lib txn.txn memos sig) _ h2 in
      let (paths, at, h4) =
        >>=-eq-ok (merkle_paths lib {E = PostError} net.records txn.uids) _ h3 in
      let (comms, outputs, h5) =
        >>=-eq-ok (unwrap {E = PostError} (Ledger.output_commitments lib.cap_lib txn.txn)) _ h4 in
      let posted : CommittedTransaction lib = record txn {
        memos = some (izip lib memos comms txn.uids paths, sig);
      } in
      let last : MockCapeNetwork lib =
        generate_event lib
          (memos_event (izip lib memos comms txn.uids paths)
            (some (block_id, txn_id, lib.commit txn.txn, Ledger.kind txn.txn)))
          (record net { txns = insert (block_id, txn_id) posted net.txns }) in
      let same : last ≡ net' = ground arith in
      let there : lookup (block_id, txn_id) net'.txns ≡ some posted =
        ap (λ n. lookup (block_id, txn_id) n.txns) (sym same)
        ∙ lookup-insert_self (block_id, txn_id) posted net.txns in
      let none_yet : txn.memos ≡ none = not_posted-none memos_already_posted u txn.memos fresh in
      (
        txn,
        ok_or-some invalid_transaction_id (lookup (block_id, txn_id) net.txns) txn found,
        none_yet,
        validate_memos-MemosOf txn.txn memos sig v valid,
        izip lib memos comms txn.uids paths,
        λ other.
            ap (λ n. lookup other n.txns) (sym same)
            ∙ lookup-insert other (block_id, txn_id) posted net.txns,
        rw there refl,
      )
