-- ===== src/Sync/Outputs.antt =====
-- The outputs of a committed block's transitions (contracts/rust/src/ledger.rs) are the records that
-- the contract inserts for it (contracts/rust/src/model.rs).
use cape.Base.{
  ◌≡◌, refl, ap, ◌∙◌, some, List, [], ◌∷◌, ◌++◌, map, arith, ok, unwrap, append_assoc, >>=-eq-ok,
}
use cape.Cap.{RecordCommitment}
use cape.Model.Types.{CapeModelTxn, cap_txn, burn, CapeModelEthEffect, emit, CapeModelEvent}
use cape.Model.Notes.{commitments}
use cape.Model.Assets.{State}
use cape.Model.Block.{Checked}
use cape.Model.Admission.{Admissible}
use cape.Model.Rounds.{AllAdmissible, all_records, all_sent}
use cape.Ledger
use cape.Ledger.{CapeTransition, transaction}
use cape.Eqs.Types.{EqsLib}
use cape.Eqs.Commit.{all_output_commitments}
use cape.Sync.Trees.{TreeLaws}
use cape.Cap.{TransactionNote}

-- The events among the effects of a call.
abbrev pub emitted : List CapeModelEthEffect → List CapeModelEvent
emitted [] = []
emitted (CapeModelEthEffect.receive_erc20 code amount src ∷ es) = emitted es
emitted (CapeModelEthEffect.check_erc20_exists code ∷ es) = emitted es
emitted (CapeModelEthEffect.send_erc20 code amount dst ∷ es) = emitted es
emitted (emit event ∷ es) = event ∷ emitted es

pub emitted-append :
    (es fs : List CapeModelEthEffect) → emitted (es ++ fs) ≡ emitted es ++ emitted fs
emitted-append [] fs = refl
emitted-append (CapeModelEthEffect.receive_erc20 code amount src ∷ es) fs = emitted-append es fs
emitted-append (CapeModelEthEffect.check_erc20_exists code ∷ es) fs = emitted-append es fs
emitted-append (CapeModelEthEffect.send_erc20 code amount dst ∷ es) fs = emitted-append es fs
emitted-append (emit event ∷ es) fs = ap (◌∷◌ event) (emitted-append es fs)

module _ (lib : EqsLib) (laws : TreeLaws lib) where
  Admissible-commitments :
      (s : State lib.cap_lib) (t : CapeModelTxn) (c : Checked)
      → Admissible lib.cap_lib s t c
      → commitments lib.cap_lib t ≡ some c.new_records
  unfolding commitments
  Admissible-commitments s (cap_txn (TransactionNote.mint note)) c h =
      ground (arith, laws.outputs_law (TransactionNote.mint note))
  Admissible-commitments s (cap_txn (TransactionNote.transfer note)) c h =
      ground (arith, laws.outputs_law (TransactionNote.transfer note))
  Admissible-commitments s (cap_txn (TransactionNote.freeze note)) c h =
      ground (arith, laws.outputs_law (TransactionNote.freeze note))
  Admissible-commitments s (burn xfr ro) c (b, key, root, records, note, sent) =
      rw (b.outputs, records) refl

  -- The outputs of a block's transactions, in order.
  pub AllAdmissible-outputs :
      (s : State lib.cap_lib) (ts : List CapeModelTxn) (cs : List Checked)
      → AllAdmissible lib.cap_lib s ts cs
      → all_output_commitments lib (map transaction ts) ≡ ok (all_records cs)
  unfolding all_output_commitments Ledger.output_commitments
  AllAdmissible-outputs s [] [] h = refl
  AllAdmissible-outputs s [] (c ∷ cs) h = absurd h
  AllAdmissible-outputs s (t ∷ ts) [] h = absurd h
  AllAdmissible-outputs s (t ∷ ts) (c ∷ cs) h =
      rw (Admissible-commitments s t c h.0, AllAdmissible-outputs s ts cs h.2) refl

  -- The payments of a block are no events.
  pub emitted-all_sent :
      (s : State lib.cap_lib) (ts : List CapeModelTxn) (cs : List Checked)
      → AllAdmissible lib.cap_lib s ts cs
      → emitted (all_sent cs) ≡ []
  emitted-all_sent s [] [] h = refl
  emitted-all_sent s [] (c ∷ cs) h = absurd h
  emitted-all_sent s (t ∷ ts) [] h = absurd h
  emitted-all_sent s (t ∷ ts) (c ∷ cs) h =
      emitted-append c.sent (all_sent cs)
      ∙ (ap (λ es. es ++ emitted (all_sent cs)) (emitted-sent t h.0) ∙ emitted-all_sent s ts cs h.2)
    where
      emitted-sent : (u : CapeModelTxn) → Admissible lib.cap_lib s u c → emitted c.sent ≡ []
      emitted-sent (cap_txn (TransactionNote.mint note)) k = ap emitted k.4
      emitted-sent (cap_txn (TransactionNote.transfer note)) k = ap emitted k.5
      emitted-sent (cap_txn (TransactionNote.freeze note)) k = ap emitted k.4
      emitted-sent (burn xfr ro) k = ap emitted k.5

module _ (lib : EqsLib) where
  pub all_output_commitments-append :
      (ts us : List CapeTransition) (xs ys : List RecordCommitment)
      → all_output_commitments lib ts ≡ ok xs
      → all_output_commitments lib us ≡ ok ys
      → all_output_commitments lib (ts ++ us) ≡ ok (xs ++ ys)
  unfolding all_output_commitments
  all_output_commitments-append [] us xs ys h k = ground arith
  all_output_commitments-append (t ∷ ts) us xs ys h k =
      let (first, one, h1) = >>=-eq-ok (unwrap (Ledger.output_commitments lib.cap_lib t)) _ h in
      let (others, rest, h2) = >>=-eq-ok (all_output_commitments lib ts) _ h1 in
      ground
        (arith, all_output_commitments-append ts us others ys rest k, append_assoc first others ys)
