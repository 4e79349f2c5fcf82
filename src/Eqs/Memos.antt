-- ===== src/Eqs/Memos.antt =====
-- The memo events of `EthPolling::check_range` in eqs/src/eth_polling.rs: which records the memos of
-- a transaction are sent with.
use cape.Base.{
  ℕ, ◌+◌, ◌≡◌, List, [], ◌∷◌, ◌++◌, map, arith, ok, get_elem?, length, take, drop, take-add,
  drop-drop, drop-get_elem?, unwrap, >>=-eq-ok, inl, inr, if◌then◌else◌, Bool-cases,
}
use cape.Cap.{RecordCommitment}
use cape.Model.Types.{CapeModelTxn}
use cape.Eqs.Types.{EqsLib, commit_event, memos_event, ReceiverMemo, Signature}
use cape.Eqs.Commit.{Output, Event, note_of, memo_outputs, memo_events}

module _ (lib : EqsLib) where
  -- The commitments that an event carries.
  abbrev pub event_commitments : Event lib → List RecordCommitment
  event_commitments (commit_event block block_id state_comm) = []
  event_commitments (memos_event outputs txn) = map (λ (o : Output lib). o.1) outputs

  abbrev pub commitments_of : List (Event lib) → List RecordCommitment
  commitments_of [] = []
  commitments_of (e ∷ es) = event_commitments e ++ commitments_of es

  -- All memos, of the transactions with a valid signature.
  abbrev pub valid_memos : List (CapeModelTxn × List ReceiverMemo × Signature) → ℕ
  valid_memos [] = 0
  valid_memos ((tx, memos, sig) ∷ rest) =
      (if lib.verify_memos (note_of tx) memos sig then length memos else 0) + valid_memos rest

  memo_outputs_lem :
      (rcs : List RecordCommitment) (uids : List ℕ) (paths : List lib.MerklePath) (index : ℕ)
      (memos : List ReceiverMemo) (outputs : List (Output lib))
      → memo_outputs lib rcs uids paths index memos ≡ ok outputs
      → map (λ (o : Output lib). o.1) outputs ≡ take (length memos) (drop index rcs)
  unfolding memo_outputs
  memo_outputs_lem rcs uids paths index [] outputs h = ground arith
  memo_outputs_lem rcs uids paths index (memo ∷ memos) outputs h =
      let (rc, here, h1) = >>=-eq-ok (unwrap (get_elem? rcs index)) _ h in
      let (uid, at, h2) = >>=-eq-ok (unwrap (get_elem? uids index)) _ h1 in
      let (path, pth, h3) = >>=-eq-ok (unwrap (get_elem? paths index)) _ h2 in
      let (others, rest, h4) = >>=-eq-ok (memo_outputs lib rcs uids paths (index + 1) memos) _ h3 in
      ground (
        arith,
        memo_outputs_lem rcs uids paths (index + 1) memos others rest,
        drop-get_elem? index rcs rc,
      )

  -- The memo events of a block carry the block's commitments one after the other from the start,
  -- as many as there are memos with a valid signature. The outputs of a transaction whose
  -- signature is not valid are not passed over.
  pub memo_events-shifted :
      (block_id : ℕ) (rcs : List RecordCommitment) (uids : List ℕ) (paths : List lib.MerklePath)
      (txn_id index : ℕ) (entries : List (CapeModelTxn × List ReceiverMemo × Signature))
      (es : List (Event lib))
      → memo_events lib block_id rcs uids paths txn_id index entries ≡ ok es
      → commitments_of es ≡ take (valid_memos entries) (drop index rcs)
  unfolding memo_events
  memo_events-shifted block_id rcs uids paths txn_id index [] es h = ground arith
  memo_events-shifted block_id rcs uids paths txn_id index ((tx, memos, sig) ∷ rest) es h =
      elim (Bool-cases (lib.verify_memos (note_of tx) memos sig)) [
        | inl valid ↦
            let (outputs, made, h1) =
              >>=-eq-ok (memo_outputs lib rcs uids paths index memos) _
                (rw (valid, memo_events) at h) in
            let (others, following, h2) =
              >>=-eq-ok
                (memo_events lib block_id rcs uids paths (txn_id + 1) (index + length memos) rest) _
                h1 in
            ground (
              arith,
              memo_outputs_lem rcs uids paths index memos outputs made,
              memo_events-shifted block_id rcs uids paths (txn_id + 1) (index + length memos) rest
                  others following,
              take-add (length memos) (valid_memos rest) (drop index rcs),
              drop-drop index (length memos) rcs,
            )
        | inr invalid ↦
            ground (arith, memo_events-shifted block_id rcs uids paths (txn_id + 1) index rest es)
      ]
