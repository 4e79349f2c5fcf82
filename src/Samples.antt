-- ===== src/Samples.antt =====
-- A small library and small data on which the theorems about the services of eqs/src are run.
use cape.Base.{
  ℕ, ◌+◌, ◌-◌, ◌≡◌, true, false, none, some, List, [], ◌∷◌, ◌++◌, ok, err, length, get_elem?,
  Outcome, arith, ◌==◌, ◌*◌, panic, nat_eq, list_eq, pair_eq,
}
use cape.Cap.{RecordOpening, TransactionNote, VerifierKeySet, CapLib, RecordCommitment}
use cape.Model.Types.{CapeModelTxn, cap_txn}
use cape.Ledger.{CapeTransition}
use cape.Eqs.Types.{EqsLib, init}
use cape.Eqs.Commit.{Polling}

abbrev pub cap_tree : CapLib
cap_tree = record {
  Frontier = List ℕ;
  Builder = List ℕ;
  from_frontier = λ commitment leaves. some leaves;
  push = λ leaves rc. leaves ++ (rc ∷ []);
  into_frontier_and_commitment = λ leaves.
      (leaves, record { root_value = length leaves; height = 24; num_leaves = length leaves });
  record_commitment = λ ro. ro.amount + 1000 * ro.blind;
  encode_policy = λ policy. policy ∷ [];
  verify_foreign = λ code description. true;
  output_commitments = λ note. elim note [
    | TransactionNote.transfer t ↦ t.output_commitments
    | TransactionNote.mint m ↦ m.chg_comm ∷ m.mint_comm ∷ []
    | TransactionNote.freeze f ↦ f.output_commitments
  ];
  txn_batch_verify = λ notes roots height keys. none;
}

abbrev pub outputs_len : CapeTransition → ℕ
outputs_len (CapeTransition.transaction (cap_txn note)) = length (cap_tree.output_commitments note)
outputs_len (CapeTransition.transaction (CapeModelTxn.burn xfr ro)) =
    length xfr.output_commitments - 1
outputs_len (CapeTransition.wrap_transition code src ro) = 1
outputs_len (CapeTransition.faucet ro) = 1

-- A tree is its leaves, and a path the leaf; memos are valid under the signature 1.
abbrev pub eqs_lib : EqsLib
eqs_lib = record {
  cap_lib = cap_tree;
  Tree = List ℕ;
  MerklePath = ℕ;
  restore_from_frontier = λ commitment leaves. some leaves;
  num_leaves = length;
  push_leaf = λ leaves rc. leaves ++ (rc ∷ []);
  leaf_path = get_elem?;
  commitment =
      λ leaves. record { root_value = length leaves; height = 24; num_leaves = length leaves };
  frontier = λ leaves. leaves;
  commit = outputs_len;
  output_len = outputs_len;
  verify_memos = λ note memos sig. sig == 1;
  memo_from_ro = λ ro. some ro.amount;
}

pub push-length :
    (leaves : List ℕ) (rc : RecordCommitment) → length (leaves ++ (rc ∷ [])) ≡ length leaves + 1
push-length [] rc = omega arith
push-length (x ∷ leaves) rc = omega (arith, push-length leaves rc)

abbrev pub keys : VerifierKeySet
keys = record { mint = 1; xfr = λ i o. some 2; freeze = λ i o. some 3 }

abbrev pub start : Polling eqs_lib
start = record {
  query_result_state = init keys (record { root_value = 0; height = 24; num_leaves = 0 }) [];
  persisted = none;
  last_event_index = none;
  next_block_to_query = 0;
  max_blocks_to_query = 10;
  pending_commit_event = [];
  num_confirmations = record { number = 2 };
}

abbrev pub granted : RecordOpening
granted = record {
  amount = 5;
  asset_def = record { code = 1; policy_ref = 0 };
  pub_key = 9;
  freeze_flag = false;
  blind = 3;
}

abbrev pub txn : ℕ → CapeModelTxn
txn n = cap_txn (
    TransactionNote.transfer (record {
      inputs_nullifiers = (n ∷ []);
      output_commitments = (n + 100) ∷ (n + 200) ∷ [];
      merkle_root = 0;
      valid_until = 10;
      extra_proof_bound_data = [];
      proof = 0;
    }))

abbrev pub value_of : {E A : Type 0} → A → Outcome E A → A
value_of a (ok b) = b
value_of a (err e) = a
value_of a panic = a
