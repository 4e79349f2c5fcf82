-- ===== src/Eqs/Tests.antt =====
-- Runs of the query service on a small library, and the theorems at these inputs.
use cape.Base.{
  ℕ, ◌+◌, ◌≡◌, ◌≢◌, refl, true, none, some, List, [], ◌∷◌, err, take, drop, Outcome, arith, Option,
  ◌==◌, if◌then◌else◌, nat_eq, list_eq, pair_eq,
}
use cape.Base.Map.{lookup}
use cape.Cap.{RecordOpening}
use cape.Model.Types.{CapeModelTxn}
use cape.Ledger.{CapeTransition, CommittedCapeTransition, transaction, faucet, proven_nullifiers}
use cape.Ledger
use cape.Model.Notes.{commitments, nullifiers}
use cape.Eqs.Types.{faucet_initialized, latest_confirmed_block_number, init, IoError}
use cape.Eqs.Commit.{
  Polling, Event, handle_block_committed, memo_events, note_of, memo_outputs,
  all_output_commitments, push_commitments, leaf_paths, extend_tree, index_transition,
  index_transitions, update_tree,
}
use cape.Eqs.Polling.{
  handle_faucet, Node, check, check_range, process_events, process_event, handle_event, is_repeat,
  fetch_until, finish_range,
}
use cape.Eqs.Routes.{
  Bindings, Param, integer, identifier, get_transaction_by_hash, hash_without_transaction,
}
use cape.Eqs.Memos.{commitments_of, valid_memos, memo_events-shifted}
use cape.Eqs.Index.{outputs_before, handle_block_committed-indexes, faucet_overwritten}
use cape.Eqs.Window.{check_total}
use cape.Eqs.Reading.{Reads, CaughtUp, check-Reads}
use cape.Eqs.Hashes.{get_transaction_by_hash-resolves}
use cape.Samples.{eqs_lib, push-length, start, granted, txn, value_of}

abbrev after_faucet : Polling eqs_lib
after_faucet = value_of start (handle_faucet eqs_lib (some granted) (1, 0) start)

abbrev two_memos : Option (List (List ℕ × ℕ))
two_memos = some ((11 ∷ 12 ∷ [], 0) ∷ (13 ∷ 14 ∷ [], 1) ∷ [])

abbrev after_block : Polling eqs_lib
after_block =
    value_of start
      (handle_block_committed eqs_lib (some (txn 1 ∷ txn 2 ∷ [])) two_memos (3, 0) after_faucet)

handle_block_committed-indexes_example :
    (c : CommittedCapeTransition) × (lookup (0, 1) after_block.query_result_state.transaction_by_id
      ≡ some c)
    × (c.transition ≡ transaction (txn 2))
    × (c.output_size ≡ 2)
    × (c.output_start
        ≡ 1 + outputs_before eqs_lib 1 (transaction (txn 1) ∷ transaction (txn 2) ∷ []))
unfolding handle_faucet handle_block_committed init update_tree all_output_commitments
    Ledger.output_commitments commitments extend_tree push_commitments leaf_paths memo_events
    memo_outputs note_of index_transitions index_transition proven_nullifiers nullifiers
handle_block_committed-indexes_example =
    handle_block_committed-indexes eqs_lib push-length (txn 1 ∷ txn 2 ∷ []) two_memos (3, 0)
      after_faucet after_block (3005 ∷ []) 1 (txn 2) refl refl refl

faucet_overwritten_example :
    ((opening : RecordOpening) × (c : CommittedCapeTransition) × (lookup
          (0, 0)
          after_faucet.query_result_state.transaction_by_id
        ≡ some c)
      × (c.transition ≡ faucet opening))
    × ((c : CommittedCapeTransition) × (lookup
            (0, 0)
            after_block.query_result_state.transaction_by_id
          ≡ some c)
        × (c.transition ≡ transaction (txn 1)))
unfolding handle_faucet handle_block_committed init update_tree all_output_commitments
    Ledger.output_commitments commitments extend_tree push_commitments leaf_paths memo_events
    memo_outputs note_of index_transitions index_transition proven_nullifiers nullifiers
faucet_overwritten_example =
    faucet_overwritten eqs_lib push-length (some granted) (1, 0) (3, 0) start after_faucet
      after_block (3005 ∷ []) (txn 1) (txn 2 ∷ []) two_memos refl refl refl

abbrev entries : List (CapeModelTxn × List ℕ × ℕ)
entries = (txn 1, 11 ∷ 12 ∷ [], 0) ∷ (txn 2, 13 ∷ 14 ∷ [], 1) ∷ []

abbrev events_of : List (Event eqs_lib)
events_of = value_of [] (
    memo_events eqs_lib 0 (101 ∷ 201 ∷ 102 ∷ 202 ∷ []) (0 ∷ 1 ∷ 2 ∷ 3 ∷ []) (7 ∷ 7 ∷ 7 ∷ 7 ∷ []) 0 0
      entries)

memo_events-shifted_example :
    commitments_of eqs_lib events_of
    ≡ take (valid_memos eqs_lib entries) (drop 0 (101 ∷ 201 ∷ 102 ∷ 202 ∷ []))
unfolding memo_events memo_outputs note_of
memo_events-shifted_example =
    memo_events-shifted eqs_lib 0 (101 ∷ 201 ∷ 102 ∷ 202 ∷ []) (0 ∷ 1 ∷ 2 ∷ 3 ∷ [])
      (7 ∷ 7 ∷ 7 ∷ 7 ∷ []) 0 0 entries events_of refl

-- The memos of the second transaction went out with the outputs of the first.
shifted : commitments_of eqs_lib events_of ≡ 101 ∷ 201 ∷ []
unfolding memo_events memo_outputs note_of
shifted = refl

-- A node whose latest block is 25; block 1 grants the faucet's record.
abbrev node : Node eqs_lib
node = record {
  latest = λ round. some 25;
  query = λ round from to.
      if from == 0 then some (((1, 0), faucet_initialized (some granted)) ∷ []) else some [];
}

check_total_example :
    (r : Polling eqs_lib × Outcome IoError ℕ) × (check eqs_lib node 27 0 start ≡ some r)
check_total_example =
    check_total eqs_lib node 25 (λ round n h. ground arith) 27 0 start (omega arith) (omega arith)
      (omega arith)

abbrev caught_up : Polling eqs_lib
caught_up = record after_faucet {
  persisted = some after_faucet.query_result_state;
  next_block_to_query = 25;
}

check-Reads_example : Reads eqs_lib node start caught_up × CaughtUp eqs_lib node caught_up 25
unfolding check check_range fetch_until finish_range process_events process_event handle_event
    is_repeat latest_confirmed_block_number handle_faucet init update_tree
check-Reads_example =
    check-Reads eqs_lib node 25 (λ round n h. ground arith) 4 0 start caught_up 25 (omega arith)
      refl

abbrev request : Bindings
request Param.first = some (integer 1)
request Param.max_count = some (integer 300)
request Param.hash = some (identifier 1)
request _ = none

get_transaction_by_hash-resolves_example :
    get_transaction_by_hash eqs_lib (λ i. some i) request after_faucet.query_result_state
    ≢ err hash_without_transaction
unfolding process_events process_event handle_event is_repeat handle_faucet init update_tree
get_transaction_by_hash-resolves_example =
    get_transaction_by_hash-resolves eqs_lib (((1, 0), faucet_initialized (some granted)) ∷ [])
      start after_faucet true (λ i. some i) request refl refl
