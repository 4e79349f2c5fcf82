-- ===== src/Sync/Tests.antt =====
-- A wrap and a block that the query service follows, and the theorems at them.
use cape.Base.{
  ℕ, ◌+◌, ◌≡◌, refl, true, false, some, Option, List, [], ◌∷◌, arith, ok, nat_eq, pair_eq, list_eq,
}
use cape.Cap.{asset_definition_eq}
use cape.Model.State as ContractState
use cape.Model.Assets.{
  register, wrap, is_erc20_asset_def_valid, erc20_asset_description, deposited_plus,
}
use cape.Model.Block.{
  submit_block, is_unspent, process_txns, process_txn, insert_nullifiers, check_txn, is_recent_root,
  finish_block, verify_batch, push_all, commit_block, push_root,
}
use cape.Model.Submit.{
  history, submit_operations, apply_operations, apply_operation, next_state_number,
}
use cape.Model.Notes.{nullifiers, commitments, extract_burn_dst}
use cape.Ledger
use cape.Ledger.{proven_nullifiers}
use cape.Eqs.Types as ServiceTypes
use cape.Eqs.Types.{EthEventIndex, EthPolling}
use cape.Eqs.Commit.{
  Polling, handle_block_committed, memo_events, note_of, memo_outputs, all_output_commitments,
  push_commitments, leaf_paths, extend_tree, index_transition, index_transitions, update_tree,
}
use cape.Eqs.Polling.{process_events, process_event, handle_event, handle_deposited, is_repeat}
use cape.Sync.Outputs.{emitted}
use cape.Sync.Following.{announce}
use cape.Sync.Service.{history-Following}
use cape.Sync.Samples.{sample_laws, calls}
use cape.Samples.{cap_tree, eqs_lib, keys, start, value_of}

abbrev index : ℕ → EthEventIndex
index n = (n, 3)

index-later : (n : ℕ) → is_repeat (some (index n)) (index (n + 1)) ≡ false
unfolding is_repeat
index-later n = ground arith

abbrev memos : ℕ → Option (List (List ℕ × ℕ))
memos n = some ((11 ∷ 12 ∷ [], 1) ∷ [])

abbrev after : Polling eqs_lib
after =
    (value_of (start, false)
      (process_events eqs_lib
        (announce eqs_lib index memos 0
          (emitted (history cap_tree calls (ContractState.init keys (eqs_lib.commitment []) [])).1))
        (start, false))).0

history-Following_example :
    let s = (history cap_tree calls (ContractState.init keys (eqs_lib.commitment []) [])).0 in
    let service = after.query_result_state.ledger_state in
    (service.record_merkle_commitment ≡ s.ledger.record_merkle_commitment)
    × (service.record_merkle_frontier ≡ s.ledger.record_merkle_frontier)
    × (all_output_commitments eqs_lib after.pending_commit_event ≡ ok s.erc20_deposits)
unfolding history submit_operations apply_operations apply_operation next_state_number
    ContractState.init register wrap deposited_plus is_erc20_asset_def_valid erc20_asset_description
    submit_block is_unspent nullifiers process_txns process_txn insert_nullifiers check_txn
    extract_burn_dst is_recent_root finish_block verify_batch push_all commit_block push_root
    ServiceTypes.init process_events process_event handle_event handle_deposited is_repeat
    handle_block_committed all_output_commitments Ledger.output_commitments commitments extend_tree
    push_commitments leaf_paths memo_events memo_outputs note_of index_transitions index_transition
    proven_nullifiers update_tree
history-Following_example =
    history-Following eqs_lib index memos sample_laws index-later calls keys [] start after true
      refl refl refl refl refl

-- The records of the block and of the wrap.
leaves_after :
    (history cap_tree calls
      (ContractState.init keys (eqs_lib.commitment []) [])).0.ledger.record_merkle_frontier
    ≡ 101 ∷ 201 ∷ 3005 ∷ []
unfolding history submit_operations apply_operations apply_operation next_state_number
    ContractState.init register wrap deposited_plus is_erc20_asset_def_valid erc20_asset_description
    submit_block is_unspent nullifiers process_txns process_txn insert_nullifiers check_txn
    extract_burn_dst is_recent_root finish_block verify_batch push_all commit_block push_root
leaves_after = refl
