-- ===== src/Mock/Tests.antt =====
-- A network that wraps and commits a block, and posts its memos.
use cape.Base.{
  if◌then◌else◌, ◌==◌, ℕ, ◌≡◌, refl, none, some, Option, List, [], ◌∷◌, ok, err, nat_eq, pair_eq,
  list_eq, get_elem?,
}
use cape.Base.Map.{lookup}
use mathlib.Core.Option
use cape.Cap.{asset_definition_eq, RecordCommitment}
use cape.Model.State as ContractState
use cape.Model.Assets.{
  register, wrap, is_erc20_asset_def_valid, erc20_asset_description, deposited_plus,
}
use cape.Model.Block.{
  submit_block, is_unspent, process_txns, process_txn, insert_nullifiers, check_txn, is_recent_root,
  finish_block, verify_batch, push_all, commit_block, push_root,
}
use cape.Model.Submit
use cape.Model.Notes.{nullifiers, commitments, extract_burn_dst}
use cape.Ledger
use cape.Eqs.Commit.{Output, push_commitments, note_of}
use cape.Eqs.Types.{memos_event}
use cape.Samples.{eqs_lib, keys, txn}
use cape.Sync.Samples.{sample_laws, calls}
use cape.Mock.Network.{
  MockCapeNetwork, CommittedTransaction, generate_event, take_deposits, add_transactions,
  validate_memos, merkle_paths, post_memos, post_call_data, post_all, handle_event, handle_events,
  submit_operations, empty_network, granted_outputs, new, run_calls, memos_already_posted,
}
use cape.Mock.History.{run_calls-records}
use cape.Mock.Posting.{MemosOf, post_memos_once}

abbrev leaf : List ℕ → ℕ → Option (RecordCommitment × ℕ)
leaf leaves uid = Option.map (λ rc. (rc, rc)) (get_elem? leaves uid)

abbrev network : MockCapeNetwork eqs_lib
network = generate_event eqs_lib (memos_event [] none) (empty_network eqs_lib keys [])

abbrev finished : MockCapeNetwork eqs_lib
finished = elim (run_calls eqs_lib calls network) [ none ↦ network | some n ↦ n ]

run_calls-records_example :
    (finished.contract.ledger.record_merkle_commitment ≡ eqs_lib.commitment finished.records)
    × (finished.contract.ledger.record_merkle_frontier ≡ eqs_lib.frontier finished.records)
unfolding new granted_outputs generate_event submit_operations handle_events handle_event
    take_deposits add_transactions post_all post_call_data Submit.submit_operations
    Submit.apply_operations Submit.apply_operation Submit.next_state_number ContractState.init
    register wrap deposited_plus is_erc20_asset_def_valid erc20_asset_description submit_block
    is_unspent nullifiers process_txns process_txn insert_nullifiers check_txn extract_burn_dst
    is_recent_root finish_block verify_batch push_all commit_block push_root
    Ledger.output_commitments commitments push_commitments
run_calls-records_example =
    run_calls-records eqs_lib sample_laws leaf keys [] [] calls network finished refl refl

records_after : finished.records ≡ 101 ∷ 201 ∷ 3005 ∷ []
unfolding new granted_outputs generate_event submit_operations handle_events handle_event
    take_deposits add_transactions post_all post_call_data Submit.submit_operations
    Submit.apply_operations Submit.apply_operation Submit.next_state_number ContractState.init
    register wrap deposited_plus is_erc20_asset_def_valid erc20_asset_description submit_block
    is_unspent nullifiers process_txns process_txn insert_nullifiers check_txn extract_burn_dst
    is_recent_root finish_block verify_batch push_all commit_block push_root
    Ledger.output_commitments commitments push_commitments
records_after = refl

-- A network with one transaction, whose memos are posted.
abbrev committed : CommittedTransaction eqs_lib
committed = record { txn = Ledger.transaction (txn 1); uids = 0 ∷ 1 ∷ []; memos = none }

abbrev with_transaction : MockCapeNetwork eqs_lib
with_transaction = record network { records = 101 ∷ 201 ∷ []; txns = ((0, 0), committed) ∷ [] }

abbrev posted : MockCapeNetwork eqs_lib
posted = elim (post_memos eqs_lib 0 0 (11 ∷ 12 ∷ []) 1 with_transaction) [
  | ok n ↦ n
  | _ ↦ with_transaction
]

post_memos_once_example :
    (t : CommittedTransaction eqs_lib) × (lookup (0, 0) with_transaction.txns ≡ some t)
    × (t.memos ≡ none)
    × MemosOf eqs_lib t.txn (11 ∷ 12 ∷ []) 1
    × (outputs : List (Output eqs_lib)) × ((other : ℕ × ℕ)
        → lookup other posted.txns ≡ (
            if other == (0, 0)
            then some (record t { memos = some (outputs, 1) })
            else lookup other with_transaction.txns))
    × (post_memos eqs_lib 0 0 (13 ∷ []) 1 posted ≡ err memos_already_posted)
unfolding post_memos validate_memos note_of merkle_paths generate_event Ledger.output_commitments
    commitments
post_memos_once_example =
    post_memos_once eqs_lib 0 0 (11 ∷ 12 ∷ []) (13 ∷ []) 1 1 with_transaction posted refl
