-- ===== src/Model/Tests.antt =====
-- Runs of the contract model on a small library, and the theorems at these inputs.
use cape.Base.{
  ◌⊎◌, ℕ, ◌+◌, ◌*◌, ◌%◌, ◌≡◌, ◌↔◌, refl, true, false, none, some, List, [], ◌∷◌, ◌++◌, filter, ok,
  length, take, nat_eq, All, arith,
}
use cape.Base.Map.{lookup}
use cape.Base.Fresh.{contains, Distinct}
use cape.Cap.{
  AssetDefinition, RecordOpening, TransferNote, TransactionNote, VerifierKeySet, MerkleCommitment,
  CapLib, asset_definition_eq, Nullifier, u128_mod,
}
use cape.Model.Types.{
  CapeModelTxn, CapeModelOperation, CapeModelEthEffect, cap_txn, burn, receive_erc20, emit,
  CapeModelEvent, send_erc20, block_committed, check_erc20_exists,
}
use cape.Model.Notes.{cape_burn_magic_bytes, nullifiers, extract_burn_dst}
use cape.Model.State.{init}
use cape.Model.Assets.{
  State, register, wrap, is_erc20_asset_def_valid, erc20_asset_description, deposited_plus,
}
use cape.Model.Block.{
  submit_block, is_unspent, process_txns, process_txn, insert_nullifiers, check_txn,
  is_cap_asset_def_valid, is_recent_root, push_root, push_all, commit_block, finish_block,
  verify_batch,
}
use cape.Model.Submit.{
  settle, submit_operations, history, apply_operations, apply_operation, next_state_number,
}
use cape.Model.Acceptance.{Accepts, submit_block_iff}
use cape.Model.DoubleSpend.{published, history-no_double_spend}
use cape.Model.Registry.{Backed, history-erc20_registrar, history-is_erc20_asset_def_valid}
use cape.Model.Deposits.{deposited_of, received, history-deposits_never_fall}
use cape.Model.Roots.{blocks, replaced_by_history, history-past_record_merkle_roots}

abbrev outputs_of : TransactionNote → List ℕ
outputs_of (TransactionNote.transfer note) = note.output_commitments
outputs_of (TransactionNote.mint note) = note.chg_comm ∷ note.mint_comm ∷ []
outputs_of (TransactionNote.freeze note) = note.output_commitments

abbrev digest : List ℕ → ℕ
digest [] = 0
digest (x ∷ xs) = x + 7 * digest xs

-- A tree is its leaves; every proof and description is accepted.
abbrev leaf_lib : CapLib
leaf_lib = record {
  Frontier = List ℕ;
  Builder = List ℕ;
  from_frontier = λ commitment leaves. some leaves;
  push = λ leaves rc. leaves ++ (rc ∷ []);
  into_frontier_and_commitment = λ leaves.
      (leaves, record { root_value = digest leaves; height = 24; num_leaves = length leaves });
  record_commitment = λ ro. ro.amount + 1000 * ro.blind;
  encode_policy = λ policy. policy ∷ [];
  verify_foreign = λ code description. true;
  output_commitments = outputs_of;
  txn_batch_verify = λ notes roots height keys. none;
}

abbrev keys : VerifierKeySet
keys = record { mint = 1; xfr = λ i o. some (10 * i + o); freeze = λ i o. some (20 * i + o) }

abbrev empty_tree : MerkleCommitment
empty_tree = record { root_value = 0; height = 24; num_leaves = 0 }

abbrev usdc : AssetDefinition
usdc = record { code = 3; policy_ref = 4 }

abbrev deposit : RecordOpening
deposit = record { amount = 50; asset_def = usdc; pub_key = 9; freeze_flag = false; blind = 1 }

abbrev xfr_note : List ℕ → List ℕ → ℕ → List ℕ → TransferNote
xfr_note inputs outputs root field = record {
  inputs_nullifiers = inputs;
  output_commitments = outputs;
  merkle_root = root;
  valid_until = 100;
  extra_proof_bound_data = field;
  proof = 0;
}

abbrev recipient : List ℕ
recipient =
    1 ∷ 2 ∷ 3 ∷ 4 ∷ 5 ∷ 6 ∷ 7 ∷ 8 ∷ 9 ∷ 10 ∷ 11 ∷ 12 ∷ 13 ∷ 14 ∷ 15 ∷ 16 ∷ 17 ∷ 18 ∷ 19 ∷ 20 ∷ []

abbrev transfer_txn : CapeModelTxn
transfer_txn = cap_txn (TransactionNote.transfer (xfr_note (101 ∷ 102 ∷ []) (201 ∷ 202 ∷ []) 0 []))

abbrev burn_txn : CapeModelTxn
burn_txn =
    burn (xfr_note (103 ∷ []) (203 ∷ 1050 ∷ 204 ∷ []) 0 (cape_burn_magic_bytes ++ recipient))
      deposit

-- Registers an asset, wraps 50 of its tokens, and unwraps them in a block; the last block spends a
-- published nullifier again and is left empty.
abbrev calls : List (List CapeModelOperation)
calls =
    (CapeModelOperation.register_erc20 usdc (7 ∷ []) (8 ∷ []) ∷ [])
    ∷ (CapeModelOperation.wrap_erc20 (7 ∷ []) (6 ∷ []) deposit ∷ [])
    ∷ (CapeModelOperation.submit_block (transfer_txn ∷ burn_txn ∷ []) ∷ [])
    ∷ (CapeModelOperation.submit_block (transfer_txn ∷ []) ∷ [])
    ∷ []

abbrev fresh : State leaf_lib
fresh = init keys empty_tree []

abbrev registered : State leaf_lib
registered = (history leaf_lib (take 1 calls) fresh).0

abbrev wrapped : State leaf_lib
wrapped = (history leaf_lib (take 2 calls) fresh).0

calls_effects :
    (history leaf_lib calls fresh).1
    ≡ check_erc20_exists (7 ∷ [])
      ∷ receive_erc20 (7 ∷ []) 50 (6 ∷ [])
      ∷ emit (CapeModelEvent.erc20_deposited (7 ∷ []) (6 ∷ []) deposit)
      ∷ send_erc20 (7 ∷ []) 50 recipient
      ∷ emit (block_committed (transfer_txn ∷ burn_txn ∷ []) (1050 ∷ []))
      ∷ emit (block_committed [] [])
      ∷ []
unfolding history submit_operations apply_operations apply_operation next_state_number init register
    wrap deposited_plus is_erc20_asset_def_valid erc20_asset_description submit_block is_unspent
    nullifiers process_txns process_txn insert_nullifiers check_txn is_cap_asset_def_valid
    extract_burn_dst is_recent_root finish_block verify_batch push_all commit_block push_root
calls_effects = refl

abbrev block : List CapeModelTxn
block = transfer_txn ∷ burn_txn ∷ []

abbrev after_block : State leaf_lib × List CapeModelEthEffect
after_block = settle leaf_lib wrapped (submit_block leaf_lib block wrapped)

submit_block_iff_example :
    (submit_block leaf_lib block wrapped ≡ ok after_block)
    ↔ Accepts leaf_lib wrapped (filter (is_unspent wrapped.nullifiers) block) after_block
submit_block_iff_example = submit_block_iff leaf_lib block wrapped after_block

history-no_double_spend_example :
    let r = history leaf_lib calls fresh in
    Distinct (published r.1)
    × ((n : Nullifier) → contains r.0.nullifiers n ≡ contains (published r.1) n)
history-no_double_spend_example = history-no_double_spend leaf_lib calls keys empty_tree []

history-erc20_registrar_example :
    let r = history leaf_lib calls fresh in
    All (Backed leaf_lib r.0) r.1
    × ((lookup usdc fresh.erc20_registrar ≡ none)
        ⊎ (lookup usdc r.0.erc20_registrar ≡ lookup usdc fresh.erc20_registrar))
history-erc20_registrar_example = history-erc20_registrar leaf_lib calls fresh usdc

history-is_erc20_asset_def_valid_example :
    is_erc20_asset_def_valid leaf_lib usdc (7 ∷ []) (8 ∷ []) ≡ true
unfolding history submit_operations apply_operations apply_operation next_state_number init register
    is_erc20_asset_def_valid erc20_asset_description
history-is_erc20_asset_def_valid_example =
    history-is_erc20_asset_def_valid leaf_lib (take 1 calls) keys empty_tree [] usdc (7 ∷ [])
      (8 ∷ []) refl

history-deposits_never_fall_example :
    deposited_of leaf_lib (history leaf_lib calls fresh).0 (7 ∷ [])
    ≡ received (7 ∷ []) (history leaf_lib calls fresh).1 % u128_mod
history-deposits_never_fall_example =
    history-deposits_never_fall leaf_lib calls keys empty_tree [] (7 ∷ [])

history-past_record_merkle_roots_example :
    let r = history leaf_lib calls fresh in
    (length (replaced_by_history leaf_lib calls fresh) ≡ blocks r.1)
    × (r.0.ledger.past_record_merkle_roots
        ≡ take 40
            (replaced_by_history leaf_lib calls fresh ++ fresh.ledger.past_record_merkle_roots))
unfolding init
history-past_record_merkle_roots_example =
    history-past_record_merkle_roots leaf_lib calls fresh (omega arith)
