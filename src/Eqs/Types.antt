-- ===== src/Eqs/Types.antt =====
-- The state of the query service (eqs/src/query_result_state.rs, eqs/src/configuration.rs and the
-- fields of `EthPolling` in eqs/src/eth_polling.rs), and the events that it reads.
use cape.Base.{ℕ, ◌-◌, Bool, Option, none, some, List, [], if◌then◌else◌, ltb}
use cape.Base.Map.{Map}
use cape.Cap.{
  Nullifier, RecordCommitment, RecordOpening, TransactionNote, MerkleCommitment, VerifierKeySet,
  CapLib,
}
use cape.Model.Types.{Erc20Code, EthereumAddr, CapeModelTxn}
use cape.Model.State.{CapeLedgerState}
use cape.Ledger.{CapeTransition, CapeTransactionKind, CommittedCapeTransition}

-- What the service calls of jf_cap, commit and reef beyond the contract's library.
pub record EqsLib : Type 1 where
  pub cap_lib : CapLib
  -- `MerkleTree`
  pub Tree : Type 0
  pub MerklePath : Type 0
  pub restore_from_frontier : MerkleCommitment → cap_lib.Frontier → Option Tree
  pub num_leaves : Tree → ℕ
  pub push_leaf : Tree → RecordCommitment → Tree
  -- `get_leaf(uid).expect_ok().unwrap().1.path`; `none` is a panic
  pub leaf_path : Tree → ℕ → Option MerklePath
  pub commitment : Tree → MerkleCommitment
  pub frontier : Tree → cap_lib.Frontier
  -- `transition.commit()`, which is also its hash
  pub commit : CapeTransition → ℕ
  -- `transition.output_len()`
  pub output_len : CapeTransition → ℕ
  -- `verify_receiver_memos_signature(memos, sig).is_ok()`
  pub verify_memos : TransactionNote → List ℕ → ℕ → Bool
  -- `ReceiverMemo::from_ro`
  pub memo_from_ro : RecordOpening → Option ℕ

-- The memo of a record.
abbrev pub ReceiverMemo : Type 0
ReceiverMemo = ℕ

abbrev pub Signature : Type 0
Signature = ℕ

-- A transition's hash.
abbrev pub Hash : Type 0
Hash = ℕ

-- `(block_number, log_index)`
abbrev pub EthEventIndex : Type 0
EthEventIndex = ℕ × ℕ

pub record Confirmations : Type 0 where
  pub number : ℕ

-- `self.0` is at least 1, as `FromStr` and `Default` make it.
unfoldable pub latest_confirmed_block_number : Confirmations → ℕ → Option ℕ
latest_confirmed_block_number c latest =
    if ltb (c.number - 1) latest then some (latest - (c.number - 1)) else none

-- A memo event's output: the memo, the commitment, the uid and the path.
pub data LedgerEvent (P : Type 0) : Type 0 where
  commit_event : List CapeTransition → ℕ → ℕ → LedgerEvent P
  memos_event :
      List (ReceiverMemo × RecordCommitment × ℕ × P)
      → Option (ℕ × ℕ × Hash × CapeTransactionKind)
      → LedgerEvent P

pub record QueryResultState (F P : Type 0) : Type 0 where
  pub ledger_state : CapeLedgerState F
  pub nullifiers : List Nullifier
  pub verifier_keys : VerifierKeySet
  pub last_reported_index : Option EthEventIndex
  pub contract_address : Option EthereumAddr
  pub num_confirmations : Option Confirmations
  pub events : List (LedgerEvent P)
  pub transaction_by_id : Map (ℕ × ℕ) CommittedCapeTransition
  pub transaction_id_by_hash : Map Hash (ℕ × ℕ)
  pub address_from_asset : Map ℕ EthereumAddr

unfoldable pub init : {F P : Type 0} → VerifierKeySet → MerkleCommitment → F → QueryResultState F P
init verifier_keys commitment frontier = record {
  ledger_state = record {
    state_number = 0;
    record_merkle_commitment = commitment;
    record_merkle_frontier = frontier;
    past_record_merkle_roots = [];
  };
  nullifiers = [];
  verifier_keys = verifier_keys;
  last_reported_index = none;
  contract_address = none;
  num_confirmations = none;
  events = [];
  transaction_by_id = [];
  transaction_id_by_hash = [];
  address_from_asset = [];
}

-- An event of the contract as it is decoded; `none` is a decoding that fails.
pub data CapeEvent : Type 0 where
  block_committed :
      Option (List CapeModelTxn) → Option (List (List ReceiverMemo × Signature)) → CapeEvent
  erc20_tokens_deposited : Option RecordOpening → Erc20Code → EthereumAddr → CapeEvent
  faucet_initialized : Option RecordOpening → CapeEvent
  asset_sponsored : ℕ → EthereumAddr → CapeEvent

-- `store_latest_state` makes the state that a restart reads.
pub record EthPolling (F P : Type 0) : Type 0 where
  pub query_result_state : QueryResultState F P
  pub persisted : Option (QueryResultState F P)
  pub last_event_index : Option EthEventIndex
  pub next_block_to_query : ℕ
  pub max_blocks_to_query : ℕ
  pub pending_commit_event : List CapeTransition
  pub num_confirmations : Confirmations

pub data IoError : Type 0 where
  no_block_number query_failure : IoError
