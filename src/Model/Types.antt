-- ===== src/Model/Types.antt =====
-- The data of contracts/rust/src/model.rs: transactions, operations, events, effects and errors.
use cape.Base.{ℕ, List}
use cape.Cap.{
  Bytes, Nullifier, RecordCommitment, TxnApiError, AssetDefinition, RecordOpening, TransferNote,
  TransactionNote,
}

-- `EthereumAddr([u8; 20])`
abbrev pub EthereumAddr : Type 0
EthereumAddr = Bytes

-- `Erc20Code(EthereumAddr)`
abbrev pub Erc20Code : Type 0
Erc20Code = EthereumAddr

-- The height of the record tree.
abbrev pub cape_merkle_height : ℕ
cape_merkle_height = 24

-- How many past roots are kept.
abbrev pub cape_num_roots : ℕ
cape_num_roots = 40

pub data CapeModelTxn : Type 0 where
  cap_txn : TransactionNote → CapeModelTxn
  burn : TransferNote → RecordOpening → CapeModelTxn

pub data CapeModelOperation : Type 0 where
  submit_block : List CapeModelTxn → CapeModelOperation
  register_erc20 : AssetDefinition → Erc20Code → EthereumAddr → CapeModelOperation
  wrap_erc20 : Erc20Code → EthereumAddr → RecordOpening → CapeModelOperation

pub data CapeModelEvent : Type 0 where
  erc20_deposited : Erc20Code → EthereumAddr → RecordOpening → CapeModelEvent
  block_committed : List CapeModelTxn → List RecordCommitment → CapeModelEvent

pub data CapeModelEthEffect : Type 0 where
  receive_erc20 : Erc20Code → ℕ → EthereumAddr → CapeModelEthEffect
  check_erc20_exists : Erc20Code → CapeModelEthEffect
  send_erc20 : Erc20Code → ℕ → EthereumAddr → CapeModelEthEffect
  emit : CapeModelEvent → CapeModelEthEffect

-- `CryptoError` keeps the library's error.
pub data CapeValidationError : Type 0 where
  invalid_erc20_def : AssetDefinition → Erc20Code → EthereumAddr → CapeValidationError
  invalid_cap_def : AssetDefinition → CapeValidationError
  unregistered_erc20 : AssetDefinition → CapeValidationError
  incorrect_erc20 : AssetDefinition → Erc20Code → Erc20Code → CapeValidationError
  erc20_already_registered : AssetDefinition → CapeValidationError
  nullifier_already_exists : Nullifier → CapeValidationError
  incorrect_burn_opening : RecordCommitment → RecordOpening → CapeValidationError
  incorrect_burn_field : TransferNote → CapeValidationError
  unsupported_burn_size : ℕ → ℕ → CapeValidationError
  unsupported_transfer_size : ℕ → ℕ → CapeValidationError
  unsupported_freeze_size : ℕ → CapeValidationError
  bad_merkle_root : CapeValidationError
  bad_merkle_path : CapeValidationError
  crypto_error : TxnApiError → CapeValidationError
  failed : Bytes → CapeValidationError
