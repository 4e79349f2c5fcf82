-- ===== src/Blocks/Sending.antt =====
-- A block with its memos on the way to the contract and back,
-- contracts/rust/src/cape/submit_block.rs. The node, the serialisation of memos and the coding of
-- the call are parameters.
use cape.Base.{
  ℕ, ◌+◌, ◌^◌, ◌≡◌, Option, none, some, List, Outcome, ok, unwrap, ok_or, assert, ◌>>=◌, ◌>>◌,
  if◌then◌else◌, ltb,
}
use cape.Cap.{Bytes}
use cape.Blocks.{CapeBlock}

abbrev pub ReceiverMemo : Type 0
ReceiverMemo = ℕ

abbrev pub Signature : Type 0
Signature = ℕ

abbrev pub TxHash : Type 0
TxHash = ℕ

abbrev pub BlockMemos : Type 0
BlockMemos = List (List ReceiverMemo × Signature)

pub record BlockWithMemos : Type 0 where
  pub block : CapeBlock
  pub memos : BlockMemos

-- `BlockNumber`, as far as it is passed on.
pub data BlockNumber : Type 0 where
  latest pending : BlockNumber

-- An Ethereum transaction that calls the contract.
pub record Transaction : Type 0 where
  pub input : Bytes
  pub nonce : ℕ
  pub gas : ℕ

-- The call of the contract and the errors that the program makes itself.
pub record Contract (E : Type 0) : Type 0 where
  -- `CanonicalSerialize` and `CanonicalDeserialize`
  pub serialize : BlockMemos → Bytes
  pub deserialize : Bytes → Option BlockMemos
  pub deserialize_serialize : (memos : BlockMemos) → deserialize (serialize memos) ≡ some memos
  -- The input of `submitCapeBlockWithMemos`; `none` is a panic of the block's conversion.
  pub encode_call : CapeBlock → Bytes → Option Bytes
  -- The memos in an input of that call.
  pub decode_call : Bytes → Option Bytes
  pub decode_encode_call :
      (block : CapeBlock) (memos input : Bytes)
      → encode_call block memos ≡ some input
      → decode_call input ≡ some memos
  pub no_block : E
  pub gas_missing : E

-- A node at one attempt.
pub record Node (E : Type 0) : Type 0 where
  -- The nonce and the estimate of the gas that `fill_transaction` finds for an input.
  pub fill_transaction : BlockNumber → Bytes → Outcome E (ℕ × Option ℕ)
  -- The gas limit of the latest block.
  pub get_block : Outcome E (Option ℕ)
  pub send_transaction : Transaction → Outcome E TxHash

pub data FetchError : Type 0 where
  provider_error not_this_call bad_memos : FetchError

module _ {E : Type 0} (contract : Contract E) where
  -- The lookup is the provider's `get_transaction`, the input of the transaction if there is one.
  unfoldable pub fetch_cape_memos :
      (TxHash → Outcome FetchError (Option Bytes)) → TxHash → Outcome FetchError (Option BlockMemos)
  fetch_cape_memos get_transaction tx_hash = do
    found ← get_transaction tx_hash
    elim found [
      | none ↦ ok none
      | some input ↦ (do
        fetched ← ok_or (contract.decode_call input) not_this_call
        memos ← ok_or (contract.deserialize fetched) bad_memos
        ok (some memos))
    ]

  -- The sum of two `U256` panics when it is out of range.
  unfoldable pub gas_to_set : ℕ → ℕ → ℕ → Outcome E ℕ
  gas_to_set estimate extra_gas gas_limit = do
    assert (ltb (estimate + extra_gas) (2 ^ 256))
    ok (if ltb (estimate + extra_gas) gas_limit then estimate + extra_gas else gas_limit)

  unfoldable pub submit_cape_block_with_memos :
      Node E → BlockWithMemos → BlockNumber → ℕ → Outcome E TxHash
  submit_cape_block_with_memos node block block_number extra_gas = do
    input ← unwrap (contract.encode_call block.block (contract.serialize block.memos))
    filled ← node.fill_transaction block_number input
    latest_block ← node.get_block
    gas_limit ← ok_or latest_block contract.no_block
    estimate ← ok_or filled.1 contract.gas_missing
    gas ← gas_to_set estimate extra_gas gas_limit
    node.send_transaction (record { input = input; nonce = filled.0; gas = gas })
