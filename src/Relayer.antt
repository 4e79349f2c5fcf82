-- ===== src/Relayer.antt =====
-- The relayer that submits the blocks of users, relayer/src/lib.rs.
use cape.Base.{
  ℕ, zero, suc, ◌+◌, ◌≤◌, ◌<◌, ◌≡◌, refl, Bool, true, false, ◌||◌, ◌&&◌, Bool-cases, inl, inr,
  Option, none, some, List, [], ◌∷◌, if◌then◌else◌, ltb, arith, Outcome, ok, err, panic, ◌>>=◌,
}
use mathlib.Core.Option
use cape.Cap.{CapLib}
use cape.Model.Types.{CapeModelTxn}
use cape.Blocks.{UserAddress, from_cape_transactions}
use cape.Blocks.Sending.{
  ReceiverMemo, Signature, TxHash, BlockMemos, BlockWithMemos, BlockNumber, latest, pending,
  Contract, Node, submit_cape_block_with_memos,
}
mod Retries
mod Relaying
mod RelayTests
mod Tests

-- An error's message is only searched for these words.
pub data Word : Type 0 where
  replacement_underpriced nonce_too_low root_not_found_word must_be_non_empty : Word

abbrev pub Message : Type 0
Message = Word → Bool

pub data Error : Type 0 where
  deserialize bad_block submission root_not_found both_empty internal call_contract nonce_error :
      Error

unfoldable pub status : Error → ℕ
status deserialize = 400
status bad_block = 400
status root_not_found = 400
status both_empty = 400
status submission = 500
status call_contract = 500
status internal = 500
status nonce_error = 500

-- The closure of `map_err`.
unfoldable pub classify : Message → Error
classify msg =
    if msg replacement_underpriced || msg nonce_too_low
    then nonce_error
    else (if msg root_not_found_word
        then root_not_found
        else (if msg must_be_non_empty then both_empty else submission))

-- The node's answer to each attempt: the hash of the transaction or a message.
abbrev pub Answers : Type 0
Answers = ℕ → Outcome Message ℕ

abbrev pub map_err : Outcome Message ℕ → Outcome Error ℕ
map_err (ok hash) = ok hash
map_err (err msg) = err (classify msg)
map_err panic = panic

abbrev pub is_nonce : Outcome Error ℕ → Bool
is_nonce (err nonce_error) = true
is_nonce (err e) = false
is_nonce (ok hash) = false
is_nonce panic = false

-- The loop of `submit_block` from an attempt on; `none` is no fuel left.
unfoldable pub submit_from : Answers → ℕ → ℕ → ℕ → Option (Outcome Error ℕ)
submit_from answers max_retries zero attempt = none
submit_from answers max_retries (suc fuel) attempt =
    let result = map_err (answers attempt) in
    let again = submit_from answers max_retries fuel (attempt + 1) in
    if is_nonce result && ltb attempt max_retries then again else some result

unfoldable pub submit_block : Answers → ℕ → Option (Outcome Error ℕ)
submit_block answers max_retries = submit_from answers max_retries (suc max_retries) 0

abbrev pub Response : Type 0
Response = Option (Outcome Error TxHash)

pub data NonceCountRule : Type 0 where
  mined pending_too : NonceCountRule

-- `From<NonceCountRule> for BlockNumber`
unfoldable pub block_number : NonceCountRule → BlockNumber
block_number mined = latest
block_number pending_too = pending

-- What the relayer is started with; the mutex lets one submission run at a time.
pub record WebState : Type 0 where
  pub contract : Contract Message
  pub nonce_count_rule : NonceCountRule
  pub extra_gas : ℕ
  pub max_retries : ℕ

pub record SubmitBody : Type 0 where
  pub transaction : CapeModelTxn
  pub memos : List ReceiverMemo
  pub signature : Signature

-- The nodes of the attempts, first to last.
abbrev pub Nodes : Type 0
Nodes = ℕ → Node Message

unfoldable pub attempts : Nodes → WebState → BlockWithMemos → Answers
attempts nodes web block n =
    submit_cape_block_with_memos web.contract (nodes n) block (block_number web.nonce_count_rule)
      web.extra_gas

-- What a round of the loop of empty blocks logs.
pub data Round : Type 0 where
  queue_empty block_submitted : Round
  -- `BlockAndPendingDepositsQueueEmpty`, which a race makes possible
  block_rejected : Round
  failed : Error → Round

unfoldable pub logged : Outcome Error TxHash → Outcome Error Round
logged (ok hash) = ok block_submitted
logged (err both_empty) = ok block_rejected
logged (err e) = ok (failed e)
logged panic = panic

module _ (lib : CapLib) where
  -- The block of the transactions, and its submission; a panic of the block's construction ends the
  -- call.
  unfoldable pub submit_transactions :
      Nodes → WebState → UserAddress → List CapeModelTxn → BlockMemos → Response
  submit_transactions nodes web miner txns memos = elim (from_cape_transactions lib txns miner) [
    | ok b ↦ submit_block (attempts nodes web (record { block = b; memos = memos })) web.max_retries
    | err e ↦ some (err bad_block)
    | panic ↦ some panic
  ]

  -- The miner is the default key's address.
  unfoldable pub relay :
      Nodes → WebState → UserAddress → CapeModelTxn → List ReceiverMemo → Signature → Response
  relay nodes web miner txn memos sig =
      submit_transactions nodes web miner (txn ∷ []) ((memos, sig) ∷ [])

  unfoldable pub submit_empty_block : Nodes → WebState → UserAddress → Response
  submit_empty_block nodes web miner = submit_transactions nodes web miner [] []

  -- `none` is a body that cannot be read.
  unfoldable pub submit_endpoint : Nodes → WebState → UserAddress → Option SubmitBody → Response
  submit_endpoint nodes web miner none = some (err deserialize)
  submit_endpoint nodes web miner (some body) =
      relay nodes web miner body.transaction body.memos body.signature

  -- A round of `submit_empty_block_loop`; the queue is empty if its first element cannot be read.
  unfoldable pub empty_block_round :
      Nodes → WebState → UserAddress → Bool → Option (Outcome Error Round)
  empty_block_round nodes web miner queue_is_empty =
      if queue_is_empty
      then some (ok queue_empty)
      else Option.map logged (submit_empty_block nodes web miner)
