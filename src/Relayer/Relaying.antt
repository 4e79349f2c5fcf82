-- ===== src/Relayer/Relaying.antt =====
-- What `relay` of relayer/src/lib.rs has sent when it returns a hash, and that the memos can be
-- fetched by it.
use cape.Base.{
  ℕ, ◌≤◌, ◌≡◌, Option, some, List, [], ◌∷◌, Outcome, ok, err, panic, Outcome-cases, arith, inl, inr,
}
use cape.Cap.{Bytes, CapLib}
use cape.Model.Types.{CapeModelTxn}
use cape.Blocks.{CapeBlock, UserAddress, from_cape_transactions}
use cape.Blocks.Sending.{
  ReceiverMemo, Signature, TxHash, BlockMemos, BlockWithMemos, Transaction, FetchError,
  fetch_cape_memos,
}
use cape.Blocks.Fetching.{submit_cape_block_with_memos-eq-ok, fetch_cape_memos-encode_call}
use cape.Relayer.{
  Message, Nodes, WebState, map_err, attempts, submit_block, submit_transactions, relay,
  block_number,
}
use cape.Relayer.Retries.{submit_block_lem}

map_err-eq-ok : (m : Outcome Message ℕ) {hash : ℕ} → map_err m ≡ ok hash → m ≡ ok hash
map_err-eq-ok (ok hash) h = cc
map_err-eq-ok (err msg) h = cc
map_err-eq-ok panic h = cc

-- At one of the attempts the node took a transaction that calls the contract with the block and the
-- memos, whose gas is within the limit of the block that was then the latest.
abbrev pub Submitted : Nodes → WebState → BlockWithMemos → TxHash → Type 0
Submitted nodes web block hash =
    (n : ℕ) × (n ≤ web.max_retries)
    × (tx : Transaction) × ((nodes n).send_transaction tx ≡ ok hash)
    × (web.contract.encode_call block.block (web.contract.serialize block.memos) ≡ some tx.input)
    × (limit : ℕ) × ((nodes n).get_block ≡ ok (some limit))
    × (tx.gas ≤ limit)

submit_block-Submitted :
    (nodes : Nodes) (web : WebState) (block : BlockWithMemos) (hash : TxHash)
    → submit_block (attempts nodes web block) web.max_retries ≡ some (ok hash)
    → Submitted nodes web block hash
unfolding attempts
submit_block-Submitted nodes web block hash h =
    let (n, e, le, nonces, last) = submit_block_lem (attempts nodes web block) web.max_retries in
    let answered : attempts nodes web block n ≡ ok hash =
      map_err-eq-ok (attempts nodes web block n) cc in
    let (tx, sent, input, limit, latest_block, below) =
      submit_cape_block_with_memos-eq-ok web.contract (nodes n) block
        (block_number web.nonce_count_rule) web.extra_gas hash answered in
    (n, le, tx, sent, input, limit, latest_block, below)

module _ (lib : CapLib) where
  submit_transactions-Submitted :
      (nodes : Nodes) (web : WebState) (miner : UserAddress) (txns : List CapeModelTxn)
      (memos : BlockMemos) (hash : TxHash)
      → submit_transactions lib nodes web miner txns memos ≡ some (ok hash)
      → (b : CapeBlock) × (from_cape_transactions lib txns miner ≡ ok b)
        × Submitted nodes web (record { block = b; memos = memos }) hash
  unfolding submit_transactions
  submit_transactions-Submitted nodes web miner txns memos hash h =
      elim (Outcome-cases (from_cape_transactions lib txns miner)) [
        | inl (b, built) ↦ (
          b,
          built,
          submit_block-Submitted nodes web (record { block = b; memos = memos }) hash
              (rw (submit_transactions, built) at h),
        )
        | inr (inl (e, failed)) ↦ absurd (ground arith)
        | inr (inr failed) ↦ absurd (ground arith)
      ]

  -- When `relay` returns a hash, then at the first attempt or one of the max_retries after it the node
  -- took a transaction with this hash, whose input is the block of the user's transaction and the
  -- memos and whose gas is within the limit of the block that was then the latest; and if the node
  -- gives back the transactions that it took, by their hashes, the service that fetches the memos of
  -- this hash gets the user's memos and signature.
  pub relay-fetched :
      (nodes : Nodes) (web : WebState) (miner : UserAddress) (txn : CapeModelTxn)
      (memos : List ReceiverMemo) (sig : Signature) (hash : TxHash)
      (get_transaction : TxHash → Outcome FetchError (Option Bytes))
      → ((n : ℕ) (tx : Transaction) (taken : TxHash)
          → (nodes n).send_transaction tx ≡ ok taken
          → get_transaction taken ≡ ok (some tx.input))
      → relay lib nodes web miner txn memos sig ≡ some (ok hash)
      → (fetch_cape_memos web.contract get_transaction hash ≡ ok (some ((memos, sig) ∷ [])))
        × (b : CapeBlock) × (from_cape_transactions lib (txn ∷ []) miner ≡ ok b)
        × Submitted nodes web (record { block = b; memos = (memos, sig) ∷ [] }) hash
  unfolding relay
  relay-fetched nodes web miner txn memos sig hash get_transaction keeps h =
      let (b, built, submitted) =
        submit_transactions-Submitted nodes web miner (txn ∷ []) ((memos, sig) ∷ []) hash h in
      let (n, le, tx, sent, input, limit, latest_block, below) = submitted in
      let block : BlockWithMemos = record { block = b; memos = (memos, sig) ∷ [] } in
      (
        fetch_cape_memos-encode_call web.contract block tx.input hash get_transaction input
            (keeps n tx hash sent),
        b,
        built,
        submitted,
      )
