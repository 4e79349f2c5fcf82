-- ===== src/Blocks/Fetching.antt =====
-- What is sent with a block by contracts/rust/src/cape/submit_block.rs, and that its memos are
-- fetched again.
use cape.Base.{ℕ, ◌≡◌, ◌≤◌, refl, arith, Option, none, some, Outcome, ok, unwrap, ok_or, >>=-eq-ok}
use cape.Cap.{Bytes}
use cape.Blocks.Sending.{
  TxHash, BlockWithMemos, BlockNumber, Transaction, Contract, Node, FetchError, fetch_cape_memos,
  gas_to_set, submit_cape_block_with_memos,
}

unwrap-eq-ok : {E A : Type 0} (o : Option A) {a : A} → unwrap {E = E} o ≡ ok a → o ≡ some a
unwrap-eq-ok none h = cc
unwrap-eq-ok (some a) h = cc

ok_or-eq-ok : {E A : Type 0} (o : Option A) (e : E) {a : A} → ok_or o e ≡ ok a → o ≡ some a
ok_or-eq-ok none e h = cc
ok_or-eq-ok (some a) e h = cc

module _ {E : Type 0} (contract : Contract E) where
  gas_to_set-bounded :
      (estimate extra_gas gas_limit gas : ℕ)
      → gas_to_set contract estimate extra_gas gas_limit ≡ ok gas
      → gas ≤ gas_limit
  unfolding gas_to_set
  gas_to_set-bounded estimate extra_gas gas_limit gas h = ground arith

  -- A submission that succeeds has sent a transaction with the block and the memos as its input,
  -- within the gas limit of the latest block.
  pub submit_cape_block_with_memos-eq-ok :
      (node : Node E) (block : BlockWithMemos) (number : BlockNumber) (extra_gas hash : ℕ)
      → submit_cape_block_with_memos contract node block number extra_gas ≡ ok hash
      → (tx : Transaction) × (node.send_transaction tx ≡ ok hash)
        × (contract.encode_call block.block (contract.serialize block.memos) ≡ some tx.input)
        × (limit : ℕ) × (node.get_block ≡ ok (some limit))
        × (tx.gas ≤ limit)
  unfolding submit_cape_block_with_memos
  submit_cape_block_with_memos-eq-ok node block number extra_gas hash h =
      let encoded = contract.encode_call block.block (contract.serialize block.memos) in
      let (input, in_e, h1) = >>=-eq-ok (unwrap encoded) _ h in
      let (filled, filled_e, h2) = >>=-eq-ok (node.fill_transaction number input) _ h1 in
      let (latest_block, block_e, h3) = >>=-eq-ok node.get_block _ h2 in
      let (limit, limit_e, h4) = >>=-eq-ok (ok_or latest_block contract.no_block) _ h3 in
      let (estimate, estimate_e, h5) = >>=-eq-ok (ok_or filled.1 contract.gas_missing) _ h4 in
      let (gas, gas_e, h6) = >>=-eq-ok (gas_to_set contract estimate extra_gas limit) _ h5 in
      let has_limit : latest_block ≡ some limit =
        ok_or-eq-ok latest_block contract.no_block limit_e in
      (
        record { input = input; nonce = filled.0; gas = gas },
        h6,
        unwrap-eq-ok encoded in_e,
        limit,
        cc,
        gas_to_set-bounded estimate extra_gas limit gas gas_e,
      )

  -- The memos of a call that the lookup gives back are fetched.
  pub fetch_cape_memos-encode_call :
      (block : BlockWithMemos) (input : Bytes) (hash : TxHash)
      (get_transaction : TxHash → Outcome FetchError (Option Bytes))
      → contract.encode_call block.block (contract.serialize block.memos) ≡ some input
      → get_transaction hash ≡ ok (some input)
      → fetch_cape_memos contract get_transaction hash ≡ ok (some block.memos)
  unfolding fetch_cape_memos
  fetch_cape_memos-encode_call block input hash get_transaction encoded known =
      let decoded =
        contract.decode_encode_call block.block (contract.serialize block.memos) input encoded in
      rw (known, decoded, contract.deserialize_serialize block.memos) refl
