-- ===== src/Eqs/Polling.antt =====
-- `EthPolling` of eqs/src/eth_polling.rs: `new`, the other events, `check_range` and `check`.
use cape.Base.{
  ℕ, zero, suc, ◌+◌, ◌%◌, min, Bool, true, false, not, ◌&&◌, ◌||◌, Option, none, some, List, [],
  ◌∷◌, ◌++◌, ok, err, panic, unwrap, assert, ok_or, ◌>>=◌, ◌>>◌, ◌==◌, nat_eq, list_eq, pair_eq,
  if◌then◌else◌, ltb, leb,
}
use cape.Base.Map.{insert}
use cape.Cap.{RecordOpening, u64_mod}
use cape.Model.Types.{EthereumAddr, Erc20Code}
use cape.Ledger.{wrap_transition, faucet, kind}
use cape.Eqs.Types.{
  EqsLib, EthEventIndex, no_block_number, query_failure, Confirmations,
  latest_confirmed_block_number, commit_event, memos_event, CapeEvent, block_committed,
  erc20_tokens_deposited, faucet_initialized, asset_sponsored,
}
use cape.Eqs.Commit.{Call, QueryState, Polling, handle_block_committed, update_tree}

-- `current_index <= last_event_index`, on pairs.
abbrev pub index_le : EthEventIndex → EthEventIndex → Bool
index_le (a, i) (b, j) = ltb a b || ((a == b) && leb i j)

-- `continue` on an event that does not come after the last one.
unfoldable pub is_repeat : Option EthEventIndex → EthEventIndex → Bool
is_repeat none current = false
is_repeat (some last) current = index_le current last

-- The options that `new` reads.
pub record EqsOptions : Type 0 where
  pub cape_address : Option EthereumAddr
  pub confirmations : Confirmations
  pub max_ether_blocks : ℕ

abbrev is_none : {A : Type 0} → Option A → Bool
is_none none = true
is_none (some a) = false

-- `persisted_num_confirmations < opt.num_confirmations`
abbrev grows : Option Confirmations → Confirmations → Bool
grows none c = false
grows (some persisted) c = ltb persisted.number c.number

-- No persisted address, or the same.
abbrev fits_address : Option EthereumAddr → EthereumAddr → Bool
fits_address none a = true
fits_address (some persisted) a = persisted == a

-- Start again from the block of the last report.
abbrev first_block : Option EthEventIndex → ℕ
first_block none = 0
first_block (some (block, log_index)) = block

module _ (lib : EqsLib) where
  -- `EthPolling::new`, but for the test run, over the state that was loaded.
  unfoldable pub new_polling : EqsOptions → QueryState lib → Call lib (Polling lib)
  new_polling opt s = do
    contract_address ← unwrap opt.cape_address
    assert (not (is_none s.contract_address && not (is_none s.last_reported_index)))
    assert (not (grows s.num_confirmations opt.confirmations))
    assert (fits_address s.contract_address contract_address)
    ok (record {
      query_result_state = record s { contract_address = some contract_address };
      persisted = some s;
      last_event_index = s.last_reported_index;
      next_block_to_query = first_block s.last_reported_index;
      max_blocks_to_query = opt.max_ether_blocks;
      pending_commit_event = [];
      num_confirmations = opt.confirmations;
    })

  unfoldable pub handle_deposited :
      Option RecordOpening
      → Erc20Code
      → EthereumAddr
      → EthEventIndex
      → Polling lib
      → Call lib (Polling lib)
  handle_deposited decoded erc20_code src_addr current_index p = do
    ro ← unwrap decoded
    ok (record p {
      pending_commit_event =
          p.pending_commit_event ++ (wrap_transition erc20_code src_addr ro ∷ []);
      last_event_index = some current_index;
    })

  abbrev is_empty : {A : Type 0} → List A → Bool
  is_empty [] = true
  is_empty (x ∷ xs) = false

  unfoldable pub handle_faucet :
      Option RecordOpening → EthEventIndex → Polling lib → Call lib (Polling lib)
  handle_faucet decoded current_index p = do
    ro ← unwrap decoded
    let rc = lib.cap_lib.record_commitment ro
    let s = p.query_result_state
    merkle_tree ← unwrap (
        lib.restore_from_frontier s.ledger_state.record_merkle_commitment
          s.ledger_state.record_merkle_frontier)
    let uid = lib.num_leaves merkle_tree
    let pushed = lib.push_leaf merkle_tree rc
    merkle_path ← unwrap (lib.leaf_path pushed uid)
    memo ← unwrap (lib.memo_from_ro ro)
    let t = faucet ro
    assert (s.ledger_state.state_number == 0)
    assert (is_empty s.transaction_by_id)
    assert (is_empty s.transaction_id_by_hash)
    assert (is_empty s.events)
    let s' = update_tree lib (some pushed) s
    ok (record p {
      query_result_state = record s' {
        events =
            commit_event (t ∷ []) 0 1
            ∷ memos_event ((memo, rc, uid, merkle_path) ∷ []) (some (0, 0, lib.commit t, kind t))
            ∷ [];
        transaction_by_id =
            insert (0, 0)
              (record {
                block_id = 0;
                txn_id = 0;
                output_start = 0;
                output_size = 1;
                transition = t;
              })
              s'.transaction_by_id;
        transaction_id_by_hash = insert (lib.commit t) (0, 0) s'.transaction_id_by_hash;
        last_reported_index = some current_index;
      };
      last_event_index = some current_index;
    })

  unfoldable pub handle_sponsored : ℕ → EthereumAddr → EthEventIndex → Polling lib → Polling lib
  handle_sponsored code address current_index p = record p {
    query_result_state = record (p.query_result_state) {
      address_from_asset = insert code address p.query_result_state.address_from_asset;
      last_reported_index = some current_index;
    };
    last_event_index = some current_index;
  }

  -- The match on the event; the flag says whether the state has to be persisted.
  unfoldable pub handle_event :
      EthEventIndex → CapeEvent → Polling lib × Bool → Call lib (Polling lib × Bool)
  handle_event current_index (block_committed decoded fetched) (p, persist) =
      handle_block_committed lib decoded fetched current_index p >>= λ p'. ok (p', true)
  handle_event current_index (erc20_tokens_deposited decoded code src) (p, persist) =
      handle_deposited decoded code src current_index p >>= λ p'. ok (p', persist)
  handle_event current_index (faucet_initialized decoded) (p, persist) =
      handle_faucet decoded current_index p >>= λ p'. ok (p', true)
  handle_event current_index (asset_sponsored code address) (p, persist) =
      ok (handle_sponsored code address current_index p, true)

  -- One round of the loop over the events.
  unfoldable pub process_event :
      EthEventIndex × CapeEvent → Polling lib × Bool → Call lib (Polling lib × Bool)
  process_event (current_index, event) q =
      if is_repeat (q.0.last_event_index) current_index
      then ok q
      else handle_event current_index event q

  unfoldable pub process_events :
      List (EthEventIndex × CapeEvent) → Polling lib × Bool → Call lib (Polling lib × Bool)
  process_events [] q = ok q
  process_events (e ∷ es) q = process_event e q >>= λ q'. process_events es q'

  -- `store_latest_state` if something was reported, and the next block.
  unfoldable pub finish_range : ℕ → Polling lib × Bool → Polling lib
  finish_range to_block (p, persist) = record p {
    persisted = if persist then some p.query_result_state else p.persisted;
    next_block_to_query = (to_block + 1) % u64_mod;
  }

  -- `none` is a query that fails.
  unfoldable pub check_range :
      ℕ → Option (List (EthEventIndex × CapeEvent)) → Polling lib → Call lib (Polling lib)
  check_range to_block new_event_result p = do
    new_event ← ok_or new_event_result query_failure
    q ← process_events new_event (p, false)
    ok (finish_range to_block q)

  -- The node: its latest block and its events between two blocks, in each round of the loop.
  pub record Node : Type 0 where
    pub latest : ℕ → Option ℕ
    pub query : ℕ → ℕ → ℕ → Option (List (EthEventIndex × CapeEvent))

  -- The last block to fetch in a round.
  unfoldable pub fetch_until : ℕ → Polling lib → ℕ
  fetch_until fetch_latest p =
      min fetch_latest ((p.next_block_to_query + p.max_blocks_to_query) % u64_mod)

  -- The loop of `check`, in rounds; `none` is no fuel left. A failure leaves the state of the round.
  unfoldable pub check : Node → ℕ → ℕ → Polling lib → Option (Polling lib × Call lib ℕ)
  check node zero round p = none
  check node (suc fuel) round p = elim (node.latest round) [
    | none ↦ some (p, err no_block_number)
    | some latest ↦ elim (latest_confirmed_block_number p.num_confirmations latest) [
      | none ↦ some (p, ok 0)
      | some fetch_latest ↦ elim (ltb fetch_latest p.next_block_to_query) [
        | true ↦ some (p, ok p.next_block_to_query)
        | false ↦
            elim (check_range (fetch_until fetch_latest p)
              (node.query round p.next_block_to_query (fetch_until fetch_latest p)) p) [
                | ok p' ↦ check node fuel (suc round) p'
                | err e ↦ some (p, err e)
                | panic ↦ some (p, panic)
              ]
      ]
    ]
  ]
