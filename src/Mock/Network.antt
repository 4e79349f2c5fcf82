-- ===== src/Mock/Network.antt =====
-- `MockCapeNetwork` of wallet/src/mocks.rs.
use cape.Base.{
  ℕ, ◌+◌, ◌%◌, Bool, true, false, Option, none, some, List, [], ◌∷◌, ◌++◌, map, Outcome, ok, err,
  panic, unwrap, ok_or, guard, ◌>>=◌, ◌>>◌, ◌==◌, nat_eq, pair_eq, length,
}
use mathlib.Core.Option
use cape.Base.Map.{Map, lookup, insert, erase}
use cape.Base.Fresh.{contains}
use cape.Cap.{Nullifier, RecordCommitment, RecordOpening, AssetDefinition, VerifierKeySet, u64_mod}
use cape.Model.Types.{
  EthereumAddr, Erc20Code, CapeModelOperation, CapeModelEvent, CapeValidationError,
}
use cape.Model.State.{init}
use cape.Model.Assets.{State}
use cape.Model.Submit
use cape.Ledger.{CapeTransition, transaction, wrap_transition, output_commitments, kind}
use cape.Eqs.Types.{EqsLib, ReceiverMemo, Signature, Hash, commit_event, memos_event}
use cape.Eqs.Commit.{Output, Event, push_commitments, note_of}
use cape.Sync.Outputs.{emitted}
use cape.AddressBook.Files.{UserAddress, UserPubKey}

-- Why memos are not posted.
pub data PostError : Type 0 where
  invalid_transaction_id memos_already_posted invalid_memos_signature wrong_number_of_memos
        memos_for_wrap :
      PostError

-- What the event of a deposit says.
abbrev pub Deposit : Type 0
Deposit = Erc20Code × EthereumAddr × RecordOpening

module _ (lib : EqsLib) where
  pub record CommittedTransaction : Type 0 where
    pub txn : CapeTransition
    pub uids : List ℕ
    pub memos : Option (List (Output lib) × Signature)

  -- `events` is what has been published, in order.
  pub record MockCapeNetwork : Type 0 where
    pub contract : State lib.cap_lib
    pub call_data : Map Hash (List ReceiverMemo × Signature)
    pub block_height : ℕ
    pub records : lib.Tree
    pub pending_erc20_deposits : Map RecordCommitment Deposit
    pub events : List (Event lib)
    pub txns : Map (ℕ × ℕ) CommittedTransaction
    pub address_map : Map UserAddress UserPubKey

  unfoldable pub generate_event : Event lib → MockCapeNetwork → MockCapeNetwork
  generate_event event net = record net { events = net.events ++ (event ∷ []) }

  -- The wraps of a block, each taken out of the pending deposits; one that is not there panics.
  unfoldable pub take_deposits :
      {E : Type 0}
      → List RecordCommitment
      → Map RecordCommitment Deposit
      → Outcome E (List CapeTransition × Map RecordCommitment Deposit)
  take_deposits [] pending = ok ([], pending)
  take_deposits (comm ∷ comms) pending = do
    deposit ← unwrap (lookup comm pending)
    rest ← take_deposits comms (erase comm pending)
    ok (wrap_transition deposit.0 deposit.1 deposit.2 ∷ rest.0, rest.1)

  -- The transactions of a block and their outputs.
  unfoldable pub add_transactions :
      {E : Type 0} → ℕ → List CapeTransition → MockCapeNetwork → Outcome E MockCapeNetwork
  add_transactions i [] net = ok net
  add_transactions i (txn ∷ txns) net = do
    comms ← unwrap (output_commitments lib.cap_lib txn)
    let r = push_commitments lib net.records comms
    add_transactions (i + 1) txns (record net {
      records = r.0;
      txns = insert (net.block_height, i) (record { txn = txn; uids = r.1; memos = none }) net.txns;
    })

  -- The memos are signed by a transaction, and are as many as its outputs.
  unfoldable pub validate_memos :
      CapeTransition → List ReceiverMemo → Signature → Outcome PostError (Unit {0})
  validate_memos (transaction txn) memos sig = do
    guard (lib.verify_memos (note_of txn) memos sig) invalid_memos_signature
    guard (length memos == lib.output_len (transaction txn)) wrong_number_of_memos
  validate_memos (wrap_transition code src ro) memos sig = err memos_for_wrap
  validate_memos (CapeTransition.faucet ro) memos sig = err memos_for_wrap

  unfoldable pub merkle_paths : {E : Type 0} → lib.Tree → List ℕ → Outcome E (List lib.MerklePath)
  merkle_paths tree [] = ok []
  merkle_paths tree (uid ∷ uids) = do
    path ← unwrap (lib.leaf_path tree uid)
    paths ← merkle_paths tree uids
    ok (path ∷ paths)

  -- `izip!`, which ends with the shortest.
  abbrev pub izip :
      List ReceiverMemo → List RecordCommitment → List ℕ → List lib.MerklePath → List (Output lib)
  izip [] comms uids paths = []
  izip (m ∷ ms) [] uids paths = []
  izip (m ∷ ms) (c ∷ cs) [] paths = []
  izip (m ∷ ms) (c ∷ cs) (u ∷ us) [] = []
  izip (m ∷ ms) (c ∷ cs) (u ∷ us) (p ∷ ps) = (m, c, u, p) ∷ izip ms cs us ps

  -- `txn.memos.is_some()`, negated.
  abbrev pub not_posted : Option (List (Output lib) × Signature) → Bool
  not_posted none = true
  not_posted (some posted) = false

  unfoldable pub post_memos :
      ℕ → ℕ → List ReceiverMemo → Signature → MockCapeNetwork → Outcome PostError MockCapeNetwork
  post_memos block_id txn_id memos sig net = do
    txn ← ok_or (lookup (block_id, txn_id) net.txns) invalid_transaction_id
    guard (not_posted txn.memos) memos_already_posted
    validate_memos txn.txn memos sig
    paths ← merkle_paths net.records txn.uids
    comms ← unwrap (output_commitments lib.cap_lib txn.txn)
    let outputs = izip memos comms txn.uids paths
    ok (
        generate_event
          (memos_event outputs (some (block_id, txn_id, lib.commit txn.txn, kind txn.txn)))
          (record net {
            txns = insert (block_id, txn_id) (record txn { memos = some (outputs, sig) }) net.txns;
          }))

  -- `unwrap` of a result.
  abbrev pub unwrap_result : {E F A : Type 0} → Outcome F A → Outcome E A
  unwrap_result (ok a) = ok a
  unwrap_result (err e) = panic
  unwrap_result panic = panic

  -- The memos of one transaction, when its call data hold any.
  unfoldable pub post_call_data :
      {E : Type 0}
      → ℕ
      → Option (List ReceiverMemo × Signature)
      → MockCapeNetwork
      → Outcome E MockCapeNetwork
  post_call_data txn_id none net = ok net
  post_call_data txn_id (some (memos, sig)) net =
      unwrap_result (post_memos net.block_height txn_id memos sig net)

  unfoldable pub post_all :
      {E : Type 0} → ℕ → List CapeTransition → MockCapeNetwork → Outcome E MockCapeNetwork
  post_all txn_id [] net = ok net
  post_all txn_id (txn ∷ txns) net = do
    let hash = lib.commit txn
    posted ←
        post_call_data txn_id (lookup hash net.call_data)
          (record net { call_data = erase hash net.call_data })
    post_all (txn_id + 1) txns posted

  unfoldable pub handle_event :
      {E : Type 0} → CapeModelEvent → MockCapeNetwork → Outcome E MockCapeNetwork
  handle_event (CapeModelEvent.block_committed txns wraps) net = do
    taken ← take_deposits wraps net.pending_erc20_deposits
    let block = map transaction txns ++ taken.0
    added ← add_transactions 0 block (record net { pending_erc20_deposits = taken.1 })
    posted ← post_all 0 block (
        generate_event (commit_event block net.block_height ((net.block_height + 1) % u64_mod))
          added)
    ok (record posted { block_height = (posted.block_height + 1) % u64_mod })
  handle_event (CapeModelEvent.erc20_deposited erc20_code src_addr ro) net = ok (record net {
    pending_erc20_deposits =
        insert (lib.cap_lib.record_commitment ro) (erc20_code, src_addr, ro)
          net.pending_erc20_deposits;
  })

  unfoldable pub handle_events :
      {E : Type 0} → List CapeModelEvent → MockCapeNetwork → Outcome E MockCapeNetwork
  handle_events [] net = ok net
  handle_events (e ∷ es) net = handle_event e net >>= handle_events es

  unfoldable pub submit_operations :
      List CapeModelOperation → MockCapeNetwork → Outcome CapeValidationError MockCapeNetwork
  submit_operations ops net = do
    r ← Submit.submit_operations lib.cap_lib ops net.contract
    handled ← handle_events (emitted r.1) net
    ok (record handled { contract = r.0 })

  -- The network before the first event; the tree is the contract's too.
  abbrev pub empty_network : VerifierKeySet → lib.Tree → MockCapeNetwork
  empty_network verif_crs records = record {
    contract = init verif_crs (lib.commitment records) (lib.frontier records);
    call_data = [];
    block_height = 0;
    records = records;
    pending_erc20_deposits = [];
    events = [];
    txns = [];
    address_map = [];
  }

  -- The outputs that the initial memos are about; a leaf that is not there panics.
  unfoldable pub granted_outputs :
      {E : Type 0}
      → (lib.Tree → ℕ → Option (RecordCommitment × lib.MerklePath))
      → lib.Tree
      → List (ReceiverMemo × ℕ)
      → Outcome E (List (Output lib))
  granted_outputs get_leaf records [] = ok []
  granted_outputs get_leaf records ((memo, uid) ∷ memos) = do
    leaf ← unwrap (get_leaf records uid)
    rest ← granted_outputs get_leaf records memos
    ok ((memo, leaf.0, uid, leaf.1) ∷ rest)

  -- `MockCapeNetwork::new`
  unfoldable pub new :
      {E : Type 0}
      → (lib.Tree → ℕ → Option (RecordCommitment × lib.MerklePath))
      → VerifierKeySet
      → lib.Tree
      → List (ReceiverMemo × ℕ)
      → Outcome E MockCapeNetwork
  new get_leaf verif_crs records initial_grant_memos = do
    outputs ← granted_outputs get_leaf records initial_grant_memos
    ok (generate_event (memos_event outputs none) (empty_network verif_crs records))

  unfoldable pub register_erc20 :
      AssetDefinition
      → Erc20Code
      → EthereumAddr
      → MockCapeNetwork
      → Outcome CapeValidationError MockCapeNetwork
  register_erc20 asset_def erc20_code sponsor_addr =
      submit_operations (CapeModelOperation.register_erc20 asset_def erc20_code sponsor_addr ∷ [])

  unfoldable pub wrap_erc20 :
      Erc20Code
      → EthereumAddr
      → RecordOpening
      → MockCapeNetwork
      → Outcome CapeValidationError MockCapeNetwork
  wrap_erc20 erc20_code src_addr ro =
      submit_operations (CapeModelOperation.wrap_erc20 erc20_code src_addr ro ∷ [])

  -- The operation of each transition of a block; the faucet's panics.
  unfoldable pub to_operations :
      {E : Type 0} → List CapeTransition → Outcome E (List CapeModelOperation)
  to_operations [] = ok []
  to_operations (transaction txn ∷ txns) = do
    rest ← to_operations txns
    ok (CapeModelOperation.submit_block (txn ∷ []) ∷ rest)
  to_operations (wrap_transition code src ro ∷ txns) = do
    rest ← to_operations txns
    ok (CapeModelOperation.wrap_erc20 code src ro ∷ rest)
  to_operations (CapeTransition.faucet ro ∷ txns) = panic

  unfoldable pub submit :
      List CapeTransition → MockCapeNetwork → Outcome CapeValidationError MockCapeNetwork
  submit block net = to_operations block >>= λ ops. submit_operations ops net

  unfoldable pub store_call_data :
      Hash → List ReceiverMemo → Signature → MockCapeNetwork → MockCapeNetwork
  store_call_data txn memos sig net = record net {
    call_data = insert txn (memos, sig) net.call_data;
  }

  unfoldable pub nullifier_spent : MockCapeNetwork → Nullifier → Bool
  nullifier_spent net n = contains net.contract.nullifiers n

  -- `none` is the error for an invalid identifier.
  unfoldable pub get_transaction : MockCapeNetwork → ℕ → ℕ → Option CapeTransition
  get_transaction net block_id txn_id =
      Option.map (λ (t : CommittedTransaction). t.txn) (lookup (block_id, txn_id) net.txns)

  -- A call that fails leaves the network as it is, and a panic ends the run.
  abbrev pub after_call :
      MockCapeNetwork → Outcome CapeValidationError MockCapeNetwork → Option MockCapeNetwork
  after_call net (ok n) = some n
  after_call net (err e) = some net
  after_call net panic = none

  abbrev pub run_rest :
      (MockCapeNetwork → Option MockCapeNetwork) → Option MockCapeNetwork → Option MockCapeNetwork
  run_rest rest none = none
  run_rest rest (some net) = rest net

  abbrev pub run_calls : List (List CapeModelOperation) → MockCapeNetwork → Option MockCapeNetwork
  run_calls [] net = some net
  run_calls (ops ∷ calls) net =
      run_rest (run_calls calls) (after_call net (submit_operations ops net))
