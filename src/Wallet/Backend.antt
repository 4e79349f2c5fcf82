-- ===== src/Wallet/Backend.antt =====
-- `CapeBackend` of wallet/src/backend.rs: what it makes of the answers of the query service, the
-- relayer and the address book.
use cape.Base.{
  ℕ, zero, suc, ◌+◌, ◌-◌, ◌*◌, Bool, Option, none, some, [], Outcome, ok, err, panic, unwrap, ok_or,
  guard, ◌>>=◌, ◌>>◌, ◌==◌, nat_eq, ltb, leb, if◌then◌else◌,
}
use cape.Cap.{Bytes, Nullifier}
use cape.Model.Types.{EthereumAddr, CapeModelTxn}
use cape.Ledger.{CapeTransition, CapeNullifierSet, CapeTruster, get}
use cape.Eqs.Types.{EqsLib}
use cape.Eqs.Commit.{QueryState}
use cape.Eqs.Routes.{Bindings, Param, identifier, RouteError, CapState, check_nullifier}
use cape.AddressBook.Files.{UserAddress, UserPubKey, Signature, BookLib}
use cape.AddressBook.Server.{InsertPubKey, Response, insert_pubkey, request_pubkey}

-- Of `CapeWalletError` what the code makes; the message is left out.
pub data CapeWalletError : Type 0 where
  failed crypto_error insufficient_balance : CapeWalletError
  undefined_asset : ℕ → CapeWalletError
  pubkey_not_found : UserAddress → CapeWalletError

abbrev pub Call : Type 0 → Type 0
Call A = Outcome CapeWalletError A

-- The answer of the query service, `none` when it is not reached. Its errors are errors of the client.
unfoldable pub get_eqs : {A : Type 0} → Option (Outcome RouteError A) → Call A
get_eqs none = err failed
get_eqs (some (ok a)) = ok a
get_eqs (some (err e)) = err failed
get_eqs (some panic) = err failed

-- What the cache holds, or else the service's answer.
abbrev pub cached_or : Option Bool → Call Bool → Call Bool
cached_or none asked = asked
cached_or (some ret) asked = ok ret

-- The loop of `wait_for_eqs`: the result and the milliseconds that were slept.
unfoldable pub connect_from : (ℕ → Bool) → ℕ → ℕ → ℕ → Call (Unit {0}) × ℕ
connect_from connects zero attempt backoff = (err failed, 0)
connect_from connects (suc left) attempt backoff =
    let rest = connect_from connects left (attempt + 1) (backoff * 2) in
    if connects attempt then (ok tt, 0) else (rest.0, backoff + rest.1)

-- Whether each attempt connects.
unfoldable pub wait_for_eqs : (ℕ → Bool) → Call (Unit {0}) × ℕ
wait_for_eqs connects = connect_from connects 8 0 500

-- A round of `wait_for_wrapped_erc20_code`, by the service's answer: the timeout, the time that has
-- elapsed and the rounds after it.
abbrev pub after_answer :
    Option ℕ → ℕ → Option (Call (Unit {0})) → Call (Option EthereumAddr) → Option (Call (Unit {0}))
after_answer timeout now again (ok (some address)) = some (ok tt)
after_answer none now again (ok none) = again
after_answer (some time) now again (ok none) = if leb time now then some (err failed) else again
after_answer timeout now again (err e) = some (err e)
after_answer timeout now again panic = some panic

-- The loop, on fuel: the service's answer and the time in each round. `none` is no fuel left.
unfoldable pub wait_from :
    (ℕ → Option (Outcome RouteError (Option EthereumAddr)))
    → (ℕ → ℕ)
    → Option ℕ
    → ℕ
    → ℕ
    → Option (Call (Unit {0}))
wait_from answers elapsed timeout zero round = none
wait_from answers elapsed timeout (suc fuel) round =
    let again = wait_from answers elapsed timeout fuel (round + 1) in
    after_answer timeout (elapsed round) again (get_eqs (answers round))

unfoldable pub wait_for_wrapped_erc20_code :
    (ℕ → Option (Outcome RouteError (Option EthereumAddr)))
    → (ℕ → ℕ)
    → Option ℕ
    → ℕ
    → Option (Call (Unit {0}))
wait_for_wrapped_erc20_code answers elapsed timeout fuel = wait_from answers elapsed timeout fuel 0

-- `submit`, with what the relayer's client gives: wraps and the faucet's transition are refused.
unfoldable pub submit : (CapeModelTxn → Outcome (Unit {0}) ℕ) → CapeTransition → Call (Unit {0})
submit relayer (CapeTransition.transaction txn) = elim (relayer txn) [
  | ok hash ↦ ok tt
  | err e ↦ err failed
  | panic ↦ panic
]
submit relayer (CapeTransition.wrap_transition code src ro) = err failed
submit relayer (CapeTransition.faucet ro) = err failed

module _ (lib : EqsLib) where
  -- What `create` stores of the wallet's state; the other fields are empty.
  pub record WalletState : Type 0 where
    pub validator : CapeTruster
    pub now : ℕ
    pub nullifiers : CapeNullifierSet
    pub record_mt : lib.Tree
    pub merkle_leaf_to_forget : Option ℕ

  unfoldable pub initial_state : CapState lib → lib.Tree → WalletState
  initial_state state record_mt = record {
    validator = record { now = state.ledger.state_number; num_records = lib.num_leaves record_mt };
    now = state.num_events;
    nullifiers = [];
    record_mt = record_mt;
    merkle_leaf_to_forget =
        if ltb 0 (lib.num_leaves record_mt) then some (lib.num_leaves record_mt - 1) else none;
  }

  -- `stores` is whether the storage takes the state.
  unfoldable pub create :
      (ℕ → Bool) → Option (Outcome RouteError (CapState lib)) → Bool → Call WalletState
  create connects answer stores = do
    (wait_for_eqs connects).0
    state ← get_eqs answer
    record_mt ←
        ok_or
          (lib.restore_from_frontier state.ledger.record_merkle_commitment
            state.ledger.record_merkle_frontier)
          failed
    guard stores failed
    ok (initial_state state record_mt)

  -- The URL `check_nullifier/{nullifier}` as the service reads it.
  abbrev pub nullifier_bindings : ℕ → Bindings
  nullifier_bindings tagged Param.nullifier = some (identifier tagged)
  nullifier_bindings tagged _ = none

  abbrev pub asked_nullifier :
      (ℕ → Option Nullifier) → ℕ → Option (QueryState lib) → Option (Outcome RouteError Bool)
  asked_nullifier from_tagged_blob tagged none = none
  asked_nullifier from_tagged_blob tagged (some q) =
      some (check_nullifier lib from_tagged_blob (nullifier_bindings tagged) q)

  -- The nullifier is written as a tagged blob, which the service reads back.
  unfoldable pub get_nullifier_proof :
      (Nullifier → ℕ)
      → (ℕ → Option Nullifier)
      → CapeNullifierSet
      → Nullifier
      → Option (QueryState lib)
      → Call Bool
  get_nullifier_proof to_tagged_blob from_tagged_blob set n service =
      cached_or (get set n) (get_eqs (asked_nullifier from_tagged_blob (to_tagged_blob n) service))

-- How a request of the address book goes.
pub data Delivery : Type 0 where
  delivered request_lost reply_lost : Delivery

-- The status and the body that a client sees of an answer; a panic of the server ends the connection.
unfoldable pub reply : Delivery → Response → Call (ℕ × Option Bytes)
reply delivered (ok answer) = ok answer
reply delivered (err status) = ok (status, none)
reply delivered panic = err failed
reply request_lost r = err failed
reply reply_lost r = err failed

module _ (lib : BookLib) where
  abbrev body_bytes : Option Bytes → Bytes
  body_bytes none = []
  body_bytes (some bytes) = bytes

  -- The match on the status.
  abbrev pub public_key_of : UserAddress → ℕ × Option Bytes → Call UserPubKey
  public_key_of address (status, body) =
      if status == 200
      then unwrap (lib.deserialize (body_bytes body))
      else (if status == 404 then err (pubkey_not_found address) else err failed)

  unfoldable pub get_public_key : UserAddress → Delivery → lib.Disk → Call UserPubKey
  get_public_key address delivery d =
      reply delivery (request_pubkey lib (some address) d) >>= public_key_of address

  -- A key pair is its public key and how it signs.
  unfoldable pub register_request : UserPubKey → (Bytes → Signature) → InsertPubKey
  register_request pub_key sign =
      let pub_key_bytes = lib.serialize pub_key in
      record { pub_key_bytes = pub_key_bytes; sig = sign pub_key_bytes }

  -- `Ok(_)`: any answer is a success.
  unfoldable pub register_user_key :
      UserPubKey → (Bytes → Signature) → ℕ → Delivery → lib.Disk → lib.Disk × Call (Unit {0})
  register_user_key pub_key sign rand_string request_lost d = (d, err failed)
  register_user_key pub_key sign rand_string delivery d =
      let r = insert_pubkey lib (some (register_request pub_key sign)) rand_string d in
      (r.0, reply delivery r.1 >>= λ answer. ok tt)
