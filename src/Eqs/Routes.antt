-- ===== src/Eqs/Routes.antt =====
-- The queries of eqs/src/routes.rs over the state, and the parameters of eqs/src/route_parsing.rs.
use cape.Base.{
  ℕ, ◌+◌, ◌-◌, ◌%◌, min, Bool, Option, none, some, List, [], Outcome, ok, err, unwrap, ◌>>=◌,
  nat_eq, pair_eq, length, take, drop, leb, if◌then◌else◌,
}
use cape.Base.Map.{lookup}
use cape.Base.Fresh.{contains}
use cape.Cap.{Bytes, u64_mod}
use cape.Model.Types.{EthereumAddr}
use cape.Model.State.{CapeLedgerState}
use cape.Ledger.{CommittedCapeTransition}
use cape.Eqs.Types.{EqsLib}
use cape.Eqs.Commit.{QueryState, Event}

-- A segment of a URL, as it was parsed; an identifier stands as a number.
pub data UrlSegmentValue : Type 0 where
  boolean : Bool → UrlSegmentValue
  hexadecimal : ℕ → UrlSegmentValue
  integer : ℕ → UrlSegmentValue
  identifier : ℕ → UrlSegmentValue
  unparsed : Bytes → UrlSegmentValue
  parse_failed : Bytes → UrlSegmentValue
  literal : Bytes → UrlSegmentValue

pub data RouteError : Type 0 where
  bad_param bad_deserialize hash_without_transaction not_connected : RouteError

-- `as u64` cuts a `u128` off.
unfoldable pub as_u64 : UrlSegmentValue → Outcome RouteError ℕ
as_u64 (integer i) = ok (i % u64_mod)
as_u64 (boolean b) = err bad_param
as_u64 _ = err bad_param

unfoldable pub as_identifier : UrlSegmentValue → Outcome RouteError ℕ
as_identifier (identifier i) = ok i
as_identifier (boolean b) = err bad_param
as_identifier _ = err bad_param

-- `from_tagged_blob` is the library's.
unfoldable pub to : (ℕ → Option ℕ) → UrlSegmentValue → Outcome RouteError ℕ
to from_tagged_blob value = as_identifier value >>= λ i. elim (from_tagged_blob i) [
  | none ↦ err bad_deserialize
  | some v ↦ ok v
]

-- The parameters of the routes, and their values in a request.
pub data Param : Type 0 where
  nullifier first max_count block_id txn_id hash asset : Param

abbrev pub Bindings : Type 0
Bindings = Param → Option UrlSegmentValue

-- EQS_MAX_EVENT_COUNT
abbrev pub eqs_max_event_count : ℕ
eqs_max_event_count = 100

-- A parameter that may be left out.
unfoldable pub optional : Option UrlSegmentValue → ℕ → Outcome RouteError ℕ
optional none default = ok default
optional (some value) default = as_u64 value

module _ (lib : EqsLib) where
  pub record CapState : Type 0 where
    pub ledger : CapeLedgerState lib.cap_lib.Frontier
    pub num_events : ℕ

  unfoldable pub get_cap_state : QueryState lib → CapState
  get_cap_state s = record { ledger = s.ledger_state; num_events = length s.events }

  unfoldable pub check_nullifier :
      (ℕ → Option ℕ) → Bindings → QueryState lib → Outcome RouteError Bool
  check_nullifier from_tagged_blob bindings s = do
    value ← unwrap (bindings nullifier)
    n ← to from_tagged_blob value
    ok (contains s.nullifiers n)

  -- `events[first..last].to_vec()`
  unfoldable pub slice : ℕ → ℕ → List (Event lib) → List (Event lib)
  slice from last events = take (last - from) (drop from events)

  unfoldable pub get_events_since :
      Bindings → QueryState lib → Outcome RouteError (List (Event lib))
  get_events_since bindings s = do
    from ← optional (bindings first) 0
    let events_len = length s.events
    let answer = do
      user_max_count ← optional (bindings max_count) eqs_max_event_count
      let count = min user_max_count eqs_max_event_count
      ok (slice from (min (from + count) events_len) s.events)
    if leb events_len from then ok [] else answer

  unfoldable pub get_transaction :
      Bindings → QueryState lib → Outcome RouteError (Option CommittedCapeTransition)
  get_transaction bindings s = do
    block_value ← unwrap (bindings block_id)
    block ← as_u64 block_value
    txn_value ← unwrap (bindings txn_id)
    txn ← as_u64 txn_value
    ok (lookup (block, txn) s.transaction_by_id)

  -- The transaction of an identifier that is indexed.
  abbrev pub resolve :
      Option (ℕ × ℕ) → QueryState lib → Outcome RouteError (Option CommittedCapeTransition)
  resolve none s = ok none
  resolve (some id) s = elim (lookup id s.transaction_by_id) [
    | none ↦ err hash_without_transaction
    | some txn ↦ ok (some txn)
  ]

  unfoldable pub get_transaction_by_hash :
      (ℕ → Option ℕ)
      → Bindings
      → QueryState lib
      → Outcome RouteError (Option CommittedCapeTransition)
  get_transaction_by_hash from_tagged_blob bindings s = do
    value ← unwrap (bindings hash)
    h ← to from_tagged_blob value
    resolve (lookup h s.transaction_id_by_hash) s

  unfoldable pub get_wrapped_erc20_address :
      (ℕ → Option ℕ) → Bindings → QueryState lib → Outcome RouteError (Option EthereumAddr)
  get_wrapped_erc20_address from_tagged_blob bindings s = do
    value ← unwrap (bindings asset)
    code ← to from_tagged_blob value
    ok (lookup code s.address_from_asset)

  abbrev connected : Option EthereumAddr → Outcome RouteError EthereumAddr
  connected none = err not_connected
  connected (some a) = ok a

  unfoldable pub get_cape_contract_address : QueryState lib → Outcome RouteError EthereumAddr
  get_cape_contract_address s = connected s.contract_address
