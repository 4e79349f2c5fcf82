-- ===== src/Wallet/Tests.antt =====
-- The theorems on wallet/src/backend.rs at small data.
use cape.Base.{
  ◌<◌, false, ℕ, zero, suc, ◌+◌, ◌≡◌, ◌⊎◌, refl, true, Option, none, some, List, [], ◌∷◌, ◌++◌,
  arith, ok, drop, nat_eq, ◌==◌,
}
use cape.Ledger.{transaction}
use cape.Eqs.Types.{commit_event, init}
use cape.Eqs.Commit.{QueryState, Event}
use cape.Eqs.Routes.{get_cap_state, get_events_since, optional, as_u64, slice}
use cape.AddressBook.Refines.{entries}
use cape.AddressBook.Server.{insert_pubkey, verify_sig_and_get_pub_key}
use cape.AddressBook.Samples.{small_book, small_laws, no_files}
use cape.Samples.{eqs_lib, start, txn}
use cape.Wallet.Stream.{StreamState, subscribe, stream, next_request, poll, receive, slow_down}
use cape.Wallet.Delivery.{stream-follows, Within}
use cape.Wallet.Progress.{stream-delivers}
use cape.Wallet.Backend.{
  Call, WalletState, wait_for_eqs, connect_from, get_eqs, create, initial_state, delivered,
  register_user_key, register_request,
}
use cape.Cap.{RecordOpening, AssetDefinition}
use cape.Wallet.Ethereum.{pending_done, settled, EthRpc, Polls, register_erc20_asset, wrap_erc20}
use cape.Wallet.Sponsors.{Unknown, Ends, register_erc20_asset_lem}
use cape.Wallet.Opening.{create-stream}
use cape.Wallet.Keys.{register_user_key_refused}

abbrev event : ℕ → Event eqs_lib
event n = commit_event (transaction (txn n) ∷ []) n (n + 1)

abbrev with_events : List (Event eqs_lib) → QueryState eqs_lib
with_events es = record (start.query_result_state) { events = es; nullifiers = 4 ∷ [] }

abbrev first_events : List (Event eqs_lib)
first_events = event 0 ∷ event 1 ∷ []

abbrev all_events : List (Event eqs_lib)
all_events = event 0 ∷ event 1 ∷ event 2 ∷ event 3 ∷ []

-- Two events at first, then no answer, then four events.
abbrev services : List (Option (QueryState eqs_lib))
services =
    some (with_events first_events)
    ∷ none
    ∷ some (with_events all_events)
    ∷ some (with_events all_events)
    ∷ []

abbrev from_one : StreamState
from_one = record { from = 1; to = some 3; backoff = 500; min_backoff = 500; max_backoff = 10000 }

stream-follows_example :
    let r = stream eqs_lib services from_one in
    (drop 1 all_events ≡ r.0 ++ drop r.1.from all_events) × Within (some 3) r.1.from
stream-follows_example =
    stream-follows eqs_lib services all_events from_one
      ((event 2 ∷ event 3 ∷ [], refl), (tt, (([], refl), (([], refl), tt)))) (omega arith)
      (omega arith) (omega arith, omega arith)

abbrev ready_services : List (Option (QueryState eqs_lib))
ready_services = some (with_events all_events) ∷ none ∷ some (with_events all_events) ∷ []

stream-delivers_example :
    let r = stream eqs_lib ready_services from_one in
    (next_request r.1 ≡ none) × (drop 1 all_events ≡ r.0 ++ drop 3 all_events)
stream-delivers_example =
    stream-delivers eqs_lib ready_services all_events from_one 3
      ((([], refl), omega arith), (tt, ((([], refl), omega arith), tt))) refl (omega arith)
      (omega arith) (omega arith) (omega arith)

-- The service knows no address twice, and then one.
abbrev answers : Polls ℕ
answers w zero = some (ok none)
answers w (suc zero) = some (ok none)
answers w _ = some (ok (some (7 ∷ [])))

-- A node that takes any transaction and undoes it.
abbrev undoing : EthRpc ℕ
undoing = record {
  contract = [];
  sponsor_cape_asset = λ erc20_code asset sponsor w. (w + 1, pending_done (some false));
  deposit_erc20 = λ ro erc20_code src_addr w. (w + 1, pending_done (some false));
  approve = λ erc20_code spender amount w. (w + 1, pending_done (some false));
}

-- Neither transaction has done anything, and the wrap is a success.
undone_wrap : (ro : RecordOpening) → wrap_erc20 (some undoing) [] [] ro 0 ≡ (2, ok tt)
unfolding wrap_erc20 settled
undone_wrap ro = refl

abbrev definition : AssetDefinition
definition = record { code = 3; policy_ref = 0 }

register_erc20_asset_lem_example :
    let r = register_erc20_asset (some undoing) answers (λ round. round) 2 definition [] [] 0 in
    (r.0 ≡ 1)
    × (((n : ℕ) × (n < 2)
          × Unknown (answers 1) n 0
          × (result : Call (Unit {0})) × (r.1 ≡ some result)
          × Ends (answers 1) n result)
        ⊎ (Unknown (answers 1) 2 0 × (r.1 ≡ none)))
register_erc20_asset_lem_example =
    register_erc20_asset_lem undoing answers (λ round. round) 2 definition [] [] 0 1 (some false)
      refl

abbrev opened : WalletState eqs_lib
opened = initial_state eqs_lib (get_cap_state eqs_lib (with_events first_events)) []

create-stream_example :
    let r = stream eqs_lib services (subscribe 500 2 none) in
    (eqs_lib.restore_from_frontier start.query_result_state.ledger_state.record_merkle_commitment []
      ≡ some [])
    × (opened.validator.num_records ≡ 0)
    × (opened.validator.now ≡ 0)
    × (event 2 ∷ event 3 ∷ [] ≡ r.0 ++ drop r.1.from all_events)
unfolding create get_eqs get_cap_state initial_state wait_for_eqs connect_from init
create-stream_example =
    create-stream eqs_lib (λ attempt. attempt == 2) (with_events first_events) true opened services
      (event 2 ∷ event 3 ∷ []) 500 refl
      ((event 2 ∷ event 3 ∷ [], refl), (tt, (([], refl), (([], refl), tt)))) (omega arith)

-- A signature of another key is refused.
register_user_key_refused_example :
    let r = register_user_key small_book 7 (λ bytes. 9) 11 delivered no_files in
    (r.1 ≡ ok tt) × (entries small_book small_laws r.0 8 ≡ none)
unfolding insert_pubkey verify_sig_and_get_pub_key register_request
register_user_key_refused_example =
    register_user_key_refused small_book small_laws 7 (λ bytes. 9) 11 no_files 400 8 refl

-- The first event of the second answer comes after those of the first.
streamed : (stream eqs_lib services (subscribe 500 0 none)).0 ≡ all_events
unfolding stream poll next_request subscribe receive slow_down get_events_since optional as_u64
    slice
streamed = refl
