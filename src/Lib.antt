-- ===== src/Lib.antt =====
-- The Configurable Asset Privacy protocol on Ethereum (CAPE): the contract as it is modelled in
-- Rust, the conversions to its bindings, the transitions of its ledger, the query service that
-- follows it, the queue of its faucet, the relayer, the address book, and the wallet's side of
-- these.
--
-- The parts and how they interact. The contract takes batches of operations: a token is registered,
-- some of it is wrapped into a record, and a block of transactions spends records by their
-- nullifiers and makes new ones, of which a burn pays tokens out again. What happens is emitted as
-- events. The query service polls these events from a node, extends its own tree of records, indexes
-- the transactions and answers queries of wallets. A transaction's outputs are numbered (uids) by
-- the service and by the ledger's validator. The faucet transfers native tokens to the keys that ask
-- for them, and keeps its queue in a log that survives a restart. The relayer builds a block of a
-- user's transaction and sends it to the contract, again after an error of the nonce. The address
-- book keeps the keys of users in files. A wallet opens with the query service's state, polls it for
-- events, and registers its key with the address book; it sponsors and wraps tokens and burns
-- records, and a server keeps one wallet open for its requests. The wallet's tests run on a network
-- that puts the contract's model and a query service of its own together.
--
--   Base      lists, maps, fresh lists, Boolean tests; Outcome, what a call comes to: ok, err, panic
--   Cap       the types of jf_cap, and CapLib, the calls of it (parameters of every definition)
--   Model     contracts/rust/src/model.rs: Types, Notes (extract_burn_dst), State, Assets (register,
--             wrap), Block (SubmitBlock in its steps), Submit (submit_operations and a history of
--             calls); the other children hold the proofs
--   Blocks    contracts/rust/src/cape/mod.rs: the block as it is built from transactions and read again,
--             Recipients (the recipient of a burn); Sending is contracts/rust/src/cape/submit_block.rs,
--             Fetching and Order hold proofs
--   Bindings  contracts/rust/src/types.rs and the conversions of contracts/rust/src/cape/mod.rs: Jf and Sol (the
--             types on either side), Fields (words, points, policies, openings), Plonk (proofs, memos), Notes,
--             Block; Laws, Words, Proofs and Returns hold the proofs
--   Ledger    contracts/rust/src/ledger.rs: transitions, nullifier cache, CapeTruster
--   Eqs       eqs/src: Types (query_result_state.rs, configuration.rs), Commit (a BlockCommitted event of
--             eth_polling.rs), Polling (its other events, new, check_range, check), Routes (routes.rs,
--             route_parsing.rs); Memos, Handled, Index, Hashes, Window, Reading and Pages hold the proofs
--   Faucet    faucet/src/faucet.rs: Types, Index (FaucetQueueIndex), Queue (FaucetQueue, the requests and
--             a worker's round), Workers (the workers at the queue, whose steps come in any order), Breaking
--             (maintain_enough_records, break_up_records); Load, Replay, Bounds, Splits, Maintaining, Places,
--             Once and Kept hold the proofs
--   Relayer   relayer/src/lib.rs: relay, submit_block and a round of the loop of empty blocks; Retries and
--             Relaying hold the proofs
--   AddressBook  address_book/src/lib.rs: Files (its parameters), Store (FileStore), Server (its requests);
--             Refines and Lookup hold the proofs
--   Sync      the contract and the query service together: Trees (the record tree in its three forms),
--             Outputs (what a block inserts), Handling (what the service makes of it), Following (what being in
--             step is) and Service (after a history of calls)
--   Wallet    wallet/src/backend.rs: Stream (subscribe), Backend (what CapeBackend makes of the answers of
--             the other services), Ethereum (what it sends to the contract itself); wallet/src/wallet.rs:
--             Interface (CapeWalletBackend, and WalletLib, the calls of seahorse's wallet), Extension
--             (CapeWalletExt); Delivery, Progress, Waits, Sponsors, Opening, Keys and Burning hold the proofs
--   Api       wallet/src/wallet-api/routes.rs: Values (UrlSegmentValue), Session (the routes that open and
--             close a wallet, with wallet/src/loader.rs), Routes (sponsoring, wrapping, unwrapping, minting,
--             sending), Assets (policies, keys, balances); Attempts, Keystores, LastPath and
--             Unwrapping hold the proofs
--   Mock      wallet/src/mocks.rs: Network (MockCapeNetwork, over the contract's model), Backend
--             (MockCapeBackend); Ledgers, Tracking, History, Posting and Sponsoring hold the proofs
--   Samples   the data that the tests share
--
-- How code becomes a definition. An operation keeps the name of its function, or of the match arm or
-- loop that it is (handle_block_committed, process_txn). A call that mutates takes the state and
-- gives the new one. `?` is a bind of Outcome, unwrap, an index out of range and assert! are panic.
-- Where a call that fails has changed something, it gives the state together with the outcome.
-- HashMap and HashSet are lists that are asked for keys only. Keys, commitments, amounts, hashes and
-- proofs are numbers, since the code compares, stores and passes them on.
--
-- Bounds and fuel. Fields of u64 and u128 keep their wrap-around, as a remainder by 2^64 and 2^128.
-- The loop of EthPolling::check runs on fuel, a unit a round: when the node's latest block stays at
-- or below a bound and no sum reaches 2^64, one unit for each block left and one more is enough.
-- The loop of the relayer's submit_block has the fuel that its first attempt and max_retries more
-- take. The wallet's wait for an asset has a unit for each round, up to the one in which the clock
-- has passed the timeout; without a timeout it has the fuel it is given, and so has
-- maintain_enough_records. A stream of events runs over the list of what the service is at each
-- poll. The inner loop of break_up_records makes two records a round, so a unit for each record
-- that is wanted and one more is enough; the outer loop has the fuel it is given. All other loops
-- are structural.
--
-- Parameters. jf_cap, seahorse, reef, key_set and the ABI encoder are the fields of CapLib and
-- EqsLib; a theorem that needs a law of them (a pushed leaf makes a tree larger by one) names it as
-- a hypothesis. The log of atomic_store is AppendLog: an entry that is stored waits for a commit of
-- the store, which publishes all that wait; a step that fails changes nothing. The node is what it
-- answers in each round of polling. The file system of the address book is a Disk with DiskLaws: a
-- write may spoil its own file only, a rename is made or not. Sync rests on TreeLaws: jf_cap's
-- tree, its frontier and the builder grow alike. The wallet's server rests on ApiLaws: a wallet has
-- the path it was made with, and a path that is encoded is decoded again; what a write of async_std
-- leaves in the file is its answer, Write. The bindings' conversions rest on BindingLaws: what
-- arkworks, ethers and jf_cap write, they read back. Sending a block rests on Contract: what is
-- serialised and encoded is read back; reading a burn's recipient on TextLib: an address has 40
-- digits. Burning rests on TransferLaws: seahorse builds the transfer that it is asked for. Sync
-- takes a block as decoded with its transactions in order, which Blocks shows of the blocks it
-- says.
--
-- Not modelled: the Solidity contracts and the tests against them, the bindings of verifying keys
-- and challenges, the wallet's storage, the clients of Ethereum, user interfaces and the dispatch of
-- servers, the workflow document's sketch (its batch insertion and frontier check are
-- unimplemented!(), so it accepts no block), command lines and deployment.
pub mod Base
pub mod Cap
pub mod Model
pub mod Ledger
pub mod Blocks
pub mod Eqs
pub mod Faucet
pub mod Relayer
pub mod Sync
pub mod AddressBook
pub mod Wallet
pub mod Mock
pub mod Samples
pub mod Bindings
pub mod Api
