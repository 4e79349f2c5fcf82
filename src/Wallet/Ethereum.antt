-- ===== src/Wallet/Ethereum.antt =====
-- What `CapeBackend` of wallet/src/backend.rs sends to the contract itself: sponsors and wraps. The
-- node, with all that follows it, is a parameter, and how it takes each transaction is its answer.
use cape.Base.{ℕ, Bool, Option, none, some, Outcome, ok, err, panic, unwrap, ok_or, ◌>>=◌}
use cape.Cap.{AssetDefinition, RecordOpening}
use cape.Model.Types.{EthereumAddr, Erc20Code}
use cape.Eqs.Types.{EqsLib}
use cape.Eqs.Routes.{RouteError, CapState}
use cape.Wallet.Backend.{Call, failed, get_eqs, wait_for_wrapped_erc20_code}

-- How a transaction goes: `send` fails, waiting for it fails, or it comes to a receipt. The receipt
-- has the status, and there is none of a transaction that was dropped.
pub data Sent : Type 0 where
  not_sent not_submitted : Sent
  pending_done : Option Bool → Sent

-- `map_err` of both steps, and `map(|_| ())`: the status is ignored.
unfoldable pub settled : Sent → Call (Unit {0})
settled not_sent = err failed
settled not_submitted = err failed
settled (pending_done receipt) = ok tt

-- The connection to a node, `World`, with its account.
pub record EthRpc (World : Type 0) : Type 0 where
  pub contract : EthereumAddr
  pub sponsor_cape_asset : Erc20Code → AssetDefinition → EthereumAddr → World → World × Sent
  pub deposit_erc20 : RecordOpening → Erc20Code → EthereumAddr → World → World × Sent
  pub approve : Erc20Code → EthereumAddr → ℕ → World → World × Sent

-- The answers that the query service gives to the polls of a wait that starts in a world.
abbrev pub Polls : Type 0 → Type 0
Polls World = World → ℕ → Option (Outcome RouteError (Option EthereumAddr))

-- `EthRpc::new`: the account of a phrase or a random one, for the chain of the node.
unfoldable pub eth_wallet :
    {Phrase EthWallet : Type 0}
    → (Phrase → Option EthWallet)
    → (EthWallet → ℕ → EthWallet)
    → EthWallet
    → Option ℕ
    → Option Phrase
    → Call EthWallet
eth_wallet build with_chain_id random chain_id none = do
  id ← unwrap chain_id
  ok (with_chain_id random id)
eth_wallet build with_chain_id random chain_id (some mnemonic) = do
  id ← unwrap chain_id
  wallet ← ok_or (build mnemonic) failed
  ok (with_chain_id wallet id)

-- The rest of `register_erc20_asset` after the transaction: `none` is no fuel left for the wait.
abbrev pub wait_after :
    (ℕ → Option (Outcome RouteError (Option EthereumAddr)))
    → (ℕ → ℕ)
    → ℕ
    → Call (Unit {0})
    → Option (Call (Unit {0}))
wait_after answers elapsed fuel (ok done) = wait_for_wrapped_erc20_code answers elapsed none fuel
wait_after answers elapsed fuel (err e) = some (err e)
wait_after answers elapsed fuel panic = some panic

module _ {World : Type 0} where
  unfoldable pub register_erc20_asset :
      Option (EthRpc World)
      → Polls World
      → (ℕ → ℕ)
      → ℕ
      → AssetDefinition
      → Erc20Code
      → EthereumAddr
      → World
      → World × Option (Call (Unit {0}))
  register_erc20_asset none polls elapsed fuel asset erc20_code sponsor w = (w, some (err failed))
  register_erc20_asset (some eth) polls elapsed fuel asset erc20_code sponsor w =
      let r = eth.sponsor_cape_asset erc20_code asset sponsor w in
      (r.0, wait_after (polls r.0) elapsed fuel (settled r.1))

  -- The deposit, after the approval has gone well.
  abbrev pub deposit_after :
      EthRpc World
      → Erc20Code
      → EthereumAddr
      → RecordOpening
      → World
      → Call (Unit {0})
      → World × Call (Unit {0})
  deposit_after eth erc20_code src_addr ro w (ok done) =
      let r = eth.deposit_erc20 ro erc20_code src_addr w in (r.0, settled r.1)
  deposit_after eth erc20_code src_addr ro w (err e) = (w, err e)
  deposit_after eth erc20_code src_addr ro w panic = (w, panic)

  unfoldable pub wrap_erc20 :
      Option (EthRpc World)
      → Erc20Code
      → EthereumAddr
      → RecordOpening
      → World
      → World × Call (Unit {0})
  wrap_erc20 none erc20_code src_addr ro w = (w, err failed)
  wrap_erc20 (some eth) erc20_code src_addr ro w =
      let approved = eth.approve erc20_code eth.contract ro.amount w in
      deposit_after eth erc20_code src_addr ro approved.0 (settled approved.1)

-- An address of the query service is the code of the token.
unfoldable pub get_wrapped_erc20_code :
    Option (Outcome RouteError (Option EthereumAddr)) → Call (Option Erc20Code)
get_wrapped_erc20_code answer = do address ← get_eqs answer; ok address

unfoldable pub latest_contract_address : Option (Outcome RouteError EthereumAddr) → Call Erc20Code
latest_contract_address answer = do address ← get_eqs answer; ok address

module _ (lib : EqsLib) where
  unfoldable pub eqs_time : Option (Outcome RouteError (CapState lib)) → Call ℕ
  eqs_time answer = do state ← get_eqs answer; ok state.num_events
