-- ===== src/Wallet/Watching.antt =====
-- What `CapeWalletExt` of wallet/src/wallet.rs waits for and looks up: a sponsor, the assets of a
-- library, how far a wallet has come.
use cape.Base.{ℕ, Option, List, Outcome, ok, ok_or, ◌>>=◌}
use cape.Cap.{Bytes}
use cape.Model.Types.{EthereumAddr}
use cape.Eqs.Types.{EqsLib}
use cape.Eqs.Routes.{RouteError, CapState}
use cape.Wallet.Backend.{Call, failed, wait_for_wrapped_erc20_code}
use cape.Wallet.Ethereum.{eqs_time}
use cape.Wallet.Extension.{reading}

-- The wait of the backend, with the timeout of the caller.
unfoldable pub wait_for_sponsor :
    (ℕ → Option (Outcome RouteError (Option EthereumAddr)))
    → (ℕ → ℕ)
    → Option ℕ
    → ℕ
    → Option (Call (Unit {0}))
wait_for_sponsor answers elapsed timeout fuel =
    wait_for_wrapped_erc20_code answers elapsed timeout fuel

-- The file, as far as it can be read, is decoded and given to seahorse's `verify_assets` with the
-- backend's key.
unfoldable pub verify_cape_assets :
    {Library Info Wallet : Type 0}
    → (Bytes → Option Library)
    → (ℕ → Library → Wallet → Wallet × Call (List Info))
    → ℕ
    → Option Bytes
    → Wallet
    → Wallet × Call (List Info)
verify_cape_assets decode verify_assets ver_key file wallet =
    reading wallet (ok_or file failed >>= λ bytes. ok_or (decode bytes) failed)
      (verify_assets ver_key)

module _ (lib : EqsLib) where
  -- The time of the service is asked for before the wallet's own.
  unfoldable pub scan_status : Option (Outcome RouteError (CapState lib)) → ℕ → Call (ℕ × ℕ)
  scan_status answer now = do service_time ← eqs_time lib answer; ok (now, service_time)
