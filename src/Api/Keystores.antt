-- ===== src/Api/Keystores.antt =====
-- What the requests of wallet/src/wallet-api/routes.rs that open a wallet come to.
use cape.Base.{◌≡◌, ◌⊎◌, inl, inr, refl, sym, subst, Bool, true, false, none, some, ok, err, panic}
use cape.Cap.{Bytes}
use cape.Api.Values.{CapeApiError, Call}
use cape.Api.Session.{
  Write, left_by, CapeLoader, ApiLib, Bindings, Session, and_then, reading, init_wallet,
  literal_loader, password_loader, recovery_loader, replace_wallet, newwallet, openwallet,
  resetpassword,
}
use cape.Api.Attempts.{ApiLaws, Unwritten, Unopened, Attempted, init_wallet-Attempted}

module _ (lib : ApiLib) where
  -- The wallet of a session is the one that was opened at a loader's path, whose encoding was written,
  -- or there is none, for one of these reasons or a path that cannot be encoded.
  abbrev pub Replaced :
      Bool → Write → CapeLoader → Session lib → Session lib × Call (Unit {0}) → Type 0
  Replaced existing write loader s r =
      ((a : lib.Wallet) × (b : lib.Backend) × (v : lib.World) × (bytes : Bytes) × (r.1 ≡ ok tt)
        × (r.0.wallet ≡ some a)
        × (lib.wallet_path a ≡ loader.dir)
        × (lib.serialize loader.dir ≡ some bytes)
        × (r.0.last_used ≡ some (left_by write bytes))
        × (lib.new_backend loader s.world ≡ (v, some b))
        × (lib.exists b ≡ existing))
      ⊎ ((e : CapeApiError) × (r.1 ≡ err e)
          × (r.0.wallet ≡ none)
          × (Unwritten lib write ⊎ Unopened lib existing loader s.world))
      ⊎ ((r.1 ≡ panic) × (r.0.wallet ≡ none) × (lib.serialize loader.dir ≡ none))

  -- What a request that opens a wallet comes to, by what its parameters and the contract's address do.
  abbrev pub Opens :
      Bool → Write → Call CapeLoader → Session lib → Session lib × Call (Unit {0}) → Type 0
  Opens existing write loading s r =
      ((loader : CapeLoader) × (loading ≡ ok loader) × Replaced existing write loader s r)
      ⊎ ((e : CapeApiError) × (loading ≡ err e) × (r ≡ (s, err e)))
      ⊎ ((loading ≡ panic) × (r ≡ (s, panic)))

module _ (lib : ApiLib) (laws : ApiLaws lib) where
  replace_wallet-Replaced :
      (write : Write) (loader : CapeLoader) (existing : Bool) (s : Session lib)
      → Replaced lib existing write loader s (replace_wallet lib write loader existing s)
  unfolding replace_wallet
  replace_wallet-Replaced write loader existing s =
      let closed : Session lib = record s { wallet = none } in
      replaced_with (init_wallet lib write loader existing closed)
        (init_wallet-Attempted lib laws write loader existing closed)
    where
      replaced_with :
          (r : Session lib × Call lib.Wallet)
          → Attempted lib laws existing write loader (record s { wallet = none }) r
          → Replaced lib existing write loader s
              (and_then lib r (λ wallet s. (record s { wallet = some wallet }, ok tt)))
      replaced_with (t, ok a)
            (same_wallet, inl (c, b, v, bytes, done, at_path, encoded, noted, made, alike)) =
          let same : a ≡ c = cc in
          inl (
            a,
            b,
            v,
            bytes,
            refl,
            refl,
            subst (λ x. lib.wallet_path x ≡ loader.dir) (sym same) at_path,
            encoded,
            noted,
            made,
            alike,
          )
      replaced_with (t, ok a) (same_wallet, inr (inl (e, failed, why))) = cc
      replaced_with (t, ok a) (same_wallet, inr (inr (crashed, why))) = cc
      replaced_with (t, err x) (same_wallet, inl (c, b, v, bytes, done, _, _, _, _, _)) = cc
      replaced_with (t, err x) (same_wallet, inr (inl (e, failed, why))) =
          inr (inl (x, refl, same_wallet, why))
      replaced_with (t, err x) (same_wallet, inr (inr (crashed, why))) = cc
      replaced_with (t, panic) (same_wallet, inl (c, b, v, bytes, done, _, _, _, _, _)) = cc
      replaced_with (t, panic) (same_wallet, inr (inl (e, failed, why))) = cc
      replaced_with (t, panic) (same_wallet, inr (inr (crashed, why))) =
          inr (inr (refl, same_wallet, why))

  loaded-Opens :
      (write : Write) (existing : Bool) (loading : Call CapeLoader) (s : Session lib)
      → Opens lib existing write loading s
          (reading lib s loading (λ loader. replace_wallet lib write loader existing))
  loaded-Opens write existing (ok loader) s =
      inl (loader, refl, replace_wallet-Replaced write loader existing s)
  loaded-Opens write existing (err e) s = inr (inl (e, refl, refl))
  loaded-Opens write existing panic s = inr (inr (refl, refl))

  -- The three requests that open a wallet: when the parameters or the contract's address are at fault,
  -- the session is as it was and that is the answer; else the wallet that was open is closed, and then
  -- a wallet is open at the path of the parameters, of a storage that was there for an opening or a
  -- recovery and was not for a new wallet, and the file has what the writing of the path left, or there
  -- is none, for one of the reasons of Replaced.
  pub open-Opens :
      (bindings : Bindings) (write : Write) (s : Session lib)
      → Opens lib false write (literal_loader lib bindings s) s (newwallet lib bindings write s)
        × Opens lib true write (password_loader lib bindings s) s (openwallet lib bindings write s)
        × Opens lib true write
            (recovery_loader lib bindings s)
            s
            (resetpassword lib bindings write s)
  unfolding newwallet openwallet resetpassword
  open-Opens bindings write s = (
    loaded-Opens write false (literal_loader lib bindings s) s,
    loaded-Opens write true (password_loader lib bindings s) s,
    loaded-Opens write true (recovery_loader lib bindings s) s,
  )
