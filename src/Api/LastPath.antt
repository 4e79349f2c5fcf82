-- ===== src/Api/LastPath.antt =====
-- The file of the last keystore of wallet/src/wallet-api/routes.rs while wallets are opened and closed.
use cape.Base.{
  ◌≡◌, refl, sym, ap, subst, ◌∙◌, Bool, true, false, none, some, List, [], ◌∷◌, All, inl, inr, ok,
  err, panic,
}
use cape.Cap.{Bytes}
use cape.Api.Values.{Call}
use cape.Api.Session.{
  Write, not_created, refused, cached, whole, left_by, ApiLib, Session, reading, read_last_path,
  CapeLoader, literal_loader, password_loader, recovery_loader, newwallet, openwallet,
  resetpassword, require_wallet, closewallet, Request, new_request, open_request, reset_request,
  close_request, serve, serve_all,
}
use cape.Api.Attempts.{ApiLaws}
use cape.Api.Keystores.{Opens, open-Opens}

-- What a write that ends well has put in the cache reaches the file.
abbrev pub Reaches : Write → Type 0
Reaches (cached bytes) = ⊥
Reaches _ = Unit

left_by-Reaches : (write : Write) (bytes : Bytes) → Reaches write → left_by write bytes ≡ bytes
left_by-Reaches not_created bytes h = refl
left_by-Reaches (refused left) bytes h = refl
left_by-Reaches (cached left) bytes h = absurd h
left_by-Reaches whole bytes h = refl

module _ (lib : ApiLib) where
  abbrev pub Written : Request lib → Type 0
  Written (new_request b write) = Reaches write
  Written (open_request b write) = Reaches write
  Written (reset_request b write) = Reaches write
  Written close_request = Unit

module _ (lib : ApiLib) (laws : ApiLaws lib) where
  -- The file holds the path of the wallet that is open.
  abbrev Recorded : Session lib → Type 0
  Recorded s =
      (a : lib.Wallet)
      → s.wallet ≡ some a
      → (bytes : Bytes) × (lib.serialize (lib.wallet_path a) ≡ some bytes)
        × (s.last_used ≡ some bytes)

  Opens-Recorded :
      (existing : Bool) (write : Write) (loading : Call CapeLoader) (s : Session lib)
      (r : Session lib × Call (Unit {0}))
      → Recorded s
      → Reaches write
      → Opens lib existing write loading s r
      → Recorded r.0
  Opens-Recorded existing write loading s r before reaches
        (inl (loader, _, inl (b, _, _, bytes, _, set, at_path, encoded, noted, _, _))) a h =
      let same : a ≡ b = cc in
      (
        bytes,
        ap lib.serialize (ap lib.wallet_path same ∙ at_path) ∙ encoded,
        noted ∙ ap some (left_by-Reaches write bytes reaches),
      )
  Opens-Recorded existing write loading s r before reaches
        (inl (loader, _, inr (inl (e, _, closed, _)))) a h =
      cc
  Opens-Recorded existing write loading s r before reaches
        (inl (loader, _, inr (inr (_, closed, _)))) a h =
      cc
  Opens-Recorded existing write loading s r before reaches (inr (inl (e, _, same))) a h =
      subst Recorded (sym (ap (λ q. q.0) same)) before a h
  Opens-Recorded existing write loading s r before reaches (inr (inr (_, same))) a h =
      subst Recorded (sym (ap (λ q. q.0) same)) before a h

  closed-Recorded :
      (s : Session lib) (call : Call lib.Wallet)
      → Recorded s
      → Recorded (reading lib s call (λ w s. (record s { wallet = none }, ok tt))).0
  closed-Recorded s (ok w) before a h = cc
  closed-Recorded s (err e) before a h = before a h
  closed-Recorded s panic before a h = before a h

  serve-Recorded :
      (request : Request lib) (s : Session lib)
      → Written lib request
      → Recorded s
      → Recorded (serve lib request s).0
  unfolding serve closewallet
  serve-Recorded (new_request b w) s reaches before =
      Opens-Recorded false w (literal_loader lib b s) s (newwallet lib b w s) before reaches
        (open-Opens lib laws b w s).0
  serve-Recorded (open_request b w) s reaches before =
      Opens-Recorded true w (password_loader lib b s) s (openwallet lib b w s) before reaches
        (open-Opens lib laws b w s).1
  serve-Recorded (reset_request b w) s reaches before =
      Opens-Recorded true w (recovery_loader lib b s) s (resetpassword lib b w s) before reaches
        (open-Opens lib laws b w s).2
  serve-Recorded close_request s reaches before = closed-Recorded s (require_wallet lib s) before

  serve_all-Recorded :
      (requests : List (Request lib)) (s : Session lib)
      → All (Written lib) requests
      → Recorded s
      → Recorded (serve_all lib requests s)
  unfolding serve_all
  serve_all-Recorded [] s reaches before = before
  serve_all-Recorded (r ∷ rs) s reaches before =
      serve_all-Recorded rs (serve lib r s).0 reaches.1 (serve-Recorded r s reaches.0 before)

  -- From a session without a wallet, and while what a write_all that ends well has put in the cache
  -- reaches the file: after any requests, some of whose writes may fail, the last keystore that a
  -- readable file gives is the path of the wallet that is open, if one is.
  pub serve_all-read_last_path :
      (requests : List (Request lib)) (s : Session lib) (a : lib.Wallet)
      → All (Written lib) requests
      → s.wallet ≡ none
      → (serve_all lib requests s).wallet ≡ some a
      → read_last_path lib true (serve_all lib requests s) ≡ ok (some (lib.wallet_path a))
  unfolding read_last_path
  serve_all-read_last_path requests s a reaches closed opened =
      let (bytes, encoded, noted) = serve_all-Recorded requests s reaches (λ b h. cc) a opened in
      rw (noted, laws.read_back (lib.wallet_path a) bytes encoded) refl
