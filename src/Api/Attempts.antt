-- ===== src/Api/Attempts.antt =====
-- An attempt to open a wallet, `init_wallet` of wallet/src/wallet-api/routes.rs, step by step.
use cape.Base.{
  ◌≡◌, ◌⊎◌, inl, inr, refl, ap, ◌∙◌, Bool, true, false, Bool-cases, if◌then◌else◌, Option, none,
  some, ok, err, panic,
}
use cape.Cap.{Bytes}
use cape.Api.Values.{CapeApiError, wallet_failed, open_wallet, other, Call}
use cape.Api.Session.{
  Write, not_created, refused, cached, whole, left_by, encode_and_write, CapeLoader, ApiLib,
  PathBuf, Session, and_then, calling, write_path, differs, load_assets, open_backend, init_wallet,
}

-- What is relied on of bincode and of seahorse: a wallet has the path that it was made with.
pub record ApiLaws (lib : ApiLib) : Type 0 where
  pub read_back :
      (path : PathBuf) (bytes : Bytes)
      → lib.serialize path ≡ some bytes
      → lib.deserialize bytes ≡ some path
  pub made_backend :
      (loader : CapeLoader) (w v : lib.World) (b : lib.Backend)
      → lib.new_backend loader w ≡ (v, some b)
      → lib.backend_path b ≡ loader.dir
  pub made_wallet :
      (b : lib.Backend) (w v : lib.World) (a : lib.Wallet)
      → lib.new_wallet b w ≡ (v, some a)
      → lib.wallet_path a ≡ lib.backend_path b
  pub verified :
      (a : lib.Wallet) (w v : lib.World) (c : lib.Wallet)
      → lib.verify_cape_assets a w ≡ (v, some c)
      → lib.wallet_path c ≡ lib.wallet_path a

module _ (lib : ApiLib) where
  -- Why a wallet is not opened: the path could not be written, there is no backend, it exists or not
  -- against what was asked, there is no wallet, or the library of assets is not verified.
  abbrev pub Unwritten : Write → Type 0
  Unwritten write = (write ≡ not_created) ⊎ ((bytes : Bytes) × (write ≡ refused bytes))

  abbrev pub Unverified : lib.Wallet → lib.World → Type 0
  Unverified a w =
      (lib.assets_is_file w ≡ true) × (v : lib.World) × (lib.verify_cape_assets a w ≡ (v, none))

  abbrev pub Unmade : lib.Backend → lib.World → Type 0
  Unmade b w =
      ((v : lib.World) × (lib.new_wallet b w ≡ (v, none)))
      ⊎ ((a : lib.Wallet) × (v : lib.World) × (lib.new_wallet b w ≡ (v, some a)) × Unverified a v)

  abbrev pub Unopened : Bool → CapeLoader → lib.World → Type 0
  Unopened existing loader w =
      ((v : lib.World) × (lib.new_backend loader w ≡ (v, none)))
      ⊎ ((b : lib.Backend) × (v : lib.World) × (lib.new_backend loader w ≡ (v, some b))
          × ((differs (lib.exists b) existing ≡ true) ⊎ Unmade b v))

module _ (lib : ApiLib) (laws : ApiLaws lib) where
  -- A step on the way to a wallet at a path: it leaves the session's wallet and file, and gives a
  -- wallet at the path or, for a reason, an error.
  abbrev At : PathBuf → Type 0 → Session lib → Session lib × Call lib.Wallet → Type 0
  At path Reason s r =
      (r.0.wallet ≡ s.wallet)
      × (r.0.last_used ≡ s.last_used)
      × (((a : lib.Wallet) × (r.1 ≡ ok a) × (lib.wallet_path a ≡ path))
          ⊎ ((e : CapeApiError) × (r.1 ≡ err e) × Reason))

  load_assets-At :
      (a : lib.Wallet) (s : Session lib)
      → At (lib.wallet_path a) (Unverified lib a s.world) s (load_assets lib a s)
  unfolding load_assets
  load_assets-At a s = checked (lib.assets_is_file s.world) refl
    where
      verified_at :
          lib.assets_is_file s.world ≡ true
          → (answer : lib.World × Option lib.Wallet) → lib.verify_cape_assets a s.world ≡ answer
          → At (lib.wallet_path a) (Unverified lib a s.world) s (calling lib s answer)
      verified_at there (v, none) h = (refl, refl, inr (wallet_failed, refl, (there, v, h)))
      verified_at there (v, some c) h = (refl, refl, inl (c, refl, laws.verified a s.world v c h))

      checked :
          (there : Bool)
          → lib.assets_is_file s.world ≡ there
          → At
              (lib.wallet_path a)
              (Unverified lib a s.world)
              s
              (if there then calling lib s (lib.verify_cape_assets a s.world) else (s, ok a))
      checked true h = verified_at h (lib.verify_cape_assets a s.world) refl
      checked false h = (refl, refl, inl (a, refl, refl))

  made-At :
      (b : lib.Backend) (s : Session lib)
      → At
          (lib.backend_path b)
          (Unmade lib b s.world)
          s
          (and_then lib (calling lib s (lib.new_wallet b s.world)) (load_assets lib))
  made-At b s = made_at (lib.new_wallet b s.world) refl
    where
      made_at :
          (answer : lib.World × Option lib.Wallet)
          → lib.new_wallet b s.world ≡ answer
          → At
              (lib.backend_path b)
              (Unmade lib b s.world)
              s
              (and_then lib (calling lib s answer) (load_assets lib))
      made_at (v, none) h = (refl, refl, inr (wallet_failed, refl, inl (v, h)))
      made_at (v, some a) h =
          let (same_wallet, same_file, outcome) = load_assets-At a (record s { world = v }) in
          (
            same_wallet,
            same_file,
            elim outcome [
              | inl (c, done, at_path) ↦ inl (c, done, at_path ∙ laws.made_wallet b s.world v a h)
              | inr (e, failed, why) ↦ inr (e, failed, inr (a, v, h, why))
            ],
          )

  differs-same : (x y : Bool) → differs x y ≡ false → x ≡ y
  differs-same true true h = refl
  differs-same true false h = cc
  differs-same false true h = cc
  differs-same false false h = refl

  -- What an attempt to open a wallet comes to, after the old one is closed.
  abbrev pub Attempted :
      Bool → Write → CapeLoader → Session lib → Session lib × Call lib.Wallet → Type 0
  Attempted existing write loader s r =
      (r.0.wallet ≡ s.wallet)
      × (((a : lib.Wallet) × (b : lib.Backend) × (v : lib.World) × (bytes : Bytes) × (r.1 ≡ ok a)
            × (lib.wallet_path a ≡ loader.dir)
            × (lib.serialize loader.dir ≡ some bytes)
            × (r.0.last_used ≡ some (left_by write bytes))
            × (lib.new_backend loader s.world ≡ (v, some b))
            × (lib.exists b ≡ existing))
          ⊎ ((e : CapeApiError) × (r.1 ≡ err e)
              × (Unwritten lib write ⊎ Unopened lib existing loader s.world))
          ⊎ ((r.1 ≡ panic) × (lib.serialize loader.dir ≡ none)))

  -- The steps after the path has been written.
  opened-Attempted :
      (write : Write) (loader : CapeLoader) (existing : Bool) (s t : Session lib) (bytes : Bytes)
      → lib.serialize loader.dir ≡ some bytes
      → t ≡ record s { last_used = some (left_by write bytes) }
      → Attempted existing write loader s (
          and_then lib (calling lib t (lib.new_backend loader s.world)) (open_backend lib existing))
  unfolding open_backend
  opened-Attempted write loader existing s t bytes encoded noted =
      backed (lib.new_backend loader s.world) refl
    where
      backed :
          (answer : lib.World × Option lib.Backend)
          → lib.new_backend loader s.world ≡ answer
          → Attempted existing write loader s
              (and_then lib (calling lib t answer) (open_backend lib existing))
      backed (v, none) h =
          (ap (λ u. u.wallet) noted, inr (inl (wallet_failed, refl, inr (inl (v, h)))))
      backed (v, some b) h = elim (Bool-cases (differs (lib.exists b) existing)) [
        | inl apart ↦ rw apart (
          ap (λ u. u.wallet) noted,
          inr (inl (open_wallet, refl, inr (inr (b, v, h, inl apart)))),
        )
        | inr alike ↦
            let (same_wallet, same_file, outcome) = made-At b (record t { world = v }) in
            rw alike (
              same_wallet ∙ ap (λ u. u.wallet) noted,
              elim outcome [
                | inl (a, done, at_path) ↦ inl (
                  a,
                  b,
                  v,
                  bytes,
                  done,
                  at_path ∙ laws.made_backend loader s.world v b h,
                  encoded,
                  same_file ∙ ap (λ u. u.last_used) noted,
                  h,
                  differs-same (lib.exists b) existing alike,
                )
                | inr (e, failed, why) ↦ inr (inl (e, failed, inr (inr (b, v, h, inr why))))
              ],
            )
      ]

  pub init_wallet-Attempted :
      (write : Write) (loader : CapeLoader) (existing : Bool) (s : Session lib)
      → Attempted existing write loader s (init_wallet lib write loader existing s)
  unfolding init_wallet write_path
  init_wallet-Attempted write loader existing s = written_by write (lib.serialize loader.dir) refl
    where
      written_by :
          (write : Write) (encoded : Option Bytes)
          → lib.serialize loader.dir ≡ encoded
          → Attempted existing write loader s (
              and_then lib (encode_and_write lib write encoded s) (λ u s.
                and_then lib
                  (calling lib s (lib.new_backend loader s.world))
                  (open_backend lib existing)))
      written_by not_created encoded h = (refl, inr (inl (other, refl, inl (inl refl))))
      written_by (refused left) none h = (refl, inr (inr (refl, h)))
      written_by (cached left) none h = (refl, inr (inr (refl, h)))
      written_by whole none h = (refl, inr (inr (refl, h)))
      written_by (refused left) (some bytes) h =
          (refl, inr (inl (other, refl, inl (inr (left, refl)))))
      written_by (cached left) (some bytes) h =
          opened-Attempted (cached left) loader existing s (record s { last_used = some left })
            bytes h refl
      written_by whole (some bytes) h =
          opened-Attempted whole loader existing s (record s { last_used = some bytes }) bytes h
            refl
