-- ===== src/AddressBook/Refines.antt =====
-- The address book of address_book/src/lib.rs refines a map from addresses to keys.
use cape.Base.{
  ℕ, ◌≡◌, inl, inr, refl, sym, ap, subst, ◌∙◌, false, Bool-cases, Option-cases, Outcome-cases,
  Option, none, some, List, [], ◌∷◌, ok, err, panic, arith, ◌==◌, nat_eq, nat_beq_iff,
  if◌then◌else◌, Outcome,
}
use mathlib.Core.Path.{fun_ext}
use cape.Cap.{Bytes}
use cape.AddressBook.Files.{UserAddress, UserPubKey, bin_file, tmp_file, IoError, BookLib, DiskLaws}
use cape.AddressBook.Store.{path, tmp_path, save, rename_written}
use cape.AddressBook.Server.{
  InsertPubKey, Response, Request, insert_request, pub_key_request, health_request, saved,
  insert_verified, verify_sig_and_get_pub_key, insert_pubkey, healthcheck, serve,
}

-- The file of each address.
abbrev pub Entries : Type 0
Entries = UserAddress → Option Bytes

abbrev pub set_entry : UserAddress → Bytes → Entries → Entries
set_entry address bytes m a = if a == address then some bytes else m a

err≢ok : {E A : Type 0} {e : E} {a : A} → Outcome.err e ≡ ok a → ⊥
err≢ok h = cc

panic≢ok : {E A : Type 0} {a : A} → ◌≡◌ {A = Outcome E A} panic (ok a) → ⊥
panic≢ok h = cc

bin≢tmp : (a b : UserAddress) (r : ℕ) → bin_file a ≡ tmp_file b r → ⊥
bin≢tmp a b r h = cc

bin_file-ne : (a b : UserAddress) → (a == b) ≡ false → bin_file a ≡ bin_file b → ⊥
bin_file-ne a b other h = ground (arith, nat_beq_iff a b)

module _ (lib : BookLib) where
  -- What an answer promises: an insertion or a health check that is answered with success has set one
  -- entry, and nothing else changes any.
  abbrev pub insert_promise : Option UserPubKey → Entries → Entries
  insert_promise none m = m
  insert_promise (some k) m = set_entry (lib.address k) (lib.serialize k) m

  abbrev pub promise : Request → Response → Entries → Entries
  promise (insert_request (some r) rand_string) (ok answer) m =
      insert_promise (lib.deserialize r.pub_key_bytes) m
  promise (insert_request (some r) rand_string) (err status) m = m
  promise (insert_request (some r) rand_string) panic m = m
  promise (insert_request none rand_string) answer m = m
  promise (pub_key_request address) answer m = m
  promise (health_request rand_string) (ok answer) m =
      set_entry lib.default_address (lib.serialize lib.default_pub_key) m
  promise (health_request rand_string) (err status) m = m
  promise (health_request rand_string) panic m = m

  abbrev pub serve_all : List Request → lib.Disk → lib.Disk × List Response
  serve_all [] d = (d, [])
  serve_all (r ∷ rs) d =
      let first = serve lib r d in let rest = serve_all rs first.0 in (rest.0, first.1 ∷ rest.1)

  abbrev pub promises : List Request → List Response → Entries → Entries
  promises [] answers m = m
  promises (r ∷ rs) [] m = m
  promises (r ∷ rs) (answer ∷ answers) m = promises rs answers (promise r answer m)

  module _ (laws : DiskLaws lib) where
    abbrev pub entries : lib.Disk → Entries
    entries d a = laws.content (bin_file a) d

    -- What saving leaves, by its result.
    abbrev after_save : Outcome IoError (Unit {0}) → UserAddress → UserPubKey → Entries → Entries
    after_save (ok u) address k m = set_entry address (lib.serialize k) m
    after_save (err e) address k m = m
    after_save panic address k m = m

    rename_written-entries :
        (address : UserAddress) (k : UserPubKey) (rand_string : ℕ) (d0 d : lib.Disk)
        (written : Outcome IoError (Unit {0})) (a : UserAddress)
        → (written ≡ ok tt → laws.content (tmp_file address rand_string) d ≡ some (lib.serialize k))
        → entries d a ≡ entries d0 a
        → let r = rename_written lib address rand_string (d, written) in
          entries r.0 a ≡ after_save r.1 address k (entries d0) a
    unfolding path tmp_path
    rename_written-entries address k rand_string d0 d (err e) a stored kept = kept
    rename_written-entries address k rand_string d0 d panic a stored kept = kept
    rename_written-entries address k rand_string d0 d (ok u) a stored kept =
        let f = tmp_file address rand_string in
        let g = bin_file address in
        elim (Outcome-cases (lib.rename f g d).1) [
          | inl (u, renamed) ↦ elim (Bool-cases (a == address)) [
            | inl same ↦
                let ea : address ≡ a = sym ((nat_beq_iff a address).0 same) in
                rw (renamed, same)
                  (subst
                    (λ x. laws.content (bin_file x) (lib.rename f g d).0 ≡ some (lib.serialize k))
                    ea (laws.rename_ok f g d renamed ∙ stored refl))
            | inr other ↦
                rw (renamed, other)
                  (laws.rename_other f g (bin_file a) d renamed
                      (λ e. bin≢tmp a address rand_string e) (λ e. bin_file-ne a address other e)
                    ∙ kept)
          ]
          | inr (inl (e, failed)) ↦
              rw failed (laws.rename_kept f g (bin_file a) d (λ h. err≢ok (sym failed ∙ h)) ∙ kept)
          | inr (inr crashed) ↦
              rw crashed
                (laws.rename_kept f g (bin_file a) d (λ h. panic≢ok (sym crashed ∙ h)) ∙ kept)
        ]

    save-entries :
        (address : UserAddress) (k : UserPubKey) (rand_string : ℕ) (d : lib.Disk) (a : UserAddress)
        → let r = save lib address k rand_string d in
          entries r.0 a ≡ after_save r.1 address k (entries d) a
    unfolding save tmp_path
    save-entries address k rand_string d a =
        let f = tmp_file address rand_string in
        let w = lib.write f (lib.serialize k) d in
        rename_written-entries address k rand_string d w.0 w.1 a
          (laws.write_ok f (lib.serialize k) d)
          (laws.write_other f (bin_file a) (lib.serialize k) d
            (λ e. bin≢tmp a address rand_string e))

    saved-health :
        (r : lib.Disk × Outcome IoError (Unit {0})) (rand_string : ℕ) (m : Entries)
        (a : UserAddress)
        → entries r.0 a ≡ after_save r.1 lib.default_address lib.default_pub_key m a
        → entries (saved lib r).0 a ≡ promise (health_request rand_string) (saved lib r).1 m a
    saved-health (d, ok u) rand_string m a h = h
    saved-health (d, err e) rand_string m a h = h
    saved-health (d, panic) rand_string m a h = h

    saved-insert :
        (r : lib.Disk × Outcome IoError (Unit {0})) (q : InsertPubKey) (k : UserPubKey)
        (rand_string : ℕ) (m : Entries) (a : UserAddress)
        → lib.deserialize q.pub_key_bytes ≡ some k
        → entries r.0 a ≡ after_save r.1 (lib.address k) k m a
        → entries (saved lib r).0 a
          ≡ promise (insert_request (some q) rand_string) (saved lib r).1 m a
    saved-insert (d, ok u) q k rand_string m a e h = h ∙ ap (λ o. insert_promise o m a) (sym e)
    saved-insert (d, err x) q k rand_string m a e h = h
    saved-insert (d, panic) q k rand_string m a e h = h

    -- One request.
    pub serve-entries :
        (r : Request) (d : lib.Disk) (a : UserAddress)
        → entries (serve lib r d).0 a ≡ promise r (serve lib r d).1 (entries d) a
    unfolding serve insert_pubkey healthcheck verify_sig_and_get_pub_key
    serve-entries (insert_request none rand_string) d a = refl
    serve-entries (insert_request (some q) rand_string) d a =
        elim (Option-cases (lib.deserialize q.pub_key_bytes)) [
          | inl unreadable ↦ rw (unreadable, verify_sig_and_get_pub_key) refl
          | inr (k, read) ↦ elim (Bool-cases (lib.verify_sig k q.pub_key_bytes q.sig)) [
            | inl valid ↦
                let verified : verify_sig_and_get_pub_key lib q ≡ ok k = ground arith in
                subst
                  (λ v.
                    entries (insert_verified lib v rand_string d).0 a
                    ≡ promise (insert_request (some q) rand_string)
                        (insert_verified lib v rand_string d).1 (entries d) a)
                  (sym verified)
                  (saved-insert (save lib (lib.address k) k rand_string d) q k rand_string
                    (entries d) a read (save-entries (lib.address k) k rand_string d a))
            | inr forged ↦
                let refused : verify_sig_and_get_pub_key lib q ≡ err 400 = ground arith in
                subst
                  (λ v.
                    entries (insert_verified lib v rand_string d).0 a
                    ≡ promise (insert_request (some q) rand_string)
                        (insert_verified lib v rand_string d).1 (entries d) a)
                  (sym refused) refl
          ]
        ]
    serve-entries (pub_key_request address) d a = refl
    serve-entries (health_request rand_string) d a =
        saved-health (save lib lib.default_address lib.default_pub_key rand_string d) rand_string
          (entries d) a (save-entries lib.default_address lib.default_pub_key rand_string d a)

    promises-cong :
        (rs : List Request) (answers : List Response) (m n : Entries)
        → ((a : UserAddress) → m a ≡ n a)
        → (a : UserAddress) → promises rs answers m a ≡ promises rs answers n a
    promises-cong rs answers m n same a = ap (λ f. promises rs answers f a) (fun_ext same)

    -- On a file system with DiskLaws: whatever requests are served, the files of the addresses
    -- end as the answers promise: an insertion answered with success has set the file of its
    -- key's address to the key, a health check answered with success that of the default
    -- address, the later in place of the earlier, and no other request has changed one,
    -- whether it failed before, in or after a write.
    pub serve_all-promises :
        (rs : List Request) (d : lib.Disk) (a : UserAddress)
        → let r = serve_all rs d in entries r.0 a ≡ promises rs r.1 (entries d) a
    serve_all-promises [] d a = refl
    serve_all-promises (r ∷ rs) d a =
        let first = serve lib r d in
        let rest = serve_all rs first.0 in
        serve_all-promises rs first.0 a
        ∙ promises-cong rs rest.1 (entries first.0) (promise r first.1 (entries d))
            (serve-entries r d) a
