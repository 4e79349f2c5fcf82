-- ===== src/AddressBook/Lookup.antt =====
-- The answers of `request_pubkey` in address_book/src/lib.rs.
use cape.Base.{
  ℕ, ◌≡◌, ◌⊎◌, inl, inr, refl, sym, ap, subst, ◌∙◌, Option-cases, Outcome-cases, Option, none, some,
  ok, panic, arith, nat_eq, ==_refl, none≢some,
}
use cape.Cap.{Bytes}
use cape.AddressBook.Files.{
  UserAddress, UserPubKey, bin_file, not_found, other_error, BookLib, DiskLaws,
}
use cape.AddressBook.Store.{path, load}
use cape.AddressBook.Server.{InsertPubKey, insert_request, insert_pubkey, request_pubkey, serve}
use cape.AddressBook.Refines.{entries, serve-entries}

module _ (lib : BookLib) (laws : DiskLaws lib) where
  -- On a file system with DiskLaws: a lookup answers 200 with the key that the file of the address
  -- encodes, 404 when there is no such file, 500, which it does when the file cannot be read, or
  -- panics, which it does on a file that is no key.
  request_pubkey_lem :
      (address : UserAddress) (d : lib.Disk)
      → ((bytes : Bytes) × (k : UserPubKey) × (entries lib laws d address ≡ some bytes)
          × (lib.deserialize bytes ≡ some k)
          × (request_pubkey lib (some address) d ≡ ok (200, some (lib.serialize k))))
        ⊎ ((entries lib laws d address ≡ none)
            × (request_pubkey lib (some address) d ≡ ok (404, none)))
        ⊎ (request_pubkey lib (some address) d ≡ ok (500, none))
        ⊎ (request_pubkey lib (some address) d ≡ panic)
  unfolding request_pubkey load path
  request_pubkey_lem address d = elim (Outcome-cases (lib.read (bin_file address) d)) [
    | inl (bytes, read) ↦ elim (Option-cases (lib.deserialize bytes)) [
      | inl corrupt ↦ inr (inr (inr (rw (read, corrupt) refl)))
      | inr (k, key) ↦
          inl (bytes, k, laws.read_ok (bin_file address) d bytes read, key, rw (read, key) refl)
    ]
    | inr (inl (not_found, missing)) ↦
        inr (inl (laws.read_missing (bin_file address) d missing, rw missing refl))
    | inr (inl (other_error, broken)) ↦ inr (inr (inl (rw broken refl)))
    | inr (inr crashed) ↦ inr (inr (inr (rw crashed refl)))
  ]

  -- On a file system with DiskLaws, when keys can be decoded again: after an insertion that is
  -- answered with success, a lookup of its key's address answers with the key, or 500 when the
  -- file cannot be read, or panics with the read.
  pub insert_pubkey-request_pubkey :
      (q : InsertPubKey) (k : UserPubKey) (rand_string : ℕ) (d : lib.Disk)
      (answer : ℕ × Option Bytes)
      → lib.deserialize q.pub_key_bytes ≡ some k
      → lib.deserialize (lib.serialize k) ≡ some k
      → (insert_pubkey lib (some q) rand_string d).1 ≡ ok answer
      → let d' = (insert_pubkey lib (some q) rand_string d).0 in
        (request_pubkey lib (some (lib.address k)) d' ≡ ok (200, some (lib.serialize k)))
        ⊎ (request_pubkey lib (some (lib.address k)) d' ≡ ok (500, none))
        ⊎ (request_pubkey lib (some (lib.address k)) d' ≡ panic)
  unfolding serve
  insert_pubkey-request_pubkey q k rand_string d answer key decodes acknowledged =
      let d' : lib.Disk = (insert_pubkey lib (some q) rand_string d).0 in
      let set : entries lib laws d' (lib.address k) ≡ some (lib.serialize k) =
        serve-entries lib laws (insert_request (some q) rand_string) d (lib.address k)
        ∙ rw (acknowledged, key, ==_refl (lib.address k)) refl in
      elim (request_pubkey_lem (lib.address k) d') [
        | inl (bytes, j, stored, read, answered) ↦ inl (
            answered
            ∙ let same_bytes : bytes ≡ lib.serialize k = ground arith in
              let again : lib.deserialize (lib.serialize k) ≡ some j =
                subst (λ b. lib.deserialize b ≡ some j) same_bytes read in
              let same : j ≡ k = ground arith in ap (λ x. ok (200, some (lib.serialize x))) same)
        | inr (inl (missing, answered)) ↦ absurd (none≢some (sym missing ∙ set))
        | inr (inr other) ↦ inr other
      ]
