-- ===== src/Wallet/Keys.antt =====
-- The requests of wallet/src/backend.rs to the address book of address_book/src/lib.rs.
use cape.Base.{ℕ, ◌≡◌, refl, ◌∙◌, some, ok, err, nat_eq}
use cape.Cap.{Bytes}
use cape.AddressBook.Files.{UserAddress, UserPubKey, Signature, BookLib, DiskLaws}
use cape.AddressBook.Server.{insert_pubkey, insert_request, serve}
use cape.AddressBook.Refines.{entries, serve-entries}
use cape.Wallet.Backend.{delivered, reply, register_user_key, register_request}

module _ (lib : BookLib) (laws : DiskLaws lib) (pub_key : UserPubKey) (sign : Bytes → Signature)
    (rand_string : ℕ) where
  -- On a file system with DiskLaws: a registration that is delivered and that the book refuses,
  -- with any status, is a success for the client, and changes no file of an address.
  pub register_user_key_refused :
      (d : lib.Disk) (status : ℕ) (a : UserAddress)
      → (insert_pubkey lib (some (register_request lib pub_key sign)) rand_string d).1 ≡ err status
      → let r = register_user_key lib pub_key sign rand_string delivered d in
        (r.1 ≡ ok tt) × (entries lib laws r.0 a ≡ entries lib laws d a)
  unfolding register_user_key reply serve
  register_user_key_refused d status a refused =
      let kept =
        serve-entries lib laws
          (insert_request (some (register_request lib pub_key sign)) rand_string) d a in
      (rw refused refl, kept ∙ rw refused refl)
