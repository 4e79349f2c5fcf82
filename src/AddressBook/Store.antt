-- ===== src/AddressBook/Store.antt =====
-- `FileStore` of address_book/src/lib.rs; `TransientFileStore` passes its calls on.
use cape.Base.{ℕ, Option, none, some, Outcome, ok, err, panic, unwrap, ◌>>=◌}
use cape.Cap.{Bytes}
use cape.AddressBook.Files.{
  UserAddress, UserPubKey, File, bin_file, tmp_file, IoError, not_found, other_error, BookLib,
}

module _ (lib : BookLib) where
  unfoldable pub path : UserAddress → File
  path address = bin_file address

  -- The random string is an argument.
  unfoldable pub tmp_path : UserAddress → ℕ → File
  tmp_path address rand_string = tmp_file address rand_string

  -- `fs::rename` of what has been written.
  abbrev pub rename_written :
      UserAddress
      → ℕ
      → lib.Disk × Outcome IoError (Unit {0})
      → lib.Disk × Outcome IoError (Unit {0})
  rename_written address rand_string (d, ok u) =
      lib.rename (tmp_path address rand_string) (path address) d
  rename_written address rand_string (d, err e) = (d, err e)
  rename_written address rand_string (d, panic) = (d, panic)

  unfoldable pub save :
      UserAddress → UserPubKey → ℕ → lib.Disk → lib.Disk × Outcome IoError (Unit {0})
  save address pub_key rand_string d =
      rename_written address rand_string
        (lib.write (tmp_path address rand_string) (lib.serialize pub_key) d)

  -- The match on what was read; bytes that are no key panic.
  abbrev pub decoded : Outcome IoError Bytes → Outcome IoError (Option UserPubKey)
  decoded (ok bytes) = unwrap (lib.deserialize bytes) >>= λ k. ok (some k)
  decoded (err not_found) = ok none
  decoded (err other_error) = err other_error
  decoded panic = panic

  unfoldable pub load : UserAddress → lib.Disk → Outcome IoError (Option UserPubKey)
  load address d = decoded (lib.read (path address) d)
