-- ===== src/AddressBook/Files.antt =====
-- What address_book/src/lib.rs calls: the file system, the encoding of keys and the signatures.
use cape.Base.{ℕ, ◌≡◌, ◌≢◌, Bool, Option, none, some, Outcome, ok, err}
use cape.Cap.{Bytes}

abbrev pub UserAddress : Type 0
UserAddress = ℕ

abbrev pub UserPubKey : Type 0
UserPubKey = ℕ

abbrev pub Signature : Type 0
Signature = ℕ

-- The name of a file: an address with the extension bin, or with a random one.
pub data File : Type 0 where
  bin_file : UserAddress → File
  tmp_file : UserAddress → ℕ → File

-- `std::io::Error` by its kind.
pub data IoError : Type 0 where
  not_found other_error : IoError

pub record BookLib : Type 1 where
  pub address : UserPubKey → UserAddress
  pub serialize : UserPubKey → Bytes
  pub deserialize : Bytes → Option UserPubKey
  pub verify_sig : UserPubKey → Bytes → Signature → Bool
  -- `UserAddress::default()` and `UserPubKey::default()`
  pub default_address : UserAddress
  pub default_pub_key : UserPubKey
  -- The status of a body that cannot be read.
  pub bad_body : ℕ
  -- `fs::write`, `fs::rename` and `fs::read`
  pub Disk : Type 0
  pub write : File → Bytes → Disk → Disk × Outcome IoError (Unit {0})
  pub rename : File → File → Disk → Disk × Outcome IoError (Unit {0})
  pub read : File → Disk → Outcome IoError Bytes

-- A write that fails may leave anything in its own file; a rename is made or not made.
pub record DiskLaws (lib : BookLib) : Type 0 where
  pub content : File → lib.Disk → Option Bytes
  pub write_ok :
      (f : File) (b : Bytes) (d : lib.Disk)
      → (lib.write f b d).1 ≡ ok tt
      → content f (lib.write f b d).0 ≡ some b
  pub write_other :
      (f g : File) (b : Bytes) (d : lib.Disk) → g ≢ f → content g (lib.write f b d).0 ≡ content g d
  pub rename_ok :
      (f g : File) (d : lib.Disk)
      → (lib.rename f g d).1 ≡ ok tt
      → content g (lib.rename f g d).0 ≡ content f d
  pub rename_other :
      (f g h : File) (d : lib.Disk)
      → (lib.rename f g d).1 ≡ ok tt
      → h ≢ f
      → h ≢ g
      → content h (lib.rename f g d).0 ≡ content h d
  pub rename_kept :
      (f g h : File) (d : lib.Disk)
      → (lib.rename f g d).1 ≢ ok tt
      → content h (lib.rename f g d).0 ≡ content h d
  pub read_ok : (f : File) (d : lib.Disk) (b : Bytes) → lib.read f d ≡ ok b → content f d ≡ some b
  pub read_missing : (f : File) (d : lib.Disk) → lib.read f d ≡ err not_found → content f d ≡ none
