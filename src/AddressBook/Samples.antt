-- ===== src/AddressBook/Samples.antt =====
-- A disk in memory, and small keys and signatures, for the tests of address_book/src/lib.rs and of its
-- clients.
use cape.Base.{
  ◌+◌, ◌≡◌, ◌≢◌, refl, Bool, true, false, ◌&&◌, ◌↔◌, Option, none, some, [], ◌∷◌, ok, err, arith,
  ◌==◌, nat_eq, if◌then◌else◌, Outcome,
}
use cape.Cap.{Bytes}
use cape.AddressBook.Files.{File, bin_file, tmp_file, IoError, not_found, BookLib, DiskLaws}

abbrev pub file_beq : File → File → Bool
file_beq (bin_file a) (bin_file b) = a == b
file_beq (tmp_file a r) (tmp_file b s) = (a == b) && (r == s)
file_beq (bin_file a) (tmp_file b s) = false
file_beq (tmp_file a r) (bin_file b) = false

pub file_beq_iff : (f g : File) → (file_beq f g ≡ true) ↔ (f ≡ g)
file_beq_iff (bin_file a) (bin_file b) = ground arith
file_beq_iff (tmp_file a r) (tmp_file b s) = ground arith
file_beq_iff (bin_file a) (tmp_file b s) = ground arith
file_beq_iff (tmp_file a r) (bin_file b) = ground arith

abbrev pub Disk : Type 0
Disk = File → Option Bytes

abbrev pub put : File → Option Bytes → Disk → Disk
put f b d g = if file_beq g f then b else d g

abbrev pub read_file : Option Bytes → Outcome IoError Bytes
read_file none = err not_found
read_file (some b) = ok b

-- A key is its one byte, and its address one more; a signature is valid when it is the key.
abbrev pub small_book : BookLib
small_book = record {
  address = λ k. k + 1;
  serialize = λ k. k ∷ [];
  deserialize = λ bytes. elim bytes [ [] ↦ none | b ∷ bs ↦ some b ];
  verify_sig = λ k bytes sig. k == sig;
  default_address = 0;
  default_pub_key = 0;
  bad_body = 500;
  Disk = Disk;
  write = λ f b d. (put f (some b) d, ok tt);
  rename = λ f g d. (put g (d f) (put f none d), ok tt);
  read = λ f d. read_file (d f);
}

pub put_self : (f : File) (b : Option Bytes) (d : Disk) → put f b d f ≡ b
put_self f b d = ground (arith, file_beq_iff f f)

pub put_ne : (f g : File) (b : Option Bytes) (d : Disk) → g ≢ f → put f b d g ≡ d g
put_ne f g b d h = ground (arith, file_beq_iff g f)

pub rename_others : (f g h : File) (d : Disk) → h ≢ f → h ≢ g → put g (d f) (put f none d) h ≡ d h
rename_others f g h d a b = ground (arith, put_ne g h (d f) (put f none d), put_ne f h none d)

pub read_file-ok : (o : Option Bytes) (b : Bytes) → read_file o ≡ ok b → o ≡ some b
read_file-ok none b h = cc
read_file-ok (some a) b h = ground arith

pub read_file-missing : (o : Option Bytes) → read_file o ≡ err not_found → o ≡ none
read_file-missing none h = refl
read_file-missing (some a) h = cc

abbrev pub small_laws : DiskLaws small_book
small_laws = record {
  content = λ f d. d f;
  write_ok = λ f b d h. put_self f (some b) d;
  write_other = λ f g b d h. put_ne f g (some b) d h;
  rename_ok = λ f g d h. put_self g (d f) (put f none d);
  rename_other = λ f g h d done a b. rename_others f g h d a b;
  rename_kept = λ f g h d failed. absurd (failed refl);
  read_ok = λ f d b h. read_file-ok (d f) b h;
  read_missing = λ f d h. read_file-missing (d f) h;
}

abbrev pub no_files : Disk
no_files f = none
