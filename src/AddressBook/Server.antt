-- ===== src/AddressBook/Server.antt =====
-- The requests of address_book/src/lib.rs: each gives a status and a body.
use cape.Base.{ℕ, Option, none, some, Outcome, ok, err, panic, guard, ok_or, ◌>>=◌, ◌>>◌}
use cape.Cap.{Bytes}
use cape.AddressBook.Files.{UserAddress, UserPubKey, Signature, IoError, BookLib}
use cape.AddressBook.Store.{save, load}

pub record InsertPubKey : Type 0 where
  pub pub_key_bytes : Bytes
  pub sig : Signature

-- A status with a body, or the status of an error.
abbrev pub Response : Type 0
Response = Outcome ℕ (ℕ × Option Bytes)

module _ (lib : BookLib) where
  unfoldable pub verify_sig_and_get_pub_key : InsertPubKey → Outcome ℕ UserPubKey
  verify_sig_and_get_pub_key r = do
    pub_key ← ok_or (lib.deserialize r.pub_key_bytes) 400
    guard (lib.verify_sig pub_key r.pub_key_bytes r.sig) 400
    ok pub_key

  -- `?` on an error of the store answers 500.
  abbrev pub saved : lib.Disk × Outcome IoError (Unit {0}) → lib.Disk × Response
  saved (d, ok u) = (d, ok (200, none))
  saved (d, err e) = (d, err 500)
  saved (d, panic) = (d, panic)

  abbrev pub insert_verified : Outcome ℕ UserPubKey → ℕ → lib.Disk → lib.Disk × Response
  insert_verified (ok pub_key) rand_string d =
      saved (save lib (lib.address pub_key) pub_key rand_string d)
  insert_verified (err status) rand_string d = (d, err status)
  insert_verified panic rand_string d = (d, panic)

  -- `none` is a body that is no request.
  unfoldable pub insert_pubkey : Option InsertPubKey → ℕ → lib.Disk → lib.Disk × Response
  insert_pubkey none rand_string d = (d, err lib.bad_body)
  insert_pubkey (some r) rand_string d =
      insert_verified (verify_sig_and_get_pub_key r) rand_string d

  abbrev pub found : Outcome IoError (Option UserPubKey) → Response
  found (ok (some pub_key)) = ok (200, some (lib.serialize pub_key))
  found (ok none) = ok (404, none)
  found (err e) = ok (500, none)
  found panic = panic

  unfoldable pub request_pubkey : Option UserAddress → lib.Disk → Response
  request_pubkey none d = err lib.bad_body
  request_pubkey (some address) d = found (load lib address d)

  unfoldable pub healthcheck : ℕ → lib.Disk → lib.Disk × Response
  healthcheck rand_string d = saved (save lib lib.default_address lib.default_pub_key rand_string d)

-- What a client asks for; the random string of the temporary file goes with it.
pub data Request : Type 0 where
  insert_request : Option InsertPubKey → ℕ → Request
  pub_key_request : Option UserAddress → Request
  health_request : ℕ → Request

module _ (lib : BookLib) where
  unfoldable pub serve : Request → lib.Disk → lib.Disk × Response
  serve (insert_request r rand_string) d = insert_pubkey lib r rand_string d
  serve (pub_key_request address) d = (d, request_pubkey lib address d)
  serve (health_request rand_string) d = healthcheck lib rand_string d
