-- ===== src/Api/Session.antt =====
-- The wallet of the server and the file of the last keystore, wallet/src/wallet-api/routes.rs, with
-- the loader of wallet/src/loader.rs and the paths of wallet/src/wallet-api/web.rs.
use cape.Base.{
  ℕ, Bool, true, false, Option, none, some, List, [], ◌∷◌, ◌++◌, ok, err, panic, unwrap, ok_or,
  ◌>>=◌, ◌==◌, nat_eq, map, if◌then◌else◌,
}
use cape.Cap.{Bytes}
use cape.Api.Values.{
  CapeApiError, wallet_failed, open_wallet, missing_wallet, other, Call, UrlSegmentValue, Encodings,
  as_string,
}

-- The parameters of a route.
pub data Param : Type 0 where
  path_param name_param mnemonic_param password_param : Param

abbrev pub Bindings : Type 0
Bindings = Param → Option UrlSegmentValue

-- A path is its components.
abbrev pub PathBuf : Type 0
PathBuf = List Bytes

pub record CapeLoader : Type 0 where
  pub mnemonic : Option Bytes
  pub password : Bytes
  pub dir : PathBuf
  -- whether it is a loader for recovery
  pub recovering : Bool
  pub contract : ℕ

-- What the system makes of the writing of a file: it cannot be created, or is emptied and then
-- `write_all` refuses, with the bytes that are left in the file, or ends well. A write that ends well
-- may stand in a cache only, which is written when the file is dropped, whose errors nobody sees: then
-- too some bytes are left.
pub data Write : Type 0 where
  not_created : Write
  refused : Bytes → Write
  cached : Bytes → Write
  whole : Write

-- What a write that ends well leaves in the file.
abbrev pub left_by : Write → Bytes → Bytes
left_by (cached bytes) all = bytes
left_by _ all = all

-- What is called of seahorse, of bincode and of the file system; `none` is an error.
pub record ApiLib : Type 1 where
  pub encodings : Encodings
  pub World : Type 0
  pub Backend : Type 0
  pub Wallet : Type 0
  -- the storage of the options, `PathBuf::from`, and paths in bytes
  pub storage : PathBuf
  pub path_of_string : Bytes → PathBuf
  -- bincode; `none` is the panic on a path that is not UTF-8
  pub serialize : PathBuf → Option Bytes
  pub deserialize : Bytes → Option PathBuf
  pub latest_contract : World → Option ℕ
  -- `backend::new`, `storage().exists()`, `Wallet::new`
  pub new_backend : CapeLoader → World → World × Option Backend
  pub exists : Backend → Bool
  pub new_wallet : Backend → World → World × Option Wallet
  -- the library of verified assets
  pub assets_is_file : World → Bool
  pub verify_cape_assets : Wallet → World → World × Option Wallet
  -- the path that a backend and a wallet were made with
  pub backend_path : Backend → PathBuf
  pub wallet_path : Wallet → PathBuf

-- `exists() != existing`
abbrev pub differs : Bool → Bool → Bool
differs true b = if b then false else true
differs false b = b

-- `replace('-', " ")`
abbrev pub spaced : Bytes → Bytes
spaced = map (λ b. if b == 45 then 32 else b)

module _ (lib : ApiLib) where
  pub record Session : Type 0 where
    pub last_used : Option Bytes
    pub world : lib.World
    pub wallet : Option lib.Wallet

  -- A step after one that may have changed the session.
  abbrev pub and_then :
      {A B : Type 0} → Session × Call A → (A → Session → Session × Call B) → Session × Call B
  and_then (s, ok a) next = next a s
  and_then (s, err e) next = (s, err e)
  and_then (s, panic) next = (s, panic)

  -- A step that changes nothing.
  abbrev pub reading :
      {A B : Type 0} → Session → Call A → (A → Session → Session × Call B) → Session × Call B
  reading s call next = and_then (s, call) next

  -- A call of seahorse, with `map_err(wallet_error)`.
  abbrev pub calling : {A : Type 0} → Session → lib.World × Option A → Session × Call A
  calling s (w, answer) = (record s { world = w }, ok_or answer wallet_failed)

  -- "keystores", and "KEYSTORE" for the tag
  unfoldable pub keystore_path : Bytes → PathBuf
  keystore_path name =
      lib.storage
      ++ ((107 ∷ 101 ∷ 121 ∷ 115 ∷ 116 ∷ 111 ∷ 114 ∷ 101 ∷ 115 ∷ [])
          ∷ lib.encodings.to_tagged_string
              (record { tag = 75 ∷ 69 ∷ 89 ∷ 83 ∷ 84 ∷ 79 ∷ 82 ∷ 69 ∷ []; value = name })
          ∷ [])

  -- `write_all` of these bytes.
  abbrev pub write_bytes : Write → Bytes → Session → Session × Call (Unit {0})
  write_bytes not_created bytes s = (s, err other)
  write_bytes (refused left) bytes s = (record s { last_used = some left }, err other)
  write_bytes (cached left) bytes s = (record s { last_used = some left }, ok tt)
  write_bytes whole bytes s = (record s { last_used = some bytes }, ok tt)

  -- The file is created, and emptied, before the path is encoded.
  abbrev pub encode_and_write : Write → Option Bytes → Session → Session × Call (Unit {0})
  encode_and_write not_created encoded s = (s, err other)
  encode_and_write write none s = (record s { last_used = some [] }, panic)
  encode_and_write write (some bytes) s = write_bytes write bytes s

  unfoldable pub write_path : Write → PathBuf → Session → Session × Call (Unit {0})
  write_path write path s = encode_and_write write (lib.serialize path) s

  abbrev decoded : Option Bytes → Call (Option PathBuf)
  decoded none = ok none
  decoded (some bytes) = ok_or (lib.deserialize bytes) other >>= λ path. ok (some path)

  -- A file that is there may still not be readable.
  unfoldable pub read_last_path : Bool → Session → Call (Option PathBuf)
  read_last_path readable s = if readable then decoded s.last_used else err other

  -- A verified asset library is loaded if there is one.
  unfoldable pub load_assets : lib.Wallet → Session → Session × Call lib.Wallet
  load_assets wallet s =
      if lib.assets_is_file s.world
      then calling s (lib.verify_cape_assets wallet s.world)
      else (s, ok wallet)

  unfoldable pub open_backend : Bool → lib.Backend → Session → Session × Call lib.Wallet
  open_backend existing backend s =
      if differs (lib.exists backend) existing
      then (s, err open_wallet)
      else and_then (calling s (lib.new_wallet backend s.world)) load_assets

  unfoldable pub init_wallet : Write → CapeLoader → Bool → Session → Session × Call lib.Wallet
  init_wallet write loader existing s =
      and_then (write_path write loader.dir s)
        (λ u s. and_then (calling s (lib.new_backend loader s.world)) (open_backend existing))

  -- "default" is the name of a keystore without one.
  unfoldable pub keystore : Bindings → Call PathBuf
  keystore bindings = elim (bindings path_param) [
    | some value ↦ as_string lib.encodings value >>= λ path. ok (lib.path_of_string path)
    | none ↦ elim (bindings name_param) [
      | some name ↦ as_string lib.encodings name >>= λ name. ok (keystore_path name)
      | none ↦ ok (keystore_path (100 ∷ 101 ∷ 102 ∷ 97 ∷ 117 ∷ 108 ∷ 116 ∷ []))
    ]
  ]

  -- `bindings[...]` of a parameter that is read as a string
  abbrev pub string_param : Bindings → Param → Call Bytes
  string_param bindings p = unwrap {E = CapeApiError} (bindings p) >>= as_string lib.encodings

  unfoldable pub literal_loader : Bindings → Session → Call CapeLoader
  literal_loader bindings s = do
    path ← keystore bindings
    mnemonic ← string_param bindings mnemonic_param
    password ← string_param bindings password_param
    contract ← ok_or (lib.latest_contract s.world) other
    ok (record {
      mnemonic = some (spaced mnemonic);
      password = password;
      dir = path;
      recovering = false;
      contract = contract;
    })

  unfoldable pub password_loader : Bindings → Session → Call CapeLoader
  password_loader bindings s = do
    path ← keystore bindings
    password ← string_param bindings password_param
    contract ← ok_or (lib.latest_contract s.world) other
    ok (record {
      mnemonic = none;
      password = password;
      dir = path;
      recovering = false;
      contract = contract;
    })

  unfoldable pub recovery_loader : Bindings → Session → Call CapeLoader
  recovery_loader bindings s = do
    path ← keystore bindings
    mnemonic ← string_param bindings mnemonic_param
    password ← string_param bindings password_param
    contract ← ok_or (lib.latest_contract s.world) other
    ok (record {
      mnemonic = some (spaced mnemonic);
      password = password;
      dir = path;
      recovering = true;
      contract = contract;
    })

  -- The open wallet is closed first; the new one is there if it could be opened.
  unfoldable pub replace_wallet : Write → CapeLoader → Bool → Session → Session × Call (Unit {0})
  replace_wallet write loader existing s =
      and_then (init_wallet write loader existing (record s { wallet = none }))
        (λ wallet s. (record s { wallet = some wallet }, ok tt))

  unfoldable pub newwallet : Bindings → Write → Session → Session × Call (Unit {0})
  newwallet bindings write s =
      reading s (literal_loader bindings s) (λ loader. replace_wallet write loader false)

  unfoldable pub openwallet : Bindings → Write → Session → Session × Call (Unit {0})
  openwallet bindings write s =
      reading s (password_loader bindings s) (λ loader. replace_wallet write loader true)

  unfoldable pub resetpassword : Bindings → Write → Session → Session × Call (Unit {0})
  resetpassword bindings write s =
      reading s (recovery_loader bindings s) (λ loader. replace_wallet write loader true)

  unfoldable pub require_wallet : Session → Call lib.Wallet
  require_wallet s = ok_or s.wallet missing_wallet

  unfoldable pub closewallet : Session → Session × Call (Unit {0})
  closewallet s = reading s (require_wallet s) (λ w s. (record s { wallet = none }, ok tt))

  -- The requests that change the session; one that opens a wallet comes with the answer of the disk.
  pub data Request : Type 0 where
    new_request : Bindings → Write → Request
    open_request : Bindings → Write → Request
    reset_request : Bindings → Write → Request
    close_request : Request

  unfoldable pub serve : Request → Session → Session × Call (Unit {0})
  serve (new_request b w) = newwallet b w
  serve (open_request b w) = openwallet b w
  serve (reset_request b w) = resetpassword b w
  serve close_request = closewallet

  unfoldable pub serve_all : List Request → Session → Session
  serve_all [] s = s
  serve_all (r ∷ rs) s = serve_all rs (serve r s).0
