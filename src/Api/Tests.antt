-- ===== src/Api/Tests.antt =====
-- A small server of wallets, for wallet/src/wallet-api/routes.rs.
use cape.Base.{
  arith, zero, suc, ap, sym, ◌≡◌, refl, Bool, true, false, Option, none, some, List, [], ◌∷◌,
  nat_eq, ok,
}
use cape.Cap.{Bytes}
use cape.Api.Values.{
  Encodings, UrlSegmentValue, literal, integer, from_str_radix, digits_from, parse_bool, parse,
  hexadecimal, as_string,
}
use cape.Api
use cape.Api.Session.{
  refused, cached, whole, ApiLib, path_param, name_param, mnemonic_param, password_param, PathBuf,
  Bindings, Session, read_last_path, keystore, keystore_path, load_assets, open_backend,
  literal_loader, password_loader, recovery_loader, newwallet, openwallet, resetpassword,
  init_wallet, Request, new_request, open_request, close_request, serve, serve_all, replace_wallet,
  write_path, closewallet, require_wallet,
}
use cape.Api.Attempts.{ApiLaws}
use cape.Api.Keystores.{Opens, open-Opens}
use cape.Api.LastPath.{serve_all-read_last_path}

abbrev encodings : Encodings
encodings = record {
  parse_tagged = λ s. none;
  to_tagged_string = λ t. t.value;
  decode_base64 = λ s. some s;
  is_utf8 = λ s. true;
}

-- A path in bytes: a zero before each component, whose bytes are moved up by one.
abbrev raised : Bytes → Bytes → Bytes
raised [] more = more
raised (b ∷ bytes) more = suc b ∷ raised bytes more

abbrev joined : PathBuf → Bytes
joined [] = []
joined (c ∷ cs) = 0 ∷ raised c (joined cs)

abbrev cut : Bytes → Bytes × PathBuf
cut [] = ([], [])
cut (zero ∷ bytes) = let rest = cut bytes in ([], rest.0 ∷ rest.1)
cut (suc b ∷ bytes) = let rest = cut bytes in (b ∷ rest.0, rest.1)

cut-raised :
    (c bytes : Bytes) (cs : PathBuf) → cut bytes ≡ ([], cs) → cut (raised c bytes) ≡ (c, cs)
cut-raised [] bytes cs h = h
cut-raised (b ∷ c) bytes cs h = rw (cut-raised c bytes cs h) refl

cut-joined : (path : PathBuf) → cut (joined path) ≡ ([], path)
cut-joined [] = refl
cut-joined (c ∷ cs) = rw (cut-raised c (joined cs) cs (cut-joined cs)) refl

-- The world is whether a storage is there; a wallet is its path.
abbrev small_lib : ApiLib
small_lib = record {
  encodings = encodings;
  World = Bool;
  Backend = PathBuf × Bool;
  Wallet = PathBuf;
  storage = (1 ∷ []) ∷ [];
  path_of_string = λ s. s ∷ [];
  serialize = λ path. some (joined path);
  deserialize = λ bytes. some (cut bytes).1;
  latest_contract = λ w. some 9;
  new_backend = λ loader w. (w, some (loader.dir, w));
  exists = λ b. b.1;
  new_wallet = λ b w. (true, some b.0);
  assets_is_file = λ w. false;
  verify_cape_assets = λ a w. (w, some a);
  backend_path = λ b. b.0;
  wallet_path = λ a. a;
}

answer_of : {A B : Type 0} (w v : A) (x y : B) → Path (A × Option B) (w, some x) (v, some y) → x ≡ y
answer_of w v x y h = cc

read_back_of :
    (path : PathBuf) (bytes : Bytes)
    → some (joined path) ≡ some bytes
    → some (cut bytes).1 ≡ some path
read_back_of path bytes h =
    let same : bytes ≡ joined path = ground arith in rw (same, cut-joined path) refl

small_laws : ApiLaws small_lib
small_laws = record {
  read_back = read_back_of;
  made_backend = λ loader w v b h. sym (ap (λ b. b.0) (answer_of w v (loader.dir, w) b h));
  made_wallet = λ b w v a h. sym (answer_of true v b.0 a h);
  verified = λ a w v c h. sym (answer_of w v a c h);
}

abbrev bindings : Bindings
bindings path_param = none
bindings name_param = some (literal (97 ∷ []))
bindings mnemonic_param = some (literal (98 ∷ 45 ∷ 99 ∷ []))
bindings password_param = some (literal (112 ∷ []))

abbrev start : Session small_lib
start = record { last_used = none; world = false; wallet = none }

-- A keystore is made, closed, tried to be made again, and opened.
abbrev requests : List (Request small_lib)
requests =
    new_request bindings whole
    ∷ close_request
    ∷ new_request bindings (refused (7 ∷ []))
    ∷ open_request bindings whole
    ∷ []

abbrev opened_path : PathBuf
opened_path = (1 ∷ []) ∷ (107 ∷ 101 ∷ 121 ∷ 115 ∷ 116 ∷ 111 ∷ 114 ∷ 101 ∷ 115 ∷ []) ∷ (97 ∷ []) ∷ []

serve_all-read_last_path_example :
    read_last_path small_lib true (serve_all small_lib requests start) ≡ ok (some opened_path)
unfolding serve_all serve openwallet password_loader keystore as_string replace_wallet init_wallet
    write_path open_backend newwallet literal_loader closewallet require_wallet load_assets
    keystore_path
serve_all-read_last_path_example =
    serve_all-read_last_path small_lib small_laws requests start opened_path
      (tt, (tt, (tt, (tt, tt)))) refl refl

open-Opens_example :
    Opens small_lib false whole
      (literal_loader small_lib bindings start)
      start
      (newwallet small_lib bindings whole start)
    × Opens small_lib true whole
        (password_loader small_lib bindings start)
        start
        (openwallet small_lib bindings whole start)
    × Opens small_lib true whole
        (recovery_loader small_lib bindings start)
        start
        (resetpassword small_lib bindings whole start)
open-Opens_example = open-Opens small_lib small_laws bindings whole start

-- The cache was not written: the wallet is open, and the file holds no path of it.
abbrev over_cut_file : Session small_lib
over_cut_file = serve_all small_lib (new_request bindings (cached []) ∷ []) start

cut_off : (over_cut_file.wallet ≡ some opened_path) × (over_cut_file.last_used ≡ some [])
unfolding serve_all serve replace_wallet init_wallet write_path open_backend newwallet
    literal_loader load_assets keystore keystore_path as_string
cut_off = (refl, refl)

-- "255", "+1f" and "true" as values.
values :
    (from_str_radix 10 (50 ∷ 53 ∷ 53 ∷ []) ≡ some 255)
    × (parse encodings Api.Values.UrlSegmentType.hexadecimal_type (43 ∷ 49 ∷ 102 ∷ [])
        ≡ some (hexadecimal 31))
    × (parse_bool (116 ∷ 114 ∷ 117 ∷ 101 ∷ []) ≡ some true)
unfolding from_str_radix digits_from parse parse_bool
values = (refl, refl, refl)
