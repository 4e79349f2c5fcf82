-- ===== src/AddressBook/Tests.antt =====
-- The theorems on address_book/src/lib.rs at a few requests.
use cape.Base.{◌≡◌, refl, none, some, List, [], ◌∷◌, ok, err, nat_eq}
use cape.AddressBook.Store.{save, path, tmp_path, load}
use cape.AddressBook.Server.{
  healthcheck, InsertPubKey, Request, insert_request, pub_key_request, health_request,
  insert_pubkey, request_pubkey, serve, verify_sig_and_get_pub_key,
}
use cape.AddressBook.Samples.{small_book, small_laws, no_files}
use cape.AddressBook.Refines.{entries, serve_all, promises, serve_all-promises}

abbrev key_request : InsertPubKey
key_request = record { pub_key_bytes = 7 ∷ []; sig = 7 }

-- A key is inserted, one is forged, and the first is looked up.
abbrev requests : List Request
requests =
    insert_request (some key_request) 11
    ∷ insert_request (some (record { pub_key_bytes = 9 ∷ []; sig = 7 })) 12
    ∷ pub_key_request (some 8)
    ∷ health_request 13
    ∷ []

serve_all-promises_example :
    let r = serve_all small_book requests no_files in
    entries small_book small_laws r.0 8
    ≡ promises small_book requests r.1 (entries small_book small_laws no_files) 8
serve_all-promises_example = serve_all-promises small_book small_laws requests no_files 8

answers :
    (serve_all small_book requests no_files).1
    ≡ ok (200, none) ∷ err 400 ∷ ok (200, some (7 ∷ [])) ∷ ok (200, none) ∷ []
unfolding serve insert_pubkey verify_sig_and_get_pub_key save tmp_path path request_pubkey load
    healthcheck
answers = refl
