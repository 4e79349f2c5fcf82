-- ===== src/Faucet/Queue.antt =====
-- `FaucetQueue` of faucet/src/faucet.rs: loading it from the log, pushing, granting and failing.
use cape.Base.{
  reverse, ℕ, Bool, true, false, Option, none, some, List, [], ◌∷◌, ◌++◌, ◌==◌, nat_eq,
  if◌then◌else◌, leb, Outcome, ok, err, panic, length,
}
use cape.Base.Map.{Map, insert, contains_key}
use cape.Base.Fresh.{contains}
use cape.Faucet.Types.{
  UserPubKey, FaucetStatus, initializing, available, FaucetError, queue_full, already_in_queue,
  unavailable, address_not_found, Entry, AppendLog, FaucetQueue, Result,
}
use cape.Faucet.Index.{Index, insert_key, remove_key, grant_key}

-- The variables of the loop of `load`.
pub record Loading : Type 0 where
  pub index : Map UserPubKey (Option ℕ)
  pub processed : List UserPubKey
  pub queue : List UserPubKey

-- The first block: the most recent value of a key.
unfoldable pub note_value : Entry → Map UserPubKey (Option ℕ) → Map UserPubKey (Option ℕ)
note_value (key, val) m = if contains_key m key then m else insert key val m

-- The second block: the keys to send.
unfoldable pub note_request :
    Entry → List UserPubKey × List UserPubKey → List UserPubKey × List UserPubKey
note_request (key, none) (processed, queue) =
    if contains processed key then (processed, queue) else (key ∷ processed, queue)
note_request (key, some val) (processed, queue) =
    if contains processed key
    then (processed, queue)
    else (if val == 0 then (key ∷ processed, queue ++ (key ∷ [])) else (processed, queue))

unfoldable pub load_entry : Entry → Loading → Loading
load_entry e l =
    let r = note_request e (l.processed, l.queue) in
    record { index = note_value e l.index; processed = r.0; queue = r.1 }

unfoldable pub load_entries : List Entry → Loading → Loading
load_entries [] l = l
load_entries (e ∷ es) l = load_entries es (load_entry e l)

-- `filter_map(|(key, val)| val.map(|val| (key, val)))`
unfoldable pub present : Map UserPubKey (Option ℕ) → Map UserPubKey ℕ
present [] = []
present ((key, none) ∷ m) = present m
present ((key, some val) ∷ m) = (key, val) ∷ present m

module _ (log : AppendLog) where
  abbrev pub Queue : Type 0
  Queue = FaucetQueue log.Store

  unfoldable pub load : log.Store → Option ℕ → Queue
  load store max_len =
      let l =
        load_entries (reverse (log.iter store))
          (record { index = []; processed = []; queue = [] }) in
      record {
        channel = reverse l.queue;
        closed = false;
        index = record { index = present l.index; store = store };
        max_len = max_len;
      }

  abbrev pub is_full : Option ℕ → ℕ → Bool
  is_full none len = false
  is_full (some max_len) len = leb max_len len

  -- The limit, which is only read when it is there.
  abbrev limit : Option ℕ → ℕ
  limit none = 0
  limit (some max_len) = max_len

  -- A closed channel drops the message.
  unfoldable pub send : UserPubKey → Queue → Queue
  send key q = if q.closed then q else record q { channel = q.channel ++ (key ∷ []) }

  unfoldable pub insert_request :
      UserPubKey → Queue → Result (Index log) Bool → Result Queue (Unit {0})
  insert_request key q (i, ok true) = (send key (record q { index = i }), ok tt)
  insert_request key q (i, ok false) = (record q { index = i }, err (already_in_queue key))
  insert_request key q (i, err e) = (record q { index = i }, err e)
  insert_request key q (i, panic) = (record q { index = i }, panic)

  unfoldable pub push : UserPubKey → Queue → Result Queue (Unit {0})
  push key q =
      if is_full q.max_len (length q.index.index)
      then (q, err (queue_full (limit q.max_len)))
      else insert_request key q (insert_key log key q.index)

  unfoldable pub pop : Queue → Option (UserPubKey × Queue)
  pop q = elim q.channel [ [] ↦ none | key ∷ rest ↦ some (key, record q { channel = rest }) ]

  -- An error counts as no more grants.
  abbrev pub more_grants : Outcome FaucetError Bool → Outcome FaucetError Bool
  more_grants (ok more) = ok more
  more_grants (err e) = ok false
  more_grants panic = panic

  unfoldable pub grant : UserPubKey → ℕ → Queue → Result Queue Bool
  grant request max_grants q =
      let r = grant_key log request max_grants q.index in
      (record q { index = r.0 }, more_grants r.1)

  unfoldable pub fail : UserPubKey → Queue → Queue
  fail request q = send request q

  -- The dummy key is inserted and removed again.
  unfoldable pub healthcheck : UserPubKey → FaucetStatus → Queue → Result Queue FaucetStatus
  healthcheck default_user_pub_key stat q =
      let inserted = insert_key log default_user_pub_key q.index in
      elim inserted.1 [
        | ok fresh ↦
            let removed = remove_key log default_user_pub_key inserted.0 in
            elim removed.1 [
              | ok done ↦ (record q { index = removed.0 }, ok stat)
              | err e ↦ (record q { index = removed.0 }, err e)
              | panic ↦ (record q { index = removed.0 }, panic)
            ]
        | err e ↦ (record q { index = inserted.0 }, err e)
        | panic ↦ (record q { index = inserted.0 }, panic)
      ]

  -- `registered` is the answer of the address book.
  unfoldable pub request_fee_assets :
      FaucetStatus → Bool → UserPubKey → Queue → Result Queue (Unit {0})
  request_fee_assets initializing registered key q = (q, err unavailable)
  request_fee_assets available registered key q =
      if registered then push key q else (q, err address_not_found)

  -- How the wallet's transfer ends.
  pub data Transfer : Type 0 where
    transferred pubkey_not_found other_error : Transfer

  -- A round of the inner loop of `worker`: whether the worker goes on with the key.
  unfoldable pub serve_round : UserPubKey → ℕ → Transfer → Queue → Result Queue Bool
  serve_round key num_grants transferred q = grant key num_grants q
  serve_round key num_grants pubkey_not_found q =
      let r = remove_key log key q.index in
      (record q { index = r.0 }, elim r.1 [ ok done ↦ ok false | err e ↦ panic | panic ↦ panic ])
  serve_round key num_grants other_error q = (fail key q, ok false)
