-- ===== src/Faucet/Load.antt =====
-- Loading the queue of faucet/src/faucet.rs from its log gives what the log says.
use cape.Base.{
  reverse, ℕ, zero, suc, ◌≡◌, ◌∙◌, sym, refl, ap, true, not, Bool-cases, inl, inr, Option, none,
  some, List, [], ◌∷◌, ◌++◌, append_assoc, append-nil, ◌==◌, nat_eq, nat_beq_iff, if◌then◌else◌,
  filter, arith,
}
use cape.Base.Map.{Map, lookup, insert, erase, contains_key, lookup-insert, lookup-erase}
use cape.Base.Fresh.{contains}
use cape.Faucet.Types.{UserPubKey, Entry, AppendLog}
use cape.Faucet.Queue.{Loading, note_value, note_request, load_entry, load_entries, present, load}

-- The log read forwards: the grants of the keys in the queue, and the queue in order.
abbrev pub replay_entry : Map UserPubKey ℕ → Entry → Map UserPubKey ℕ
replay_entry m (key, none) = erase key m
replay_entry m (key, some val) = insert key val m

abbrev pub replay : Map UserPubKey ℕ → List Entry → Map UserPubKey ℕ
replay m [] = m
replay m (e ∷ es) = replay (replay_entry m e) es

-- All but the key.
abbrev pub without : UserPubKey → List UserPubKey → List UserPubKey
without key ks = filter (λ k. not (k == key)) ks

abbrev pub requeue_entry : List UserPubKey → Entry → List UserPubKey
requeue_entry ks (key, none) = without key ks
requeue_entry ks (key, some val) = if val == 0 then without key ks ++ (key ∷ []) else ks

abbrev pub requeue : List UserPubKey → List Entry → List UserPubKey
requeue ks [] = ks
requeue ks (e ∷ es) = requeue (requeue_entry ks e) es

-- From an older state on, newest first.
abbrev older_index : Map UserPubKey ℕ → List Entry → Map UserPubKey ℕ
older_index m [] = m
older_index m (e ∷ es) = replay_entry (older_index m es) e

older_index-append :
    (m : Map UserPubKey ℕ) (xs : List Entry) (e : Entry)
    → older_index m (xs ++ (e ∷ [])) ≡ older_index (replay_entry m e) xs
older_index-append m [] e = refl
older_index-append m (x ∷ xs) e = ap (λ n. replay_entry n x) (older_index-append m xs e)

older_index-reverse :
    (m : Map UserPubKey ℕ) (es : List Entry) → older_index m (reverse es) ≡ replay m es
older_index-reverse m [] = refl
older_index-reverse m (e ∷ es) =
    older_index-append m (reverse es) e ∙ older_index-reverse (replay_entry m e) es

abbrev older_queue : List UserPubKey → List Entry → List UserPubKey
older_queue ks [] = ks
older_queue ks (e ∷ es) = requeue_entry (older_queue ks es) e

older_queue-append :
    (ks : List UserPubKey) (xs : List Entry) (e : Entry)
    → older_queue ks (xs ++ (e ∷ [])) ≡ older_queue (requeue_entry ks e) xs
older_queue-append ks [] e = refl
older_queue-append ks (x ∷ xs) e = ap (λ n. requeue_entry n x) (older_queue-append ks xs e)

older_queue-reverse :
    (ks : List UserPubKey) (es : List Entry) → older_queue ks (reverse es) ≡ requeue ks es
older_queue-reverse ks [] = refl
older_queue-reverse ks (e ∷ es) =
    older_queue-append ks (reverse es) e ∙ older_queue-reverse (requeue_entry ks e) es

lookup-present-insert :
    (k key : UserPubKey) (val : Option ℕ) (m : Map UserPubKey (Option ℕ))
    → lookup key m ≡ none
    → lookup k (present (insert key val m)) ≡ (if k == key then val else lookup k (present m))
unfolding present
lookup-present-insert k key none [] h = ground arith
lookup-present-insert k key (some val) [] h = ground arith
lookup-present-insert k key val ((j, none) ∷ m) h =
    ground (arith, lookup-present-insert k key val m, nat_beq_iff key j)
lookup-present-insert k key val ((j, some w) ∷ m) h = ground (
  arith,
  lookup-present-insert k key val m,
  nat_beq_iff key j,
  nat_beq_iff k j,
  nat_beq_iff k key,
)

lookup-present-none :
    (k : UserPubKey) (m : Map UserPubKey (Option ℕ))
    → lookup k m ≡ none
    → lookup k (present m) ≡ none
unfolding present
lookup-present-none k [] h = refl
lookup-present-none k ((j, none) ∷ m) h = ground (arith, lookup-present-none k m)
lookup-present-none k ((j, some w) ∷ m) h = ground (arith, lookup-present-none k m)

-- A step keeps the keys that were there, and brings in the newest value of its own.
note_value_lem :
    (k : UserPubKey) (e : Entry) (m : Map UserPubKey (Option ℕ)) (older : Map UserPubKey ℕ)
    → (if contains_key (note_value e m) k
        then lookup k (present (note_value e m))
        else lookup k older)
      ≡ (if contains_key m k then lookup k (present m) else lookup k (replay_entry older e))
unfolding note_value
note_value_lem k (key, none) m older = ground (
  arith,
  lookup-present-insert k key none m,
  lookup-insert k key none m,
  lookup-erase k key older,
  nat_beq_iff k key,
)
note_value_lem k (key, some val) m older = ground (
  arith,
  lookup-present-insert k key (some val) m,
  lookup-insert k key (some val) m,
  lookup-insert k key val older,
  nat_beq_iff k key,
)

load_entries-index :
    (k : UserPubKey) (es : List Entry) (l : Loading)
    → lookup k (present (load_entries es l).index) ≡ (
        if contains_key l.index k then lookup k (present l.index) else lookup k (older_index [] es))
unfolding load_entries load_entry
load_entries-index k [] l = ground (arith, lookup-present-none k l.index)
load_entries-index k (e ∷ es) l =
    load_entries-index k es (load_entry e l) ∙ note_value_lem k e l.index (older_index [] es)

reverse-append : {A : Type 0} (xs ys : List A) → reverse (xs ++ ys) ≡ reverse ys ++ reverse xs
reverse-append [] ys = sym (append-nil (reverse ys))
reverse-append (x ∷ xs) ys =
    ap (λ zs. zs ++ (x ∷ [])) (reverse-append xs ys)
    ∙ append_assoc (reverse ys) (reverse xs) (x ∷ [])

-- The keys that are not processed.
abbrev unprocessed : List UserPubKey → List UserPubKey → List UserPubKey
unprocessed done ks = filter (λ k. not (contains done k)) ks

unprocessed-append :
    (done xs ys : List UserPubKey)
    → unprocessed done (xs ++ ys) ≡ unprocessed done xs ++ unprocessed done ys
unprocessed-append done [] ys = refl
unprocessed-append done (x ∷ xs) ys = ground (arith, unprocessed-append done xs ys)

unprocessed-more :
    (key : UserPubKey) (done ks : List UserPubKey)
    → unprocessed (key ∷ done) ks ≡ unprocessed done (without key ks)
unprocessed-more key done [] = refl
unprocessed-more key done (k ∷ ks) =
    ground (arith, unprocessed-more key done ks, nat_beq_iff k key, nat_beq_iff key k)

unprocessed-known :
    (key : UserPubKey) (done ks : List UserPubKey)
    → contains done key ≡ true
    → unprocessed done (without key ks) ≡ unprocessed done ks
unprocessed-known key done [] h = refl
unprocessed-known key done (k ∷ ks) h =
    ground (arith, unprocessed-known key done ks, nat_beq_iff k key)

unprocessed_nil : (ks : List UserPubKey) → unprocessed [] ks ≡ ks
unprocessed_nil [] = refl
unprocessed_nil (k ∷ ks) = ground (arith, unprocessed_nil ks)

note_request_lem :
    (e : Entry) (done queue older : List UserPubKey)
    → let r = note_request e (done, queue) in
      unprocessed r.0 older ++ reverse r.1
      ≡ unprocessed done (requeue_entry older e) ++ reverse queue
unfolding note_request
note_request_lem (key, none) done queue older =
    ground (arith, unprocessed-more key done older, unprocessed-known key done older)
note_request_lem (key, some zero) done queue older = elim (Bool-cases (contains done key)) [
  | inl known ↦ ground (
    arith,
    unprocessed-append done (without key older) (key ∷ []),
    unprocessed-known key done older,
    append-nil (unprocessed done older),
  )
  | inr new ↦ ground (
    arith,
    unprocessed-append done (without key older) (key ∷ []),
    unprocessed-more key done older,
    reverse-append queue (key ∷ []),
    append_assoc (unprocessed done (without key older)) (key ∷ []) (reverse queue),
  )
]
note_request_lem (key, some (suc val)) done queue older = ground arith

load_entries-queue :
    (es : List Entry) (l : Loading)
    → reverse (load_entries es l).queue
      ≡ unprocessed l.processed (older_queue [] es) ++ reverse l.queue
unfolding load_entries load_entry
load_entries-queue [] l = refl
load_entries-queue (e ∷ es) l =
    load_entries-queue es (load_entry e l)
    ∙ note_request_lem e l.processed l.queue (older_queue [] es)

module _ (log : AppendLog) where
  -- Loading gives every key the grants that reading the log forwards gives it, and none to a key
  -- that the log has deleted; and the channel holds the keys in the order of their requests, as
  -- reading the log forwards queues them.
  pub load-replay :
      (store : log.Store) (max_len : Option ℕ)
      → let q = load log store max_len in
        ((key : UserPubKey) → lookup key q.index.index ≡ lookup key (replay [] (log.iter store)))
        × (q.channel ≡ requeue [] (log.iter store))
  unfolding load
  load-replay store max_len =
      let start : Loading = record { index = []; processed = []; queue = [] } in
      (
        λ key.
            load_entries-index key (reverse (log.iter store)) start
            ∙ ap (lookup key) (older_index-reverse [] (log.iter store)),
        load_entries-queue (reverse (log.iter store)) start
            ∙ (append-nil _ ∙ (unprocessed_nil _ ∙ older_queue-reverse [] (log.iter store))),
      )
