-- ===== src/Blocks/Order.antt =====
-- The order in which `into_cape_transactions` of contracts/rust/src/cape/mod.rs gives back what
-- `from_cape_transactions` was given.
use cape.Base.{
  reverse, ◌≡◌, refl, ap, true, false, List, [], ◌∷◌, map, ok, arith, length, length-append,
  >>=-eq-ok, ◌==◌, nat_eq, guard,
}
use cape.Cap.{CapLib, TransferNote, MintNote, FreezeNote, TransactionNote}
use cape.Model.Types.{CapeModelTxn, cap_txn, burn}
use cape.Blocks.{
  UserAddress, NoteType, transfer_type, mint_type, freeze_type, burn_type, BurnNote, CapeBlock,
  is_burn_note, Sorted, sort_note, sort_notes, notes_of, next_txn, next_txns,
  into_cape_transactions, burn_note, unwrap_note, burn_notes_of, generate, from_cape_transactions,
  mismatched_openings,
}

abbrev pub type_of : CapeModelTxn → NoteType
type_of (cap_txn (TransactionNote.transfer n)) = transfer_type
type_of (cap_txn (TransactionNote.mint n)) = mint_type
type_of (cap_txn (TransactionNote.freeze n)) = freeze_type
type_of (burn xfr ro) = burn_type

-- The notes of one type, in the order of the transactions.
abbrev pub transfers_in : List CapeModelTxn → List TransferNote
transfers_in [] = []
transfers_in (cap_txn (TransactionNote.transfer n) ∷ ts) = n ∷ transfers_in ts
transfers_in (cap_txn (TransactionNote.mint n) ∷ ts) = transfers_in ts
transfers_in (cap_txn (TransactionNote.freeze n) ∷ ts) = transfers_in ts
transfers_in (burn xfr ro ∷ ts) = transfers_in ts

abbrev pub mints_in : List CapeModelTxn → List MintNote
mints_in [] = []
mints_in (cap_txn (TransactionNote.transfer n) ∷ ts) = mints_in ts
mints_in (cap_txn (TransactionNote.mint n) ∷ ts) = n ∷ mints_in ts
mints_in (cap_txn (TransactionNote.freeze n) ∷ ts) = mints_in ts
mints_in (burn xfr ro ∷ ts) = mints_in ts

abbrev pub freezes_in : List CapeModelTxn → List FreezeNote
freezes_in [] = []
freezes_in (cap_txn (TransactionNote.transfer n) ∷ ts) = freezes_in ts
freezes_in (cap_txn (TransactionNote.mint n) ∷ ts) = freezes_in ts
freezes_in (cap_txn (TransactionNote.freeze n) ∷ ts) = n ∷ freezes_in ts
freezes_in (burn xfr ro ∷ ts) = freezes_in ts

abbrev pub burns_in : List CapeModelTxn → List BurnNote
burns_in [] = []
burns_in (cap_txn note ∷ ts) = burns_in ts
burns_in (burn xfr ro ∷ ts) = record { transfer_note = xfr; burned_ro = ro } ∷ burns_in ts

-- The burns are what the note says they are, and no other transfer is one.
abbrev pub Proper : List CapeModelTxn → Type 0
Proper [] = Unit
Proper (cap_txn (TransactionNote.transfer n) ∷ ts) = (is_burn_note n ≡ false) × Proper ts
Proper (cap_txn (TransactionNote.mint n) ∷ ts) = Proper ts
Proper (cap_txn (TransactionNote.freeze n) ∷ ts) = Proper ts
Proper (burn xfr ro ∷ ts) = (is_burn_note xfr ≡ true) × Proper ts

sort_notes_lem :
    (txns : List CapeModelTxn)
    → Proper txns
    → let s = sort_notes (notes_of txns).0 in
      (s.types ≡ map type_of txns)
      × (s.transfers ≡ transfers_in txns)
      × (s.mints ≡ mints_in txns)
      × (s.freezes ≡ freezes_in txns)
      × (s.burns ≡ map (λ (b : BurnNote). b.transfer_note) (burns_in txns))
      × ((notes_of txns).1 ≡ map (λ (b : BurnNote). b.burned_ro) (burns_in txns))
unfolding sort_notes sort_note notes_of
sort_notes_lem [] h = (refl, refl, refl, refl, refl, refl)
sort_notes_lem (cap_txn (TransactionNote.transfer n) ∷ ts) h = ground (arith, sort_notes_lem ts)
sort_notes_lem (cap_txn (TransactionNote.mint n) ∷ ts) h = ground (arith, sort_notes_lem ts)
sort_notes_lem (cap_txn (TransactionNote.freeze n) ∷ ts) h = ground (arith, sort_notes_lem ts)
sort_notes_lem (burn xfr ro ∷ ts) h = ground (arith, sort_notes_lem ts)

-- With as many notes of each type as there are types, each is given back once, in its order.
next_txns_lem :
    (txns : List CapeModelTxn) (xs : List TransferNote) (ms : List MintNote) (fs : List FreezeNote)
    (bs : List BurnNote)
    → length xs ≡ length (transfers_in txns)
    → length ms ≡ length (mints_in txns)
    → length fs ≡ length (freezes_in txns)
    → length bs ≡ length (burns_in txns)
    → (ts : List CapeModelTxn) × (next_txns
          (map type_of txns)
          (record { transfers = xs; mints = ms; freezes = fs; burns = bs })
        ≡ ok ts)
      × (map type_of ts ≡ map type_of txns)
      × (transfers_in ts ≡ xs)
      × (mints_in ts ≡ ms)
      × (freezes_in ts ≡ fs)
      × (burns_in ts ≡ bs)
unfolding next_txns next_txn
next_txns_lem [] [] [] [] [] hx hm hf hb = ([], refl, refl, refl, refl, refl, refl)
next_txns_lem [] (x ∷ xs) ms fs bs hx hm hf hb = absurd (omega arith)
next_txns_lem [] [] (m ∷ ms) fs bs hx hm hf hb = absurd (omega arith)
next_txns_lem [] [] [] (f ∷ fs) bs hx hm hf hb = absurd (omega arith)
next_txns_lem [] [] [] [] (b ∷ bs) hx hm hf hb = absurd (omega arith)
next_txns_lem (cap_txn (TransactionNote.transfer n) ∷ txns) [] ms fs bs hx hm hf hb =
    absurd (omega arith)
next_txns_lem (cap_txn (TransactionNote.transfer n) ∷ txns) (x ∷ xs) ms fs bs hx hm hf hb =
    let (ts, e, same, ex, em, ef, eb) = next_txns_lem txns xs ms fs bs (omega arith) hm hf hb in
    (
      cap_txn (TransactionNote.transfer x) ∷ ts,
      rw e refl,
      ap (◌∷◌ transfer_type) same,
      ap (◌∷◌ x) ex,
      em,
      ef,
      eb,
    )
next_txns_lem (cap_txn (TransactionNote.mint n) ∷ txns) xs [] fs bs hx hm hf hb =
    absurd (omega arith)
next_txns_lem (cap_txn (TransactionNote.mint n) ∷ txns) xs (m ∷ ms) fs bs hx hm hf hb =
    let (ts, e, same, ex, em, ef, eb) = next_txns_lem txns xs ms fs bs hx (omega arith) hf hb in
    (
      cap_txn (TransactionNote.mint m) ∷ ts,
      rw e refl,
      ap (◌∷◌ mint_type) same,
      ex,
      ap (◌∷◌ m) em,
      ef,
      eb,
    )
next_txns_lem (cap_txn (TransactionNote.freeze n) ∷ txns) xs ms [] bs hx hm hf hb =
    absurd (omega arith)
next_txns_lem (cap_txn (TransactionNote.freeze n) ∷ txns) xs ms (f ∷ fs) bs hx hm hf hb =
    let (ts, e, same, ex, em, ef, eb) = next_txns_lem txns xs ms fs bs hx hm (omega arith) hb in
    (
      cap_txn (TransactionNote.freeze f) ∷ ts,
      rw e refl,
      ap (◌∷◌ freeze_type) same,
      ex,
      em,
      ap (◌∷◌ f) ef,
      eb,
    )
next_txns_lem (burn xfr ro ∷ txns) xs ms fs [] hx hm hf hb = absurd (omega arith)
next_txns_lem (burn xfr ro ∷ txns) xs ms fs (b ∷ bs) hx hm hf hb =
    let (ts, e, same, ex, em, ef, eb) = next_txns_lem txns xs ms fs bs hx hm hf (omega arith) in
    (
      burn b.transfer_note b.burned_ro ∷ ts,
      rw e refl,
      ap (◌∷◌ burn_type) same,
      ex,
      em,
      ef,
      ap (◌∷◌ b) eb,
    )

length-reverse : {A : Type 0} (xs : List A) → length (reverse xs) ≡ length xs
length-reverse [] = refl
length-reverse (x ∷ xs) = omega (arith, length-append (reverse xs) (x ∷ []), length-reverse xs)

module _ (lib : CapLib) where
  burn_notes_of_lem :
      (bs cs : List BurnNote)
      → burn_notes_of lib
          (map (λ (b : BurnNote). b.transfer_note) bs)
          (map (λ (b : BurnNote). b.burned_ro) bs)
        ≡ ok cs
      → cs ≡ bs
  unfolding burn_notes_of burn_note
  burn_notes_of_lem [] cs h = ground arith
  burn_notes_of_lem (b ∷ bs) cs h =
      let (c, made, h1) =
        >>=-eq-ok (unwrap_note lib (burn_note lib b.transfer_note b.burned_ro)) _ h in
      let (ds, rest, h2) =
        >>=-eq-ok
          (burn_notes_of lib (map (λ (b : BurnNote). b.transfer_note) bs)
            (map (λ (b : BurnNote). b.burned_ro) bs))
          _ h1 in
      ground (arith, burn_notes_of_lem bs ds rest)

  -- What `from_cape_transactions` keeps of proper transactions.
  from_cape_transactions_lem :
      (txns : List CapeModelTxn) (miner : UserAddress) (b : CapeBlock)
      → Proper txns
      → from_cape_transactions lib txns miner ≡ ok b
      → (b.miner_addr ≡ miner)
        × (b.note_types ≡ map type_of txns)
        × (b.transfer_notes ≡ transfers_in txns)
        × (b.mint_notes ≡ mints_in txns)
        × (b.freeze_notes ≡ freezes_in txns)
        × (b.burn_notes ≡ burns_in txns)
  unfolding from_cape_transactions generate
  from_cape_transactions_lem txns miner b proper h =
      let (types, xs, ms, fs, bs, ros) = sort_notes_lem txns proper in
      let s : Sorted = sort_notes (notes_of txns).0 in
      let (u, same, h1) =
        >>=-eq-ok (guard (length s.burns == length (notes_of txns).1) mismatched_openings) _ h in
      let (burns, made, h2) = >>=-eq-ok (burn_notes_of lib s.burns (notes_of txns).1) _ h1 in
      let all_burns : burns ≡ burns_in txns =
        burn_notes_of_lem (burns_in txns) burns (rw (bs, ros) at made) in
      ground arith

  -- A block that is built from transactions whose burns, and no other transfers, are marked as burns
  -- can be read again: the types of the notes are in the order of the transactions, but the notes of
  -- each type come in the reverse of their order.
  pub into_cape_transactions-reversed :
      (txns : List CapeModelTxn) (miner : UserAddress) (b : CapeBlock)
      → Proper txns
      → from_cape_transactions lib txns miner ≡ ok b
      → (ts : List CapeModelTxn) × (into_cape_transactions b ≡ ok (ts, miner))
        × (map type_of ts ≡ map type_of txns)
        × (transfers_in ts ≡ reverse (transfers_in txns))
        × (mints_in ts ≡ reverse (mints_in txns))
        × (freezes_in ts ≡ reverse (freezes_in txns))
        × (burns_in ts ≡ reverse (burns_in txns))
  unfolding into_cape_transactions
  into_cape_transactions-reversed txns miner b proper h =
      let (miner_e, types, xs, ms, fs, bs) = from_cape_transactions_lem txns miner b proper h in
      let (ts, e, same, ex, em, ef, eb) =
        next_txns_lem txns (reverse (transfers_in txns)) (reverse (mints_in txns))
          (reverse (freezes_in txns)) (reverse (burns_in txns)) (length-reverse (transfers_in txns))
          (length-reverse (mints_in txns)) (length-reverse (freezes_in txns))
          (length-reverse (burns_in txns)) in
      (ts, rw (types, xs, ms, fs, bs) (rw (e, miner_e) refl), same, ex, em, ef, eb)
