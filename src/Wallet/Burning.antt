-- ===== src/Wallet/Burning.antt =====
-- A burn of wallet/src/wallet.rs on its way to the contract: the block of contracts/rust/src/cape/mod.rs
-- that the relayer makes of it, and the address that contracts/rust/src/model.rs reads.
use cape.Base.{
  ℕ, ◌≡◌, refl, sym, ap, subst, ◌∙◌, true, false, Option, some, List, [], ◌∷◌, arith, ok, err,
  panic, ok_or, nat_eq, list_eq, ==_refl, length, take, get_elem?, ltb,
}
use cape.Cap.{RecordOpening, TransferNote, Bytes, CapLib}
use cape.Model.Types.{EthereumAddr, CapeModelTxn}
use cape.Model.Notes.{extract_burn_dst}
use cape.AddressBook.Files.{UserAddress, UserPubKey}
use cape.Blocks
use cape.Blocks.{
  CapeBlock, BurnNote, is_burn_note, notes_of, sort_notes, sort_note, burn_note, burn_notes_of,
  generate, from_cape_transactions, next_txn, next_txns, into_cape_transactions,
}
use cape.Wallet.Backend.{Call, insufficient_balance}
use cape.Wallet.Interface.{WalletBackend, WalletLib}
use cape.Wallet.Extension.{burn_bound_data, burn, burn_txn, burned_opening, reading, and_then}

take-length : {A : Type 0} (xs : List A) → take (length xs) xs ≡ xs
take-length [] = refl
take-length (x ∷ xs) = ap (◌∷◌ x) (take-length xs)

-- The contract reads the address that the wallet has written.
extract_burn_dst-bound_data :
    (note : TransferNote) (dst : EthereumAddr)
    → note.extra_proof_bound_data ≡ burn_bound_data dst
    → length dst ≡ 20
    → extract_burn_dst note ≡ some (some dst)
unfolding extract_burn_dst burn_bound_data
extract_burn_dst-bound_data note dst bound size =
    let whole : take 20 dst ≡ dst = subst (λ n. take n dst ≡ dst) size (take-length dst) in
    rw (bound, size, whole) refl

module _ (cap_lib : CapLib) (note : TransferNote) (ro : RecordOpening) (dst : EthereumAddr)
    (bound : note.extra_proof_bound_data ≡ burn_bound_data dst) (size : length dst ≡ 20)
    (opens : get_elem? note.output_commitments 1 ≡ some (cap_lib.record_commitment ro)) where
  long_enough : (xs : List ℕ) (x : ℕ) → get_elem? xs 1 ≡ some x → ltb (length xs) 2 ≡ false
  long_enough [] x h = cc
  long_enough (a ∷ []) x h = cc
  long_enough (a ∷ b ∷ xs) x h = ground arith

  burn_note-ok : burn_note cap_lib note ro ≡ ok (record { transfer_note = note; burned_ro = ro })
  unfolding burn_note is_burn_note burn_bound_data
  burn_note-ok =
      let two = long_enough note.output_commitments (cap_lib.record_commitment ro) opens in
      rw (two, opens, ==_refl (cap_lib.record_commitment ro), bound, size) refl

  marked : is_burn_note note ≡ true
  unfolding is_burn_note burn_bound_data
  marked = rw bound refl

  -- The relayer's block of the burn, and the burn again from the block.
  burn-block :
      (miner : UserAddress)
      → (b : CapeBlock) × (from_cape_transactions cap_lib (CapeModelTxn.burn note ro ∷ []) miner
          ≡ ok b)
        × (into_cape_transactions b ≡ ok (CapeModelTxn.burn note ro ∷ [], miner))
  unfolding from_cape_transactions notes_of generate sort_notes sort_note burn_notes_of
      into_cape_transactions next_txns next_txn
  burn-block miner = (
    record {
      miner_addr = miner;
      note_types = Blocks.NoteType.burn_type ∷ [];
      transfer_notes = [];
      mint_notes = [];
      freeze_notes = [];
      burn_notes = record { transfer_note = note; burned_ro = ro } ∷ [];
    },
    rw (marked, burn_note-ok) refl,
    refl,
  )

-- What is relied on of seahorse: a transfer that is built has the bound data, and its outputs are the
-- commitments of the openings.
pub record TransferLaws (cap_lib : CapLib) (backend : WalletBackend) (lib : WalletLib backend)
    : Type 0 where
  pub bound_law :
      (account : Option UserAddress) (asset : ℕ) (address : UserAddress) (amount fee : ℕ)
      (bound : Bytes) (s t : backend.Backend) (note : TransferNote) (outputs : List RecordOpening)
      → lib.build_transfer account asset address amount fee bound s ≡ (t, ok (note, outputs))
      → note.extra_proof_bound_data ≡ bound
  pub outputs_law :
      (account : Option UserAddress) (asset : ℕ) (address : UserAddress) (amount fee : ℕ)
      (bound : Bytes) (s t : backend.Backend) (note : TransferNote) (outputs : List RecordOpening)
      (i : ℕ) (ro : RecordOpening)
      → lib.build_transfer account asset address amount fee bound s ≡ (t, ok (note, outputs))
      → get_elem? outputs i ≡ some ro
      → get_elem? note.output_commitments i ≡ some (cap_lib.record_commitment ro)

module _ {S A B : Type 0} where
  and_then-ok :
      (r : S × Call A) (next : A → S → S × Call B) (b : B)
      → (and_then r next).1 ≡ ok b
      → (s : S) × (a : A) × (r ≡ (s, ok a)) × (and_then r next ≡ next a s)
  and_then-ok (s, ok a) next b h = (s, a, refl, refl)
  and_then-ok (s, err e) next b h = cc
  and_then-ok (s, panic) next b h = cc

  reading-ok :
      (s : S) (call : Call A) (next : A → S → S × Call B) (b : B)
      → (reading s call next).1 ≡ ok b
      → (a : A) × (call ≡ ok a) × (reading s call next ≡ next a s)
  reading-ok s (ok a) next b h = (a, refl, refl)
  reading-ok s (err e) next b h = cc
  reading-ok s panic next b h = cc

module _ (cap_lib : CapLib) (backend : WalletBackend) (lib : WalletLib backend)
    (laws : TransferLaws cap_lib backend lib) where
  burned_opening-ok :
      (asset amount : ℕ) (address : UserAddress) (outputs : List RecordOpening) (ro : RecordOpening)
      → burned_opening cap_lib backend lib asset amount address outputs ≡ ok ro
      → (get_elem? outputs 1 ≡ some ro) × (ro.asset_def.code ≡ asset) × (ro.amount ≡ amount)
  burned_opening-ok asset amount address outputs ro h = ground (arith, h)

  -- A burn that succeeds.
  pub burn-submitted :
      (account : Option UserAddress) (dst : EthereumAddr) (asset amount fee : ℕ)
      (s : backend.Backend) (miner : UserAddress)
      → length dst ≡ 20
      → (burn cap_lib backend lib account dst asset amount fee s).1 ≡ ok tt
      → (note : TransferNote) × (ro : RecordOpening) × (t : backend.Backend) × (b : CapeBlock)
        × (burn cap_lib backend lib account dst asset amount fee s
            ≡ backend.submit (burn_txn cap_lib backend lib note ro) t)
        × (ro.asset_def.code ≡ asset)
        × (ro.amount ≡ amount)
        × (extract_burn_dst note ≡ some (some dst))
        × (from_cape_transactions cap_lib (CapeModelTxn.burn note ro ∷ []) miner ≡ ok b)
        × (into_cape_transactions b ≡ ok (CapeModelTxn.burn note ro ∷ [], miner))
  unfolding burn
  burn-submitted account dst asset amount fee s miner size done =
      let (key, first, e1) =
        reading-ok s (ok_or (get_elem? (lib.pub_keys s) 0) insufficient_balance)
          (after_key account dst asset amount fee) tt done in
      let (t, (note, outputs), built, e2) =
        and_then-ok
          (lib.build_transfer account asset (lib.address key) amount fee (burn_bound_data dst) s)
          (after_transfer asset amount (lib.address key)) tt (sym (ap (λ r. r.1) e1) ∙ done) in
      let (ro, opened, e3) =
        reading-ok t (burned_opening cap_lib backend lib asset amount (lib.address key) outputs)
          (λ ro u. backend.submit (burn_txn cap_lib backend lib note ro) u) tt
          (sym (ap (λ r. r.1) (e1 ∙ e2)) ∙ done) in
      let (second, code, same_amount) =
        burned_opening-ok asset amount (lib.address key) outputs ro opened in
      let bound =
        laws.bound_law account asset (lib.address key) amount fee (burn_bound_data dst) s t note
          outputs built in
      let opens =
        laws.outputs_law account asset (lib.address key) amount fee (burn_bound_data dst) s t note
          outputs 1 ro built second in
      let (b, made, read) = burn-block cap_lib note ro dst bound size opens miner in
      (
        note,
        ro,
        t,
        b,
        e1 ∙ (e2 ∙ e3),
        code,
        same_amount,
        extract_burn_dst-bound_data note dst bound size,
        made,
        read,
      )
    where
      after_transfer :
          ℕ
          → ℕ
          → UserAddress
          → TransferNote × List RecordOpening
          → backend.Backend
          → backend.Backend × Call (Unit {0})
      after_transfer asset amount address built s =
          reading s (burned_opening cap_lib backend lib asset amount address built.1)
            (λ ro u. backend.submit (burn_txn cap_lib backend lib built.0 ro) u)

      after_key :
          Option UserAddress
          → EthereumAddr
          → ℕ
          → ℕ
          → ℕ
          → UserPubKey
          → backend.Backend
          → backend.Backend × Call (Unit {0})
      after_key account dst asset amount fee key s =
          and_then
            (lib.build_transfer account asset (lib.address key) amount fee (burn_bound_data dst) s)
            (after_transfer asset amount (lib.address key))
