-- ===== src/Wallet/Opening.antt =====
-- What `CapeBackend` of wallet/src/backend.rs learns of the query service's state (eqs/src/routes.rs).
use cape.Base.{
  ℕ, ◌<◌, ◌≡◌, refl, sym, ap, ◌∙◌, subst, Bool, inl, inr, Option-cases, Option, none, some, List,
  [], ◌∷◌, ◌++◌, arith, ok, length, length-append, drop, All, nat_eq, >>=-eq-ok, ok_or,
}
use cape.Base.Fresh.{contains}
use cape.Cap.{Nullifier, u64_mod}
use cape.Ledger.{CapeNullifierSet, get}
use cape.Eqs.Types.{EqsLib}
use cape.Eqs.Commit.{QueryState, Event}
use cape.Eqs.Routes.{get_cap_state, check_nullifier, to, as_identifier}
use cape.Wallet.Stream.{subscribe, stream}
use cape.Wallet.Delivery.{Earlier, stream-follows}
use cape.Wallet.Backend.{
  WalletState, create, initial_state, wait_for_eqs, get_eqs, get_nullifier_proof, failed,
}

drop-length : {A : Type 0} (front back : List A) → drop (length front) (front ++ back) ≡ back
drop-length [] back = refl
drop-length (x ∷ front) back = drop-length front back

module _ (lib : EqsLib) where
  create_lem :
      (connects : ℕ → Bool) (q : QueryState lib) (stores : Bool) (w : WalletState lib)
      → create lib connects (some (ok (get_cap_state lib q))) stores ≡ ok w
      → (t : lib.Tree) × (lib.restore_from_frontier q.ledger_state.record_merkle_commitment
            q.ledger_state.record_merkle_frontier
          ≡ some t)
        × (w ≡ initial_state lib (get_cap_state lib q) t)
  unfolding create get_eqs get_cap_state
  create_lem connects q stores w h =
      let (u, waited, opened) = >>=-eq-ok (wait_for_eqs connects).0 _ h in
      let (t, restored, stored) =
        >>=-eq-ok
          (ok_or
            (lib.restore_from_frontier q.ledger_state.record_merkle_commitment
              q.ledger_state.record_merkle_frontier)
            failed)
          _ opened in
      (t, ground arith, ground arith)

  -- With numbers of events below 2^64: a wallet that has been created from the state of the query
  -- service, and subscribes from its time on without an end, has the tree that the service's
  -- frontier restores, counts its records and the service's blocks, and is sent, in order and
  -- without a gap, what the service gets from then on.
  pub create-stream :
      (connects : ℕ → Bool) (q : QueryState lib) (stores : Bool) (w : WalletState lib)
      (services : List (Option (QueryState lib))) (later : List (Event lib)) (min_polling_delay : ℕ)
      → create lib connects (some (ok (get_cap_state lib q))) stores ≡ ok w
      → All (Earlier lib (q.events ++ later)) services
      → length (q.events ++ later) < u64_mod
      → let r = stream lib services (subscribe min_polling_delay w.now none) in
        (lib.restore_from_frontier q.ledger_state.record_merkle_commitment
            q.ledger_state.record_merkle_frontier
          ≡ some w.record_mt)
        × (w.validator.num_records ≡ lib.num_leaves w.record_mt)
        × (w.validator.now ≡ q.ledger_state.state_number)
        × (later ≡ r.0 ++ drop r.1.from (q.events ++ later))
  unfolding initial_state get_cap_state subscribe
  create-stream connects q stores w services later min_polling_delay created earlier room =
      let (t, restored, e) = create_lem connects q stores w created in
      let here : w.now ≡ length q.events = ap (λ x. x.now) e in
      let s = subscribe min_polling_delay w.now none in
      let (follows, u) =
        stream-follows lib services (q.events ++ later) s earlier
          (subst (λ n. n < u64_mod) (sym here) (omega (arith, room, length-append q.events later)))
          room tt in
      (
        restored ∙ ap (λ x. some x.record_mt) (sym e),
        ap (λ x. x.validator.num_records) e ∙ ap (λ x. lib.num_leaves x.record_mt) (sym e),
        ap (λ x. x.validator.now) e,
        sym (ap (λ n. drop n (q.events ++ later)) here ∙ drop-length q.events later) ∙ follows,
      )

  -- What the cache holds of a nullifier is what the service knows.
  abbrev pub Agrees : QueryState lib → Nullifier → Option Bool → Type 0
  Agrees q n none = Unit
  Agrees q n (some b) = b ≡ contains q.nullifiers n

  -- When a nullifier's blob is read back as the nullifier, and the cache holds nothing of it but what
  -- the service knows, the answer is whether the service has it among the spent.
  pub get_nullifier_proof_lem :
      (to_tagged_blob : Nullifier → ℕ) (from_tagged_blob : ℕ → Option Nullifier)
      (set : CapeNullifierSet) (n : Nullifier) (q : QueryState lib)
      → from_tagged_blob (to_tagged_blob n) ≡ some n
      → Agrees q n (get set n)
      → get_nullifier_proof lib to_tagged_blob from_tagged_blob set n (some q)
        ≡ ok (contains q.nullifiers n)
  unfolding get_nullifier_proof check_nullifier to as_identifier get_eqs
  get_nullifier_proof_lem to_tagged_blob from_tagged_blob set n q read_back agrees =
      elim (Option-cases (get set n)) [
        | inl missing ↦ rw (missing, read_back) refl
        | inr (b, cached) ↦ rw cached (ap ok (subst (Agrees q n) cached agrees))
      ]
