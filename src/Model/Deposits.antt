-- ===== src/Model/Deposits.antt =====
-- The deposits on record in contracts/rust/src/model.rs against what the effects say was received.
use cape.Base.{
  ℕ, ◌+◌, ◌%◌, ◌<◌, ◌≡◌, refl, sym, ap, subst, Option, none, some, List, [], ◌∷◌, ◌++◌, arith,
  filter, ok, Ensures, Ensures-intro, if◌then◌else◌, ◌==◌, list_eq, list_beq_iff, nat_eq,
}
use cape.Base.Map.{lookup, lookup-insert}
use cape.Cap.{CapLib, TransactionNote, RecordOpening, u128_mod, VerifierKeySet, MerkleCommitment}
use cape.Model.Types.{
  EthereumAddr, Erc20Code, CapeModelTxn, CapeModelOperation, CapeModelEthEffect, cap_txn, burn,
  emit, block_committed, receive_erc20, check_erc20_exists, send_erc20,
}
use cape.Model.State.{init}
use cape.Model.Assets.{State, register, wrap, deposited_plus}
use cape.Model.Assets.Laws.{register_lem, wrap_lem}
use cape.Model.Block.{Checked, submit_block, is_unspent, commit_block}
use cape.Model.Submit.{apply_operation, next_state_number, history}
use cape.Model.Admission.{Admissible}
use cape.Model.Rounds.{AllAdmissible, all_sent}
use cape.Model.Acceptance.{Accepts, submit_block_iff}
use cape.Model.Traces.{history_rel}

-- What an effect receives of a token.
abbrev pub received_by : Erc20Code → CapeModelEthEffect → ℕ
received_by code (receive_erc20 other amount src) = if code == other then amount else 0
received_by code (check_erc20_exists other) = 0
received_by code (send_erc20 other amount dst) = 0
received_by code (emit event) = 0

abbrev pub received : Erc20Code → List CapeModelEthEffect → ℕ
received code [] = 0
received code (e ∷ es) = received_by code e + received code es

received-append :
    (code : Erc20Code) (es fs : List CapeModelEthEffect)
    → received code (es ++ fs) ≡ received code es + received code fs
received-append code [] fs = omega arith
received-append code (e ∷ es) fs = omega (arith, received-append code es fs)

abbrev value_of : Option ℕ → ℕ
value_of none = 0
value_of (some n) = n

module _ (lib : CapLib) where
  -- The deposits of a token on record.
  abbrev pub deposited_of : State lib → Erc20Code → ℕ
  deposited_of s code = value_of (lookup code s.erc20_deposited)

  -- Each amount on record has grown by what was received, up to the wrap of a `u128`.
  abbrev pub Counts : State lib → State lib × List CapeModelEthEffect → Type 0
  Counts s r =
      ((code : Erc20Code) → deposited_of s code < u128_mod)
      → (code : Erc20Code)
      → deposited_of r.0 code ≡ (deposited_of s code + received code r.1) % u128_mod

  Counts-same : (s : State lib) → Counts s (s, [])
  Counts-same s small code = omega (arith, small code)

  Counts-trans :
      (s t u : State lib) (es fs : List CapeModelEthEffect)
      → Counts s (t, es)
      → Counts t (u, fs)
      → Counts s (u, es ++ fs)
  Counts-trans s t u es fs h k small code =
      let small_t : (c : Erc20Code) → deposited_of t c < u128_mod = λ c. omega (arith, h small c) in
      omega (arith, h small code, k small_t code, received-append code es fs)

  wrap-Counts :
      (code : Erc20Code) (src : EthereumAddr) (ro : RecordOpening) (s : State lib)
      (r : State lib × List CapeModelEthEffect)
      → wrap lib code src ro s ≡ ok r
      → Counts s r
  unfolding deposited_plus
  wrap-Counts code src ro s r h =
      let (sponsor, found, e) = wrap_lem lib code src ro s r h in
      subst (Counts s) (sym e) (λ small c. ground (
        arith,
        lookup-insert c code (deposited_plus (lookup code s.erc20_deposited) ro.amount)
            s.erc20_deposited,
        list_beq_iff c code,
        small c,
      ))

  received-sent :
      (s : State lib) (t : CapeModelTxn) (c : Checked) (code : Erc20Code)
      → Admissible lib s t c
      → received code c.sent ≡ 0
  received-sent s (cap_txn (TransactionNote.mint note)) c code h = ap (received code) h.4
  received-sent s (cap_txn (TransactionNote.transfer note)) c code h = ap (received code) h.5
  received-sent s (cap_txn (TransactionNote.freeze note)) c code h = ap (received code) h.4
  received-sent s (burn xfr ro) c code h = ap (received code) h.5

  received-all_sent :
      (s : State lib) (ts : List CapeModelTxn) (cs : List Checked) (code : Erc20Code)
      → AllAdmissible lib s ts cs
      → received code (all_sent cs) ≡ 0
  received-all_sent s [] [] code h = refl
  received-all_sent s [] (c ∷ cs) code h = absurd h
  received-all_sent s (t ∷ ts) [] code h = absurd h
  received-all_sent s (t ∷ ts) (c ∷ cs) code h = omega (
    arith,
    received-append code c.sent (all_sent cs),
    received-sent s t c code h.0,
    received-all_sent s ts cs code h.2,
  )

  Accepts-Counts :
      (s : State lib) (ts : List CapeModelTxn) (r : State lib × List CapeModelEthEffect)
      → Accepts lib s ts r
      → Counts s r
  unfolding commit_block
  Accepts-Counts s ts r (cs, builder, fresh, adms, good, restored, e) =
      let last : List CapeModelEthEffect = emit (block_committed ts s.erc20_deposits) ∷ [] in
      subst (Counts s) (sym e) (λ small code. omega (
        arith,
        small code,
        received-append code (all_sent cs) last,
        received-all_sent s ts cs code adms,
      ))

  apply_operation-Counts :
      (o : CapeModelOperation) (s : State lib) → Ensures (Counts s) (apply_operation lib o s)
  unfolding apply_operation
  apply_operation-Counts (CapeModelOperation.register_erc20 def code sponsor) s =
      Ensures-intro (Counts s) (register lib def code sponsor s) (λ r h.
        subst (Counts s) (sym (register_lem lib def code sponsor s r h).2)
          (λ small c. omega (arith, small c)))
  apply_operation-Counts (CapeModelOperation.wrap_erc20 code src ro) s =
      Ensures-intro (Counts s) (wrap lib code src ro s) (wrap-Counts code src ro s)
  apply_operation-Counts (CapeModelOperation.submit_block txns) s =
      Ensures-intro (Counts s) (submit_block lib txns s) (λ r h.
        Accepts-Counts s (filter (is_unspent s.nullifiers) txns) r
          ((submit_block_iff lib txns s r).0 h))

  history-Counts :
      (calls : List (List CapeModelOperation)) (s : State lib) → Counts s (history lib calls s)
  unfolding next_state_number
  history-Counts =
      history_rel lib Counts Counts-same (λ s small code. Counts-same s small code) Counts-trans
        apply_operation-Counts

  -- From a new contract, over any history of calls: the deposits on record of a token are all that
  -- was ever received of it, modulo 2 ^ 128. What burns have paid out is not subtracted.
  pub history-deposits_never_fall :
      (calls : List (List CapeModelOperation)) (crs : VerifierKeySet) (tree : MerkleCommitment)
      (frontier : lib.Frontier) (code : Erc20Code)
      → let r = history lib calls (init crs tree frontier) in
        deposited_of r.0 code ≡ received code r.1 % u128_mod
  unfolding init
  history-deposits_never_fall calls crs tree frontier code =
      omega (arith, history-Counts calls (init crs tree frontier) (λ c. omega arith) code)
