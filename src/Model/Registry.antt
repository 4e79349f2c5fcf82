-- ===== src/Model/Registry.antt =====
-- The registered assets of contracts/rust/src/model.rs, and what the contract pays out for them.
use cape.Base.{
  ◌≡◌, ◌⊎◌, ◌∙◌, inl, inr, Option-cases, none≢some, sym, subst, true, none, some, List, [], ◌∷◌,
  ◌++◌, arith, filter, ok, Ensures, Ensures-intro, All, All-append, All-map,
}
use cape.Base.Map.{lookup, lookup-insert}
use cape.Cap.{
  VerifierKeySet, MerkleCommitment, AssetDefinition, RecordOpening, TransactionNote, CapLib,
  asset_definition_eq, asset_definition_beq_iff,
}
use cape.Model.Types.{
  EthereumAddr, Erc20Code, CapeModelTxn, CapeModelOperation, CapeModelEthEffect, cap_txn, burn,
  emit, block_committed, receive_erc20, check_erc20_exists, send_erc20,
}
use cape.Model.State.{init}
use cape.Model.Assets.{State, register, wrap, is_erc20_asset_def_valid}
use cape.Model.Assets.Laws.{register_lem, wrap_lem}
use cape.Model.Block.{Checked, submit_block, is_unspent, commit_block}
use cape.Model.Submit.{apply_operation, next_state_number, history}
use cape.Model.Admission.{Admissible}
use cape.Model.Rounds.{AllAdmissible, all_sent}
use cape.Model.Acceptance.{Accepts, block_result, submit_block_iff}
use cape.Model.Traces.{history_rel}

module _ (lib : CapLib) where
  -- An entry once made stays as it is.
  abbrev pub Extends : State lib → State lib → Type 0
  Extends s t =
      (def : AssetDefinition) (entry : Erc20Code × EthereumAddr)
      → lookup def s.erc20_registrar ≡ some entry
      → lookup def t.erc20_registrar ≡ some entry

  -- A payment is in the token of a registered asset.
  abbrev pub Backed : State lib → CapeModelEthEffect → Type 0
  Backed s (send_erc20 code amount dst) =
      (def : AssetDefinition) × (sponsor : EthereumAddr) × (lookup def s.erc20_registrar
        ≡ some (code, sponsor))
  Backed s (receive_erc20 code amount src) =
      (def : AssetDefinition) × (sponsor : EthereumAddr) × (lookup def s.erc20_registrar
        ≡ some (code, sponsor))
  Backed s (check_erc20_exists code) = Unit
  Backed s (emit event) = Unit

  -- What holds of every registered asset.
  abbrev pub RegistrarValid : State lib → Type 0
  RegistrarValid s =
      (def : AssetDefinition) (code : Erc20Code) (sponsor : EthereumAddr)
      → lookup def s.erc20_registrar ≡ some (code, sponsor)
      → is_erc20_asset_def_valid lib def code sponsor ≡ true

  Backed-mono : (s t : State lib) → Extends s t → (e : CapeModelEthEffect) → Backed s e → Backed t e
  Backed-mono s t h (send_erc20 code amount dst) (def, sponsor, e) =
      (def, sponsor, h def (code, sponsor) e)
  Backed-mono s t h (receive_erc20 code amount src) (def, sponsor, e) =
      (def, sponsor, h def (code, sponsor) e)
  Backed-mono s t h (check_erc20_exists code) b = tt
  Backed-mono s t h (emit event) b = tt

  abbrev pub Keeps : State lib → State lib × List CapeModelEthEffect → Type 0
  Keeps s r = Extends s r.0 × All (Backed r.0) r.1 × (RegistrarValid s → RegistrarValid r.0)

  Keeps-trans :
      (s t u : State lib) (es fs : List CapeModelEthEffect)
      → Keeps s (t, es)
      → Keeps t (u, fs)
      → Keeps s (u, es ++ fs)
  Keeps-trans s t u es fs (ext, backed, valid) (ext', backed', valid') = (
    λ def entry h. ext' def entry (ext def entry h),
    All-append (Backed u) es fs (All-map (Backed t) (Backed u) (Backed-mono t u ext') es backed)
        backed',
    λ h. valid' (valid h),
  )

  register-Keeps :
      (def : AssetDefinition) (code : Erc20Code) (sponsor : EthereumAddr) (s : State lib)
      (r : State lib × List CapeModelEthEffect)
      → register lib def code sponsor s ≡ ok r
      → Keeps s r
  unfolding register
  register-Keeps def code sponsor s r h = (
    λ d entry e. ground (
      arith,
      lookup-insert d def (code, sponsor) s.erc20_registrar,
      asset_definition_beq_iff d def,
    ),
    subst (λ (q : State lib × List CapeModelEthEffect). All (Backed q.0) q.1)
        (sym (register_lem lib def code sponsor s r h).2) (tt, tt),
    λ valid d c sp e. ground (
      arith,
      lookup-insert d def (code, sponsor) s.erc20_registrar,
      asset_definition_beq_iff d def,
      valid d c sp,
    ),
  )

  wrap-Keeps :
      (code : Erc20Code) (src : EthereumAddr) (ro : RecordOpening) (s : State lib)
      (r : State lib × List CapeModelEthEffect)
      → wrap lib code src ro s ≡ ok r
      → Keeps s r
  unfolding wrap
  wrap-Keeps code src ro s r h =
      let (entry, found, e) = wrap_lem lib code src ro s r h in
      subst (Keeps s) (sym e) (λ d w f. f, ((ro.asset_def, entry, found), (tt, tt)), λ valid. valid)

  sent-Backed :
      (s : State lib) (t : CapeModelTxn) (c : Checked)
      → Admissible lib s t c
      → All (Backed s) c.sent
  sent-Backed s (cap_txn (TransactionNote.mint note)) c h = rw h.4 tt
  sent-Backed s (cap_txn (TransactionNote.transfer note)) c h = rw h.5 tt
  sent-Backed s (cap_txn (TransactionNote.freeze note)) c h = rw h.4 tt
  sent-Backed s (burn xfr ro) c h = rw h.5 ((ro.asset_def, h.0.entry.1, h.0.registered), tt)

  all_sent-Backed :
      (s : State lib) (ts : List CapeModelTxn) (cs : List Checked)
      → AllAdmissible lib s ts cs
      → All (Backed s) (all_sent cs)
  all_sent-Backed s [] [] h = tt
  all_sent-Backed s [] (c ∷ cs) h = absurd h
  all_sent-Backed s (t ∷ ts) [] h = absurd h
  all_sent-Backed s (t ∷ ts) (c ∷ cs) h =
      All-append (Backed s) c.sent (all_sent cs) (sent-Backed s t c h.0)
        (all_sent-Backed s ts cs h.2)

  Accepts-Keeps :
      (s : State lib) (ts : List CapeModelTxn) (r : State lib × List CapeModelEthEffect)
      → Accepts lib s ts r
      → Keeps s r
  unfolding commit_block
  Accepts-Keeps s ts r (cs, builder, fresh, adms, good, restored, e) =
      let t : State lib = (block_result lib s ts cs builder).0 in
      subst (Keeps s) (sym e) (
        λ d w f. f,
        All-append (Backed t) (all_sent cs) (emit (block_committed ts s.erc20_deposits) ∷ [])
            (All-map (Backed s) (Backed t) (Backed-mono s t (λ d w f. f)) (all_sent cs)
              (all_sent-Backed s ts cs adms))
            (tt, tt),
        λ valid. valid,
      )

  apply_operation-Keeps :
      (o : CapeModelOperation) (s : State lib) → Ensures (Keeps s) (apply_operation lib o s)
  unfolding apply_operation
  apply_operation-Keeps (CapeModelOperation.register_erc20 def code sponsor) s =
      Ensures-intro (Keeps s) (register lib def code sponsor s) (register-Keeps def code sponsor s)
  apply_operation-Keeps (CapeModelOperation.wrap_erc20 code src ro) s =
      Ensures-intro (Keeps s) (wrap lib code src ro s) (wrap-Keeps code src ro s)
  apply_operation-Keeps (CapeModelOperation.submit_block txns) s =
      Ensures-intro (Keeps s) (submit_block lib txns s) (λ r h.
        Accepts-Keeps s (filter (is_unspent s.nullifiers) txns) r
          ((submit_block_iff lib txns s r).0 h))

  history-Keeps :
      (calls : List (List CapeModelOperation)) (s : State lib) → Keeps s (history lib calls s)
  unfolding next_state_number
  history-Keeps =
      history_rel lib Keeps (λ s. (λ d w f. f, tt, λ v. v)) (λ s. (λ d w f. f, tt, λ v. v))
        Keeps-trans apply_operation-Keeps

  -- Over any history of calls, every token that the contract receives or sends belongs to an asset that
  -- is registered at the end, and an asset that is registered at the start, if it is, keeps its token
  -- and its sponsor.
  pub history-erc20_registrar :
      (calls : List (List CapeModelOperation)) (s : State lib) (def : AssetDefinition)
      → let r = history lib calls s in
        All (Backed r.0) r.1
        × ((lookup def s.erc20_registrar ≡ none)
            ⊎ (lookup def r.0.erc20_registrar ≡ lookup def s.erc20_registrar))
  history-erc20_registrar calls s def =
      let (kept, backed, valid) = history-Keeps calls s in
      (
        backed,
        elim (Option-cases (lookup def s.erc20_registrar)) [
          | inl missing ↦ inl missing
          | inr (entry, found) ↦ inr (kept def entry found ∙ sym found)
        ],
      )

  -- Over any history of calls to a new contract, whatever asset is registered has a description that
  -- the library has verified.
  pub history-is_erc20_asset_def_valid :
      (calls : List (List CapeModelOperation)) (keys : VerifierKeySet) (tree : MerkleCommitment)
      (frontier : lib.Frontier) (def : AssetDefinition) (code : Erc20Code) (sponsor : EthereumAddr)
      → lookup def (history lib calls (init keys tree frontier)).0.erc20_registrar
        ≡ some (code, sponsor)
      → is_erc20_asset_def_valid lib def code sponsor ≡ true
  unfolding init
  history-is_erc20_asset_def_valid calls keys tree frontier def code sponsor found =
      let (kept, backed, valid) = history-Keeps calls (init keys tree frontier) in
      valid (λ d c p h. absurd (none≢some h)) def code sponsor found
