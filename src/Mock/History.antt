-- ===== src/Mock/History.antt =====
-- The records of `MockCapeNetwork` of wallet/src/mocks.rs are the contract's, after any history of calls.
use cape.Base.{
  ℕ, ◌≡◌, refl, sym, ap, subst, ◌∙◌, Option, none, some, List, [], ◌∷◌, ◌++◌, filter, arith,
  Outcome-cases, inl, inr, none≢some, ok, >>=-eq-ok, Ensures, Ensures-intro, nat_eq,
}
use cape.Base.Map.{insert}
use cape.Cap.{asset_definition_eq, AssetDefinition, RecordOpening, RecordCommitment, VerifierKeySet}
use cape.Model.Types.{
  EthereumAddr, Erc20Code, CapeModelTxn, CapeModelOperation, CapeModelEthEffect, emit,
  CapeModelEvent, CapeValidationError,
}
use cape.Model.State.{init}
use cape.Model.Assets.{State, register, wrap}
use cape.Model.Assets.Laws.{register_lem, wrap_lem, wrap_result, register_result}
use cape.Model.Block.{submit_block, is_unspent}
use cape.Model.Submit
use cape.Model.Submit.{apply_operation, next_state_number, settle}
use cape.Model.Rounds.{all_sent}
use cape.Model.Acceptance.{Accepts, submit_block_iff}
use cape.Model.Traces.{submit_operations_rel}
use cape.Eqs.Types.{EqsLib, memos_event, ReceiverMemo}
use cape.Sync.Trees.{TreeLaws}
use cape.Sync.Outputs.{emitted, emitted-append, emitted-all_sent}
use cape.Mock.Network.{
  MockCapeNetwork, generate_event, handle_event, handle_events, submit_operations, run_calls,
  run_rest, after_call, new, empty_network, granted_outputs,
}
use cape.Mock.Ledgers.{Keyed, All-insert}
use cape.Mock.Tracking.{Tracks, committed-Tracks, Tracks-cong}

module _ (lib : EqsLib) (laws : TreeLaws lib) where
  -- Handling the events of a call keeps to the state that the call leaves.
  abbrev Follows : State lib.cap_lib → State lib.cap_lib × List CapeModelEthEffect → Type 0
  Follows s r =
      (net net' : MockCapeNetwork lib)
      → Tracks lib s net
      → handle_events lib {E = CapeValidationError} (emitted r.1) net ≡ ok net'
      → Tracks lib r.0 net'

  handle_events-append :
      (es fs : List CapeModelEvent) (x z : MockCapeNetwork lib)
      → handle_events lib {E = CapeValidationError} (es ++ fs) x ≡ ok z
      → (y : MockCapeNetwork lib) × (handle_events lib {E = CapeValidationError} es x ≡ ok y)
        × (handle_events lib {E = CapeValidationError} fs y ≡ ok z)
  unfolding handle_events
  handle_events-append [] fs x z h = (x, refl, h)
  handle_events-append (e ∷ es) fs x z h =
      let (y, first, rest) = >>=-eq-ok (handle_event lib {E = CapeValidationError} e x) _ h in
      let (w, left, right) = handle_events-append es fs y z rest in (w, ground arith, right)

  Follows-same : (s : State lib.cap_lib) → Follows s (s, [])
  unfolding handle_events
  Follows-same s net net' f h = let e : net ≡ net' = ground arith in subst (Tracks lib s) e f

  Follows-trans :
      (s t u : State lib.cap_lib) (es fs : List CapeModelEthEffect)
      → Follows s (t, es)
      → Follows t (u, fs)
      → Follows s (u, es ++ fs)
  Follows-trans s t u es fs h k net net' f handled =
      let (mid, left, right) = handle_events-append (emitted es) (emitted fs) net net' (
        subst (λ l. handle_events lib {E = CapeValidationError} l net ≡ ok net')
          (emitted-append es fs) handled) in
      k mid net' (h net mid f left) right

  next_state_number-Follows :
      (s : State lib.cap_lib) → Follows s (next_state_number lib.cap_lib s, [])
  unfolding next_state_number
  next_state_number-Follows s net net' f h =
      Tracks-cong lib laws s (next_state_number lib.cap_lib s) net' refl refl
        (Follows-same s net net' f h)

  register-Follows :
      (def : AssetDefinition) (code : Erc20Code) (sponsor : EthereumAddr) (s : State lib.cap_lib)
      → Follows s (register_result lib.cap_lib def code sponsor s)
  register-Follows def code sponsor s net net' f h =
      Tracks-cong lib laws s (register_result lib.cap_lib def code sponsor s).0 net' refl refl
        (Follows-same s net net' f h)

  wrap-Follows :
      (code : Erc20Code) (src : EthereumAddr) (ro : RecordOpening) (s : State lib.cap_lib)
      → Follows s (wrap_result lib.cap_lib code src ro s)
  unfolding handle_events handle_event
  wrap-Follows code src ro s net net' f h =
      let deposited : MockCapeNetwork lib = record net {
        pending_erc20_deposits =
            insert (lib.cap_lib.record_commitment ro) (code, src, ro) net.pending_erc20_deposits;
      } in
      let same : deposited ≡ net' = ground arith in
      subst (Tracks lib (wrap_result lib.cap_lib code src ro s).0) same (record {
        commitment = f.commitment;
        frontier = f.frontier;
        keyed =
            All-insert (Keyed lib) (lib.cap_lib.record_commitment ro) (code, src, ro)
              net.pending_erc20_deposits f.keyed refl;
      })

  -- One event.
  one_event :
      (e : CapeModelEvent) (net net' : MockCapeNetwork lib)
      → handle_events lib {E = CapeValidationError} (e ∷ []) net ≡ ok net'
      → handle_event lib {E = CapeValidationError} e net ≡ ok net'
  unfolding handle_events
  one_event e net net' h =
      let (y, first, rest) = >>=-eq-ok (handle_event lib {E = CapeValidationError} e net) _ h in
      first ∙ rest

  Accepts-Follows :
      (s : State lib.cap_lib) (ts : List CapeModelTxn)
      (r : State lib.cap_lib × List CapeModelEthEffect)
      → Accepts lib.cap_lib s ts r
      → Follows s r
  Accepts-Follows s ts r (cs, builder, fresh, adms, good, restored, e) =
      let last : List CapeModelEthEffect =
        emit (CapeModelEvent.block_committed ts s.erc20_deposits) ∷ [] in
      let events : emitted (all_sent cs ++ last)
          ≡ CapeModelEvent.block_committed ts s.erc20_deposits ∷ [] =
        emitted-append (all_sent cs) last
        ∙ ap (λ es. es ++ emitted last) (emitted-all_sent lib laws s ts cs adms) in
      subst (Follows s) (sym e) (λ net net' f h.
        committed-Tracks lib laws ts cs builder s net net' f adms restored (
          one_event (CapeModelEvent.block_committed ts s.erc20_deposits) net net'
            (subst (λ es. handle_events lib {E = CapeValidationError} es net ≡ ok net') events h)))

  apply_operation-Follows :
      (o : CapeModelOperation) (s : State lib.cap_lib)
      → Ensures (Follows s) (apply_operation lib.cap_lib o s)
  unfolding apply_operation
  apply_operation-Follows (CapeModelOperation.register_erc20 def code sponsor) s =
      Ensures-intro (Follows s) (register lib.cap_lib def code sponsor s) (λ r h.
        subst (Follows s) (sym (register_lem lib.cap_lib def code sponsor s r h).2)
          (register-Follows def code sponsor s))
  apply_operation-Follows (CapeModelOperation.wrap_erc20 code src ro) s =
      Ensures-intro (Follows s) (wrap lib.cap_lib code src ro s) (λ r h.
        subst (Follows s) (sym (wrap_lem lib.cap_lib code src ro s r h).2)
          (wrap-Follows code src ro s))
  apply_operation-Follows (CapeModelOperation.submit_block txns) s =
      Ensures-intro (Follows s) (submit_block lib.cap_lib txns s) (λ r h.
        Accepts-Follows s (filter (is_unspent s.nullifiers) txns) r
          ((submit_block_iff lib.cap_lib txns s r).0 h))

  submit_operations-Tracks :
      (ops : List CapeModelOperation) (net net' : MockCapeNetwork lib)
      → Tracks lib net.contract net
      → submit_operations lib ops net ≡ ok net'
      → Tracks lib net'.contract net'
  unfolding submit_operations
  submit_operations-Tracks ops net net' f h =
      let (r, called, h1) = >>=-eq-ok (Submit.submit_operations lib.cap_lib ops net.contract) _ h in
      let (handled, handling, h2) =
        >>=-eq-ok (handle_events lib {E = CapeValidationError} (emitted r.1) net) _ h1 in
      let settled : settle lib.cap_lib net.contract
            (Submit.submit_operations lib.cap_lib ops net.contract)
          ≡ r =
        ap (settle lib.cap_lib net.contract) called in
      let follows : Follows net.contract r = subst (Follows net.contract) settled (
        submit_operations_rel lib.cap_lib Follows Follows-same next_state_number-Follows
          Follows-trans apply_operation-Follows ops net.contract) in
      let t : Tracks lib r.0 handled = follows net handled f handling in
      let last : MockCapeNetwork lib = record handled { contract = r.0 } in
      let same : last ≡ net' = ground arith in
      subst (λ n. Tracks lib n.contract n) same
        (record { commitment = t.commitment; frontier = t.frontier; keyed = t.keyed })

  run_calls-Tracks :
      (calls : List (List CapeModelOperation)) (net net' : MockCapeNetwork lib)
      → Tracks lib net.contract net
      → run_calls lib calls net ≡ some net'
      → Tracks lib net'.contract net'
  run_calls-Tracks [] net net' f h =
      let same : net ≡ net' = ground arith in subst (λ n. Tracks lib n.contract n) same f
  run_calls-Tracks (ops ∷ calls) net net' f h =
      elim (Outcome-cases (submit_operations lib ops net)) [
        | inl (n, called) ↦
            run_calls-Tracks calls n net' (submit_operations-Tracks ops net n f called)
              (sym (ap (λ o. run_rest lib (run_calls lib calls) (after_call lib net o)) called) ∙ h)
        | inr (inl (e, failed)) ↦
            run_calls-Tracks calls net net' f
              (sym (ap (λ o. run_rest lib (run_calls lib calls) (after_call lib net o)) failed) ∙ h)
        | inr (inr crashed) ↦ absurd (
            none≢some (
              sym (ap (λ o. run_rest lib (run_calls lib calls) (after_call lib net o)) crashed)
              ∙ h))
      ]

  -- When jf_cap's tree, its frontier and the builder grow alike: from a new network on, as long
  -- as no call panics, the commitment and the frontier of the contract are those of the
  -- network's own records after any history of calls, whether they succeed or fail.
  pub run_calls-records :
      (leaf : lib.Tree → ℕ → Option (RecordCommitment × lib.MerklePath)) (keys : VerifierKeySet)
      (t : lib.Tree) (memos : List (ReceiverMemo × ℕ)) (calls : List (List CapeModelOperation))
      (net net' : MockCapeNetwork lib)
      → new lib {E = CapeValidationError} leaf keys t memos ≡ ok net
      → run_calls lib calls net ≡ some net'
      → (net'.contract.ledger.record_merkle_commitment ≡ lib.commitment net'.records)
        × (net'.contract.ledger.record_merkle_frontier ≡ lib.frontier net'.records)
  unfolding new init generate_event
  run_calls-records leaf keys t memos calls net net' made ran =
      let (outputs, found, h) =
        >>=-eq-ok (granted_outputs lib {E = CapeValidationError} leaf t memos) _ made in
      let start = generate_event lib (memos_event outputs none) (empty_network lib keys t) in
      let same : start ≡ net = ground arith in
      let f : Tracks lib start.contract start = record {
        commitment = refl;
        frontier = refl;
        keyed = tt;
      } in
      let g = run_calls-Tracks calls net net' (subst (λ n. Tracks lib n.contract n) same f) ran in
      (g.commitment, g.frontier)
