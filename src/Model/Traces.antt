-- ===== src/Model/Traces.antt =====
-- A rule for all histories of calls of `submit_operations` in contracts/rust/src/model.rs: what
-- holds of the counter and of each operation, and composes, holds of every history.
use cape.Base.{
  ◌≡◌, sym, subst, ◌∙◌, List, [], ◌∷◌, ◌++◌, ok, err, panic, Ensures, append_assoc, append-nil,
  ◌>>=◌,
}
use cape.Cap.{CapLib}
use cape.Model.Types.{CapeModelOperation, CapeModelEthEffect}
use cape.Model.Assets.{State, Result}
use cape.Model.Submit.{
  apply_operation, apply_operations, next_state_number, submit_operations, settle, history,
}

module _ (lib : CapLib) (R : State lib → State lib × List CapeModelEthEffect → Type 0)
    (stay : (s : State lib) → R s (s, []))
    (counted : (s : State lib) → R s (next_state_number lib s, []))
    (chain : (s t u : State lib) (es fs : List CapeModelEthEffect)
      → R s (t, es)
      → R t (u, fs)
      → R s (u, es ++ fs))
    (step : (o : CapeModelOperation) (s : State lib)
      → Ensures (R s) (apply_operation lib o s)) where
  -- The effects of a run are appended to those that were there.
  abbrev Runs : State lib → List CapeModelEthEffect → State lib × List CapeModelEthEffect → Type 0
  Runs s es r = (fs : List CapeModelEthEffect) × (r.1 ≡ es ++ fs) × R s (r.0, fs)

  -- The rest of a run, after the first operation.
  after_step :
      (ops : List CapeModelOperation) (s : State lib) (es : List CapeModelEthEffect)
      (r : Result lib)
      → Ensures (R s) r
      → ((t : State lib) (fs : List CapeModelEthEffect)
          → Ensures (Runs t fs) (apply_operations lib ops t fs))
      → Ensures (Runs s es) (r >>= λ q. apply_operations lib ops q.0 (es ++ q.1))
  after_step ops s es (err e) h rest = tt
  after_step ops s es panic h rest = tt
  after_step ops s es (ok (t, fs)) h rest =
      weaken (apply_operations lib ops t (es ++ fs)) (rest t (es ++ fs))
    where
      weaken : (r : Result lib) → Ensures (Runs t (es ++ fs)) r → Ensures (Runs s es) r
      weaken (ok (u, all)) (gs, e, k) = (fs ++ gs, e ∙ append_assoc es fs gs, chain s t u fs gs h k)
      weaken (err e) k = tt
      weaken panic k = tt

  apply_operations-Runs :
      (ops : List CapeModelOperation) (s : State lib) (es : List CapeModelEthEffect)
      → Ensures (Runs s es) (apply_operations lib ops s es)
  unfolding apply_operations
  apply_operations-Runs [] s es = ([], sym (append-nil es), stay s)
  apply_operations-Runs (o ∷ ops) s es =
      after_step ops s es (apply_operation lib o s) (step o s) (apply_operations-Runs ops)

  settled :
      (s t : State lib) (r : Result lib)
      → R s (t, [])
      → Ensures (Runs t []) r
      → R s (settle lib s r)
  settled s t (err e) c h = stay s
  settled s t panic c h = stay s
  settled s t (ok (u, es)) c (fs, e, k) = subst (λ gs. R s (u, gs)) (sym e) (chain s t u [] fs c k)

  -- One call, whether it returns a state or not.
  pub submit_operations_rel :
      (ops : List CapeModelOperation) (s : State lib)
      → R s (settle lib s (submit_operations lib ops s))
  unfolding submit_operations
  submit_operations_rel ops s =
      settled s (next_state_number lib s) (apply_operations lib ops (next_state_number lib s) [])
        (counted s) (apply_operations-Runs ops (next_state_number lib s) [])

  -- Every history.
  pub history_rel :
      (calls : List (List CapeModelOperation)) (s : State lib) → R s (history lib calls s)
  unfolding history
  history_rel [] s = stay s
  history_rel (ops ∷ calls) s =
      let r = settle lib s (submit_operations lib ops s) in
      let rest = history lib calls r.0 in
      chain s r.0 rest.0 r.1 rest.1 (submit_operations_rel ops s) (history_rel calls r.0)
