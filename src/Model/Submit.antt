-- ===== src/Model/Submit.antt =====
-- `CapeContractState::submit_operations` of contracts/rust/src/model.rs, and a history of calls.
use cape.Base.{◌+◌, ◌%◌, List, [], ◌∷◌, ◌++◌, ok, err, panic, ◌>>=◌}
use cape.Cap.{CapLib, u64_mod}
use cape.Model.Types.{CapeModelOperation, CapeModelEthEffect}
use cape.Model.Assets.{State, Result, register, wrap}
use cape.Model.Block.{submit_block}

module _ (lib : CapLib) where
  -- One arm of the match on the operation.
  unfoldable pub apply_operation : CapeModelOperation → State lib → Result lib
  apply_operation (CapeModelOperation.register_erc20 asset_def erc20_code sponsor_addr) s =
      register lib asset_def erc20_code sponsor_addr s
  apply_operation (CapeModelOperation.wrap_erc20 erc20_code src_addr ro) s =
      wrap lib erc20_code src_addr ro s
  apply_operation (CapeModelOperation.submit_block txns) s = submit_block lib txns s

  -- The loop over the operations; the effects are in the order in which they are pushed.
  unfoldable pub apply_operations :
      List CapeModelOperation → State lib → List CapeModelEthEffect → Result lib
  apply_operations [] s effects = ok (s, effects)
  apply_operations (o ∷ ops) s effects =
      apply_operation o s >>= λ r. apply_operations ops r.0 (effects ++ r.1)

  unfoldable pub next_state_number : State lib → State lib
  next_state_number s = record s {
    ledger = record (s.ledger) { state_number = (s.ledger.state_number + 1) % u64_mod };
  }

  unfoldable pub submit_operations : List CapeModelOperation → State lib → Result lib
  submit_operations ops s = apply_operations ops (next_state_number s) []

  -- A call that does not return a state leaves the old one, and has no effect.
  abbrev pub settle : State lib → Result lib → State lib × List CapeModelEthEffect
  settle s (ok r) = r
  settle s (err e) = (s, [])
  settle s panic = (s, [])

  unfoldable pub history :
      List (List CapeModelOperation) → State lib → State lib × List CapeModelEthEffect
  history [] s = (s, [])
  history (ops ∷ calls) s =
      let r = settle s (submit_operations ops s) in
      let rest = history calls r.0 in (rest.0, r.1 ++ rest.1)
