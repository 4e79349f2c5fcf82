-- ===== src/Model/Assets/Laws.antt =====
-- What the asset operations of contracts/rust/src/model.rs require when they succeed, and what they
-- leave.
use cape.Base.{
  ◌≡◌, true, none, some, List, [], ◌∷◌, ◌++◌, arith, ok, Option-cases, inl, inr, nat_eq, list_eq,
  list_beq_iff,
}
use cape.Base.Map.{lookup, insert}
use cape.Cap.{AssetDefinition, RecordOpening, CapLib, asset_definition_eq}
use cape.Model.Types.{
  EthereumAddr, Erc20Code, CapeModelEthEffect, receive_erc20, check_erc20_exists, emit,
  CapeModelEvent,
}
use cape.Model.Assets.{State, register, wrap, is_erc20_asset_def_valid, deposited_plus}

module _ (lib : CapLib) where
  abbrev pub register_result :
      AssetDefinition → Erc20Code → EthereumAddr → State lib → State lib × List CapeModelEthEffect
  register_result def code sponsor s = (
    record s { erc20_registrar = insert def (code, sponsor) s.erc20_registrar },
    check_erc20_exists code ∷ [],
  )

  pub register_lem :
      (def : AssetDefinition) (code : Erc20Code) (sponsor : EthereumAddr) (s : State lib)
      (r : State lib × List CapeModelEthEffect)
      → register lib def code sponsor s ≡ ok r
      → (is_erc20_asset_def_valid lib def code sponsor ≡ true)
        × (lookup def s.erc20_registrar ≡ none)
        × (r ≡ register_result def code sponsor s)
  unfolding register
  register_lem def code sponsor s r h = (ground arith, ground arith, ground arith)

  abbrev pub wrap_result :
      Erc20Code → EthereumAddr → RecordOpening → State lib → State lib × List CapeModelEthEffect
  wrap_result code src ro s = (
    record s {
      erc20_deposits = s.erc20_deposits ++ (lib.record_commitment ro ∷ []);
      erc20_deposited =
          insert code (deposited_plus (lookup code s.erc20_deposited) ro.amount) s.erc20_deposited;
    },
    receive_erc20 code ro.amount src ∷ emit (CapeModelEvent.erc20_deposited code src ro) ∷ [],
  )

  pub wrap_lem :
      (code : Erc20Code) (src : EthereumAddr) (ro : RecordOpening) (s : State lib)
      (r : State lib × List CapeModelEthEffect)
      → wrap lib code src ro s ≡ ok r
      → (sponsor : EthereumAddr) × (lookup ro.asset_def s.erc20_registrar ≡ some (code, sponsor))
        × (r ≡ wrap_result code src ro s)
  unfolding wrap
  wrap_lem code src ro s r h = elim (Option-cases (lookup ro.asset_def s.erc20_registrar)) [
    | inl missing ↦ ground arith
    | inr ((held, sponsor), found) ↦ (sponsor, ground (arith, list_beq_iff held code), ground arith)
  ]
