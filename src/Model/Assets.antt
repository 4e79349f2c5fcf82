-- ===== src/Model/Assets.antt =====
-- The operations `RegisterErc20` and `WrapErc20` of `submit_operations` in
-- contracts/rust/src/model.rs.
pub mod Laws
use cape.Base.{
  ℕ, ◌+◌, ◌%◌, Bool, not, Option, none, some, List, [], ◌∷◌, ◌++◌, Outcome, ok, guard, ok_or, ◌>>=◌,
  ◌>>◌, ◌==◌, nat_eq, list_eq,
}
use cape.Base.Map.{lookup, insert, contains_key}
use cape.Cap.{Bytes, AssetDefinition, RecordOpening, CapLib, u128_mod, asset_definition_eq}
use cape.Model.Types.{
  EthereumAddr, Erc20Code, CapeModelEthEffect, receive_erc20, check_erc20_exists, emit,
  CapeModelEvent, CapeValidationError, invalid_erc20_def, erc20_already_registered,
  unregistered_erc20, incorrect_erc20,
}
use cape.Model.State.{CapeContractState}

-- "EsSCAPE ERC20"
abbrev erc20_bytes : Bytes
erc20_bytes =
    b'E' ∷ b's' ∷ b'S' ∷ b'C' ∷ b'A' ∷ b'P' ∷ b'E' ∷ b' ' ∷ b'E' ∷ b'R' ∷ b'C' ∷ b'2' ∷ b'0' ∷ []

-- "sponsored by"
abbrev sponsored_by_bytes : Bytes
sponsored_by_bytes =
    b's' ∷ b'p' ∷ b'o' ∷ b'n' ∷ b's' ∷ b'o' ∷ b'r' ∷ b'e' ∷ b'd' ∷ b' ' ∷ b'b' ∷ b'y' ∷ []

-- "policy"
abbrev policy_bytes : Bytes
policy_bytes = b'p' ∷ b'o' ∷ b'l' ∷ b'i' ∷ b'c' ∷ b'y' ∷ []

-- `*entry(code).or_insert(0) += amount`, on a `u128` that wraps.
unfoldable pub deposited_plus : Option ℕ → ℕ → ℕ
deposited_plus none amount = amount % u128_mod
deposited_plus (some old) amount = (old + amount) % u128_mod

module _ (lib : CapLib) where
  unfoldable pub erc20_asset_description : Erc20Code → EthereumAddr → ℕ → Bytes
  erc20_asset_description erc20_code sponsor policy =
      erc20_bytes
      ++ (erc20_code
          ++ (sponsored_by_bytes ++ (sponsor ++ (policy_bytes ++ lib.encode_policy policy))))

  unfoldable pub is_erc20_asset_def_valid : AssetDefinition → Erc20Code → EthereumAddr → Bool
  is_erc20_asset_def_valid def erc20_code sponsor =
      lib.verify_foreign def.code (erc20_asset_description erc20_code sponsor def.policy_ref)

  abbrev pub State : Type 0
  State = CapeContractState lib.Frontier

  -- The state and the effects of an operation.
  abbrev pub Result : Type 0
  Result = Outcome CapeValidationError (State × List CapeModelEthEffect)

  unfoldable pub register : AssetDefinition → Erc20Code → EthereumAddr → State → Result
  register asset_def erc20_code sponsor_addr s = do
    guard (is_erc20_asset_def_valid asset_def erc20_code sponsor_addr)
        (invalid_erc20_def asset_def erc20_code sponsor_addr)
    guard (not (contains_key s.erc20_registrar asset_def)) (erc20_already_registered asset_def)
    ok (
      record s { erc20_registrar = insert asset_def (erc20_code, sponsor_addr) s.erc20_registrar },
      check_erc20_exists erc20_code ∷ [],
    )

  unfoldable pub wrap : Erc20Code → EthereumAddr → RecordOpening → State → Result
  wrap erc20_code src_addr ro s = do
    entry ← ok_or (lookup ro.asset_def s.erc20_registrar) (unregistered_erc20 ro.asset_def)
    guard (entry.0 == erc20_code) (incorrect_erc20 ro.asset_def erc20_code entry.0)
    ok (
      record s {
        erc20_deposits = s.erc20_deposits ++ (lib.record_commitment ro ∷ []);
        erc20_deposited =
            insert erc20_code (deposited_plus (lookup erc20_code s.erc20_deposited) ro.amount)
              s.erc20_deposited;
      },
      receive_erc20 erc20_code ro.amount src_addr
          ∷ emit (CapeModelEvent.erc20_deposited erc20_code src_addr ro)
          ∷ [],
    )
