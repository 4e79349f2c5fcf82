-- ===== src/Model/State.antt =====
-- `CapeLedgerState`, `CapeContractState` and `CapeContractState::new` of
-- contracts/rust/src/model.rs.
use cape.Base.{ℕ, List, []}
use cape.Base.Map.{Map}
use cape.Cap.{
  Nullifier, RecordCommitment, NodeValue, AssetDefinition, MerkleCommitment, VerifierKeySet,
}
use cape.Model.Types.{EthereumAddr, Erc20Code}

-- The parameter is the type of frontiers.
pub record CapeLedgerState (F : Type 0) : Type 0 where
  pub state_number : ℕ
  pub record_merkle_commitment : MerkleCommitment
  pub record_merkle_frontier : F
  pub past_record_merkle_roots : List NodeValue

pub record CapeContractState (F : Type 0) : Type 0 where
  pub ledger : CapeLedgerState F
  pub verif_crs : VerifierKeySet
  pub nullifiers : List Nullifier
  pub erc20_registrar : Map AssetDefinition (Erc20Code × EthereumAddr)
  pub erc20_deposited : Map Erc20Code ℕ
  pub erc20_deposits : List RecordCommitment

-- The tree that `new` is given enters by its commitment and its frontier.
unfoldable pub init : {F : Type 0} → VerifierKeySet → MerkleCommitment → F → CapeContractState F
init verif_crs commitment frontier = record {
  ledger = record {
    state_number = 0;
    record_merkle_commitment = commitment;
    record_merkle_frontier = frontier;
    past_record_merkle_roots = [];
  };
  verif_crs = verif_crs;
  nullifiers = [];
  erc20_registrar = [];
  erc20_deposited = [];
  erc20_deposits = [];
}
