-- ===== src/Mock/Tracking.antt =====
-- What it is for the network of wallet/src/mocks.rs to have the record tree of its contract, and the
-- event of a block.
use cape.Base.{
  ◌+◌, ◌%◌, ◌≡◌, sym, ap, subst, ◌∙◌, some, List, ◌++◌, map, arith, ok, >>=-eq-ok, All, nat_eq,
}
use cape.Cap.{asset_definition_eq, RecordCommitment, u64_mod}
use cape.Model.Types.{CapeModelTxn, CapeModelEvent}
use cape.Model.Assets.{State}
use cape.Model.Block.{Checked, commit_block, push_all}
use cape.Model.Rounds.{AllAdmissible, all_records}
use cape.Model.Acceptance.{block_result}
use cape.Ledger.{transaction}
use cape.Eqs.Types.{EqsLib, commit_event}
use cape.Eqs.Commit.{push_commitments, all_output_commitments}
use cape.Sync.Trees.{TreeLaws, push_all-push_commitments}
use cape.Sync.Outputs.{AllAdmissible-outputs, all_output_commitments-append}
use cape.Mock.Network.{
  MockCapeNetwork, generate_event, take_deposits, add_transactions, post_all, handle_event,
}
use cape.Mock.Ledgers.{Keyed, take_deposits_lem, add_transactions_lem, post_all-Keeps}

module _ (lib : EqsLib) where
  -- The network's records are those of a state of the contract, and its pending deposits are filed under
  -- their commitments.
  pub record Tracks (s : State lib.cap_lib) (net : MockCapeNetwork lib) : Type 0 where
    pub commitment : s.ledger.record_merkle_commitment ≡ lib.commitment net.records
    pub frontier : s.ledger.record_merkle_frontier ≡ lib.frontier net.records
    pub keyed : All (Keyed lib) net.pending_erc20_deposits

  -- What a block's event leaves.
  pub handle_event-records :
      {E : Type 0} (txns : List CapeModelTxn) (wraps rcs : List RecordCommitment)
      (net net' : MockCapeNetwork lib)
      → handle_event lib {E = E} (CapeModelEvent.block_committed txns wraps) net ≡ ok net'
      → All (Keyed lib) net.pending_erc20_deposits
      → all_output_commitments lib (map transaction txns) ≡ ok rcs
      → (net'.records ≡ (push_commitments lib net.records (rcs ++ wraps)).0)
        × All (Keyed lib) net'.pending_erc20_deposits
  unfolding handle_event generate_event
  handle_event-records {E = E} txns wraps rcs net net' h keyed outputs =
      let (taken, took, h1) =
        >>=-eq-ok (take_deposits lib {E = E} wraps net.pending_erc20_deposits) _ h in
      let (wrapped, kept) =
        take_deposits_lem lib {E = E} wraps net.pending_erc20_deposits taken keyed took in
      let block = map transaction txns ++ taken.0 in
      let before : MockCapeNetwork lib = record net { pending_erc20_deposits = taken.1 } in
      let (added, adding, h2) = >>=-eq-ok (add_transactions lib {E = E} 0 block before) _ h1 in
      let announced : MockCapeNetwork lib =
        generate_event lib (commit_event block net.block_height ((net.block_height + 1) % u64_mod))
          added in
      let (posted, posting, h3) = >>=-eq-ok (post_all lib {E = E} 0 block announced) _ h2 in
      let (grown, same_pending) =
        add_transactions_lem lib {E = E} 0 block before added (rcs ++ wraps) adding (
          all_output_commitments-append lib (map transaction txns) taken.0 rcs wraps outputs
            wrapped) in
      let (records, pending) = post_all-Keeps lib {E = E} 0 block announced posted posting in
      let last : net' ≡ record posted { block_height = (posted.block_height + 1) % u64_mod } =
        ground arith in
      (
        ap (λ n. n.records) last ∙ (records ∙ grown),
        subst (All (Keyed lib))
            (sym (ap (λ n. n.pending_erc20_deposits) last ∙ (pending ∙ same_pending))) kept,
      )

  module _ (laws : TreeLaws lib) where
    pub committed-Tracks :
        {E : Type 0} (ts : List CapeModelTxn) (cs : List Checked) (builder : lib.cap_lib.Builder)
        (s : State lib.cap_lib) (net net' : MockCapeNetwork lib)
        → Tracks s net
        → AllAdmissible lib.cap_lib s ts cs
        → lib.cap_lib.from_frontier s.ledger.record_merkle_commitment
            s.ledger.record_merkle_frontier
          ≡ some builder
        → handle_event lib {E = E} (CapeModelEvent.block_committed ts s.erc20_deposits) net
          ≡ ok net'
        → Tracks (block_result lib.cap_lib s ts cs builder).0 net'
    unfolding commit_block
    committed-Tracks ts cs builder s net net' f adms restored h =
        let rcs : List RecordCommitment = all_records cs ++ s.erc20_deposits in
        let (records, kept) =
          handle_event-records ts s.erc20_deposits (all_records cs) net net' h f.keyed
            (AllAdmissible-outputs lib laws s ts cs adms) in
        let u : lib.Tree = (push_commitments lib net.records rcs).0 in
        let same_builder : builder ≡ laws.builder_of net.records =
          let from = laws.from_law net.records in
          let c = f.commitment in let g = f.frontier in ground arith in
        let into : lib.cap_lib.into_frontier_and_commitment (push_all lib.cap_lib builder rcs)
            ≡ (lib.frontier u, lib.commitment u) =
          ap lib.cap_lib.into_frontier_and_commitment (
            ap (λ b. push_all lib.cap_lib b rcs) same_builder
            ∙ push_all-push_commitments lib laws net.records rcs)
          ∙ laws.into_law u in
        record {
          commitment = ap (λ x. x.1) into ∙ ap lib.commitment (sym records);
          frontier = ap (λ x. x.0) into ∙ ap lib.frontier (sym records);
          keyed = kept;
        }

    -- What leaves the ledger as it is.
    pub Tracks-cong :
        (s t : State lib.cap_lib) (net : MockCapeNetwork lib)
        → t.ledger.record_merkle_commitment ≡ s.ledger.record_merkle_commitment
        → t.ledger.record_merkle_frontier ≡ s.ledger.record_merkle_frontier
        → Tracks s net
        → Tracks t net
    Tracks-cong s t net c g f = record {
      commitment = c ∙ f.commitment;
      frontier = g ∙ f.frontier;
      keyed = f.keyed;
    }
