-- ===== src/Sync/Trees.antt =====
-- What the contract of contracts/rust/src/model.rs and the query service of eqs/src rely on when each
-- keeps the record tree in its own form: jf_cap's `MerkleTree`, its frontier and `FilledMTBuilder`.
use cape.Base.{◌≡◌, refl, ap, ◌∙◌, some, List, [], ◌∷◌}
use cape.Cap.{RecordCommitment, TransactionNote}
use cape.Eqs.Types.{EqsLib}
use cape.Eqs.Commit.{push_commitments}
use cape.Model.Block.{push_all}

-- The outputs of a note, of a mint the change and the minted record.
abbrev pub note_outputs : TransactionNote → List RecordCommitment
note_outputs (TransactionNote.transfer note) = note.output_commitments
note_outputs (TransactionNote.mint note) = note.chg_comm ∷ note.mint_comm ∷ []
note_outputs (TransactionNote.freeze note) = note.output_commitments

-- The builder, the tree that is restored and the tree itself grow alike.
pub record TreeLaws (lib : EqsLib) : Type 0 where
  pub builder_of : lib.Tree → lib.cap_lib.Builder
  pub restored : lib.Tree → lib.Tree
  pub from_law :
      (t : lib.Tree)
      → lib.cap_lib.from_frontier (lib.commitment t) (lib.frontier t) ≡ some (builder_of t)
  pub push_law :
      (t : lib.Tree) (rc : RecordCommitment)
      → lib.cap_lib.push (builder_of t) rc ≡ builder_of (lib.push_leaf t rc)
  pub into_law :
      (t : lib.Tree)
      → lib.cap_lib.into_frontier_and_commitment (builder_of t) ≡ (lib.frontier t, lib.commitment t)
  pub restore_law :
      (t : lib.Tree)
      → lib.restore_from_frontier (lib.commitment t) (lib.frontier t) ≡ some (restored t)
  pub restored_law : (t : lib.Tree) → builder_of (restored t) ≡ builder_of t
  pub outputs_law :
      (note : TransactionNote) → lib.cap_lib.output_commitments note ≡ note_outputs note

module _ (lib : EqsLib) (laws : TreeLaws lib) where
  -- Pushing a list of records makes the same tree either way.
  pub push_all-push_commitments :
      (t : lib.Tree) (rcs : List RecordCommitment)
      → push_all lib.cap_lib (laws.builder_of t) rcs
        ≡ laws.builder_of (push_commitments lib t rcs).0
  unfolding push_all push_commitments
  push_all-push_commitments t [] = refl
  push_all-push_commitments t (rc ∷ rcs) =
      ap (λ b. push_all lib.cap_lib b rcs) (laws.push_law t rc)
      ∙ push_all-push_commitments (lib.push_leaf t rc) rcs
