-- ===== src/Sync/Samples.antt =====
-- The laws of the small trees, and the calls at which the theorems about histories are run.
use cape.Base.{◌≡◌, refl, List, [], ◌∷◌, nat_eq, pair_eq, list_eq}
use cape.Cap.{TransactionNote, asset_definition_eq}
use cape.Model.Types.{CapeModelOperation}
use cape.Sync.Trees.{TreeLaws, note_outputs}
use cape.Samples.{cap_tree, eqs_lib, granted, txn}

pub sample_outputs_law :
    (note : TransactionNote) → cap_tree.output_commitments note ≡ note_outputs note
sample_outputs_law (TransactionNote.transfer t) = refl
sample_outputs_law (TransactionNote.mint m) = refl
sample_outputs_law (TransactionNote.freeze f) = refl

abbrev pub sample_laws : TreeLaws eqs_lib
sample_laws = record {
  builder_of = λ t. t;
  restored = λ t. t;
  from_law = λ t. refl;
  push_law = λ t rc. refl;
  into_law = λ t. refl;
  restore_law = λ t. refl;
  restored_law = λ t. refl;
  outputs_law = sample_outputs_law;
}

-- An asset is registered, five of its tokens are wrapped, and a block is committed.
abbrev pub calls : List (List CapeModelOperation)
calls =
    (CapeModelOperation.register_erc20 granted.asset_def (7 ∷ []) (8 ∷ []) ∷ [])
    ∷ (CapeModelOperation.wrap_erc20 (7 ∷ []) (6 ∷ []) granted ∷ [])
    ∷ (CapeModelOperation.submit_block (txn 1 ∷ []) ∷ [])
    ∷ []
