-- ===== src/Model/Notes.antt =====
-- What contracts/rust/src/model.rs reads off a transaction: `nullifiers`, `commitments` and
-- `extract_burn_dst`.
use cape.Base.{
  Option, none, some, List, [], ◌∷◌, ◌==◌, nat_eq, list_eq, length, take, drop, remove,
  if◌then◌else◌,
}
use cape.Cap.{Bytes, Nullifier, RecordCommitment, TransferNote, TransactionNote, CapLib}
use cape.Model.Types.{EthereumAddr, CapeModelTxn, cap_txn, burn}

-- `b"EsSCAPE burn"`
abbrev pub cape_burn_magic_bytes : Bytes
cape_burn_magic_bytes =
    b'E' ∷ b's' ∷ b'S' ∷ b'C' ∷ b'A' ∷ b'P' ∷ b'E' ∷ b' ' ∷ b'b' ∷ b'u' ∷ b'r' ∷ b'n' ∷ []

unfoldable pub nullifiers : CapeModelTxn → List Nullifier
nullifiers (burn xfr ro) = xfr.inputs_nullifiers
nullifiers (cap_txn (TransactionNote.transfer xfr)) = xfr.inputs_nullifiers
nullifiers (cap_txn (TransactionNote.mint note)) = note.input_nullifier ∷ []
nullifiers (cap_txn (TransactionNote.freeze note)) = note.input_nullifiers

-- `none` is the panic of `ret.remove(1)`.
unfoldable pub commitments : CapLib → CapeModelTxn → Option (List RecordCommitment)
commitments lib (burn xfr ro) = remove xfr.output_commitments 1
commitments lib (cap_txn note) = some (lib.output_commitments note)

-- `none` is an invalid field, `some none` no burn, `some (some addr)` a burn that sends to `addr`.
unfoldable pub extract_burn_dst : TransferNote → Option (Option EthereumAddr)
extract_burn_dst xfr =
    let field_data = xfr.extra_proof_bound_data in
    if length field_data == 0
    then some none
    else (if length field_data == 32
        then (if take 12 field_data == cape_burn_magic_bytes
            then some (some (take 20 (drop 12 field_data)))
            else none)
        else none)
