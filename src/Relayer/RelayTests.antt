-- ===== src/Relayer/RelayTests.antt =====
-- A mint that a relayer sends at its second attempt, and the theorem at it.
use cape.Base.{
  sym, ℕ, zero, suc, ◌≡◌, refl, arith, Option, none, some, List, [], ◌∷◌, ◌++◌, map, Outcome, ok,
  err, ◌==◌, nat_eq, list_eq, if◌then◌else◌, false, true,
}
use cape.Cap.{Bytes, TransactionNote}
use cape.Model.Types.{CapeModelTxn, cap_txn}
use cape.Samples.{cap_tree}
use cape.Blocks.{
  CapeBlock, from_cape_transactions, generate, sort_notes, sort_note, notes_of, burn_notes_of,
}
use cape.Blocks.Sending.{
  TxHash, BlockMemos, Transaction, Contract, Node, FetchError, fetch_cape_memos,
  submit_cape_block_with_memos, gas_to_set,
}
use cape.Relayer.{
  Message, nonce_too_low, Nodes, WebState, mined, relay, submit_transactions, submit_block,
  submit_from, attempts, classify, empty_block_round, submit_empty_block, logged, block_rejected,
  must_be_non_empty,
}
use cape.Relayer.Relaying.{Submitted, relay-fetched}

-- A signature follows a zero, and its memos come after it.
abbrev encode : BlockMemos → Bytes
encode [] = []
encode ((memos, sig) ∷ rest) = 0 ∷ sig ∷ (map suc memos ++ encode rest)

-- The memos at the front, and what follows them.
abbrev decode : Bytes → List ℕ × BlockMemos
decode [] = ([], [])
decode (suc memo ∷ bytes) = let r = decode bytes in (memo ∷ r.0, r.1)
decode (zero ∷ []) = ([], [])
decode (zero ∷ sig ∷ bytes) = let r = decode bytes in ([], (r.0, sig) ∷ r.1)

decode-memos :
    (memos : List ℕ) (bytes : Bytes) (rest : BlockMemos)
    → decode bytes ≡ ([], rest)
    → decode (map suc memos ++ bytes) ≡ (memos, rest)
decode-memos [] bytes rest h = h
decode-memos (memo ∷ memos) bytes rest h = rw (decode-memos memos bytes rest h) refl

decode-encode : (memos : BlockMemos) → decode (encode memos) ≡ ([], memos)
decode-encode [] = refl
decode-encode ((memos, sig) ∷ rest) =
    rw (decode-memos memos (encode rest) rest (decode-encode rest)) refl

abbrev silent : Message
silent word = false

abbrev contract : Contract Message
contract = record {
  serialize = encode;
  deserialize = λ bytes. some (decode bytes).1;
  deserialize_serialize = λ memos. rw (decode-encode memos) refl;
  encode_call = λ block memos. some memos;
  decode_call = λ input. some input;
  decode_encode_call = λ block memos input h. sym h;
  no_block = silent;
  gas_missing = silent;
}

abbrev web : WebState
web = record { contract = contract; nonce_count_rule = mined; extra_gas = 50; max_retries = 2 }

abbrev sent_memos : BlockMemos
sent_memos = (4 ∷ 5 ∷ [], 1) ∷ []

abbrev too_low : Message
too_low nonce_too_low = true
too_low _ = false

abbrev empty : Message
empty must_be_non_empty = true
empty _ = false

abbrev node : Message → TxHash → Node Message
node refusal hash = record {
  fill_transaction = λ number input. ok (3, some 980);
  get_block = ok (some 1000);
  send_transaction = λ tx. if tx.input == encode sent_memos then ok hash else err refusal;
}

abbrev busy : Node Message
busy = record {
  fill_transaction = λ number input. ok (3, some 980);
  get_block = ok (some 1000);
  send_transaction = λ tx. err too_low;
}

abbrev nodes : Nodes
nodes zero = busy
nodes (suc n) = node empty 77

abbrev get_transaction : TxHash → Outcome FetchError (Option Bytes)
get_transaction hash = ok (if hash == 77 then some (encode sent_memos) else none)

given_back :
    (n : ℕ) (tx : Transaction) (taken : TxHash)
    → (nodes n).send_transaction tx ≡ ok taken
    → get_transaction taken ≡ ok (some tx.input)
given_back zero tx taken h = ground arith
given_back (suc n) tx taken h = ground arith

abbrev mint : CapeModelTxn
mint = cap_txn (
    TransactionNote.mint (record {
      input_nullifier = 7;
      chg_comm = 1;
      mint_comm = 2;
      mint_asset_def = record { code = 1; policy_ref = 0 };
      merkle_root = 0;
      proof = 0;
    }))

-- A round in which the queue has become empty.
raced : empty_block_round cap_tree nodes web 5 false ≡ some (ok block_rejected)
unfolding empty_block_round submit_empty_block submit_transactions submit_block submit_from attempts
    submit_cape_block_with_memos gas_to_set classify logged from_cape_transactions generate
    sort_notes notes_of burn_notes_of
raced = refl

relay-fetched_example :
    (fetch_cape_memos contract get_transaction 77 ≡ ok (some sent_memos))
    × (b : CapeBlock) × (from_cape_transactions cap_tree (mint ∷ []) 5 ≡ ok b)
    × Submitted nodes web (record { block = b; memos = sent_memos }) 77
unfolding relay submit_transactions submit_block submit_from attempts submit_cape_block_with_memos
    gas_to_set classify from_cape_transactions generate sort_notes sort_note notes_of burn_notes_of
relay-fetched_example =
    relay-fetched cap_tree nodes web 5 mint (4 ∷ 5 ∷ []) 1 77 get_transaction given_back refl
