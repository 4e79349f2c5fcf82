-- ===== src/Bindings/Samples.antt =====
-- A small instance of the types that contracts/rust/src/types.rs converts: a field of two elements,
-- with words of 32 bytes.
use cape.Base.{
  ℕ, zero, suc, ◌+◌, ◌-◌, ◌*◌, ◌/◌, ◌%◌, ◌^◌, ◌<◌, ◌≡◌, refl, ap, subst, Bool, true, false, Option,
  none, some, List, [], ◌∷◌, ◌++◌, arith, ◌==◌, nat_eq, ltb, length, take, get_elem?, All,
}
use cape.Cap.{Bytes}
use cape.Bindings.Jf.{PrimeField, Canonical, Jf}
use cape.Bindings.Fields.{field_to_u256, reveal_bits}
use cape.Bindings.Plonk.{g1_points}
use cape.Bindings.Laws.{IsWord, IsPoint, FieldLaws, CanonicalLaws, BindingLaws, Finite}

abbrev word_number : Bytes → ℕ
word_number [] = 0
word_number (b ∷ bytes) = b + 256 * word_number bytes

abbrev digits : ℕ → ℕ → Bytes
digits zero v = []
digits (suc n) v = (v % 256) ∷ digits n (v / 256)

digits-word_number :
    (bytes : Bytes) → All (λ b. b < 256) bytes → digits (length bytes) (word_number bytes) ≡ bytes
digits-word_number [] small = refl
digits-word_number (b ∷ bytes) (here, later) =
    let low : (b + 256 * word_number bytes) % 256 ≡ b = omega (arith, here) in
    let high : (b + 256 * word_number bytes) / 256 ≡ word_number bytes = omega (arith, here) in
    rw (low, high, digits-word_number bytes later) refl

abbrev padding : Bytes
padding =
    0 ∷ 0 ∷ 0 ∷ 0 ∷ 0 ∷ 0 ∷ 0 ∷ 0 ∷ 0 ∷ 0 ∷ 0 ∷ 0 ∷ 0 ∷ 0 ∷ 0 ∷ 0 ∷ 0 ∷ 0 ∷ 0 ∷ 0 ∷ 0 ∷ 0 ∷ 0 ∷ 0
    ∷ 0 ∷ 0 ∷ 0 ∷ 0 ∷ 0 ∷ 0 ∷ 0 ∷ []

abbrev word : Bool → Bytes
word true = 1 ∷ padding
word false = 0 ∷ padding

abbrev read_word : Bytes → Option Bool
read_word [] = none
read_word (b ∷ bytes) = some (b == 1)

abbrev read_or_false : Bytes → Bool
read_or_false [] = false
read_or_false (b ∷ bytes) = b == 1

zeros : All (λ b. b < 256) padding
zeros = omega arith

word-IsWord : (v : Bool) → IsWord (word v)
word-IsWord true = (refl, (omega arith, zeros))
word-IsWord false = (refl, (omega arith, zeros))

abbrev field : PrimeField
field = record {
  Elem = Bool;
  to_bytes = word;
  serialize = word;
  from_le_bytes_mod_order = read_or_false;
}

abbrev one_word : Canonical
one_word = record { Elem = Bool; serialize = word; deserialize = read_word }

abbrev two_words : Canonical
two_words = record { Elem = Bool; serialize = λ v. word v ++ word true; deserialize = read_word }

abbrev ones : ℕ → List Bool
ones zero = []
ones (suc n) = true ∷ ones n

abbrev or_false : Option Bool → Bool
or_false none = false
or_false (some b) = b

abbrev second : List Bool → Option Bool
second fields = get_elem? fields 1

abbrev bit_of : ℕ → ℕ → Bool
bit_of w i = ((w / (2 ^ i)) % 2) == 1

abbrev pub small_jf : Jf
small_jf = record {
  from_little_endian = word_number;
  to_little_endian = digits 32;
  bit = bit_of;
  fr = field;
  fq = field;
  zero_x = false;
  zero_y = true;
  nullifier = one_word;
  record_commitment = one_word;
  node_value = one_word;
  asset_code = one_word;
  internal_asset_code = one_word;
  blind_factor = one_word;
  auditor_pub_key = two_words;
  cred_issuer_pub_key = two_words;
  freezer_pub_key = two_words;
  ver_key = two_words;
  EncKey = Bool;
  enc_key_bytes = word;
  enc_key_of = read_word;
  RevealMap = Bool;
  reveal_field = λ m. m;
  new_reveal_map = λ bits. or_false (get_elem? bits 12);
  Ciphertext = Bool;
  to_scalars = λ c. true ∷ c ∷ false ∷ [];
  from_scalars = second;
  Proof = Bool;
  proof_fields = λ p. true ∷ p ∷ ones 34;
  proof_of = second;
}

word_read : (v : Bool) → read_or_false (word v) ≡ v
word_read true = refl
word_read false = refl

read_first : (v : Bool) (more : Bytes) → read_word (word v ++ more) ≡ some v
read_first true more = refl
read_first false more = refl

read_word-word : (v : Bool) → read_word (word v) ≡ some v
read_word-word true = refl
read_word-word false = refl

field_laws : FieldLaws field
field_laws = record {
  bytes_word = word-IsWord;
  bytes_read = word_read;
  serialize_word = word-IsWord;
  serialize_read = word_read;
}

one_word_laws : CanonicalLaws one_word IsWord
one_word_laws = record { written = word-IsWord; read = read_word-word }

two_words_laws : CanonicalLaws two_words (IsPoint field)
two_words_laws = record { written = λ v. (v, true, refl); read = λ v. read_first v (word true) }

get_elem?-reveal_bits :
    (w start left i : ℕ) (b : Bool)
    → get_elem? (reveal_bits small_jf w start left) i ≡ some b
    → bit_of w (12 - (start + i)) ≡ b
unfolding reveal_bits
get_elem?-reveal_bits w start zero i b h = cc
get_elem?-reveal_bits w start (suc left) zero b h =
    let here : bit_of w (12 - start) ≡ b = cc in
    subst (λ n. bit_of w (12 - n) ≡ b) (omega arith) here
get_elem?-reveal_bits w start (suc left) (suc i) b h =
    subst (λ n. bit_of w (12 - n) ≡ b) (omega arith)
      (get_elem?-reveal_bits w (suc start) left i b h)

length-reveal_bits : (w start left : ℕ) → length (reveal_bits small_jf w start left) ≡ left
unfolding reveal_bits
length-reveal_bits w start zero = refl
length-reveal_bits w start (suc left) = ap suc (length-reveal_bits w (suc start) left)

map_bits :
    (m : Bool)
    → m ≡ small_jf.new_reveal_map (reveal_bits small_jf (field_to_u256 small_jf field m) 0 13)
unfolding reveal_bits field_to_u256
map_bits true = refl
map_bits false = refl

map_small : (m : Bool) → ltb (field_to_u256 small_jf field m) 8192 ≡ true
unfolding field_to_u256
map_small true = refl
map_small false = refl

on_curve : (p : Bool) → All Finite (g1_points small_jf (take 26 (small_jf.proof_fields p)))
unfolding g1_points field_to_u256
on_curve true = (
  refl,
  (
    refl,
    (refl, (refl, (refl, (refl, (refl, (refl, (refl, (refl, (refl, (refl, (refl, tt))))))))))),
  ),
)
on_curve false = (
  refl,
  (
    refl,
    (refl, (refl, (refl, (refl, (refl, (refl, (refl, (refl, (refl, (refl, (refl, tt))))))))))),
  ),
)

pub small_laws : BindingLaws small_jf
small_laws = record {
  word_law = λ bytes is_word.
      subst (λ n. digits n (word_number bytes) ≡ bytes) is_word.0
        (digits-word_number bytes is_word.1);
  fr_laws = field_laws;
  fq_laws = field_laws;
  nullifier_laws = one_word_laws;
  record_commitment_laws = one_word_laws;
  node_value_laws = one_word_laws;
  asset_code_laws = one_word_laws;
  internal_asset_code_laws = one_word_laws;
  blind_factor_laws = one_word_laws;
  auditor_laws = two_words_laws;
  cred_laws = two_words_laws;
  freezer_laws = two_words_laws;
  ver_key_laws = two_words_laws;
  enc_key_law = read_word-word;
  map_law = λ m.
      let w = field_to_u256 small_jf field m in
      (
        reveal_bits small_jf w 0 13,
        length-reveal_bits w 0 13,
        map_bits m,
        map_small m,
        λ i b h.
            subst (λ n. bit_of w (12 - n) ≡ b) (omega arith) (get_elem?-reveal_bits w 0 13 i b h),
      );
  scalars_law = λ c. (true, c, false ∷ [], refl);
  ciphertext_law = λ c. refl;
  length_law = λ p. refl;
  curve_law = on_curve;
  proof_law = λ p. refl;
}
