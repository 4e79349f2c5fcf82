-- ===== src/Bindings/Words.antt =====
-- Words, points, policies, definitions and openings of contracts/rust/src/types.rs are read back.
use cape.Base.{
  ℕ, suc, ◌+◌, ◌-◌, ◌≡◌, inl, inr, refl, sym, ap, subst, ◌∙◌, Bool, Option, some, List, [], ◌∷◌,
  ◌++◌, arith, nat_eq, length, length-append, take, drop, get_elem?, map,
}
use cape.Bindings.Jf.{
  PrimeField, Canonical, Jf, AssetPolicy, AssetDefinition, Assets, RecordOpening,
}
use cape.Bindings.Fields.{
  convert_all, field_to_u256, u256_to_field, u256_of, of_u256, point_of, of_point, policy_to_sol,
  reveal_bits, reveal_map_of, policy_from_sol, definition_to_sol, definition_from_sol,
  opening_to_sol, opening_from_sol,
}
use cape.Bindings.Laws.{IsWord, IsPoint, FieldLaws, CanonicalLaws, BindingLaws, Made}

take-append : {A : Type 0} (xs ys : List A) → take (length xs) (xs ++ ys) ≡ xs
take-append [] ys = refl
take-append (x ∷ xs) ys = ap (◌∷◌ x) (take-append xs ys)

drop-append : {A : Type 0} (xs ys : List A) → drop (length xs) (xs ++ ys) ≡ ys
drop-append [] ys = refl
drop-append (x ∷ xs) ys = drop-append xs ys

-- A conversion into words and back, of a list.
pub convert_all-map :
    {A B : Type 0} (to : A → B) (from : B → Option A)
    → ((a : A) → from (to a) ≡ some a)
    → (as_list : List A) → convert_all from (map to as_list) ≡ some as_list
unfolding convert_all
convert_all-map to from each [] = refl
convert_all-map to from each (a ∷ rest) = rw (each a, convert_all-map to from each rest) refl

pub map-map :
    {A B : Type 0} (to : A → B) (from : B → A)
    → ((a : A) → from (to a) ≡ a)
    → (as_list : List A) → map from (map to as_list) ≡ as_list
map-map to from each [] = refl
map-map to from each (a ∷ rest) = rw (each a, map-map to from each rest) refl

module _ (jf : Jf) (laws : BindingLaws jf) where
  pub u256_to_field-field_to_u256 :
      (field : PrimeField) (field_laws : FieldLaws field) (f : field.Elem)
      → u256_to_field jf field (field_to_u256 jf field f) ≡ f
  unfolding u256_to_field field_to_u256
  u256_to_field-field_to_u256 field field_laws f =
      ap field.from_le_bytes_mod_order (laws.word_law (field.to_bytes f) (field_laws.bytes_word f))
      ∙ field_laws.bytes_read f

  pub of_u256-u256_of :
      (type : Canonical) (type_laws : CanonicalLaws type IsWord) (v : type.Elem)
      → of_u256 jf type (u256_of jf type v) ≡ some v
  unfolding of_u256 u256_of
  of_u256-u256_of type type_laws v =
      ap type.deserialize (laws.word_law (type.serialize v) (type_laws.written v))
      ∙ type_laws.read v

  read_serialized :
      (f : jf.fr.Elem) → u256_to_field jf jf.fr (jf.from_little_endian (jf.fr.serialize f)) ≡ f
  unfolding u256_to_field
  read_serialized f =
      ap jf.fr.from_le_bytes_mod_order
        (laws.word_law (jf.fr.serialize f) (laws.fr_laws.serialize_word f))
      ∙ laws.fr_laws.serialize_read f

  pub of_point-point_of :
      (type : Canonical) (type_laws : CanonicalLaws type (IsPoint jf.fr)) (v : type.Elem)
      → of_point jf type (point_of jf type v) ≡ some v
  unfolding of_point point_of
  of_point-point_of type type_laws v =
      let (x, y, e) = type_laws.written v in
      let (lx, all_x) = laws.fr_laws.serialize_word x in
      let (ly, all_y) = laws.fr_laws.serialize_word y in
      let first : take 32 (type.serialize v) ≡ jf.fr.serialize x = rw e (
        subst (λ n. take n (jf.fr.serialize x ++ jf.fr.serialize y) ≡ jf.fr.serialize x) lx
          (take-append (jf.fr.serialize x) (jf.fr.serialize y))) in
      let second : drop 32 (type.serialize v) ≡ jf.fr.serialize y = rw e (
        subst (λ n. drop n (jf.fr.serialize x ++ jf.fr.serialize y) ≡ jf.fr.serialize y) lx
          (drop-append (jf.fr.serialize x) (jf.fr.serialize y))) in
      let size : length (jf.fr.serialize x ++ jf.fr.serialize y) ≡ 64 =
        omega (arith, length-append (jf.fr.serialize x) (jf.fr.serialize y), lx, ly) in
      rw (first, second, read_serialized x, read_serialized y, size)
        (ap type.deserialize (sym e) ∙ type_laws.read v)

  -- The bits of a word that a list gives from a place on.
  reveal_bits-list :
      (w start : ℕ) (bits : List Bool)
      → ((i : ℕ) (b : Bool) → get_elem? bits i ≡ some b → jf.bit w (12 - (start + i)) ≡ b)
      → reveal_bits jf w start (length bits) ≡ bits
  unfolding reveal_bits
  reveal_bits-list w start [] h = refl
  reveal_bits-list w start (b ∷ bits) h =
      let here : jf.bit w (12 - start) ≡ b =
        subst (λ n. jf.bit w (12 - n) ≡ b) (omega arith) (h 0 b refl) in
      let rest =
        reveal_bits-list w (suc start) bits
          (λ i c k. subst (λ n. jf.bit w (12 - n) ≡ c) (omega arith) (h (suc i) c k)) in
      rw (here, rest) refl

  reveal_map_of-field :
      (m : jf.RevealMap) → reveal_map_of jf (field_to_u256 jf jf.fr (jf.reveal_field m)) ≡ some m
  unfolding reveal_map_of
  reveal_map_of-field m =
      let (bits, size, made, small, at_bits) = laws.map_law m in
      let w = field_to_u256 jf jf.fr (jf.reveal_field m) in
      let read : reveal_bits jf w 0 13 ≡ bits =
        subst (λ n. reveal_bits jf w 0 n ≡ bits) size
          (reveal_bits-list w 0 bits
            (λ i b k. subst (λ n. jf.bit w (12 - n) ≡ b) (omega arith) (at_bits i b k))) in
      rw (small, read) (ap some (sym made))

  policy_from_sol-policy_to_sol :
      (policy : AssetPolicy jf) → policy_from_sol jf (policy_to_sol jf policy) ≡ some policy
  unfolding policy_from_sol policy_to_sol
  policy_from_sol-policy_to_sol policy =
      rw
        (
          of_point-point_of jf.auditor_pub_key laws.auditor_laws policy.auditor_pk,
          of_point-point_of jf.cred_issuer_pub_key laws.cred_laws policy.cred_pk,
          of_point-point_of jf.freezer_pub_key laws.freezer_laws policy.freezer_pk,
          reveal_map_of-field policy.reveal_map,
        )
        refl

  pub definition_from_sol-definition_to_sol :
      (assets : Assets jf) (def : AssetDefinition jf)
      → Made jf assets def
      → definition_from_sol jf assets (definition_to_sol jf def) ≡ some def
  unfolding definition_from_sol definition_to_sol
  definition_from_sol-definition_to_sol assets def (inl (native, e)) =
      rw (of_u256-u256_of jf.asset_code laws.asset_code_laws def.code, native) (ap some (sym e))
  definition_from_sol-definition_to_sol assets def (inr (other, made)) =
      rw
        (
          of_u256-u256_of jf.asset_code laws.asset_code_laws def.code,
          other,
          policy_from_sol-policy_to_sol def.policy,
        )
        made

  pub opening_from_sol-opening_to_sol :
      (assets : Assets jf) (ro : RecordOpening jf)
      → Made jf assets ro.asset_def
      → opening_from_sol jf assets (opening_to_sol jf ro) ≡ some ro
  unfolding opening_from_sol opening_to_sol
  opening_from_sol-opening_to_sol assets ro made =
      rw
        (
          definition_from_sol-definition_to_sol assets ro.asset_def made,
          of_point-point_of jf.ver_key laws.ver_key_laws ro.pub_key.address,
          laws.enc_key_law ro.pub_key.enc_key,
          of_u256-u256_of jf.blind_factor laws.blind_factor_laws ro.blind,
        )
        refl
