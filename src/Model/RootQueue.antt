-- ===== src/Model/RootQueue.antt =====
-- The queue of past roots of contracts/rust/src/model.rs as the first of a list.
use cape.Base.{
  ℕ, zero, suc, ◌≤◌, ◌≡◌, refl, sym, ap, List, [], ◌∷◌, ◌++◌, arith, leb, length, take, drop_last,
  Bool-cases, inl, inr, leb→le,
}
use cape.Cap.{NodeValue}
use cape.Model.Types.{cape_num_roots}
use cape.Model.Block.{push_root}

module _ {A : Type 0} where
  drop_last-eq-take : (n : ℕ) (xs : List A) → length xs ≡ suc n → drop_last xs ≡ take n xs
  drop_last-eq-take n [] h = absurd (omega arith)
  drop_last-eq-take zero (x ∷ []) h = refl
  drop_last-eq-take (suc n) (x ∷ []) h = absurd (omega arith)
  drop_last-eq-take zero (x ∷ y ∷ xs) h = absurd (omega arith)
  drop_last-eq-take (suc n) (x ∷ y ∷ xs) h = ap (◌∷◌ x) (drop_last-eq-take n (y ∷ xs) (omega arith))

  pub take_all : (n : ℕ) (xs : List A) → length xs ≤ n → take n xs ≡ xs
  take_all zero [] h = refl
  take_all zero (x ∷ xs) h = absurd (omega arith)
  take_all (suc n) [] h = refl
  take_all (suc n) (x ∷ xs) h = ap (◌∷◌ x) (take_all n xs (omega arith))

  take-take : (m n : ℕ) (xs : List A) → m ≤ n → take m (take n xs) ≡ take m xs
  take-take zero n xs h = refl
  take-take (suc m) zero xs h = absurd (omega arith)
  take-take (suc m) (suc n) [] h = refl
  take-take (suc m) (suc n) (x ∷ xs) h = ap (◌∷◌ x) (take-take m n xs (omega arith))

  pub take-append-take :
      (m n : ℕ) (xs ys : List A) → m ≤ n → take m (xs ++ take n ys) ≡ take m (xs ++ ys)
  take-append-take m n [] ys h = take-take m n ys h
  take-append-take zero n (x ∷ xs) ys h = refl
  take-append-take (suc m) n (x ∷ xs) ys h = ap (◌∷◌ x) (take-append-take m n xs ys (omega arith))

-- The queue takes a root at its front and lets go of the oldest beyond its capacity.
pub push_root-eq-take :
    (root : NodeValue) (past : List NodeValue)
    → length past ≤ cape_num_roots
    → push_root root past ≡ take cape_num_roots (root ∷ past)
unfolding push_root
push_root-eq-take root past h = elim (Bool-cases (leb cape_num_roots (length past))) [
  | inl full ↦ rw full (
      ap (◌∷◌ root)
        (drop_last-eq-take 39 past (omega (arith, leb→le cape_num_roots (length past) full))))
  | inr room ↦ rw room (ap (◌∷◌ root) (sym (take_all 39 past (ground arith))))
]
