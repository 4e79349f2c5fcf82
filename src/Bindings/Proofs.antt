-- ===== src/Bindings/Proofs.antt =====
-- Proofs and audit memos of contracts/rust/src/types.rs are read back.
use cape.Base.{
  ℕ, zero, suc, ◌+◌, ◌≡◌, refl, sym, ap, subst, ◌∙◌, none, some, List, [], ◌∷◌, ◌++◌, arith, ◌==◌,
  nat_eq, if◌then◌else◌, length, length-take, length-drop, take, drop, map, All,
}
use cape.Bindings.Jf.{Jf}
use cape.Bindings.Sol.{G1Point, PlonkProof, SolAuditMemo}
use cape.Bindings.Fields.{field_to_u256, u256_to_field}
use cape.Bindings.Plonk.{
  plonk_proof, points_of, evals_of, g1_points, proof_to_sol, g1_point_to_fields, concat_points,
  proof_from_sol, memo_of_scalars, memo_to_sol, memo_from_sol,
}
use cape.Bindings.Laws.{BindingLaws, Finite}
use cape.Bindings.Words.{u256_to_field-field_to_u256, map-map}

take-drop : {A : Type 0} (n : ℕ) (xs : List A) → take n xs ++ drop n xs ≡ xs
take-drop zero xs = refl
take-drop (suc n) [] = refl
take-drop (suc n) (x ∷ xs) = ap (◌∷◌ x) (take-drop n xs)

uncons :
    {A : Type 0} (n : ℕ) (xs : List A)
    → length xs ≡ suc n
    → (x : A) × (ys : List A) × (xs ≡ x ∷ ys) × (length ys ≡ n)
uncons n [] h = absurd (omega (arith, h))
uncons n (x ∷ ys) h = (x, ys, refl, omega (arith, h))

uncons_last : {A : Type 0} (xs : List A) → length xs ≡ 0 → xs ≡ []
uncons_last [] h = refl
uncons_last (x ∷ xs) h = absurd (omega (arith, h))

-- A proof of the points and evaluations that are written out.
assembled :
    (ps : List G1Point) (es : List ℕ) (p0 p1 p2 p3 p4 p5 p6 p7 p8 p9 p10 p11 p12 : G1Point)
    (e0 e1 e2 e3 e4 e5 e6 e7 e8 e9 : ℕ)
    → ps ≡ p0 ∷ p1 ∷ p2 ∷ p3 ∷ p4 ∷ p5 ∷ p6 ∷ p7 ∷ p8 ∷ p9 ∷ p10 ∷ p11 ∷ p12 ∷ []
    → es ≡ e0 ∷ e1 ∷ e2 ∷ e3 ∷ e4 ∷ e5 ∷ e6 ∷ e7 ∷ e8 ∷ e9 ∷ []
    → (pf : PlonkProof) × (plonk_proof ps es ≡ some pf) × (points_of pf ≡ ps) × (evals_of pf ≡ es)
unfolding plonk_proof
assembled ps es p0 p1 p2 p3 p4 p5 p6 p7 p8 p9 p10 p11 p12 e0 e1 e2 e3 e4 e5 e6 e7 e8 e9 all_ps
      all_es =
    (
      record {
        wire_0 = p0;
        wire_1 = p1;
        wire_2 = p2;
        wire_3 = p3;
        wire_4 = p4;
        prod_perm = p10;
        split_0 = p5;
        split_1 = p6;
        split_2 = p7;
        split_3 = p8;
        split_4 = p9;
        zeta = p11;
        zeta_omega = p12;
        wire_eval_0 = e0;
        wire_eval_1 = e1;
        wire_eval_2 = e2;
        wire_eval_3 = e3;
        wire_eval_4 = e4;
        sigma_eval_0 = e5;
        sigma_eval_1 = e6;
        sigma_eval_2 = e7;
        sigma_eval_3 = e8;
        prod_perm_zeta_omega_eval = e9;
      },
      rw (all_ps, all_es) refl,
      sym all_ps,
      sym all_es,
    )

-- 13 points and 10 evaluations make a proof of just these.
plonk_proof-points_of :
    (ps : List G1Point) (es : List ℕ)
    → length ps ≡ 13
    → length es ≡ 10
    → (pf : PlonkProof) × (plonk_proof ps es ≡ some pf) × (points_of pf ≡ ps) × (evals_of pf ≡ es)
plonk_proof-points_of ps es h k =
    let (p0, pr0, px0, pl0) = uncons 12 ps h in
    let (p1, pr1, px1, pl1) = uncons 11 pr0 pl0 in
    let (p2, pr2, px2, pl2) = uncons 10 pr1 pl1 in
    let (p3, pr3, px3, pl3) = uncons 9 pr2 pl2 in
    let (p4, pr4, px4, pl4) = uncons 8 pr3 pl3 in
    let (p5, pr5, px5, pl5) = uncons 7 pr4 pl4 in
    let (p6, pr6, px6, pl6) = uncons 6 pr5 pl5 in
    let (p7, pr7, px7, pl7) = uncons 5 pr6 pl6 in
    let (p8, pr8, px8, pl8) = uncons 4 pr7 pl7 in
    let (p9, pr9, px9, pl9) = uncons 3 pr8 pl8 in
    let (p10, pr10, px10, pl10) = uncons 2 pr9 pl9 in
    let (p11, pr11, px11, pl11) = uncons 1 pr10 pl10 in
    let (p12, pr12, px12, pl12) = uncons 0 pr11 pl11 in
    let (e0, er0, ex0, el0) = uncons 9 es k in
    let (e1, er1, ex1, el1) = uncons 8 er0 el0 in
    let (e2, er2, ex2, el2) = uncons 7 er1 el1 in
    let (e3, er3, ex3, el3) = uncons 6 er2 el2 in
    let (e4, er4, ex4, el4) = uncons 5 er3 el3 in
    let (e5, er5, ex5, el5) = uncons 4 er4 el4 in
    let (e6, er6, ex6, el6) = uncons 3 er5 el5 in
    let (e7, er7, ex7, el7) = uncons 2 er6 el6 in
    let (e8, er8, ex8, el8) = uncons 1 er7 el7 in
    let (e9, er9, ex9, el9) = uncons 0 er8 el8 in
    assembled ps es p0 p1 p2 p3 p4 p5 p6 p7 p8 p9 p10 p11 p12 e0 e1 e2 e3 e4 e5 e6 e7 e8 e9
      (px0
        ∙ ap (◌∷◌ p0) (
            px1
            ∙ ap (◌∷◌ p1) (
                px2
                ∙ ap (◌∷◌ p2) (
                    px3
                    ∙ ap (◌∷◌ p3) (
                        px4
                        ∙ ap (◌∷◌ p4) (
                            px5
                            ∙ ap (◌∷◌ p5) (
                                px6
                                ∙ ap (◌∷◌ p6) (
                                    px7
                                    ∙ ap (◌∷◌ p7) (
                                        px8
                                        ∙ ap (◌∷◌ p8) (
                                            px9
                                            ∙ ap (◌∷◌ p9) (
                                                px10
                                                ∙ ap (◌∷◌ p10) (
                                                    px11
                                                    ∙ ap (◌∷◌ p11) (
                                                        px12
                                                        ∙ ap (◌∷◌ p12)
                                                            (uncons_last pr12 pl12))))))))))))))
      (ex0
        ∙ ap (◌∷◌ e0) (
            ex1
            ∙ ap (◌∷◌ e1) (
                ex2
                ∙ ap (◌∷◌ e2) (
                    ex3
                    ∙ ap (◌∷◌ e3) (
                        ex4
                        ∙ ap (◌∷◌ e4) (
                            ex5
                            ∙ ap (◌∷◌ e5) (
                                ex6
                                ∙ ap (◌∷◌ e6) (
                                    ex7
                                    ∙ ap (◌∷◌ e7) (
                                        ex8
                                        ∙ ap (◌∷◌ e8)
                                            (ex9 ∙ ap (◌∷◌ e9) (uncons_last er9 el9)))))))))))

module _ (jf : Jf) (laws : BindingLaws jf) where
  even_length :
      (n : ℕ) (fields : List jf.fq.Elem) → length fields ≡ n + n → length (g1_points jf fields) ≡ n
  unfolding g1_points
  even_length n [] h = omega (arith, h)
  even_length n (x ∷ []) h = omega (arith, h)
  even_length zero (x ∷ y ∷ fields) h = omega (arith, h)
  even_length (suc n) (x ∷ y ∷ fields) h = ap suc (even_length n fields (omega (arith, h)))

  concat_points-g1_points :
      (n : ℕ) (fields : List jf.fq.Elem)
      → length fields ≡ n + n
      → All Finite (g1_points jf fields)
      → concat_points jf (g1_points jf fields) ≡ fields
  unfolding g1_points concat_points g1_point_to_fields
  concat_points-g1_points n [] h finite = refl
  concat_points-g1_points n (x ∷ []) h finite = absurd (omega (arith, h))
  concat_points-g1_points zero (x ∷ y ∷ fields) h finite = absurd (omega (arith, h))
  concat_points-g1_points (suc n) (x ∷ y ∷ fields) h (here, later) =
      rw
        (
          here,
          u256_to_field-field_to_u256 jf laws jf.fq laws.fq_laws x,
          u256_to_field-field_to_u256 jf laws jf.fq laws.fq_laws y,
          concat_points-g1_points n fields (omega (arith, h)) later,
        )
        refl

  length-map :
      {A B : Type 0} (f : A → B) (as_list : List A) → length (map f as_list) ≡ length as_list
  length-map f [] = refl
  length-map f (a ∷ rest) = ap suc (length-map f rest)

  pub proof_from_sol-proof_to_sol :
      (proof : jf.Proof)
      → (pf_sol : PlonkProof) × (proof_to_sol jf proof ≡ some pf_sol)
        × (proof_from_sol jf pf_sol ≡ some proof)
  unfolding proof_to_sol proof_from_sol
  proof_from_sol-proof_to_sol proof =
      let fields = jf.proof_fields proof in
      let size = laws.length_law proof in
      let front : length (take 26 fields) ≡ 13 + 13 = omega (arith, length-take 26 fields, size) in
      let (pf, made, ps, es) =
        plonk_proof-points_of (g1_points jf (take 26 fields))
          (map (field_to_u256 jf jf.fq) (drop 26 fields)) (even_length 13 (take 26 fields) front)
          (omega (
            arith,
            length-map (field_to_u256 jf jf.fq) (drop 26 fields),
            length-drop 26 fields,
            size,
          )) in
      let points =
        ap (concat_points jf) ps
        ∙ concat_points-g1_points 13 (take 26 fields) front (laws.curve_law proof) in
      let evals =
        ap (map (u256_to_field jf jf.fq)) es
        ∙ map-map (field_to_u256 jf jf.fq) (u256_to_field jf jf.fq)
            (u256_to_field-field_to_u256 jf laws jf.fq laws.fq_laws) (drop 26 fields) in
      (
        pf,
        subst
            (λ n.
              (if n == 36
                then plonk_proof (g1_points jf (take 26 fields))
                    (map (field_to_u256 jf jf.fq) (drop 26 fields))
                else none)
              ≡ some pf)
            (sym size) made,
        ap (λ fs. jf.proof_of (fs ++ map (u256_to_field jf jf.fq) (evals_of pf))) points
            ∙ (ap (λ fs. jf.proof_of (take 26 fields ++ fs)) evals
                ∙ (ap jf.proof_of (take-drop 26 fields) ∙ laws.proof_law proof)),
      )

  pub memo_from_sol-memo_to_sol :
      (memo : jf.Ciphertext)
      → (memo_sol : SolAuditMemo) × (memo_to_sol jf memo ≡ some memo_sol)
        × (memo_from_sol jf memo_sol ≡ some memo)
  unfolding memo_to_sol memo_from_sol
  memo_from_sol-memo_to_sol memo =
      let (x, y, rest, e) = laws.scalars_law memo in
      let back = u256_to_field-field_to_u256 jf laws jf.fr laws.fr_laws in
      (
        record {
          ephemeral_key = record { x = field_to_u256 jf jf.fr x; y = field_to_u256 jf jf.fr y };
          scalars = map (field_to_u256 jf jf.fr) rest;
        },
        ap (memo_of_scalars jf) e,
        rw
            (
              memo_from_sol,
              back x,
              back y,
              map-map (field_to_u256 jf jf.fr) (u256_to_field jf jf.fr) back rest,
            )
            (ap jf.from_scalars (sym e) ∙ laws.ciphertext_law memo),
      )
