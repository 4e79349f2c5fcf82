-- ===== src/Bindings/Plonk.antt =====
-- Proofs and audit memos of contracts/rust/src/types.rs.
use cape.Base.{
  ℕ, ◌&&◌, Option, none, some, List, [], ◌∷◌, ◌++◌, ◌==◌, nat_eq, length, take, drop, map,
  if◌then◌else◌,
}
use cape.Bindings.Jf.{Jf}
use cape.Bindings.Sol.{G1Point, PlonkProof, SolAuditMemo}
use cape.Bindings.Fields.{field_to_u256, u256_to_field}

-- The points and evaluations by their places; the product's point is the eleventh.
unfoldable pub plonk_proof : List G1Point → List ℕ → Option PlonkProof
plonk_proof (p0 ∷ p1 ∷ p2 ∷ p3 ∷ p4 ∷ p5 ∷ p6 ∷ p7 ∷ p8 ∷ p9 ∷ p10 ∷ p11 ∷ p12 ∷ [])
      (e0 ∷ e1 ∷ e2 ∷ e3 ∷ e4 ∷ e5 ∷ e6 ∷ e7 ∷ e8 ∷ e9 ∷ []) =
    some (record {
      wire_0 = p0;
      wire_1 = p1;
      wire_2 = p2;
      wire_3 = p3;
      wire_4 = p4;
      prod_perm = p10;
      split_0 = p5;
      split_1 = p6;
      split_2 = p7;
      split_3 = p8;
      split_4 = p9;
      zeta = p11;
      zeta_omega = p12;
      wire_eval_0 = e0;
      wire_eval_1 = e1;
      wire_eval_2 = e2;
      wire_eval_3 = e3;
      wire_eval_4 = e4;
      sigma_eval_0 = e5;
      sigma_eval_1 = e6;
      sigma_eval_2 = e7;
      sigma_eval_3 = e8;
      prod_perm_zeta_omega_eval = e9;
    })
plonk_proof points evals = none

-- The points and the evaluations in the order of jf_plonk.
abbrev pub points_of : PlonkProof → List G1Point
points_of pf =
    pf.wire_0 ∷ pf.wire_1 ∷ pf.wire_2 ∷ pf.wire_3 ∷ pf.wire_4 ∷ pf.split_0 ∷ pf.split_1 ∷ pf.split_2
    ∷ pf.split_3 ∷ pf.split_4 ∷ pf.prod_perm ∷ pf.zeta ∷ pf.zeta_omega ∷ []

abbrev pub evals_of : PlonkProof → List ℕ
evals_of pf =
    pf.wire_eval_0 ∷ pf.wire_eval_1 ∷ pf.wire_eval_2 ∷ pf.wire_eval_3 ∷ pf.wire_eval_4
    ∷ pf.sigma_eval_0 ∷ pf.sigma_eval_1 ∷ pf.sigma_eval_2 ∷ pf.sigma_eval_3
    ∷ pf.prod_perm_zeta_omega_eval ∷ []

module _ (jf : Jf) where
  -- `chunks_exact(2)`
  unfoldable pub g1_points : List jf.fq.Elem → List G1Point
  g1_points (x ∷ y ∷ fields) =
      record { x = field_to_u256 jf jf.fq x; y = field_to_u256 jf jf.fq y } ∷ g1_points fields
  g1_points fields = []

  unfoldable pub proof_to_sol : jf.Proof → Option PlonkProof
  proof_to_sol proof =
      let fields = jf.proof_fields proof in
      if length fields == 36
      then plonk_proof (g1_points (take 26 fields)) (map (field_to_u256 jf jf.fq) (drop 26 fields))
      else none

  -- The coordinates of `G1Affine::from`; the point of zeros is the point at infinity.
  unfoldable pub g1_point_to_fields : G1Point → List jf.fq.Elem
  g1_point_to_fields p =
      if (p.x == 0) && (p.y == 0)
      then jf.zero_x ∷ jf.zero_y ∷ []
      else u256_to_field jf jf.fq p.x ∷ u256_to_field jf jf.fq p.y ∷ []

  unfoldable pub concat_points : List G1Point → List jf.fq.Elem
  concat_points [] = []
  concat_points (p ∷ ps) = g1_point_to_fields p ++ concat_points ps

  unfoldable pub proof_from_sol : PlonkProof → Option jf.Proof
  proof_from_sol pf_sol =
      jf.proof_of
        (concat_points (points_of pf_sol) ++ map (u256_to_field jf jf.fq) (evals_of pf_sol))

  -- The first two scalars; without them it is a panic.
  abbrev pub memo_of_scalars : List jf.fr.Elem → Option SolAuditMemo
  memo_of_scalars (x ∷ y ∷ scalars) = some (record {
    ephemeral_key = record { x = field_to_u256 jf jf.fr x; y = field_to_u256 jf jf.fr y };
    scalars = map (field_to_u256 jf jf.fr) scalars;
  })
  memo_of_scalars scalars = none

  unfoldable pub memo_to_sol : jf.Ciphertext → Option SolAuditMemo
  memo_to_sol memo = memo_of_scalars (jf.to_scalars memo)

  unfoldable pub memo_from_sol : SolAuditMemo → Option jf.Ciphertext
  memo_from_sol memo_sol = jf.from_scalars (
      u256_to_field jf jf.fr memo_sol.ephemeral_key.x
      ∷ u256_to_field jf jf.fr memo_sol.ephemeral_key.y
      ∷ map (u256_to_field jf jf.fr) memo_sol.scalars)
