-- ===== src/Synapse/Tensor/Gradient/Adjoint.antt =====
-- synapse_autograd/synapse/tensor.py: one `_backward` closure moves what the gradient of its result is
-- worth to the operands.
use python_portfolio.Prelude.{
  ℕ, ◌<◌, ◌≡◌, refl, sym, ap, ◌∙◌, ◌⊎◌, inl, inr, true, false, [], ◌∷◌, arith, All, nat_beq,
  nat_beq_iff, Bool-cases, nat_eq, bytes_eq, string_eq,
}
use mathlib.Core.Path.{subst}
use python_portfolio.Synapse.Scalar.{Scalar, IsExact, ◌⊕◌, ◌⊗◌}
use python_portfolio.Synapse.Scalar.Sum.{sum}
use python_portfolio.Synapse.Scalar.Pairing.{
  Cells, pairing, pairing_congr, pairing-plus, pairing_scaled, pairing_right_factor,
  pairing_left_factor, pairing_spread,
}
use python_portfolio.Synapse.Linalg.{slope}
use python_portfolio.Synapse.Tensor.{
  Ref, add_step, mul_step, matmul_step, relu_step, sum_step, pair_set, Heap,
}
use python_portfolio.Synapse.Tensor.Gradient.{IsDerivative, values_at}

module _ (P : Ref → Type 0) (a b : Ref) where
  pub pair_set-split : All P (pair_set a b) → P a × P b
  pair_set-split h = cases h (Bool-cases (nat_beq a b))
    where
      cases : All P (pair_set a b) → (nat_beq a b ≡ true) ⊎ (nat_beq a b ≡ false) → P a × P b
      cases h (inl same) =
          let both : All P (a ∷ []) = rw same at h in
          (both.0, subst P ((nat_beq_iff a b).0 same) both.0)
      cases h (inr other) = let both : All P (a ∷ b ∷ []) = rw other at h in (both.0, both.1.0)

  pub pair_set-join : P a → P b → All P (pair_set a b)
  pair_set-join p q = elim (Bool-cases (nat_beq a b)) [
    | inl same ↦ rw same (p, tt)
    | inr other ↦ rw other (p, (q, tt))
  ]

module _ {A : Type 0} ⦃s : Scalar A⦄ (x : IsExact s) (r c : Ref → ℕ) (start : Heap A)
    (d : Ref → Cells A) (a b o : Ref) (k : Cells A) where
  abbrev given : A
  given = pairing (r o) (c o) k (d o)

  pub add_adjoint :
      (r a ≡ r o) × (c a ≡ c o)
      → (r b ≡ r o) × (c b ≡ c o)
      → IsDerivative r c start d (add_step a b o)
      → pairing (r a) (c a) k (d a) ⊕ pairing (r b) (c b) k (d b) ≡ given
  add_adjoint p q h =
      rw (p.0, p.1, q.0, q.1)
        (sym (pairing-plus x (r o) (c o) k (d a) (d b))
          ∙ sym (pairing_congr (r o) (c o) k _ k _ (λ i j l m. refl) h))

  pub mul_adjoint :
      (r a ≡ r o) × (c a ≡ c o)
      → (r b ≡ r o) × (c b ≡ c o)
      → IsDerivative r c start d (mul_step a b o)
      → pairing (r a) (c a) (λ i j. values_at start b i j ⊗ k i j) (d a)
          ⊕ pairing (r b) (c b) (λ i j. values_at start a i j ⊗ k i j) (d b)
        ≡ given
  mul_adjoint p q h =
      rw (p.0, p.1, q.0, q.1)
        (ap (λ t. t ⊕ pairing (r o) (c o) (λ i j. values_at start a i j ⊗ k i j) (d b))
            (sym (pairing_scaled x (r o) (c o) k (d a) (values_at start b)))
          ∙ ap (λ t. pairing (r o) (c o) k (λ i j. values_at start b i j ⊗ d a i j) ⊕ t)
              (sym (pairing_scaled x (r o) (c o) k (d b) (values_at start a)))
          ∙ sym (pairing-plus x (r o) (c o) k _ _)
          ∙ sym (pairing_congr (r o) (c o) k _ k _ (λ i j l m. refl) h))

  pub matmul_adjoint :
      r a ≡ r o
      → c a ≡ r b
      → c b ≡ c o
      → IsDerivative r c start d (matmul_step a b o)
      → pairing (r a) (c a) (λ i l. sum (c o) (λ j. k i j ⊗ values_at start b l j)) (d a)
          ⊕ pairing (r b) (c b) (λ l j. sum (r a) (λ i. values_at start a i l ⊗ k i j)) (d b)
        ≡ given
  matmul_adjoint p q e h =
      rw (p, sym q, e)
        (ap
            (λ t.
              t ⊕ pairing (c a) (c o) (λ l j. sum (r o) (λ i. values_at start a i l ⊗ k i j)) (d b))
            (sym (pairing_right_factor x (r o) (c a) (c o) k (d a) (values_at start b)))
          ∙ ap
              (λ t.
                pairing (r o) (c o) k (λ i j. sum (c a) (λ l. d a i l ⊗ values_at start b l j)) ⊕ t)
              (sym (pairing_left_factor x (r o) (c a) (c o) k (values_at start a) (d b)))
          ∙ sym (pairing-plus x (r o) (c o) k _ _)
          ∙ sym (pairing_congr (r o) (c o) k _ k _ (λ i j l m. refl) h))

  pub relu_adjoint :
      (r a ≡ r o) × (c a ≡ c o)
      → IsDerivative r c start d (relu_step a o)
      → pairing (r a) (c a) (λ i j. slope (values_at start a i j) ⊗ k i j) (d a) ≡ given
  relu_adjoint p h =
      rw (p.0, p.1)
        (sym (pairing_scaled x (r o) (c o) k (d a) (λ i j. slope (values_at start a i j)))
          ∙ sym (pairing_congr (r o) (c o) k _ k _ (λ i j l m. refl) h))

  pub sum_adjoint :
      r o ≡ 1
      → c o ≡ 1
      → IsDerivative r c start d (sum_step a o)
      → pairing (r a) (c a) (λ _ _. k 0 0) (d a) ≡ given
  sum_adjoint p q h =
      rw (p, q)
        (sym (pairing_spread x (r a) (c a) k (d a))
          ∙ sym (pairing_congr 1 1 k _ k _ (λ i j l m. refl) (λ i j l m. only i j l m)))
    where
      only : (i j : ℕ) → i < 1 → j < 1 → d o i j ≡ sum (r a) (λ i. sum (c a) (d a i))
      only i j l m = let e : i ≡ 0 = omega arith in let f : j ≡ 0 = omega arith in rw (e, f) h
