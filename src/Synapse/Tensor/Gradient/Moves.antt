-- ===== src/Synapse/Tensor/Gradient/Moves.antt =====
-- synapse_autograd/synapse/tensor.py: a run of `_ctx`.
use python_portfolio.Prelude.{
  ℕ, ◌≡◌, refl, sym, ap, ◌∙◌, Bool, true, false, some, List, [], ◌∷◌, get_elem?, All, Result, ◌>>=◌,
  nat_eq, bytes_eq, string_eq,
}
use mathlib.Core.Path.{subst}
use python_portfolio.Synapse.Scalar.{Scalar, IsExact, ◌⊕◌}
use python_portfolio.Synapse.Scalar.Pairing.{Cells, pairing}
use python_portfolio.Synapse.Linalg.{Error, Matrix}
use python_portfolio.Synapse.Linalg.Cells.{entry}
use python_portfolio.Synapse.Tensor.{
  Ref, Ctx, nothing, add_step, mul_step, matmul_step, relu_step, sum_step, pair_set, Tensor, Heap,
}
use python_portfolio.Synapse.Tensor.Backward.{
  ensure_grad, run_ctx, add_backward, mul_backward, matmul_backward, relu_backward, sum_backward,
}
use python_portfolio.Synapse.Tensor.Gradient.{IsGraph, IsRule, IsDerivative, is_leaf, values_at}
use python_portfolio.Synapse.Tensor.Gradient.State.{Grads, IsState, IsThere, cells}
use python_portfolio.Synapse.Tensor.Gradient.Steps.{
  weight, Gains, Gains-trans, Performed, ensure_grad-Performed,
}
use python_portfolio.Synapse.Tensor.Gradient.Closures.{
  add_backward-Performed, mul_backward-Performed, matmul_backward-Performed,
  relu_backward-Performed, sum_backward-Performed,
}
use python_portfolio.Synapse.Tensor.Gradient.Adjoint.{
  pair_set-split, pair_set-join, add_adjoint, mul_adjoint, matmul_adjoint, relu_adjoint,
  sum_adjoint,
}

module _ {A : Type 0} ⦃s : Scalar A⦄ (x : IsExact s) (r c : Ref → ℕ) (start : Heap A)
    (d : Ref → Cells A) (graph : IsGraph r c start) (mask : Ref → Bool) where
  abbrev valued :
      {g : Grads A} {result : Result Error (Heap A)} {e e' : A}
      → e ≡ e'
      → Performed x r c start d mask g result e
      → Performed x r c start d mask g result e'
  valued {g} {result} q p = record {
    heap' = p.heap';
    grads = p.grads;
    returned = p.returned;
    state = p.state;
    gains = subst (Gains x r c start d mask g p.grads) q p.gains;
  }

  -- A tensor of the graph that the mask counts.
  abbrev pub IsCounted : Ref → Type 0
  IsCounted a = ((t : Tensor A) × (get_elem? start a ≡ some t)) × (mask a ≡ true)

  -- A run of `_ctx` gives every parent a gradient and moves the worth of the result's to them.
  pub record Moved (g : Grads A) (prev : List Ref) (result : Result Error (Heap A)) (e : A)
      : Type 0 where
    pub run : Performed x r c start d mask g result e
    pub given : All (λ p. IsThere (run.grads p)) prev

  module _ {heap : Heap A} {g : Grads A} (st : IsState r c start heap g) where
    abbrev after :
        {e e' : A} {first : Result Error (Heap A)} (p : Performed x r c start d mask g first e)
        (f : Heap A → Result Error (Heap A))
        → Performed x r c start d mask p.grads (f p.heap') e'
        → Performed x r c start d mask g (first >>= f) (e ⊕ e')
    after p f q = record {
      heap' = q.heap';
      grads = q.grads;
      returned = rw p.returned q.returned;
      state = q.state;
      gains = Gains-trans x r c start d p.gains q.gains;
    }

    module _ (o : Ref) (w : Tensor A) (made : get_elem? start o ≡ some w) (passed : mask o ≡ false)
        (k : Matrix A) (has : g o ≡ some k) where
      worth : weight x r c start d g o ≡ pairing (r o) (c o) (entry k) (d o)
      worth = ap (λ m. pairing (r o) (c o) (cells m) (d o)) has

      module _ (a : Ref) (a_in : IsCounted a) where
        abbrev ready :
            (p : Performed x r c start d mask g (ensure_grad a heap) s.nought) × IsThere (p.grads a)
        ready = ensure_grad-Performed x r c start d graph mask st a a_in.0.0 a_in.0.1 a_in.1

        one_operand :
            (f : Heap A → Result Error (Heap A)) (e : A)
            → Performed x r c start d mask (ready.0).grads (f (ready.0).heap') e
            → e ≡ pairing (r o) (c o) (entry k) (d o)
            → Moved g (a ∷ []) (ensure_grad a heap >>= f) (weight x r c start d g o)
        one_operand f e p q = record {
          run = valued (x.nought-plus e ∙ q ∙ sym worth) (after (ready.0) f p);
          given = (p.gains.keeps a ready.1, tt);
        }

        module _ (b : Ref) (b_in : IsCounted b) where
          abbrev other_ready :
              (p : Performed x r c start d mask
                (ready.0).grads
                (ensure_grad b (ready.0).heap')
                s.nought)
              × IsThere (p.grads b)
          other_ready =
              ensure_grad-Performed x r c start d graph mask (ready.0).state b b_in.0.0 b_in.0.1
                b_in.1

          -- Both operands have a gradient.
          both :
              (p : Performed x r c start d mask g (ensure_grad a heap >>= ensure_grad b) s.nought)
              × IsThere (p.grads a)
              × IsThere (p.grads b)
          both = (
            valued (x.nought-plus s.nought) (after (ready.0) (ensure_grad b) (other_ready.0)),
            (other_ready.0).gains.keeps a ready.1,
            other_ready.1,
          )

          two_operands :
              (f : Heap A → Result Error (Heap A)) (e : A)
              → Performed x r c start d mask (both.0).grads (f (both.0).heap') e
              → e ≡ pairing (r o) (c o) (entry k) (d o)
              → Moved g
                  (pair_set a b)
                  (ensure_grad a heap >>= ensure_grad b >>= f)
                  (weight x r c start d g o)
          two_operands f e p q = record {
            run = valued (x.nought-plus e ∙ q ∙ sym worth) (after (both.0) f p);
            given =
                pair_set-join (λ y. IsThere (p.grads y)) a b (p.gains.keeps a both.1)
                  (p.gains.keeps b both.2);
          }

          kept_both : (both.0).grads o ≡ some k
          kept_both = (both.0).gains.fixed o passed ∙ has

          values_b : values_at start b ≡ entry (b_in.0.0).values
          values_b = rw (b_in.0.1, values_at) refl

          values_a : values_at start a ≡ entry (a_in.0.0).values
          values_a = rw (a_in.0.1, values_at) refl

          module _ (ra : r a ≡ r o) (ca : c a ≡ c o) (rb : r b ≡ r o) (cb : c b ≡ c o) where
            add_step-Moved :
                IsDerivative r c start d (add_step a b o)
                → Moved g (pair_set a b) (run_ctx (add_step a b o) heap) (weight x r c start d g o)
            unfolding run_ctx
            add_step-Moved h =
                two_operands (add_backward a b o) _
                  (add_backward-Performed x r c start d graph mask (both.0).state o w made passed k
                    kept_both a a_in.0.0 a_in.0.1 a_in.1 both.1 b b_in.0.0 b_in.0.1 b_in.1 both.2 ra
                    ca rb cb)
                  (add_adjoint x r c start d a b o (entry k) (ra, ca) (rb, cb) h)

            mul_step-Moved :
                IsDerivative r c start d (mul_step a b o)
                → Moved g (pair_set a b) (run_ctx (mul_step a b o) heap) (weight x r c start d g o)
            unfolding run_ctx
            mul_step-Moved h =
                two_operands (mul_backward a b o) _
                  (mul_backward-Performed x r c start d graph mask (both.0).state o w made passed k
                    kept_both a a_in.0.0 a_in.0.1 a_in.1 both.1 b b_in.0.0 b_in.0.1 b_in.1 both.2 ra
                    ca rb cb)
                  (rw (sym values_a, sym values_b)
                    (mul_adjoint x r c start d a b o (entry k) (ra, ca) (rb, cb) h))

          matmul_step-Moved :
              r a ≡ r o
              → c a ≡ r b
              → c b ≡ c o
              → IsDerivative r c start d (matmul_step a b o)
              → Moved g (pair_set a b) (run_ctx (matmul_step a b o) heap) (weight x r c start d g o)
          unfolding run_ctx
          matmul_step-Moved p q e h =
              two_operands (matmul_backward a b o) _
                (matmul_backward-Performed x r c start d graph mask (both.0).state o w made passed k
                  kept_both a a_in.0.0 a_in.0.1 a_in.1 both.1 b b_in.0.0 b_in.0.1 b_in.1 both.2 p q
                  e)
                (rw (sym values_a, sym values_b)
                  (matmul_adjoint x r c start d a b o (entry k) p q e h))

        kept_one : (ready.0).grads o ≡ some k
        kept_one = (ready.0).gains.fixed o passed ∙ has

        relu_step-Moved :
            r a ≡ r o
            → c a ≡ c o
            → IsDerivative r c start d (relu_step a o)
            → Moved g (a ∷ []) (run_ctx (relu_step a o) heap) (weight x r c start d g o)
        unfolding run_ctx
        relu_step-Moved p q h =
            let values_a : values_at start a ≡ entry (a_in.0.0).values =
              rw (a_in.0.1, values_at) refl in
            one_operand (relu_backward a o) _
              (relu_backward-Performed x r c start d graph mask (ready.0).state o w made passed k
                kept_one a a_in.0.0 a_in.0.1 a_in.1 ready.1 p q)
              (rw (sym values_a) (relu_adjoint x r c start d a a o (entry k) (p, q) h))

        sum_step-Moved :
            r o ≡ 1
            → c o ≡ 1
            → IsDerivative r c start d (sum_step a o)
            → Moved g (a ∷ []) (run_ctx (sum_step a o) heap) (weight x r c start d g o)
        unfolding run_ctx
        sum_step-Moved p q h =
            one_operand (sum_backward a o) _
              (sum_backward-Performed x r c start d graph mask (ready.0).state o w made passed k
                kept_one a a_in.0.0 a_in.0.1 a_in.1 ready.1 p q)
              (sum_adjoint x r c start d a a o (entry k) p q h)

      relocated :
          {ps : List Ref} (prev : List Ref)
          → prev ≡ ps
          → (z : Ref) → z ≡ o
          → (step : Ref → Ctx) → Moved g ps (run_ctx (step o) heap) (weight x r c start d g o)
          → Moved g prev (run_ctx (step z) heap) (weight x r c start d g o)
      relocated {ps} prev q z e step m =
          subst (λ y. Moved g y (run_ctx (step z) heap) (weight x r c start d g o)) (sym q)
            (subst (λ y. Moved g ps (run_ctx (step y) heap) (weight x r c start d g o)) (sym e) m)

      -- The closure of an operation, with the shapes that its rule gives.
      pub run_ctx-Moved :
          (ctx : Ctx) (prev : List Ref)
          → IsRule r c o prev ctx
          → is_leaf ctx ≡ false
          → IsDerivative r c start d ctx
          → All IsCounted prev
          → Moved g prev (run_ctx ctx heap) (weight x r c start d g o)
      run_ctx-Moved nothing prev rule leaf h counted = cc leaf
      run_ctx-Moved (add_step a b z) prev (e, q, sa, sb) leaf h counted =
          let (ina, inb) = pair_set-split IsCounted a b (subst (All IsCounted) q counted) in
          relocated prev q z e (add_step a b) (
            add_step-Moved a ina b inb sa.0 sa.1 sb.0 sb.1
              (subst (λ y. IsDerivative r c start d (add_step a b y)) e h))
      run_ctx-Moved (mul_step a b z) prev (e, q, sa, sb) leaf h counted =
          let (ina, inb) = pair_set-split IsCounted a b (subst (All IsCounted) q counted) in
          relocated prev q z e (mul_step a b) (
            mul_step-Moved a ina b inb sa.0 sa.1 sb.0 sb.1
              (subst (λ y. IsDerivative r c start d (mul_step a b y)) e h))
      run_ctx-Moved (matmul_step a b z) prev (e, q, ra, inner, cb) leaf h counted =
          let (ina, inb) = pair_set-split IsCounted a b (subst (All IsCounted) q counted) in
          relocated prev q z e (matmul_step a b) (
            matmul_step-Moved a ina b inb ra inner cb
              (subst (λ y. IsDerivative r c start d (matmul_step a b y)) e h))
      run_ctx-Moved (relu_step a z) prev (e, q, sa) leaf h counted =
          let ina = (subst (All IsCounted) q counted).0 in
          relocated prev q z e (relu_step a) (
            relu_step-Moved a ina sa.0 sa.1
              (subst (λ y. IsDerivative r c start d (relu_step a y)) e h))
      run_ctx-Moved (sum_step a z) prev (e, q, rs, cs) leaf h counted =
          let ina = (subst (All IsCounted) q counted).0 in
          relocated prev q z e (sum_step a)
            (sum_step-Moved a ina rs cs (subst (λ y. IsDerivative r c start d (sum_step a y)) e h))
