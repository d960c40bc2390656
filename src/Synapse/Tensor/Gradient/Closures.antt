-- ===== src/Synapse/Tensor/Gradient/Closures.antt =====
-- synapse_autograd/synapse/tensor.py: the `_backward` closures of the operations.
use python_portfolio.Prelude.{
  ℕ, ◌<◌, ◌≡◌, refl, sym, ap, ◌∙◌, Bool, true, false, some, arith, length, get_elem?, replicate, ok,
  or_raise, nat_eq, bytes_eq, string_eq,
}
use mathlib.Core.Path.{subst}
use python_portfolio.Synapse.Scalar.{Scalar, IsExact, ◌⊕◌, ◌⊗◌}
use python_portfolio.Synapse.Scalar.Sum.{sum}
use python_portfolio.Synapse.Scalar.Pairing.{Cells, pairing}
use python_portfolio.Synapse.Linalg.{
  type_error, Matrix, cell, cols, elementwise, matmul, transpose, slope, d_relu,
}
use python_portfolio.Synapse.Linalg.Tables.{
  table, tab, cell-table, cols-table, length-table, collect_rows-table, replicate-tab, tab_congr,
}
use python_portfolio.Synapse.Linalg.Product.{matmul-table}
use python_portfolio.Synapse.Linalg.Cells.{
  IsShape, IsShape-table, entry, transpose-table, elementwise-table, d_relu-table,
}
use python_portfolio.Synapse.Tensor.{Ref, Tensor, Heap}
use python_portfolio.Synapse.Tensor.Backward.{
  grad_of, scaled, add_backward, mul_backward, matmul_backward, relu_backward, sum_backward,
}
use python_portfolio.Synapse.Tensor.Gradient.{IsGraph, GradShape}
use python_portfolio.Synapse.Tensor.Gradient.State.{
  Grads, IsState, IsThere, grad_of-State, values_of-State,
}
use python_portfolio.Synapse.Tensor.Gradient.Steps.{Gains-trans, Performed, add_grad-Performed}

abbrev resized :
    {A : Type 0} → (r c r' c' : ℕ) (f : Cells A) → r ≡ r' → c ≡ c' → table r c f ≡ table r' c' f
resized r c r' c' f p q = rw (p, q) refl

module _ {A : Type 0} ⦃s : Scalar A⦄ where
  scaled-table :
      (r c : ℕ) (f g : Cells A)
      → 0 < r
      → scaled (table r c f) (table r c g) ≡ ok (table r c (λ i j. f i j ⊗ g i j))
  unfolding scaled
  scaled-table r c f g h =
      rw (cols-table r c g h, length-table r c g)
        (collect_rows-table r c _ _
          (λ i j l m. rw (cell-table r c f i j l m, cell-table r c g i j l m) refl))

module _ {A : Type 0} ⦃s : Scalar A⦄ (x : IsExact s) (r c : Ref → ℕ) (start : Heap A)
    (d : Ref → Cells A) (graph : IsGraph r c start) (mask : Ref → Bool) {heap : Heap A}
    {g : Grads A} (st : IsState r c start heap g) (o : Ref) (w : Tensor A)
    (made : get_elem? start o ≡ some w) (passed : mask o ≡ false) (k : Matrix A)
    (has : g o ≡ some k) where
  k_shape : IsShape (r o) (c o) k
  k_shape = subst (GradShape r c o) has (st.shapes o)

  k_table : (v : Ref) → r v ≡ r o → c v ≡ c o → k ≡ table (r v) (c v) (entry k)
  k_table v p q = IsShape-table k_shape ∙ resized (r o) (c o) (r v) (c v) (entry k) (sym p) (sym q)

  got : {h : Heap A} {f : Grads A} → IsState r c start h f → f o ≡ g o → grad_of h o ≡ ok k
  got st' e = grad_of-State r c start st' o w made ∙ ap (λ m. or_raise m type_error) (e ∙ has)

  module _ (a : Ref) (ta : Tensor A) (there_a : get_elem? start a ≡ some ta)
      (counted_a : mask a ≡ true) (init_a : IsThere (g a)) where
    a_table : ta.values ≡ table (r a) (c a) (entry ta.values)
    a_table = IsShape-table (graph a ta there_a).shape

    a_rows : 0 < r a
    a_rows = (graph a ta there_a).rows_positive

    pub relu_backward-Performed :
        r a ≡ r o
        → c a ≡ c o
        → Performed x r c start d mask g
            (relu_backward a o heap)
            (pairing (r a) (c a) (λ i j. slope (entry ta.values i j) ⊗ entry k i j) (d a))
    unfolding relu_backward
    relu_backward-Performed p q =
        let local : elementwise ◌⊗◌ (d_relu ta.values) k
            ≡ ok (table (r a) (c a) (λ i j. slope (entry ta.values i j) ⊗ entry k i j)) =
          ap (λ m. elementwise ◌⊗◌ m k)
            (ap d_relu a_table ∙ d_relu-table (r a) (c a) (entry ta.values))
          ∙ ap (elementwise ◌⊗◌ (table (r a) (c a) (λ i j. slope (entry ta.values i j))))
              (k_table a p q)
          ∙ elementwise-table ◌⊗◌ (r a) (c a) (r a) (c a) _ (entry k) a_rows (omega arith)
              (omega arith) in
        rw (values_of-State r c start st a ta there_a, got st refl, local)
          (add_grad-Performed x r c start d graph mask st a ta there_a counted_a _ _ refl init_a)

    pub sum_backward-Performed :
        r o ≡ 1
        → c o ≡ 1
        → Performed x r c start d mask g
            (sum_backward a o heap)
            (pairing (r a) (c a) (λ _ _. entry k 0 0) (d a))
    unfolding sum_backward table
    sum_backward-Performed p q =
        let top : cell k 0 0 ≡ ok (entry k 0 0) =
          ap (λ m. cell m 0 0) (IsShape-table k_shape)
          ∙ cell-table (r o) (c o) (entry k) 0 0 (omega (arith, p)) (omega (arith, q)) in
        let width : cols ta.values ≡ ok (c a) = ap cols a_table ∙ cols-table (r a) (c a) _ a_rows in
        let height : length ta.values ≡ r a = (graph a ta there_a).shape.rows in
        rw (got st refl, top, values_of-State r c start st a ta there_a, width, height)
          (add_grad-Performed x r c start d graph mask st a ta there_a counted_a _
            (λ _ _. entry k 0 0) (replicate-tab (r a) _ ∙ spread) init_a)
      where
        spread :
            tab (r a) (λ _. replicate (c a) (entry k 0 0)) ≡ table (r a) (c a) (λ _ _. entry k 0 0)
        spread = tab_congr (r a) _ _ (λ i l. replicate-tab (c a) (entry k 0 0))

    module _ (b : Ref) (tb : Tensor A) (there_b : get_elem? start b ≡ some tb)
        (counted_b : mask b ≡ true) (init_b : IsThere (g b)) where
      b_table : tb.values ≡ table (r b) (c b) (entry tb.values)
      b_table = IsShape-table (graph b tb there_b).shape

      b_rows : 0 < r b
      b_rows = (graph b tb there_b).rows_positive

      pub add_backward-Performed :
          r a ≡ r o
          → c a ≡ c o
          → r b ≡ r o
          → c b ≡ c o
          → Performed x r c start d mask g
              (add_backward a b o heap)
              (pairing (r a) (c a) (entry k) (d a) ⊕ pairing (r b) (c b) (entry k) (d b))
      unfolding add_backward
      add_backward-Performed ra ca rb cb =
          let first =
            add_grad-Performed x r c start d graph mask st a ta there_a counted_a k (entry k)
              (k_table a ra ca) init_a in
          let second =
            add_grad-Performed x r c start d graph mask first.state b tb there_b counted_b k
              (entry k) (k_table b rb cb) (first.gains.keeps b init_b) in
          record {
            heap' = second.heap';
            grads = second.grads;
            returned =
                rw (got st refl, first.returned, got first.state (first.gains.fixed o passed))
                  second.returned;
            state = second.state;
            gains = Gains-trans x r c start d first.gains second.gains;
          }

      pub mul_backward-Performed :
          r a ≡ r o
          → c a ≡ c o
          → r b ≡ r o
          → c b ≡ c o
          → Performed x r c start d mask g (mul_backward a b o heap) (
              pairing (r a) (c a) (λ i j. entry tb.values i j ⊗ entry k i j) (d a)
              ⊕ pairing (r b) (c b) (λ i j. entry ta.values i j ⊗ entry k i j) (d b))
      unfolding mul_backward
      mul_backward-Performed ra ca rb cb =
          let d_self : scaled tb.values k
              ≡ ok (table (r a) (c a) (λ i j. entry tb.values i j ⊗ entry k i j)) =
            ap (λ m. scaled m k) (b_table ∙ resized _ _ _ _ _ (rb ∙ sym ra) (cb ∙ sym ca))
            ∙ ap (scaled (table (r a) (c a) (entry tb.values))) (k_table a ra ca)
            ∙ scaled-table (r a) (c a) _ (entry k) a_rows in
          let d_other : scaled ta.values k
              ≡ ok (table (r b) (c b) (λ i j. entry ta.values i j ⊗ entry k i j)) =
            ap (λ m. scaled m k) (a_table ∙ resized _ _ _ _ _ (ra ∙ sym rb) (ca ∙ sym cb))
            ∙ ap (scaled (table (r b) (c b) (entry ta.values))) (k_table b rb cb)
            ∙ scaled-table (r b) (c b) _ (entry k) b_rows in
          let first =
            add_grad-Performed x r c start d graph mask st a ta there_a counted_a _ _ refl init_a in
          let second =
            add_grad-Performed x r c start d graph mask first.state b tb there_b counted_b _ _ refl
              (first.gains.keeps b init_b) in
          record {
            heap' = second.heap';
            grads = second.grads;
            returned =
                rw
                  (
                    got st refl,
                    values_of-State r c start st b tb there_b,
                    d_self,
                    first.returned,
                    got first.state (first.gains.fixed o passed),
                    values_of-State r c start first.state a ta there_a,
                    d_other,
                  )
                  second.returned;
            state = second.state;
            gains = Gains-trans x r c start d first.gains second.gains;
          }

      pub matmul_backward-Performed :
          r a ≡ r o
          → c a ≡ r b
          → c b ≡ c o
          → Performed x r c start d mask g (matmul_backward a b o heap) (
              pairing (r a) (c a) (λ i l. sum (c o) (λ j. entry k i j ⊗ entry tb.values l j)) (d a)
              ⊕ pairing
                  (r b)
                  (c b)
                  (λ l j. sum (r a) (λ i. entry ta.values i l ⊗ entry k i j))
                  (d b))
      unfolding matmul_backward
      matmul_backward-Performed ra inner cb =
          let bt : transpose tb.values ≡ ok (table (c o) (r b) (λ j l. entry tb.values l j)) =
            ap transpose b_table
            ∙ transpose-table (r b) (c b) _ b_rows
            ∙ ap ok (resized _ _ _ _ _ cb refl) in
          let at : transpose ta.values ≡ ok (table (c a) (r a) (λ l i. entry ta.values i l)) =
            ap transpose a_table ∙ transpose-table (r a) (c a) _ a_rows in
          let d_self : matmul k (table (c o) (r b) (λ j l. entry tb.values l j))
              ≡ ok (table (r a) (c a) (λ i l. sum (c o) (λ j. entry k i j ⊗ entry tb.values l j))) =
            ap (λ m. matmul m (table (c o) (r b) (λ j l. entry tb.values l j)))
              (IsShape-table k_shape ∙ resized _ _ _ _ _ (sym ra) refl)
            ∙ matmul-table (r a) (c o) (r b) _ _ x a_rows (graph o w made).columns_positive
            ∙ ap ok (resized _ _ _ _ _ refl (sym inner)) in
          let d_other : matmul (table (c a) (r a) (λ l i. entry ta.values i l)) k
              ≡ ok (table (r b) (c b) (λ l j. sum (r a) (λ i. entry ta.values i l ⊗ entry k i j))) =
            ap (matmul (table (c a) (r a) (λ l i. entry ta.values i l)))
              (IsShape-table k_shape ∙ resized _ _ _ _ _ (sym ra) refl)
            ∙ matmul-table (c a) (r a) (c o) _ _ x (graph a ta there_a).columns_positive a_rows
            ∙ ap ok (resized _ _ _ _ _ inner (sym cb)) in
          let first =
            add_grad-Performed x r c start d graph mask st a ta there_a counted_a _ _ refl init_a in
          let second =
            add_grad-Performed x r c start d graph mask first.state b tb there_b counted_b _ _ refl
              (first.gains.keeps b init_b) in
          record {
            heap' = second.heap';
            grads = second.grads;
            returned =
                rw
                  (
                    got st refl,
                    values_of-State r c start st b tb there_b,
                    bt,
                    d_self,
                    values_of-State r c start st a ta there_a,
                    at,
                    d_other,
                    first.returned,
                  )
                  second.returned;
            state = second.state;
            gains = Gains-trans x r c start d first.gains second.gains;
          }
