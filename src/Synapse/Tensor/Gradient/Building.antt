-- ===== src/Synapse/Tensor/Gradient/Building.antt =====
-- synapse_autograd/synapse/tensor.py: the operations on tensors, which extend a graph.
use python_portfolio.Prelude.{
  ltb→le, ℕ, zero, suc, ◌<◌, ◌≡◌, refl, sym, ap, ◌∙◌, inl, inr, true, none, some, List, [], ◌∷◌,
  ◌++◌, arith, String, length, get_elem?, length-append, All, Result, ok, ltb, ltb→lt, Bool-cases,
  nat_eq, bytes_eq, string_eq, get_elem?-append_left, get_elem?-append_at, get_elem?-lt,
}
use mathlib.Core.Path.{subst}
use python_portfolio.Synapse.Scalar.{Scalar, IsExact, ◌⊕◌, ◌⊗◌}
use python_portfolio.Synapse.Scalar.Sum.{sum_from, sum}
use python_portfolio.Synapse.Scalar.Pairing.{Cells}
use python_portfolio.Synapse.Linalg.{
  Error, Matrix, item, add, elementwise, matmul, rectify, relu, sum_matrix,
}
use python_portfolio.Synapse.Linalg.Tables.{tab, table}
use python_portfolio.Synapse.Linalg.Product.{matmul-sums}
use python_portfolio.Synapse.Linalg.Cells.{
  IsShape-table, table-IsShape, entry, elementwise-table, relu-table, sum_matrix-table,
}
use python_portfolio.Synapse.Tensor.{
  Ref, Ctx, add_step, mul_step, matmul_step, relu_step, sum_step, Tensor, Heap, matrix, to_matrix,
  node, tensor, as_tensor, pair_set, binary, plus_tensor, times_tensor, matmul_tensor, relu_tensor,
  sum_tensor,
}
use python_portfolio.Synapse.Tensor.Gradient.Adjoint.{pair_set-join}
use python_portfolio.Synapse.Tensor.Gradient.{IsGraph, IsTensor, IsRule, SameShape}

module _ {A : Type 0} (r c : Ref → ℕ) (heap : Heap A) (graph : IsGraph r c heap) where
  IsGraph-snoc : (t : Tensor A) → IsTensor r c (length heap) t → IsGraph r c (heap ++ (t ∷ []))
  IsGraph-snoc t n v u h = elim (Bool-cases (ltb v (length heap))) [
    | inl old ↦ graph v u (sym (get_elem?-append_left heap (t ∷ []) v (ltb→lt v _ old)) ∙ h)
    | inr later ↦
        let e : length heap ≡ v = omega (
          arith,
          ltb→le v (length heap) later,
          get_elem?-lt (heap ++ (t ∷ [])) v h,
          length-append heap (t ∷ []),
        ) in
        let here : get_elem? (heap ++ (t ∷ [])) v ≡ some t =
          subst (λ w. get_elem? (heap ++ (t ∷ [])) w ≡ some t) e (get_elem?-append_at heap t []) in
        let same : t ≡ u = cc (here, h) in
        subst (IsTensor r c v) same (subst (λ w. IsTensor r c w t) e n)
  ]

  -- The result is a new tensor with the values of the table, and the graph is still one.
  pub record Built (f : Cells A) (result : Result Error (Ref × Heap A)) : Type 0 where
    pub made : Tensor A
    pub returned : result ≡ ok (length heap, heap ++ (made ∷ []))
    pub values : made.values ≡ table (r (length heap)) (c (length heap)) f
    pub extended : IsGraph r c (heap ++ (made ∷ []))

  module _ (rows : 0 < r (length heap)) (columns : 0 < c (length heap)) (f : Cells A) where
    to_matrix-table : (n m : ℕ) → 0 < n → to_matrix (matrix (table n m f)) ≡ ok (table n m f)
    unfolding to_matrix table tab
    to_matrix-table zero m h = absurd (omega arith)
    to_matrix-table (suc n) m h = refl

    node-Built :
        (m : Matrix A) (prev : List Ref) (op : String) (ctx : Ctx)
        → m ≡ table (r (length heap)) (c (length heap)) f
        → All (λ p. p < length heap) prev
        → IsRule r c (length heap) prev ctx
        → Built f (node m prev op ctx heap)
    unfolding node
    node-Built m prev op ctx e older rule = record {
      made = t;
      returned = rw (e, to_matrix-table (r (length heap)) (c (length heap)) rows) refl;
      values = refl;
      extended = IsGraph-snoc t n;
    }
      where
        t : Tensor A
        t = record {
          values = table (r (length heap)) (c (length heap)) f;
          grad = none;
          ctx = ctx;
          prev = prev;
          op = op;
          label = "";
          requires_grad = true;
        }

        n : IsTensor r c (length heap) t
        n = record {
          shape = table-IsShape (r (length heap)) (c (length heap)) f;
          rows_positive = rows;
          columns_positive = columns;
          older = older;
          rule = rule;
          grad_shape = tt;
        }

module _ {A : Type 0} ⦃s : Scalar A⦄ (r c : Ref → ℕ) (heap : Heap A) (graph : IsGraph r c heap)
    (rows : 0 < r (length heap)) (columns : 0 < c (length heap)) where
  module _ (a : Ref) (ta : Tensor A) (there_a : get_elem? heap a ≡ some ta) where
    a_table : ta.values ≡ table (r a) (c a) (entry ta.values)
    a_table = IsShape-table (graph a ta there_a).shape

    a_rows : 0 < r a
    a_rows = (graph a ta there_a).rows_positive

    -- `relu` of a tensor of a graph.
    pub relu_tensor-Built :
        SameShape r c a (length heap)
        → Built r c heap graph (λ i j. rectify (entry ta.values i j)) (relu_tensor a heap)
    unfolding relu_tensor item
    relu_tensor-Built (p, q) = rw (there_a) (
        node-Built r c heap graph rows columns _ _ (a ∷ []) "ReLU" (relu_step a (length heap))
          (ap relu a_table ∙ relu-table (r a) (c a) _ ∙ resize) (get_elem?-lt heap a there_a, tt)
          (refl, refl, (p, q)))
      where
        resize :
            table (r a) (c a) (λ i j. rectify (entry ta.values i j))
            ≡ table (r (length heap)) (c (length heap)) (λ i j. rectify (entry ta.values i j))
        resize = rw (p, q) refl

    module _ (b : Ref) (tb : Tensor A) (there_b : get_elem? heap b ≡ some tb) where
      b_table : tb.values ≡ table (r b) (c b) (entry tb.values)
      b_table = IsShape-table (graph b tb there_b).shape

      parents_older : All (λ p. p < length heap) (pair_set a b)
      parents_older =
          pair_set-join (λ p. p < length heap) a b (get_elem?-lt heap a there_a)
            (get_elem?-lt heap b there_b)

      binary-Built :
          (forward : Matrix A → Matrix A → Result Error (Matrix A)) (op : String)
          (step : Ref → Ref → Ref → Ctx) (f : Cells A)
          → forward ta.values tb.values ≡ ok (table (r (length heap)) (c (length heap)) f)
          → IsRule r c (length heap) (pair_set a b) (step a b (length heap))
          → Built r c heap graph f (binary forward op step a (tensor b) heap)
      unfolding binary as_tensor item
      binary-Built forward op step f e rule =
          rw (there_a, there_b, e)
            (node-Built r c heap graph rows columns f _ (pair_set a b) op (step a b (length heap))
              refl parents_older rule)

      module _ (sa : SameShape r c a (length heap)) (sb : SameShape r c b (length heap)) where
        pointwise :
            (op : A → A → A)
            → elementwise op ta.values tb.values
              ≡ ok (
                  table
                    (r (length heap))
                    (c (length heap))
                    (λ i j. op (entry ta.values i j) (entry tb.values i j)))
        pointwise op =
            ap (λ m. elementwise op m tb.values) a_table
            ∙ ap (elementwise op (table (r a) (c a) (entry ta.values))) b_table
            ∙ elementwise-table op (r a) (c a) (r b) (c b) _ _ a_rows (omega (arith, sa.0, sb.0))
                (omega (arith, sa.1, sb.1))
            ∙ rw (sa.0, sa.1) refl

        -- `+` and `*` of two tensors of one shape.
        pub plus_tensor-Built :
            Built r c heap graph
              (λ i j. entry ta.values i j ⊕ entry tb.values i j)
              (plus_tensor a (tensor b) heap)
        unfolding plus_tensor add
        plus_tensor-Built = binary-Built add "+" add_step _ (pointwise ◌⊕◌) (refl, refl, sa, sb)

        pub times_tensor-Built :
            Built r c heap graph
              (λ i j. entry ta.values i j ⊗ entry tb.values i j)
              (times_tensor a (tensor b) heap)
        unfolding times_tensor
        times_tensor-Built =
            binary-Built (elementwise ◌⊗◌) "*" mul_step _ (pointwise ◌⊗◌) (refl, refl, sa, sb)

      pub matmul_tensor-Built :
          r a ≡ r (length heap)
          → c a ≡ r b
          → c b ≡ c (length heap)
          → Built r c heap graph
              (λ i j. sum_from s.nought (c a) (λ l. entry ta.values i l ⊗ entry tb.values l j))
              (matmul_tensor a (tensor b) heap)
      unfolding matmul_tensor
      matmul_tensor-Built p q e =
          binary-Built matmul "@" matmul_step _ product (refl, refl, p, q, e)
        where
          product :
              matmul ta.values tb.values
              ≡ ok (
                  table (r (length heap)) (c (length heap)) (λ i j.
                    sum_from s.nought (c a) (λ l. entry ta.values i l ⊗ entry tb.values l j)))
          product =
              ap (λ m. matmul m tb.values) a_table
              ∙ ap (matmul (table (r a) (c a) (entry ta.values)))
                  (b_table ∙ ap (λ n. table n (c b) (entry tb.values)) (sym q))
              ∙ matmul-sums (r a) (c a) (c b) _ _ a_rows (graph a ta there_a).columns_positive
              ∙ rw (p, e) refl

    -- `sum` of a tensor has one cell.
    pub sum_tensor-Built :
        IsExact s
        → r (length heap) ≡ 1
        → c (length heap) ≡ 1
        → Built r c heap graph
            (λ i j. sum (r a) (λ i. sum (c a) (entry ta.values i)))
            (sum_tensor a heap)
    unfolding sum_tensor item table
    sum_tensor-Built x p q = rw (there_a) (
        node-Built r c heap graph rows columns
          (λ i j. sum (r a) (λ i. sum (c a) (entry ta.values i))) _ (a ∷ []) "Sum"
          (sum_step a (length heap)) single (get_elem?-lt heap a there_a, tt) (refl, refl, p, q))
      where
        single :
            ((sum_matrix ta.values ∷ []) ∷ [])
            ≡ table
                (r (length heap))
                (c (length heap))
                (λ i j. sum (r a) (λ i. sum (c a) (entry ta.values i)))
        single =
            ap (λ t. (t ∷ []) ∷ []) (ap sum_matrix a_table ∙ sum_matrix-table x (r a) (c a) _)
            ∙ rw (p, q, tab) refl
