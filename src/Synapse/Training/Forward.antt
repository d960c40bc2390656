-- ===== src/Synapse/Training/Forward.antt =====
-- synapse_autograd/main_training_demo.py: what a layer and the network compute.
use python_portfolio.Prelude.{
  ℕ, suc, ◌<◌, ◌≡◌, sym, ap, ◌∙◌, some, [], ◌∷◌, ◌++◌, arith, length, get_elem?, length-append,
  Result, ok, ◌>>=◌, nat_eq, bytes_eq, string_eq, get_elem?-append_left, get_elem?-append_at,
  get_elem?-lt,
}
use mathlib.Core.Path.{subst}
use python_portfolio.Synapse.Scalar.{Scalar, ◌⊕◌, ◌⊗◌}
use python_portfolio.Synapse.Scalar.Sum.{sum_from, sum_from_congr}
use python_portfolio.Synapse.Scalar.Pairing.{Cells}
use python_portfolio.Synapse.Linalg.{Error, rectify}
use python_portfolio.Synapse.Linalg.Cells.{entry, entry-table}
use python_portfolio.Synapse.Tensor.{Ref, Tensor, Heap, tensor, plus_tensor, relu_tensor}
use python_portfolio.Synapse.Tensor.Gradient.{IsGraph, SameShape}
use python_portfolio.Synapse.Tensor.Gradient.Building.{
  Built, matmul_tensor-Built, plus_tensor-Built, relu_tensor-Built,
}
use python_portfolio.Synapse.Training.{Layer, Mlp, call_layer, call_mlp}

module _ {A : Type 0} ⦃s : Scalar A⦄ (r c : Ref → ℕ) where
  -- An operation that returned the tensor `o` with the numbers of `f`: the heap is still a graph, and
  -- every tensor is still there.
  pub record Returns (heap : Heap A) (o : Ref) (f : Cells A) (result : Result Error (Ref × Heap A))
      : Type 0 where
    pub heap' : Heap A
    pub made : Tensor A
    pub returned : result ≡ ok (o, heap')
    pub there : get_elem? heap' o ≡ some made
    pub values : (i j : ℕ) → i < r o → j < c o → entry made.values i j ≡ f i j
    pub graph : IsGraph r c heap'
    pub grown : length heap' ≡ suc o
    pub kept : (v : Ref) (t : Tensor A) → get_elem? heap v ≡ some t → get_elem? heap' v ≡ some t

  Built-Returns :
      (heap : Heap A) (graph : IsGraph r c heap) (o : Ref) (f : Cells A)
      (result : Result Error (Ref × Heap A))
      → length heap ≡ o
      → Built r c heap graph f result
      → Returns heap o f result
  Built-Returns heap graph o f result e p = record {
    heap' = heap ++ (p.made ∷ []);
    made = p.made;
    returned = p.returned ∙ ap (λ k. ok (k, heap ++ (p.made ∷ []))) e;
    there =
        subst (λ k. get_elem? (heap ++ (p.made ∷ [])) k ≡ some p.made) e
          (get_elem?-append_at heap p.made []);
    values = λ i j l m.
        ap (λ a. entry a i j) p.values
        ∙ entry-table (r (length heap)) (c (length heap)) f i j (subst (λ k. i < r k) (sym e) l)
            (subst (λ k. j < c k) (sym e) m);
    graph = p.extended;
    grown = length-append heap (p.made ∷ []) ∙ omega (arith, e);
    kept = λ v t h. get_elem?-append_left heap (p.made ∷ []) v (get_elem?-lt heap v h) ∙ h;
  }

module _ (r c : Ref → ℕ) (l : Layer) where
  -- The shapes of a call of the layer on `a`, whose product is to stand at `o`.
  pub record FitsAt (o : Ref) (a : Ref) : Type 0 where
    pub rows : r a ≡ r o
    pub inner : c a ≡ r l.weights
    pub columns : c l.weights ≡ c o
    pub product : SameShape r c o (suc o)
    pub bias : SameShape r c l.bias (suc o)

module _ (r c : Ref → ℕ) (model : Mlp) where
  -- The shapes of a call of the network on `a`, whose tensors are to stand from `o` on.
  pub record FitsNetwork (o : Ref) (a : Ref) : Type 0 where
    pub first : FitsAt r c model.l1 o a
    pub hidden : SameShape r c (suc o) (suc (suc o))
    pub second : FitsAt r c model.l2 (suc (suc (suc o))) (suc (suc o))

module _ {A : Type 0} ⦃s : Scalar A⦄ (r c : Ref → ℕ) (l : Layer) where
  -- What a layer does to an input: the product with its weights, and the bias.
  abbrev pub affine : Cells A → ℕ → Tensor A → Tensor A → Cells A
  affine input k w b i j =
      sum_from s.nought k (λ m. input i m ⊗ entry w.values m j) ⊕ entry b.values i j

  -- A call of a layer returns the product of its input and its weights, plus its bias, as the second of
  -- two new tensors, if the shapes fit.
  pub call_layer-Returns :
      (heap : Heap A) (o a : Ref) (ta w b : Tensor A)
      → length heap ≡ o
      → IsGraph r c heap
      → get_elem? heap a ≡ some ta
      → get_elem? heap l.weights ≡ some w
      → get_elem? heap l.bias ≡ some b
      → FitsAt r c l o a
      → Returns r c heap (suc o) (affine (entry ta.values) (c a) w b) (call_layer l a heap)
  unfolding call_layer
  call_layer-Returns heap o a ta w b e graph at_a at_w at_b fits =
      let rows : 0 < r o = subst (λ k. 0 < k) fits.rows (graph a ta at_a).rows_positive in
      let columns : 0 < c o =
        subst (λ k. 0 < k) fits.columns (graph l.weights w at_w).columns_positive in
      let p = Built-Returns r c heap graph o _ _ e (
        matmul_tensor-Built r c heap graph (rw e rows) (rw e columns) a ta at_a l.weights w at_w
          (rw e fits.rows) fits.inner (rw e fits.columns)) in
      let rows' : 0 < r (suc o) = subst (λ k. 0 < k) fits.product.0 rows in
      let columns' : 0 < c (suc o) = subst (λ k. 0 < k) fits.product.1 columns in
      let q = Built-Returns r c p.heap' p.graph (suc o) _ _ p.grown (
        plus_tensor-Built r c p.heap' p.graph (rw p.grown rows') (rw p.grown columns') o p.made
          p.there l.bias b (p.kept l.bias b at_b) (rw p.grown fits.product)
          (rw p.grown fits.bias)) in
      record {
        heap' = q.heap';
        made = q.made;
        returned = ap (λ m. m >>= λ y. plus_tensor y.0 (tensor l.bias) y.1) p.returned ∙ q.returned;
        there = q.there;
        values = λ i j m n.
            q.values i j m n
            ∙ ap (λ t. t ⊕ entry b.values i j)
                (p.values i j (subst (λ k. i < k) (sym fits.product.0) m)
                  (subst (λ k. j < k) (sym fits.product.1) n));
        graph = q.graph;
        grown = q.grown;
        kept = λ v t h. q.kept v t (p.kept v t h);
      }

module _ {A : Type 0} ⦃s : Scalar A⦄ (r c : Ref → ℕ) (model : Mlp) where
  module _ (heap : Heap A) (o a : Ref) (ta w1 b1 w2 b2 : Tensor A) (e : length heap ≡ o)
      (graph : IsGraph r c heap) (at_a : get_elem? heap a ≡ some ta)
      (at_w1 : get_elem? heap model.l1.weights ≡ some w1)
      (at_b1 : get_elem? heap model.l1.bias ≡ some b1)
      (at_w2 : get_elem? heap model.l2.weights ≡ some w2)
      (at_b2 : get_elem? heap model.l2.bias ≡ some b2) (fits : FitsNetwork r c model o a) where
    -- The hidden layer: the positive part of the first layer's output.
    abbrev pub hidden_cells : Cells A
    hidden_cells i j = rectify (affine r c model.l1 (entry ta.values) (c a) w1 b1 i j)

    first_layer :
        Returns r c heap
          (suc o)
          (affine r c model.l1 (entry ta.values) (c a) w1 b1)
          (call_layer model.l1 a heap)
    first_layer =
        call_layer-Returns r c model.l1 heap o a ta w1 b1 e graph at_a at_w1 at_b1 fits.first

    hidden_layer :
        Returns r c first_layer.heap'
          (suc (suc o))
          (λ i j. rectify (entry first_layer.made.values i j))
          (relu_tensor (suc o) first_layer.heap')
    hidden_layer =
        let p = first_layer in
        let n = p.graph (suc o) p.made p.there in
        Built-Returns r c p.heap' p.graph (suc (suc o)) _ _ p.grown (
          relu_tensor-Built r c p.heap' p.graph
            (rw p.grown (subst (λ k. 0 < k) fits.hidden.0 n.rows_positive))
            (rw p.grown (subst (λ k. 0 < k) fits.hidden.1 n.columns_positive)) (suc o) p.made
            p.there (rw p.grown fits.hidden))

    hidden_values :
        (i j : ℕ)
        → i < r (suc (suc o))
        → j < c (suc (suc o))
        → entry hidden_layer.made.values i j ≡ hidden_cells i j
    hidden_values i j m n =
        hidden_layer.values i j m n
        ∙ ap rectify (
            first_layer.values i j (subst (λ k. i < k) (sym fits.hidden.0) m)
              (subst (λ k. j < k) (sym fits.hidden.1) n))

    -- In a heap of rectangular tensors, none without a row or a column, whose operations had operands of
    -- fitting shapes: if the shapes of the layers fit the input and each other, a call of the network
    -- returns what its second layer makes of the positive part of what its first layer makes of the input,
    -- as the last of five new tensors, and leaves a heap of that kind with all its tensors. Each layer is
    -- the product with the weights, each cell added up from 0 from left to right, plus the bias. No law of
    -- arithmetic is asked for.
    pub call_mlp-Returns :
        Returns r c heap
          (suc (suc (suc (suc o))))
          (affine r c model.l2 hidden_cells (c (suc (suc o))) w2 b2)
          (call_mlp model a heap)
    unfolding call_mlp
    call_mlp-Returns =
        let p = first_layer in
        let h = hidden_layer in
        let q =
          call_layer-Returns r c model.l2 h.heap' (suc (suc (suc o))) (suc (suc o)) h.made w2 b2
            h.grown h.graph h.there (h.kept _ w2 (p.kept _ w2 at_w2))
            (h.kept _ b2 (p.kept _ b2 at_b2)) fits.second in
        record {
          heap' = q.heap';
          made = q.made;
          returned =
              ap (λ m. m >>= λ y. (relu_tensor y.0 y.1 >>= λ z. call_layer model.l2 z.0 z.1))
                p.returned
              ∙ ap (λ m. m >>= λ z. call_layer model.l2 z.0 z.1) h.returned
              ∙ q.returned;
          there = q.there;
          values = λ i j m n.
              q.values i j m n
              ∙ ap (λ t. t ⊕ entry b2.values i j)
                  (sum_from_congr s.nought (c (suc (suc o))) _ _
                    (λ k l. ap (λ t. t ⊗ entry w2.values k j) (hidden_values i k (row i m) l)));
          graph = q.graph;
          grown = q.grown;
          kept = λ v t u. q.kept v t (h.kept v t (p.kept v t u));
        }
      where
        row : (i : ℕ) → i < r (suc (suc (suc (suc o)))) → i < r (suc (suc o))
        row i m = subst (λ k. i < k) (sym (fits.second.rows ∙ fits.second.product.0)) m
