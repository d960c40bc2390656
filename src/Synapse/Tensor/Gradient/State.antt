-- ===== src/Synapse/Tensor/Gradient/State.antt =====
-- synapse_autograd/synapse/tensor.py: the heap during a backward pass, as the tensors that it started
-- with and the gradients that they have now.
use python_portfolio.Prelude.{
  ℕ, ◌≡◌, refl, ap, ◌∙◌, ◌⊎◌, inl, inr, true, false, Option, none, some, arith, get_elem?, set, ok,
  or_raise, if◌then◌else◌, nat_beq, nat_beq_iff, Bool-cases, nat_eq, bytes_eq, string_eq,
  get_elem?-lt, get_elem?-set_self, get_elem?-set_ne,
}
use mathlib.Core.Path.{subst, fun_ext}
use python_portfolio.Synapse.Scalar.{Scalar, ◌⊕◌}
use python_portfolio.Synapse.Scalar.Pairing.{Cells}
use python_portfolio.Synapse.Linalg.{type_error, Matrix, item, cols, zeros, add}
use python_portfolio.Synapse.Linalg.Tables.{table, cols-table}
use python_portfolio.Synapse.Linalg.Product.{zeros-table}
use python_portfolio.Synapse.Linalg.Cells.{IsShape, IsShape-table, table-IsShape, entry, add-table}
use python_portfolio.Synapse.Tensor.{Ref, Tensor, Heap}
use python_portfolio.Synapse.Tensor.Backward.{
  store_grad, init_grad, grad_or_init, ensure_grad, grad_of, add_grad, values_of,
}
use python_portfolio.Synapse.Tensor.Gradient.{IsGraph, GradShape}

abbrev pub Grads : Type 0 → Type 0
Grads A = Ref → Option (Matrix A)

abbrev pub put : {A : Type 0} → Grads A → Ref → Matrix A → Grads A
put g v m y = if nat_beq v y then some m else g y

module _ {A : Type 0} (r c : Ref → ℕ) (start : Heap A) where
  -- The heap is the one at the start but for its gradients.
  pub record IsState (heap : Heap A) (g : Grads A) : Type 0 where
    pub tensors :
        (v : Ref) (t : Tensor A)
        → get_elem? start v ≡ some t
        → get_elem? heap v ≡ some (record t { grad = g v })
    pub shapes : (v : Ref) → GradShape r c v (g v)

  module _ {heap : Heap A} {g : Grads A} (st : IsState heap g) (v : Ref) (t : Tensor A)
      (there : get_elem? start v ≡ some t) where
    pub store-State :
        (m : Matrix A)
        → IsShape (r v) (c v) m
        → (heap' : Heap A) × (store_grad v m heap ≡ ok heap') × IsState heap' (put g v m)
    unfolding store_grad item
    store-State m shape = (
      set heap v (record t { grad = some m }),
      rw (st.tensors v t there) refl,
      record {
        tensors = λ y u h. tensors y u h (Bool-cases (nat_beq v y));
        shapes = λ y. shapes y (Bool-cases (nat_beq v y));
      },
    )
      where
        tensors :
            (y : Ref) (u : Tensor A)
            → get_elem? start y ≡ some u
            → (nat_beq v y ≡ true) ⊎ (nat_beq v y ≡ false)
            → get_elem? (set heap v (record t { grad = some m })) y
              ≡ some (record u { grad = put g v m y })
        tensors y u h (inl same) =
            let e : v ≡ y = (nat_beq_iff v y).0 same in
            let now : Tensor A = record t { grad = some m } in
            let q : get_elem? (set heap v now) v ≡ some now =
              get_elem?-set_self heap v now (get_elem?-lt heap v (st.tensors v t there)) in
            let w : t ≡ u = cc (e, there, h) in
            rw same (
              subst (λ z. get_elem? (set heap v now) z ≡ some (record u { grad = some m })) e
                (q ∙ ap {A = Tensor A} (λ a. some (record a { grad = some m })) w))
        tensors y u h (inr other) =
            rw other
              (get_elem?-set_ne heap v y _ (λ e. ground (arith, e, other)) ∙ st.tensors y u h)

        shapes :
            (y : Ref) → (nat_beq v y ≡ true) ⊎ (nat_beq v y ≡ false) → GradShape r c y (put g v m y)
        shapes y (inl same) =
            rw same (subst (λ z. IsShape (r z) (c z) m) ((nat_beq_iff v y).0 same) shape)
        shapes y (inr other) = rw other (st.shapes y)

    pub grad_of-State : grad_of heap v ≡ or_raise (g v) type_error
    unfolding grad_of item
    grad_of-State = rw (st.tensors v t there) refl

    pub values_of-State : values_of heap v ≡ ok t.values
    unfolding values_of item
    values_of-State = rw (st.tensors v t there) refl

-- The numbers of a gradient; one that is not there counts as zeros.
abbrev pub cells : {A : Type 0} → ⦃s : Scalar A⦄ → Option (Matrix A) → Cells A
cells ⦃s⦄ none = λ i j. s.nought
cells (some m) = entry m

abbrev pub IsThere : {A : Type 0} → Option (Matrix A) → Type 0
IsThere {A} o = (m : Matrix A) × (o ≡ some m)

module _ {A : Type 0} ⦃s : Scalar A⦄ (r c : Ref → ℕ) (start : Heap A) (graph : IsGraph r c start)
    {heap : Heap A} {g : Grads A} (st : IsState r c start heap g) (v : Ref) (t : Tensor A)
    (there : get_elem? start v ≡ some t) where
  abbrev pub initialised : Option (Matrix A) → Matrix A
  initialised none = zeros (r v) (c v)
  initialised (some m) = m

  init_grad-State :
      (heap' : Heap A) × (init_grad v heap ≡ ok heap')
      × IsState r c start heap' (put g v (zeros (r v) (c v)))
  unfolding init_grad item store_grad
  init_grad-State =
      let n = graph v t there in
      let zero_shape : IsShape (r v) (c v) (zeros (r v) (c v)) =
        rw (zeros-table (r v) (c v)) (table-IsShape (r v) (c v) _) in
      let width : cols t.values ≡ ok (c v) =
        rw (IsShape-table n.shape) (cols-table (r v) (c v) _ n.rows_positive) in
      let (heap', stored, q) = store-State r c start st v t there (zeros (r v) (c v)) zero_shape in
      (
        heap',
        rw (st.tensors v t there, width, n.shape.rows) (rw (st.tensors v t there) at stored),
        q,
      )

  pub ensure_grad-State :
      (heap' : Heap A) × (ensure_grad v heap ≡ ok heap')
      × IsState r c start heap' (put g v (initialised (g v)))
  unfolding ensure_grad grad_or_init item
  ensure_grad-State = rw (st.tensors v t there) (cases (g v) refl)
    where
      same : (m : Matrix A) → g v ≡ some m → (y : Ref) → g y ≡ put g v m y
      same m e y = elim (Bool-cases (nat_beq v y)) [
        | inl self ↦ rw self (subst (λ z. g z ≡ some m) ((nat_beq_iff v y).0 self) e)
        | inr other ↦ rw other refl
      ]

      cases :
          (o : Option (Matrix A))
          → g v ≡ o
          → (heap' : Heap A) × (grad_or_init o v heap ≡ ok heap')
            × IsState r c start heap' (put g v (initialised o))
      cases none e = init_grad-State
      cases (some m) e = (heap, refl, subst (IsState r c start heap) (fun_ext (same m e)) st)

  -- Adding a table to a gradient that is there.
  pub add_grad-State :
      (m : Matrix A) (f : Cells A)
      → g v ≡ some m
      → (heap' : Heap A) × (add_grad v (table (r v) (c v) f) heap ≡ ok heap')
        × IsState r c start heap' (put g v (table (r v) (c v) (λ i j. entry m i j ⊕ f i j)))
  unfolding add_grad
  add_grad-State m f e =
      let shape : IsShape (r v) (c v) m = subst (GradShape r c v) e (st.shapes v) in
      let got : grad_of heap v ≡ ok m =
        grad_of-State r c start st v t there ∙ ap (λ o. or_raise o type_error) e in
      let sum : add m (table (r v) (c v) f) ≡ ok (table (r v) (c v) (λ i j. entry m i j ⊕ f i j)) =
        ap (λ a. add a (table (r v) (c v) f)) (IsShape-table shape)
        ∙ add-table (r v) (c v) (r v) (c v) (entry m) f (graph v t there).rows_positive
            (omega arith) (omega arith) in
      let (heap', stored, q) =
        store-State r c start st v t there _
          (table-IsShape (r v) (c v) (λ i j. entry m i j ⊕ f i j)) in
      (heap', rw (got, sum) stored, q)
