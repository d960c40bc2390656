-- ===== src/Synapse/Tensor/Gradient/Chain.antt =====
-- synapse_autograd/synapse/tensor.py: `backward` as a whole.
use python_portfolio.Prelude.{
  ltb→le, ℕ, ◌<◌, ◌≡◌, refl, sym, ap, ◌∙◌, ◌≢◌, ◌⊎◌, inl, inr, Bool, true, false, ◌||◌, Option,
  none, some, List, [], ◌∷◌, arith, length, get_elem?, All, ok, ◌>>=◌, ltb, if◌then◌else◌,
  nat_beq_refl, ltb→lt, Bool-cases, nat_eq, bytes_eq, string_eq, beq_ne, get_elem?-lt,
  get_elem?-total,
}
use mathlib.Core.Path.{subst}
use python_portfolio.Synapse.Scalar.{Scalar, IsExact, ◌⊕◌}
use python_portfolio.Synapse.Scalar.Sum.{sum, sum_congr, plus-nought}
use python_portfolio.Synapse.Scalar.Pairing.{Cells, pairing, nought-pairing, sum_grows}
use python_portfolio.Synapse.Linalg.{Matrix}
use python_portfolio.Synapse.Linalg.Cells.{IsShape, entry}
use python_portfolio.Synapse.Tensor.{Ref, Tensor, Heap}
use python_portfolio.Synapse.Tensor.Backward.{
  is_in, children, reversed, store_grad, propagate, backward,
}
use python_portfolio.Synapse.Tensor.Order.{IsAcyclic, IsOrdered}
use python_portfolio.Synapse.Tensor.Order.Walks.{build_topo_order}
use python_portfolio.Synapse.Tensor.Gradient.{IsGraph, GradShape, IsTangent, is_leaf}
use python_portfolio.Synapse.Tensor.Gradient.State.{Grads, put, IsState, cells, store-State}
use python_portfolio.Synapse.Tensor.Gradient.Steps.{weight}
use python_portfolio.Synapse.Tensor.Gradient.Visits.{leaf_at, open_in, IsReady}
use python_portfolio.Synapse.Tensor.Gradient.Propagation.{open_worth, propagate-Propagated, or_true}

-- The gradients of the tensors that no operation made, paired with a change of these.
module _ {A : Type 0} ⦃s : Scalar A⦄ (r c : Ref → ℕ) (d : Ref → Cells A) where
  abbrev leaf_worth : Option (Tensor A) → Ref → A
  leaf_worth none v = s.nought
  leaf_worth (some t) v =
      if is_leaf t.ctx then pairing (r v) (c v) (cells t.grad) (d v) else s.nought

  abbrev pub leaves_worth : ℕ → Heap A → A
  leaves_worth n heap = sum n (λ v. leaf_worth (get_elem? heap v) v)

module _ {A : Type 0} ⦃s : Scalar A⦄ (x : IsExact s) (r c : Ref → ℕ) (start : Heap A)
    (d : Ref → Cells A) (graph : IsGraph r c start) (tangent : IsTangent r c start d) where
  grad_in : Option (Tensor A) → Option (Matrix A)
  grad_in none = none
  grad_in (some t) = t.grad

  first_grads : Grads A
  first_grads v = grad_in (get_elem? start v)

  first_grad : (v : Ref) (t : Tensor A) → get_elem? start v ≡ some t → first_grads v ≡ t.grad
  unfolding first_grads grad_in
  first_grad v t h = ap grad_in h

  first-IsState : IsState r c start start first_grads
  unfolding first_grads grad_in
  first-IsState = record {
    tensors = λ v t h.
        h ∙ ap {A = Option (Matrix A)} (λ o. some (record t { grad = o })) (sym (first_grad v t h));
    shapes = λ v. shapes v (get_elem? start v) refl;
  }
    where
      shapes :
          (v : Ref) (o : Option (Tensor A))
          → get_elem? start v ≡ o
          → GradShape r c v (first_grads v)
      shapes v none h = subst (GradShape r c v) (sym (ap grad_in h)) tt
      shapes v (some t) h =
          subst (GradShape r c v) (sym (first_grad v t h)) (graph v t h).grad_shape

  state_worth :
      {heap : Heap A} {g : Grads A}
      → IsState r c start heap g
      → leaves_worth r c d (length start) heap ≡ open_worth x r c start d graph tangent [] g
  unfolding is_in
  state_worth {heap} {g} st =
      sum_congr (length start) _ _ (λ v l. at_one v (get_elem?-total start v l))
    where
      or_false : (b : Bool) → (b || false) ≡ b
      or_false true = refl
      or_false false = refl

      leaf_open :
          (v : Ref) (t : Tensor A) → get_elem? start v ≡ some t → open_in start [] v ≡ is_leaf t.ctx
      leaf_open v t h = rw (h, leaf_at, is_in) (or_false (is_leaf t.ctx))

      at_one :
          (v : Ref)
          → (t : Tensor A) × (get_elem? start v ≡ some t)
          → leaf_worth r c d (get_elem? heap v) v
            ≡ (if open_in start [] v then weight x r c start d g v else s.nought)
      at_one v (t, h) =
          ap (λ o. leaf_worth r c d o v) (st.tensors v t h)
          ∙ ap (λ b. if b then weight x r c start d g v else s.nought) (sym (leaf_open v t h))

  -- No operation has a gradient from an earlier pass, and the root has none.
  module _ (root : Ref) (top : Tensor A) (there : get_elem? start root ≡ some top)
      (one_row : r root ≡ 1) (one_column : c root ≡ 1)
      (fresh : (v : Ref) (t : Tensor A)
        → get_elem? start v ≡ some t
        → is_leaf t.ctx ≡ false
        → t.grad ≡ none)
      (unset : top.grad ≡ none) where
    abbrev ones : Matrix A
    ones = (s.unit ∷ []) ∷ []

    no_worth : (v : Ref) → first_grads v ≡ none → weight x r c start d first_grads v ≡ s.nought
    no_worth v e =
        ap (λ o. pairing (r v) (c v) (cells o) (d v)) e ∙ nought-pairing x (r v) (c v) (d v)

    inner_unset : (v : Ref) → leaf_at start v ≡ false → first_grads v ≡ none
    unfolding first_grads grad_in
    inner_unset v h = cases (get_elem? start v) refl
      where
        cases : (o : Option (Tensor A)) → get_elem? start v ≡ o → first_grads v ≡ none
        cases none e = ap grad_in e
        cases (some t) e = first_grad v t e ∙ fresh v t e (rw (e, leaf_at) at h)

    one_worth : pairing (r root) (c root) (entry ones) (d root) ≡ d root 0 0
    unfolding pairing sum entry
    one_worth =
        rw (one_row, one_column) (plus-nought x _ ∙ plus-nought x _ ∙ x.unit-times (d root 0 0))

    module _ (vs : List Ref) (listed : is_in root vs ≡ true) where
      elsewhere :
          (y : Ref)
          → y ≢ root
          → (if open_in start vs y
              then weight x r c start d (put first_grads root ones) y
              else s.nought)
            ≡ (if open_in start [] y then weight x r c start d first_grads y else s.nought)
      unfolding is_in
      elsewhere y ne =
          ap (λ o. if open_in start vs y then pairing (r y) (c y) (cells o) (d y) else s.nought)
            other
          ∙ cases (leaf_at start y) refl (is_in y vs)
        where
          other : put first_grads root ones y ≡ first_grads y
          other = rw (beq_ne root y (λ e. ne (sym e))) refl

          cases :
              (leaf : Bool)
              → leaf_at start y ≡ leaf
              → (b : Bool)
              → (if leaf || b then weight x r c start d first_grads y else s.nought)
                ≡ (if leaf || false then weight x r c start d first_grads y else s.nought)
          cases true e b = refl
          cases false e true = no_worth y (inner_unset y e)
          cases false e false = refl

      at_root :
          (if open_in start vs root
            then weight x r c start d (put first_grads root ones) root
            else s.nought)
          ≡ (if open_in start [] root then weight x r c start d first_grads root else s.nought)
            ⊕ d root 0 0
      at_root =
          opened
          ∙ ap (λ o. pairing (r root) (c root) (cells o) (d root)) self
          ∙ one_worth
          ∙ sym (x.nought-plus _)
          ∙ ap (λ t. t ⊕ d root 0 0) (sym (nothing_yet (open_in start [] root)))
        where
          rooted : open_in start vs root ≡ true
          rooted = rw listed (or_true (leaf_at start root))

          self : put first_grads root ones root ≡ some ones
          self = rw (nat_beq_refl root) refl

          opened :
              (if open_in start vs root
                then weight x r c start d (put first_grads root ones) root
                else s.nought)
              ≡ weight x r c start d (put first_grads root ones) root
          opened =
              ap
                (λ b. if b then weight x r c start d (put first_grads root ones) root else s.nought)
                rooted

          nothing_yet :
              (b : Bool)
              → (if b then weight x r c start d first_grads root else s.nought) ≡ s.nought
          nothing_yet true = no_worth root (first_grad root top there ∙ unset)
          nothing_yet false = refl

      seed_worth :
          open_worth x r c start d graph tangent vs (put first_grads root ones)
          ≡ open_worth x r c start d graph tangent [] first_grads ⊕ d root 0 0
      seed_worth =
          sum_grows x (length start) _ _ root (d root 0 0) (get_elem?-lt start root there) elsewhere
            at_root

    IsGraph-IsAcyclic : IsAcyclic start
    unfolding children
    IsGraph-IsAcyclic v = cases (get_elem? start v) refl
      where
        cases :
            (o : Option (Tensor A)) → get_elem? start v ≡ o → All (λ p. p < v) (children start v)
        cases none e = rw (e, children) tt
        cases (some t) e = rw (e, children) (graph v t e).older

    from_start :
        (vs : List Ref)
        → IsOrdered start vs
        → is_in root vs ≡ true
        → ((y : Ref) → root < y → is_in y vs ≡ false)
        → ((y : Ref)
            → is_in y vs ≡ true
            → (y ≡ root) ⊎ (u : Ref) × (is_in u vs ≡ true) × (is_in y (children start u) ≡ true))
        → (heap' : Heap A) × ((store_grad root ones start >>= propagate vs) ≡ ok heap')
          × (leaves_worth r c d (length start) heap'
              ≡ leaves_worth r c d (length start) start ⊕ d root 0 0)
    from_start vs order listed above whence =
        let shape : IsShape (r root) (c root) ones =
          rw (one_row, one_column) (record { rows = refl; columns = (refl, tt) }) in
        let (seeded, stored, st) = store-State r c start first-IsState root top there ones shape in
        let p =
          propagate-Propagated x r c start d graph tangent vs order (λ y h. placed y h) st
            (λ y h. ready y (whence y h)) in
        (
          p.heap',
          ap (λ m. m >>= propagate vs) stored ∙ p.returned,
          state_worth p.state
              ∙ p.amount
              ∙ seed_worth vs listed
              ∙ ap (λ t. t ⊕ d root 0 0) (sym (state_worth first-IsState)),
        )
      where
        placed : (y : Ref) → is_in y vs ≡ true → (u : Tensor A) × (get_elem? start y ≡ some u)
        placed y h = elim (Bool-cases (ltb root y)) [
          | inl past ↦ cc (h, above y (ltb→lt root y past))
          | inr within ↦
              get_elem?-total start y
                (omega (arith, ltb→le root y within, get_elem?-lt start root there))
        ]

        ready :
            (y : Ref)
            → (y ≡ root) ⊎ (u : Ref) × (is_in u vs ≡ true) × (is_in y (children start u) ≡ true)
            → IsReady start vs (put first_grads root ones) y
        ready y (inl e) = inl (ones, rw (e, nat_beq_refl root) refl)
        ready y (inr how) = inr how

    -- Let every tensor of the heap be a rectangle with at least one row and one column, made later than its
    -- parents by an operation whose operands fit exactly: of the same shape for a sum, a product of cells
    -- and relu, of the same inner dimension for a matrix product; and let a gradient have the shape of its
    -- tensor. Let the arithmetic be exact, that is, obey the laws of a commutative semiring, as floats do
    -- up to rounding. Let the root have one cell and no gradient yet, let no result of an operation have
    -- a gradient from an earlier pass, and let `fuel` exceed the place of the root in the heap. Then
    -- `backward` returns, and it differentiates: for any change `d` of the tensors that the operations
    -- pass on by their derivatives, the gradients of the leaves, paired with the change of the leaves,
    -- have grown by the change of the root.
    pub backward_differentiates :
        (fuel : ℕ)
        → root < fuel
        → (heap' : Heap A) × (backward fuel root start ≡ some (ok heap'))
          × (leaves_worth r c d (length start) heap'
              ≡ leaves_worth r c d (length start) start ⊕ d root 0 0)
    unfolding backward
    backward_differentiates fuel enough =
        let (w, returned, order, listed, above, whence) =
          build_topo_order start root fuel IsGraph-IsAcyclic enough in
        let (heap', ran, worth) = from_start (reversed w.topo) order listed above whence in
        (heap', rw returned (ap some ran), worth)
