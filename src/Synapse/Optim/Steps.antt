-- ===== src/Synapse/Optim/Steps.antt =====
-- synapse_autograd/synapse/optim.py: what the loops over the parameters do to the heap.
use python_portfolio.Prelude.{
  ℕ, ◌<◌, ◌≡◌, refl, sym, ap, ◌∙◌, ◌≢◌, ◌⊎◌, inl, inr, true, false, Option, none, some, List, [],
  ◌∷◌, arith, length, get_elem?, set, All, Result, ok, if◌then◌else◌, nat_beq, nat_beq_iff,
  Bool-cases, nat_eq, bytes_eq, string_eq, get_elem?-lt, get_elem?-total, get_elem?-set_self,
  get_elem?-set_ne,
}
use mathlib.Core.Path.{subst}
use python_portfolio.Synapse.Scalar.{Scalar, ◌⊖◌, ◌⊗◌}
use python_portfolio.Synapse.Linalg.{Error, Matrix, item, sub, mul_scalar}
use python_portfolio.Synapse.Linalg.Tables.{table}
use python_portfolio.Synapse.Linalg.Cells.{IsShape-table, entry, sub-table, mul_scalar-table}
use python_portfolio.Synapse.Tensor.{Ref, Tensor, Heap}
use python_portfolio.Synapse.Tensor.Backward.{is_in}
use python_portfolio.Synapse.Tensor.Order.{is_in_self, is_in-other}
use python_portfolio.Synapse.Tensor.Gradient.{IsGraph, IsTensor, GradShape}
use python_portfolio.Synapse.Optim.{Sgd, each_parameter, descend, step_parameter, step, zero_grad}

-- No parameter stands in the list twice.
abbrev pub IsDistinct : List Ref → Type 0
IsDistinct [] = Unit
IsDistinct (p ∷ ps) = (is_in p ps ≡ false) × IsDistinct ps

module _ {A : Type 0} (f : Tensor A → Result Error (Tensor A))
    (new : Ref → Tensor A → Tensor A) where
  each_parameter-new :
      (ps : List Ref) (heap : Heap A)
      → IsDistinct ps
      → All (λ p. (t : Tensor A) × (get_elem? heap p ≡ some t) × (f t ≡ ok (new p t))) ps
      → (heap' : Heap A) × (each_parameter f ps heap ≡ ok heap')
        × ((v : Ref) (t : Tensor A)
            → get_elem? heap v ≡ some t
            → get_elem? heap' v ≡ some (if is_in v ps then new v t else t))
  unfolding each_parameter item is_in
  each_parameter-new [] heap distinct works = (heap, refl, λ v t h. h)
  each_parameter-new (p ∷ ps) heap distinct works =
      let (u, there, made) = works.0 in
      let (heap', ran, after) =
        each_parameter-new ps (set heap p (new p u)) distinct.1 (still ps distinct.0 works.1) in
      (
        heap',
        rw (there, made) ran,
        λ v t h. changed v t h there heap' after (Bool-cases (nat_beq p v)),
      )
    where
      other : (q : Ref) → p ≢ q → get_elem? (set heap p (new p (works.0).0)) q ≡ get_elem? heap q
      other q ne = get_elem?-set_ne heap p q _ ne

      still :
          (qs : List Ref)
          → is_in p qs ≡ false
          → All (λ q. (t : Tensor A) × (get_elem? heap q ≡ some t) × (f t ≡ ok (new q t))) qs
          → All
              (λ q.
                (t : Tensor A) × (get_elem? (set heap p (new p (works.0).0)) q ≡ some t)
                × (f t ≡ ok (new q t)))
              qs
      still [] out all = tt
      still (q ∷ qs) out all =
          let apart : p ≢ q = λ e.
            let first : is_in p (q ∷ qs) ≡ true =
              subst (λ z. is_in p (z ∷ qs) ≡ true) e (is_in_self p qs) in
            cc (out, first) in
          (
            ((all.0).0, other q apart ∙ (all.0).1, (all.0).2),
            still qs (sym (is_in-other p q qs (λ e. apart (sym e))) ∙ out) all.1,
          )

      changed :
          (v : Ref) (t : Tensor A)
          → get_elem? heap v ≡ some t
          → get_elem? heap p ≡ some (works.0).0
          → (heap' : Heap A)
          → ((w : Ref) (t' : Tensor A)
              → get_elem? (set heap p (new p (works.0).0)) w ≡ some t'
              → get_elem? heap' w ≡ some (if is_in w ps then new w t' else t'))
          → (nat_beq p v ≡ true) ⊎ (nat_beq p v ≡ false)
          → get_elem? heap' v ≡ some (if is_in v (p ∷ ps) then new v t else t)
      changed v t h there heap' after (inl same) =
          let e : p ≡ v = (nat_beq_iff p v).0 same in
          let u = (works.0).0 in
          let now : get_elem? (set heap p (new p u)) p ≡ some (new p u) =
            get_elem?-set_self heap p _ (get_elem?-lt heap p there) in
          let at_p : get_elem? heap' p ≡ some (new p u) =
            rw distinct.0 at (after p (new p u) now) in
          let old : u ≡ t = cc (e, there, h) in
          subst (λ w. get_elem? heap' w ≡ some (if is_in w (p ∷ ps) then new w t else t)) e
            (rw (is_in_self p ps) (at_p ∙ ap (λ a. some (new p a)) old))
      changed v t h there heap' after (inr apart) =
          let ne : p ≢ v = λ e. ground (arith, e, apart) in
          rw (is_in-other v p ps ne) (after v t (other v ne ∙ h))

module _ {A : Type 0} ⦃s : Scalar A⦄ (r c : Ref → ℕ) where
  -- The values that `step` gives a parameter.
  abbrev pub descended : A → Ref → Option (Matrix A) → Matrix A → Matrix A
  descended lr v none a = a
  descended lr v (some g) a = table (r v) (c v) (λ i j. entry a i j ⊖ entry g i j ⊗ lr)

  abbrev pub stepped : A → Ref → Tensor A → Tensor A
  stepped lr v t = record t { values = descended lr v t.grad t.values }

  descend-stepped :
      (lr : A) (v : Ref) (t : Tensor A)
      → IsTensor r c v t
      → step_parameter lr t ≡ ok (stepped lr v t)
  unfolding step_parameter
  descend-stepped lr v t n = cases t.grad n.grad_shape
    where
      cases :
          (o : Option (Matrix A))
          → GradShape r c v o
          → descend lr o t ≡ ok (record t { values = descended lr v o t.values })
      cases none shape = refl
      cases (some g) shape =
          let moved : sub t.values (mul_scalar g lr) ≡ ok (descended lr v (some g) t.values) =
            ap (λ a. sub a (mul_scalar g lr)) (IsShape-table n.shape)
            ∙ ap (λ a. sub (table (r v) (c v) (entry t.values)) a)
                (ap (λ a. mul_scalar a lr) (IsShape-table shape)
                  ∙ mul_scalar-table (r v) (c v) _ lr)
            ∙ sub-table (r v) (c v) (r v) (c v) _ _ n.rows_positive (omega arith) (omega arith) in
          rw moved refl

  module _ (o : Sgd A) (heap : Heap A) (graph : IsGraph r c heap)
      (distinct : IsDistinct o.parameters) (known : All (λ p. p < length heap) o.parameters) where
    tensors_known :
        (f : Tensor A → Result Error (Tensor A)) (new : Ref → Tensor A → Tensor A)
        → ((v : Ref) (t : Tensor A) → IsTensor r c v t → f t ≡ ok (new v t))
        → (ps : List Ref) → All (λ p. p < length heap) ps
        → All (λ p. (t : Tensor A) × (get_elem? heap p ≡ some t) × (f t ≡ ok (new p t))) ps
    tensors_known f new works [] h = tt
    tensors_known f new works (p ∷ ps) h =
        let (t, there) = get_elem?-total heap p h.0 in
        ((t, there, works p t (graph p t there)), tensors_known f new works ps h.1)

    -- One step of the optimiser returns. It takes from every number of a parameter the learning rate times
    -- that number's gradient, leaves a parameter without gradient as it is, and changes no other
    -- tensor. The parameters are different tensors of a graph.
    pub step_descends :
        (heap' : Heap A) × (step o heap ≡ ok heap')
        × ((v : Ref) (t : Tensor A)
            → get_elem? heap v ≡ some t
            → get_elem? heap' v ≡ some (if is_in v o.parameters then stepped o.lr v t else t))
    unfolding step
    step_descends =
        each_parameter-new (step_parameter o.lr) (stepped o.lr) o.parameters heap distinct (
          tensors_known (step_parameter o.lr) (stepped o.lr) (descend-stepped o.lr) o.parameters
            known)

    -- `zero_grad` takes the gradient from every parameter, and changes nothing else.
    pub zero_grad_clears :
        (heap' : Heap A) × (zero_grad o heap ≡ ok heap')
        × ((v : Ref) (t : Tensor A)
            → get_elem? heap v ≡ some t
            → get_elem? heap' v
              ≡ some (if is_in v o.parameters then record t { grad = none } else t))
    unfolding zero_grad
    zero_grad_clears =
        each_parameter-new (λ t. ok (record t { grad = none })) (λ v t. record t { grad = none })
          o.parameters heap distinct (tensors_known _ _ (λ v t n. refl) o.parameters known)
