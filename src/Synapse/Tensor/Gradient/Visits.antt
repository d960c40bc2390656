-- ===== src/Synapse/Tensor/Gradient/Visits.antt =====
-- synapse_autograd/synapse/tensor.py: one tensor of the loop of `backward`.
use python_portfolio.Prelude.{
  ℕ, ◌≡◌, refl, sym, ap, ◌∙◌, ◌⊎◌, inl, inr, Bool, true, false, ◌||◌, none, some, List, [], ◌∷◌,
  arith, length, get_elem?, All, ok, ◌>>=◌, if◌then◌else◌, nat_beq, nat_beq_iff, Bool-cases, nat_eq,
  bytes_eq, string_eq, get_elem?-lt,
}
use mathlib.Core.Path.{subst}
use python_portfolio.Synapse.Scalar.{Scalar, IsExact, ◌⊕◌}
use python_portfolio.Synapse.Scalar.Sum.{sum_congr}
use python_portfolio.Synapse.Scalar.Pairing.{Cells, sum_grows}
use python_portfolio.Synapse.Linalg.{item}
use python_portfolio.Synapse.Tensor.{
  Ref, Ctx, nothing, add_step, mul_step, matmul_step, relu_step, sum_step, Tensor, Heap,
}
use python_portfolio.Synapse.Tensor.Backward.{is_in, children, run_ctx}
use python_portfolio.Synapse.Tensor.Order.{IsOrdered, is_in_self, is_in-more, is_in-other}
use python_portfolio.Synapse.Tensor.Gradient.{IsGraph, IsRule, IsTangent, is_leaf}
use python_portfolio.Synapse.Tensor.Gradient.State.{Grads, IsState, IsThere}
use python_portfolio.Synapse.Tensor.Gradient.Steps.{weight, total}
use python_portfolio.Synapse.Tensor.Gradient.Moves.{run_ctx-Moved, IsCounted}

pub All-is_in : (P : Ref → Type 0) (cs : List Ref) (z : Ref) → All P cs → is_in z cs ≡ true → P z
unfolding is_in
All-is_in P [] z a b = cc b
All-is_in P (q ∷ cs) z a b = elim (Bool-cases (nat_beq q z)) [
  | inl same ↦ subst P ((nat_beq_iff q z).0 same) a.0
  | inr other ↦
      All-is_in P cs z a.1 (sym (is_in-other z q cs (λ same. ground (arith, same, other))) ∙ b)
]

is_in-split : (z q : Ref) (cs : List Ref) → is_in z (q ∷ cs) ≡ true → (q ≡ z) ⊎ (is_in z cs ≡ true)
is_in-split z q cs b = elim (Bool-cases (nat_beq q z)) [
  | inl same ↦ inl ((nat_beq_iff q z).0 same)
  | inr other ↦ inr (sym (is_in-other z q cs (λ same. ground (arith, same, other))) ∙ b)
]

module _ {A : Type 0} (heap : Heap A) where
  abbrev pub leaf_at : Ref → Bool
  leaf_at v = elim (get_elem? heap v) [ none ↦ false | some t ↦ is_leaf t.ctx ]

  -- The leaves, and the tensors that are still to be visited.
  abbrev pub open_in : List Ref → Ref → Bool
  open_in vs v = leaf_at v || is_in v vs

  parent_behind :
      (v : Ref) (vs : List Ref) (u y : Ref)
      → IsOrdered heap (v ∷ vs)
      → is_in u (v ∷ vs) ≡ true
      → is_in y (children heap u) ≡ true
      → is_in y vs ≡ true
  unfolding is_in
  parent_behind v [] u y o h m = elim (is_in-split u v [] h) [
    | inl same ↦
        All-is_in (λ q. is_in q [] ≡ true) (children heap v) y o.1
          (subst (λ z. is_in y (children heap z) ≡ true) (sym same) m)
    | inr more ↦ nowhere more
  ]
    where
      nowhere : is_in u [] ≡ true → is_in y [] ≡ true
      nowhere e = cc e
  parent_behind v (w ∷ vs) u y o h m = elim (is_in-split u v (w ∷ vs) h) [
    | inl same ↦
        All-is_in (λ q. is_in q (w ∷ vs) ≡ true) (children heap v) y o.1
          (subst (λ z. is_in y (children heap z) ≡ true) (sym same) m)
    | inr more ↦ is_in-more y w vs (parent_behind w vs u y o.2 more m)
  ]

  -- A tensor has a gradient, or will get one from a tensor that it is a parent of.
  abbrev pub IsReady : List Ref → Grads A → Ref → Type 0
  IsReady vs g y =
      IsThere (g y) ⊎ (u : Ref) × (is_in u vs ≡ true) × (is_in y (children heap u) ≡ true)

  pub first_there :
      (v : Ref) (vs : List Ref) (g : Grads A)
      → IsOrdered heap (v ∷ vs)
      → IsReady (v ∷ vs) g v
      → IsThere (g v)
  first_there v vs g o (inl there) = there
  first_there v vs g o (inr (u, h, m)) = cc (o.0, parent_behind v vs u v o h m)

  next_ready :
      (v : Ref) (vs : List Ref) (g g' : Grads A) (y : Ref)
      → (IsThere (g y) → IsThere (g' y))
      → (is_in y (children heap v) ≡ true → IsThere (g' y))
      → IsReady (v ∷ vs) g y
      → IsReady vs g' y
  next_ready v vs g g' y keeps gives (inl there) = inl (keeps there)
  next_ready v vs g g' y keeps gives (inr (u, h, m)) = elim (is_in-split u v vs h) [
    | inl same ↦ inl (gives (subst (λ z. is_in y (children heap z) ≡ true) (sym same) m))
    | inr more ↦ inr (u, more, m)
  ]

leaf-idle :
    {A : Type 0} ⦃s : Scalar A⦄ (ctx : Ctx) (heap : Heap A)
    → is_leaf ctx ≡ true
    → run_ctx ctx heap ≡ ok heap
unfolding run_ctx
leaf-idle nothing heap h = refl
leaf-idle (add_step a b o) heap h = cc h
leaf-idle (mul_step a b o) heap h = cc h
leaf-idle (matmul_step a b o) heap h = cc h
leaf-idle (relu_step a o) heap h = cc h
leaf-idle (sum_step a o) heap h = cc h

leaf-orphan :
    (r c : Ref → ℕ) (v : Ref) (prev : List Ref) (ctx : Ctx)
    → is_leaf ctx ≡ true
    → IsRule r c v prev ctx
    → prev ≡ []
leaf-orphan r c v prev nothing h rule = rule
leaf-orphan r c v prev (add_step a b o) h rule = cc h
leaf-orphan r c v prev (mul_step a b o) h rule = cc h
leaf-orphan r c v prev (matmul_step a b o) h rule = cc h
leaf-orphan r c v prev (relu_step a o) h rule = cc h
leaf-orphan r c v prev (sum_step a o) h rule = cc h

module _ {A : Type 0} ⦃s : Scalar A⦄ (x : IsExact s) (r c : Ref → ℕ) (start : Heap A)
    (d : Ref → Cells A) (graph : IsGraph r c start) (tangent : IsTangent r c start d) where
  abbrev pub open_total : List Ref → Grads A → A
  open_total vs g = total x r c start d (open_in start vs) g

  module _ (v : Ref) (vs : List Ref) (t : Tensor A) (there : get_elem? start v ≡ some t)
      (order : IsOrdered start (v ∷ vs)) where
    pub children_prev : children start v ≡ t.prev
    unfolding children
    children_prev = rw (there, children) refl

    pub leaf_there : leaf_at start v ≡ is_leaf t.ctx
    leaf_there = rw (there, leaf_at) refl

    leaf_amount : (g : Grads A) → is_leaf t.ctx ≡ true → open_total vs g ≡ open_total (v ∷ vs) g
    leaf_amount g leaf = sum_congr (length start) _ _ (λ y l.
        ap (λ b. if b then weight x r c start d g y else s.nought)
          (same y (Bool-cases (nat_beq v y))))
      where
        same :
            (y : Ref)
            → (nat_beq v y ≡ true) ⊎ (nat_beq v y ≡ false)
            → open_in start vs y ≡ open_in start (v ∷ vs) y
        same y (inl e) =
            subst (λ z. open_in start vs z ≡ open_in start (v ∷ vs) z) ((nat_beq_iff v y).0 e)
              (rw (leaf_there ∙ leaf) refl)
        same y (inr e) =
            ap (λ b. leaf_at start y || b) (sym (is_in-other y v vs (λ e'. ground (arith, e, e'))))

    inner_amount :
        (g : Grads A)
        → is_leaf t.ctx ≡ false
        → open_total (v ∷ vs) g ≡ open_total vs g ⊕ weight x r c start d g v
    inner_amount g inner =
        sum_grows x (length start) _ _ v _ (get_elem?-lt start v there)
          (λ y ne.
            ap (λ b. if leaf_at start y || b then weight x r c start d g y else s.nought)
              (is_in-other y v vs (λ e. ne (sym e))))
          (rw (leaf_there ∙ inner, is_in_self v vs, order.0) (sym (x.nought-plus _)))

    -- The head of the list has been visited: what is open is worth as much as before.
    pub record Visited (heap : Heap A) (g : Grads A) : Type 0 where
      pub heap' : Heap A
      pub grads : Grads A
      pub returned : (item heap v >>= λ u. run_ctx u.ctx heap) ≡ ok heap'
      pub state : IsState r c start heap' grads
      pub amount : open_total vs grads ≡ open_total (v ∷ vs) g
      pub ready : (y : Ref) → IsReady start (v ∷ vs) g y → IsReady start vs grads y

    module _ {heap : Heap A} {g : Grads A} (st : IsState r c start heap g)
        (listed : (y : Ref) → is_in y vs ≡ true → (u : Tensor A) × (get_elem? start y ≡ some u))
        (has : IsThere (g v)) where
      visited_ctx : (item heap v >>= λ u. run_ctx u.ctx heap) ≡ run_ctx t.ctx heap
      unfolding item
      visited_ctx = rw (st.tensors v t there) refl

      visit_leaf : is_leaf t.ctx ≡ true → Visited heap g
      unfolding is_in
      visit_leaf leaf = record {
        heap' = heap;
        grads = g;
        returned = visited_ctx ∙ leaf-idle t.ctx heap leaf;
        state = st;
        amount = leaf_amount g leaf;
        ready = λ y. next_ready start v vs g g y (λ h. h) (λ m. cc (sym (none_of y) ∙ m));
      }
        where
          none_of : (y : Ref) → is_in y (children start v) ≡ false
          none_of y =
              ap (is_in y)
                (children_prev ∙ leaf-orphan r c v t.prev t.ctx leaf (graph v t there).rule)

      visit_inner : is_leaf t.ctx ≡ false → Visited heap g
      visit_inner inner =
          let m =
            run_ctx-Moved x r c start d graph (open_in start vs) st v t there closed has.0 has.1
              t.ctx t.prev (graph v t there).rule inner (tangent v t there)
              (counted t.prev (subst (All (λ q. is_in q vs ≡ true)) children_prev order.1)) in
          record {
            heap' = (m.run).heap';
            grads = (m.run).grads;
            returned = visited_ctx ∙ (m.run).returned;
            state = (m.run).state;
            amount = (m.run).gains.amount ∙ sym (inner_amount g inner);
            ready = λ y. next_ready start v vs g (m.run).grads y ((m.run).gains.keeps y) (λ h.
                All-is_in (λ q. IsThere ((m.run).grads q)) t.prev y m.given
                  (ap (is_in y) (sym children_prev) ∙ h));
          }
        where
          closed : open_in start vs v ≡ false
          closed = rw (leaf_there ∙ inner, order.0) refl

          or_true : (b : Bool) → (b || true) ≡ true
          or_true true = refl
          or_true false = refl

          open_listed : (q : Ref) → is_in q vs ≡ true → open_in start vs q ≡ true
          open_listed q h = rw h (or_true (leaf_at start q))

          counted :
              (ps : List Ref)
              → All (λ q. is_in q vs ≡ true) ps
              → All (IsCounted x r c start d graph (open_in start vs)) ps
          counted [] h = tt
          counted (q ∷ ps) h = ((listed q h.0, open_listed q h.0), counted ps h.1)

      pub visit : Visited heap g
      visit = elim (Bool-cases (is_leaf t.ctx)) [
        | inl leaf ↦ visit_leaf leaf
        | inr inner ↦ visit_inner inner
      ]
