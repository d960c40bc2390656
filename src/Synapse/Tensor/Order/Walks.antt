-- ===== src/Synapse/Tensor/Order/Walks.antt =====
-- synapse_autograd/synapse/tensor.py: `build_topo`.
use python_portfolio.Prelude.{
  ltb→le, zero, suc, ◌<◌, ◌≡◌, refl, sym, ap, ◌∙◌, ◌⊎◌, inl, inr, true, false, some, [], ◌∷◌, ◌++◌,
  arith, All, and_then, ltb, nat_beq, nat_beq_iff, ltb→lt, Bool-cases, nat_eq, bytes_eq, string_eq,
}
use mathlib.Core.Path.{subst}
use python_portfolio.Synapse.Tensor.{Ref, Heap}
use python_portfolio.Synapse.Tensor.Backward.{Walk, is_in, each, children, build_topo, reversed}
use python_portfolio.Synapse.Tensor.Order.{
  IsAcyclic, IsOrdered, reversed-snoc, is_in_self, is_in-more, is_in-other, done,
}
use python_portfolio.Synapse.Tensor.Order.Calls.{
  IsWalk, Extends, Extends-refl, IsParent, Outcome, each-Outcomes,
}

module _ {ℓ} {A : Type ℓ} (heap : Heap A) where
  enter : Ref → Walk → Walk
  enter v w = record w { visited = v ∷ w.visited }

  leave : Ref → Walk → Walk
  leave v w = record w { topo = w.topo ++ (v ∷ []) }

  enter-IsWalk :
      (b v : Ref) (w : Walk)
      → v < b
      → is_in v w.visited ≡ false
      → IsWalk heap b w
      → IsWalk heap v (enter v w)
  unfolding enter
  enter-IsWalk b v w l new p = record {
    ordered = p.ordered;
    closed =
        λ x h m. p.closed x (omega arith) (sym (is_in-other x v w.visited (λ e. omega arith)) ∙ m);
    marked = λ x h. is_in-more x v w.visited (p.marked x h);
  }

  not_listed :
      (b v : Ref) (w : Walk)
      → is_in v w.visited ≡ false
      → IsWalk heap b w
      → is_in v (done w) ≡ false
  not_listed b v w new p = elim (Bool-cases (is_in v (done w))) [
    | inl old ↦ cc (p.marked v old, new)
    | inr fresh ↦ fresh
  ]

  module _ (b v : Ref) (w w' : Walk) (new : is_in v w.visited ≡ false) (p : IsWalk heap b w) where
    leave-IsOrdered :
        IsWalk heap v w'
        → All (λ c. is_in c (done w') ≡ true) (children heap v)
        → Extends heap v (enter v w) w'
        → IsOrdered heap (done (leave v w'))
    unfolding leave enter
    leave-IsOrdered q listed e =
        subst (IsOrdered heap) (sym (reversed-snoc w'.topo v))
          (e.lists v (omega arith) ∙ not_listed b v w new p, listed, q.ordered)

    in_done : (x : Ref) → is_in x (v ∷ done w') ≡ is_in x (done (leave v w'))
    unfolding leave
    in_done x = ap (is_in x) (sym (reversed-snoc w'.topo v))

    leave-closed :
        (x : Ref)
        → x < b
        → IsWalk heap v w'
        → Extends heap v (enter v w) w'
        → is_in x w'.visited ≡ true
        → is_in x (v ∷ done w') ≡ true
    unfolding enter
    leave-closed x l q e h = elim (Bool-cases (nat_beq v x)) [
      | inl same ↦ rw ((nat_beq_iff v x).0 same) (is_in_self x (done w'))
      | inr other ↦ elim (Bool-cases (ltb x v)) [
        | inl below ↦ is_in-more x v (done w') (q.closed x (ltb→lt x v below) h)
        | inr above ↦ is_in-more x v (done w') (
            e.grows x (
              p.closed x l (
                sym (is_in-other x v w.visited (λ same. ground (arith, same, other)))
                ∙ sym (e.marks x (ltb→le x v above))
                ∙ h)))
      ]
    ]

    leave-IsWalk :
        v < b
        → IsWalk heap v w'
        → All (λ c. is_in c (done w') ≡ true) (children heap v)
        → Extends heap v (enter v w) w'
        → IsWalk heap b (leave v w')
    unfolding leave enter
    leave-IsWalk l q listed e = record {
      ordered = leave-IsOrdered q listed e;
      closed = λ x m h. sym (in_done x) ∙ leave-closed x m q e h;
      marked = λ x h. marked x (in_done x ∙ h) (Bool-cases (nat_beq v x));
    }
      where
        self : is_in v w'.visited ≡ true
        self = e.marks v (omega arith) ∙ is_in_self v w.visited

        marked :
            (x : Ref)
            → is_in x (v ∷ done w') ≡ true
            → (nat_beq v x ≡ true) ⊎ (nat_beq v x ≡ false)
            → is_in x w'.visited ≡ true
        marked x h (inl same) =
            subst (λ y. is_in y w'.visited ≡ true) ((nat_beq_iff v x).0 same) self
        marked x h (inr other) =
            q.marked x (sym (is_in-other x v (done w') (λ same. ground (arith, same, other))) ∙ h)

    leave-Extends : Extends heap v (enter v w) w' → Extends heap (suc v) w (leave v w')
    unfolding leave enter
    leave-Extends e = record {
      grows = λ x h. sym (in_done x) ∙ is_in-more x v (done w') (e.grows x h);
      marks = λ x h. e.marks x (omega arith) ∙ is_in-other x v w.visited (λ same. omega arith);
      lists = λ x h.
          sym (in_done x)
          ∙ is_in-other x v (done w') (λ same. omega arith)
          ∙ e.lists x (omega arith);
    }

  leave-reached :
      (v : Ref) (w w' : Walk) (x : Ref)
      → ((y : Ref)
          → is_in y (done w') ≡ true
          → (is_in y (done w) ≡ true) ⊎ (is_in y (children heap v) ≡ true) ⊎ IsParent heap w' y)
      → is_in x (v ∷ done w') ≡ true
      → (is_in x (done w) ≡ true) ⊎ (x ≡ v) ⊎ IsParent heap (leave v w') x
  unfolding leave
  leave-reached v w w' x before h = elim (Bool-cases (nat_beq v x)) [
    | inl same ↦ inr (inl (sym ((nat_beq_iff v x).0 same)))
    | inr other ↦
        elim (before x
          (sym (is_in-other x v (done w') (λ same. ground (arith, same, other))) ∙ h)) [
            | inl old ↦ inl old
            | inr (inl child) ↦ inr (inr (v, listed v (is_in_self v (done w')), child))
            | inr (inr (u, there, child)) ↦
                inr (inr (u, listed u (is_in-more u v (done w') there), child))
          ]
  ]
    where
      listed : (u : Ref) → is_in u (v ∷ done w') ≡ true → is_in u (done (leave v w')) ≡ true
      listed u h = ap (is_in u) (reversed-snoc w'.topo v) ∙ h

  build_topo-Outcome :
      (fuel b v : Ref) (w : Walk)
      → IsAcyclic heap
      → v < fuel
      → v < b
      → IsWalk heap b w
      → Outcome heap b v w (build_topo fuel heap v w)
  unfolding build_topo enter leave
  build_topo-Outcome zero b v w acyclic f l p = absurd (omega arith)
  build_topo-Outcome (suc fuel) b v w acyclic f l p = elim (Bool-cases (is_in v w.visited)) [
    | inl old ↦ record {
      walk = w;
      returned = rw old refl;
      valid = p;
      listed = p.closed v l old;
      extends = Extends-refl heap (suc v) w;
      reached = λ x h. inl h;
    }
    | inr new ↦
        let o =
          each-Outcomes heap v (build_topo fuel heap)
            (λ c u m q. build_topo-Outcome fuel v c u acyclic (omega arith) m q) (children heap v)
            (acyclic v) (enter v w) (enter-IsWalk b v w l new p) in
        record {
          walk = leave v o.walk;
          returned = finish o.returned new;
          valid = leave-IsWalk b v w o.walk new p l o.valid o.listed o.extends;
          listed = sym (in_done b v w o.walk new p v) ∙ is_in_self v (done o.walk);
          extends = leave-Extends b v w o.walk new p o.extends;
          reached = λ x h. leave-reached v w o.walk x o.reached (in_done b v w o.walk new p x ∙ h);
        }
  ]
    where
      finish :
          {w' : Walk}
          → each (build_topo fuel heap) (children heap v) (enter v w) ≡ some w'
          → is_in v w.visited ≡ false
          → build_topo (suc fuel) heap v w ≡ some (leave v w')
      finish h new = rw new (ap (λ o. and_then o (λ u. some (leave v u))) h)

-- `build_topo` of a tensor returns, since its calls go no deeper than the tensor's place in the heap.
-- Behind it, the reversed list holds the tensor and none that was made later; each tensor stands in it
-- once, and before all of its parents, which are in the list too. Nothing else is in the list.
pub build_topo_order {ℓ} :
    {A : Type ℓ} (heap : Heap A) (root fuel : Ref)
    → IsAcyclic heap
    → root < fuel
    → (w : Walk) × (build_topo fuel heap root (record { topo = []; visited = [] }) ≡ some w)
      × IsOrdered heap (reversed w.topo)
      × (is_in root (reversed w.topo) ≡ true)
      × ((x : Ref) → root < x → is_in x (reversed w.topo) ≡ false)
      × ((x : Ref) → is_in x (reversed w.topo) ≡ true → (x ≡ root) ⊎ IsParent heap w x)
unfolding is_in
build_topo_order heap root fuel acyclic f =
    let o =
      build_topo-Outcome heap fuel (suc root) root (record { topo = []; visited = [] }) acyclic f
        (omega arith) (record { ordered = tt; closed = λ x l h. h; marked = λ x h. h }) in
    (
      o.walk,
      o.returned,
      o.valid.ordered,
      o.listed,
      λ x l. o.extends.lists x (omega (arith, l)),
      λ x h. elim (o.reached x h) [ inl none_yet ↦ cc none_yet | inr how ↦ how ],
    )
