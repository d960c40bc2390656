-- ===== src/Synapse/Tensor/Gradient/Propagation.antt =====
-- synapse_autograd/synapse/tensor.py: the loop of `backward`.
use python_portfolio.Prelude.{
  ℕ, ◌≡◌, refl, sym, ap, ◌∙◌, Bool, true, false, ◌||◌, some, List, [], ◌∷◌, get_elem?, Result, ok,
  ◌>>=◌, bind_assoc, nat_eq, bytes_eq, string_eq,
}
use python_portfolio.Synapse.Scalar.{Scalar, IsExact}
use python_portfolio.Synapse.Scalar.Pairing.{Cells}
use python_portfolio.Synapse.Linalg.{Error, item}
use python_portfolio.Synapse.Tensor.{Ref, Tensor, Heap}
use python_portfolio.Synapse.Tensor.Backward.{is_in, run_ctx, propagate}
use python_portfolio.Synapse.Tensor.Order.{IsOrdered, is_in_self, is_in-more}
use python_portfolio.Synapse.Tensor.Gradient.{IsGraph, IsTangent}
use python_portfolio.Synapse.Tensor.Gradient.State.{Grads, IsState}
use python_portfolio.Synapse.Tensor.Gradient.Visits.{open_total, IsReady, first_there, visit}

pub or_true : (b : Bool) → (b || true) ≡ true
or_true true = refl
or_true false = refl

module _ {A : Type 0} ⦃s : Scalar A⦄ (x : IsExact s) (r c : Ref → ℕ) (start : Heap A)
    (d : Ref → Cells A) (graph : IsGraph r c start) (tangent : IsTangent r c start d) where
  abbrev pub open_worth : List Ref → Grads A → A
  open_worth = open_total x r c start d graph tangent

  -- The loop over the list has returned, and the leaves are worth what was open.
  pub record Propagated (vs : List Ref) (g : Grads A) (result : Result Error (Heap A))
      : Type 0 where
    pub heap' : Heap A
    pub grads : Grads A
    pub returned : result ≡ ok heap'
    pub state : IsState r c start heap' grads
    pub amount : open_worth [] grads ≡ open_worth vs g

  pub propagate-Propagated :
      (vs : List Ref) {heap : Heap A} {g : Grads A}
      → IsOrdered start vs
      → ((y : Ref) → is_in y vs ≡ true → (u : Tensor A) × (get_elem? start y ≡ some u))
      → IsState r c start heap g
      → ((y : Ref) → is_in y vs ≡ true → IsReady start vs g y)
      → Propagated vs g (propagate vs heap)
  unfolding propagate
  propagate-Propagated [] {heap} {g} order listed st ready = record {
    heap' = heap;
    grads = g;
    returned = refl;
    state = st;
    amount = refl;
  }
  propagate-Propagated (v ∷ vs) {heap} {g} order listed st ready =
      let (t, there) = listed v (is_in_self v vs) in
      let later : (y : Ref) → is_in y vs ≡ true → is_in y (v ∷ vs) ≡ true =
        λ y h. is_in-more y v vs h in
      let has = first_there start v vs g order (ready v (is_in_self v vs)) in
      let p =
        visit x r c start d graph tangent v vs t there order st (λ y h. listed y (later y h)) has in
      let q =
        propagate-Propagated vs order.2 (λ y h. listed y (later y h)) p.state
          (λ y h. p.ready y (ready y (later y h))) in
      record {
        heap' = q.heap';
        grads = q.grads;
        returned =
            sym (bind_assoc (item heap v) (λ u. run_ctx u.ctx heap) (propagate vs))
            ∙ ap (λ m. m >>= propagate vs) p.returned
            ∙ q.returned;
        state = q.state;
        amount = q.amount ∙ p.amount;
      }
