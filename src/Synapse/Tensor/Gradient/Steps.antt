-- ===== src/Synapse/Tensor/Gradient/Steps.antt =====
-- synapse_autograd/synapse/tensor.py: what the `_backward` closures add to the gradients, measured
-- against a change of the tensors.
use python_portfolio.Prelude.{
  ℕ, ◌<◌, ◌≡◌, refl, sym, ap, ◌∙◌, ◌≢◌, ◌⊎◌, inl, inr, Bool, true, false, Option, none, some,
  length, get_elem?, Result, ok, if◌then◌else◌, nat_beq, nat_beq_refl, Bool-cases, nat_eq, bytes_eq,
  string_eq, beq_ne, get_elem?-lt,
}
use python_portfolio.Synapse.Scalar.{Scalar, IsExact, ◌⊕◌}
use python_portfolio.Synapse.Scalar.Sum.{sum, plus-nought}
use python_portfolio.Synapse.Scalar.Pairing.{Cells, pairing, pairing_congr, plus-pairing, sum_grows}
use python_portfolio.Synapse.Linalg.{Error, Matrix}
use python_portfolio.Synapse.Linalg.Tables.{table}
use python_portfolio.Synapse.Linalg.Product.{zeros-table}
use python_portfolio.Synapse.Linalg.Cells.{entry, entry-table}
use python_portfolio.Synapse.Tensor.{Ref, Tensor, Heap}
use python_portfolio.Synapse.Tensor.Backward.{ensure_grad, add_grad}
use python_portfolio.Synapse.Tensor.Gradient.{IsGraph}
use python_portfolio.Synapse.Tensor.Gradient.State.{
  Grads, put, IsState, cells, IsThere, initialised, ensure_grad-State, add_grad-State,
}

module _ {A : Type 0} ⦃s : Scalar A⦄ (x : IsExact s) (r c : Ref → ℕ) (start : Heap A)
    (d : Ref → Cells A) where
  abbrev pub weight : Grads A → Ref → A
  weight g v = pairing (r v) (c v) (cells (g v)) (d v)

  -- The gradients of the tensors in the mask, paired with the change.
  abbrev pub total : (Ref → Bool) → Grads A → A
  total mask g = sum (length start) (λ v. if mask v then weight g v else s.nought)

  pub record Gains (mask : Ref → Bool) (g g' : Grads A) (e : A) : Type 0 where
    pub amount : total mask g' ≡ total mask g ⊕ e
    pub keeps : (y : Ref) → IsThere (g y) → IsThere (g' y)
    pub fixed : (y : Ref) → mask y ≡ false → g' y ≡ g y

  -- A run that returned in a state with those gains.
  pub record Performed (mask : Ref → Bool) (g : Grads A) (result : Result Error (Heap A)) (e : A)
      : Type 0 where
    pub heap' : Heap A
    pub grads : Grads A
    pub returned : result ≡ ok heap'
    pub state : IsState r c start heap' grads
    pub gains : Gains mask g grads e

  pub Gains-refl : (mask : Ref → Bool) (g : Grads A) → Gains mask g g s.nought
  Gains-refl mask g = record {
    amount = sym (plus-nought x _);
    keeps = λ y h. h;
    fixed = λ y h. refl;
  }

  pub Gains-trans :
      {mask : Ref → Bool} {f g h : Grads A} {e e' : A}
      → Gains mask f g e
      → Gains mask g h e'
      → Gains mask f h (e ⊕ e')
  Gains-trans {e = e} {e' = e'} p q = record {
    amount = q.amount ∙ ap (λ t. t ⊕ e') p.amount ∙ x.plus_assoc _ e e';
    keeps = λ y h. q.keeps y (p.keeps y h);
    fixed = λ y h. q.fixed y h ∙ p.fixed y h;
  }

  module _ (mask : Ref → Bool) (g : Grads A) (v : Ref) (inside : v < length start)
      (counted : mask v ≡ true) (m : Matrix A) (e : A)
      (grown : pairing (r v) (c v) (entry m) (d v)
        ≡ pairing (r v) (c v) (cells (g v)) (d v) ⊕ e) where
    put_self : put g v m v ≡ some m
    put_self = rw (nat_beq_refl v) refl

    put_other : (y : Ref) → y ≢ v → put g v m y ≡ g y
    put_other y ne = rw (beq_ne v y (λ same. ne (sym same))) refl

    pub put-Gains : Gains mask g (put g v m) e
    put-Gains = record {
      amount =
          sum_grows x (length start) _ _ v e inside
            (λ y ne.
              ap (λ o. if mask y then pairing (r y) (c y) (cells o) (d y) else s.nought)
                (put_other y ne))
            (rw (counted, nat_beq_refl v) grown);
      keeps = λ y h. keeps y h (Bool-cases (nat_beq v y));
      fixed = λ y h. put_other y (λ same. cc (same, h, counted));
    }
      where
        keeps :
            (y : Ref)
            → IsThere (g y)
            → (nat_beq v y ≡ true) ⊎ (nat_beq v y ≡ false)
            → IsThere (put g v m y)
        keeps y h (inl self) = rw self (m, refl)
        keeps y h (inr other) = rw other h

  module _ (graph : IsGraph r c start) (mask : Ref → Bool) {heap : Heap A} {g : Grads A}
      (st : IsState r c start heap g) (v : Ref) (t : Tensor A) (there : get_elem? start v ≡ some t)
      (counted : mask v ≡ true) where
    inside : v < length start
    inside = get_elem?-lt start v there

    pub ensure_grad-Performed :
        (p : Performed mask g (ensure_grad v heap) s.nought) × IsThere (p.grads v)
    ensure_grad-Performed =
        let (heap', returned, q) = ensure_grad-State r c start graph st v t there in
        (
          record {
            heap' = heap';
            grads = put g v (initialised r c start graph st v t there (g v));
            returned = returned;
            state = q;
            gains =
                put-Gains mask g v inside counted _ s.nought (cases (g v) ∙ sym (plus-nought x _));
          },
          (initialised r c start graph st v t there (g v), rw (nat_beq_refl v) refl),
        )
      where
        cases :
            (o : Option (Matrix A))
            → pairing (r v) (c v) (entry (initialised r c start graph st v t there o)) (d v)
              ≡ pairing (r v) (c v) (cells o) (d v)
        cases none =
            pairing_congr (r v) (c v) _ (d v) _ (d v)
              (λ i j l m.
                ap (λ a. entry a i j) (zeros-table (r v) (c v)) ∙ entry-table (r v) (c v) _ i j l m)
              (λ i j l m. refl)
        cases (some m) = refl

    pub add_grad-Performed :
        (a : Matrix A) (f : Cells A)
        → a ≡ table (r v) (c v) f
        → IsThere (g v)
        → Performed mask g (add_grad v a heap) (pairing (r v) (c v) f (d v))
    add_grad-Performed a f e (m, has) =
        let (heap', returned, q) = add_grad-State r c start graph st v t there m f has in
        record {
          heap' = heap';
          grads = put g v (table (r v) (c v) (λ i j. entry m i j ⊕ f i j));
          returned = ap (λ b. add_grad v b heap) e ∙ returned;
          state = q;
          gains = put-Gains mask g v inside counted _ _ grown;
        }
      where
        grown :
            pairing (r v) (c v) (entry (table (r v) (c v) (λ i j. entry m i j ⊕ f i j))) (d v)
            ≡ pairing (r v) (c v) (cells (g v)) (d v) ⊕ pairing (r v) (c v) f (d v)
        grown =
            pairing_congr (r v) (c v) _ (d v) _ (d v) (λ i j l q. entry-table (r v) (c v) _ i j l q)
              (λ i j l q. refl)
            ∙ plus-pairing x (r v) (c v) (entry m) f (d v)
            ∙ ap (λ o. pairing (r v) (c v) (cells o) (d v) ⊕ pairing (r v) (c v) f (d v)) (sym has)
