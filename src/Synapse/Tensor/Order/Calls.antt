-- ===== src/Synapse/Tensor/Order/Calls.antt =====
-- synapse_autograd/synapse/tensor.py: the calls of `build_topo` on the parents of a tensor.
use python_portfolio.Prelude.{
  suc, ◌≤◌, ◌<◌, ◌≡◌, refl, sym, ◌∙◌, ◌⊎◌, inl, inr, true, Option, some, List, [], ◌∷◌, arith, All,
  nat_eq, bytes_eq, string_eq,
}
use mathlib.Core.Path.{subst}
use python_portfolio.Synapse.Tensor.{Ref, Heap}
use python_portfolio.Synapse.Tensor.Backward.{Walk, is_in, each, children}
use python_portfolio.Synapse.Tensor.Order.{IsOrdered, is_in_self, is_in-more, done}

module _ {ℓ} {A : Type ℓ} (heap : Heap A) where
  -- Tensors below `b` are no longer on the stack of calls.
  pub record IsWalk (b : Ref) (w : Walk) : Type 0 where
    pub ordered : IsOrdered heap (done w)
    pub closed : (x : Ref) → x < b → is_in x w.visited ≡ true → is_in x (done w) ≡ true
    pub marked : (x : Ref) → is_in x (done w) ≡ true → is_in x w.visited ≡ true

  -- From `w` to `w'` only tensors below `b` were marked or listed, and none was lost.
  pub record Extends (b : Ref) (w w' : Walk) : Type 0 where
    pub grows : (x : Ref) → is_in x (done w) ≡ true → is_in x (done w') ≡ true
    pub marks : (x : Ref) → b ≤ x → is_in x w'.visited ≡ is_in x w.visited
    pub lists : (x : Ref) → b ≤ x → is_in x (done w') ≡ is_in x (done w)

  pub Extends-refl : (b : Ref) (w : Walk) → Extends b w w
  Extends-refl b w = record { grows = λ x h. h; marks = λ x h. refl; lists = λ x h. refl }

  pub Extends-trans : (b : Ref) {u v w : Walk} → Extends b u v → Extends b v w → Extends b u w
  Extends-trans b p q = record {
    grows = λ x h. q.grows x (p.grows x h);
    marks = λ x h. q.marks x h ∙ p.marks x h;
    lists = λ x h. q.lists x h ∙ p.lists x h;
  }

  pub Extends-wider : (b c : Ref) {w w' : Walk} → b ≤ c → Extends b w w' → Extends c w w'
  Extends-wider b c l p = record {
    grows = p.grows;
    marks = λ x h. p.marks x (omega arith);
    lists = λ x h. p.lists x (omega arith);
  }

  -- `x` is a parent of a listed tensor.
  abbrev pub IsParent : Walk → Ref → Type 0
  IsParent w x = (u : Ref) × (is_in u (done w) ≡ true) × (is_in x (children heap u) ≡ true)

  pub Extends-IsParent :
      {b : Ref} {w w' : Walk} (x : Ref) → Extends b w w' → IsParent w x → IsParent w' x
  Extends-IsParent x e (u, h, c) = (u, e.grows u h, c)

  -- `build_topo` of `c` returned from `w`, in a call whose stack starts at `b`.
  pub record Outcome (b c : Ref) (w : Walk) (result : Option Walk) : Type 0 where
    pub walk : Walk
    pub returned : result ≡ some walk
    pub valid : IsWalk b walk
    pub listed : is_in c (done walk) ≡ true
    pub extends : Extends (suc c) w walk
    pub reached :
        (x : Ref)
        → is_in x (done walk) ≡ true
        → (is_in x (done w) ≡ true) ⊎ (x ≡ c) ⊎ IsParent walk x

  pub record Outcomes (b : Ref) (cs : List Ref) (w : Walk) (result : Option Walk) : Type 0 where
    pub walk : Walk
    pub returned : result ≡ some walk
    pub valid : IsWalk b walk
    pub listed : All (λ c. is_in c (done walk) ≡ true) cs
    pub extends : Extends b w walk
    pub reached :
        (x : Ref)
        → is_in x (done walk) ≡ true
        → (is_in x (done w) ≡ true) ⊎ (is_in x cs ≡ true) ⊎ IsParent walk x

  pub each-Outcomes :
      (b : Ref) (f : Ref → Walk → Option Walk)
      → ((c : Ref) (w : Walk) → c < b → IsWalk b w → Outcome b c w (f c w))
      → (cs : List Ref) → All (λ c. c < b) cs
      → (w : Walk) → IsWalk b w
      → Outcomes b cs w (each f cs w)
  unfolding each
  each-Outcomes b f visit [] below w v = record {
    walk = w;
    returned = refl;
    valid = v;
    listed = tt;
    extends = Extends-refl b w;
    reached = λ x h. inl h;
  }
  each-Outcomes b f visit (c ∷ cs) below w v =
      let o = visit c w below.0 v in
      let more = each-Outcomes b f visit cs below.1 o.walk o.valid in
      record {
        walk = more.walk;
        returned = rw o.returned more.returned;
        valid = more.valid;
        listed = (more.extends.grows c o.listed, more.listed);
        extends =
            Extends-trans b (Extends-wider (suc c) b (omega (arith, below.0)) o.extends)
              more.extends;
        reached = λ x h. whence x (more.reached x h) o.reached more.extends;
      }
    where
      whence :
          {u u' : Walk} (x : Ref)
          → (is_in x (done u) ≡ true) ⊎ (is_in x cs ≡ true) ⊎ IsParent u' x
          → ((y : Ref)
              → is_in y (done u) ≡ true
              → (is_in y (done w) ≡ true) ⊎ (y ≡ c) ⊎ IsParent u y)
          → Extends b u u'
          → (is_in x (done w) ≡ true) ⊎ (is_in x (c ∷ cs) ≡ true) ⊎ IsParent u' x
      whence x (inl there) first e = elim (first x there) [
        | inl old ↦ inl old
        | inr (inl self) ↦
            inr (inl (subst (λ y. is_in y (c ∷ cs) ≡ true) (sym self) (is_in_self c cs)))
        | inr (inr parent) ↦ inr (inr (Extends-IsParent x e parent))
      ]
      whence x (inr (inl h)) first e = inr (inl (is_in-more x c cs h))
      whence x (inr (inr h)) first e = inr (inr h)
