-- ===== src/Synapse/Tensor/Order.antt =====
-- synapse_autograd/synapse/tensor.py: the order in which `backward` visits the tensors.
pub mod Calls
pub mod Walks
use python_portfolio.Prelude.{
  ◌+◌, ◌-◌, ◌<◌, ◌≡◌, refl, ap, ◌≢◌, true, false, List, [], ◌∷◌, ◌++◌, arith, All, any,
  nat_beq_refl, nat_eq, bytes_eq, string_eq, beq_ne,
}
use mathlib.Core.Path.{subst}
use python_portfolio.Synapse.Tensor.{Ref, Heap}
use python_portfolio.Synapse.Tensor.Backward.{Walk, is_in, each, children, build_topo, reversed}

-- Every tensor was made after its parents.
abbrev pub IsAcyclic {ℓ} : {A : Type ℓ} → Heap A → Type 0
IsAcyclic heap = (v : Ref) → All (λ c. c < v) (children heap v)

-- The order of the backward pass: each tensor once, and its parents behind it.
abbrev pub IsOrdered {ℓ} : {A : Type ℓ} → Heap A → List Ref → Type 0
IsOrdered heap [] = Unit
IsOrdered heap (v ∷ vs) =
    (is_in v vs ≡ false) × All (λ c. is_in c vs ≡ true) (children heap v) × IsOrdered heap vs

pub reversed-snoc : (vs : List Ref) (v : Ref) → reversed (vs ++ (v ∷ [])) ≡ v ∷ reversed vs
reversed-snoc [] v = refl
reversed-snoc (u ∷ vs) v = ap (λ t. t ++ (u ∷ [])) (reversed-snoc vs v)

pub is_in_self : (v : Ref) (vs : List Ref) → is_in v (v ∷ vs) ≡ true
unfolding is_in
is_in_self v vs = rw (nat_beq_refl v) refl

pub is_in-more : (x v : Ref) (vs : List Ref) → is_in x vs ≡ true → is_in x (v ∷ vs) ≡ true
unfolding is_in
is_in-more x v vs h = ground (arith, h)

pub is_in-other : (x v : Ref) (vs : List Ref) → v ≢ x → is_in x (v ∷ vs) ≡ is_in x vs
unfolding is_in
is_in-other x v vs h = rw (beq_ne v x h) refl

-- The tensors of a walk in the order of the backward pass.
abbrev pub done : Walk → List Ref
done w = reversed w.topo
