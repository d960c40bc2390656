-- ===== src/Synapse/Tensor/Gradient.antt =====
-- synapse_autograd/synapse/tensor.py: what a graph of tensors is, and the derivative of its operations.
pub mod State
pub mod Steps
pub mod Closures
pub mod Adjoint
pub mod Moves
pub mod Visits
pub mod Propagation
pub mod Chain
pub mod Building
use python_portfolio.Prelude.{
  ℕ, ◌<◌, ◌≡◌, Bool, true, false, Option, none, some, List, [], ◌∷◌, arith, get_elem?, All, any,
  nat_eq, bytes_eq, string_eq,
}
use python_portfolio.Synapse.Scalar.{Scalar, ◌⊕◌, ◌⊗◌}
use python_portfolio.Synapse.Scalar.Sum.{sum}
use python_portfolio.Synapse.Scalar.Pairing.{Cells}
use python_portfolio.Synapse.Linalg.{Matrix, slope}
use python_portfolio.Synapse.Linalg.Cells.{IsShape, entry}
use python_portfolio.Synapse.Tensor.{
  Ref, Ctx, nothing, add_step, mul_step, matmul_step, relu_step, sum_step, pair_set, Tensor, Heap,
}

abbrev pub is_leaf : Ctx → Bool
is_leaf nothing = true
is_leaf _ = false

-- The rows and the columns of every tensor are `r` and `c`.
module _ (r c : Ref → ℕ) where
  abbrev pub SameShape : Ref → Ref → Type 0
  SameShape a v = (r a ≡ r v) × (c a ≡ c v)

  -- The parents of a tensor, and how the shapes of an operation fit.
  abbrev pub IsRule : Ref → List Ref → Ctx → Type 0
  IsRule v prev nothing = prev ≡ []
  IsRule v prev (add_step a b o) = (o ≡ v) × (prev ≡ pair_set a b) × SameShape a v × SameShape b v
  IsRule v prev (mul_step a b o) = (o ≡ v) × (prev ≡ pair_set a b) × SameShape a v × SameShape b v
  IsRule v prev (matmul_step a b o) =
      (o ≡ v) × (prev ≡ pair_set a b) × (r a ≡ r v) × (c a ≡ r b) × (c b ≡ c v)
  IsRule v prev (relu_step a o) = (o ≡ v) × (prev ≡ a ∷ []) × SameShape a v
  IsRule v prev (sum_step a o) = (o ≡ v) × (prev ≡ a ∷ []) × (r v ≡ 1) × (c v ≡ 1)

  module _ {A : Type 0} where
    abbrev pub GradShape : Ref → Option (Matrix A) → Type 0
    GradShape v none = Unit
    GradShape v (some m) = IsShape (r v) (c v) m

    pub record IsTensor (v : Ref) (t : Tensor A) : Type 0 where
      pub shape : IsShape (r v) (c v) t.values
      pub rows_positive : 0 < r v
      pub columns_positive : 0 < c v
      pub older : All (λ p. p < v) t.prev
      pub rule : IsRule v t.prev t.ctx
      pub grad_shape : GradShape v t.grad

    abbrev pub IsGraph : Heap A → Type 0
    IsGraph heap = (v : Ref) (t : Tensor A) → get_elem? heap v ≡ some t → IsTensor v t

module _ {A : Type 0} ⦃s : Scalar A⦄ where
  abbrev pub values_at : Heap A → Ref → Cells A
  values_at heap v = elim (get_elem? heap v) [ none ↦ λ i j. s.nought | some t ↦ entry t.values ]

  module _ (r c : Ref → ℕ) (heap : Heap A) (d : Ref → Cells A) where
    -- `d` of the result of an operation is the derivative of the operation at `d` of its operands.
    abbrev pub IsDerivative : Ctx → Type 0
    IsDerivative nothing = Unit
    IsDerivative (add_step a b o) = (i j : ℕ) → i < r o → j < c o → d o i j ≡ d a i j ⊕ d b i j
    IsDerivative (mul_step a b o) =
        (i j : ℕ)
        → i < r o
        → j < c o
        → d o i j ≡ values_at heap b i j ⊗ d a i j ⊕ values_at heap a i j ⊗ d b i j
    IsDerivative (matmul_step a b o) =
        (i j : ℕ)
        → i < r o
        → j < c o
        → d o i j
          ≡ sum (c a) (λ l. d a i l ⊗ values_at heap b l j)
            ⊕ sum (c a) (λ l. values_at heap a i l ⊗ d b l j)
    IsDerivative (relu_step a o) =
        (i j : ℕ) → i < r o → j < c o → d o i j ≡ slope (values_at heap a i j) ⊗ d a i j
    IsDerivative (sum_step a o) = d o 0 0 ≡ sum (r a) (λ i. sum (c a) (d a i))

    -- A small change of every tensor that the operations pass on.
    abbrev pub IsTangent : Type 0
    IsTangent = (v : Ref) (t : Tensor A) → get_elem? heap v ≡ some t → IsDerivative t.ctx
