-- ===== src/Synapse/Optim.antt =====
-- synapse_autograd/synapse/optim.py: stochastic gradient descent.
pub mod Steps
use python_portfolio.Prelude.{
  Option, none, some, List, [], ◌∷◌, arith, set, any, Result, ok, ◌>>=◌, ◌>>◌, nat_eq, bytes_eq,
  string_eq,
}
use python_portfolio.Synapse.Scalar.{Scalar}
use python_portfolio.Synapse.Linalg.{Error, Matrix, item, sub, mul_scalar}
use python_portfolio.Synapse.Tensor.{Ref, Tensor, Heap}

pub record Sgd {ℓ} (A : Type ℓ) : Type ℓ where
  pub parameters : List Ref
  pub lr : A

-- for p in parameters: the body, which changes the tensor `p`
unfoldable pub each_parameter {ℓ} :
    {A : Type ℓ} → (Tensor A → Result Error (Tensor A)) → List Ref → Heap A → Result Error (Heap A)
unfolding item
each_parameter f [] heap = ok heap
each_parameter f (p ∷ ps) heap =
    item heap p >>= λ t. f t >>= λ t'. each_parameter f ps (set heap p t')

module _ {ℓ} {A : Type ℓ} ⦃s : Scalar A⦄ where
  unfoldable pub descend : A → Option (Matrix A) → Tensor A → Result Error (Tensor A)
  unfolding sub mul_scalar
  descend lr none t = ok t
  descend lr (some g) t =
      sub t.values (mul_scalar g lr) >>= λ values. ok (record t { values = values })

  -- The body of the loop of `step`.
  unfoldable pub step_parameter : A → Tensor A → Result Error (Tensor A)
  unfolding descend
  step_parameter lr t = descend lr t.grad t

  unfoldable pub step : Sgd A → Heap A → Result Error (Heap A)
  unfolding each_parameter step_parameter
  step o heap = each_parameter (step_parameter o.lr) o.parameters heap

unfoldable pub zero_grad {ℓ} : {A : Type ℓ} → Sgd A → Heap A → Result Error (Heap A)
unfolding each_parameter
zero_grad o heap = each_parameter (λ t. ok (record t { grad = none })) o.parameters heap
