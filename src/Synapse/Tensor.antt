-- ===== src/Synapse/Tensor.antt =====
-- synapse_autograd/synapse/tensor.py. Tensors are objects with an identity: a heap holds them, and a
-- reference is the place in the heap. `_ctx` is the data of the closure that an operation leaves behind.
pub mod Backward
pub mod Order
pub mod Gradient
use python_portfolio.Prelude.{
  ℕ, ◌+◌, ◌*◌, Bool, true, Option, none, List, [], ◌∷◌, ◌++◌, arith, String, length, any, Result,
  ok, err, ◌>>=◌, if◌then◌else◌, nat_beq, nat_eq, bytes_eq, string_eq,
}
use python_portfolio.Synapse.Scalar.{Scalar, ◌⊕◌, ◌⊗◌}
use python_portfolio.Synapse.Linalg.{
  Error, value_error, index_error, type_error, Matrix, item, cell, cols, collect_rows, zeros, add,
  elementwise, matmul, transpose, relu, d_relu, sum_matrix,
}

abbrev pub Ref : Type 0
Ref = ℕ

-- What `_backward` of an operation captures: `self`, `other` and `out`.
pub data Ctx : Type 0 where
  nothing : Ctx
  add_step mul_step matmul_step : Ref → Ref → Ref → Ctx
  relu_step sum_step : Ref → Ref → Ctx

pub record Tensor {ℓ} (A : Type ℓ) : Type ℓ where
  -- self.data
  pub values : Matrix A
  pub grad : Option (Matrix A)
  pub ctx : Ctx
  pub prev : List Ref
  pub op : String
  pub label : String
  pub requires_grad : Bool

abbrev pub Heap {ℓ} : Type ℓ → Type ℓ
Heap A = List (Tensor A)

-- The argument `data` of the constructor, by what `isinstance` tells of it.
pub data TensorData {ℓ} (A : Type ℓ) : Type ℓ where
  scalar : A → TensorData A
  vector : List A → TensorData A
  matrix : Matrix A → TensorData A
  unsupported : TensorData A

unfoldable pub to_matrix {ℓ} : {A : Type ℓ} → TensorData A → Result Error (Matrix A)
to_matrix (scalar a) = ok ((a ∷ []) ∷ [])
to_matrix (vector xs) = ok (xs ∷ [])
to_matrix (matrix []) = ok ([] ∷ [])
to_matrix (matrix (row ∷ rows)) = ok (row ∷ rows)
to_matrix unsupported = err value_error

-- Tensor(data, (), '', label)
unfoldable pub new_tensor {ℓ} :
    {A : Type ℓ} → TensorData A → String → Heap A → Result Error (Ref × Heap A)
unfolding to_matrix
new_tensor input label heap = do
  m ← to_matrix input
  ok (
    length heap,
    heap
        ++ (record {
          values = m;
          grad = none;
          ctx = nothing;
          prev = [];
          op = "";
          label = label;
          requires_grad = true;
        }
            ∷ []),
  )

-- Tensor(values, children, op), with the `_ctx` that the operation stores in it
unfoldable pub node {ℓ} :
    {A : Type ℓ} → Matrix A → List Ref → String → Ctx → Heap A → Result Error (Ref × Heap A)
unfolding to_matrix
node values children op ctx heap = do
  m ← to_matrix (matrix values)
  ok (
    length heap,
    heap
        ++ (record {
          values = m;
          grad = none;
          ctx = ctx;
          prev = children;
          op = op;
          label = "";
          requires_grad = true;
        }
            ∷ []),
  )

-- The right operand: a tensor, or what is made one.
pub data Operand {ℓ} (A : Type ℓ) : Type ℓ where
  tensor : Ref → Operand A
  raw : TensorData A → Operand A

unfoldable pub as_tensor {ℓ} : {A : Type ℓ} → Operand A → Heap A → Result Error (Ref × Heap A)
unfolding new_tensor
as_tensor (tensor r) heap = ok (r, heap)
as_tensor (raw input) heap = new_tensor input "" heap

-- set((self, other))
abbrev pub pair_set : Ref → Ref → List Ref
pair_set a b = if nat_beq a b then a ∷ [] else a ∷ b ∷ []

-- An operation on two tensors: the forward pass, and the node that remembers it.
unfoldable pub binary {ℓ} :
    {A : Type ℓ}
    → (Matrix A → Matrix A → Result Error (Matrix A))
    → String
    → (Ref → Ref → Ref → Ctx)
    → Ref
    → Operand A
    → Heap A
    → Result Error (Ref × Heap A)
unfolding as_tensor item node
binary forward op step self other heap = do
  (o, heap') ← as_tensor other heap
  a ← item heap' self
  b ← item heap' o
  values ← forward a.values b.values
  node values (pair_set self o) op (step self o (length heap')) heap'

module _ {ℓ} {A : Type ℓ} ⦃s : Scalar A⦄ where
  -- __add__
  unfoldable pub plus_tensor : Ref → Operand A → Heap A → Result Error (Ref × Heap A)
  unfolding binary
  plus_tensor = binary add "+" add_step

  -- __mul__
  unfoldable pub times_tensor : Ref → Operand A → Heap A → Result Error (Ref × Heap A)
  unfolding binary
  times_tensor = binary (elementwise ◌⊗◌) "*" mul_step

  unfoldable pub matmul_tensor : Ref → Operand A → Heap A → Result Error (Ref × Heap A)
  unfolding binary
  matmul_tensor = binary matmul "@" matmul_step

  unfoldable pub relu_tensor : Ref → Heap A → Result Error (Ref × Heap A)
  unfolding item node
  relu_tensor self heap = do
    a ← item heap self
    node (relu a.values) (self ∷ []) "ReLU" (relu_step self (length heap)) heap

  unfoldable pub sum_tensor : Ref → Heap A → Result Error (Ref × Heap A)
  unfolding item node
  sum_tensor self heap = do
    a ← item heap self
    node ((sum_matrix a.values ∷ []) ∷ []) (self ∷ []) "Sum" (sum_step self (length heap)) heap
