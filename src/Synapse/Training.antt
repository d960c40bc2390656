-- ===== src/Synapse/Training.antt =====
-- synapse_autograd/main_training_demo.py: the layers, the network, and an epoch of its training. The
-- numbers that randn draws are arguments.
pub mod Forward
use python_portfolio.Prelude.{
  ℕ, ◌+◌, Option, some, List, [], ◌∷◌, ◌++◌, arith, any, Result, ok, err, ◌>>=◌, ◌>>◌, and_then,
  nat_eq, bytes_eq, string_eq,
}
use python_portfolio.Synapse.Scalar.{Scalar, ◌⊖◌}
use python_portfolio.Synapse.Linalg.{Error, Matrix, zeros}
use python_portfolio.Synapse.Tensor.{
  Ref, Heap, scalar, matrix, tensor, new_tensor, plus_tensor, times_tensor, matmul_tensor,
  relu_tensor, sum_tensor,
}
use python_portfolio.Synapse.Tensor.Backward.{backward}
use python_portfolio.Synapse.Optim.{Sgd, step, zero_grad}

pub record Layer : Type 0 where
  pub weights : Ref
  pub bias : Ref

pub record Mlp : Type 0 where
  pub l1 : Layer
  pub l2 : Layer

abbrev pub layer_parameters : Layer → List Ref
layer_parameters l = l.weights ∷ l.bias ∷ []

abbrev pub parameters : Mlp → List Ref
parameters model = layer_parameters model.l1 ++ layer_parameters model.l2

module _ {ℓ} {A : Type ℓ} ⦃s : Scalar A⦄ where
  -- Layer(n_in, n_out), with the weights that Linalg.randn returned
  unfoldable pub new_layer : Matrix A → ℕ → Heap A → Result Error (Layer × Heap A)
  unfolding new_tensor zeros
  new_layer drawn n_out heap = do
    (w, heap') ← new_tensor (matrix drawn) "W" heap
    (b, heap'') ← new_tensor (matrix (zeros 1 n_out)) "b" heap'
    ok (record { weights = w; bias = b }, heap'')

  -- Layer.__call__
  unfoldable pub call_layer : Layer → Ref → Heap A → Result Error (Ref × Heap A)
  unfolding matmul_tensor plus_tensor
  call_layer l x heap = do
    (product, heap') ← matmul_tensor x (tensor l.weights) heap
    plus_tensor product (tensor l.bias) heap'

  -- MLP(), with the weights of its two layers
  unfoldable pub new_mlp : Matrix A → Matrix A → Heap A → Result Error (Mlp × Heap A)
  unfolding new_layer
  new_mlp drawn_1 drawn_2 heap = do
    (l1, heap') ← new_layer drawn_1 4 heap
    (l2, heap'') ← new_layer drawn_2 1 heap'
    ok (record { l1 = l1; l2 = l2 }, heap'')

  -- MLP.__call__
  unfoldable pub call_mlp : Mlp → Ref → Heap A → Result Error (Ref × Heap A)
  unfolding call_layer relu_tensor
  call_mlp model x heap = do
    (a, heap_1) ← call_layer model.l1 x heap
    (h, heap_2) ← relu_tensor a heap_1
    call_layer model.l2 h heap_2

  -- The body of the loop over the samples, which adds the loss of one to the total.
  unfoldable pub add_loss : Mlp → List A → List A → Ref → Heap A → Result Error (Ref × Heap A)
  unfolding new_tensor call_mlp times_tensor plus_tensor sum_tensor
  add_loss model x_raw y_raw total_loss heap = do
    (x, heap_1) ← new_tensor (matrix (x_raw ∷ [])) "" heap
    (y, heap_2) ← new_tensor (matrix (y_raw ∷ [])) "" heap_1
    (pred, heap_3) ← call_mlp model x heap_2
    (minus_one, heap_4) ← new_tensor (scalar (s.nought ⊖ s.unit)) "" heap_3
    (negated, heap_5) ← times_tensor y (tensor minus_one) heap_4
    (diff, heap_6) ← plus_tensor pred (tensor negated) heap_5
    (loss, heap_7) ← times_tensor diff (tensor diff) heap_6
    (summed, heap_8) ← sum_tensor loss heap_7
    plus_tensor total_loss (tensor summed) heap_8

  -- for x_raw, y_raw in zip(xs, ys)
  unfoldable pub add_losses :
      Mlp → List (List A × List A) → Ref → Heap A → Result Error (Ref × Heap A)
  unfolding add_loss
  add_losses model [] total_loss heap = ok (total_loss, heap)
  add_losses model ((x_raw, y_raw) ∷ samples) total_loss heap =
      add_loss model x_raw y_raw total_loss heap >>= λ r. add_losses model samples r.0 r.1

  -- One epoch, on fuel for the backward pass.
  unfoldable pub epoch :
      ℕ → Mlp → Sgd A → List (List A × List A) → Heap A → Option (Result Error (Heap A))
  unfolding new_tensor add_losses zero_grad backward step
  epoch fuel model optimizer samples heap = finish (do
    (start, heap') ← new_tensor (scalar s.nought) "" heap
    (total_loss, heap'') ← add_losses model samples start heap'
    cleared ← zero_grad optimizer heap''
    ok (total_loss, cleared))
    where
      finish : Result Error (Ref × Heap A) → Option (Result Error (Heap A))
      finish (err e) = some (err e)
      finish (ok (total_loss, cleared)) =
          and_then (backward fuel total_loss cleared) (λ r. some (r >>= step optimizer))
