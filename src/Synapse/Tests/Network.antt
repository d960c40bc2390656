-- ===== src/Synapse/Tests/Network.antt =====
-- synapse_autograd/main_training_demo.py: a network with one number in each tensor.
use python_portfolio.Prelude.{
  ℕ, zero, suc, ◌≡◌, refl, some, List, [], ◌∷◌, get_elem?, ok, ◌>>=◌, nat_eq, bytes_eq, string_eq,
}
use mathlib.Core.Path.{subst}
use python_portfolio.Synapse.Linalg.{
  item, cell, cols, collect, collect_rows, for_range, zeros, assign, dot, matmul, elementwise, add,
  relu, rectify,
}
use python_portfolio.Synapse.Linalg.Cells.{entry}
use python_portfolio.Synapse.Tensor.{
  Ref, Tensor, Heap, to_matrix, node, as_tensor, binary, plus_tensor, matmul_tensor, relu_tensor,
}
use python_portfolio.Synapse.Tensor.Gradient.{IsGraph, IsTensor}
use python_portfolio.Synapse.Training.{Layer, Mlp, call_layer, call_mlp}
use python_portfolio.Synapse.Training.Forward.{
  Returns, FitsAt, FitsNetwork, affine, call_mlp-Returns,
}
use python_portfolio.Synapse.Tests.{natural, number, ones, number-IsTensor}

abbrev leaves : List ℕ → Heap ℕ
leaves [] = []
leaves (n ∷ ns) = number n ∷ leaves ns

leaves-number :
    (ns : List ℕ) (v : Ref) (t : Tensor ℕ)
    → get_elem? (leaves ns) v ≡ some t
    → (n : ℕ) × (number n ≡ t)
leaves-number [] v t h = cc h
leaves-number (n ∷ ns) zero t h = (n, cc h)
leaves-number (n ∷ ns) (suc v) t h = leaves-number ns v t h

leaves-IsGraph : (ns : List ℕ) → IsGraph ones ones (leaves ns)
leaves-IsGraph ns v t h =
    let (n, e) = leaves-number ns v t h in subst (IsTensor ones ones v) e (number-IsTensor v n)

abbrev network : Mlp
network = record { l1 = record { weights = 1; bias = 2 }; l2 = record { weights = 3; bias = 4 } }

-- The input, and the weights and biases of the two layers.
abbrev memory : List ℕ
memory = 2 ∷ 3 ∷ 1 ∷ 4 ∷ 5 ∷ []

layer_fits : (l : Layer) (o a : Ref) → FitsAt ones ones l o a
layer_fits l o a = record {
  rows = refl;
  inner = refl;
  columns = refl;
  product = (refl, refl);
  bias = (refl, refl);
}

network_fits : FitsNetwork ones ones network 5 0
network_fits = record {
  first = layer_fits network.l1 5 0;
  hidden = (refl, refl);
  second = layer_fits network.l2 8 7;
}

call_mlp-Returns_example :
    Returns ones ones
      (leaves memory)
      9
      (affine ones ones network.l2
        (λ i j.
          rectify
            (affine ones ones network.l1 (entry (number 2).values) 1 (number 3) (number 1) i j))
        1
        (number 4)
        (number 5))
      (call_mlp network 0 (leaves memory))
call_mlp-Returns_example =
    call_mlp-Returns ones ones network (leaves memory) 5 0 (number 2) (number 3) (number 1)
      (number 4) (number 5) refl (leaves-IsGraph memory) refl refl refl refl refl network_fits

-- 4 · (3 · 2 + 1) + 5 = 33
output :
    (call_mlp network 0 (leaves memory) >>= λ y. item y.1 y.0 >>= λ t. ok t.values)
    ≡ ok ((33 ∷ []) ∷ [])
unfolding call_mlp call_layer matmul_tensor plus_tensor relu_tensor binary as_tensor item node
    to_matrix matmul dot zeros assign for_range add elementwise relu rectify cols cell collect_rows
    collect
output = refl
