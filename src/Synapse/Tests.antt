-- ===== src/Synapse/Tests.antt =====
-- synapse_autograd: concrete runs, on the natural numbers.
mod Network
use python_portfolio.Prelude.{
  ℕ, zero, suc, ◌+◌, ◌-◌, ◌*◌, ◌<◌, ◌≡◌, refl, ◌⊎◌, true, false, none, some, [], ◌∷◌, arith,
  get_elem?, ok, ltb, if◌then◌else◌, nat_eq, bytes_eq, string_eq,
}
use mathlib.Core.Path.{subst}
use python_portfolio.Synapse.Scalar.{Scalar, IsExact, ◌⊗◌}
use python_portfolio.Synapse.Scalar.Sum.{sum, sum_from}
use python_portfolio.Synapse.Scalar.Pairing.{Cells}
use python_portfolio.Synapse.Linalg.{
  Matrix, item, cell, cols, collect, collect_rows, for_range, zeros, assign, dot, matmul,
  elementwise, add, sub, mul_scalar,
}
use python_portfolio.Synapse.Linalg.Tables.{table}
use python_portfolio.Synapse.Linalg.Cells.{IsShape, entry}
use python_portfolio.Synapse.Linalg.Laws.{matmul_cells}
use python_portfolio.Synapse.Tensor.{
  Ref, Tensor, Heap, nothing, mul_step, tensor, to_matrix, node, as_tensor, binary, times_tensor,
}
use python_portfolio.Synapse.Tensor.Backward.{
  store_grad, init_grad, grad_or_init, ensure_grad, grad_of, add_grad, values_of, scaled,
  mul_backward, run_ctx, Walk, is_in, each, children, build_topo, reversed, propagate, backward,
}
use python_portfolio.Synapse.Tensor.Order.{IsAcyclic, IsOrdered}
use python_portfolio.Synapse.Tensor.Order.Calls.{IsParent}
use python_portfolio.Synapse.Tensor.Order.Walks.{build_topo_order}
use python_portfolio.Synapse.Tensor.Gradient.{IsGraph, IsTensor, IsTangent, IsDerivative, is_leaf}
use python_portfolio.Synapse.Tensor.Gradient.Chain.{leaves_worth, backward_differentiates}
use python_portfolio.Synapse.Optim.{Sgd, each_parameter, descend, step_parameter, step}
use python_portfolio.Synapse.Optim.Steps.{IsDistinct, stepped, step_descends}

instance abbrev natural : Scalar ℕ
natural = record {
  nought = 0;
  unit = 1;
  plus = ◌+◌;
  minus = ◌-◌;
  times = ◌*◌;
  positive = λ n. ltb 0 n;
}

natural-IsExact : IsExact natural
natural-IsExact = record {
  plus_comm = λ a b. omega arith;
  plus_assoc = λ a b c. omega arith;
  nought-plus = λ a. omega arith;
  times_comm = λ a b. grind arith;
  times_assoc = λ a b c. grind arith;
  unit-times = λ a. omega arith;
  nought-times = λ a. omega arith;
  times-plus = λ a b c. grind arith;
}

-- The rows of 2 × 2 numbers.
abbrev left : Matrix ℕ
left = (1 ∷ 2 ∷ []) ∷ (3 ∷ 4 ∷ []) ∷ []

abbrev right : Matrix ℕ
right = (5 ∷ 6 ∷ []) ∷ (7 ∷ 8 ∷ []) ∷ []

square-IsShape : (a b c d : ℕ) → IsShape 2 2 ((a ∷ b ∷ []) ∷ (c ∷ d ∷ []) ∷ [])
square-IsShape a b c d = record { rows = refl; columns = (refl, (refl, tt)) }

product : matmul left right ≡ ok ((19 ∷ 22 ∷ []) ∷ (43 ∷ 50 ∷ []) ∷ [])
unfolding matmul dot zeros assign for_range cols cell item
product = refl

matmul_cells_example :
    matmul left right ≡ ok (table 2 2 (λ i j. sum_from 0 2 (λ l. entry left i l ⊗ entry right l j)))
matmul_cells_example =
    matmul_cells (square-IsShape 1 2 3 4) (square-IsShape 5 6 7 8) (omega arith) (omega arith)

-- x = Tensor(3), y = Tensor(4), z = x * y
abbrev number : ℕ → Tensor ℕ
number n = record {
  values = (n ∷ []) ∷ [];
  grad = none;
  ctx = nothing;
  prev = [];
  op = "";
  label = "";
  requires_grad = true;
}

abbrev product_node : Tensor ℕ
product_node = record {
  values = (12 ∷ []) ∷ [];
  grad = none;
  ctx = mul_step 0 1 2;
  prev = 0 ∷ 1 ∷ [];
  op = "*";
  label = "";
  requires_grad = true;
}

abbrev numbers : Heap ℕ
numbers = number 3 ∷ number 4 ∷ product_node ∷ []

numbers_made : times_tensor 0 (tensor 1) (number 3 ∷ number 4 ∷ []) ≡ ok (2, numbers)
unfolding times_tensor binary as_tensor item node to_matrix elementwise cols cell collect_rows
    collect
numbers_made = refl

abbrev ones : Ref → ℕ
ones v = 1

single-IsShape : (n : ℕ) → IsShape 1 1 ((n ∷ []) ∷ [])
single-IsShape n = record { rows = refl; columns = (refl, tt) }

number-IsTensor : (v n : ℕ) → IsTensor ones ones v (number n)
number-IsTensor v n = record {
  shape = single-IsShape n;
  rows_positive = omega arith;
  columns_positive = omega arith;
  older = tt;
  rule = refl;
  grad_shape = tt;
}

numbers-IsGraph : IsGraph ones ones numbers
numbers-IsGraph zero t h =
    let e : number 3 ≡ t = cc h in subst (IsTensor ones ones 0) e (number-IsTensor 0 3)
numbers-IsGraph (suc zero) t h =
    let e : number 4 ≡ t = cc h in subst (IsTensor ones ones 1) e (number-IsTensor 1 4)
numbers-IsGraph (suc (suc zero)) t h =
    let e : product_node ≡ t = cc h in
    subst (IsTensor ones ones 2) e (record {
      shape = single-IsShape 12;
      rows_positive = omega arith;
      columns_positive = omega arith;
      older = (omega arith, (omega arith, tt));
      rule = (refl, refl, (refl, refl), (refl, refl));
      grad_shape = tt;
    })
numbers-IsGraph (suc (suc (suc v))) t h = cc h

-- x changes by 1, y by 2, and x * y by 4 * 1 + 3 * 2.
abbrev change : Ref → Cells ℕ
change zero i j = 1
change (suc zero) i j = 2
change (suc (suc v)) i j = 10

numbers-IsTangent : IsTangent ones ones numbers change
unfolding entry
numbers-IsTangent zero t h =
    let e : number 3 ≡ t = cc h in subst (λ u. IsDerivative ones ones numbers change u.ctx) e tt
numbers-IsTangent (suc zero) t h =
    let e : number 4 ≡ t = cc h in subst (λ u. IsDerivative ones ones numbers change u.ctx) e tt
numbers-IsTangent (suc (suc zero)) t h =
    let e : product_node ≡ t = cc h in
    subst (λ u. IsDerivative ones ones numbers change u.ctx) e
      (λ i j l m. let p : i ≡ 0 = omega arith in let q : j ≡ 0 = omega arith in rw (p, q) refl)
numbers-IsTangent (suc (suc (suc v))) t h = cc h

numbers_fresh :
    (v : Ref) (t : Tensor ℕ) → get_elem? numbers v ≡ some t → is_leaf t.ctx ≡ false → t.grad ≡ none
numbers_fresh zero t h leaf = let e : number 3 ≡ t = cc h in subst (λ u. u.grad ≡ none) e refl
numbers_fresh (suc zero) t h leaf = let e : number 4 ≡ t = cc h in subst (λ u. u.grad ≡ none) e refl
numbers_fresh (suc (suc zero)) t h leaf =
    let e : product_node ≡ t = cc h in subst (λ u. u.grad ≡ none) e refl
numbers_fresh (suc (suc (suc v))) t h leaf = cc h

-- 4 · 1 + 3 · 2 = 10
backward_differentiates_example :
    (heap' : Heap ℕ) × (backward 3 2 numbers ≡ some (ok heap'))
    × (leaves_worth ones ones change 3 heap' ≡ leaves_worth ones ones change 3 numbers + 10)
backward_differentiates_example =
    backward_differentiates natural-IsExact ones ones numbers change numbers-IsGraph
      numbers-IsTangent 2 product_node refl refl refl numbers_fresh refl 3 (omega arith)

-- The gradient of x is y, and that of y is x.
gradients :
    backward 3 2 numbers
    ≡ some (
        ok (
          record (number 3) { grad = some ((4 ∷ []) ∷ []) }
          ∷ record (number 4) { grad = some ((3 ∷ []) ∷ []) }
          ∷ record product_node { grad = some ((1 ∷ []) ∷ []) }
          ∷ []))
unfolding backward build_topo each children is_in propagate run_ctx store_grad ensure_grad
    grad_or_init init_grad mul_backward grad_of values_of scaled add_grad add elementwise zeros cols
    cell item collect_rows collect
gradients = refl

numbers-IsAcyclic : IsAcyclic numbers
unfolding children
numbers-IsAcyclic zero = tt
numbers-IsAcyclic (suc zero) = tt
numbers-IsAcyclic (suc (suc zero)) = (omega arith, (omega arith, tt))
numbers-IsAcyclic (suc (suc (suc v))) = tt

build_topo_order_example :
    (w : Walk) × (build_topo 3 numbers 2 (record { topo = []; visited = [] }) ≡ some w)
    × IsOrdered numbers (reversed w.topo)
    × (is_in 2 (reversed w.topo) ≡ true)
    × ((v : Ref) → 2 < v → is_in v (reversed w.topo) ≡ false)
    × ((v : Ref) → is_in v (reversed w.topo) ≡ true → (v ≡ 2) ⊎ IsParent numbers w v)
build_topo_order_example = build_topo_order numbers 2 3 numbers-IsAcyclic (omega arith)

-- A weight with a gradient and one without.
abbrev weight_tensor : Tensor ℕ
weight_tensor = record (number 30) { grad = some ((4 ∷ []) ∷ []) }

abbrev weights : Heap ℕ
weights = weight_tensor ∷ number 5 ∷ []

weights-IsGraph : IsGraph ones ones weights
weights-IsGraph zero t h =
    let e : weight_tensor ≡ t = cc h in
    subst (IsTensor ones ones 0) e (record {
      shape = single-IsShape 30;
      rows_positive = omega arith;
      columns_positive = omega arith;
      older = tt;
      rule = refl;
      grad_shape = single-IsShape 4;
    })
weights-IsGraph (suc zero) t h =
    let e : number 5 ≡ t = cc h in subst (IsTensor ones ones 1) e (number-IsTensor 1 5)
weights-IsGraph (suc (suc v)) t h = cc h

abbrev optimizer : Sgd ℕ
optimizer = record { parameters = 0 ∷ 1 ∷ []; lr = 2 }

optimizer-IsDistinct : IsDistinct optimizer.parameters
unfolding is_in
optimizer-IsDistinct = (refl, (refl, tt))

step_descends_example :
    (heap' : Heap ℕ) × (step optimizer weights ≡ ok heap')
    × ((v : Ref) (t : Tensor ℕ)
        → get_elem? weights v ≡ some t
        → get_elem? heap' v
          ≡ some (if is_in v optimizer.parameters then stepped ones ones 2 v t else t))
step_descends_example =
    step_descends ones ones optimizer weights weights-IsGraph optimizer-IsDistinct
      (omega arith, (omega arith, tt))

descended_to :
    step optimizer weights ≡ ok (record weight_tensor { values = (22 ∷ []) ∷ [] } ∷ number 5 ∷ [])
unfolding step each_parameter step_parameter descend sub mul_scalar elementwise cols cell item
    collect_rows collect
descended_to = refl
