-- ===== src/Synapse/Tensor/Backward.antt =====
-- synapse_autograd/synapse/tensor.py: the `_backward` closures, and `backward`.
use python_portfolio.Prelude.{
  ℕ, zero, suc, Bool, true, false, Option, none, some, List, [], ◌∷◌, ◌++◌, length, get_elem?, set,
  replicate, Result, ok, ◌>>=◌, or_raise, and_then, if◌then◌else◌, nat_beq, nat_eq, bytes_eq,
  string_eq,
}
use python_portfolio.Synapse.Scalar.{Scalar, ◌⊗◌}
use python_portfolio.Synapse.Linalg.{
  Error, type_error, Matrix, item, cell, cols, collect_rows, zeros, add, elementwise, matmul,
  transpose, d_relu,
}
use python_portfolio.Synapse.Tensor.{
  Ref, Ctx, nothing, add_step, mul_step, matmul_step, relu_step, sum_step, Heap,
}

module _ {ℓ} {A : Type ℓ} where
  unfoldable pub store_grad : Ref → Matrix A → Heap A → Result Error (Heap A)
  unfolding item
  store_grad r m heap = do t ← item heap r; ok (set heap r (record t { grad = some m }))

  -- r.grad where a matrix is needed
  unfoldable pub grad_of : Heap A → Ref → Result Error (Matrix A)
  unfolding item
  grad_of heap r = do t ← item heap r; or_raise t.grad type_error

  unfoldable pub values_of : Heap A → Ref → Result Error (Matrix A)
  unfolding item
  values_of heap r = item heap r >>= λ t. ok t.values

module _ {ℓ} {A : Type ℓ} ⦃s : Scalar A⦄ where
  unfoldable pub init_grad : Ref → Heap A → Result Error (Heap A)
  unfolding item cols store_grad
  init_grad r heap = do
    t ← item heap r
    c ← cols t.values
    store_grad r (zeros (length t.values) c) heap

  unfoldable pub grad_or_init : Option (Matrix A) → Ref → Heap A → Result Error (Heap A)
  unfolding init_grad
  grad_or_init none r heap = init_grad r heap
  grad_or_init (some m) r heap = ok heap

  -- if r.grad is None: r._init_grad()
  unfoldable pub ensure_grad : Ref → Heap A → Result Error (Heap A)
  unfolding item grad_or_init
  ensure_grad r heap = do t ← item heap r; grad_or_init t.grad r heap

  -- r.grad = Linalg.add(r.grad, d)
  unfoldable pub add_grad : Ref → Matrix A → Heap A → Result Error (Heap A)
  unfolding grad_of store_grad
  add_grad r d heap = do g ← grad_of heap r; g' ← add g d; store_grad r g' heap

  -- [[m[i][j] * g[i][j] for j in range(cols)] for i in range(rows)], of the shape of `g`
  unfoldable pub scaled : Matrix A → Matrix A → Result Error (Matrix A)
  unfolding cols cell collect_rows
  scaled m g = do
    c ← cols g
    collect_rows (length g) c (λ i j. cell m i j >>= λ p. cell g i j >>= λ q. ok (p ⊗ q))

  unfoldable pub add_backward : Ref → Ref → Ref → Heap A → Result Error (Heap A)
  unfolding grad_of add_grad
  add_backward self other out heap = do
    g ← grad_of heap out
    heap' ← add_grad self g heap
    g' ← grad_of heap' out
    add_grad other g' heap'

  unfoldable pub mul_backward : Ref → Ref → Ref → Heap A → Result Error (Heap A)
  unfolding grad_of add_grad values_of scaled
  mul_backward self other out heap = do
    g ← grad_of heap out
    b ← values_of heap other
    d_self ← scaled b g
    heap' ← add_grad self d_self heap
    g' ← grad_of heap' out
    a ← values_of heap' self
    d_other ← scaled a g'
    add_grad other d_other heap'

  unfoldable pub matmul_backward : Ref → Ref → Ref → Heap A → Result Error (Heap A)
  unfolding grad_of add_grad values_of
  matmul_backward self other out heap = do
    g ← grad_of heap out
    b ← values_of heap other
    bt ← transpose b
    d_self ← matmul g bt
    a ← values_of heap self
    at ← transpose a
    d_other ← matmul at g
    heap' ← add_grad self d_self heap
    add_grad other d_other heap'

  unfoldable pub relu_backward : Ref → Ref → Heap A → Result Error (Heap A)
  unfolding grad_of add_grad values_of elementwise d_relu
  relu_backward self out heap = do
    a ← values_of heap self
    g ← grad_of heap out
    local_grad ← elementwise ◌⊗◌ (d_relu a) g
    add_grad self local_grad heap

  unfoldable pub sum_backward : Ref → Ref → Heap A → Result Error (Heap A)
  unfolding grad_of add_grad values_of cell cols
  sum_backward self out heap = do
    g ← grad_of heap out
    grad_val ← cell g 0 0
    a ← values_of heap self
    c ← cols a
    add_grad self (replicate (length a) (replicate c grad_val)) heap

  -- node._ctx()
  unfoldable pub run_ctx : Ctx → Heap A → Result Error (Heap A)
  unfolding ensure_grad add_backward mul_backward matmul_backward relu_backward sum_backward
  run_ctx nothing heap = ok heap
  run_ctx (add_step self other out) heap =
      ensure_grad self heap >>= ensure_grad other >>= add_backward self other out
  run_ctx (mul_step self other out) heap =
      ensure_grad self heap >>= ensure_grad other >>= mul_backward self other out
  run_ctx (matmul_step self other out) heap =
      ensure_grad self heap >>= ensure_grad other >>= matmul_backward self other out
  run_ctx (relu_step self out) heap = ensure_grad self heap >>= relu_backward self out
  run_ctx (sum_step self out) heap = ensure_grad self heap >>= sum_backward self out

-- The variables `topo` and `visited` of `backward`.
pub record Walk : Type 0 where
  pub topo : List Ref
  pub visited : List Ref

-- v in visited
unfoldable pub is_in : Ref → List Ref → Bool
is_in v [] = false
is_in v (u ∷ us) = if nat_beq u v then true else is_in v us

-- for child in children: f(child)
unfoldable pub each {ℓ} : {S : Type ℓ} → (Ref → S → Option S) → List Ref → S → Option S
each f [] w = some w
each f (v ∷ vs) w = and_then (f v w) (each f vs)

unfoldable pub children {ℓ} : {A : Type ℓ} → Heap A → Ref → List Ref
children heap v = elim (get_elem? heap v) [ none ↦ [] | some t ↦ t.prev ]

-- `build_topo`, to a depth of calls that `fuel` bounds; `none` says that it was too small.
unfoldable pub build_topo {ℓ} : {A : Type ℓ} → ℕ → Heap A → Ref → Walk → Option Walk
unfolding is_in each children
build_topo zero heap v w = none
build_topo (suc fuel) heap v w =
    let rest =
      each (build_topo fuel heap) (children heap v) (record w { visited = v ∷ w.visited }) in
    if is_in v w.visited
    then some w
    else and_then rest (λ w'. some (record w' { topo = w'.topo ++ (v ∷ []) }))

abbrev pub reversed {ℓ} : {A : Type ℓ} → List A → List A
reversed [] = []
reversed (x ∷ xs) = reversed xs ++ (x ∷ [])

module _ {ℓ} {A : Type ℓ} ⦃s : Scalar A⦄ where
  -- for node in nodes: node._ctx()
  unfoldable pub propagate : List Ref → Heap A → Result Error (Heap A)
  unfolding item run_ctx
  propagate [] heap = ok heap
  propagate (v ∷ vs) heap = item heap v >>= λ t. run_ctx t.ctx heap >>= propagate vs

  unfoldable pub backward : ℕ → Ref → Heap A → Option (Result Error (Heap A))
  unfolding build_topo store_grad propagate
  backward fuel self heap =
      and_then (build_topo fuel heap self (record { topo = []; visited = [] }))
        (λ w. some (store_grad self ((s.unit ∷ []) ∷ []) heap >>= propagate (reversed w.topo)))
