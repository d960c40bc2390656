-- ===== src/Synapse/Linalg.antt =====
-- synapse_autograd/synapse/linalg.py. A matrix is a list of rows, and an index that is out of range
-- raises IndexError, `a[0]` of an empty matrix included.
pub mod Tables
pub mod Product
pub mod Cells
pub mod Laws
use python_portfolio.Prelude.{
  ℕ, zero, suc, List, [], ◌∷◌, map, arith, length, get_elem?, set, replicate, any, Result, ok, err,
  ◌>>=◌, ◌>>◌, guard, or_raise, ltb, if◌then◌else◌, ◌==◌, nat_eq, bytes_eq, string_eq,
}
use python_portfolio.Synapse.Scalar.{Scalar, ◌⊕◌, ◌⊖◌, ◌⊗◌}

pub data Error : Type 0 where
  value_error index_error type_error : Error

abbrev pub Matrix {ℓ} : Type ℓ → Type ℓ
Matrix A = List (List A)

-- xs[i]
unfoldable pub item {ℓ} : {A : Type ℓ} → List A → ℕ → Result Error A
item xs i = or_raise (get_elem? xs i) index_error

-- a[i][j]
unfoldable pub cell {ℓ} : {A : Type ℓ} → Matrix A → ℕ → ℕ → Result Error A
unfolding item
cell a i j = item a i >>= λ row. item row j

-- len(a[0])
unfoldable pub cols {ℓ} : {A : Type ℓ} → Matrix A → Result Error ℕ
unfolding item
cols a = item a 0 >>= λ row. ok (length row)

-- [f(i) for i in range(n)]
unfoldable pub collect {ℓ} : {A : Type ℓ} → ℕ → (ℕ → Result Error A) → Result Error (List A)
collect zero f = ok []
collect (suc n) f = do y ← f 0; ys ← collect n (λ i. f (suc i)); ok (y ∷ ys)

-- [[f(i, j) for j in range(c)] for i in range(r)]
unfoldable pub collect_rows {ℓ} :
    {A : Type ℓ} → ℕ → ℕ → (ℕ → ℕ → Result Error A) → Result Error (Matrix A)
unfolding collect
collect_rows r c f = collect r (λ i. collect c (f i))

-- [f(val) for val in row], for each row
abbrev pub map_rows {ℓ} : {A : Type ℓ} → (A → A) → Matrix A → Matrix A
map_rows f a = map (map f) a

-- for i in range(n): step(i), on a state that the loop threads
unfoldable pub for_range {ℓ} : {S : Type ℓ} → ℕ → (ℕ → S → Result Error S) → S → Result Error S
for_range zero step s = ok s
for_range (suc n) step s = step 0 s >>= for_range n (λ i. step (suc i))

module _ {ℓ} {A : Type ℓ} ⦃s : Scalar A⦄ where
  unfoldable pub zeros : ℕ → ℕ → Matrix A
  zeros r c = replicate r (replicate c s.nought)

  -- result[i][j] = val
  unfoldable pub assign : ℕ → ℕ → A → Matrix A → Result Error (Matrix A)
  unfolding item
  assign i j val result = do
    row ← item result i
    if ltb j (length row) then ok (set result i (set row j val)) else err index_error

  -- The innermost loop of `matmul`, from `acc = 0.0` on.
  unfoldable pub dot : Matrix A → Matrix A → ℕ → ℕ → ℕ → Result Error A
  unfolding cell for_range
  dot a b k i j =
      for_range k (λ l acc. cell a i l >>= λ p. cell b l j >>= λ q. ok (acc ⊕ p ⊗ q)) s.nought

  unfoldable pub matmul : Matrix A → Matrix A → Result Error (Matrix A)
  unfolding cols dot zeros assign for_range
  matmul a b = do
    cols_a ← cols a
    cols_b ← cols b
    guard (cols_a == length b) value_error
    for_range (length a)
        (λ i. for_range cols_b (λ j result. dot a b cols_a i j >>= λ acc. assign i j acc result))
        (zeros (length a) cols_b)

  -- The comprehension of `add` and `sub`, over the shape of the first matrix.
  unfoldable pub elementwise : (A → A → A) → Matrix A → Matrix A → Result Error (Matrix A)
  unfolding cols cell collect_rows
  elementwise f a b = do
    c ← cols a
    collect_rows (length a) c (λ i j. cell a i j >>= λ p. cell b i j >>= λ q. ok (f p q))

  unfoldable pub add : Matrix A → Matrix A → Result Error (Matrix A)
  unfolding elementwise
  add a b = elementwise ◌⊕◌ a b

  unfoldable pub sub : Matrix A → Matrix A → Result Error (Matrix A)
  unfolding elementwise
  sub a b = elementwise ◌⊖◌ a b

  unfoldable pub mul_scalar : Matrix A → A → Matrix A
  mul_scalar a scalar = map_rows (λ val. val ⊗ scalar) a

  unfoldable pub transpose : Matrix A → Result Error (Matrix A)
  unfolding cols cell collect_rows
  transpose a = do c ← cols a; collect_rows c (length a) (λ i j. cell a j i)

  -- max(0.0, val)
  unfoldable pub rectify : A → A
  rectify val = if s.positive val then val else s.nought

  unfoldable pub relu : Matrix A → Matrix A
  unfolding rectify
  relu a = map_rows rectify a

  unfoldable pub slope : A → A
  slope val = if s.positive val then s.unit else s.nought

  unfoldable pub d_relu : Matrix A → Matrix A
  unfolding slope
  d_relu a = map_rows slope a

  -- total += val, from `total` on
  unfoldable pub sum_row : A → List A → A
  sum_row total [] = total
  sum_row total (val ∷ row) = sum_row (total ⊕ val) row

  -- The loop of `sum_matrix`.
  unfoldable pub sum_rows : A → Matrix A → A
  unfolding sum_row
  sum_rows total [] = total
  sum_rows total (row ∷ a) = sum_rows (total ⊕ sum_row s.nought row) a

  unfoldable pub sum_matrix : Matrix A → A
  unfolding sum_rows
  sum_matrix a = sum_rows s.nought a

  -- `shape` of a matrix: the length of `(0,)` tells the empty one
  unfoldable pub shape : Matrix A → List ℕ
  shape [] = 0 ∷ []
  shape (row ∷ a) = suc (length a) ∷ length row ∷ []
