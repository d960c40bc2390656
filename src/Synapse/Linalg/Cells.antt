-- ===== src/Synapse/Linalg/Cells.antt =====
-- synapse_autograd/synapse/linalg.py: the operations besides `matmul`, on tables, and the table that a
-- matrix whose rows have one length is.
use python_portfolio.Prelude.{
  ℕ, zero, suc, ◌≤◌, ◌<◌, ◌≡◌, refl, sym, ap, ◌∙◌, List, [], ◌∷◌, map, arith, length, All, ok,
  nat_eq, bytes_eq, string_eq,
}
use python_portfolio.Synapse.Scalar.{Scalar, IsExact, ◌⊕◌, ◌⊖◌, ◌⊗◌}
use python_portfolio.Synapse.Scalar.Sum.{sum, plus-nought}
use python_portfolio.Synapse.Linalg.{
  Matrix, elementwise, add, sub, mul_scalar, transpose, rectify, relu, slope, d_relu, sum_row,
  sum_rows, sum_matrix,
}
use python_portfolio.Synapse.Linalg.Tables.{
  tab, table, length-tab, tab_congr, map-tab, cell-table, cols-table, length-table,
  collect_rows-table,
}

pub map_rows-table {ℓ} :
    {A : Type ℓ} (r c : ℕ) (g : A → A) (f : ℕ → ℕ → A)
    → map (map g) (table r c f) ≡ table r c (λ i j. g (f i j))
unfolding table
map_rows-table r c g f =
    map-tab r (map g) (λ i. tab c (f i)) ∙ tab_congr r _ _ (λ i l. map-tab c g (f i))

module _ {ℓ} {A : Type ℓ} ⦃s : Scalar A⦄ where
  pub elementwise-table :
      (op : A → A → A) (r c r' c' : ℕ) (f g : ℕ → ℕ → A)
      → 0 < r
      → r ≤ r'
      → c ≤ c'
      → elementwise op (table r c f) (table r' c' g) ≡ ok (table r c (λ i j. op (f i j) (g i j)))
  unfolding elementwise
  elementwise-table op r c r' c' f g h rows columns =
      rw (cols-table r c f h, length-table r c f)
        (collect_rows-table r c _ _ (λ i j l m.
          rw (cell-table r c f i j l m, cell-table r' c' g i j (omega arith) (omega arith)) refl))

  -- `add` takes its shape from the first matrix; the second one may be larger.
  pub add-table :
      (r c r' c' : ℕ) (f g : ℕ → ℕ → A)
      → 0 < r
      → r ≤ r'
      → c ≤ c'
      → add (table r c f) (table r' c' g) ≡ ok (table r c (λ i j. f i j ⊕ g i j))
  unfolding add
  add-table = elementwise-table ◌⊕◌

  pub sub-table :
      (r c r' c' : ℕ) (f g : ℕ → ℕ → A)
      → 0 < r
      → r ≤ r'
      → c ≤ c'
      → sub (table r c f) (table r' c' g) ≡ ok (table r c (λ i j. f i j ⊖ g i j))
  unfolding sub
  sub-table = elementwise-table ◌⊖◌

  pub transpose-table :
      (r c : ℕ) (f : ℕ → ℕ → A) → 0 < r → transpose (table r c f) ≡ ok (table c r (λ i j. f j i))
  unfolding transpose
  transpose-table r c f h =
      rw (cols-table r c f h, length-table r c f)
        (collect_rows-table c r _ _ (λ i j l m. cell-table r c f j i m l))

  pub mul_scalar-table :
      (r c : ℕ) (f : ℕ → ℕ → A) (a : A) → mul_scalar (table r c f) a ≡ table r c (λ i j. f i j ⊗ a)
  unfolding mul_scalar
  mul_scalar-table r c f a = map_rows-table r c (λ val. val ⊗ a) f

  pub relu-table :
      (r c : ℕ) (f : ℕ → ℕ → A) → relu (table r c f) ≡ table r c (λ i j. rectify (f i j))
  unfolding relu
  relu-table r c f = map_rows-table r c rectify f

  pub d_relu-table :
      (r c : ℕ) (f : ℕ → ℕ → A) → d_relu (table r c f) ≡ table r c (λ i j. slope (f i j))
  unfolding d_relu
  d_relu-table r c f = map_rows-table r c slope f

  module _ (x : IsExact s) where
    sum_row-tab : (c : ℕ) (f : ℕ → A) (total : A) → sum_row total (tab c f) ≡ total ⊕ sum c f
    unfolding sum_row tab sum
    sum_row-tab zero f total = sym (plus-nought x total)
    sum_row-tab (suc c) f total =
        sum_row-tab c (λ j. f (suc j)) (total ⊕ f 0) ∙ x.plus_assoc total (f 0) _

    sum_rows-table :
        (r c : ℕ) (f : ℕ → ℕ → A) (total : A)
        → sum_rows total (table r c f) ≡ total ⊕ sum r (λ i. sum c (f i))
    unfolding sum_rows table tab sum
    sum_rows-table zero c f total = sym (plus-nought x total)
    sum_rows-table (suc r) c f total =
        sum_rows-table r c (λ i. f (suc i)) (total ⊕ sum_row s.nought (tab c (f 0)))
        ∙ ap (λ t. (total ⊕ t) ⊕ sum r (λ i. sum c (f (suc i))))
            (sum_row-tab c (f 0) s.nought ∙ x.nought-plus _)
        ∙ x.plus_assoc total _ _

    pub sum_matrix-table :
        (r c : ℕ) (f : ℕ → ℕ → A) → sum_matrix (table r c f) ≡ sum r (λ i. sum c (f i))
    unfolding sum_matrix
    sum_matrix-table r c f = sum_rows-table r c f s.nought ∙ x.nought-plus _

  -- A list read with a default, which a rectangular matrix does not need.
  unfoldable pub at : List A → ℕ → A
  at [] i = s.nought
  at (v ∷ row) zero = v
  at (v ∷ row) (suc i) = at row i

  unfoldable pub row_at : Matrix A → ℕ → List A
  row_at [] i = []
  row_at (row ∷ a) zero = row
  row_at (row ∷ a) (suc i) = row_at a i

  -- The number in a cell of a matrix.
  unfoldable pub entry : Matrix A → ℕ → ℕ → A
  unfolding at row_at
  entry a i j = at (row_at a i) j

  at-tab : (row : List A) → row ≡ tab (length row) (at row)
  unfolding at tab
  at-tab [] = refl
  at-tab (v ∷ row) = ap (λ t. v ∷ t) (at-tab row)

-- `r` rows of `c` numbers each
pub record IsShape {ℓ} {A : Type ℓ} (r c : ℕ) (a : Matrix A) : Type ℓ where
  pub rows : length a ≡ r
  pub columns : All (λ row. length row ≡ c) a

module _ {ℓ} {A : Type ℓ} ⦃s : Scalar A⦄ where
  rows-tab :
      (c : ℕ) (a : Matrix A)
      → All (λ row. length row ≡ c) a
      → a ≡ tab (length a) (λ i. tab c (entry a i))
  unfolding entry row_at tab
  rows-tab c [] h = refl
  rows-tab c (row ∷ a) h =
      let first : row ≡ tab c (at row) = at-tab row ∙ ap (λ n. tab n (at row)) h.0 in
      ap (λ t. row ∷ t) (rows-tab c a h.1)
      ∙ ap (λ t. t ∷ tab (length a) (λ i. tab c (entry a i))) first

  -- A matrix of a shape is the table of its entries.
  pub IsShape-table : {r c : ℕ} {a : Matrix A} → IsShape r c a → a ≡ table r c (entry a)
  unfolding table
  IsShape-table {r} {c} {a} h =
      rows-tab c a h.columns ∙ ap (λ n. tab n (λ i. tab c (entry a i))) h.rows

  tab-at : (n : ℕ) (f : ℕ → A) (i : ℕ) → i < n → at (tab n f) i ≡ f i
  unfolding tab at
  tab-at zero f i l = absurd (omega arith)
  tab-at (suc n) f zero l = refl
  tab-at (suc n) f (suc i) l = tab-at n (λ j. f (suc j)) i (omega arith)

  row_at-tab : (n : ℕ) (f : ℕ → List A) (i : ℕ) → i < n → row_at (tab n f) i ≡ f i
  unfolding tab row_at
  row_at-tab zero f i l = absurd (omega arith)
  row_at-tab (suc n) f zero l = refl
  row_at-tab (suc n) f (suc i) l = row_at-tab n (λ j. f (suc j)) i (omega arith)

  pub entry-table :
      (r c : ℕ) (f : ℕ → ℕ → A) (i j : ℕ) → i < r → j < c → entry (table r c f) i j ≡ f i j
  unfolding entry table
  entry-table r c f i j l m = rw (row_at-tab r (λ k. tab c (f k)) i l) (tab-at c (f i) j m)

module _ {ℓ} {A : Type ℓ} where
  rows_of : (r c : ℕ) (f : ℕ → ℕ → A) → All (λ row. length row ≡ c) (tab r (λ i. tab c (f i)))
  unfolding tab
  rows_of zero c f = tt
  rows_of (suc r) c f = (length-tab c (f 0), rows_of r c (λ i. f (suc i)))

  pub table-IsShape : (r c : ℕ) (f : ℕ → ℕ → A) → IsShape r c (table r c f)
  unfolding table
  table-IsShape r c f = record { rows = length-table r c f; columns = rows_of r c f }
