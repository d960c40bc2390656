-- ===== src/Synapse/Linalg/Laws.antt =====
-- synapse_autograd/synapse/linalg.py: what holds between the operations, in exact arithmetic.
use python_portfolio.Prelude.{ℕ, ◌<◌, ◌≡◌, sym, ap, ◌∙◌, ok, ◌>>=◌, nat_eq, bytes_eq, string_eq}
use python_portfolio.Synapse.Scalar.{Scalar, IsExact, ◌⊗◌}
use python_portfolio.Synapse.Scalar.Sum.{
  sum_from, sum, sum_congr, sum-times, times-sum, sum_exchange,
}
use python_portfolio.Synapse.Linalg.{Matrix, matmul, transpose}
use python_portfolio.Synapse.Linalg.Tables.{table, table_congr}
use python_portfolio.Synapse.Linalg.Product.{matmul-sums, matmul-table}
use python_portfolio.Synapse.Linalg.Cells.{IsShape, IsShape-table, entry, transpose-table}

module _ {A : Type 0} ⦃s : Scalar A⦄ where
  -- The product of two matrices whose shapes fit, with a row and a column in the first one, is returned.
  -- `(i, j)` holds the sum of the products of row `i` and column `j`, added to 0 from left to right. No
  -- law of arithmetic is asked for, so that this holds of floats.
  pub matmul_cells :
      {r k c : ℕ} {a b : Matrix A}
      → IsShape r k a
      → IsShape k c b
      → 0 < r
      → 0 < k
      → matmul a b ≡ ok (table r c (λ i j. sum_from s.nought k (λ l. entry a i l ⊗ entry b l j)))
  matmul_cells {r} {k} {c} {a} {b} p q h m =
      ap (λ t. matmul t b) (IsShape-table p)
      ∙ ap (matmul (table r k (entry a))) (IsShape-table q)
      ∙ matmul-sums r k c (entry a) (entry b) h m

module _ {A : Type 0} ⦃s : Scalar A⦄ (x : IsExact s) where
  module _ (r k c d : ℕ) (f g e : ℕ → ℕ → A) where
    regroup :
        (i j : ℕ)
        → sum c (λ m. sum k (λ l. f i l ⊗ g l m) ⊗ e m j)
          ≡ sum k (λ l. f i l ⊗ sum c (λ m. g l m ⊗ e m j))
    regroup i j =
        sum_congr c _ _ (λ m b.
          sum-times x k (λ l. f i l ⊗ g l m) (e m j)
          ∙ sum_congr k _ _ (λ l b. x.times_assoc (f i l) (g l m) (e m j)))
        ∙ sum_exchange x c k (λ m l. f i l ⊗ (g l m ⊗ e m j))
        ∙ sum_congr k _ _ (λ l b. sym (times-sum x c (f i l) (λ m. g l m ⊗ e m j)))

    product_assoc :
        0 < r
        → 0 < k
        → 0 < c
        → (matmul (table r k f) (table k c g) >>= λ ab. matmul ab (table c d e))
          ≡ (matmul (table k c g) (table c d e) >>= λ bc. matmul (table r k f) bc)
    product_assoc h m n =
        rw (matmul-table r k c f g x h m, matmul-table k c d g e x m n)
          (matmul-table r c d _ e x h n
            ∙ ap ok (table_congr r d _ _ (λ i j a b. regroup i j))
            ∙ sym (matmul-table r k d f _ x h m))

  -- The product of three matrices whose shapes fit does not depend on the brackets.
  pub matmul_assoc :
      {r k c d : ℕ} {a b e : Matrix A}
      → IsShape r k a
      → IsShape k c b
      → IsShape c d e
      → 0 < r
      → 0 < k
      → 0 < c
      → (matmul a b >>= λ ab. matmul ab e) ≡ (matmul b e >>= λ be. matmul a be)
  matmul_assoc {r} {k} {c} {d} {a} {b} {e} p q o h m n =
      rw (IsShape-table p, IsShape-table q, IsShape-table o)
        (product_assoc r k c d (entry a) (entry b) (entry e) h m n)

  -- The transpose of a product is the product of the transposes, the other way round.
  pub transpose-matmul :
      {r k c : ℕ} {a b : Matrix A}
      → IsShape r k a
      → IsShape k c b
      → 0 < r
      → 0 < k
      → 0 < c
      → (matmul a b >>= transpose) ≡ (transpose b >>= λ bt. transpose a >>= λ at. matmul bt at)
  transpose-matmul {r} {k} {c} {a} {b} p q h m n =
      rw (IsShape-table p, IsShape-table q)
        (rw
          (
            matmul-table r k c (entry a) (entry b) x h m,
            transpose-table k c (entry b) m,
            transpose-table r k (entry a) h,
          )
          (transpose-table r c _ h
            ∙ ap ok (
                table_congr c r _ _
                  (λ i j a b. sum_congr k _ _ (λ l e. x.times_comm (entry _ j l) (entry _ l i))))
            ∙ sym (matmul-table c k r _ _ x n m)))
