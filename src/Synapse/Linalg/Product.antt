-- ===== src/Synapse/Linalg/Product.antt =====
-- synapse_autograd/synapse/linalg.py: `matmul`, whose loops fill a matrix that is allocated before them.
use python_portfolio.Prelude.{
  ℕ, zero, suc, ◌<◌, ◌≡◌, refl, ap, ◌∙◌, ◌≢◌, inl, inr, true, ◌&&◌, arith, length, set, Result, ok,
  err, ◌>>=◌, ltb, if◌then◌else◌, nat_beq, nat_beq_iff, nat_beq_refl, lt→ltb, Bool-cases, nat_eq,
  bytes_eq, string_eq, beq_ne,
}
use python_portfolio.Synapse.Scalar.{Scalar, IsExact, ◌⊕◌, ◌⊗◌}
use python_portfolio.Synapse.Scalar.Sum.{sum, sum_from, sum_from-sum}
use python_portfolio.Synapse.Linalg.{
  Error, Matrix, value_error, cols, for_range, zeros, assign, dot, matmul,
}
use python_portfolio.Synapse.Linalg.Tables.{
  tab, table, length-tab, length-table, replicate-tab, tab_congr, table_congr, set-tab, item-tab,
  cell-table, cols-table, for_range-states,
}

module _ {A : Type 0} ⦃s : Scalar A⦄ where
  pub zeros-table : (r c : ℕ) → zeros r c ≡ table r c (λ _ _. s.nought)
  unfolding zeros table
  zeros-table r c = replicate-tab r _ ∙ tab_congr r _ _ (λ i l. replicate-tab c s.nought)

  assign-table :
      (r c : ℕ) (f : ℕ → ℕ → A) (i j : ℕ) (v : A)
      → i < r
      → j < c
      → assign i j v (table r c f)
        ≡ ok (table r c (λ k l. if nat_beq k i then (if nat_beq l j then v else f k l) else f k l))
  unfolding assign table
  assign-table r c f i j v h m =
      let inside : ltb j (length (tab c (f i))) ≡ true = rw (length-tab c (f i)) (lt→ltb j c m) in
      rw (item-tab r (λ k. tab c (f k)) i h, inside)
        (ap ok (set-tab r _ i _ ∙ tab_congr r _ _ (λ k b. row k)))
    where
      row :
          (k : ℕ)
          → (if nat_beq k i then set (tab c (f i)) j v else tab c (f k))
            ≡ tab c (λ l. if nat_beq k i then (if nat_beq l j then v else f k l) else f k l)
      row k = elim (Bool-cases (nat_beq k i)) [
        | inl same ↦ rw (same, (nat_beq_iff k i).0 same) (set-tab c (f i) j v)
        | inr other ↦ rw other refl
      ]

  -- The matrix when the loops have filled the rows before `i`, and `j` cells of row `i`.
  filled : (ℕ → ℕ → A) → ℕ → ℕ → ℕ → ℕ → A
  filled f i j k l = if ltb k i then f k l else if nat_beq k i && ltb l j then f k l else s.nought

  module _ (r c : ℕ) (f : ℕ → ℕ → A) where
    cell_filled :
        (i j : ℕ)
        → i < r
        → j < c
        → assign i j (f i j) (table r c (filled f i j)) ≡ ok (table r c (filled f i (suc j)))
    unfolding filled
    cell_filled i j h m =
        assign-table r c (filled f i j) i j (f i j) h m
        ∙ ap ok (table_congr r c _ _ (λ k l b d. ground arith))

    row_filled : (i : ℕ) → table r c (filled f i c) ≡ table r c (filled f (suc i) 0)
    unfolding filled
    row_filled i = table_congr r c _ _ (λ k l b d. ground arith)

module _ {A : Type 0} ⦃s : Scalar A⦄ where
  running :
      (k : ℕ) (step : ℕ → A → Result Error A) (g : ℕ → A) (acc : A)
      → ((l : ℕ) (t : A) → l < k → step l t ≡ ok (t ⊕ g l))
      → for_range k step acc ≡ ok (sum_from acc k g)
  unfolding for_range sum_from
  running zero step g acc h = refl
  running (suc k) step g acc h = rw (h 0 acc (omega arith)) (
      running k (λ l. step (suc l)) (λ l. g (suc l)) (acc ⊕ g 0)
        (λ l t m. h (suc l) t (omega arith)))

  module _ (r k c : ℕ) (f g : ℕ → ℕ → A) where
    dot-table :
        (i j : ℕ)
        → i < r
        → j < c
        → dot (table r k f) (table k c g) k i j ≡ ok (sum_from s.nought k (λ l. f i l ⊗ g l j))
    unfolding dot
    dot-table i j h m =
        running k _ (λ l. f i l ⊗ g l j) s.nought
          (λ l t b. rw (cell-table r k f i l h b, cell-table k c g l j b m) refl)

    product : ℕ → ℕ → A
    product i j = sum_from s.nought k (λ l. f i l ⊗ g l j)

    row_loop :
        (i : ℕ)
        → i < r
        → for_range c
            (λ j result. dot (table r k f) (table k c g) k i j >>= λ acc. assign i j acc result)
            (table r c (filled product i 0))
          ≡ ok (table r c (filled product (suc i) 0))
    unfolding product
    row_loop i l =
        for_range-states c _ (λ j. table r c (filled product i j))
          (λ j b. rw (dot-table i j l b) (cell_filled r c product i j l b))
        ∙ ap ok (row_filled r c product i)

    nothing_filled : zeros r c ≡ table r c (filled product 0 0)
    unfolding filled
    nothing_filled = zeros-table r c ∙ table_congr r c _ _ (λ i j a b. ground arith)

    all_filled : table r c (filled product r 0) ≡ table r c product
    unfolding filled
    all_filled = table_congr r c _ _ (λ i j a b. ground arith)

    -- On the tables of two functions, `matmul` returns that of the sums of products, added in the order of
    -- its loop.
    pub matmul-sums :
        0 < r
        → 0 < k
        → matmul (table r k f) (table k c g)
          ≡ ok (table r c (λ i j. sum_from s.nought k (λ l. f i l ⊗ g l j)))
    unfolding matmul product
    matmul-sums h m =
        rw
          (
            cols-table r k f h,
            cols-table k c g m,
            length-table k c g,
            length-table r k f,
            nat_beq_refl k,
            nothing_filled,
          )
          (for_range-states r _ (λ i. table r c (filled product i 0)) row_loop ∙ ap ok all_filled)

    -- In exact arithmetic these are the sums of products.
    pub matmul-table :
        IsExact s
        → 0 < r
        → 0 < k
        → matmul (table r k f) (table k c g) ≡ ok (table r c (λ i j. sum k (λ l. f i l ⊗ g l j)))
    matmul-table x h m =
        matmul-sums h m
        ∙ ap ok (table_congr r c _ _ (λ i j a b. sum_from-sum x s.nought k _ ∙ x.nought-plus _))

  -- Matrices whose inner dimensions differ are refused.
  pub matmul_mismatch :
      (a b : Matrix A) (m n : ℕ)
      → cols a ≡ ok m
      → cols b ≡ ok n
      → m ≢ length b
      → matmul a b ≡ err value_error
  unfolding matmul
  matmul_mismatch a b m n p q ne = rw (p, q, beq_ne m (length b) ne) refl
