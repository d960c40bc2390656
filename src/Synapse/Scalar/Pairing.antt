-- ===== src/Synapse/Scalar/Pairing.antt =====
-- The inner product of two tables of numbers, and the adjoints of the operations of
-- synapse_autograd/synapse/tensor.py under it.
use python_portfolio.Prelude.{
  ℕ, zero, suc, ◌<◌, ◌≡◌, refl, sym, ap, ◌∙◌, ◌≢◌, arith, nat_eq, bytes_eq, string_eq,
}
use python_portfolio.Synapse.Scalar.{Scalar, IsExact, ◌⊕◌, ◌⊗◌}
use python_portfolio.Synapse.Scalar.Sum.{
  sum, sum_congr, sum-plus, sum-times, times-sum, sum_exchange, plus-nought, plus-times, sum-nought,
}

abbrev pub Cells {ℓ} : Type ℓ → Type ℓ
Cells A = ℕ → ℕ → A

module _ {ℓ} {A : Type ℓ} ⦃s : Scalar A⦄ where
  unfoldable pub pairing : ℕ → ℕ → Cells A → Cells A → A
  pairing r c f g = sum r (λ i. sum c (λ j. f i j ⊗ g i j))

  pub pairing_congr :
      (r c : ℕ) (f g f' g' : Cells A)
      → ((i j : ℕ) → i < r → j < c → f i j ≡ f' i j)
      → ((i j : ℕ) → i < r → j < c → g i j ≡ g' i j)
      → pairing r c f g ≡ pairing r c f' g'
  unfolding pairing
  pairing_congr r c f g f' g' p q =
      sum_congr r _ _ (λ i l. sum_congr c _ _ (λ j m. rw (p i j l m, q i j l m) refl))

module _ {ℓ} {A : Type ℓ} ⦃s : Scalar A⦄ (x : IsExact s) where
  pub sum2_plus :
      (r c : ℕ) (f g : Cells A)
      → sum r (λ i. sum c (λ j. f i j ⊕ g i j))
        ≡ sum r (λ i. sum c (f i)) ⊕ sum r (λ i. sum c (g i))
  sum2_plus r c f g =
      sum_congr r _ _ (λ i l. sum-plus x c (f i) (g i))
      ∙ sum-plus x r (λ i. sum c (f i)) (λ i. sum c (g i))

  pub pairing-plus :
      (r c : ℕ) (f g h : Cells A)
      → pairing r c f (λ i j. g i j ⊕ h i j) ≡ pairing r c f g ⊕ pairing r c f h
  unfolding pairing
  pairing-plus r c f g h =
      sum_congr r _ _ (λ i l. sum_congr c _ _ (λ j m. x.times-plus (f i j) (g i j) (h i j)))
      ∙ sum2_plus r c _ _

  pub plus-pairing :
      (r c : ℕ) (f g h : Cells A)
      → pairing r c (λ i j. f i j ⊕ g i j) h ≡ pairing r c f h ⊕ pairing r c g h
  unfolding pairing
  plus-pairing r c f g h =
      sum_congr r _ _ (λ i l. sum_congr c _ _ (λ j m. plus-times x (f i j) (g i j) (h i j)))
      ∙ sum2_plus r c _ _

  pub nought-pairing : (r c : ℕ) (g : Cells A) → pairing r c (λ _ _. s.nought) g ≡ s.nought
  unfolding pairing
  nought-pairing r c g =
      sum_congr r _ _ (λ i l. sum_congr c _ _ (λ j m. x.nought-times (g i j)) ∙ sum-nought x c)
      ∙ sum-nought x r

  -- A factor on one side goes to the other.
  pub pairing_scaled :
      (r c : ℕ) (f g w : Cells A)
      → pairing r c f (λ i j. w i j ⊗ g i j) ≡ pairing r c (λ i j. w i j ⊗ f i j) g
  unfolding pairing
  pairing_scaled r c f g w = sum_congr r _ _ (λ i l. sum_congr c _ _ (λ j m.
      sym (x.times_assoc (f i j) (w i j) (g i j))
      ∙ ap (λ t. t ⊗ g i j) (x.times_comm (f i j) (w i j))))

  -- The factor on the right of a product goes over as its transpose.
  pub pairing_right_factor :
      (r k c : ℕ) (f d b : Cells A)
      → pairing r c f (λ i j. sum k (λ l. d i l ⊗ b l j))
        ≡ pairing r k (λ i l. sum c (λ j. f i j ⊗ b l j)) d
  unfolding pairing
  pairing_right_factor r k c f d b = sum_congr r _ _ (λ i p.
      sum_congr c _ _ (λ j q. times-sum x k (f i j) _)
      ∙ sum_exchange x c k (λ j l. f i j ⊗ (d i l ⊗ b l j))
      ∙ sum_congr k _ _ (λ l m.
        sum_congr c _ _ (λ j q. turn (f i j) (d i l) (b l j))
        ∙ sym (sum-times x c (λ j. f i j ⊗ b l j) (d i l))))
    where
      turn : (p q t : A) → p ⊗ (q ⊗ t) ≡ (p ⊗ t) ⊗ q
      turn p q t = ap (λ u. p ⊗ u) (x.times_comm q t) ∙ sym (x.times_assoc p t q)

  -- The factor on the left of a product goes over as its transpose.
  pub pairing_left_factor :
      (r k c : ℕ) (f a d : Cells A)
      → pairing r c f (λ i j. sum k (λ l. a i l ⊗ d l j))
        ≡ pairing k c (λ l j. sum r (λ i. a i l ⊗ f i j)) d
  unfolding pairing
  pairing_left_factor r k c f a d =
      sum_congr r _ _ (λ i p.
        sum_congr c _ _ (λ j q. times-sum x k (f i j) _)
        ∙ sum_exchange x c k (λ j l. f i j ⊗ (a i l ⊗ d l j)))
      ∙ sum_exchange x r k (λ i l. sum c (λ j. f i j ⊗ (a i l ⊗ d l j)))
      ∙ sum_congr k _ _ (λ l m.
        sum_exchange x r c (λ i j. f i j ⊗ (a i l ⊗ d l j))
        ∙ sum_congr c _ _ (λ j q.
          sum_congr r _ _ (λ i p. turn (f i j) (a i l) (d l j))
          ∙ sym (sum-times x r (λ i. a i l ⊗ f i j) (d l j))))
    where
      turn : (p q t : A) → p ⊗ (q ⊗ t) ≡ (q ⊗ p) ⊗ t
      turn p q t = sym (x.times_assoc p q t) ∙ ap (λ u. u ⊗ t) (x.times_comm p q)

  -- The one cell of a sum is spread over the table.
  pub pairing_spread :
      (r c : ℕ) (f g : Cells A)
      → pairing 1 1 f (λ _ _. sum r (λ i. sum c (g i))) ≡ pairing r c (λ _ _. f 0 0) g
  unfolding pairing sum
  pairing_spread r c f g =
      plus-nought x _
      ∙ plus-nought x _
      ∙ times-sum x r (f 0 0) (λ i. sum c (g i))
      ∙ sum_congr r _ _ (λ i l. times-sum x c (f 0 0) (g i))

  -- A sum whose term at `k` grows grows with it.
  pub sum_grows :
      (n : ℕ) (f g : ℕ → A) (k : ℕ) (e : A)
      → k < n
      → ((i : ℕ) → i ≢ k → g i ≡ f i)
      → g k ≡ f k ⊕ e
      → sum n g ≡ sum n f ⊕ e
  unfolding sum
  sum_grows zero f g k e l same grow = absurd (omega arith)
  sum_grows (suc n) f g zero e l same grow =
      rw
        (
          grow,
          sum_congr n (λ i. g (suc i)) (λ i. f (suc i)) (λ i m. same (suc i) (λ q. omega arith)),
        )
        (x.plus_assoc (f 0) e _
          ∙ ap (λ t. f 0 ⊕ t) (x.plus_comm e _)
          ∙ sym (x.plus_assoc (f 0) _ e))
  sum_grows (suc n) f g (suc k) e l same grow =
      rw
        (
          same 0 (λ q. omega arith),
          sum_grows n (λ i. f (suc i)) (λ i. g (suc i)) k e (omega arith)
              (λ i ne. same (suc i) (λ q. ne (omega arith))) grow,
        )
        (sym (x.plus_assoc (f 0) _ e))
