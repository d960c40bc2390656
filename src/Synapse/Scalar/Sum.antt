-- ===== src/Synapse/Scalar/Sum.antt =====
-- Sums over a range of indices, the reference for the loops of synapse_autograd/synapse/linalg.py.
use python_portfolio.Prelude.{
  ℕ, zero, suc, ◌<◌, ◌≡◌, refl, sym, ap, ◌∙◌, arith, nat_eq, bytes_eq, string_eq,
}
use python_portfolio.Synapse.Scalar.{Scalar, IsExact, ◌⊕◌, ◌⊗◌}

module _ {ℓ} {A : Type ℓ} ⦃s : Scalar A⦄ where
  -- f 0 + ... + f (n - 1)
  unfoldable pub sum : ℕ → (ℕ → A) → A
  sum zero f = s.nought
  sum (suc n) f = f 0 ⊕ sum n (λ k. f (suc k))

  pub sum_congr : (n : ℕ) (f g : ℕ → A) → ((k : ℕ) → k < n → f k ≡ g k) → sum n f ≡ sum n g
  unfolding sum
  sum_congr zero f g h = refl
  sum_congr (suc n) f g h =
      rw (h 0 (omega arith))
        (rw (sum_congr n (λ k. f (suc k)) (λ k. g (suc k)) (λ k l. h (suc k) (omega arith))))

  -- ((acc + f 0) + ...) + f (n - 1), added from left to right
  unfoldable pub sum_from : A → ℕ → (ℕ → A) → A
  sum_from acc zero f = acc
  sum_from acc (suc n) f = sum_from (acc ⊕ f 0) n (λ k. f (suc k))

  pub sum_from_congr :
      (acc : A) (n : ℕ) (f g : ℕ → A)
      → ((k : ℕ) → k < n → f k ≡ g k)
      → sum_from acc n f ≡ sum_from acc n g
  unfolding sum_from
  sum_from_congr acc zero f g h = refl
  sum_from_congr acc (suc n) f g h = rw (h 0 (omega arith)) (
      sum_from_congr (acc ⊕ g 0) n (λ k. f (suc k)) (λ k. g (suc k))
        (λ k l. h (suc k) (omega arith)))

module _ {ℓ} {A : Type ℓ} ⦃s : Scalar A⦄ (x : IsExact s) where
  pub plus-nought : (a : A) → a ⊕ s.nought ≡ a
  plus-nought a = rw (x.plus_comm a s.nought) (x.nought-plus a)

  pub sum_from-sum : (acc : A) (n : ℕ) (f : ℕ → A) → sum_from acc n f ≡ acc ⊕ sum n f
  unfolding sum_from sum
  sum_from-sum acc zero f = sym (plus-nought acc)
  sum_from-sum acc (suc n) f =
      sum_from-sum (acc ⊕ f 0) n (λ k. f (suc k)) ∙ x.plus_assoc acc (f 0) _

  pub times-nought : (a : A) → a ⊗ s.nought ≡ s.nought
  times-nought a = rw (x.times_comm a s.nought) (x.nought-times a)

  pub plus-times : (a b c : A) → (a ⊕ b) ⊗ c ≡ a ⊗ c ⊕ b ⊗ c
  plus-times a b c =
      rw (x.times_comm (a ⊕ b) c, x.times_comm a c, x.times_comm b c) (x.times-plus c a b)

  pub plus_swap : (a b c d : A) → (a ⊕ b) ⊕ (c ⊕ d) ≡ (a ⊕ c) ⊕ (b ⊕ d)
  plus_swap a b c d =
      let inner : b ⊕ (c ⊕ d) ≡ c ⊕ (b ⊕ d) =
        sym (x.plus_assoc b c d) ∙ ap (λ t. t ⊕ d) (x.plus_comm b c) ∙ x.plus_assoc c b d in
      x.plus_assoc a b (c ⊕ d) ∙ ap (λ t. a ⊕ t) inner ∙ sym (x.plus_assoc a c (b ⊕ d))

  pub sum-nought : (n : ℕ) → sum n (λ _. s.nought) ≡ s.nought
  unfolding sum
  sum-nought zero = refl
  sum-nought (suc n) = x.nought-plus _ ∙ sum-nought n

  pub sum-plus : (n : ℕ) (f g : ℕ → A) → sum n (λ k. f k ⊕ g k) ≡ sum n f ⊕ sum n g
  unfolding sum
  sum-plus zero f g = sym (x.nought-plus s.nought)
  sum-plus (suc n) f g =
      ap (λ t. (f 0 ⊕ g 0) ⊕ t) (sum-plus n (λ k. f (suc k)) (λ k. g (suc k)))
      ∙ plus_swap (f 0) (g 0) _ _

  pub times-sum : (n : ℕ) (a : A) (f : ℕ → A) → a ⊗ sum n f ≡ sum n (λ k. a ⊗ f k)
  unfolding sum
  times-sum zero a f = times-nought a
  times-sum (suc n) a f =
      x.times-plus a (f 0) _ ∙ ap (λ t. a ⊗ f 0 ⊕ t) (times-sum n a (λ k. f (suc k)))

  pub sum-times : (n : ℕ) (f : ℕ → A) (a : A) → sum n f ⊗ a ≡ sum n (λ k. f k ⊗ a)
  sum-times n f a =
      x.times_comm _ a ∙ times-sum n a f ∙ sum_congr n _ _ (λ k l. x.times_comm a (f k))

  pub sum_exchange :
      (m n : ℕ) (f : ℕ → ℕ → A) → sum m (λ i. sum n (f i)) ≡ sum n (λ j. sum m (λ i. f i j))
  unfolding sum
  sum_exchange zero n f = sym (sum-nought n)
  sum_exchange (suc m) n f =
      ap (λ t. sum n (f 0) ⊕ t) (sum_exchange m n (λ i. f (suc i)))
      ∙ sym (sum-plus n (f 0) (λ j. sum m (λ i. f (suc i) j)))
