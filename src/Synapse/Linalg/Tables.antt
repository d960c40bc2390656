-- ===== src/Synapse/Linalg/Tables.antt =====
-- synapse_autograd/synapse/linalg.py: a matrix as the table of a function of two indices, and what
-- the loops and comprehensions make of it.
use python_portfolio.Prelude.{
  ℕ, zero, suc, ◌<◌, ◌≡◌, refl, ap, false, some, List, [], ◌∷◌, map, arith, length, get_elem?, set,
  replicate, Result, ok, if◌then◌else◌, nat_beq, nat_eq, bytes_eq, string_eq,
}
use python_portfolio.Synapse.Linalg.{
  Error, Matrix, item, cell, cols, collect, collect_rows, for_range,
}

-- f 0, ..., f (n - 1)
unfoldable pub tab {ℓ} : {A : Type ℓ} → ℕ → (ℕ → A) → List A
tab zero f = []
tab (suc n) f = f 0 ∷ tab n (λ i. f (suc i))

-- The matrix with `r` rows and `c` columns that has `f i j` in its cell `(i, j)`.
unfoldable pub table {ℓ} : {A : Type ℓ} → ℕ → ℕ → (ℕ → ℕ → A) → Matrix A
unfolding tab
table r c f = tab r (λ i. tab c (f i))

module _ {ℓ} {A : Type ℓ} where
  pub length-tab : (n : ℕ) (f : ℕ → A) → length (tab n f) ≡ n
  unfolding tab
  length-tab zero f = refl
  length-tab (suc n) f = ap (λ k. suc k) (length-tab n (λ i. f (suc i)))

  pub get_elem?-tab : (n : ℕ) (f : ℕ → A) (i : ℕ) → i < n → get_elem? (tab n f) i ≡ some (f i)
  unfolding tab
  get_elem?-tab zero f i h = absurd (omega arith)
  get_elem?-tab (suc n) f zero h = refl
  get_elem?-tab (suc n) f (suc i) h = get_elem?-tab n (λ k. f (suc k)) i (omega arith)

  pub tab_congr : (n : ℕ) (f g : ℕ → A) → ((i : ℕ) → i < n → f i ≡ g i) → tab n f ≡ tab n g
  unfolding tab
  tab_congr zero f g h = refl
  tab_congr (suc n) f g h =
      rw (h 0 (omega arith))
        (rw (tab_congr n (λ k. f (suc k)) (λ k. g (suc k)) (λ k l. h (suc k) (omega arith))))

  pub replicate-tab : (n : ℕ) (a : A) → replicate n a ≡ tab n (λ _. a)
  unfolding tab
  replicate-tab zero a = refl
  replicate-tab (suc n) a = ap (λ t. a ∷ t) (replicate-tab n a)

  pub set-tab :
      (n : ℕ) (f : ℕ → A) (i : ℕ) (v : A)
      → set (tab n f) i v ≡ tab n (λ k. if nat_beq k i then v else f k)
  unfolding tab
  set-tab zero f i v = refl
  set-tab (suc n) f zero v = ap (λ t. v ∷ t) (tab_congr n (λ k. f (suc k)) _ (λ k l. ground arith))
  set-tab (suc n) f (suc i) v =
      let e : nat_beq 0 (suc i) ≡ false = ground arith in
      rw (e, set-tab n (λ k. f (suc k)) i v)
        (ap (λ t. f 0 ∷ t) (tab_congr n _ _ (λ k l. ground arith)))

  pub item-tab : (n : ℕ) (f : ℕ → A) (i : ℕ) → i < n → item (tab n f) i ≡ ok (f i)
  unfolding item
  item-tab n f i h = rw (get_elem?-tab n f i h)

module _ {ℓ} {A : Type ℓ} where
  pub cell-table :
      (r c : ℕ) (f : ℕ → ℕ → A) (i j : ℕ) → i < r → j < c → cell (table r c f) i j ≡ ok (f i j)
  unfolding cell table
  cell-table r c f i j h l = rw (item-tab r (λ k. tab c (f k)) i h) (item-tab c (f i) j l)

  pub cols-table : (r c : ℕ) (f : ℕ → ℕ → A) → 0 < r → cols (table r c f) ≡ ok c
  unfolding cols table
  cols-table r c f h = rw (item-tab r (λ k. tab c (f k)) 0 h) (ap ok (length-tab c (f 0)))

  pub length-table : (r c : ℕ) (f : ℕ → ℕ → A) → length (table r c f) ≡ r
  unfolding table
  length-table r c f = length-tab r (λ k. tab c (f k))

  pub table_congr :
      (r c : ℕ) (f g : ℕ → ℕ → A)
      → ((i j : ℕ) → i < r → j < c → f i j ≡ g i j)
      → table r c f ≡ table r c g
  unfolding table
  table_congr r c f g h = tab_congr r _ _ (λ i l. tab_congr c (f i) (g i) (λ j m. h i j l m))

  pub collect-tab :
      (n : ℕ) (g : ℕ → Result Error A) (f : ℕ → A)
      → ((i : ℕ) → i < n → g i ≡ ok (f i))
      → collect n g ≡ ok (tab n f)
  unfolding collect tab
  collect-tab zero g f h = refl
  collect-tab (suc n) g f h = rw (
    h 0 (omega arith),
    collect-tab n (λ i. g (suc i)) (λ i. f (suc i)) (λ i l. h (suc i) (omega arith)),
  )

  pub for_range-states :
      (n : ℕ) (step : ℕ → A → Result Error A) (state : ℕ → A)
      → ((i : ℕ) → i < n → step i (state i) ≡ ok (state (suc i)))
      → for_range n step (state 0) ≡ ok (state n)
  unfolding for_range
  for_range-states zero step state h = refl
  for_range-states (suc n) step state h =
      rw (h 0 (omega arith)) (
        for_range-states n (λ i. step (suc i)) (λ i. state (suc i))
          (λ i l. h (suc i) (omega arith)))

pub collect_rows-table {ℓ} :
    {A : Type ℓ} (r c : ℕ) (g : ℕ → ℕ → Result Error A) (f : ℕ → ℕ → A)
    → ((i j : ℕ) → i < r → j < c → g i j ≡ ok (f i j))
    → collect_rows r c g ≡ ok (table r c f)
unfolding collect_rows table
collect_rows-table r c g f h =
    collect-tab r _ _ (λ i l. collect-tab c (g i) (f i) (λ j m. h i j l m))

pub map-tab {ℓ κ} :
    {A : Type ℓ} {B : Type κ} (n : ℕ) (g : A → B) (f : ℕ → A)
    → map g (tab n f) ≡ tab n (λ i. g (f i))
unfolding tab
map-tab zero g f = refl
map-tab (suc n) g f = ap (λ t. g (f 0) ∷ t) (map-tab n g (λ i. f (suc i)))
