-- ===== src/Ouroboros/Compiler/Tables.antt =====
-- ouroboros_vm/ouroboros/compiler.py: the tables of constants and names, `_add_const`, `_add_name`.
use python_portfolio.Prelude.{
  ℕ, zero, suc, ◌+◌, ◌≤◌, ◌≡◌, refl, ◌∙◌, Bool, true, Option, none, some, List, [], ◌∷◌, ◌++◌,
  arith, length, get_elem?, length-append, nat_eq, bytes_eq, string_eq, bytes_beq_iff,
  get_elem?-append_left, get_elem?-append_at, get_elem?-lt,
}
use python_portfolio.Ouroboros.Compiler.{index_of, add_to, Const, number, text, const_beq}

-- Every entry of `xs` is in `ys` at the same index.
abbrev pub Extends : {A : Type 0} → List A → List A → Type 0
Extends {A} xs ys = (j : ℕ) (b : A) → get_elem? xs j ≡ some b → get_elem? ys j ≡ some b

pub Extends-append : {A : Type 0} (xs ys : List A) → Extends xs (xs ++ ys)
Extends-append xs ys j b h = get_elem?-append_left xs ys j (get_elem?-lt xs j h) ∙ h

pub const_beq_sound : (a b : Const) → const_beq a b ≡ true → a ≡ b
const_beq_sound (number a) (number b) h = ground arith
const_beq_sound (text a) (text b) h = ground (arith, bytes_beq_iff a b)
const_beq_sound a b h = ground arith

module _ {A : Type 0} (same : A → A → Bool) (sound : (a b : A) → same a b ≡ true → a ≡ b) where
  index_of-get_elem? :
      (xs : List A) (a : A) (i : ℕ) → index_of same xs a ≡ some i → get_elem? xs i ≡ some a
  unfolding index_of
  index_of-get_elem? [] a i h = ground arith
  index_of-get_elem? (x ∷ xs) a zero h = ground (arith, sound x a)
  index_of-get_elem? (x ∷ xs) a (suc i) h = ground (arith, index_of-get_elem? xs a i)

  pub add_to-get_elem? :
      (xs : List A) (a : A) → get_elem? (add_to same xs a).0 (add_to same xs a).1 ≡ some a
  unfolding add_to
  add_to-get_elem? xs a = cases (index_of same xs a) refl
    where
      cases :
          (o : Option ℕ)
          → index_of same xs a ≡ o
          → get_elem? (add_to same xs a).0 (add_to same xs a).1 ≡ some a
      cases none e = rw (e, add_to) (get_elem?-append_at xs a [])
      cases (some i) e = rw (e, add_to) (index_of-get_elem? xs a i e)

  pub add_to-Extends : (xs : List A) (a : A) → Extends xs (add_to same xs a).0
  unfolding add_to
  add_to-Extends xs a = cases (index_of same xs a) refl
    where
      cases : (o : Option ℕ) → index_of same xs a ≡ o → Extends xs (add_to same xs a).0
      cases none e = rw (e, add_to) (Extends-append xs (a ∷ []))
      cases (some i) e = rw (e, add_to) (λ j b h. h)

pub add_to_few :
    {A : Type 0} (same : A → A → Bool) (xs : List A) (a : A)
    → length (add_to same xs a).0 ≤ length xs + 1
unfolding add_to
add_to_few same xs a = cases (index_of same xs a) refl
  where
    cases : (o : Option ℕ) → index_of same xs a ≡ o → length (add_to same xs a).0 ≤ length xs + 1
    cases none e = rw (e, add_to) (omega (arith, length-append xs (a ∷ [])))
    cases (some i) e = rw (e, add_to) (omega arith)
