-- ===== src/Synapse/Scalar.antt =====
-- The numbers of synapse_autograd. Python's floats are a parameter: their operations and the test
-- `val > 0`. The laws of exact arithmetic, which floats obey up to rounding, stand by themselves.
pub mod Sum
pub mod Pairing
use python_portfolio.Prelude.{◌-◌, ◌≡◌, Bool, arith, any, nat_eq, bytes_eq, string_eq}

pub record Scalar {ℓ} (A : Type ℓ) : Type ℓ where
  pub nought : A
  pub unit : A
  pub plus : A → A → A
  pub minus : A → A → A
  pub times : A → A → A
  -- val > 0
  pub positive : A → Bool

module _ {ℓ} {A : Type ℓ} ⦃s : Scalar A⦄ where
  infixl 65 ◌⊕◌ ◌⊖◌
  infixl 70 ◌⊗◌
  abbrev pub ◌⊕◌ : A → A → A
  a ⊕ b = s.plus a b

  abbrev pub ◌⊖◌ : A → A → A
  a ⊖ b = s.minus a b

  abbrev pub ◌⊗◌ : A → A → A
  a ⊗ b = s.times a b

-- Exact arithmetic: a commutative semiring. Nothing is asked of the difference.
pub record IsExact {ℓ} {A : Type ℓ} (s : Scalar A) : Type ℓ where
  pub plus_comm : (a b : A) → s.plus a b ≡ s.plus b a
  pub plus_assoc : (a b c : A) → s.plus (s.plus a b) c ≡ s.plus a (s.plus b c)
  pub nought-plus : (a : A) → s.plus s.nought a ≡ a
  pub times_comm : (a b : A) → s.times a b ≡ s.times b a
  pub times_assoc : (a b c : A) → s.times (s.times a b) c ≡ s.times a (s.times b c)
  pub unit-times : (a : A) → s.times s.unit a ≡ a
  pub nought-times : (a : A) → s.times s.nought a ≡ s.nought
  pub times-plus : (a b c : A) → s.times a (s.plus b c) ≡ s.plus (s.times a b) (s.times a c)
