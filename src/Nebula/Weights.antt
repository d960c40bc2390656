-- ===== src/Nebula/Weights.antt =====
-- The order and the sum of whole numbers, for the costs of the search by Dijkstra.
use python_portfolio.Prelude.{
  ◌≡◌, Bool, true, false, not, arith, ℤ, pos, negsuc, ◌+ℤ◌, leb_ℤ, nat_eq, bytes_eq, string_eq,
}

infix 50 ◌≤ℤ◌
abbrev pub ◌≤ℤ◌ : ℤ → ℤ → Type 0
a ≤ℤ b = leb_ℤ a b ≡ true

-- a < b
unfoldable pub ltb_ℤ : ℤ → ℤ → Bool
ltb_ℤ a b = not (leb_ℤ b a)

pub leb_refl : (a : ℤ) → a ≤ℤ a
leb_refl a = ground arith

pub leb_trans : (a b c : ℤ) → a ≤ℤ b → b ≤ℤ c → a ≤ℤ c
leb_trans a b c h k = ground (arith, h, k)

pub ltb→leb : (a b : ℤ) → ltb_ℤ a b ≡ true → a ≤ℤ b
unfolding ltb_ℤ
ltb→leb a b h = ground (arith, h)

pub not_ltb→leb : (a b : ℤ) → ltb_ℤ a b ≡ false → b ≤ℤ a
unfolding ltb_ℤ
not_ltb→leb a b h = ground (arith, h)

pub leb→not_ltb : (a b : ℤ) → a ≤ℤ b → ltb_ℤ b a ≡ false
unfolding ltb_ℤ
leb→not_ltb a b h = ground (arith, h)

pub leb-plus : (a w : ℤ) → pos 0 ≤ℤ w → a ≤ℤ (a +ℤ w)
unfolding ◌+ℤ◌
leb-plus (pos a) (pos w) h = ground (arith, h)
leb-plus (negsuc a) (pos w) h = ground (arith, h)
leb-plus a (negsuc w) h = ground (arith, h)

pub plus-leb : (a b w : ℤ) → a ≤ℤ b → (a +ℤ w) ≤ℤ (b +ℤ w)
unfolding ◌+ℤ◌
plus-leb (pos a) (pos b) (pos w) h = ground (arith, h)
plus-leb (pos a) (pos b) (negsuc w) h = ground (arith, h)
plus-leb (negsuc a) (pos b) (pos w) h = ground (arith, h)
plus-leb (negsuc a) (pos b) (negsuc w) h = ground (arith, h)
plus-leb (negsuc a) (negsuc b) (pos w) h = ground (arith, h)
plus-leb (negsuc a) (negsuc b) (negsuc w) h = ground (arith, h)
plus-leb (pos a) (negsuc b) w h = absurd (ground (arith, h))

pub plus_one : (a : ℤ) → (a +ℤ pos 1) ≤ℤ a → ⊥
unfolding ◌+ℤ◌
plus_one (pos a) h = ground (arith, h)
plus_one (negsuc a) h = ground (arith, h)
