-- ===== src/Hyperion/Text.antt =====
-- Python's texts and bytes as hyperion_stream uses them: str(n), bytes.find, strict UTF-8 decoding.
use python_portfolio.Prelude.{
  ℕ, zero, suc, ◌+◌, ◌-◌, ◌*◌, ◌/◌, ◌%◌, ◌<◌, ◌≡◌, refl, inl, inr, Bool, false, ◌&&◌, Option, none,
  some, [], ◌∷◌, ◌++◌, arith, All, and_then, ltb, leb, if◌then◌else◌, nat_beq_refl, Bool-cases,
  ◌==◌, nat_eq, bytes_eq, string_eq, Bytes,
}

-- The digits of a number, with at most the given number of them.
unfoldable pub digits : ℕ → ℕ → Bytes
digits zero n = []
digits (suc fuel) n =
    let rest = digits fuel (n / 10) in
    if ltb n 10 then (48 + n) ∷ [] else rest ++ ((48 + n % 10) ∷ [])

-- str(n); a number has at most one digit more than its value.
unfoldable pub decimal : ℕ → Bytes
unfolding digits
decimal n = digits (suc n) n

-- int(s) of decimal digits
unfoldable pub from_decimal : ℕ → Bytes → ℕ
from_decimal acc [] = acc
from_decimal acc (c ∷ cs) = from_decimal (acc * 10 + (c - 48)) cs

from_decimal-append :
    (acc : ℕ) (a b : Bytes) → from_decimal acc (a ++ b) ≡ from_decimal (from_decimal acc a) b
unfolding from_decimal
from_decimal-append acc [] b = refl
from_decimal-append acc (c ∷ a) b = from_decimal-append (acc * 10 + (c - 48)) a b

from_decimal-digits : (fuel n : ℕ) → n < fuel → from_decimal 0 (digits fuel n) ≡ n
unfolding from_decimal digits
from_decimal-digits zero n h = absurd (omega arith)
from_decimal-digits (suc fuel) n h = elim (Bool-cases (ltb n 10)) [
  | inl small ↦ rw small (omega arith)
  | inr large ↦
      rw (large, from_decimal-append, from_decimal-digits fuel (n / 10) (ground (arith, large)))
        (omega arith)
]

-- What str(n) writes is the number.
pub from_decimal-decimal : (n : ℕ) → from_decimal 0 (decimal n) ≡ n
unfolding decimal
from_decimal-decimal n = from_decimal-digits (suc n) n (omega arith)

-- payload.find(b'|'), as what stands before the first one and behind it
unfoldable pub split_at : ℕ → Bytes → Option (Bytes × Bytes)
split_at sep [] = none
split_at sep (b ∷ bs) =
    let rest = and_then (split_at sep bs) (λ p. some (b ∷ p.0, p.1)) in
    if b == sep then some ([], bs) else rest

pub split_at-join :
    (sep : ℕ) (key value : Bytes)
    → All (λ b. (b == sep) ≡ false) key
    → split_at sep (key ++ (sep ∷ value)) ≡ some (key, value)
unfolding split_at
split_at-join sep [] value h = rw (nat_beq_refl sep)
split_at-join sep (b ∷ key) value h = rw (h.0, split_at-join sep key value h.1)

abbrev within : ℕ → ℕ → ℕ → Bool
within lo hi b = leb lo b && leb b hi

-- The least and the greatest second byte behind a first byte of three or four (RFC 3629).
abbrev second_from : ℕ → ℕ
second_from b = if b == 0xe0 then 0xa0 else if b == 0xf0 then 0x90 else 0x80

abbrev second_to : ℕ → ℕ
second_to b = if b == 0xed then 0x9f else if b == 0xf4 then 0x8f else 0xbf

-- How many bytes follow a first byte, and the bounds of the next one.
abbrev lead : ℕ → Option (ℕ × ℕ × ℕ)
lead b =
    if ltb b 0x80
    then some (0, 0x80, 0xbf)
    else if within 0xc2 0xdf b
    then some (1, 0x80, 0xbf)
    else if within 0xe0 0xef b
    then some (2, second_from b, second_to b)
    else if within 0xf0 0xf4 b
    then some (3, second_from b, second_to b)
    else none

-- Whether bytes are UTF-8 from here on, where `more` continuation bytes are due and the next of them
-- lies between the bounds.
unfoldable pub decodes_from : ℕ → ℕ → ℕ → Bytes → Bool
decodes_from more lo hi [] = more == 0
decodes_from zero lo hi (b ∷ bs) = elim (lead b) [
  | none ↦ false
  | some (more, lo', hi') ↦ decodes_from more lo' hi' bs
]
decodes_from (suc more) lo hi (b ∷ bs) =
    let rest = decodes_from more 0x80 0xbf bs in within lo hi b && rest

-- bytes.decode('utf-8') raises no UnicodeDecodeError
unfoldable pub decodes : Bytes → Bool
unfolding decodes_from
decodes bs = decodes_from 0 0x80 0xbf bs
