-- ===== src/Prelude/Words.antt =====
-- Big-endian unsigned words of a fixed number of bytes.
use Prim.Native.Nat.{ℕ, zero, suc, ◌+◌, ◌*◌, ◌/◌, ◌%◌, ◌^◌, ◌≤◌, ◌<◌}
use mathlib.Core.Path.{◌≡◌, refl, ap, ◌∙◌, subst}
use mathlib.Core.Logic.{◌↔◌}
use mathlib.Core.Bool.{Bool, true, false, ◌&&◌}
use python_portfolio.Prelude.Tests.{Eq, nat_beq}
use mathlib.Core.List.{List, [], ◌∷◌, ◌++◌, append_assoc, append-nil}
use native.Mathlib.Omega.{arith}
use native.Mathlib.Nat.{pow-suc}
use python_portfolio.Prelude.Lists.{length, length-append, All}

abbrev pub Bytes : Type 0
Bytes = List ℕ

abbrev pub bytes_beq : Bytes → Bytes → Bool
bytes_beq [] [] = true
bytes_beq (a ∷ as') (b ∷ bs) = nat_beq a b && bytes_beq as' bs
bytes_beq _ _ = false

bytes_beq_sound : (a b : Bytes) → bytes_beq a b ≡ true → a ≡ b
bytes_beq_sound [] [] h = refl
bytes_beq_sound [] (y ∷ b) h = ground arith
bytes_beq_sound (x ∷ a) [] h = ground arith
bytes_beq_sound (x ∷ a) (y ∷ b) h = ground (arith, bytes_beq_sound a b)

bytes_beq_refl : (a : Bytes) → bytes_beq a a ≡ true
bytes_beq_refl [] = refl
bytes_beq_refl (x ∷ a) = ground (arith, bytes_beq_refl a)

pub bytes_beq_iff : (a b : Bytes) → (bytes_beq a b ≡ true) ↔ (a ≡ b)
bytes_beq_iff a b =
    (bytes_beq_sound a b, λ e. subst (λ x. bytes_beq a x ≡ true) e (bytes_beq_refl a))

instance abbrev pub bytes_eq : Eq Bytes
bytes_eq = record { beq = bytes_beq; beq_iff = bytes_beq_iff }

unfoldable pub to_be : ℕ → ℕ → Bytes
to_be zero v = []
to_be (suc w) v = to_be w (v / 256) ++ (v % 256 ∷ [])

unfoldable pub from_be_acc : ℕ → Bytes → ℕ
from_be_acc acc [] = acc
from_be_acc acc (b ∷ bs) = from_be_acc (acc * 256 + b) bs

unfoldable pub from_be : Bytes → ℕ
unfolding from_be_acc
from_be bs = from_be_acc 0 bs

pub length-to_be : (w v : ℕ) → length (to_be w v) ≡ w
unfolding to_be
length-to_be zero v = refl
length-to_be (suc w) v =
    omega (arith, length-append (to_be w (v / 256)) (v % 256 ∷ []), length-to_be w (v / 256))

from_be_acc-to_be :
    (w acc v : ℕ) (rest : Bytes)
    → v < 256 ^ w
    → from_be_acc acc (to_be w v ++ rest) ≡ from_be_acc (acc * 256 ^ w + v) rest
unfolding to_be from_be_acc
from_be_acc-to_be zero acc v rest h = let e : acc ≡ acc * 256 ^ 0 + v = omega arith in rw (← e)
from_be_acc-to_be (suc w) acc v rest h =
    let small : v / 256 < 256 ^ w = omega (arith, pow-suc 256 w) in
    let e : (acc * 256 ^ w + v / 256) * 256 + v % 256 ≡ acc * 256 ^ suc w + v =
      omega (arith, ap (λ t. acc * t) (pow-suc 256 w)) in
    rw append_assoc (rw (from_be_acc-to_be w acc (v / 256) (v % 256 ∷ rest) small) (rw e))

-- A word that fits its bytes is read back.
pub from_be-to_be : (w v : ℕ) → v < 256 ^ w → from_be (to_be w v) ≡ v
unfolding from_be
from_be-to_be w v h = rw append-nil at in_full
  where
    in_full : from_be_acc 0 (to_be w v ++ []) ≡ v
    in_full = from_be_acc-to_be w 0 v [] h ∙ omega arith

mul_mono : (a b c : ℕ) → a ≤ b → a * c ≤ b * c
mul_mono a b c h = grind arith

to_be-push :
    (k acc b : ℕ) (bs : Bytes)
    → b < 256
    → to_be (suc k) (acc * 256 + b) ++ bs ≡ to_be k acc ++ (b ∷ bs)
unfolding to_be
to_be-push k acc b bs small =
    let quotient : (acc * 256 + b) / 256 ≡ acc = omega arith in
    let digit : (acc * 256 + b) % 256 ≡ b = omega arith in rw (quotient, digit, append_assoc)

to_be-from_be_acc :
    (n k acc : ℕ) (bs : Bytes)
    → n ≡ k + length bs
    → All (λ b. b < 256) bs
    → to_be n (from_be_acc acc bs) ≡ to_be k acc ++ bs
unfolding from_be_acc
to_be-from_be_acc n k acc [] e h = let same : n ≡ k = omega arith in rw (same, append-nil)
to_be-from_be_acc n k acc (b ∷ bs) e (small, h) =
    to_be-from_be_acc n (suc k) (acc * 256 + b) bs (omega arith) h ∙ to_be-push k acc b bs small

-- Bytes that are read as a word are written back.
pub to_be-from_be : (bs : Bytes) → All (λ b. b < 256) bs → to_be (length bs) (from_be bs) ≡ bs
unfolding from_be to_be
to_be-from_be bs h = to_be-from_be_acc (length bs) 0 0 bs (omega arith) h

from_be_acc-lt :
    (w acc : ℕ) (bs : Bytes)
    → length bs ≡ w
    → All (λ b. b < 256) bs
    → from_be_acc acc bs + 1 ≤ (acc + 1) * 256 ^ w
unfolding from_be_acc
from_be_acc-lt w acc [] e h = rw (← e) (omega arith)
from_be_acc-lt zero acc (b ∷ bs) e h = absurd (omega arith)
from_be_acc-lt (suc w) acc (b ∷ bs) e (small, h) = omega (
  arith,
  from_be_acc-lt w (acc * 256 + b) bs (omega arith) h,
  ap (λ t. (acc + 1) * t) (pow-suc 256 w),
  mul_mono (acc * 256 + b + 1) ((acc + 1) * 256) (256 ^ w) (omega arith),
)

-- A word of `w` bytes is below 256 ^ w.
pub from_be-lt : (w : ℕ) (bs : Bytes) → length bs ≡ w → All (λ b. b < 256) bs → from_be bs < 256 ^ w
unfolding from_be
from_be-lt w bs e h = omega (arith, from_be_acc-lt w 0 bs e h)
