-- ===== src/Struct.antt =====
-- Python's `struct` in network byte order (`!`, no padding), as far as the code uses it: the codes
-- `4s`, `B`/`H`/`I`/`Q`, `b`/`i`/`q` and `d`. A double is its 64-bit pattern; of the ints, which `d` takes too, the code packs
-- none but the default 0.
pub mod RoundTrip
use python_portfolio.Prelude.{
  ℕ, zero, suc, ◌+◌, ◌-◌, ◌*◌, ◌/◌, ◌^◌, Bool, true, false, Option, none, some, List, [], ◌∷◌, ◌++◌,
  length, take, drop, replicate, ltb, leb, if◌then◌else◌, ◌==◌, ℤ, pos, negsuc, Bytes, to_be,
  from_be, nat_eq,
}

pub data Code : Type 0 where
  chars : ℕ → Code
  unsigned : ℕ → Code
  signed : ℕ → Code
  double : Code

pub data Value : Type 0 where
  raw : Bytes → Value
  int : ℤ → Value
  real : ℕ → Value

abbrev pub Format : Type 0
Format = List Code

abbrev pub code_size : Code → ℕ
code_size (chars n) = n
code_size (unsigned w) = w
code_size (signed w) = w
code_size double = 8

-- struct.calcsize
unfoldable pub calcsize : Format → ℕ
calcsize [] = 0
calcsize (c ∷ cs) = code_size c + calcsize cs

-- The two's complement of a negative number, and back.
unfoldable pub pack_signed : ℕ → ℤ → Option Bytes
pack_signed w (pos n) = if ltb (2 * n) (256 ^ w) then some (to_be w n) else none
pack_signed w (negsuc n) =
    if leb (2 * n + 2) (256 ^ w) then some (to_be w (256 ^ w - (n + 1))) else none

unfoldable pub unpack_signed : ℕ → ℕ → ℤ
unpack_signed w u = if ltb (2 * u) (256 ^ w) then pos u else negsuc (256 ^ w - u - 1)

-- One value; `none` is struct.error, for a value out of range or of another type.
unfoldable pub pack_one : Code → Value → Option Bytes
unfolding pack_signed
pack_one (chars n) (raw bs) = some (take n (bs ++ replicate n 0))
pack_one (unsigned w) (int (pos n)) = if ltb n (256 ^ w) then some (to_be w n) else none
pack_one (unsigned w) (int (negsuc n)) = none
pack_one (signed w) (int z) = pack_signed w z
pack_one double (real b) = if ltb b (256 ^ 8) then some (to_be 8 b) else none
pack_one double (int (pos zero)) = some (to_be 8 0)
pack_one _ _ = none

unfoldable pub unpack_one : Code → Bytes → Value
unfolding unpack_signed
unpack_one (chars n) bs = raw bs
unpack_one (unsigned w) bs = int (pos (from_be bs))
unpack_one (signed w) bs = int (unpack_signed w (from_be bs))
unpack_one double bs = real (from_be bs)

abbrev pub join : Option Bytes → Option Bytes → Option Bytes
join (some a) (some b) = some (a ++ b)
join (some a) none = none
join none _ = none

-- struct.pack
unfoldable pub pack : Format → List Value → Option Bytes
unfolding pack_one
pack [] [] = some []
pack (c ∷ cs) (v ∷ vs) = join (pack_one c v) (pack cs vs)
pack _ _ = none

unfoldable pub unpack_fields : Format → Bytes → List Value
unfolding unpack_one
unpack_fields [] bs = []
unpack_fields (c ∷ cs) bs =
    unpack_one c (take (code_size c) bs) ∷ unpack_fields cs (drop (code_size c) bs)

-- struct.unpack: the buffer has exactly the size of the format.
unfoldable pub unpack : Format → Bytes → Option (List Value)
unfolding unpack_fields calcsize
unpack f bs = if length bs == calcsize f then some (unpack_fields f bs) else none
