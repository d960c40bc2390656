-- ===== src/Struct/RoundTrip.antt =====
-- `struct.pack` and `struct.unpack` of Python, one after the other.
use mathlib.Core.Path.{ap₂}
use python_portfolio.Prelude.{
  ℕ, zero, ◌+◌, ◌-◌, ◌^◌, ◌≡◌, refl, ap, Option, none, some, List, [], ◌∷◌, ◌++◌, length, take,
  replicate, pos, negsuc, Bytes, from_be-to_be, length-to_be, length-append, take-append,
  drop-append, arith, length-take, length-replicate, nat_eq, nat_beq_refl, All-take, All-drop,
  length-drop, take-append-drop, drop, All, from_be-lt, to_be-from_be, from_be, ◌<◌, append_assoc,
  append-nil,
}
use python_portfolio.Struct.{
  Code, chars, unsigned, signed, double, Value, raw, int, real, Format, code_size, calcsize,
  pack_one, unpack_one, join, pack, unpack_fields, unpack,
}

-- The value that is read back: a text of the field's length, any other value as it was.
abbrev pub stored : Code → Value → Value
stored (chars n) (raw bs) = raw (take n (bs ++ replicate n 0))
stored double (int z) = real 0
stored _ v = v

abbrev pub stored_all : Format → List Value → List Value
stored_all [] vs = []
stored_all (c ∷ cs) [] = []
stored_all (c ∷ cs) (v ∷ vs) = stored c v ∷ stored_all cs vs

length-take-pad : (n : ℕ) (bs : Bytes) → length (take n (bs ++ replicate n 0)) ≡ n
length-take-pad n bs = omega (
  arith,
  length-take n (bs ++ replicate n 0),
  length-append bs (replicate n 0),
  length-replicate n (zero),
)

length-pack_one :
    (c : Code) (v : Value) {bs : Bytes} → pack_one c v ≡ some bs → length bs ≡ code_size c
unfolding pack_one
length-pack_one (chars n) (raw v) h = ground (arith, length-take-pad n v)
length-pack_one (unsigned w) (int (pos n)) h = ground (arith, length-to_be w n)
length-pack_one (signed w) (int (pos n)) h = ground (arith, length-to_be w n)
length-pack_one (signed w) (int (negsuc n)) h = ground (arith, length-to_be w (256 ^ w - (n + 1)))
length-pack_one double (real b) h = ground (arith, length-to_be 8 b)
length-pack_one double (int (pos zero)) h = ground (arith, length-to_be 8 0)
length-pack_one c v h = ground arith

unpack_one-pack_one :
    (c : Code) (v : Value) {bs : Bytes} → pack_one c v ≡ some bs → unpack_one c bs ≡ stored c v
unfolding pack_one unpack_one
unpack_one-pack_one (chars n) (raw v) h = ground arith
unpack_one-pack_one (unsigned w) (int (pos n)) h = ground (arith, from_be-to_be w n)
unpack_one-pack_one (signed w) (int (pos n)) h = ground (arith, from_be-to_be w n)
unpack_one-pack_one (signed w) (int (negsuc n)) h =
    ground (arith, from_be-to_be w (256 ^ w - (n + 1)))
unpack_one-pack_one double (real b) h = ground (arith, from_be-to_be 8 b)
unpack_one-pack_one double (int (pos zero)) h = ground (arith, from_be-to_be 8 0)
unpack_one-pack_one c v h = ground arith

join-some :
    (a b : Option Bytes) {bs : Bytes}
    → join a b ≡ some bs
    → (x : Bytes) × (y : Bytes) × (a ≡ some x) × (b ≡ some y) × (bs ≡ x ++ y)
join-some (some x) (some y) h = (x, y, refl, refl, ground arith)
join-some (some x) none h = ground arith
join-some none b h = ground arith

-- What `pack` writes has the size that `calcsize` says.
pub length-pack :
    (f : Format) (vs : List Value) {bs : Bytes} → pack f vs ≡ some bs → length bs ≡ calcsize f
unfolding pack calcsize
length-pack [] [] h = ground arith
length-pack [] (v ∷ vs) h = ground arith
length-pack (c ∷ cs) [] h = ground arith
length-pack (c ∷ cs) (v ∷ vs) h =
    let (x, y, px, py, e) = join-some (pack_one c v) (pack cs vs) h in
    rw e (omega (arith, length-append x y, length-pack_one c v px, length-pack cs vs py))

-- A prefix that `pack` wrote is read back field by field, whatever follows it.
pub unpack_fields-pack :
    (f : Format) (vs : List Value) {bs : Bytes} (rest : Bytes)
    → pack f vs ≡ some bs
    → unpack_fields f (bs ++ rest) ≡ stored_all f vs
unfolding pack unpack_fields
unpack_fields-pack [] [] rest h = refl
unpack_fields-pack [] (v ∷ vs) rest h = ground arith
unpack_fields-pack (c ∷ cs) [] rest h = ground arith
unpack_fields-pack (c ∷ cs) (v ∷ vs) rest h =
    let (x, y, px, py, e) = join-some (pack_one c v) (pack cs vs) h in
    rw (e, append_assoc, ← length-pack_one c v px, take-append, drop-append)
      (ap₂ ◌∷◌ (unpack_one-pack_one c v px) (unpack_fields-pack cs vs rest py))

pub unpack-pack :
    (f : Format) (vs : List Value) {bs : Bytes}
    → pack f vs ≡ some bs
    → unpack f bs ≡ some (stored_all f vs)
unfolding unpack
unpack-pack f vs {bs} h =
    rw (length-pack f vs h, nat_beq_refl)
      (ap some (rw append-nil at (unpack_fields-pack f vs [] h)))

signed_back : (p u : ℕ) → u < p → p - (p - u - 1 + 1) ≡ u
signed_back p u h = omega arith

pack_one-unpack_one :
    (c : Code) (bs : Bytes)
    → length bs ≡ code_size c
    → All (λ b. b < 256) bs
    → pack_one c (unpack_one c bs) ≡ some bs
unfolding pack_one unpack_one
pack_one-unpack_one (chars n) bs e h = ap some (rw (← e, take-append))
pack_one-unpack_one (unsigned w) bs e h =
    ground (arith, from_be-lt w bs e h, rw e at (to_be-from_be bs h))
pack_one-unpack_one (signed w) bs e h =
    ground
      (arith, from_be-lt w bs e h, rw e at (to_be-from_be bs h), signed_back (256 ^ w) (from_be bs))
pack_one-unpack_one double bs e h =
    ground (arith, from_be-lt 8 bs e h, rw e at (to_be-from_be bs h))

-- Any buffer of the format's size is what `pack` writes for the values that are read from it.
pub pack-unpack_fields :
    (f : Format) (bs : Bytes)
    → length bs ≡ calcsize f
    → All (λ b. b < 256) bs
    → pack f (unpack_fields f bs) ≡ some bs
unfolding pack unpack_fields calcsize
pack-unpack_fields [] [] e h = refl
pack-unpack_fields [] (b ∷ bs) e h = absurd (omega arith)
pack-unpack_fields (c ∷ cs) bs e h =
    let n = code_size c in
    let first =
      pack_one-unpack_one c (take n bs) (omega (arith, length-take n bs))
        (All-take (λ b. b < 256) n bs h) in
    let others =
      pack-unpack_fields cs (drop n bs) (omega (arith, length-drop n bs))
        (All-drop (λ b. b < 256) n bs h) in
    rw (first, others) (ap some (take-append-drop n bs))
