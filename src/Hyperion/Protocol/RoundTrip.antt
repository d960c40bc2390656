-- ===== src/Hyperion/Protocol/RoundTrip.antt =====
-- hyperion_stream/core/protocol.py: `unpack` on what `pack` wrote, and the names of message classes.
use python_portfolio.Prelude.{
  suc, ◌≡◌, refl, ap, ◌∙◌, inl, inr, false, some, List, [], ◌∷◌, map, arith, String, length, All,
  ok, leb, nat_beq_refl, Bool-cases, ◌==◌, nat_eq, bytes_eq, string_eq, beq_refl, Bytes,
}
use python_portfolio.Prelude.Dict
use python_portfolio.Prelude.Dict.{Dict}
use python_portfolio.Struct.{Value, Format}
use python_portfolio.Struct.RoundTrip.{stored_all, length-pack, unpack-pack as unpack_values}
use python_portfolio.Hyperion.Protocol.{
  MessageClass, Message, or_zero, init, zip, pack, unpack, Descriptor, new_class, sort_fields,
  insert_field, last_name,
}

-- No name stands twice, as in the namespace of a class body.
abbrev pub Distinct : List String → Type 0
Distinct [] = Unit
Distinct (n ∷ ns) = All (λ k. (n == k) ≡ false) ns × Distinct ns

abbrev pub values : List String → Message → List Value
values names m = map (λ name. or_zero (Dict.get m name)) names

init-skip :
    (ns : List String) (k : String) (v : Value) (kwargs : Dict String Value)
    → All (λ n. (k == n) ≡ false) ns
    → init ns ((k, v) ∷ kwargs) ≡ init ns kwargs
unfolding init Dict.get
init-skip [] k v kwargs h = refl
init-skip (n ∷ ns) k v kwargs (h, hs) = rw (h, init-skip ns k v kwargs hs)

init-zip :
    (ns : List String) (vs : List Value)
    → Distinct ns
    → length ns ≡ length vs
    → init ns (zip ns vs) ≡ zip ns vs
init-zip [] vs d e = unfold init in refl
init-zip (n ∷ ns) [] d e = absurd (omega arith)
init-zip (n ∷ ns) (v ∷ vs) (fresh, d) e =
    rw one
      (ap (λ l. (n, v) ∷ l) (init-skip ns n v (zip ns vs) fresh ∙ init-zip ns vs d (omega arith)))
  where
    one : init (n ∷ ns) (zip (n ∷ ns) (v ∷ vs)) ≡ (n, v) ∷ init ns ((n, v) ∷ zip ns vs)
    one = unfold init Dict.get in rw (beq_refl n)

length-stored_all :
    (f : Format) (vs : List Value) → length f ≡ length vs → length (stored_all f vs) ≡ length f
length-stored_all [] vs e = refl
length-stored_all (c ∷ cs) [] e = absurd (omega arith)
length-stored_all (c ∷ cs) (v ∷ vs) e = ap suc (length-stored_all cs vs (omega arith))

length-values : (names : List String) (m : Message) → length (values names m) ≡ length names
length-values [] m = refl
length-values (n ∷ ns) m = ap suc (length-values ns m)

-- For a class with one format code for each of its distinct fields, `unpack` of what `pack` wrote
-- for a message gives every field its value in the message, a text cut or padded to its length.
pub unpack-pack_message :
    (cls : MessageClass) (m : Message) {bytes : Bytes}
    → Distinct cls.fields
    → length cls.fields ≡ length cls.struct
    → pack cls m ≡ some bytes
    → unpack cls bytes ≡ ok (zip cls.fields (stored_all cls.struct (values cls.fields m)))
unfolding pack unpack
unpack-pack_message cls m d e h =
    let vs = values cls.fields m in
    let e' : length cls.struct ≡ length vs = omega (arith, e, length-values cls.fields m) in
    rw (length-pack cls.struct vs h, nat_beq_refl, unpack_values cls.struct vs h)
      (ap ok (
        init-zip cls.fields (stored_all cls.struct vs) d
          (omega (arith, e, length-stored_all cls.struct vs e'))))

insert_field-names :
    (a b : String) (d : Descriptor) (es : List Descriptor)
    → last_name a (map (λ (d : Descriptor). d.name) (insert_field d es))
      ≡ last_name b (map (λ (d : Descriptor). d.name) (insert_field d es))
unfolding insert_field
insert_field-names a b d [] = refl
insert_field-names a b d (e ∷ es) = elim (Bool-cases (leb d.order e.order)) [
  | inl first ↦ rw first
  | inr later ↦ rw later
]

-- The name that a class with a field gets does not depend on the name that it is declared by:
-- `__new__` reuses the variable for its loop over the fields.
pub class_name_lost :
    (name other : String) (d : Descriptor) (ds : List Descriptor)
    → (new_class name (d ∷ ds)).class_name ≡ (new_class other (d ∷ ds)).class_name
unfolding new_class sort_fields
class_name_lost name other d ds = insert_field-names name other d (sort_fields ds)
