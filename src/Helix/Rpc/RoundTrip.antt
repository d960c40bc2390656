-- ===== src/Helix/Rpc/RoundTrip.antt =====
-- helix_consensus/helix/rpc.py: `Packet.pack` and `Packet.unpack`, one after the other.
use python_portfolio.Prelude.{
  ℕ, ◌+◌, ◌^◌, ◌≤◌, ◌<◌, ◌≡◌, refl, ap, ◌≢◌, ◌↔◌, false, none, some, List, [], ◌∷◌, ◌++◌,
  append_assoc, arith, length, take, drop, length-append, length-take, length-drop, take-append,
  drop-append, All, All-take, take_add, pos, ltb, le→ltb, nat_eq, bytes_eq, string_eq, Bytes,
  from_be, bytes_beq_iff,
}
use python_portfolio.Struct.{raw, int, real, calcsize, Value}
use python_portfolio.Struct
use python_portfolio.Struct.RoundTrip.{
  length-pack, unpack-pack as unpack_values, pack-unpack_fields,
}
use python_portfolio.Helix.Rpc.{
  MessageType, vote_req, vote_resp, append_req, append_resp, value, message_type, Packet,
  header_fmt, magic, header_values, pack, from_header, unpack,
}

message_type-value : (t : MessageType) → message_type (value t) ≡ some t
unfolding message_type value
message_type-value vote_req = refl
message_type-value vote_resp = refl
message_type-value append_req = refl
message_type-value append_resp = refl

value-message_type : (n : ℕ) (t : MessageType) → message_type n ≡ some t → value t ≡ n
unfolding message_type value
value-message_type n t h = ground arith

pack-parts :
    (p : Packet) {bytes : Bytes}
    → pack p ≡ some bytes
    → (header : Bytes) × (Struct.pack header_fmt (header_values p) ≡ some header)
      × (bytes ≡ header ++ p.payload)
unfolding pack
pack-parts p h = ground arith

from_header-values :
    (p : Packet) (header rest : Bytes)
    → length header ≡ 19
    → from_header (header ++ (p.payload ++ rest)) (header_values p) ≡ some p
unfolding from_header
from_header-values p header rest e =
    let long : ltb (length (header ++ (p.payload ++ rest))) (19 + length p.payload) ≡ false =
      le→ltb _ _
        (omega (arith, length-append header (p.payload ++ rest), length-append p.payload rest)) in
    rw (long, message_type-value p.msg_type, ← e, drop-append, take-append)

-- A packet that `pack` could write is read back from its bytes, whatever bytes follow them in the
-- datagram.
pub unpack-pack :
    (p : Packet) (rest : Bytes) {bytes : Bytes}
    → pack p ≡ some bytes
    → unpack (bytes ++ rest) ≡ some p
unfolding unpack calcsize
unpack-pack p rest h =
    let (header, packed, e) = pack-parts p h in
    let size = length-pack header_fmt (header_values p) packed in
    let long : ltb (length (header ++ (p.payload ++ rest))) 19 ≡ false =
      le→ltb _ _ (omega (arith, length-append header (p.payload ++ rest))) in
    let cut : take 19 (header ++ (p.payload ++ rest)) ≡ header =
      rw size at (take-append header (p.payload ++ rest)) in
    rw (e, append_assoc, long, cut, unpack_values header_fmt (header_values p) packed)
      (from_header-values p header rest size)

module _ (bytes : Bytes) (m : Bytes) (mtype term src len : ℕ) (p : Packet) where
  abbrev fields : List Value
  fields = raw m ∷ int (pos mtype) ∷ int (pos term) ∷ int (pos src) ∷ int (pos len) ∷ []

  from_header_fields :
      from_header bytes fields ≡ some p
      → (m ≡ magic)
        × (value p.msg_type ≡ mtype)
        × (p.term ≡ term)
        × (p.src_id ≡ src)
        × (p.payload ≡ take len (drop 19 bytes))
        × (19 + len ≤ length bytes)
  unfolding from_header
  from_header_fields h = ground (arith, bytes_beq_iff m magic, value-message_type mtype p.msg_type)

  from_header_values :
      from_header bytes fields ≡ some p
      → (header_values p ≡ fields) × (p.payload ≡ take (length p.payload) (drop 19 bytes))
  from_header_values h =
      let (hm, ht, hterm, hsrc, hpay, hlen) = from_header_fields h in
      let size : length p.payload ≡ len =
        rw hpay (omega (arith, length-take len (drop 19 bytes), length-drop 19 bytes)) in
      (cc (hm, ht, hterm, hsrc, size), cc (hpay, size))

unpack_accepts :
    (bytes : Bytes) {p : Packet}
    → unpack bytes ≡ some p
    → (19 ≤ length bytes)
      × (from_header bytes (Struct.unpack_fields header_fmt (take 19 bytes)) ≡ some p)
unfolding unpack Struct.unpack
unpack_accepts bytes h = ground arith

-- Conversely, whatever datagram is accepted begins with what `pack` writes for the packet read.
pub pack-unpack :
    (bytes : Bytes) (p : Packet)
    → All (λ b. b < 256) bytes
    → unpack bytes ≡ some p
    → pack p ≡ some (take (19 + length p.payload) bytes)
unfolding pack Struct.unpack_fields calcsize
pack-unpack bytes p small h =
    let (long, accepted) = unpack_accepts bytes h in
    let header = take 19 bytes in
    let again =
      pack-unpack_fields header_fmt header (omega (arith, length-take 19 bytes))
        (All-take (λ b. b < 256) 19 bytes small) in
    let (same, payload) =
      from_header_values bytes (take 2 header) (from_be (take 1 (drop 2 header)))
        (from_be (take 8 (drop 1 (drop 2 header))))
        (from_be (take 4 (drop 8 (drop 1 (drop 2 header)))))
        (from_be (take 4 (drop 4 (drop 8 (drop 1 (drop 2 header)))))) p accepted in
    let whole : header ++ p.payload ≡ take (19 + length p.payload) bytes =
      rw take_add (ap (λ l. header ++ l) payload) in
    cc (ap (Struct.pack header_fmt) same, again, whole)

-- `pack` fails exactly when a number does not fit its field of the header.
pub pack_total :
    (p : Packet)
    → (pack p ≢ none) ↔ ((p.term < 2 ^ 64) × (p.src_id < 2 ^ 32) × (length p.payload < 2 ^ 32))
unfolding pack Struct.pack value
pack_total p = (λ h. ground arith, λ h. ground arith)
