-- ===== src/Helix/Rpc.antt =====
-- helix_consensus/helix/rpc.py: the binary packets of the consensus protocol.
pub mod RoundTrip
use python_portfolio.Prelude.{
  ℕ, zero, suc, ◌+◌, ◌-◌, ◌*◌, ◌/◌, ◌%◌, ◌^◌, ◌≤◌, ◌<◌, ◌≡◌, refl, sym, ap, ◌∙◌, ◌≢◌, ◌↔◌, ◌⊎◌, inl,
  inr, Bool, true, false, not, ◌&&◌, ◌||◌, Option, none, some, List, [], ◌∷◌, ◌++◌, map,
  append_assoc, append-nil, arith, String, length, get_elem?, set, take, drop, replicate,
  length-append, length-take, length-drop, length-replicate, take-append, drop-append,
  take-append-drop, take_all, All, All-append, any, Result, ok, err, ◌>>=◌, ◌>>◌, guard, or_raise,
  and_then, ℤ, pos, negsuc, ◌+ℤ◌, ◌-ℤ◌, ◌*ℤ◌, int_beq, ltb, leb, if◌then◌else◌, nat_beq,
  nat_beq_iff, nat_beq_refl, ltb→lt, lt→ltb, le→ltb, leb→le, le→leb, Bool-cases, Eq, ◌==◌, nat_eq,
  bytes_eq, string_eq, beq_refl, beq_ne, Bytes, to_be, from_be, from_be-to_be, length-to_be,
  to_be-from_be, get_elem?-append_left, get_elem?-append_at, get_elem?-lt, length-set,
}
use python_portfolio.Struct.{Code, chars, unsigned, Value, raw, int, real, Format, calcsize}
use python_portfolio.Struct

pub data MessageType : Type 0 where
  vote_req vote_resp append_req append_resp : MessageType

-- `.value` of the IntEnum
unfoldable pub value : MessageType → ℕ
value vote_req = 1
value vote_resp = 2
value append_req = 3
value append_resp = 4

-- `MessageType(n)`; `none` is the ValueError
unfoldable pub message_type : ℕ → Option MessageType
message_type n =
    if nat_beq n 1
    then some vote_req
    else if nat_beq n 2
    then some vote_resp
    else if nat_beq n 3
    then some append_req
    else if nat_beq n 4
    then some append_resp
    else none

pub record Packet : Type 0 where
  pub msg_type : MessageType
  pub term : ℕ
  pub src_id : ℕ
  pub payload : Bytes

-- "!2sBQI I"
abbrev pub header_fmt : Format
header_fmt = chars 2 ∷ unsigned 1 ∷ unsigned 8 ∷ unsigned 4 ∷ unsigned 4 ∷ []

-- b"HX"
abbrev pub magic : Bytes
magic = 72 ∷ 88 ∷ []

abbrev pub header_values : Packet → List Value
header_values p =
    raw magic
    ∷ int (pos (value p.msg_type))
    ∷ int (pos p.term)
    ∷ int (pos p.src_id)
    ∷ int (pos (length p.payload))
    ∷ []

-- `none` is struct.error, for a number that its field does not hold.
unfoldable pub pack : Packet → Option Bytes
pack p = and_then (Struct.pack header_fmt (header_values p)) (λ header. some (header ++ p.payload))

-- The body of `unpack` once the header has been read.
unfoldable pub from_header : Bytes → List Value → Option Packet
unfolding message_type
from_header bytes
      (raw m ∷ int (pos mtype) ∷ int (pos term) ∷ int (pos src_id) ∷ int (pos len) ∷ []) =
    if not (m == magic)
    then none
    else if ltb (length bytes) (19 + len)
    then none
    else and_then (message_type mtype) (λ t.
      some
        (record { msg_type = t; term = term; src_id = src_id; payload = take len (drop 19 bytes) }))
from_header bytes _ = none

unfoldable pub unpack : Bytes → Option Packet
unfolding from_header
unpack bytes =
    if ltb (length bytes) (calcsize header_fmt)
    then none
    else and_then (Struct.unpack header_fmt (take (calcsize header_fmt) bytes)) (from_header bytes)
