-- ===== src/Hyperion/Protocol.antt =====
-- hyperion_stream/core/protocol.py: message schemas, compiled to `struct` formats.
pub mod RoundTrip
use python_portfolio.Prelude.{
  ℕ, zero, suc, ◌+◌, ◌-◌, ◌*◌, ◌/◌, ◌%◌, ◌^◌, ◌≤◌, ◌<◌, ◌≡◌, refl, sym, ap, ◌∙◌, ◌≢◌, ◌↔◌, ◌⊎◌, inl,
  inr, Bool, true, false, not, ◌&&◌, ◌||◌, Option, none, some, List, [], ◌∷◌, ◌++◌, map,
  append_assoc, append-nil, arith, String, length, get_elem?, set, take, drop, replicate,
  length-append, length-take, length-drop, length-replicate, take-append, drop-append,
  take-append-drop, take_all, All, All-append, All-take, All-drop, take_add, take-nil, any, Result,
  ok, err, ◌>>=◌, ◌>>◌, guard, or_raise, and_then, bind-eq-ok, bind_assoc, ℤ, pos, negsuc, ◌+ℤ◌,
  ◌-ℤ◌, ◌*ℤ◌, int_beq, leb_ℤ, ltb, leb, if◌then◌else◌, nat_beq, nat_beq_iff, nat_beq_refl, ltb→lt,
  lt→ltb, le→ltb, leb→le, le→leb, Bool-cases, Eq, ◌==◌, nat_eq, bytes_eq, string_eq, beq_refl,
  beq_ne, Bytes, to_be, from_be, from_be-to_be, length-to_be, to_be-from_be, from_be-lt,
  bytes_beq_iff, get_elem?-append_left, get_elem?-append_at, get_elem?-append_right, get_elem?-lt,
  length-set,
}
use python_portfolio.Prelude.Dict
use python_portfolio.Prelude.Dict.{Dict}
use python_portfolio.Struct
use python_portfolio.Struct.{
  Code, chars, unsigned, signed, double, Value, raw, int, real, Format, calcsize,
}

-- The descriptor classes.
pub data Field : Type 0 where
  int8 uint8 int32 uint32 int64 float64 timestamp : Field
  fixed_string : ℕ → Field

unfoldable pub format_char : Field → Code
format_char int8 = signed 1
format_char uint8 = unsigned 1
format_char int32 = signed 4
format_char uint32 = unsigned 4
format_char int64 = signed 8
format_char float64 = double
format_char timestamp = double
format_char (fixed_string n) = chars n

-- An attribute of a class body that is a Field: its name, its `order` and its type.
pub record Descriptor : Type 0 where
  pub name : String
  pub order : ℕ
  pub field : Field

-- What `BinaryMeta.__new__` makes of a class body.
pub record MessageClass : Type 0 where
  pub class_name : String
  pub fields : List String
  pub struct : Format

-- list.sort by `order`, which keeps the order of equal keys
unfoldable pub insert_field : Descriptor → List Descriptor → List Descriptor
insert_field d [] = d ∷ []
insert_field d (e ∷ es) =
    let later = e ∷ insert_field d es in if leb d.order e.order then d ∷ (e ∷ es) else later

unfoldable pub sort_fields : List Descriptor → List Descriptor
unfolding insert_field
sort_fields [] = []
sort_fields (d ∷ ds) = insert_field d (sort_fields ds)

-- `for name in field_names: del namespace[name]` runs over the parameter `name`.
abbrev pub last_name : String → List String → String
last_name name [] = name
last_name name (n ∷ ns) = last_name n ns

unfoldable pub new_class : String → List Descriptor → MessageClass
unfolding sort_fields format_char
new_class name body =
    let fields = sort_fields body in
    let field_names = map (λ (d : Descriptor). d.name) fields in
    record {
      class_name = last_name name field_names;
      fields = field_names;
      struct = map (λ (d : Descriptor). format_char d.field) fields;
    }

abbrev pub descriptor : String → ℕ → Field → Descriptor
descriptor name order field = record { name = name; order = order; field = field }

abbrev pub log_entry_meta : MessageClass
log_entry_meta = new_class "LogEntryMeta" (
    descriptor "timestamp" 1 timestamp
    ∷ descriptor "seq_id" 2 int64
    ∷ descriptor "partition_id" 3 int32
    ∷ descriptor "crc32" 4 uint32
    ∷ [])

abbrev pub command_header : MessageClass
command_header = new_class "CommandHeader" (
    descriptor "request_id" 1 int64
    ∷ descriptor "cmd_type" 2 uint8
    ∷ descriptor "flags" 3 uint8
    ∷ descriptor "ttl" 4 uint8
    ∷ [])

abbrev pub node_stats : MessageClass
node_stats = new_class "NodeStats" (
    descriptor "cpu_usage" 1 float64
    ∷ descriptor "mem_usage" 2 float64
    ∷ descriptor "uptime_sec" 3 uint32
    ∷ descriptor "wal_lag_bytes" 4 int64
    ∷ [])

-- The attributes of an instance, in the order of the fields.
abbrev pub Message : Type 0
Message = Dict String Value

abbrev pub or_zero : Option Value → Value
or_zero none = int (pos 0)
or_zero (some v) = v

-- __init__: an argument that is not given is 0.
unfoldable pub init : List String → Dict String Value → Message
init [] kwargs = []
init (name ∷ names) kwargs = (name, or_zero (Dict.get kwargs name)) ∷ init names kwargs

abbrev pub zip : List String → List Value → Dict String Value
zip [] vs = []
zip (n ∷ ns) [] = []
zip (n ∷ ns) (v ∷ vs) = (n, v) ∷ zip ns vs

pub data ProtocolError : Type 0 where
  size_mismatch struct_error : ProtocolError

-- BinaryMessage.pack; `none` is struct.error
unfoldable pub pack : MessageClass → Message → Option Bytes
pack cls m = Struct.pack cls.struct (map (λ name. or_zero (Dict.get m name)) cls.fields)

-- BinaryMessage.unpack
unfoldable pub unpack : MessageClass → Bytes → Result ProtocolError Message
unfolding init
unpack cls buffer =
    if not (length buffer == calcsize cls.struct)
    then err size_mismatch
    else or_raise (Struct.unpack cls.struct buffer) struct_error >>= λ unpacked.
        ok (init cls.fields (zip cls.fields unpacked))

-- b'HPRS'
abbrev pub magic : Bytes
magic = 72 ∷ 80 ∷ 82 ∷ 83 ∷ []

-- "!4sHBBI"
abbrev pub header_struct : Format
header_struct = chars 4 ∷ unsigned 2 ∷ unsigned 1 ∷ unsigned 1 ∷ unsigned 4 ∷ []

abbrev pub header_size : ℕ
header_size = 12

abbrev pub max_packet_size : ℕ
max_packet_size = 32 * 1024 * 1024
