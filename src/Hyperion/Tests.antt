-- ===== src/Hyperion/Tests.antt =====
-- hyperion_stream at concrete messages and a log of small segments.
use python_portfolio.Prelude.{
  ℕ, ◌+◌, ◌*◌, ◌≡◌, refl, sym, ap, true, false, some, List, [], ◌∷◌, ◌++◌, arith, length, take,
  replicate, All, ok, err, pos, nat_eq, bytes_eq, string_eq, Bytes, to_be,
}
use python_portfolio.Prelude.Dict
use python_portfolio.Prelude.Dict.{Dict}
use python_portfolio.Struct
use python_portfolio.Struct.{Value, raw, int, real}
use python_portfolio.Struct.RoundTrip.{stored_all}
use python_portfolio.Hyperion.Protocol.{
  MessageClass, Message, command_header, node_stats, descriptor, int8, uint8, new_class, zip, pack,
  unpack,
}
use python_portfolio.Hyperion.Protocol.RoundTrip.{
  Distinct, values, unpack-pack_message, class_name_lost,
}
use python_portfolio.Hyperion.Wal.{
  WalManager, segment_full, init, full_packet, write_entry, read_at, rotate_segment, mapped,
  open_segment, append,
}
use python_portfolio.Hyperion.Wal.Reads.{IsMapped, init-IsMapped}
use python_portfolio.Hyperion.Wal.Entries.{
  target, write_entry_reads, write_entry_too_large, same_millisecond_overwrites,
}
use python_portfolio.Hyperion.Engine.{HyperionEngine, Clock, log_entry, wal_error, write, read}
use python_portfolio.Hyperion.Engine
use python_portfolio.Hyperion.Engine.Returns.{write_returns}
use python_portfolio.Hyperion.Protocol
use python_portfolio.Ouroboros.Text.{codes}
use python_portfolio.Hyperion.Text.{decimal, decodes}
use python_portfolio.Hyperion.Telemetry.{empty}
use python_portfolio.Hyperion.Server.{CommandError, End, Session, process_command, handle_client}
use python_portfolio.Hyperion.Server.Commands.{set_then_get}
use python_portfolio.Hyperion.Server.Loop.{handle_client_returns}
use python_portfolio.Hyperion.Engine.Log.{write_refused, log_forgets_key}
use python_portfolio.Hyperion.Server.Frames.{
  Request, IsRequest, frames, respond_all, handle_client-frames,
}
use mathlib.Core.Path.{subst}
use python_portfolio.Hyperion.Engine.Reads.{IsSharded, init-IsSharded, read-write}

abbrev small : WalManager
small = init 64 [] 1000

small-IsMapped : IsMapped small
small-IsMapped = init-IsMapped 64 [] 1000

abbrev command : Message
command =
    ("request_id", int (pos 5))
    ∷ ("cmd_type", int (pos 1))
    ∷ ("flags", int (pos 0))
    ∷ ("ttl", int (pos 9))
    ∷ []

command_packed : pack command_header command ≡ some (0 ∷ 0 ∷ 0 ∷ 0 ∷ 0 ∷ 0 ∷ 0 ∷ 5 ∷ 1 ∷ 0 ∷ 9 ∷ [])
unfolding pack Struct.pack to_be new_class Dict.get
command_packed = refl

command-Distinct : Distinct command_header.fields
unfolding new_class
command-Distinct = ((refl, (refl, (refl, tt))), ((refl, (refl, tt)), ((refl, tt), (tt, tt))))

command_sizes : length command_header.fields ≡ length command_header.struct
unfolding new_class
command_sizes = refl

unpack-pack_message_example :
    unpack command_header (0 ∷ 0 ∷ 0 ∷ 0 ∷ 0 ∷ 0 ∷ 0 ∷ 5 ∷ 1 ∷ 0 ∷ 9 ∷ [])
    ≡ ok (
        zip command_header.fields
          (stored_all command_header.struct (values command_header.fields command)))
unpack-pack_message_example =
    unpack-pack_message command_header command command-Distinct command_sizes command_packed

class_name_lost_example :
    (new_class "Small" (descriptor "x" 1 int8 ∷ [])).class_name
    ≡ (new_class "Other" (descriptor "x" 1 int8 ∷ [])).class_name
class_name_lost_example = class_name_lost "Small" "Other" (descriptor "x" 1 int8) []

abbrev crc : Bytes → ℕ
crc bs = length bs * 7

abbrev engine : HyperionEngine
engine = Engine.init 4 small

engine-IsSharded : IsSharded engine
engine-IsSharded = init-IsSharded 4 small (omega arith)

abbrev clock : Clock
clock = record { time_bits = 77; millis = 1001 }

abbrev meta : Message
meta = log_entry crc clock 1 (65 ∷ [])

abbrev zeros : ℕ → Bytes
zeros n = replicate n 0

-- Both lengths, 24 bytes of metadata, and the payload.
abbrev block : Bytes
block =
    0 ∷ 0 ∷ 0 ∷ 24 ∷ 0 ∷ 0 ∷ 0 ∷ 1 ∷ 0 ∷ 0 ∷ 0 ∷ 0 ∷ 0 ∷ 0 ∷ 0 ∷ 77 ∷ 0 ∷ 0 ∷ 0 ∷ 0 ∷ 0 ∷ 0 ∷ 0 ∷ 1
    ∷ 0 ∷ 0 ∷ 0 ∷ 0 ∷ 0 ∷ 0 ∷ 0 ∷ 7 ∷ 65 ∷ []

block_packed : full_packet meta (65 ∷ []) ≡ some block
unfolding full_packet pack Protocol.init new_class Dict.get Struct.pack to_be
block_packed = refl

write_entry_reads_example :
    let t = target 1001 block small in
    let offset = t.current_segment.write_cursor in
    (w' : WalManager) × (write_entry 1001 meta (65 ∷ []) small ≡ (ok offset, w'))
    × IsMapped w'
    × (w'.current_segment ≡ record { path = t.current_segment.path; write_cursor = offset + 33 })
    × (read_at offset 33 w' ≡ ok block)
    × (read_at 0 0 w' ≡ read_at 0 0 t)
unfolding init
write_entry_reads_example =
    write_entry_reads 1001 meta (65 ∷ []) block 0 0 small small-IsMapped block_packed (omega arith)
      (omega arith)

abbrev tiny : WalManager
tiny = init 32 [] 1000

tiny_size : tiny.segment_size ≡ 32
unfolding init open_segment
tiny_size = refl

write_entry_too_large_example :
    write_entry 1001 meta (65 ∷ []) tiny ≡ (err segment_full, rotate_segment 1001 tiny)
write_entry_too_large_example =
    write_entry_too_large 1001 meta (65 ∷ []) block tiny block_packed (omega (arith, tiny_size))

-- The log of 64 bytes after its first block.
abbrev half_full : WalManager
half_full = (write_entry 1000 meta (65 ∷ []) small).1

half_full_at : (half_full.segment_size ≡ 64) × (half_full.current_segment.write_cursor ≡ 33)
unfolding init open_segment write_entry append full_packet pack Protocol.init new_class Dict.get
    Struct.pack to_be
half_full_at = (refl, refl)

half_full-IsMapped : IsMapped half_full
unfolding init
half_full-IsMapped =
    let (w, e, v, _, _, _) =
      write_entry_reads 1000 meta (65 ∷ []) block 0 0 small small-IsMapped block_packed
        (omega arith) (omega arith) in
    subst (λ r. IsMapped r.1) (sym e) v

same_millisecond_overwrites_example :
    (w' : WalManager) × (write_entry half_full.current_segment.path meta (65 ∷ []) half_full
      ≡ (ok 0, w'))
    × (w'.current_segment.path ≡ half_full.current_segment.path)
    × (take 33 (mapped w' half_full.current_segment.path) ≡ block)
same_millisecond_overwrites_example =
    same_millisecond_overwrites meta (65 ∷ []) block half_full half_full-IsMapped block_packed
      (omega (arith, half_full_at)) (omega (arith, half_full_at))

first_write :
    ((write crc clock (107 ∷ []) (65 ∷ []) engine).0 ≡ ok 1)
    × IsMapped (write crc clock (107 ∷ []) (65 ∷ []) engine).1.wal
unfolding Engine.init init
first_write =
    write_returns crc clock (107 ∷ []) (65 ∷ []) engine engine-IsSharded small-IsMapped
      (omega arith) (omega arith) (omega arith) (omega arith) (omega arith)

write_returns_example :
    ((write crc clock (107 ∷ []) (65 ∷ []) engine).0 ≡ ok 1)
    × IsMapped (write crc clock (107 ∷ []) (65 ∷ []) engine).1.wal
unfolding Engine.init init
write_returns_example =
    write_returns crc clock (107 ∷ []) (65 ∷ []) engine engine-IsSharded small-IsMapped
      (omega arith) (omega arith) (omega arith) (omega arith) (omega arith)

read-write_example :
    (1 ≡ engine.sequence_id + 1)
    × IsSharded (write crc clock (107 ∷ []) (65 ∷ []) engine).1
    × ((read crc (107 ∷ []) (write crc clock (107 ∷ []) (65 ∷ []) engine).1).0
        ≡ ok (some (65 ∷ [])))
read-write_example =
    read-write crc clock (107 ∷ []) (65 ∷ []) (107 ∷ []) engine engine-IsSharded first_write.0

abbrev tiny_engine : HyperionEngine
tiny_engine = Engine.init 4 tiny

refused : (write_entry 1001 meta (65 ∷ []) tiny_engine.wal).0 ≡ err segment_full
unfolding Engine.init
refused =
    ap (λ r. r.0)
      (write_entry_too_large 1001 meta (65 ∷ []) block tiny block_packed (omega (arith, tiny_size)))

write_refused_example :
    ((write crc clock (107 ∷ []) (65 ∷ []) tiny_engine).0 ≡ err (wal_error segment_full))
    × ((write crc clock (107 ∷ []) (65 ∷ []) tiny_engine).1.sequence_id
        ≡ tiny_engine.sequence_id + 1)
    × ((read crc (108 ∷ []) (write crc clock (107 ∷ []) (65 ∷ []) tiny_engine).1).0
        ≡ (read crc (108 ∷ []) tiny_engine).0)
unfolding Engine.init
write_refused_example = write_refused crc clock (107 ∷ []) (65 ∷ []) (108 ∷ []) tiny_engine refused

log_forgets_key_example :
    (write crc clock (107 ∷ []) (65 ∷ []) engine).1.wal
    ≡ (write crc clock (108 ∷ []) (65 ∷ []) engine).1.wal
log_forgets_key_example = log_forgets_key crc clock (107 ∷ []) (108 ∷ []) (65 ∷ []) engine

abbrev texts : CommandError → Bytes
texts x = codes "error"

abbrev no_report : HyperionEngine → Bytes
no_report e = []

key_decodes : decodes (107 ∷ []) ≡ true
unfolding decodes
key_decodes = refl

-- The first byte of "é" alone, an overlong "/" and a surrogate are refused.
decodes_refuses :
    (decodes (0xc3 ∷ []) ≡ false)
    × (decodes (0xc0 ∷ 0xaf ∷ []) ≡ false)
    × (decodes (0xed ∷ 0xa0 ∷ 0x80 ∷ []) ≡ false)
    × (decodes (0xc3 ∷ 0xa9 ∷ []) ≡ true)
unfolding decodes
decodes_refuses = (refl, refl, refl, refl)

set_then_get_example :
    let (reply, e') = process_command crc texts no_report clock 1 (107 ∷ b'|' ∷ 65 ∷ []) engine in
    (reply ≡ codes "OK_SET:" ++ decimal 1)
    × ((process_command crc texts no_report clock 2 (107 ∷ []) e').0 ≡ 65 ∷ [])
set_then_get_example =
    set_then_get crc texts no_report clock clock (107 ∷ []) (65 ∷ []) engine engine-IsSharded
      (refl, tt) key_decodes first_write.0

abbrev session : Session
session = record { engine = engine; telemetry = empty; written = []; request_count = 0 }

abbrev requests : List Request
requests =
    record { msg_type = 1; flags = 0; reserved = 0; payload = 107 ∷ b'|' ∷ 65 ∷ [] }
    ∷ record { msg_type = 2; flags = 0; reserved = 0; payload = 107 ∷ [] }
    ∷ []

requests-IsRequest : All IsRequest requests
requests-IsRequest = (
  record {
    type_fits = omega arith;
    flags_fit = omega arith;
    reserved_fits = omega arith;
    accepted = omega arith;
  },
  (
    record {
      type_fits = omega arith;
      flags_fit = omega arith;
      reserved_fits = omega arith;
      accepted = omega arith;
    },
    tt,
  ),
)

handle_client-frames_example :
    handle_client crc texts no_report 3 (λ n. clock) (frames requests ++ 72 ∷ []) session
    ≡ some (respond_all crc texts no_report (λ n. clock) requests session)
handle_client-frames_example =
    handle_client-frames crc texts no_report (λ n. clock) requests (72 ∷ []) 3 session
      requests-IsRequest (omega arith) (omega arith)

handle_client_returns_example :
    (r : End × Session) × (handle_client crc texts no_report 14
        (λ n. clock)
        (replicate 13 0)
        session
      ≡ some r)
handle_client_returns_example =
    handle_client_returns crc texts no_report (λ n. clock) 14 (replicate 13 0) session (omega arith)
