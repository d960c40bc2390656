-- ===== src/Hyperion/Wal.antt =====
-- hyperion_stream/storage/wal.py: an append-only log in memory-mapped segments.
--
-- A path is the millisecond in its name. `files` is what a read through a mapping or a file shows;
-- `disk` is what an msync has put there. The class constant SEGMENT_SIZE is an argument, so that a
-- test can take a small one; the program's is `default_segment_size`.
pub mod Slices
pub mod Reads
pub mod Entries
use python_portfolio.Prelude.{
  ℕ, zero, suc, ◌+◌, ◌-◌, ◌*◌, ◌/◌, ◌%◌, ◌^◌, ◌≤◌, ◌<◌, ◌≡◌, refl, sym, ap, ◌∙◌, ◌≢◌, ◌↔◌, ◌⊎◌, inl,
  inr, Bool, true, false, not, ◌&&◌, ◌||◌, Option, none, some, List, [], ◌∷◌, ◌++◌, map,
  append_assoc, append-nil, arith, String, length, get_elem?, set, take, drop, replicate,
  length-append, length-take, length-drop, length-replicate, take-append, drop-append,
  take-append-drop, take_all, All, All-append, All-take, All-drop, take_add, take-nil, any, Result,
  ok, err, ◌>>=◌, ◌>>◌, guard, or_raise, and_then, bind-eq-ok, bind_assoc, ℤ, pos, negsuc, ◌+ℤ◌,
  ◌-ℤ◌, ◌*ℤ◌, int_beq, leb_ℤ, ltb, leb, if◌then◌else◌, nat_beq, nat_beq_iff, nat_beq_refl, ltb→lt,
  lt→ltb, le→ltb, leb→le, le→leb, Bool-cases, Eq, ◌==◌, nat_eq, bytes_eq, string_eq, beq_refl,
  beq_ne, Bytes, to_be, from_be, from_be-to_be, length-to_be, to_be-from_be, from_be-lt,
  bytes_beq_iff, get_elem?-append_left, get_elem?-append_at, get_elem?-append_right, get_elem?-lt,
  length-set,
}
use python_portfolio.Prelude.Dict
use python_portfolio.Prelude.Dict.{Dict}
use python_portfolio.Struct
use python_portfolio.Struct.{unsigned, int}
use python_portfolio.Hyperion.Protocol
use python_portfolio.Hyperion.Protocol.{Message, log_entry_meta}

abbrev pub default_segment_size : ℕ
default_segment_size = 64 * 1024 * 1024

pub record WalSegment : Type 0 where
  pub path : ℕ
  pub write_cursor : ℕ

pub record WalManager : Type 0 where
  pub segment_size : ℕ
  pub files : Dict ℕ Bytes
  pub disk : Dict ℕ Bytes
  pub current_segment : WalSegment
  pub segments_history : List ℕ

pub data WalError : Type 0 where
  segment_full : WalError
  struct_error : WalError
  beyond_boundary : WalError

abbrev pub or_empty : Option Bytes → Bytes
or_empty none = []
or_empty (some bs) = bs

-- The mapping of a segment's file.
abbrev pub mapped : WalManager → ℕ → Bytes
mapped w path = or_empty (Dict.get w.files path)

-- os.ftruncate to the segment's size: what is there is kept, and zeros are added.
abbrev pub ftruncate : ℕ → Bytes → Bytes
ftruncate size old = take size (old ++ replicate size 0)

-- mmap.flush
unfoldable pub sync : WalManager → WalManager
sync w = record w {
  disk = Dict.put w.disk w.current_segment.path (mapped w w.current_segment.path);
}

-- WalSegment(path, create=True) and its place in the manager
unfoldable pub open_segment : ℕ → WalManager → WalManager
open_segment now w = record w {
  files = Dict.put w.files now (ftruncate w.segment_size (mapped w now));
  current_segment = record { path = now; write_cursor = 0 };
  segments_history = w.segments_history ++ (now ∷ []);
}

-- _rotate_segment, where a segment is open: it is flushed and closed first
unfoldable pub rotate_segment : ℕ → WalManager → WalManager
unfolding sync open_segment
rotate_segment now w = open_segment now (sync w)

-- WalManager.__init__, over the files that are in the directory
unfoldable pub init : ℕ → Dict ℕ Bytes → ℕ → WalManager
unfolding open_segment
init segment_size files now = open_segment now (record {
  segment_size = segment_size;
  files = files;
  disk = files;
  current_segment = record { path = now; write_cursor = 0 };
  segments_history = [];
})

-- mapping[cursor : cursor + len(packet)] = packet
abbrev pub overwrite : Bytes → ℕ → Bytes → Bytes
overwrite old cursor packet = take cursor old ++ (packet ++ drop (cursor + length packet) old)

-- WalSegment.append on the open segment
unfoldable pub append : Bytes → WalManager → Result WalError ℕ × WalManager
append packet w =
    let seg = w.current_segment in
    if ltb w.segment_size (seg.write_cursor + length packet) then (err segment_full, w) else (
      ok seg.write_cursor,
      record w {
        files = Dict.put w.files seg.path (overwrite (mapped w seg.path) seg.write_cursor packet);
        current_segment = record seg { write_cursor = seg.write_cursor + length packet };
      },
    )

-- WalSegment.read_at on the open segment
unfoldable pub read_at : ℕ → ℕ → WalManager → Result WalError Bytes
read_at offset size w =
    if ltb w.segment_size (offset + size)
    then err beyond_boundary
    else ok (take size (drop offset (mapped w w.current_segment.path)))

abbrev pub join3 : Bytes → Bytes → Bytes → Bytes
join3 a b c = a ++ (b ++ c)

-- The block of an entry: both lengths, the metadata, the payload.
unfoldable pub full_packet : Message → Bytes → Option Bytes
full_packet entry_meta payload = and_then (Protocol.pack log_entry_meta entry_meta) (λ meta.
    and_then
      (Struct.pack (unsigned 4 ∷ unsigned 4 ∷ [])
        (int (pos (length meta)) ∷ int (pos (length payload)) ∷ []))
      (λ headers. some (join3 headers meta payload)))

-- `except WalSegmentFullError`: the one retry, in a new segment
abbrev pub retry : ℕ → Bytes → Result WalError ℕ × WalManager → Result WalError ℕ × WalManager
retry now packet (err segment_full, w) = append packet (rotate_segment now w)
retry now packet (r, w) = (r, w)

abbrev pub write_packet : ℕ → Option Bytes → WalManager → Result WalError ℕ × WalManager
write_packet now none w = (err struct_error, w)
write_packet now (some packet) w = retry now packet (append packet w)

-- write_entry; `now` is the millisecond at which a rotation would happen
unfoldable pub write_entry : ℕ → Message → Bytes → WalManager → Result WalError ℕ × WalManager
write_entry now entry_meta payload w = write_packet now (full_packet entry_meta payload) w

-- One round of flush_daemon, and the end of the engine.
unfoldable pub flush_round : WalManager → WalManager
unfolding sync
flush_round w = sync w
