-- ===== src/Hyperion/Wal/Entries.antt =====
-- hyperion_stream/storage/wal.py: `write_entry` on every path, rotation included.
use python_portfolio.Prelude.{
  ℕ, ◌+◌, ◌≤◌, ◌<◌, ◌≡◌, refl, ap, ◌∙◌, inl, inr, some, arith, length, take, take-append, ok, err,
  ltb, if◌then◌else◌, ltb→lt, lt→ltb, Bool-cases, nat_eq, bytes_eq, string_eq, Bytes,
}
use python_portfolio.Hyperion.Protocol.{Message}
use python_portfolio.Hyperion.Wal.{
  overwrite, WalManager, segment_full, mapped, sync, open_segment, rotate_segment, append, read_at,
  full_packet, retry, write_packet, write_entry,
}
use python_portfolio.Hyperion.Wal.Reads.{
  IsMapped, mapped-put, rotate_segment-IsMapped, Fits, appended, append-Fits, append_full,
  appended-IsMapped, read_at-appended, read_at-before,
}

module _ (now : ℕ) (packet : Bytes) (w : WalManager) where
  -- Where the block goes: behind the cursor, or at the start of a new segment.
  abbrev pub target : WalManager
  target =
      if ltb w.segment_size (w.current_segment.write_cursor + length packet)
      then rotate_segment now w
      else w

  target-IsMapped : IsMapped w → IsMapped target
  target-IsMapped v =
      elim (Bool-cases (ltb w.segment_size (w.current_segment.write_cursor + length packet))) [
        | inl full ↦ rw full (rotate_segment-IsMapped now w)
        | inr room ↦ rw room v
      ]

  target-Fits : length packet ≤ w.segment_size → Fits packet target
  unfolding rotate_segment sync open_segment
  target-Fits h =
      elim (Bool-cases (ltb w.segment_size (w.current_segment.write_cursor + length packet))) [
        | inl full ↦ rw full (omega arith)
        | inr room ↦ rw room (ground arith)
      ]

  retry-target : retry now packet (append packet w) ≡ append packet target
  retry-target =
      elim (Bool-cases (ltb w.segment_size (w.current_segment.write_cursor + length packet))) [
        | inl full ↦ rw (full, append_full packet w (ltb→lt _ _ full))
        | inr room ↦ rw (room, append-Fits packet w (ground arith))
      ]

  write_entry-target :
      (meta : Message) (payload : Bytes)
      → full_packet meta payload ≡ some packet
      → write_entry now meta payload w ≡ append packet target
  unfolding write_entry
  write_entry-target meta payload p = ap (λ o. write_packet now o w) p ∙ retry-target

-- In a log whose open segment is mapped whole, with the cursor in it, an entry that can be packed, to a
-- block no larger than a segment, is always written: to the open segment if it has room and otherwise to
-- a new one. It is read back whole at the offset returned, which is where the cursor of that segment was;
-- the cursor is then right behind the block, so that the next block goes there; and any block that ends
-- at the old cursor or before reads as it did. The log is as well formed as before.
pub write_entry_reads :
    (now : ℕ) (meta : Message) (payload packet : Bytes) (before size : ℕ) (w : WalManager)
    → IsMapped w
    → full_packet meta payload ≡ some packet
    → length packet ≤ w.segment_size
    → before + size ≤ (target now packet w).current_segment.write_cursor
    → let t = target now packet w in
      let offset = t.current_segment.write_cursor in
      (w' : WalManager) × (write_entry now meta payload w ≡ (ok offset, w'))
      × IsMapped w'
      × (w'.current_segment
          ≡ record { path = t.current_segment.path; write_cursor = offset + length packet })
      × (read_at offset (length packet) w' ≡ ok packet)
      × (read_at before size w' ≡ read_at before size t)
write_entry_reads now meta payload packet before size w v p small earlier =
    let t = target now packet w in
    let room = target-Fits now packet w small in
    let tv = target-IsMapped now packet w v in
    (
      appended packet t,
      write_entry-target now packet w meta payload p ∙ append-Fits packet t room,
      appended-IsMapped packet t room tv,
      refl,
      read_at-appended packet t room tv,
      read_at-before packet t before size earlier room tv,
    )

-- An entry whose block is larger than a segment is refused, and leaves a new segment open.
pub write_entry_too_large :
    (now : ℕ) (meta : Message) (payload packet : Bytes) (w : WalManager)
    → full_packet meta payload ≡ some packet
    → w.segment_size < length packet
    → write_entry now meta payload w ≡ (err segment_full, rotate_segment now w)
unfolding rotate_segment sync open_segment
write_entry_too_large now meta payload packet w p large =
    write_entry-target now packet w meta payload p
    ∙ rw (lt→ltb w.segment_size (w.current_segment.write_cursor + length packet) (omega arith))
        (append_full packet (rotate_segment now w) (omega arith))

-- A rotation in the millisecond that names the open segment opens the same file again, with the
-- cursor at 0: the entry is written over the first entries of that file.
pub same_millisecond_overwrites :
    (meta : Message) (payload packet : Bytes) (w : WalManager)
    → IsMapped w
    → full_packet meta payload ≡ some packet
    → length packet ≤ w.segment_size
    → w.segment_size < w.current_segment.write_cursor + length packet
    → (w' : WalManager) × (write_entry w.current_segment.path meta payload w ≡ (ok 0, w'))
      × (w'.current_segment.path ≡ w.current_segment.path)
      × (take (length packet) (mapped w' w.current_segment.path) ≡ packet)
unfolding rotate_segment sync open_segment
same_millisecond_overwrites meta payload packet w v p small full =
    let now = w.current_segment.path in
    let t = rotate_segment now w in
    let tv = rotate_segment-IsMapped now w in
    (
      appended packet t,
      write_entry-target now packet w meta payload p
          ∙ rw (lt→ltb w.segment_size (w.current_segment.write_cursor + length packet) full)
              (append-Fits packet t (omega arith)),
      refl,
      rw (mapped-put t.files now (overwrite (mapped t now) 0 packet), take-append),
    )
