-- ===== src/Hyperion/Wal/Reads.antt =====
-- hyperion_stream/storage/wal.py: `append` and `read_at` on one segment.
use python_portfolio.Prelude.{
  ℕ, zero, ◌+◌, ◌≤◌, ◌<◌, ◌≡◌, ap, [], ◌++◌, arith, length, replicate, length-append, length-take,
  length-replicate, ok, err, nat_beq_refl, lt→ltb, le→ltb, nat_eq, bytes_eq, string_eq, Bytes,
}
use python_portfolio.Prelude.Dict
use python_portfolio.Prelude.Dict.{Dict, get-put}
use python_portfolio.Hyperion.Wal.{
  init, WalManager, segment_full, or_empty, mapped, ftruncate, sync, open_segment, rotate_segment,
  init, overwrite, append, read_at,
}
use python_portfolio.Hyperion.Wal.Slices.{length-overwrite, slice-overwrite, slice-overwrite_before}

-- The open segment's mapping has the segment's size, and the cursor lies in it.
pub record IsMapped (w : WalManager) : Type 0 where
  pub whole : length (mapped w w.current_segment.path) ≡ w.segment_size
  pub cursor : w.current_segment.write_cursor ≤ w.segment_size

pub mapped-put :
    (files : Dict ℕ Bytes) (path : ℕ) (bytes : Bytes)
    → or_empty (Dict.get (Dict.put files path bytes) path) ≡ bytes
mapped-put files path bytes = rw (get-put files path bytes path, nat_beq_refl path)

length-ftruncate : (size : ℕ) (old : Bytes) → length (ftruncate size old) ≡ size
length-ftruncate size old = omega (
  arith,
  length-take size (old ++ replicate size 0),
  length-append old (replicate size 0),
  length-replicate size zero,
)

pub open_segment-IsMapped : (now : ℕ) (w : WalManager) → IsMapped (open_segment now w)
unfolding open_segment
open_segment-IsMapped now w = record {
  whole = rw mapped-put (length-ftruncate w.segment_size (mapped w now));
  cursor = omega arith;
}

pub init-IsMapped : (size : ℕ) (files : Dict ℕ Bytes) (now : ℕ) → IsMapped (init size files now)
unfolding init
init-IsMapped size files now = open_segment-IsMapped now (record {
  segment_size = size;
  files = files;
  disk = files;
  current_segment = record { path = now; write_cursor = 0 };
  segments_history = [];
})

pub rotate_segment-IsMapped : (now : ℕ) (w : WalManager) → IsMapped (rotate_segment now w)
unfolding rotate_segment
rotate_segment-IsMapped now w = open_segment-IsMapped now (sync w)

abbrev pub Fits : Bytes → WalManager → Type 0
Fits packet w = w.current_segment.write_cursor + length packet ≤ w.segment_size

module _ (packet : Bytes) (w : WalManager) where
  abbrev pub appended : WalManager
  appended = record w {
    files =
        Dict.put w.files w.current_segment.path
          (overwrite (mapped w w.current_segment.path) w.current_segment.write_cursor packet);
    current_segment = record w.current_segment {
      write_cursor = w.current_segment.write_cursor + length packet;
    };
  }

  pub append-Fits : Fits packet w → append packet w ≡ (ok w.current_segment.write_cursor, appended)
  unfolding append
  append-Fits h = rw (le→ltb _ _ h)

  pub append_full :
      w.segment_size < w.current_segment.write_cursor + length packet
      → append packet w ≡ (err segment_full, w)
  unfolding append
  append_full h = rw (lt→ltb _ _ h)

  pub appended-IsMapped : Fits packet w → IsMapped w → IsMapped appended
  appended-IsMapped h v = record {
    whole = rw mapped-put (
        omega (
          arith,
          v.whole,
          length-overwrite (mapped w w.current_segment.path) w.current_segment.write_cursor packet
              (omega (arith, v.whole)),
        ));
    cursor = h;
  }

  pub read_at-appended :
      Fits packet w
      → IsMapped w
      → read_at w.current_segment.write_cursor (length packet) appended ≡ ok packet
  unfolding read_at
  read_at-appended h v =
      rw (le→ltb _ _ h, mapped-put)
        (ap ok (
          slice-overwrite (mapped w w.current_segment.path) w.current_segment.write_cursor packet
            (omega (arith, v.whole, v.cursor))))

  -- A block that ends at the cursor or before it.
  pub read_at-before :
      (offset size : ℕ)
      → offset + size ≤ w.current_segment.write_cursor
      → Fits packet w
      → IsMapped w
      → read_at offset size appended ≡ read_at offset size w
  unfolding read_at
  read_at-before offset size before h v =
      rw (le→ltb w.segment_size (offset + size) (omega (arith, v.cursor)), mapped-put)
        (ap ok (
          slice-overwrite_before (mapped w w.current_segment.path) w.current_segment.write_cursor
            packet offset size (omega (arith, v.whole, v.cursor)) before))
