-- ===== src/Hyperion/Engine/Returns.antt =====
-- hyperion_stream/storage/engine.py: when a write returns.
use python_portfolio.Prelude.{
  ℕ, ◌+◌, ◌*◌, ◌^◌, ◌≤◌, ◌<◌, ◌≡◌, refl, sym, ap, ◌∙◌, some, [], ◌++◌, map, arith, length,
  length-append, ok, lt→ltb, nat_eq, bytes_eq, string_eq, Bytes, to_be, length-to_be,
}
use mathlib.Core.Path.{subst}
use python_portfolio.Prelude.Dict
use python_portfolio.Struct
use python_portfolio.Struct.{int, unsigned, calcsize}
use python_portfolio.Struct.RoundTrip.{length-pack}
use python_portfolio.Hyperion.Protocol
use python_portfolio.Hyperion.Protocol.{Message, log_entry_meta}
use python_portfolio.Hyperion.Wal.{WalManager, full_packet}
use python_portfolio.Hyperion.Wal.Reads.{IsMapped}
use python_portfolio.Hyperion.Wal.Entries.{target, write_entry_reads}
use python_portfolio.Hyperion.Engine.{HyperionEngine, Clock, log_entry, write, after_log}
use python_portfolio.Hyperion.Engine.Reads.{IsSharded, write_memory-remembered}

module _ (crc32 : Bytes → ℕ) where
  meta_packed :
      (c : Clock) (seq : ℕ) (value : Bytes)
      → c.time_bits < 2 ^ 64
      → seq < 2 ^ 63
      → crc32 value < 2 ^ 32
      → (meta : Bytes) × (Protocol.pack log_entry_meta (log_entry crc32 c seq value) ≡ some meta)
  unfolding Protocol.pack Struct.pack Protocol.init Dict.get Protocol.new_class
  meta_packed c seq value t s k = (
    to_be 8 c.time_bits ++ (to_be 8 seq ++ (to_be 4 0 ++ (to_be 4 (crc32 value) ++ []))),
    rw (
      lt→ltb c.time_bits (256 ^ 8) t,
      lt→ltb (2 * seq) (256 ^ 8) (omega (arith, s)),
      lt→ltb (crc32 value) (256 ^ 4) k,
    ),
  )

  meta_size :
      (meta : Bytes) (m : Message) → Protocol.pack log_entry_meta m ≡ some meta → length meta ≡ 24
  unfolding Protocol.pack calcsize Protocol.new_class
  meta_size meta m packed =
      length-pack log_entry_meta.struct
        (map (λ name. Protocol.or_zero (Dict.get m name)) log_entry_meta.fields) packed

  -- The metadata of an entry takes 24 bytes and the two lengths 8.
  block_packed :
      (c : Clock) (seq : ℕ) (value : Bytes)
      → c.time_bits < 2 ^ 64
      → seq < 2 ^ 63
      → crc32 value < 2 ^ 32
      → length value < 2 ^ 32
      → (packet : Bytes) × (full_packet (log_entry crc32 c seq value) value ≡ some packet)
        × (length packet ≡ 32 + length value)
  unfolding full_packet Struct.pack
  block_packed c seq value t s k small =
      let (meta, packed) = meta_packed c seq value t s k in
      let size = meta_size meta (log_entry crc32 c seq value) packed in
      let headers = to_be 4 (length meta) ++ (to_be 4 (length value) ++ []) in
      (
        headers ++ (meta ++ value),
        rw (
          packed,
          lt→ltb (length meta) (256 ^ 4) (omega (arith, size)),
          lt→ltb (length value) (256 ^ 4) small,
        ),
        omega (
          arith,
          size,
          length-append headers (meta ++ value),
          length-append meta value,
          length-append (to_be 4 (length meta)) (to_be 4 (length value) ++ []),
          length-append (to_be 4 (length value)) [],
          length-to_be 4 (length meta),
          length-to_be 4 (length value),
        ),
      )

  after_log_returns :
      (k v : Bytes) (e : HyperionEngine) (w : WalManager) (offset : ℕ)
      → IsSharded e
      → (e' : HyperionEngine) × (after_log crc32 k v e (ok offset, w) ≡ (ok e.sequence_id, e'))
        × (e'.wal ≡ w)
  after_log_returns k v e w offset h =
      let e₁ : HyperionEngine = record e { wal = w } in
      let (s, found, eq) =
        write_memory-remembered crc32 k v e₁
          (record { some_shard = h.some_shard; all_there = h.all_there; counted = h.counted }) in
      (_, eq, refl)

  -- A write returns the next sequence number, and the log is well formed as before, where the value
  -- with the 32 bytes around it fits a segment and the time, the sequence number, the checksum and
  -- the length fit their fields.
  pub write_returns :
      (c : Clock) (k v : Bytes) (e : HyperionEngine)
      → IsSharded e
      → IsMapped e.wal
      → c.time_bits < 2 ^ 64
      → e.sequence_id + 1 < 2 ^ 63
      → crc32 v < 2 ^ 32
      → length v < 2 ^ 32
      → 32 + length v ≤ e.wal.segment_size
      → ((write crc32 c k v e).0 ≡ ok (e.sequence_id + 1)) × IsMapped (write crc32 c k v e).1.wal
  unfolding write
  write_returns c k v e h m t s sum small fits =
      let seq = e.sequence_id + 1 in
      let (packet, packed, size) = block_packed c seq v t s sum small in
      let (w, logged, mapped, _, _, _) =
        write_entry_reads c.millis (log_entry crc32 c seq v) v packet 0 0 e.wal m packed
          (omega (arith, size, fits)) (omega arith) in
      let (e', done, same) =
        after_log_returns k v (record e { sequence_id = seq }) w
          (target c.millis packet e.wal).current_segment.write_cursor
          (record { some_shard = h.some_shard; all_there = h.all_there; counted = h.counted }) in
      let eq = ap (after_log crc32 k v (record e { sequence_id = seq })) logged ∙ done in
      (
        ap (λ out. out.0) eq,
        subst (λ out. IsMapped out.1.wal) (sym eq) (subst IsMapped (sym same) mapped),
      )
