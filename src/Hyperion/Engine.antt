-- ===== src/Hyperion/Engine.antt =====
-- hyperion_stream/storage/engine.py: the store, sharded by a checksum of the key, over the log.
--
-- A key is the text's UTF-8 bytes. `zlib.crc32` is an argument. A shard's lock is never contended,
-- since nothing is awaited while it is held, so that a write is one step of the event loop.
pub mod Reads
pub mod Log
pub mod Returns
use python_portfolio.Prelude.{
  ℕ, zero, suc, ◌+◌, ◌-◌, ◌*◌, ◌/◌, ◌%◌, ◌^◌, ◌≤◌, ◌<◌, ◌≡◌, refl, sym, ap, ◌∙◌, ◌≢◌, ◌↔◌, ◌⊎◌, inl,
  inr, Bool, true, false, not, ◌&&◌, ◌||◌, Option, none, some, List, [], ◌∷◌, ◌++◌, map,
  append_assoc, append-nil, arith, String, length, get_elem?, set, take, drop, replicate,
  length-append, length-take, length-drop, length-replicate, take-append, drop-append,
  take-append-drop, take_all, All, All-append, All-take, All-drop, take_add, take-nil, any, Result,
  ok, err, ◌>>=◌, ◌>>◌, guard, or_raise, and_then, bind-eq-ok, bind_assoc, ℤ, pos, negsuc, ◌+ℤ◌,
  ◌-ℤ◌, ◌*ℤ◌, int_beq, leb_ℤ, ltb, leb, if◌then◌else◌, nat_beq, nat_beq_iff, nat_beq_refl, ltb→lt,
  lt→ltb, le→ltb, leb→le, le→leb, Bool-cases, Eq, ◌==◌, nat_eq, bytes_eq, string_eq, beq_refl,
  beq_ne, Bytes, to_be, from_be, from_be-to_be, length-to_be, to_be-from_be, from_be-lt,
  bytes_beq_iff, get_elem?-append_left, get_elem?-append_at, get_elem?-append_right, get_elem?-lt,
  length-set,
}
use python_portfolio.Prelude.Dict
use python_portfolio.Prelude.Dict.{Dict}
use python_portfolio.Struct.{Value, real, int}
use python_portfolio.Hyperion.Protocol.{Message}
use python_portfolio.Hyperion.Protocol
use python_portfolio.Hyperion.Wal.{WalManager, WalError, write_entry, sync}
use python_portfolio.Hyperion.Wal

pub record EngineMetrics : Type 0 where
  pub ops_write : ℕ
  pub ops_read : ℕ
  pub bytes_written : ℕ

pub record Shard : Type 0 where
  pub items : Dict Bytes Bytes
  pub stats_keys_count : ℕ

pub record HyperionEngine : Type 0 where
  pub num_shards : ℕ
  pub shards : List Shard
  pub wal : WalManager
  pub sequence_id : ℕ
  pub metrics : EngineMetrics

abbrev pub empty_shard : Shard
empty_shard = record { items = []; stats_keys_count = 0 }

-- Shard.put
unfoldable pub shard_put : Bytes → Bytes → Shard → Shard
shard_put key value s = record {
  items = Dict.put s.items key value;
  stats_keys_count = if Dict.has s.items key then s.stats_keys_count else s.stats_keys_count + 1;
}

-- Shard.get
unfoldable pub shard_get : Bytes → Shard → Option Bytes
shard_get key s = Dict.get s.items key

-- HyperionEngine.__init__
unfoldable pub init : ℕ → WalManager → HyperionEngine
init num_shards wal = record {
  num_shards = num_shards;
  shards = replicate num_shards empty_shard;
  wal = wal;
  sequence_id = 0;
  metrics = record { ops_write = 0; ops_read = 0; bytes_written = 0 };
}

pub data EngineError : Type 0 where
  wal_error : WalError → EngineError
  zero_division : EngineError
  no_shard : EngineError

-- time.time() as the bits of its double, and the millisecond of a rotation
pub record Clock : Type 0 where
  pub time_bits : ℕ
  pub millis : ℕ

module _ (crc32 : Bytes → ℕ) where
  -- LogEntryMeta(timestamp=…, seq_id=…, partition_id=0, crc32=…)
  abbrev pub log_entry : Clock → ℕ → Bytes → Message
  log_entry c seq value = Protocol.init Protocol.log_entry_meta.fields (
      ("timestamp", real c.time_bits)
      ∷ ("seq_id", int (pos seq))
      ∷ ("partition_id", int (pos 0))
      ∷ ("crc32", int (pos (crc32 value)))
      ∷ [])

  -- _get_shard, as the index of the shard; Python's `%` raises for no shards
  unfoldable pub shard_index : Bytes → HyperionEngine → ℕ
  shard_index key e = crc32 key % e.num_shards

  -- The third part of `write`: memory and telemetry, once the log has the entry.
  unfoldable pub write_memory :
      Bytes → Bytes → HyperionEngine → Result EngineError ℕ × HyperionEngine
  unfolding shard_index shard_put
  write_memory key value e =
      if e.num_shards == 0
      then (err zero_division, e)
      else elim (get_elem? e.shards (shard_index key e)) [
        | none ↦ (err no_shard, e)
        | some s ↦ (
          ok e.sequence_id,
          record e {
            shards = set e.shards (shard_index key e) (shard_put key value s);
            metrics = record e.metrics {
              ops_write = e.metrics.ops_write + 1;
              bytes_written = e.metrics.bytes_written + length value;
            };
          },
        )
      ]

  abbrev pub after_log :
      Bytes
      → Bytes
      → HyperionEngine
      → Result WalError ℕ × WalManager
      → Result EngineError ℕ × HyperionEngine
  after_log key value e (ok offset, wal) = write_memory key value (record e { wal = wal })
  after_log key value e (err x, wal) = (err (wal_error x), record e { wal = wal })

  -- write
  unfoldable pub write :
      Clock → Bytes → Bytes → HyperionEngine → Result EngineError ℕ × HyperionEngine
  unfolding write_memory
  write c key value e =
      let seq = e.sequence_id + 1 in
      after_log key value (record e { sequence_id = seq })
        (write_entry c.millis (log_entry c seq value) value e.wal)

  -- read
  unfoldable pub read : Bytes → HyperionEngine → Result EngineError (Option Bytes) × HyperionEngine
  unfolding shard_index shard_get
  read key e =
      if e.num_shards == 0
      then (err zero_division, e)
      else elim (get_elem? e.shards (shard_index key e)) [
        | none ↦ (err no_shard, e)
        | some s ↦ (
          ok (shard_get key s),
          record e { metrics = record e.metrics { ops_read = e.metrics.ops_read + 1 } },
        )
      ]

-- stop: the last flush, the tasks being cancelled
unfoldable pub stop : HyperionEngine → HyperionEngine
stop e = record e { wal = sync e.wal }
