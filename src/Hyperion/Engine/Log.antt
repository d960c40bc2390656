-- ===== src/Hyperion/Engine/Log.antt =====
-- hyperion_stream/storage/engine.py: a write that the log refuses, and what the log keeps of a write.
use python_portfolio.Prelude.{
  ℕ, ◌+◌, ◌≡◌, refl, arith, Result, ok, err, nat_eq, bytes_eq, string_eq, Bytes,
}
use python_portfolio.Hyperion.Wal.{WalManager, WalError, write_entry}
use python_portfolio.Hyperion.Engine.{
  HyperionEngine, Clock, wal_error, write_memory, after_log, write, read, log_entry,
}
use python_portfolio.Hyperion.Engine.Reads.{read_ignores}

module _ (crc32 : Bytes → ℕ) where
  -- Where the log refuses the entry, the write raises, no read finds anything new, and the sequence
  -- number is used up all the same.
  pub write_refused :
      (c : Clock) (k v j : Bytes) (e : HyperionEngine) {x : WalError}
      → (write_entry c.millis (log_entry crc32 c (e.sequence_id + 1) v) v e.wal).0 ≡ err x
      → ((write crc32 c k v e).0 ≡ err (wal_error x))
        × ((write crc32 c k v e).1.sequence_id ≡ e.sequence_id + 1)
        × ((read crc32 j (write crc32 c k v e).1).0 ≡ (read crc32 j e).0)
  unfolding write
  write_refused c k v j e {x} refused =
      refusal (write_entry c.millis (log_entry crc32 c (e.sequence_id + 1) v) v e.wal) refused
    where
      refusal :
          (r : Result WalError ℕ × WalManager)
          → r.0 ≡ err x
          → let out = after_log crc32 k v (record e { sequence_id = e.sequence_id + 1 }) r in
            (out.0 ≡ err (wal_error x))
            × (out.1.sequence_id ≡ e.sequence_id + 1)
            × ((read crc32 j out.1).0 ≡ (read crc32 j e).0)
      refusal (ok offset, w) q = cc
      refusal (err y, w) q = (cc, refl, read_ignores crc32 j e (e.sequence_id + 1) w)

  after_log-wal :
      (k k' v : Bytes) (e : HyperionEngine) (r : Result WalError ℕ × WalManager)
      → (after_log crc32 k v e r).1.wal ≡ (after_log crc32 k' v e r).1.wal
  unfolding write_memory
  after_log-wal k k' v e (err x, w) = refl
  after_log-wal k k' v e (ok offset, w) = ground arith

  -- The log holds nothing of the key: two writes of one value under any two keys leave the same log,
  -- so that no replay of it can tell under which key the value was stored.
  pub log_forgets_key :
      (c : Clock) (k k' v : Bytes) (e : HyperionEngine)
      → (write crc32 c k v e).1.wal ≡ (write crc32 c k' v e).1.wal
  unfolding write
  log_forgets_key c k k' v e =
      after_log-wal k k' v (record e { sequence_id = e.sequence_id + 1 })
        (write_entry c.millis (log_entry crc32 c (e.sequence_id + 1) v) v e.wal)
