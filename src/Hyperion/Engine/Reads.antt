-- ===== src/Hyperion/Engine/Reads.antt =====
-- hyperion_stream/storage/engine.py: what a read finds after a write, and what the log holds of it.
use python_portfolio.Prelude.{
  ℕ, zero, suc, ◌+◌, ◌<◌, ◌≡◌, refl, sym, ap, ◌∙◌, inl, inr, some, List, [], ◌∷◌, arith, length,
  get_elem?, set, replicate, length-replicate, All, Result, ok, err, if◌then◌else◌, Bool-cases,
  ◌==◌, nat_eq, bytes_eq, string_eq, Bytes, bytes_beq_iff, length-set, get_elem?-total,
  get_elem?-set_self, get_elem?-set_ne,
}
use mathlib.Core.Path.{subst}
use native.Mathlib.Decide.{ℕ_discrete}
use mathlib.Core.Option.{some-injective}
use mathlib.Core.Path.{subst}
use native.Mathlib.Decide.{ℕ_discrete}
use mathlib.Core.Option.{some-injective}
use python_portfolio.Prelude.Dict
use python_portfolio.Prelude.Dict.{Dict, get-put, length-put}
use python_portfolio.Hyperion.Wal.{WalManager, WalError, write_entry}
use python_portfolio.Hyperion.Engine.{
  Shard, HyperionEngine, EngineError, Clock, shard_put, shard_get, shard_index, write_memory,
  after_log, write, read, log_entry, init, empty_shard,
}

abbrev pub IsCounted : Shard → Type 0
IsCounted s = s.stats_keys_count ≡ length s.items

-- There is a shard, there are as many as the engine thinks, and each counts its keys rightly.
pub record IsSharded (e : HyperionEngine) : Type 0 where
  pub some_shard : 0 < e.num_shards
  pub all_there : length e.shards ≡ e.num_shards
  pub counted : All IsCounted e.shards

All-set :
    {A : Type 0} (P : A → Type 0) (xs : List A) (i : ℕ) (v : A)
    → All P xs
    → P v
    → All P (set xs i v)
All-set P [] i v h hv = tt
All-set P (x ∷ xs) zero v h hv = (hv, h.1)
All-set P (x ∷ xs) (suc i) v h hv = (h.0, All-set P xs i v h.1 hv)

All-get_elem? :
    {A : Type 0} (P : A → Type 0) (xs : List A) (i : ℕ) {a : A}
    → All P xs
    → get_elem? xs i ≡ some a
    → P a
All-get_elem? P [] i h e = ground arith
All-get_elem? P (x ∷ xs) zero h e = subst P (some-injective _ _ e) h.0
All-get_elem? P (x ∷ xs) (suc i) h e = All-get_elem? P xs i h.1 e

shard_put-IsCounted : (k v : Bytes) (s : Shard) → IsCounted s → IsCounted (shard_put k v s)
unfolding shard_put
shard_put-IsCounted k v s h = ground (arith, length-put s.items k v)

replicate-All : {A : Type 0} (P : A → Type 0) (n : ℕ) (a : A) → P a → All P (replicate n a)
replicate-All P zero a h = tt
replicate-All P (suc n) a h = (h, replicate-All P n a h)

pub init-IsSharded : (n : ℕ) (wal : WalManager) → 0 < n → IsSharded (init n wal)
unfolding init
init-IsSharded n wal h = record {
  some_shard = h;
  all_there = length-replicate n empty_shard;
  counted = replicate-All IsCounted n empty_shard refl;
}

module _ (crc32 : Bytes → ℕ) where
  index_in_range :
      (k : Bytes) (e : HyperionEngine) → IsSharded e → shard_index crc32 k e < length e.shards
  unfolding shard_index
  index_in_range k e h = omega (arith, h.all_there, h.some_shard)

  -- The engine once its memory has the value.
  abbrev pub remembered : Bytes → Bytes → Shard → HyperionEngine → HyperionEngine
  remembered k v s e = record e {
    shards = set e.shards (shard_index crc32 k e) (shard_put k v s);
    metrics = record e.metrics {
      ops_write = e.metrics.ops_write + 1;
      bytes_written = e.metrics.bytes_written + length v;
    };
  }

  pub write_memory-remembered :
      (k v : Bytes) (e : HyperionEngine)
      → IsSharded e
      → (s : Shard) × (get_elem? e.shards (shard_index crc32 k e) ≡ some s)
        × (write_memory crc32 k v e ≡ (ok e.sequence_id, remembered k v s e))
  unfolding write_memory
  write_memory-remembered k v e h =
      let (s, found) = get_elem?-total e.shards (shard_index crc32 k e) (index_in_range k e h) in
      (s, found, ground (arith, h.some_shard, found))

  read_shard :
      (k : Bytes) (e : HyperionEngine) {s : Shard}
      → IsSharded e
      → get_elem? e.shards (shard_index crc32 k e) ≡ some s
      → (read crc32 k e).0 ≡ ok (Dict.get s.items k)
  unfolding read shard_get
  read_shard k e h found = ground (arith, h.some_shard, found)

  remembered-IsSharded :
      (k v : Bytes) (e : HyperionEngine) {s : Shard}
      → IsSharded e
      → get_elem? e.shards (shard_index crc32 k e) ≡ some s
      → IsSharded (remembered k v s e)
  remembered-IsSharded k v e {s} h found = record {
    some_shard = h.some_shard;
    all_there =
        omega (arith, length-set e.shards (shard_index crc32 k e) (shard_put k v s), h.all_there);
    counted = All-set IsCounted e.shards (shard_index crc32 k e) (shard_put k v s) h.counted (
        shard_put-IsCounted k v s
          (All-get_elem? IsCounted e.shards (shard_index crc32 k e) h.counted found));
  }

  -- The shard of `j` once the value of `k` is stored.
  shard_after :
      (k v j : Bytes) (e : HyperionEngine) {s t : Shard}
      → IsSharded e
      → get_elem? e.shards (shard_index crc32 k e) ≡ some s
      → get_elem? e.shards (shard_index crc32 j e) ≡ some t
      → (u : Shard) × (get_elem? (remembered k v s e).shards (shard_index crc32 j e) ≡ some u)
        × (Dict.get u.items j ≡ (if k == j then some v else Dict.get t.items j))
  unfolding shard_put
  shard_after k v j e {s} {t} h found other =
      elim (ℕ_discrete (shard_index crc32 k e) (shard_index crc32 j e)) [
        | yes same ↦ (
          shard_put k v s,
          ap (get_elem? (remembered k v s e).shards) (sym same)
              ∙ get_elem?-set_self e.shards (shard_index crc32 k e) (shard_put k v s)
                  (index_in_range k e h),
          get-put s.items k v j
              ∙ ap (λ (x : Shard). if k == j then some v else Dict.get x.items j)
                  (some-injective _ _ (sym found ∙ ap (get_elem? e.shards) same ∙ other)),
        )
        | no apart ↦ (
          t,
          get_elem?-set_ne e.shards (shard_index crc32 k e) (shard_index crc32 j e)
                (shard_put k v s) apart
              ∙ other,
          elim (Bool-cases (k == j)) [
            | inl eq ↦ absurd (apart (ap (λ x. shard_index crc32 x e) ((bytes_beq_iff k j).0 eq)))
            | inr ne ↦ rw ne
          ],
        )
      ]

  read-remembered :
      (k v j : Bytes) (e : HyperionEngine) (s : Shard)
      → IsSharded e
      → get_elem? e.shards (shard_index crc32 k e) ≡ some s
      → (read crc32 j (remembered k v s e)).0 ≡ (if k == j then ok (some v) else (read crc32 j e).0)
  unfolding shard_index
  read-remembered k v j e s h found =
      let (t, other) = get_elem?-total e.shards (shard_index crc32 j e) (index_in_range j e h) in
      let (u, at_j, value) = shard_after k v j e h found other in
      read_shard j (remembered k v s e) (remembered-IsSharded k v e h found) at_j
      ∙ rw (value, read_shard j e h other) (ground arith)

  pub read_ignores :
      (j : Bytes) (e : HyperionEngine) (n : ℕ) (w : WalManager)
      → (read crc32 j (record e { sequence_id = n; wal = w })).0 ≡ (read crc32 j e).0
  unfolding read
  read_ignores j e n w = ground arith

  -- What a write promises, of its result and of the engine before.
  abbrev Written :
      Bytes → Bytes → Bytes → HyperionEngine → ℕ → Result EngineError ℕ × HyperionEngine → Type 0
  Written k v j e seq (r, e') =
      (seq ≡ e.sequence_id + 1)
      × IsSharded e'
      × ((read crc32 j e').0 ≡ (if k == j then ok (some v) else (read crc32 j e).0))

  after_log-Written :
      (k v j : Bytes) (e : HyperionEngine) (r : Result WalError ℕ × WalManager) {seq : ℕ}
      → IsSharded e
      → let out = after_log crc32 k v (record e { sequence_id = e.sequence_id + 1 }) r in
        out.0 ≡ ok seq → Written k v j e seq out
  after_log-Written k v j e (err x, w) h done = cc
  after_log-Written k v j e (ok offset, w) {seq} h done =
      let e₁ : HyperionEngine = record e { sequence_id = e.sequence_id + 1; wal = w } in
      let h₁ : IsSharded e₁ = record {
        some_shard = h.some_shard;
        all_there = h.all_there;
        counted = h.counted;
      } in
      let (s, found, eq) = write_memory-remembered k v e₁ h₁ in
      subst (λ out. out.0 ≡ ok seq → Written k v j e seq out) (sym eq)
        (λ d. (
          ground arith,
          remembered-IsSharded k v e₁ h₁ found,
          read-remembered k v j e₁ s h₁ found
              ∙ ap (λ r. if k == j then ok (some v) else r)
                  (read_ignores j e (e.sequence_id + 1) w),
        ))
        done

  -- A write that returned took the next sequence number, and a read of its key finds the value; the
  -- read of any other key finds what it found before.
  pub read-write :
      (c : Clock) (k v j : Bytes) (e : HyperionEngine) {seq : ℕ}
      → IsSharded e
      → (write crc32 c k v e).0 ≡ ok seq
      → (seq ≡ e.sequence_id + 1)
        × IsSharded (write crc32 c k v e).1
        × ((read crc32 j (write crc32 c k v e).1).0
            ≡ (if k == j then ok (some v) else (read crc32 j e).0))
  unfolding write
  read-write c k v j e h done =
      after_log-Written k v j e
        (write_entry c.millis (log_entry crc32 c (e.sequence_id + 1) v) v e.wal) h done
