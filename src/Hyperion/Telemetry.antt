-- ===== src/Hyperion/Telemetry.antt =====
-- hyperion_stream/utils/telemetry.py: counters and gauges, under a name with its labels. A count is
-- a whole number here, as all that the server adds are.
use python_portfolio.Prelude.{
  ℕ, ◌+◌, ◌≡◌, ap, inl, inr, Option, none, some, List, [], ◌∷◌, ◌++◌, if◌then◌else◌, Bool-cases,
  ◌==◌, nat_eq, bytes_eq, string_eq, Bytes, bytes_beq_iff,
}
use python_portfolio.Prelude.Dict
use python_portfolio.Prelude.Dict.{Dict, get-put}
use python_portfolio.Ouroboros.Text.{codes}

pub record PrometheusExporter : Type 0 where
  pub counters : Dict Bytes ℕ
  pub gauges : Dict Bytes ℕ

abbrev pub empty : PrometheusExporter
empty = record { counters = []; gauges = [] }

-- k="v"
abbrev pub label : Bytes × Bytes → Bytes
label (k, v) = k ++ (codes "=\"" ++ (v ++ codes "\""))

-- ",".join
abbrev pub join_labels : List (Bytes × Bytes) → Bytes
join_labels [] = []
join_labels (l ∷ []) = label l
join_labels (l ∷ m ∷ ls) = label l ++ (44 ∷ join_labels (m ∷ ls))

-- _format_key
unfoldable pub format_key : Bytes → List (Bytes × Bytes) → Bytes
format_key name [] = name
format_key name (l ∷ ls) = name ++ (codes "{" ++ (join_labels (l ∷ ls) ++ codes "}"))

abbrev pub or_zero : Option ℕ → ℕ
or_zero none = 0
or_zero (some n) = n

unfoldable pub inc_counter :
    Bytes → ℕ → List (Bytes × Bytes) → PrometheusExporter → PrometheusExporter
unfolding format_key
inc_counter name amount labels m =
    let key = format_key name labels in
    record m { counters = Dict.put m.counters key (or_zero (Dict.get m.counters key) + amount) }

unfoldable pub set_gauge :
    Bytes → ℕ → List (Bytes × Bytes) → PrometheusExporter → PrometheusExporter
unfolding format_key
set_gauge name value labels m = record m {
  gauges = Dict.put m.gauges (format_key name labels) value;
}

-- The value of a counter.
abbrev pub counter : PrometheusExporter → Bytes → ℕ
counter m key = or_zero (Dict.get m.counters key)

pub counter-inc_counter :
    (name : Bytes) (amount : ℕ) (labels : List (Bytes × Bytes)) (m : PrometheusExporter)
    (key : Bytes)
    → counter (inc_counter name amount labels m) key
      ≡ (if format_key name labels == key then counter m key + amount else counter m key)
unfolding inc_counter
counter-inc_counter name amount labels m key =
    let k = format_key name labels in
    elim (Bool-cases (k == key)) [
      | inl same ↦
          rw (get-put m.counters k (counter m k + amount) key, same)
            (ap (λ x. counter m x + amount) ((bytes_beq_iff k key).0 same))
      | inr other ↦ rw (get-put m.counters k (counter m k + amount) key, other)
    ]
