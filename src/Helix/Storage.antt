-- ===== src/Helix/Storage.antt =====
-- helix_consensus/helix/storage.py: the state file, written by "write, then rename".
pub mod Crash
use python_portfolio.Prelude.{
  ℕ, zero, suc, ◌+◌, ◌-◌, ◌*◌, ◌/◌, ◌%◌, ◌^◌, ◌≤◌, ◌<◌, ◌≡◌, refl, sym, ap, ◌∙◌, ◌≢◌, ◌↔◌, ◌⊎◌, inl,
  inr, Bool, true, false, not, ◌&&◌, ◌||◌, Option, none, some, List, [], ◌∷◌, ◌++◌, map,
  append_assoc, append-nil, arith, String, length, get_elem?, set, take, drop, replicate,
  length-append, length-take, length-drop, length-replicate, take-append, drop-append,
  take-append-drop, take_all, All, All-append, All-take, All-drop, take_add, any, Result, ok, err,
  ◌>>=◌, ◌>>◌, guard, or_raise, and_then, ℤ, pos, negsuc, ◌+ℤ◌, ◌-ℤ◌, ◌*ℤ◌, int_beq, ltb, leb,
  if◌then◌else◌, nat_beq, nat_beq_iff, nat_beq_refl, ltb→lt, lt→ltb, le→ltb, leb→le, le→leb,
  Bool-cases, Eq, ◌==◌, nat_eq, bytes_eq, string_eq, beq_refl, beq_ne, Bytes, to_be, from_be,
  from_be-to_be, length-to_be, to_be-from_be, from_be-lt, bytes_beq_iff, get_elem?-append_left,
  get_elem?-append_at, get_elem?-lt, length-set,
}

-- What a file holds: a JSON object with or without each key, or text that json.load refuses. A
-- `voted_for` of null reads like an absent one.
pub data Content : Type 0 where
  object : Option ℕ → Option ℕ → Content
  garbled : Content

-- The state file and the temporary file beside it; `none` is a path that does not exist.
pub record Disk : Type 0 where
  pub path : Option Content
  pub temp_path : Option Content

pub data FileOp : Type 0 where
  truncate : FileOp
  write_part : FileOp
  finish_write : Content → FileOp
  replace : FileOp

unfoldable pub file_op : Disk → FileOp → Disk
file_op d truncate = record d { temp_path = some garbled }
file_op d write_part = record d { temp_path = some garbled }
file_op d (finish_write c) = record d { temp_path = some c }
file_op d replace = record { path = d.temp_path; temp_path = none }

unfoldable pub file_ops : Disk → List FileOp → Disk
unfolding file_op
file_ops d [] = d
file_ops d (o ∷ os) = file_ops (file_op d o) os

-- open(temp_path, "w"), json.dump with flush and fsync, os.replace
abbrev pub save_ops : ℕ → Option ℕ → List FileOp
save_ops term voted_for =
    truncate ∷ write_part ∷ finish_write (object (some term) voted_for) ∷ replace ∷ []

unfoldable pub save_state : Disk → ℕ → Option ℕ → Disk
unfolding file_ops
save_state d term voted_for = file_ops d (save_ops term voted_for)

-- data.get("term", 0), data.get("voted_for")
abbrev pub read_content : Content → ℕ × Option ℕ
read_content (object (some term) voted_for) = (term, voted_for)
read_content (object none voted_for) = (0, voted_for)
read_content garbled = (0, none)

unfoldable pub load_state : Disk → ℕ × Option ℕ
load_state d = elim d.path [ none ↦ (0, none) | some c ↦ read_content c ]
