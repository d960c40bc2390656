-- ===== src/Helix/Storage/Crash.antt =====
-- helix_consensus/helix/storage.py: a crash in the middle of `save_state`.
use python_portfolio.Prelude.{
  ℕ, zero, suc, ◌≡◌, refl, Option, arith, take, take-nil, ltb, if◌then◌else◌, le→ltb, nat_eq,
  bytes_eq, string_eq,
}
use python_portfolio.Helix.Storage.{Disk, file_ops, save_ops, save_state, load_state}

-- What was saved is what is loaded.
pub load_state-save_state :
    (d : Disk) (term : ℕ) (voted_for : Option ℕ)
    → load_state (save_state d term voted_for) ≡ (term, voted_for)
unfolding load_state save_state
load_state-save_state d term voted_for = refl

-- The disk after a crash that let only the first `k` file operations of `save_state` happen.
abbrev pub crash_in_save : ℕ → Disk → ℕ → Option ℕ → Disk
crash_in_save k d term voted_for = file_ops d (take k (save_ops term voted_for))

-- Wherever `save_state` is cut off, `load_state` finds the state before the call or the whole new
-- state; it finds the new one exactly if the rename happened.
pub save_state_atomic :
    (k : ℕ) (d : Disk) (term : ℕ) (voted_for : Option ℕ)
    → load_state (crash_in_save k d term voted_for)
      ≡ (if ltb k 4 then load_state d else (term, voted_for))
unfolding load_state file_ops
save_state_atomic zero d term voted_for = refl
save_state_atomic (suc zero) d term voted_for = refl
save_state_atomic (suc (suc zero)) d term voted_for = refl
save_state_atomic (suc (suc (suc zero))) d term voted_for = refl
save_state_atomic (suc (suc (suc (suc k)))) d term voted_for =
    rw (le→ltb (suc (suc (suc (suc k)))) 4 (omega arith), take-nil k)
