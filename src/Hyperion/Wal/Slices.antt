-- ===== src/Hyperion/Wal/Slices.antt =====
-- Slice assignment into a mapping, as hyperion_stream/storage/wal.py uses it.
use python_portfolio.Prelude.{
  ℕ, zero, suc, ◌+◌, ◌≤◌, ◌≡◌, refl, sym, ap, ◌∙◌, List, [], ◌∷◌, ◌++◌, arith, length, take, drop,
  length-append, length-take, length-drop, take-append, drop-append, take-append-drop, nat_eq,
  bytes_eq, string_eq, Bytes,
}
use python_portfolio.Hyperion.Wal.{overwrite}

pub slice-append_left :
    {A : Type 0} (xs ys : List A) (o s : ℕ)
    → o + s ≤ length xs
    → take s (drop o (xs ++ ys)) ≡ take s (drop o xs)
slice-append_left xs ys o zero h = refl
slice-append_left [] ys o (suc s) h = absurd (omega arith)
slice-append_left (x ∷ xs) ys zero (suc s) h =
    ap (λ l. x ∷ l) (slice-append_left xs ys zero s (omega arith))
slice-append_left (x ∷ xs) ys (suc o) (suc s) h = slice-append_left xs ys o (suc s) (omega arith)

module _ (old : Bytes) (cursor : ℕ) (packet : Bytes) where
  at_cursor : cursor ≤ length old → length (take cursor old) ≡ cursor
  at_cursor h = omega (arith, length-take cursor old)

  pub length-overwrite :
      cursor + length packet ≤ length old → length (overwrite old cursor packet) ≡ length old
  length-overwrite h = omega (
    arith,
    length-append (take cursor old) (packet ++ drop (cursor + length packet) old),
    length-append packet (drop (cursor + length packet) old),
    length-drop (cursor + length packet) old,
    at_cursor (omega arith),
  )

  -- What was written is read back.
  pub slice-overwrite :
      cursor ≤ length old
      → take (length packet) (drop cursor (overwrite old cursor packet)) ≡ packet
  slice-overwrite h =
      let cut : drop cursor (overwrite old cursor packet)
          ≡ packet ++ drop (cursor + length packet) old =
        rw (at_cursor h) at
          (drop-append (take cursor old) (packet ++ drop (cursor + length packet) old)) in
      rw (cut, take-append)

  -- What lies before the place of the write stays.
  pub slice-overwrite_before :
      (o s : ℕ)
      → cursor ≤ length old
      → o + s ≤ cursor
      → take s (drop o (overwrite old cursor packet)) ≡ take s (drop o old)
  slice-overwrite_before o s h before =
      let inside : o + s ≤ length (take cursor old) = omega (arith, at_cursor h) in
      slice-append_left (take cursor old) (packet ++ drop (cursor + length packet) old) o s inside
      ∙ sym (whole inside)
    where
      whole :
          o + s ≤ length (take cursor old) → take s (drop o old) ≡ take s (drop o (take cursor old))
      whole inside =
          rw take-append-drop at (slice-append_left (take cursor old) (drop cursor old) o s inside)
