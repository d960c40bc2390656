-- ===== src/Ouroboros/Text.antt =====
-- The `str` methods that ouroboros_vm uses, on ASCII texts given by their code points.
use Prim.Native.Char.{code}
use mathlib.Core.List.{reverse}
use python_portfolio.Prelude.{
  ℕ, ◌+◌, ◌-◌, ◌*◌, Bool, true, false, ◌&&◌, ◌||◌, List, [], ◌∷◌, ◌++◌, map, String, leb,
  if◌then◌else◌, ◌==◌, nat_eq, bytes_eq, string_eq,
}

abbrev pub Text : Type 0
Text = List ℕ

-- A literal's code points.
abbrev pub codes : String → Text
codes String.[] = []
codes (String.◌∷◌ c s) = code c ∷ codes s

unfoldable pub is_space : ℕ → Bool
is_space c = (leb 9 c && leb c 13) || (leb 28 c && leb c 32)

-- The separators of `splitlines`.
unfoldable pub is_break : ℕ → Bool
is_break c = (leb 10 c && leb c 13) || (leb 28 c && leb c 30)

unfoldable pub is_digit : ℕ → Bool
is_digit c = leb b'0' c && leb c b'9'

unfoldable pub upper_char : ℕ → ℕ
upper_char c = if leb b'a' c && leb c b'z' then c - 32 else c

-- s.upper()
unfoldable pub upper : Text → Text
unfolding upper_char
upper s = map upper_char s

-- `cr` says that the line before was ended by "\r", whose "\n" ends no further line.
unfoldable pub split_lines_from : Bool → Text → Text → List Text
unfolding is_break
split_lines_from cr cur [] = if cur == [] then [] else cur ∷ []
split_lines_from cr cur (c ∷ s) =
    let skipped = split_lines_from false cur s in
    let ended = cur ∷ split_lines_from (c == 13) [] s in
    let longer = split_lines_from false (cur ++ (c ∷ [])) s in
    if cr && c == 10 then skipped else if is_break c then ended else longer

-- s.splitlines()
unfoldable pub split_lines : Text → List Text
unfolding split_lines_from
split_lines s = split_lines_from false [] s

abbrev pub add_word : Text → List Text → List Text
add_word [] ws = ws
add_word (c ∷ cur) ws = (c ∷ cur) ∷ ws

unfoldable pub split_from : Text → Text → List Text
unfolding is_space
split_from cur [] = add_word cur []
split_from cur (c ∷ s) =
    let ended = add_word cur (split_from [] s) in
    let longer = split_from (cur ++ (c ∷ [])) s in if is_space c then ended else longer

-- s.split()
unfoldable pub split : Text → List Text
unfolding split_from
split s = split_from [] s

-- s.split('#')[0]
unfoldable pub before_hash : Text → Text
before_hash [] = []
before_hash (c ∷ s) = let rest = before_hash s in if c == b'#' then [] else c ∷ rest

unfoldable pub lstrip : Text → Text
unfolding is_space
lstrip [] = []
lstrip (c ∷ s) = let rest = lstrip s in if is_space c then rest else c ∷ s

-- s.strip()
unfoldable pub strip : Text → Text
unfolding lstrip
strip s = reverse (lstrip (reverse (lstrip s)))

abbrev pub all_digits : Text → Bool
all_digits [] = true
all_digits (c ∷ s) = is_digit c && all_digits s

-- s.isdigit(), which the empty text is not
unfoldable pub isdigit : Text → Bool
unfolding is_digit
isdigit [] = false
isdigit (c ∷ s) = all_digits (c ∷ s)

-- int(s) of a text of digits
unfoldable pub to_int : ℕ → Text → ℕ
to_int n [] = n
to_int n (c ∷ s) = to_int (n * 10 + (c - b'0')) s

-- s[-1:] and s[:-1]
unfoldable pub last_is : Text → ℕ → Bool
last_is [] k = false
last_is (c ∷ []) k = c == k
last_is (c ∷ d ∷ s) k = last_is (d ∷ s) k

unfoldable pub drop_last : Text → Text
drop_last [] = []
drop_last (c ∷ []) = []
drop_last (c ∷ d ∷ s) = c ∷ drop_last (d ∷ s)
