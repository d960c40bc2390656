-- ===== src/Ouroboros/Compiler.antt =====
-- ouroboros_vm/ouroboros/compiler.py: source text to bytecode, constants and names.
pub mod Tables
pub mod Correct
pub mod Jumps
pub mod Layout
use python_portfolio.Prelude.{
  ℕ, zero, suc, ◌+◌, ◌-◌, ◌*◌, ◌/◌, ◌%◌, ◌^◌, ◌≤◌, ◌<◌, ◌≡◌, refl, sym, ap, ◌∙◌, ◌≢◌, ◌↔◌, ◌⊎◌, inl,
  inr, Bool, true, false, not, ◌&&◌, ◌||◌, Option, none, some, List, [], ◌∷◌, ◌++◌, map,
  append_assoc, append-nil, arith, String, length, get_elem?, set, take, drop, replicate,
  length-append, length-take, length-drop, length-replicate, take-append, drop-append,
  take-append-drop, take_all, All, All-append, All-take, All-drop, take_add, take-nil, any, Result,
  ok, err, ◌>>=◌, ◌>>◌, guard, or_raise, and_then, ℤ, pos, negsuc, ◌+ℤ◌, ◌-ℤ◌, ◌*ℤ◌, int_beq, ltb,
  leb, if◌then◌else◌, nat_beq, nat_beq_iff, nat_beq_refl, ltb→lt, lt→ltb, le→ltb, leb→le, le→leb,
  Bool-cases, Eq, ◌==◌, nat_eq, bytes_eq, string_eq, beq_refl, beq_ne, Bytes, to_be, from_be,
  from_be-to_be, length-to_be, to_be-from_be, from_be-lt, bytes_beq_iff, get_elem?-append_left,
  get_elem?-append_at, get_elem?-lt, length-set,
}
use python_portfolio.Prelude.Dict
use python_portfolio.Prelude.Dict.{Dict}
use python_portfolio.Ouroboros.Text.{
  Text, codes, split_lines, split, before_hash, strip, isdigit, to_int, last_is, drop_last, upper,
}
use python_portfolio.Ouroboros.Opcodes.{OpCode, load_const, load_name, store_name, byte, by_name}

-- What a PUSH can name.
pub data Const : Type 0 where
  number : ℕ → Const
  text : Text → Const

abbrev pub const_beq : Const → Const → Bool
const_beq (number a) (number b) = a == b
const_beq (text a) (text b) = a == b
const_beq _ _ = false

pub record CodeObject : Type 0 where
  pub co_code : Bytes
  pub co_consts : List Const
  pub co_names : List Text

pub data TokenType : Type 0 where
  identifier number_token string_token symbol : TokenType

abbrev pub Token : Type 0
Token = TokenType × Text

pub record Compiler : Type 0 where
  pub code : Bytes
  pub consts : List Const
  pub names : List Text
  pub labels : Dict Text ℕ
  pub jumps_to_fix : List (ℕ × Text)
  -- the lines that `_generate` prints for unknown instructions
  pub unknown : List Text

pub data CompileError : Type 0 where
  index_error attribute_error : CompileError
  undefined_label : Text → CompileError

abbrev pub empty : Compiler
empty = record { code = []; consts = []; names = []; labels = []; jumps_to_fix = []; unknown = [] }

abbrev pub starts_with_quote : Text → Bool
starts_with_quote [] = false
starts_with_quote (c ∷ s) = c == b'"'

-- part[1:-1]
abbrev pub inner : Text → Text
inner [] = []
inner (c ∷ s) = drop_last s

unfoldable pub tokenize_part : Text → List Token
unfolding last_is drop_last isdigit
tokenize_part part =
    if last_is part b':'
    then (identifier, drop_last part) ∷ (symbol, codes ":") ∷ []
    else if isdigit part
    then (number_token, part) ∷ []
    else if starts_with_quote part
    then (string_token, inner part) ∷ []
    else (identifier, part) ∷ []

unfoldable pub tokenize_parts : List Text → List Token
unfolding tokenize_part
tokenize_parts [] = []
tokenize_parts (p ∷ ps) = tokenize_part p ++ tokenize_parts ps

unfoldable pub tokenize_lines : List Text → List Token
unfolding tokenize_parts split before_hash strip
tokenize_lines [] = []
tokenize_lines (l ∷ ls) =
    let rest = tokenize_lines ls in
    if strip l == [] then rest else tokenize_parts (split (strip (before_hash l))) ++ rest

-- _tokenize
unfoldable pub tokenize : Text → List Token
unfolding tokenize_lines split_lines
tokenize source = tokenize_lines (split_lines source)

unfoldable pub emit : ℕ → Compiler → Compiler
emit b c = record c { code = c.code ++ (b ∷ []) }

-- The 16 low bits of an argument, big endian.
abbrev pub arg_bytes : ℕ → Bytes
arg_bytes arg = (arg / 256 % 256) ∷ (arg % 256) ∷ []

unfoldable pub emit_arg : ℕ → Compiler → Compiler
emit_arg arg c = record c { code = c.code ++ arg_bytes arg }

module _ {A : Type 0} (same : A → A → Bool) where
  -- xs.index(a), and `none` where `a in xs` is false
  unfoldable pub index_of : List A → A → Option ℕ
  index_of [] a = none
  index_of (x ∷ xs) a =
      let rest = and_then (index_of xs a) (λ i. some (suc i)) in if same x a then some 0 else rest

  -- The list and the index of `a` in it, which is added at the end if it is new.
  unfoldable pub add_to : List A → A → List A × ℕ
  unfolding index_of
  add_to xs a = elim (index_of xs a) [ some i ↦ (xs, i) | none ↦ (xs ++ (a ∷ []), length xs) ]

-- _add_const and the argument that is emitted for it
unfoldable pub emit_const : Const → Compiler → Compiler
unfolding add_to emit_arg
emit_const k c =
    let (consts, idx) = add_to const_beq c.consts k in emit_arg idx (record c { consts = consts })

-- _add_name
unfoldable pub emit_name : Text → Compiler → Compiler
unfolding add_to emit_arg
emit_name name c =
    let (names, idx) = add_to ◌==◌ c.names name in emit_arg idx (record c { names = names })

abbrev pub constant : Token → Const
constant (number_token, val) = number (to_int 0 val)
constant (_, val) = text val

abbrev pub Step : Type 0
Step = Result CompileError (Compiler × Bool)

-- tokens[i+1] is read, and both tokens are consumed.
abbrev pub with_arg : Option Token → (Token → Compiler) → Step
with_arg next f = or_raise next index_error >>= λ arg. ok (f arg, true)

-- The branch of `_generate` for a jump, with its placeholder.
unfoldable pub emit_jump : OpCode → Token → Compiler → Compiler
unfolding emit emit_arg
emit_jump op arg c =
    let c' = emit (byte op) c in
    emit_arg 0xffff (record c' { jumps_to_fix = c'.jumps_to_fix ++ ((length c'.code, arg.1) ∷ []) })

abbrev pub with_jump : Text → Option Token → Compiler → Step
with_jump name next c =
    or_raise (by_name name) attribute_error >>= λ op. with_arg next (λ arg. emit_jump op arg c)

-- An instruction with no entry in OpCode: PUSH, STORE, LOAD, a jump, or none. The flag says that
-- the next token is consumed too.
unfoldable pub mnemonic : Text → Option Token → Compiler → Step
unfolding emit emit_const emit_name emit_jump
mnemonic name next c =
    if name == codes "PUSH"
    then with_arg next (λ arg. emit_const (constant arg) (emit (byte load_const) c))
    else if name == codes "STORE"
    then with_arg next (λ arg. emit_name arg.1 (emit (byte store_name) c))
    else if name == codes "LOAD"
    then with_arg next (λ arg. emit_name arg.1 (emit (byte load_name) c))
    else if name == codes "JMP_IF_FALSE" || name == codes "JMP"
    then with_jump name next c
    else ok (record c { unknown = c.unknown ++ (name ∷ []) }, false)

abbrev pub is_colon : Option Token → Bool
is_colon none = false
is_colon (some t) = t.1 == codes ":"

abbrev pub instruction : Text → Option Token → Compiler → Step
instruction name next c = elim (by_name name) [
  | some op ↦ ok (emit (byte op) c, false)
  | none ↦ mnemonic name next c
]

-- One round of the loop of `_generate`, at a token with the token behind it.
unfoldable pub generate_one : Token → Option Token → Compiler → Step
unfolding mnemonic emit upper by_name
generate_one (typ, val) next c =
    if is_colon next
    then ok (record c { labels = Dict.put c.labels val (length c.code) }, true)
    else elim typ [ identifier ↦ instruction (upper val) next c | _ ↦ ok (c, false) ]

-- _generate
unfoldable pub generate : List Token → Compiler → Result CompileError Compiler
unfolding generate_one
generate [] c = ok c
generate (t ∷ []) c = generate_one t none c >>= λ r. ok r.0
generate (t ∷ u ∷ ts) c = generate_one t (some u) c >>= λ r. elim r.1 [
  | true ↦ generate ts r.0
  | false ↦ generate (u ∷ ts) r.0
]

-- _fix_jumps
unfoldable pub fix_jumps : List (ℕ × Text) → Compiler → Result CompileError Compiler
fix_jumps [] c = ok c
fix_jumps ((offset, label) ∷ jumps) c =
    or_raise (Dict.get c.labels label) (undefined_label label) >>= λ addr.
    fix_jumps jumps
      (record c { code = set (set c.code offset (addr / 256 % 256)) (offset + 1) (addr % 256) })

abbrev pub code_object : Compiler → CodeObject
code_object c = record { co_code = c.code; co_consts = c.consts; co_names = c.names }

unfoldable pub compile_tokens : List Token → Compiler → Result CompileError CodeObject
unfolding generate fix_jumps
compile_tokens tokens c = do
  c' ← generate tokens c
  c'' ← fix_jumps c'.jumps_to_fix c'
  ok (code_object c'')

unfoldable pub compile : Text → Result CompileError CodeObject
unfolding tokenize compile_tokens
compile source = compile_tokens (tokenize source) empty
