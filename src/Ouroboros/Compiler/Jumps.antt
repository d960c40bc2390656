-- ===== src/Ouroboros/Compiler/Jumps.antt =====
-- ouroboros_vm/ouroboros/compiler.py: what `_generate` and `_fix_jumps` do for jumps and labels.
use python_portfolio.Prelude.{
  ◌≡◌, refl, ◌∙◌, inl, inr, Bool, false, Option, none, some, List, [], ◌∷◌, arith, Result, ok, err,
  ◌>>=◌, bind-eq-ok, Bool-cases, nat_eq, bytes_eq, string_eq,
}
use python_portfolio.Ouroboros.Text.{Text, upper}
use python_portfolio.Ouroboros.Opcodes.{OpCode, byte, by_name}
use python_portfolio.Ouroboros.Compiler.{
  Token, identifier, Compiler, CompileError, emit, mnemonic, instruction, is_colon, generate_one,
  generate, fix_jumps, compile_tokens, compile, tokenize, empty, code_object,
}

mnemonic-jumps :
    (name : Text) (next : Option Token) (c c' : Compiler) (b : Bool)
    → by_name name ≡ none
    → mnemonic name next c ≡ ok (c', b)
    → c'.jumps_to_fix ≡ c.jumps_to_fix
unfolding mnemonic
mnemonic-jumps name none c c' b unnamed h = ground arith
mnemonic-jumps name (some arg) c c' b unnamed h = ground arith

instruction-jumps :
    (name : Text) (next : Option Token) (c c' : Compiler) (b : Bool)
    → instruction name next c ≡ ok (c', b)
    → c'.jumps_to_fix ≡ c.jumps_to_fix
unfolding emit
instruction-jumps name next c c' b h = cases (by_name name) refl h
  where
    cases :
        (o : Option OpCode)
        → by_name name ≡ o
        → instruction name next c ≡ ok (c', b)
        → c'.jumps_to_fix ≡ c.jumps_to_fix
    cases none e h = mnemonic-jumps name next c c' b e (ground arith)
    cases (some op) e h = ground arith

generate_one-jumps :
    (t : Token) (next : Option Token) (c c' : Compiler) (b : Bool)
    → generate_one t next c ≡ ok (c', b)
    → c'.jumps_to_fix ≡ c.jumps_to_fix
unfolding generate_one
generate_one-jumps (identifier, val) next c c' b h = elim (Bool-cases (is_colon next)) [
  | inl e ↦ ground arith
  | inr e ↦ instruction-jumps (upper val) next c c' b (rw e at h)
]
generate_one-jumps (_, val) next c c' b h = ground arith

generate-jumps :
    (ts : List Token) (c c' : Compiler) → generate ts c ≡ ok c' → c'.jumps_to_fix ≡ c.jumps_to_fix
unfolding generate
generate-jumps [] c c' h = ground arith
generate-jumps (t ∷ []) c c' h =
    let (r, e, k) = bind-eq-ok (generate_one t none c) _ h in
    ground (arith, generate_one-jumps t none c r.0 r.1 e)
generate-jumps (t ∷ u ∷ ts) c c' h =
    let (r, e, k) = bind-eq-ok (generate_one t (some u) c) _ h in
    let first = generate_one-jumps t (some u) c r.0 r.1 e in
    elim (Bool-cases r.1) [
      | inl two ↦ generate-jumps ts r.0 c' (cc (k, two)) ∙ first
      | inr one ↦ generate-jumps (u ∷ ts) r.0 c' (cc (k, one)) ∙ first
    ]

patches_nothing :
    (ts : List Token) (r : Result CompileError Compiler)
    → generate ts empty ≡ r
    → (r >>= λ c. fix_jumps c.jumps_to_fix c >>= λ c'. ok (code_object c'))
      ≡ (r >>= λ c. ok (code_object c))
unfolding fix_jumps
patches_nothing ts (ok c) e = rw (generate-jumps ts empty c e)
patches_nothing ts (err x) e = refl

-- Whatever the source, no jump is ever patched and no label is ever looked up: `compile` returns
-- the code of `_generate` as it is, and raises no exception but those of `_generate`.
pub compile_patches_nothing :
    (source : Text)
    → compile source ≡ (generate (tokenize source) empty >>= λ c. ok (code_object c))
unfolding compile compile_tokens
compile_patches_nothing source =
    patches_nothing (tokenize source) (generate (tokenize source) empty) refl

-- An identifier that names an entry of OpCode in whatever letter case, JMP and JMP_IF_FALSE among
-- them, is one byte with no operand: the token behind it, a jump's label, which is no colon, is left to
-- be read as an instruction of its own, as if the jump had been written alone.
pub jump_has_no_operand :
    (op : OpCode) (val : Text) (label : Token) (rest : List Token) (c : Compiler)
    → by_name (upper val) ≡ some op
    → is_colon (some label) ≡ false
    → generate ((identifier, val) ∷ label ∷ rest) c ≡ generate (label ∷ rest) (emit (byte op) c)
unfolding generate generate_one
jump_has_no_operand op val label rest c e k = rw (k, instruction, e)
