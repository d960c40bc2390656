-- ===== src/Ouroboros/Compiler/Layout.antt =====
-- What the assembler of ouroboros_vm emits for a straight-line program, byte for byte.
use python_portfolio.Prelude.{
  ◌≡◌, refl, ◌∙◌, true, false, Option, none, some, List, [], ◌∷◌, All, ok, nat_eq, bytes_eq,
  string_eq,
}
use python_portfolio.Ouroboros.Opcodes.{
  OpCode, load_const, load_name, store_name, byte, by_byte, by_name,
}
use python_portfolio.Ouroboros.Opcodes
use python_portfolio.Ouroboros.Compiler.{
  Token, Compiler, constant, is_colon, emit, emit_const, emit_name, generate_one, generate,
}
use python_portfolio.Ouroboros.Vm.Assembly.{
  Instr, push, store, load, add, sub, mul, eq, print, all_tokens, IsPlain,
}

-- The effect of an instruction on the assembler.
unfoldable pub emitted : Instr → Compiler → Compiler
emitted (push arg) c = emit_const (constant arg) (emit (byte load_const) c)
emitted (store arg) c = emit_name arg.1 (emit (byte store_name) c)
emitted (load arg) c = emit_name arg.1 (emit (byte load_name) c)
emitted add c = emit (byte Opcodes.add) c
emitted sub c = emit (byte Opcodes.sub) c
emitted mul c = emit (byte Opcodes.mul) c
emitted eq c = emit (byte Opcodes.eq) c
emitted print c = emit (byte Opcodes.print) c

unfoldable pub emit_all : List Instr → Compiler → Compiler
emit_all [] c = c
emit_all (i ∷ is) c = emit_all is (emitted i c)

two_tokens :
    (t u : Token) (ts : List Token) (c c' : Compiler)
    → generate_one t (some u) c ≡ ok (c', true)
    → generate (t ∷ u ∷ ts) c ≡ generate ts c'
unfolding generate
two_tokens t u ts c c' h = rw h

-- The first token of a program, if it has one, is no colon.
abbrev StartsPlain : List Token → Type 0
StartsPlain [] = Unit
StartsPlain (u ∷ ts) = is_colon (some u) ≡ false

all_tokens-StartsPlain : (is : List Instr) → StartsPlain (all_tokens is)
all_tokens-StartsPlain [] = tt
all_tokens-StartsPlain (push arg ∷ is) = refl
all_tokens-StartsPlain (i ∷ is) = refl

one_token :
    (t : Token) (ts : List Token) (c c' : Compiler)
    → StartsPlain ts
    → ((next : Option Token) → is_colon next ≡ false → generate_one t next c ≡ ok (c', false))
    → generate (t ∷ ts) c ≡ generate ts c'
unfolding generate
one_token t [] c c' p h = rw (h none refl)
one_token t (u ∷ ts) c c' p h = rw (h (some u) p)

module _ (is : List Instr) (c : Compiler) where
  push-emitted :
      (arg : Token)
      → is_colon (some arg) ≡ false
      → generate (all_tokens (push arg ∷ is)) c ≡ generate (all_tokens is) (emitted (push arg) c)
  unfolding generate_one emitted
  push-emitted arg p = two_tokens _ arg (all_tokens is) c _ (rw p)

  store-emitted :
      (arg : Token)
      → is_colon (some arg) ≡ false
      → generate (all_tokens (store arg ∷ is)) c ≡ generate (all_tokens is) (emitted (store arg) c)
  unfolding generate_one emitted
  store-emitted arg p = two_tokens _ arg (all_tokens is) c _ (rw p)

  load-emitted :
      (arg : Token)
      → is_colon (some arg) ≡ false
      → generate (all_tokens (load arg ∷ is)) c ≡ generate (all_tokens is) (emitted (load arg) c)
  unfolding generate_one emitted
  load-emitted arg p = two_tokens _ arg (all_tokens is) c _ (rw p)

  tokens-emitted :
      (i : Instr)
      → IsPlain i
      → generate (all_tokens (i ∷ is)) c ≡ generate (all_tokens is) (emitted i c)
  unfolding generate_one emitted
  tokens-emitted (push arg) p = push-emitted arg p
  tokens-emitted (store arg) p = store-emitted arg p
  tokens-emitted (load arg) p = load-emitted arg p
  tokens-emitted add p = one_token _ _ c _ (all_tokens-StartsPlain is) (λ next k. rw k)
  tokens-emitted sub p = one_token _ _ c _ (all_tokens-StartsPlain is) (λ next k. rw k)
  tokens-emitted mul p = one_token _ _ c _ (all_tokens-StartsPlain is) (λ next k. rw k)
  tokens-emitted eq p = one_token _ _ c _ (all_tokens-StartsPlain is) (λ next k. rw k)
  tokens-emitted print p = one_token _ _ c _ (all_tokens-StartsPlain is) (λ next k. rw k)

pub generate-emit_all :
    (is : List Instr) (c : Compiler)
    → All IsPlain is
    → generate (all_tokens is) c ≡ ok (emit_all is c)
unfolding emit_all
generate-emit_all [] c h = unfold generate in refl
generate-emit_all (i ∷ is) c (p, h) = tokens-emitted is c i p ∙ generate-emit_all is (emitted i c) h
