-- ===== src/Ouroboros/Compiler/Correct.antt =====
-- ouroboros_vm: the assembler and the machine together, on straight-line programs.
use python_portfolio.Prelude.{
  ℕ, ◌+◌, ◌≤◌, ◌<◌, ◌≡◌, refl, sym, ap, ◌∙◌, true, some, List, [], ◌∷◌, ◌++◌, append_assoc,
  append-nil, arith, length, get_elem?, All, ok, ◌>>=◌, ◌==◌, nat_eq, bytes_eq, string_eq, Bytes,
  bytes_beq_iff, get_elem?-lt,
}
use python_portfolio.Ouroboros.Text.{Text}
use python_portfolio.Ouroboros.Opcodes.{load_const, load_name, store_name, byte}
use python_portfolio.Ouroboros.Compiler.{
  Const, CodeObject, Compiler, constant, arg_bytes, emit, emit_const, emit_name, add_to, emit_arg,
  const_beq, compile_tokens, empty, code_object,
}
use python_portfolio.Ouroboros.Compiler.Tables.{
  Extends, add_to-get_elem?, add_to-Extends, const_beq_sound, add_to_few,
}
use python_portfolio.Ouroboros.Compiler.Layout.{emitted, emit_all, generate-emit_all}
use python_portfolio.Ouroboros.Vm.{Memory, run}
use python_portfolio.Ouroboros.Vm.Assembly.{
  Instr, push, store, load, add, sub, mul, eq, print, all_tokens, IsPlain, exec_all,
}
use python_portfolio.Ouroboros.Vm.Simulation.{Encodes, EncodesAll, run-exec_all}

bytes_sound : (a b : Bytes) → a == b ≡ true → a ≡ b
bytes_sound a b = (bytes_beq_iff a b).0

module _ (c : Compiler) where
  emitted-consts : (i : Instr) → Extends c.consts (emitted i c).consts
  unfolding emitted emit_const emit_name emit
  emitted-consts (push arg) = add_to-Extends const_beq const_beq_sound c.consts (constant arg)
  emitted-consts i = λ j b h. h

  emitted-names : (i : Instr) → Extends c.names (emitted i c).names
  unfolding emitted emit_const emit_name emit
  emitted-names (store arg) = add_to-Extends ◌==◌ bytes_sound c.names arg.1
  emitted-names (load arg) = add_to-Extends ◌==◌ bytes_sound c.names arg.1
  emitted-names i = λ j b h. h

emit_all-consts : (is : List Instr) (c : Compiler) → Extends c.consts (emit_all is c).consts
unfolding emit_all
emit_all-consts [] c = λ j b h. h
emit_all-consts (i ∷ is) c =
    λ j b h. emit_all-consts is (emitted i c) j b (emitted-consts c i j b h)

emit_all-names : (is : List Instr) (c : Compiler) → Extends c.names (emit_all is c).names
unfolding emit_all
emit_all-names [] c = λ j b h. h
emit_all-names (i ∷ is) c = λ j b h. emit_all-names is (emitted i c) j b (emitted-names c i j b h)

-- Over tables that extend those of the assembler and have at most 65536 entries each.
module _ (consts : List Const) (names : List Text) (few_consts : length consts ≤ 65536)
    (few_names : length names ≤ 65536) where
  small_index :
      {A : Type 0} (xs : List A) (i : ℕ) {a : A}
      → length xs ≤ 65536
      → get_elem? xs i ≡ some a
      → i < 65536
  small_index xs i few h = omega (arith, get_elem?-lt xs i h)

  emitted-Encodes :
      (i : Instr) (c : Compiler)
      → Extends (emitted i c).consts consts
      → Extends (emitted i c).names names
      → (bs : Bytes) × ((emitted i c).code ≡ c.code ++ bs) × Encodes consts names i bs
  unfolding emitted emit_const emit_name emit emit_arg
  emitted-Encodes (push arg) c hk hn =
      let at = add_to const_beq c.consts (constant arg) in
      let found =
        hk at.1 (constant arg)
          (add_to-get_elem? const_beq const_beq_sound c.consts (constant arg)) in
      (
        byte load_const ∷ arg_bytes at.1,
        rw append_assoc,
        (at.1, small_index consts at.1 few_consts found, found, refl),
      )
  emitted-Encodes (store arg) c hk hn =
      let at = add_to ◌==◌ c.names arg.1 in
      let found = hn at.1 arg.1 (add_to-get_elem? ◌==◌ bytes_sound c.names arg.1) in
      (
        byte store_name ∷ arg_bytes at.1,
        rw append_assoc,
        (at.1, small_index names at.1 few_names found, found, refl),
      )
  emitted-Encodes (load arg) c hk hn =
      let at = add_to ◌==◌ c.names arg.1 in
      let found = hn at.1 arg.1 (add_to-get_elem? ◌==◌ bytes_sound c.names arg.1) in
      (
        byte load_name ∷ arg_bytes at.1,
        rw append_assoc,
        (at.1, small_index names at.1 few_names found, found, refl),
      )
  emitted-Encodes add c hk hn = (_, refl, refl)
  emitted-Encodes sub c hk hn = (_, refl, refl)
  emitted-Encodes mul c hk hn = (_, refl, refl)
  emitted-Encodes eq c hk hn = (_, refl, refl)
  emitted-Encodes print c hk hn = (_, refl, refl)

  emit_all-EncodesAll :
      (is : List Instr) (c : Compiler)
      → Extends (emit_all is c).consts consts
      → Extends (emit_all is c).names names
      → (bs : Bytes) × ((emit_all is c).code ≡ c.code ++ bs) × EncodesAll consts names is bs
  unfolding emit_all
  emit_all-EncodesAll [] c hk hn = ([], sym (append-nil c.code), refl)
  emit_all-EncodesAll (i ∷ is) c hk hn =
      let c' = emitted i c in
      let (b, eb, hb) =
        emitted-Encodes i c (λ j k h. hk j k (emit_all-consts is c' j k h))
          (λ j k h. hn j k (emit_all-names is c' j k h)) in
      let (rest, er, hr) = emit_all-EncodesAll is c' hk hn in
      (
        b ++ rest,
        er ∙ (ap (λ l. l ++ rest) eb ∙ append_assoc c.code b rest),
        (b, rest, refl, hb, hr),
      )

emit_all-jumps : (is : List Instr) (c : Compiler) → (emit_all is c).jumps_to_fix ≡ c.jumps_to_fix
unfolding emit_all emitted emit_const emit_name emit emit_arg
emit_all-jumps [] c = refl
emit_all-jumps (push arg ∷ is) c = emit_all-jumps is (emitted (push arg) c)
emit_all-jumps (i ∷ is) c = emit_all-jumps is (emitted i c)

-- An instruction adds at most one entry to each table.
emitted-few :
    (i : Instr) (c : Compiler)
    → (length (emitted i c).consts ≤ length c.consts + 1)
      × (length (emitted i c).names ≤ length c.names + 1)
unfolding emitted emit_const emit_name emit
emitted-few (push arg) c = (add_to_few const_beq c.consts (constant arg), omega arith)
emitted-few (store arg) c = (omega arith, add_to_few ◌==◌ c.names arg.1)
emitted-few (load arg) c = (omega arith, add_to_few ◌==◌ c.names arg.1)
emitted-few i c = (omega arith, omega arith)

emit_all-few :
    (is : List Instr) (c : Compiler)
    → (length (emit_all is c).consts ≤ length c.consts + length is)
      × (length (emit_all is c).names ≤ length c.names + length is)
unfolding emit_all
emit_all-few [] c = (omega arith, omega arith)
emit_all-few (i ∷ is) c = (
  omega (arith, emit_all-few is (emitted i c), emitted-few i c),
  omega (arith, emit_all-few is (emitted i c), emitted-few i c),
)

compile_tokens-emit_all :
    (is : List Instr)
    → All IsPlain is
    → compile_tokens (all_tokens is) empty ≡ ok (code_object (emit_all is empty))
unfolding compile_tokens
compile_tokens-emit_all is h = rw (generate-emit_all is empty h, emit_all-jumps is empty)

-- A straight-line program is assembled, and the machine runs the result to its end and does what
-- the program means: the same stack, variables and output, or the same exception. The program has at
-- most 65536 instructions, its arguments are no lone colons, and a round of the machine for each
-- instruction is enough.
pub run-compile_tokens :
    (is : List Instr) (fuel : ℕ) (m : Memory)
    → All IsPlain is
    → length is ≤ 65536
    → length is ≤ fuel
    → (co : CodeObject) × (compile_tokens (all_tokens is) empty ≡ ok co)
      × (run fuel co m
          ≡ some (exec_all is m >>= λ m'. ok (record { ip = length co.co_code; memory = m' })))
run-compile_tokens is fuel m plain short enough =
    let c = emit_all is empty in
    let fk : length c.consts ≤ 65536 = omega (arith, emit_all-few is empty) in
    let fn : length c.names ≤ 65536 = omega (arith, emit_all-few is empty) in
    let (bs, e, h) =
      emit_all-EncodesAll c.consts c.names fk fn is empty (λ j b p. p) (λ j b p. p) in
    (
      code_object c,
      compile_tokens-emit_all is plain,
      run-exec_all c.consts c.names is c.code fuel m (rw e h) enough,
    )
