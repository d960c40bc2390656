-- ===== src/Ouroboros/Tests.antt =====
-- Runs of the assembler and of the machine of ouroboros_vm.
use python_portfolio.Prelude.{
  ◌≡◌, refl, some, List, [], ◌∷◌, arith, length, All, ok, ◌>>=◌, nat_eq, bytes_eq, string_eq,
}
use python_portfolio.Ouroboros.Text.{Text, codes, to_int, upper}
use python_portfolio.Ouroboros.Opcodes.{jmp, by_name}
use python_portfolio.Ouroboros.Compiler.{
  number, identifier, number_token, CodeObject, empty, code_object, compile, compile_tokens,
  tokenize, generate,
}
use python_portfolio.Ouroboros.Compiler.Jumps.{compile_patches_nothing}
use python_portfolio.Ouroboros.Compiler.Correct.{run-compile_tokens}
use python_portfolio.Ouroboros.Vm.{empty_memory, run}
use python_portfolio.Ouroboros.Vm.Assembly.{
  Instr, push, store, load, add, print, all_tokens, IsPlain, exec_all,
}

-- tests/test_vm.py
addition :
    compile (codes "PUSH 10\nPUSH 20\nADD\n")
    ≡ ok (record {
      co_code = 1 ∷ 0 ∷ 0 ∷ 1 ∷ 0 ∷ 1 ∷ 16 ∷ [];
      co_consts = number 10 ∷ number 20 ∷ [];
      co_names = [];
    })
unfolding compile to_int
addition = refl

abbrev program : List Instr
program =
    push (number_token, codes "10")
    ∷ store (identifier, codes "x")
    ∷ load (identifier, codes "x")
    ∷ push (number_token, codes "20")
    ∷ add
    ∷ print
    ∷ []

program-IsPlain : All IsPlain program
program-IsPlain = (refl, (refl, (refl, (refl, (tt, (tt, tt))))))

run-compile_tokens_example :
    (co : CodeObject) × (compile_tokens (all_tokens program) empty ≡ ok co)
    × (run 6 co empty_memory
        ≡ some (
            exec_all program empty_memory >>= λ m'.
            ok (record { ip = length co.co_code; memory = m' })))
run-compile_tokens_example =
    run-compile_tokens program 6 empty_memory program-IsPlain (omega arith) (omega arith)

abbrev loop_source : Text
loop_source = codes "start:\nJMP start\n"

compile_patches_nothing_example :
    compile loop_source ≡ (generate (tokenize loop_source) empty >>= λ c. ok (code_object c))
compile_patches_nothing_example = compile_patches_nothing loop_source

jmp_named : by_name (upper (codes "jmp")) ≡ some jmp
unfolding by_name upper
jmp_named = refl
