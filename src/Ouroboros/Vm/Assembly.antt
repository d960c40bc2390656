-- ===== src/Ouroboros/Vm/Assembly.antt =====
-- Straight-line programs of ouroboros_vm: their tokens, and what they mean without any bytecode.
use python_portfolio.Prelude.{
  ◌≡◌, false, some, List, [], ◌∷◌, ◌++◌, String, Result, ok, ◌>>=◌, or_raise, nat_eq, bytes_eq,
  string_eq,
}
use python_portfolio.Prelude.Dict
use python_portfolio.Ouroboros.Text.{codes}
use python_portfolio.Ouroboros.Compiler.{Token, identifier, constant, is_colon}
use python_portfolio.Ouroboros.Vm.{
  Value, Memory, VmError, name_error, bool, literal, pop, add_values, sub_values, mul_values,
  equal_values,
}

-- An instruction with the token behind it, where it takes one.
pub data Instr : Type 0 where
  push store load : Token → Instr
  add sub mul eq print : Instr

abbrev word : String → Token
word s = (identifier, codes s)

abbrev pub tokens : Instr → List Token
tokens (push arg) = word "PUSH" ∷ arg ∷ []
tokens (store arg) = word "STORE" ∷ arg ∷ []
tokens (load arg) = word "LOAD" ∷ arg ∷ []
tokens add = word "ADD" ∷ []
tokens sub = word "SUB" ∷ []
tokens mul = word "MUL" ∷ []
tokens eq = word "EQ" ∷ []
tokens print = word "PRINT" ∷ []

abbrev pub all_tokens : List Instr → List Token
all_tokens [] = []
all_tokens (i ∷ is) = tokens i ++ all_tokens is

-- No argument is a lone colon, which the assembler would take for the end of a label.
abbrev pub IsPlain : Instr → Type 0
IsPlain (push arg) = is_colon (some arg) ≡ false
IsPlain (store arg) = is_colon (some arg) ≡ false
IsPlain (load arg) = is_colon (some arg) ≡ false
IsPlain _ = Unit

abbrev pub binary : (Value → Value → Result VmError Value) → Memory → Result VmError Memory
binary f m = do (b, s) ← pop m.stack; (a, s') ← pop s; v ← f a b; ok (record m { stack = v ∷ s' })

-- The meaning of an instruction: what it does to the stack, the variables and the output.
unfoldable pub exec : Instr → Memory → Result VmError Memory
exec (push arg) m = ok (record m { stack = literal (constant arg) ∷ m.stack })
exec (store arg) m = do
  (v, s) ← pop m.stack
  ok (record m { stack = s; globals = Dict.put m.globals arg.1 v })
exec (load arg) m = do
  v ← or_raise (Dict.get m.globals arg.1) (name_error arg.1)
  ok (record m { stack = v ∷ m.stack })
exec add m = binary add_values m
exec sub m = binary sub_values m
exec mul m = binary mul_values m
exec eq m = binary (λ a b. ok (bool (equal_values a b))) m
exec print m = do (v, s) ← pop m.stack; ok (record m { stack = s; stdout = m.stdout ++ (v ∷ []) })

unfoldable pub exec_all : List Instr → Memory → Result VmError Memory
exec_all [] m = ok m
exec_all (i ∷ is) m = exec i m >>= exec_all is
