-- ===== src/Ouroboros/Vm.antt =====
-- ouroboros_vm/ouroboros/vm.py: the machine that runs the bytecode.
pub mod Assembly
pub mod Simulation
use python_portfolio.Prelude.{
  ℕ, zero, suc, ◌+◌, ◌-◌, ◌*◌, ◌/◌, ◌%◌, ◌^◌, ◌≤◌, ◌<◌, ◌≡◌, refl, sym, ap, ◌∙◌, ◌≢◌, ◌↔◌, ◌⊎◌, inl,
  inr, Bool, true, false, not, ◌&&◌, ◌||◌, Option, none, some, List, [], ◌∷◌, ◌++◌, map,
  append_assoc, append-nil, arith, String, length, get_elem?, set, take, drop, replicate,
  length-append, length-take, length-drop, length-replicate, take-append, drop-append,
  take-append-drop, take_all, All, All-append, All-take, All-drop, take_add, take-nil, any, Result,
  ok, err, ◌>>=◌, ◌>>◌, guard, or_raise, and_then, ℤ, pos, negsuc, ◌+ℤ◌, ◌-ℤ◌, ◌*ℤ◌, int_beq, ltb,
  leb, if◌then◌else◌, nat_beq, nat_beq_iff, nat_beq_refl, ltb→lt, lt→ltb, le→ltb, leb→le, le→leb,
  Bool-cases, Eq, ◌==◌, nat_eq, bytes_eq, string_eq, beq_refl, beq_ne, Bytes, to_be, from_be,
  from_be-to_be, length-to_be, to_be-from_be, from_be-lt, bytes_beq_iff, get_elem?-append_left,
  get_elem?-append_at, get_elem?-lt, length-set,
}
use python_portfolio.Prelude.Dict
use python_portfolio.Prelude.Dict.{Dict}
use python_portfolio.Ouroboros.Text.{Text}
use python_portfolio.Ouroboros.Opcodes.{
  OpCode, load_const, load_name, store_name, add, sub, mul, div, eq, jmp, jmp_if_false, call, ret,
  print, halt, by_byte, byte,
}
use python_portfolio.Ouroboros.Compiler.{Const, number, text, CodeObject}

pub data Value : Type 0 where
  int : ℤ → Value
  bool : Bool → Value
  str : Text → Value

pub data VmError : Type 0 where
  index_error type_error : VmError
  name_error : Text → VmError
  runtime_error : ℕ → VmError

-- The data stack, last pushed first, the variables, and the values that PRINT has written.
pub record Memory : Type 0 where
  pub stack : List Value
  pub globals : Dict Text Value
  pub stdout : List Value

pub record VirtualMachine : Type 0 where
  pub ip : ℕ
  pub memory : Memory

abbrev pub empty_memory : Memory
empty_memory = record { stack = []; globals = []; stdout = [] }

abbrev pub literal : Const → Value
literal (number n) = int (pos n)
literal (text s) = str s

-- A bool is an int in arithmetic and in comparisons.
abbrev pub as_int : Value → Option ℤ
as_int (int z) = some z
as_int (bool true) = some (pos 1)
as_int (bool false) = some (pos 0)
as_int (str s) = none

unfoldable pub repeat : ℕ → Text → Text
repeat zero s = []
repeat (suc n) s = s ++ repeat n s

-- s * n, which is empty for a negative n
abbrev pub times : ℤ → Text → Value
times (pos n) s = str (repeat n s)
times (negsuc n) s = str []

abbrev pub int_op : (ℤ → ℤ → ℤ) → Value → Value → Result VmError Value
int_op f a b = do
  x ← or_raise (as_int a) type_error
  y ← or_raise (as_int b) type_error
  ok (int (f x y))

unfoldable pub add_values : Value → Value → Result VmError Value
unfolding ◌+ℤ◌
add_values (str s) (str t) = ok (str (s ++ t))
add_values a b = int_op ◌+ℤ◌ a b

unfoldable pub sub_values : Value → Value → Result VmError Value
unfolding ◌-ℤ◌
sub_values a b = int_op ◌-ℤ◌ a b

unfoldable pub mul_values : Value → Value → Result VmError Value
unfolding ◌*ℤ◌ repeat
mul_values (str s) b = or_raise (as_int b) type_error >>= λ n. ok (times n s)
mul_values a (str s) = or_raise (as_int a) type_error >>= λ n. ok (times n s)
mul_values a b = int_op ◌*ℤ◌ a b

abbrev pub equal_ints : Option ℤ → Option ℤ → Bool
equal_ints (some x) (some y) = int_beq x y
equal_ints _ _ = false

-- a == b
unfoldable pub equal_values : Value → Value → Bool
equal_values (str s) (str t) = s == t
equal_values a b = equal_ints (as_int a) (as_int b)

-- bool(v)
unfoldable pub truthy : Value → Bool
truthy (int z) = not (int_beq z (pos 0))
truthy (bool b) = b
truthy (str s) = not (s == [])

abbrev pub pop : List Value → Result VmError (Value × List Value)
pop [] = err index_error
pop (v ∷ s) = ok (v, s)

-- What the loop does next: go on, or `break`.
pub data Next : Type 0 where
  continue : VirtualMachine → Next
  stop : VirtualMachine → Next

-- _read_arg; the instruction pointer that it leaves is two further on.
unfoldable pub read_arg : Bytes → ℕ → Result VmError ℕ
read_arg code ip = do
  hi ← or_raise (get_elem? code ip) index_error
  lo ← or_raise (get_elem? code (ip + 1)) index_error
  ok (hi * 256 + lo)

abbrev pub binary : (Value → Value → Result VmError Value) → ℕ → Memory → Result VmError Next
binary f ip m = do
  (b, s) ← pop m.stack
  (a, s') ← pop s
  v ← f a b
  ok (continue (record { ip = ip; memory = record m { stack = v ∷ s' } }))

-- One instruction, with `ip` behind its opcode.
unfoldable pub execute : CodeObject → OpCode → ℕ → Memory → Result VmError Next
unfolding read_arg add_values sub_values mul_values equal_values truthy
execute co load_const ip m = do
  idx ← read_arg co.co_code ip
  k ← or_raise (get_elem? co.co_consts idx) index_error
  ok (continue (record { ip = ip + 2; memory = record m { stack = literal k ∷ m.stack } }))
execute co load_name ip m = do
  idx ← read_arg co.co_code ip
  name ← or_raise (get_elem? co.co_names idx) index_error
  v ← or_raise (Dict.get m.globals name) (name_error name)
  ok (continue (record { ip = ip + 2; memory = record m { stack = v ∷ m.stack } }))
execute co store_name ip m = do
  idx ← read_arg co.co_code ip
  name ← or_raise (get_elem? co.co_names idx) index_error
  (v, s) ← pop m.stack
  ok (
      continue (record {
        ip = ip + 2;
        memory = record m { stack = s; globals = Dict.put m.globals name v };
      }))
execute co add ip m = binary add_values ip m
execute co sub ip m = binary sub_values ip m
execute co mul ip m = binary mul_values ip m
execute co eq ip m = binary (λ a b. ok (bool (equal_values a b))) ip m
execute co print ip m = do
  (v, s) ← pop m.stack
  ok (continue (record { ip = ip; memory = record m { stack = s; stdout = m.stdout ++ (v ∷ []) } }))
execute co jmp ip m = do
  target ← read_arg co.co_code ip
  ok (continue (record { ip = target; memory = m }))
execute co jmp_if_false ip m = do
  target ← read_arg co.co_code ip
  (v, s) ← pop m.stack
  ok (
      continue
        (record { ip = if truthy v then ip + 2 else target; memory = record m { stack = s } }))
execute co halt ip m = ok (stop (record { ip = ip; memory = m }))
execute co div ip m = err (runtime_error (byte div))
execute co call ip m = err (runtime_error (byte call))
execute co ret ip m = err (runtime_error (byte ret))

-- One round of the loop of `run`, at an `ip` inside the code.
unfoldable pub step : CodeObject → VirtualMachine → Result VmError Next
unfolding execute by_byte
step co vm = do
  op ← or_raise (get_elem? co.co_code vm.ip) index_error
  code ← or_raise (by_byte op) (runtime_error op)
  execute co code (vm.ip + 1) vm.memory

abbrev pub proceed :
    Result VmError Next
    → (VirtualMachine → Option (Result VmError VirtualMachine))
    → Option (Result VmError VirtualMachine)
proceed (ok (continue vm)) loop = loop vm
proceed (ok (stop vm)) loop = some (ok vm)
proceed (err e) loop = some (err e)

-- `while self.ip < n`, for at most the given number of rounds; `none` says that these were too few.
unfoldable pub run_loop : ℕ → CodeObject → VirtualMachine → Option (Result VmError VirtualMachine)
unfolding step
run_loop zero co vm = if ltb vm.ip (length co.co_code) then none else some (ok vm)
run_loop (suc fuel) co vm =
    if ltb vm.ip (length co.co_code) then proceed (step co vm) (run_loop fuel co) else some (ok vm)

-- run, on the memory that the machine has
unfoldable pub run : ℕ → CodeObject → Memory → Option (Result VmError VirtualMachine)
unfolding run_loop
run fuel co m = run_loop fuel co (record { ip = 0; memory = m })
