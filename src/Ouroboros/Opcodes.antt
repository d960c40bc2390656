-- ===== src/Ouroboros/Opcodes.antt =====
-- ouroboros_vm/ouroboros/opcodes.py: the instruction set.
use python_portfolio.Prelude.{
  ℕ, Option, none, some, List, [], ◌∷◌, if◌then◌else◌, ◌==◌, nat_eq, bytes_eq, string_eq,
}
use python_portfolio.Ouroboros.Text.{Text, codes}

pub data OpCode : Type 0 where
  load_const load_name store_name : OpCode
  add sub mul div eq : OpCode
  jmp jmp_if_false : OpCode
  call ret : OpCode
  print halt : OpCode

abbrev pub byte : OpCode → ℕ
byte load_const = 0x01
byte load_name = 0x02
byte store_name = 0x03
byte add = 0x10
byte sub = 0x11
byte mul = 0x12
byte div = 0x13
byte eq = 0x14
byte jmp = 0x20
byte jmp_if_false = 0x21
byte call = 0x30
byte ret = 0x31
byte print = 0x40
byte halt = 0xff

abbrev pub all_opcodes : List (Text × OpCode)
all_opcodes =
    (codes "LOAD_CONST", load_const)
    ∷ (codes "LOAD_NAME", load_name)
    ∷ (codes "STORE_NAME", store_name)
    ∷ (codes "ADD", add)
    ∷ (codes "SUB", sub)
    ∷ (codes "MUL", mul)
    ∷ (codes "DIV", div)
    ∷ (codes "EQ", eq)
    ∷ (codes "JMP", jmp)
    ∷ (codes "JMP_IF_FALSE", jmp_if_false)
    ∷ (codes "CALL", call)
    ∷ (codes "RET", ret)
    ∷ (codes "PRINT", print)
    ∷ (codes "HALT", halt)
    ∷ []

abbrev find_name : List (Text × OpCode) → Text → Option OpCode
find_name [] name = none
find_name ((n, op) ∷ ops) name = if n == name then some op else find_name ops name

abbrev find_byte : List (Text × OpCode) → ℕ → Option OpCode
find_byte [] b = none
find_byte ((n, op) ∷ ops) b = if byte op == b then some op else find_byte ops b

-- hasattr(OpCode, name) and getattr(OpCode, name)
unfoldable pub by_name : Text → Option OpCode
by_name name = find_name all_opcodes name

-- OPCODE_MAP.get(b)
unfoldable pub by_byte : ℕ → Option OpCode
by_byte b = find_byte all_opcodes b
