-- ===== src/Ouroboros.antt =====
-- ouroboros_vm/ouroboros: the assembler of a small language, its bytecode and its machine.
pub mod Text
pub mod Opcodes
pub mod Compiler
pub mod Vm
mod Tests
