-- ===== src/NawLang/Bytecode.antt =====
-- apps/nawlang/bytecode.h.
use naw_os.Base.{ℕ}

pub data OpCode : Type 0 where
  op_push_int op_push_str op_print_int op_print_str op_read_int op_load_var op_store_var : OpCode
  op_add op_sub op_mul op_div : OpCode
  op_eq op_ne op_lt op_gt op_le op_ge : OpCode
  op_jmp op_jmp_if_false op_native_call op_print op_halt : OpCode

-- `arg` is the 32-bit pattern of the `int`
pub record Instruction : Type 0 where
  pub op : OpCode
  pub arg : ℕ

abbrev pub max_vars : ℕ
max_vars = 64
