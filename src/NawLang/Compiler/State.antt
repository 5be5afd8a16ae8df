-- ===== src/NawLang/Compiler/State.antt =====
-- apps/nawlang/compiler.c: what the compiler keeps, and the functions that add to it.
use naw_os.Base.{
  ℕ, zero, suc, ◌+◌, ◌-◌, ◌*◌, Bool, true, false, Option, none, some, List, [], ◌∷◌, ◌++◌, leb,
  ◌==◌, if◌then◌else◌, length, take, u32,
}
use naw_os.CString.{peek, rest}
use naw_os.NawLang.Bytecode.{OpCode, Instruction, max_vars}
use naw_os.NawLang.Compiler.Scan.{max_var_name_len}

abbrev pub max_strings : ℕ
max_strings = 64

abbrev pub max_string_len : ℕ
max_string_len = 128

abbrev pub max_loop_depth : ℕ
max_loop_depth = 8

-- the length of `break_jumps` and of `continue_jumps`
abbrev pub max_jumps : ℕ
max_jumps = 32

-- The jumps stand with the last one first; their number is the list's length.
pub record LoopContext : Type 0 where
  pub loop_start : ℕ
  pub break_jumps : List ℕ
  pub continue_jumps : List ℕ

-- `code` is what stands in the array of instructions before `ip`, which is its length; the strings, the
-- names and the loops are counted by their lists, the innermost loop first. `pool` is the address of
-- `string_pool`.
pub record Compiler : Type 0 where
  pub pool : ℕ
  pub code : List Instruction
  pub strings : List (List ℕ)
  pub names : List (List ℕ)
  pub loops : List LoopContext

abbrev pub ip : Compiler → ℕ
ip s = length s.code

unfoldable pub emit : OpCode → ℕ → Compiler → Compiler
emit op arg s = record s { code = s.code ++ (record { op = op; arg = arg } ∷ []) }

-- the comparison of `add_string` and of `var_index`
unfoldable pub same_text : List ℕ → List ℕ → Bool
same_text [] s = peek s == 0
same_text (c ∷ t) s =
    let more = same_text t (rest s) in
    if c == peek s then (if c == 0 then true else more) else false

-- the index of the text, counted from `i`
unfoldable pub find_text : ℕ → List (List ℕ) → List ℕ → Option ℕ
find_text i [] s = none
find_text i (t ∷ texts) s =
    let more = find_text (i + 1) texts s in if same_text t s then some i else more

-- the `char*` of a string of the pool, as an `int`
abbrev pub string_address : Compiler → ℕ → ℕ
string_address s i = u32 (s.pool + max_string_len * i)

unfoldable pub new_string : List ℕ → Compiler → ℕ × Compiler
new_string t s = if leb max_strings (length s.strings) then (string_address s 63, s) else (
  string_address s (length s.strings),
  record s { strings = s.strings ++ (take (max_string_len - 1) t ∷ []) },
)

unfoldable pub add_string : List ℕ → Compiler → ℕ × Compiler
add_string t s = elim (find_text 0 s.strings t) [
  | none ↦ new_string t s
  | some i ↦ (string_address s i, s)
]

unfoldable pub new_name : List ℕ → Compiler → ℕ × Compiler
new_name name s =
    if leb max_vars (length s.names)
    then (63, s)
    else (length s.names, record s { names = s.names ++ (take (max_var_name_len - 1) name ∷ []) })

unfoldable pub var_index : List ℕ → Compiler → ℕ × Compiler
var_index name s = elim (find_text 0 s.names name) [ none ↦ new_name name s | some i ↦ (i, s) ]

-- `emit(code, ip, op, var_index(name))`
unfoldable pub emit_var : OpCode → List ℕ → Compiler → Compiler
emit_var op name s = let (i, s') = var_index name s in emit op i s'

-- `emit(code, ip, OP_PUSH_STR, (int)add_string(t))`
unfoldable pub emit_string : OpCode → List ℕ → Compiler → Compiler
emit_string op t s = let (a, s') = add_string t s in emit op a s'

-- `code[k].arg = target`
unfoldable pub set_arg : List Instruction → ℕ → ℕ → List Instruction
set_arg [] k target = []
set_arg (i ∷ code) zero target = record i { arg = target } ∷ code
set_arg (i ∷ code) (suc k) target = i ∷ set_arg code k target

unfoldable pub set_target : ℕ → ℕ → Compiler → Compiler
set_target k target s = record s { code = set_arg s.code k target }

-- the loops that set the targets of the jumps kept
unfoldable pub set_targets : List ℕ → ℕ → Compiler → Compiler
set_targets [] target s = s
set_targets (k ∷ jumps) target s = set_target k target (set_targets jumps target s)
