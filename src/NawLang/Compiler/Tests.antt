-- ===== src/NawLang/Compiler/Tests.antt =====
-- Programs that the compiler is run on.
use naw_os.Base.{
  ℕ, suc, ◌+◌, ◌≤◌, ◌≡◌, ◌≢◌, ◌⊎◌, ◌↔◌, inl, inr, refl, Bool-cases, none, some, List, [], ◌∷◌, ◌++◌,
  length, get_elem?, replicate, arith,
}
use naw_os.NawLang.Vm
use naw_os.NawLang.Vm.{Host, Vm, value_int, vm_loop, vm_run}
use naw_os.NawLang.Word.{int_add, int_mul}
use naw_os.NawLang.Compiler.Tree.{Expr, num, var, bin, plus, times, expr_text, IsSource, index_of}
use naw_os.NawLang.Compiler.Tree.Run.{vm_loop-compile_expr}
use naw_os.NawLang.Compiler.Program.{IsProgram, Hangs, naw_compile-cases, naw_compile-Hangs_iff}
use naw_os.NawLang.Compiler.Machine.{vm_run-naw_compile}
use naw_os.CString.{strcmp}
use naw_os.NawLang.Bytecode.{
  Instruction, OpCode, op_push_int, op_load_var, op_store_var, op_print, op_add, op_mul, op_lt,
  op_jmp, op_jmp_if_false, op_halt, op_push_str, op_native_call, op_read_int, op_print_int,
}
use naw_os.NawLang.Compiler.Scan.{
  codes, skip_whitespace, skip_inline_space, match_keyword, skip_to_line_end, skip_to_paren,
  skip_char, read_identifier, identifier_loop,
}
use naw_os.NawLang.Compiler.Outcome.{Result, ok, undefined, out_of_fuel, ◌>>=◌}
use naw_os.NawLang.Compiler.State.{
  Compiler, emit, emit_var, emit_string, var_index, add_string, new_name, new_string, find_text,
  same_text, set_arg, set_target, set_targets,
}
use naw_os.NawLang.Compiler.Native.{
  compile_native_math_call, native_math_id_from_name, native_id_from, native_args,
  capture_native_math_argument, capture_loop, trim_end, emit_arguments,
}
use naw_os.NawLang.Compiler.Expression.{
  compile_expr, parse_compare, compare_loop, compare_op, parse_expr, parse_term, parse_factor,
  term_loop, expr_loop, parse_atom, parse_name, parse_number, parse_string, digits_loop,
  string_loop,
}
use naw_os.NawLang.Compiler.Statement.{
  naw_compile, new_compiler, compile_lines, compile_statement, compile_block, block_loop,
  compile_simple, compile_print, compile_break, compile_continue, break_in, continue_in,
  compile_int, compile_read, compile_assignment, store_expr, compile_if, compile_else,
  compile_while, leave_loop, leave_in,
}

-- A keyboard that always gives 7, and strings that are all empty.
abbrev host : Host
host = record {
  World = ℕ;
  string_at = λ w p. [];
  empty_string = 1;
  naw_math_native_call = λ id args w. (1, w);
  keyboard_read_int = λ w. (7, suc w);
}

abbrev undefined_run : Vm.Outcome ℕ
undefined_run = Vm.undefined

compiled : List ℕ → Result Compiler
unfolding strcmp naw_compile compile_lines compile_statement compile_block block_loop compile_simple
    compile_print compile_break compile_continue break_in continue_in compile_int compile_read
    compile_assignment store_expr compile_if compile_else compile_while leave_loop leave_in
    skip_whitespace skip_inline_space match_keyword skip_to_line_end skip_to_paren skip_char
    read_identifier identifier_loop compile_expr parse_compare compare_loop compare_op parse_expr
    parse_term parse_factor term_loop expr_loop parse_atom parse_name parse_number parse_string
    digits_loop string_loop compile_native_math_call native_math_id_from_name native_id_from
    native_args capture_native_math_argument capture_loop trim_end emit_arguments emit emit_var
    emit_string var_index add_string new_name new_string find_text same_text set_arg set_target
    set_targets
compiled src = naw_compile 10 4096 src

code_of : List ℕ → Result (List Instruction)
unfolding compiled
code_of src = compiled src >>= λ s. ok s.code

abbrev instr : OpCode → ℕ → Instruction
instr op arg = record { op = op; arg = arg }

compiled_while :
    code_of (codes "int a = 1+2*3\nwhile (a < 9) { print a\n a = a+1\n break\n }")
    ≡ ok (
        instr op_push_int 1
        ∷ instr op_push_int 2
        ∷ instr op_push_int 3
        ∷ instr op_mul 0
        ∷ instr op_add 0
        ∷ instr op_store_var 0
        ∷ instr op_load_var 0
        ∷ instr op_push_int 9
        ∷ instr op_lt 0
        ∷ instr op_jmp_if_false 18
        ∷ instr op_load_var 0
        ∷ instr op_print 0
        ∷ instr op_load_var 0
        ∷ instr op_push_int 1
        ∷ instr op_add 0
        ∷ instr op_store_var 0
        ∷ instr op_jmp 18
        ∷ instr op_jmp 6
        ∷ instr op_halt 0
        ∷ [])
unfolding code_of
compiled_while = refl

compiled_native :
    code_of (codes "print math_add( 1+2 , \"x,y\")")
    ≡ ok (
        instr op_push_str 4096
        ∷ instr op_push_str 4224
        ∷ instr op_native_call 1
        ∷ instr op_print 0
        ∷ instr op_halt 0
        ∷ [])
unfolding code_of
compiled_native = refl

-- The condition of an `if` ends at its first `)`: the block is not entered, and its `}` is stray.
compiled_if : code_of (codes "if ((1)==1) { print 2\n }") ≡ out_of_fuel
unfolding code_of
compiled_if = refl

abbrev instructions : Compiler
instructions = record { pool = 4096; code = []; strings = []; names = codes "a" ∷ []; loops = [] }

-- (a*(2+40)) with a = 3
abbrev tree : Expr
tree = bin times (var (codes "a")) (bin plus (num (codes "2")) (num (codes "40")))

abbrev machine : Vm ℕ
machine = record { stack = []; vars = 3 ∷ replicate 63 0; ip = 0; printed = []; world = 0 }

look_a : List ℕ → ℕ
look_a name = 3

declared_a :
    (name : List ℕ)
    → find_text 0 (codes "a" ∷ []) name ≢ none
    → get_elem? machine.vars (index_of (codes "a" ∷ []) name) ≡ some (look_a name)
unfolding find_text look_a
declared_a name h = elim (Bool-cases (same_text (codes "a") name)) [
  | inl e ↦ rw e refl
  | inr e ↦ absurd (h (rw e refl))
]

tree-IsSource : IsSource tree
unfolding native_math_id_from_name native_id_from strcmp
tree-IsSource =
    ((refl, (refl, tt), omega arith, refl), ((refl, (refl, tt)), (refl, (refl, (refl, tt)))))

vm_loop-compile_expr_example :
    (s' : Compiler) × (rounds : ℕ) × (compile_expr instructions (expr_text tree ++ [])
      ≡ ok (s', []))
    × ((post : List Instruction) (k : ℕ)
        → vm_loop host (rounds + k) (s'.code ++ post) machine
          ≡ vm_loop host k
              (s'.code ++ post)
              (record machine { stack = value_int 126 ∷ []; ip = length s'.code }))
unfolding find_text same_text look_a int_add int_mul
vm_loop-compile_expr_example =
    vm_loop-compile_expr host tree instructions [] machine look_a 126 tree-IsSource
      ((λ e. cc e), (tt, tt)) (inl refl) refl declared_a refl (omega arith)

naw_compile-cases_example :
    ((s : Compiler) × (naw_compile 9 4096 (codes "print 1") ≡ ok s) × IsProgram s)
    ⊎ (((naw_compile 9 4096 (codes "print 1") ≡ undefined) × (165 ≤ 7))
        ⊎ ((naw_compile 9 4096 (codes "print 1") ≡ out_of_fuel)
            × Hangs (new_compiler 4096) (codes "print 1")))
naw_compile-cases_example = naw_compile-cases 9 4096 (codes "print 1") (omega arith)

naw_compile-Hangs_iff_example :
    ((naw_compile 10 4096 (codes "print 1\n}") ≡ out_of_fuel)
      ↔ Hangs (new_compiler 4096) (codes "print 1\n}"))
    × (Hangs (new_compiler 4096) (codes "print 1\n}")
        → (f : ℕ) → naw_compile f 4096 (codes "print 1\n}") ≡ out_of_fuel)
naw_compile-Hangs_iff_example = naw_compile-Hangs_iff 10 4096 (codes "print 1\n}") (omega arith)

-- a program without a division
abbrev small : Compiler
small = record {
  pool = 4096;
  code =
      instr op_push_int 5
      ∷ instr op_store_var 0
      ∷ instr op_load_var 0
      ∷ instr op_print 0
      ∷ instr op_halt 0
      ∷ [];
  strings = [];
  names = codes "b" ∷ [];
  loops = [];
}

compiled_small : naw_compile 10 4096 (codes "b=5\nprint b") ≡ ok small
unfolding compiled
compiled_small = refl

vm_run-naw_compile_example : vm_run host 9 small.code 0 ≢ undefined_run
vm_run-naw_compile_example =
    vm_run-naw_compile host 10 4096 9 (codes "b=5\nprint b") small 0 compiled_small
      ((λ e. cc e), ((λ e. cc e), ((λ e. cc e), ((λ e. cc e), ((λ e. cc e), tt)))))

stray_brace : code_of (codes "print 1\n}") ≡ out_of_fuel
unfolding code_of
stray_brace = refl

-- reads a number and prints it unless it is 0
abbrev forward : List Instruction
forward =
    instr op_read_int 0
    ∷ instr op_load_var 0
    ∷ instr op_jmp_if_false 5
    ∷ instr op_load_var 0
    ∷ instr op_print_int 0
    ∷ []
