-- ===== src/NawLang/Compiler/Statement.antt =====
-- apps/nawlang/compiler.c: statements, blocks and the whole program.
use naw_os.Base.{
  ℕ, zero, suc, ◌+◌, ◌*◌, ◌||◌, not, none, some, List, [], ◌∷◌, leb, ◌==◌, if◌then◌else◌, length,
  drop,
}
use naw_os.CString.{peek, rest}
use naw_os.NawLang.Bytecode.{
  op_push_int, op_print, op_read_int, op_store_var, op_jmp, op_jmp_if_false, op_halt,
}
use naw_os.NawLang.Compiler.Scan.{
  codes, match_keyword, skip_inline_space, skip_whitespace, skip_to_line_end, skip_to_paren,
  skip_char, read_identifier, is_ident_start,
}
use naw_os.NawLang.Compiler.Outcome.{Result, ok, undefined, out_of_fuel, ◌>>=◌}
use naw_os.NawLang.Compiler.State.{
  LoopContext, Compiler, ip, emit, emit_var, set_target, set_targets, max_loop_depth, max_jumps,
}
use naw_os.NawLang.Compiler.Expression.{Parsed, compile_expr}

-- compiles the expression at the pointer and leaves the pointer, as `compile_expr(src, code, ip)` does
unfoldable pub compile_print : Compiler → List ℕ → Result Parsed
compile_print s src =
    let cur = skip_inline_space (drop 5 src) in
    compile_expr s cur >>= λ r. ok (emit op_print 0 r.0, skip_to_line_end cur)

-- with the loops around the statement
unfoldable pub break_in : List LoopContext → Compiler → List ℕ → Result Parsed
break_in [] s src = ok (s, skip_to_line_end src)
break_in (ctx ∷ outer) s src =
    if leb max_jumps (length ctx.break_jumps)
    then undefined
    else ok (
      emit op_jmp 0
          (record s { loops = record ctx { break_jumps = ip s ∷ ctx.break_jumps } ∷ outer }),
      skip_to_line_end src,
    )

unfoldable pub compile_break : Compiler → List ℕ → Result Parsed
unfolding break_in
compile_break s src = break_in s.loops s src

-- with the loops around the statement
unfoldable pub continue_in : List LoopContext → Compiler → List ℕ → Result Parsed
continue_in [] s src = ok (s, skip_to_line_end src)
continue_in (ctx ∷ outer) s src =
    if leb max_jumps (length ctx.continue_jumps)
    then undefined
    else ok (
      emit op_jmp ctx.loop_start
          (record s { loops = record ctx { continue_jumps = ip s ∷ ctx.continue_jumps } ∷ outer }),
      skip_to_line_end src,
    )

unfoldable pub compile_continue : Compiler → List ℕ → Result Parsed
unfolding continue_in
compile_continue s src = continue_in s.loops s src

-- the value behind `=`, and the variable
unfoldable pub store_expr : List ℕ → Compiler → List ℕ → Result Parsed
store_expr name s src = compile_expr s (skip_inline_space src) >>= λ r.
    ok (emit_var op_store_var name r.0, skip_to_line_end src)

unfoldable pub compile_int : Compiler → List ℕ → Result Parsed
compile_int s src =
    let cur = skip_inline_space (drop 3 src) in
    elim (read_identifier cur) [
      | none ↦ ok (s, skip_to_line_end cur)
      | some (name, after) ↦
          let behind = skip_inline_space after in
          if peek behind == b'='
          then store_expr name s (rest behind)
          else ok (emit_var op_store_var name (emit op_push_int 0 s), skip_to_line_end behind)
    ]

unfoldable pub compile_read : Compiler → List ℕ → Result Parsed
compile_read s src =
    let cur = skip_inline_space (drop 4 src) in
    elim (read_identifier cur) [
      | none ↦ ok (s, skip_to_line_end cur)
      | some (name, after) ↦ ok (emit_var op_read_int name s, skip_to_line_end after)
    ]

unfoldable pub compile_assignment : Compiler → List ℕ → Result Parsed
compile_assignment s src = elim (read_identifier src) [
  | none ↦ ok (s, skip_to_line_end src)
  | some (name, after) ↦
      let behind = skip_inline_space after in
      if peek behind == b'='
      then store_expr name s (rest behind)
      else ok (s, skip_to_line_end behind)
]

-- The statements that hold no block, tested in the order of `compile_statement`.
unfoldable pub compile_simple : Compiler → List ℕ → Result Parsed
compile_simple s src =
    if match_keyword src (codes "print")
    then compile_print s src
    else (if match_keyword src (codes "break")
        then compile_break s src
        else (if match_keyword src (codes "continue")
            then compile_continue s src
            else (if match_keyword src (codes "int")
                then compile_int s src
                else (if match_keyword src (codes "read")
                    then compile_read s src
                    else (if is_ident_start (peek src)
                        then compile_assignment s src
                        else ok (s, skip_to_line_end src))))))

abbrev pub Compile : Type 0
Compile = Compiler → List ℕ → Result Parsed

-- from the condition on, the pointer behind its `(`
abbrev pub after_condition : List ℕ → List ℕ
after_condition src = skip_char b')' (skip_to_paren src)

-- behind the block of an `if`, whose jump stands at `jmp_false`
unfoldable pub compile_else : Compile → ℕ → Parsed → Result Parsed
compile_else block jmp_false (s, src) =
    let cur = skip_whitespace src in
    let jmp_end = ip s in
    let s' = emit op_jmp 0 s in
    let other = block (set_target jmp_false (ip s') s') (drop 4 cur) >>= λ r.
    ok (set_target jmp_end (ip r.0) r.0, r.1) in
    if match_keyword cur (codes "else") then other else ok (set_target jmp_false (ip s) s, cur)

unfoldable pub compile_if : Compile → Compiler → List ℕ → Result Parsed
compile_if block s src =
    let cur = skip_inline_space (drop 2 src) in
    let branch = compile_expr s (rest cur) >>= λ r.
    block (emit op_jmp_if_false 0 r.0) (after_condition (rest cur)) >>= λ q.
    compile_else block (ip r.0) q in
    if peek cur == b'(' then branch else ok (s, skip_to_line_end cur)

abbrev pub enter_loop : Compiler → Compiler
enter_loop s = record s {
  loops = record { loop_start = ip s; break_jumps = []; continue_jumps = [] } ∷ s.loops;
}

-- behind the block of a `while`: the jump back, and the targets of the jumps out of the loop and of
-- those to its start
unfoldable pub leave_in : List LoopContext → ℕ → Compiler → Compiler
leave_in [] jmp_exit s = s
leave_in (ctx ∷ outer) jmp_exit s =
    let s' = record (emit op_jmp ctx.loop_start s) { loops = outer } in
    set_target jmp_exit (ip s')
      (set_targets ctx.continue_jumps ctx.loop_start (set_targets ctx.break_jumps (ip s') s'))

unfoldable pub leave_loop : ℕ → Compiler → Compiler
unfolding leave_in
leave_loop jmp_exit s = leave_in s.loops jmp_exit s

unfoldable pub compile_while : Compile → Compiler → List ℕ → Result Parsed
compile_while block s src =
    let cur = skip_inline_space (drop 5 src) in
    let loop = compile_expr (enter_loop s) (rest cur) >>= λ r.
    block (emit op_jmp_if_false 0 r.0) (after_condition r.1) >>= λ q.
    ok (leave_loop (ip r.0) q.0, q.1) in
    if not (peek cur == b'(')
    then ok (s, skip_to_line_end cur)
    else (if leb max_loop_depth (length s.loops) then ok (s, skip_to_line_end (rest cur)) else loop)

unfoldable mutual
  pub compile_statement : ℕ → Compiler → List ℕ → Result Parsed
  compile_statement zero s src = out_of_fuel
  compile_statement (suc f) s src =
      let cur = skip_whitespace src in
      if peek cur == 0 || peek cur == b'}'
      then ok (s, cur)
      else (if match_keyword cur (codes "if")
          then compile_if (compile_block f) s cur
          else (if match_keyword cur (codes "while")
              then compile_while (compile_block f) s cur
              else compile_simple s cur))

  pub compile_block : ℕ → Compiler → List ℕ → Result Parsed
  compile_block zero s src = out_of_fuel
  compile_block (suc f) s src =
      let cur = skip_whitespace src in
      let inside = block_loop f s (rest cur) in if peek cur == b'{' then inside else ok (s, cur)

  pub block_loop : ℕ → Compiler → List ℕ → Result Parsed
  block_loop zero s src = out_of_fuel
  block_loop (suc f) s src =
      let more = compile_statement f s src >>= λ r. block_loop f r.0 (skip_whitespace r.1) in
      if peek src == 0 || peek src == b'}' then ok (s, skip_char b'}' src) else more

-- The loop of `naw_compile`, with the rounds left.
unfoldable pub compile_lines : ℕ → Compiler → List ℕ → Result Compiler
compile_lines zero s line = out_of_fuel
compile_lines (suc f) s line =
    let more = compile_statement (2 * length line + 1) s line >>= λ r.
    compile_lines f r.0 (skip_whitespace r.1) in
    if peek line == 0 then ok (emit op_halt 0 s) else more

abbrev pub new_compiler : ℕ → Compiler
new_compiler pool = record { pool = pool; code = []; strings = []; names = []; loops = [] }

unfoldable pub naw_compile : ℕ → ℕ → List ℕ → Result Compiler
naw_compile fuel pool src = compile_lines fuel (new_compiler pool) src
