-- ===== src/NawLang/Compiler/Expression.antt =====
-- apps/nawlang/compiler.c: the parser of expressions. A parser takes the pointer and returns it with the
-- new state; its fuel counts nested calls and rounds of loops.
use naw_os.Base.{
  ℕ, zero, suc, ◌+◌, ◌-◌, ◌*◌, ◌||◌, ◌&&◌, Option, none, some, List, [], ◌∷◌, ◌==◌, if◌then◌else◌,
  length, u32,
}
use naw_os.CString.{peek, rest, is_digit}
use naw_os.NawLang.Bytecode.{
  OpCode, op_push_int, op_push_str, op_load_var, op_add, op_sub, op_mul, op_div, op_eq, op_ne,
  op_lt, op_gt, op_le, op_ge,
}
use naw_os.NawLang.Compiler.Scan.{skip_inline_space, skip_char, read_identifier}
use naw_os.NawLang.Compiler.Outcome.{Result, ok, out_of_fuel, ◌>>=◌}
use naw_os.NawLang.Compiler.State.{Compiler, emit, emit_var, emit_string, max_string_len}
use naw_os.NawLang.Compiler.Native.{
  NativeCall, not_native, called, broken, compile_native_math_call,
}

abbrev pub Parsed : Type 0
Parsed = Compiler × List ℕ

-- the loop over a string literal, with the room left
unfoldable pub string_loop : ℕ → List ℕ → List ℕ × List ℕ
string_loop room [] = ([], [])
string_loop room (c ∷ s) =
    let (buf, p) = string_loop (room - 1) s in
    if c == 0 || c == b'"' || room == 0 then ([], c ∷ s) else (c ∷ buf, p)

unfoldable pub parse_string : Compiler → List ℕ → Parsed
unfolding string_loop skip_char
parse_string s p =
    let (buf, end) = string_loop (max_string_len - 1) (rest p) in
    (emit_string op_push_str buf s, skip_char b'"' end)

-- the loop over the digits; `v` wraps as the machine's 32-bit product and sum do
unfoldable pub digits_loop : ℕ → List ℕ → ℕ × List ℕ
digits_loop v [] = (v, [])
digits_loop v (c ∷ s) =
    let more = digits_loop (u32 (v * 10 + (c - b'0'))) s in if is_digit c then more else (v, c ∷ s)

unfoldable pub parse_number : Compiler → List ℕ → Parsed
unfolding digits_loop
parse_number s p = let (v, end) = digits_loop 0 p in (emit op_push_int v s, end)

abbrev pub finish_name : Compiler → List ℕ → List ℕ → NativeCall → Parsed
finish_name s name after_name not_native = (emit_var op_load_var name s, after_name)
finish_name s name after_name (called s' p) = (s', p)
finish_name s name after_name (broken p) = (emit op_push_int 0 s, p)

unfoldable pub parse_name : Compiler → List ℕ → Parsed
parse_name s p = elim (read_identifier p) [
  | none ↦ (emit op_push_int 0 s, p)
  | some (name, after_name) ↦
      finish_name s name after_name (compile_native_math_call name after_name s)
]

abbrev pub close_paren : Parsed → Result Parsed
close_paren (s, p) = ok (s, skip_char b')' (skip_inline_space p))

-- a factor other than one in parentheses
unfoldable pub parse_atom : Compiler → List ℕ → Parsed
parse_atom s p =
    if peek p == b'"'
    then parse_string s p
    else (if is_digit (peek p) then parse_number s p else parse_name s p)

abbrev pub term_op : ℕ → OpCode
term_op c = if c == b'*' then op_mul else op_div

abbrev pub expr_op : ℕ → OpCode
expr_op c = if c == b'+' then op_add else op_sub

unfoldable mutual
  pub parse_factor : ℕ → Compiler → List ℕ → Result Parsed
  parse_factor zero s src = out_of_fuel
  parse_factor (suc f) s src =
      let p = skip_inline_space src in
      let inside = parse_expr f s (rest p) >>= close_paren in
      if peek p == b'(' then inside else ok (parse_atom s p)

  pub parse_term : ℕ → Compiler → List ℕ → Result Parsed
  parse_term zero s src = out_of_fuel
  parse_term (suc f) s src = parse_factor f s src >>= λ r. term_loop f r.0 r.1

  pub term_loop : ℕ → Compiler → List ℕ → Result Parsed
  term_loop zero s src = out_of_fuel
  term_loop (suc f) s src =
      let p = skip_inline_space src in
      let more =
        parse_factor f s (rest p) >>= λ r. term_loop f (emit (term_op (peek p)) 0 r.0) r.1 in
      if peek p == b'*' || peek p == b'/' then more else ok (s, p)

  pub parse_expr : ℕ → Compiler → List ℕ → Result Parsed
  parse_expr zero s src = out_of_fuel
  parse_expr (suc f) s src = parse_term f s src >>= λ r. expr_loop f r.0 r.1

  pub expr_loop : ℕ → Compiler → List ℕ → Result Parsed
  expr_loop zero s src = out_of_fuel
  expr_loop (suc f) s src =
      let p = skip_inline_space src in
      let more = parse_term f s (rest p) >>= λ r. expr_loop f (emit (expr_op (peek p)) 0 r.0) r.1 in
      if peek p == b'+' || peek p == b'-' then more else ok (s, p)

-- the tests of `parse_compare` in their order, with the pointer behind the operator
unfoldable pub compare_op : List ℕ → Option (OpCode × List ℕ)
compare_op p =
    let c = peek p in
    let eq = peek (rest p) == b'=' in
    if c == b'=' && eq
    then some (op_eq, rest (rest p))
    else (if c == b'!' && eq
        then some (op_ne, rest (rest p))
        else (if c == b'<' && eq
            then some (op_le, rest (rest p))
            else (if c == b'>' && eq
                then some (op_ge, rest (rest p))
                else (if c == b'<'
                    then some (op_lt, rest p)
                    else (if c == b'>' then some (op_gt, rest p) else none)))))

unfoldable pub compare_loop : ℕ → Compiler → List ℕ → Result Parsed
compare_loop zero s src = out_of_fuel
compare_loop (suc f) s src =
    let p = skip_inline_space src in
    elim (compare_op p) [
      | none ↦ ok (s, p)
      | some (op, p') ↦ parse_expr f s p' >>= λ r. compare_loop f (emit op 0 r.0) r.1
    ]

unfoldable pub parse_compare : ℕ → Compiler → List ℕ → Result Parsed
parse_compare fuel s src = parse_expr fuel s src >>= λ r. compare_loop fuel r.0 r.1

-- The pointer is returned too: it is the `p` that `compile_while` reads.
unfoldable pub compile_expr : Compiler → List ℕ → Result Parsed
compile_expr s expr = parse_compare (4 * length expr + 4) s expr
