-- ===== src/NawLang/Compiler/Terms.antt =====
-- apps/nawlang/compiler.c: the parser of expressions keeps within its fuel, and moves only forward.
use naw_os.Base.{
  ℕ, zero, suc, ◌+◌, ◌*◌, ◌≤◌, ◌<◌, ◌≡◌, ◌≢◌, inl, inr, refl, true, false, ◌||◌, Bool-cases,
  Option-cases, List, [], ◌==◌, length, arith,
}
use naw_os.CString.{peek, rest, is_digit}
use naw_os.NawLang.Bytecode.{
  OpCode, op_load_var, op_push_int, op_native_call, op_eq, op_ne, op_lt, op_gt, op_le, op_ge,
}
use naw_os.NawLang.Vm.Run.{is_jump}
use naw_os.NawLang.Compiler.Scan.{skip_inline_space}
use naw_os.NawLang.Compiler.Outcome.{Result, Ensures, holds, Ensures-bind, Ensures-if}
use naw_os.NawLang.Compiler.State.{Compiler, emit}
use naw_os.NawLang.Compiler.Native.{
  NativeCall, not_native, called, broken, NativeArgs, arguments, bad_arguments, native_args,
  finish_call, compile_native_math_call, native_math_id_from_name, emit_arguments,
}
use naw_os.NawLang.Compiler.Lengths.{
  IsCompare, length-rest, rest-lt, length-skip_inline_space, length-skip_char,
  read_identifier-cases, length-string_loop, length-digits_loop, length-args_end, args_end,
  compare_op-cases,
}
use naw_os.NawLang.Compiler.Extends.{
  IsTables, limit, Extends, Extends-refl, Extends-trans, emit-Extends, emit_var-Extends,
  emit_string-Extends, emit_arguments-Extends, native_math_id_from_name-lt,
}
use naw_os.NawLang.Compiler.Expression.{
  Parsed, parse_string, parse_number, string_loop, digits_loop, parse_name, parse_atom, finish_name,
  term_op, expr_op, parse_factor, parse_term, term_loop, parse_expr, expr_loop, compare_loop,
  parse_compare, compile_expr,
}

-- More code for the state `s`, and at most `n` characters are left.
abbrev pub Parses : Compiler → ℕ → Parsed → Type 0
Parses s n r = Extends s r.0 × (length r.1 ≤ n)

abbrev CallParses : Compiler → ℕ → NativeCall → Type 0
CallParses s n not_native = Unit
CallParses s n (called s' p) = Parses s n (s', p)
CallParses s n (broken p) = length p ≤ n

finish_call-Parses :
    (id : ℕ) (s : Compiler) (n : ℕ) (args : NativeArgs)
    → id < 15
    → IsTables s
    → length (args_end args) ≤ n
    → CallParses s n (finish_call id s args)
finish_call-Parses id s n (arguments args cur) h t le =
    let e = emit_arguments-Extends args s t in
    (Extends-trans e (emit-Extends op_native_call id (emit_arguments args s) refl h e.tables), le)
finish_call-Parses id s n (bad_arguments cur) h t le = le

call-Parses :
    (name src : List ℕ) (s : Compiler)
    → IsTables s
    → CallParses s (length src) (compile_native_math_call name src s)
unfolding compile_native_math_call
call-Parses name src s t = elim (Option-cases (native_math_id_from_name name)) [
  | inl e ↦ rw (e, compile_native_math_call) tt
  | inr (id, e) ↦
      let h = native_math_id_from_name-lt name id e in
      let cur = skip_inline_space src in
      let inside = skip_inline_space (rest cur) in
      let a = length-skip_inline_space src in
      let b = length-rest cur in
      let c = length-skip_inline_space (rest cur) in
      elim (Bool-cases (peek cur == b'(')) [
        | inr no_paren ↦ rw (e, compile_native_math_call, no_paren) tt
        | inl paren ↦ elim (Bool-cases (peek inside == b')')) [
          | inl empty ↦
              rw (e, compile_native_math_call, paren, empty)
                (finish_call-Parses id s (length src) (arguments [] (rest inside)) h t
                  (omega (arith, a, b, c, length-rest inside)))
          | inr full ↦
              rw (e, compile_native_math_call, paren, full)
                (finish_call-Parses id s (length src) (native_args 3 inside) h t
                  (omega (arith, a, b, c, length-args_end 3 inside)))
        ]
      ]
]

finish_name-Parses :
    (s : Compiler) (name after : List ℕ) (call : NativeCall)
    → IsTables s
    → CallParses s (length after) call
    → Parses s (length after) (finish_name s name after call)
finish_name-Parses s name after not_native t h =
    (emit_var-Extends op_load_var name s refl refl t, omega arith)
finish_name-Parses s name after (called s' p) t h = h
finish_name-Parses s name after (broken p) t h =
    (emit-Extends op_push_int 0 s refl (omega arith) t, h)

parse_name-Parses : (s : Compiler) (p : List ℕ) → IsTables s → Parses s (length p) (parse_name s p)
unfolding parse_name
parse_name-Parses s p t = elim (read_identifier-cases p) [
  | inl e ↦ rw (e, parse_name) (emit-Extends op_push_int 0 s refl (omega arith) t, omega arith)
  | inr (name, after, e, h, lt) ↦
      let (x, le) =
        finish_name-Parses s name after (compile_native_math_call name after s) t
          (call-Parses name after s t) in
      rw (e, parse_name) (x, omega (arith, le, lt))
]

parse_atom-Parses : (s : Compiler) (p : List ℕ) → IsTables s → Parses s (length p) (parse_atom s p)
unfolding parse_atom parse_string parse_number
parse_atom-Parses s p t = elim (Bool-cases (peek p == b'"')) [
  | inl e ↦
      let (a, b) = length-string_loop 127 (rest p) in
      rw e (
        emit_string-Extends (string_loop 127 (rest p)).0 s t,
        omega (arith, b, length-rest p, length-skip_char b'"' (string_loop 127 (rest p)).1),
      )
  | inr e ↦ elim (Bool-cases (is_digit (peek p))) [
    | inl d ↦
        let (a, b) = length-digits_loop 0 p (omega arith) in
        rw (e, d) (emit-Extends op_push_int (digits_loop 0 p).0 s refl a t, b)
    | inr d ↦ rw (e, d) (parse_name-Parses s p t)
  ]
]

emit_op-Parses :
    (op : OpCode) {s s' : Compiler}
    → is_jump op ≡ false
    → limit op ≡ 4294967296
    → Extends s s'
    → Extends s (emit op 0 s')
emit_op-Parses op {s'} j l e = Extends-trans e (emit-Extends op 0 s' j (omega (arith, l)) e.tables)

term_op-Extends : (c : ℕ) {s s' : Compiler} → Extends s s' → Extends s (emit (term_op c) 0 s')
term_op-Extends c e = emit_op-Parses (term_op c) (ground arith) (ground arith) e

expr_op-Extends : (c : ℕ) {s s' : Compiler} → Extends s s' → Extends s (emit (expr_op c) 0 s')
expr_op-Extends c e = emit_op-Parses (expr_op c) (ground arith) (ground arith) e

compare_op-Extends :
    (op : OpCode) {s s' : Compiler} → IsCompare op → Extends s s' → Extends s (emit op 0 s')
compare_op-Extends op_eq c e = emit_op-Parses op_eq refl refl e
compare_op-Extends op_ne c e = emit_op-Parses op_ne refl refl e
compare_op-Extends op_lt c e = emit_op-Parses op_lt refl refl e
compare_op-Extends op_gt c e = emit_op-Parses op_gt refl refl e
compare_op-Extends op_le c e = emit_op-Parses op_le refl refl e
compare_op-Extends op_ge c e = emit_op-Parses op_ge refl refl e
compare_op-Extends _ c e = absurd c

-- the character in front of which a loop goes on is there
present : (p : List ℕ) (a b : ℕ) → (peek p == a || peek p == b) ≡ true → a ≢ 0 → b ≢ 0 → peek p ≢ 0
present p a b e ha hb z = ground (arith, e, z, ha, hb)

module _ {U : Type 0} where
  then_Parses :
      {s s' : Compiler} {n m : ℕ} {r : Result Parsed}
      → Extends s s'
      → n ≤ m
      → Ensures U (Parses s' n) r
      → Ensures U (Parses s m) r
  then_Parses e le (holds (x, k)) = holds (Extends-trans e x, omega (arith, le, k))
  then_Parses e le (Ensures.overran u) = Ensures.overran u

  mutual
    unfolding parse_factor parse_term term_loop parse_expr expr_loop

    parse_factor-Ensures :
        (f : ℕ) (s : Compiler) (src : List ℕ)
        → IsTables s
        → 4 * length src < f
        → Ensures U (Parses s (length src)) (parse_factor f s src)
    parse_factor-Ensures zero s src t h = absurd (omega arith)
    parse_factor-Ensures (suc f) s src t h =
        let p = skip_inline_space src in
        let a = length-skip_inline_space src in
        Ensures-if (peek p == b'(')
          (λ e.
            let lt = rest-lt p (λ z. ground (arith, e, z)) in
            Ensures-bind (parse_expr-Ensures f s (rest p) t (omega (arith, a, lt))) λ r g. holds (
              g.0,
              omega (
                arith,
                g.1,
                a,
                lt,
                length-skip_inline_space r.1,
                length-skip_char b')' (skip_inline_space r.1),
              ),
            ))
          (λ e. let (x, le) = parse_atom-Parses s p t in holds (x, omega (arith, le, a)))

    parse_term-Ensures :
        (f : ℕ) (s : Compiler) (src : List ℕ)
        → IsTables s
        → 4 * length src + 1 < f
        → Ensures U (Parses s (length src)) (parse_term f s src)
    parse_term-Ensures zero s src t h = absurd (omega arith)
    parse_term-Ensures (suc f) s src t h =
        Ensures-bind (parse_factor-Ensures f s src t (omega arith))
          λ r g. then_Parses g.0 g.1 (term_loop-Ensures f r.0 r.1 g.0.tables (omega (arith, g.1)))

    term_loop-Ensures :
        (f : ℕ) (s : Compiler) (src : List ℕ)
        → IsTables s
        → 4 * length src < f
        → Ensures U (Parses s (length src)) (term_loop f s src)
    term_loop-Ensures zero s src t h = absurd (omega arith)
    term_loop-Ensures (suc f) s src t h =
        let p = skip_inline_space src in
        let a = length-skip_inline_space src in
        Ensures-if (peek p == b'*' || peek p == b'/')
          (λ e.
            let lt = rest-lt p (present p b'*' b'/' e (λ z. omega arith) (λ z. omega arith)) in
            Ensures-bind (parse_factor-Ensures f s (rest p) t (omega (arith, a, lt))) λ r g.
              let x = term_op-Extends (peek p) g.0 in
              then_Parses x (omega (arith, g.1, a, lt)) (
                term_loop-Ensures f (emit (term_op (peek p)) 0 r.0) r.1 x.tables
                  (omega (arith, g.1, a, lt))))
          (λ e. holds (Extends-refl s t, a))

    parse_expr-Ensures :
        (f : ℕ) (s : Compiler) (src : List ℕ)
        → IsTables s
        → 4 * length src + 2 < f
        → Ensures U (Parses s (length src)) (parse_expr f s src)
    parse_expr-Ensures zero s src t h = absurd (omega arith)
    parse_expr-Ensures (suc f) s src t h =
        Ensures-bind (parse_term-Ensures f s src t (omega arith))
          λ r g. then_Parses g.0 g.1 (expr_loop-Ensures f r.0 r.1 g.0.tables (omega (arith, g.1)))

    expr_loop-Ensures :
        (f : ℕ) (s : Compiler) (src : List ℕ)
        → IsTables s
        → 4 * length src < f
        → Ensures U (Parses s (length src)) (expr_loop f s src)
    expr_loop-Ensures zero s src t h = absurd (omega arith)
    expr_loop-Ensures (suc f) s src t h =
        let p = skip_inline_space src in
        let a = length-skip_inline_space src in
        Ensures-if (peek p == b'+' || peek p == b'-')
          (λ e.
            let lt = rest-lt p (present p b'+' b'-' e (λ z. omega arith) (λ z. omega arith)) in
            Ensures-bind (parse_term-Ensures f s (rest p) t (omega (arith, a, lt))) λ r g.
              let x = expr_op-Extends (peek p) g.0 in
              then_Parses x (omega (arith, g.1, a, lt)) (
                expr_loop-Ensures f (emit (expr_op (peek p)) 0 r.0) r.1 x.tables
                  (omega (arith, g.1, a, lt))))
          (λ e. holds (Extends-refl s t, a))

  compare_loop-Ensures :
      (f : ℕ) (s : Compiler) (src : List ℕ)
      → IsTables s
      → 4 * length src < f
      → Ensures U (Parses s (length src)) (compare_loop f s src)
  unfolding compare_loop
  compare_loop-Ensures zero s src t h = absurd (omega arith)
  compare_loop-Ensures (suc f) s src t h =
      let p = skip_inline_space src in
      let a = length-skip_inline_space src in
      elim (compare_op-cases p) [
        | inl e ↦ rw (e, compare_loop) (holds (Extends-refl s t, a))
        | inr (op, p', e, c, lt) ↦
            rw (e, compare_loop)
              (Ensures-bind (parse_expr-Ensures f s p' t (omega (arith, a, lt))) λ r g.
                let x = compare_op-Extends op c g.0 in
                then_Parses x (omega (arith, g.1, a, lt))
                  (compare_loop-Ensures f (emit op 0 r.0) r.1 x.tables (omega (arith, g.1, a, lt))))
      ]

  -- On tables in their bounds, the expression at the pointer is compiled with the fuel that
  -- `compile_expr` gives, the pointer moves only forward, and the code that is added holds no jump, no
  -- variable from 64 on and no function that is not there.
  pub compile_expr-Ensures :
      (s : Compiler) (src : List ℕ)
      → IsTables s
      → Ensures U (Parses s (length src)) (compile_expr s src)
  unfolding compile_expr parse_compare
  compile_expr-Ensures s src t =
      Ensures-bind (parse_expr-Ensures (4 * length src + 4) s src t (omega arith)) λ r g.
        then_Parses g.0 g.1
          (compare_loop-Ensures (4 * length src + 4) r.0 r.1 g.0.tables (omega (arith, g.1)))
