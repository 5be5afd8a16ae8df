-- ===== src/NawLang/Compiler/Simple.antt =====
-- apps/nawlang/compiler.c: the statements that hold no block.
use naw_os.Base.{ℕ, ◌<◌, ◌≡◌, ◌≢◌, inl, inr, refl, ap, List, ◌==◌, length, length-drop, drop, arith}
use naw_os.CString.{peek, rest}
use naw_os.NawLang.Bytecode.{op_push_int, op_print, op_read_int, op_store_var}
use naw_os.NawLang.Compiler.Scan.{skip_inline_space}
use naw_os.NawLang.Compiler.Outcome.{Ensures, holds, Ensures-bind, Ensures-if, Ensures-map}
use naw_os.NawLang.Compiler.State.{Compiler, emit}
use naw_os.NawLang.Compiler.Lengths.{
  length-rest, length-rest_sub, length-skip_inline_space, length-skip_to_line_end,
  skip_to_line_end-lt, read_identifier-cases,
}
use naw_os.NawLang.Compiler.Extends.{
  IsTables, Extends-refl, Extends-trans, emit-Extends, emit_var-Extends,
}
use naw_os.NawLang.Compiler.Terms.{Parses, compile_expr-Ensures}
use naw_os.NawLang.Compiler.Targets.{Grows, Extends-Grows}
use naw_os.NawLang.Compiler.Compiled.{IsCompiled, IsCompiled-le, Extends-IsCompiled}
use naw_os.NawLang.Compiler.Expression.{Parsed}
use naw_os.NawLang.Compiler.Statement.{
  compile_print, store_expr, compile_int, compile_read, compile_assignment,
}

-- A statement is compiled: fewer than `n` of the `whole` characters are left, the loops around it are as
-- many as before, and the code has grown.
pub record Compiles (whole : ℕ) (s : Compiler) (n : ℕ) (r : Parsed) : Type 0 where
  pub compiled : IsCompiled whole (length r.1) r.0
  pub same_depth : length r.0.loops ≡ length s.loops
  pub grows : Grows s.code r.0.code
  pub less : length r.1 < n

pub Parses-Compiles :
    (whole left n : ℕ) (s : Compiler) (r : Parsed)
    → IsCompiled whole left s
    → n < left
    → Parses s n r
    → Compiles whole s left r
Parses-Compiles whole left n s r h lt (e, le) = record {
  compiled = IsCompiled-le whole left (omega (arith, le, lt)) (Extends-IsCompiled whole left e h);
  same_depth = ap length e.loops;
  grows = Extends-Grows e;
  less = omega (arith, le, lt);
}

module _ {U : Type 0} where
  pub compile_print-Ensures :
      (s : Compiler) (src : List ℕ)
      → IsTables s
      → Ensures U (Parses s (length (rest src))) (compile_print s src)
  unfolding compile_print
  compile_print-Ensures s src t =
      let cur = skip_inline_space (drop 5 src) in
      Ensures-bind (compile_expr-Ensures s cur t) λ r g. holds (
        Extends-trans g.0 (emit-Extends op_print 0 r.0 refl (omega arith) g.0.tables),
        omega (
          arith,
          length-skip_to_line_end cur,
          length-skip_inline_space (drop 5 src),
          length-drop {0} 5 src,
          length-rest_sub src,
        ),
      )

  store_expr-Ensures :
      (name : List ℕ) (s : Compiler) (src : List ℕ)
      → IsTables s
      → Ensures U (Parses s (length src)) (store_expr name s src)
  unfolding store_expr
  store_expr-Ensures name s src t =
      Ensures-bind (compile_expr-Ensures s (skip_inline_space src) t) λ r g. holds (
        Extends-trans g.0 (emit_var-Extends op_store_var name r.0 refl refl g.0.tables),
        length-skip_to_line_end src,
      )

  pub compile_int-Ensures :
      (s : Compiler) (src : List ℕ)
      → IsTables s
      → Ensures U (Parses s (length (rest src))) (compile_int s src)
  unfolding compile_int
  compile_int-Ensures s src t =
      let cur = skip_inline_space (drop 3 src) in
      let a = length-skip_inline_space (drop 3 src) in
      let b = length-drop {0} 3 src in
      let c = length-rest_sub src in
      elim (read_identifier-cases cur) [
        | inl e ↦
            rw (e, compile_int)
              (holds (Extends-refl s t, omega (arith, a, b, c, length-skip_to_line_end cur)))
        | inr (name, after, e, short, lt) ↦
            let behind = skip_inline_space after in
            let d = length-skip_inline_space after in
            rw (e, compile_int)
              (Ensures-if (peek behind == b'=')
                (λ eq.
                  Ensures-map (store_expr-Ensures name s (rest behind) t)
                    λ r g. (g.0, omega (arith, g.1, a, b, c, d, lt, length-rest behind)))
                (λ eq.
                  let x = emit-Extends op_push_int 0 s refl (omega arith) t in
                  holds (
                    Extends-trans x (
                        emit_var-Extends op_store_var name (emit op_push_int 0 s) refl refl
                          x.tables),
                    omega (arith, a, b, c, d, lt, length-skip_to_line_end behind),
                  )))
      ]

  pub compile_read-Ensures :
      (s : Compiler) (src : List ℕ)
      → IsTables s
      → Ensures U (Parses s (length (rest src))) (compile_read s src)
  unfolding compile_read
  compile_read-Ensures s src t =
      let cur = skip_inline_space (drop 4 src) in
      let a = length-skip_inline_space (drop 4 src) in
      let b = length-drop {0} 4 src in
      let c = length-rest_sub src in
      elim (read_identifier-cases cur) [
        | inl e ↦
            rw (e, compile_read)
              (holds (Extends-refl s t, omega (arith, a, b, c, length-skip_to_line_end cur)))
        | inr (name, after, e, short, lt) ↦
            rw (e, compile_read)
              (holds (
                emit_var-Extends op_read_int name s refl refl t,
                omega (arith, a, b, c, lt, length-skip_to_line_end after),
              ))
      ]

  pub compile_assignment-Ensures :
      (s : Compiler) (src : List ℕ)
      → peek src ≢ 0
      → peek src ≢ b'\n'
      → IsTables s
      → Ensures U (Parses s (length (rest src))) (compile_assignment s src)
  unfolding compile_assignment
  compile_assignment-Ensures s src nz nl t = elim (read_identifier-cases src) [
    | inl e ↦
        rw (e, compile_assignment)
          (holds
            (Extends-refl s t, omega (arith, skip_to_line_end-lt src nz nl, length-rest_sub src)))
    | inr (name, after, e, short, lt) ↦
        let behind = skip_inline_space after in
        let d = length-skip_inline_space after in
        let c = length-rest_sub src in
        rw (e, compile_assignment)
          (Ensures-if (peek behind == b'=')
            (λ eq.
              Ensures-map (store_expr-Ensures name s (rest behind) t)
                λ r g. (g.0, omega (arith, g.1, c, d, lt, length-rest behind)))
            (λ eq.
              holds (Extends-refl s t, omega (arith, c, d, lt, length-skip_to_line_end behind))))
  ]
