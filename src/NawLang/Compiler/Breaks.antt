-- ===== src/NawLang/Compiler/Breaks.antt =====
-- apps/nawlang/compiler.c: `break`, `continue`, and the choice between the simple statements.
use naw_os.Base.{
  ℕ, suc, ◌≤◌, ◌<◌, ◌≡◌, ◌≢◌, refl, sym, ap, subst, true, List, [], ◌∷◌, leb, length, All, arith,
}
use naw_os.CString.{peek, rest}
use naw_os.NawLang.Bytecode.{op_jmp}
use naw_os.NawLang.Compiler.Scan.{codes, match_keyword, skip_to_line_end, is_ident_start}
use naw_os.NawLang.Compiler.Outcome.{Result, Ensures, holds, overran, Ensures-if, Ensures-map}
use naw_os.NawLang.Compiler.State.{LoopContext, Compiler, ip, emit}
use naw_os.NawLang.Compiler.Lengths.{length-rest_sub, skip_to_line_end-lt, skip_keyword, rest-lt}
use naw_os.NawLang.Compiler.Extends.{Extends-refl}
use naw_os.NawLang.Compiler.Terms.{Parses}
use naw_os.NawLang.Compiler.Targets.{emit-Grows, emit-jump_at, IsTables-code, jumps_kept}
use naw_os.NawLang.Compiler.Compiled.{IsLoop, IsCompiled, IsLoop-Grows, emit_jump-IsCompiled}
use naw_os.NawLang.Compiler.Expression.{Parsed}
use naw_os.NawLang.Compiler.Statement.{
  compile_break, compile_continue, break_in, continue_in, compile_simple,
}
use naw_os.NawLang.Compiler.Simple.{
  Compiles, Parses-Compiles, compile_print-Ensures, compile_int-Ensures, compile_read-Ensures,
  compile_assignment-Ensures,
}

-- A jump is emitted in the innermost loop, whose jumps become those of `ctx'`.
jump-Compiles :
    (whole left n arg : ℕ) (s : Compiler) (ctx' : LoopContext) (outer : List LoopContext)
    (p : List ℕ)
    → IsCompiled whole left s
    → suc (length outer) ≡ length s.loops
    → length p < n
    → n ≤ left
    → arg ≤ ip s
    → IsLoop whole (length p) (emit op_jmp arg s).code ctx'
    → All (IsLoop whole left s.code) outer
    → Compiles whole s n (emit op_jmp arg (record s { loops = ctx' ∷ outer }), p)
unfolding emit
jump-Compiles whole left n arg s ctx' outer p h d lt le a l o =
    let e = emit_jump-IsCompiled whole left op_jmp arg s refl a h in
    record {
      compiled = record {
        tables = IsTables-code (emit op_jmp arg s).code (ctx' ∷ outer) h.tables;
        safe = e.safe;
        depth = omega (arith, h.depth, d);
        each =
            (l, IsLoop-Grows whole left outer (omega (arith, lt, le)) (emit-Grows op_jmp arg s) o);
        within = omega (arith, h.within, lt, le);
      };
      same_depth = d;
      grows = emit-Grows op_jmp arg s;
      less = lt;
    }

module _ (whole : ℕ) (s : Compiler) (src : List ℕ) (h : IsCompiled whole (length src) s) where
  break_in-Ensures :
      (l : List LoopContext)
      → s.loops ≡ l
      → match_keyword src (codes "break") ≡ true
      → Ensures (165 ≤ whole) (Compiles whole s (length src)) (break_in l s src)
  unfolding break_in
  break_in-Ensures [] e m =
      let k = skip_keyword src (codes "break") (ground arith) m in
      holds (
        Parses-Compiles whole (length src) (length (skip_to_line_end src)) s
          (s, skip_to_line_end src) h (omega (arith, k)) (Extends-refl s h.tables, omega arith))
  break_in-Ensures (ctx ∷ outer) e m =
      let k = skip_keyword src (codes "break") (ground arith) m in
      let each = subst (λ l. All (IsLoop whole (length src) s.code) l) e h.each in
      let l = each.0 in
      let g = emit-Grows op_jmp 0 s in
      Ensures-if (leb 32 (length ctx.break_jumps))
        (λ full. overran (ground (arith, full, l.few_breaks, k)))
        (λ room. holds (
          jump-Compiles whole (length src) (length src) 0 s
            (record ctx { break_jumps = ip s ∷ ctx.break_jumps }) outer (skip_to_line_end src) h
            (ap length (sym e)) (omega (arith, k)) (omega arith) (omega arith)
            (record {
              start = omega (arith, l.start, g.longer);
              breaks = (emit-jump_at op_jmp 0 s refl, jumps_kept g ctx.break_jumps l.breaks);
              continues = jumps_kept g ctx.continue_jumps l.continues;
              few_breaks = omega (arith, l.few_breaks, k);
              few_continues = omega (arith, l.few_continues, k);
            })
            each.1))

  compile_break-Ensures :
      match_keyword src (codes "break") ≡ true
      → Ensures (165 ≤ whole) (Compiles whole s (length src)) (compile_break s src)
  unfolding compile_break
  compile_break-Ensures m = break_in-Ensures s.loops refl m

  continue_in-Ensures :
      (l : List LoopContext)
      → s.loops ≡ l
      → match_keyword src (codes "continue") ≡ true
      → Ensures (165 ≤ whole) (Compiles whole s (length src)) (continue_in l s src)
  unfolding continue_in
  continue_in-Ensures [] e m =
      let k = skip_keyword src (codes "continue") (ground arith) m in
      holds (
        Parses-Compiles whole (length src) (length (skip_to_line_end src)) s
          (s, skip_to_line_end src) h (omega (arith, k)) (Extends-refl s h.tables, omega arith))
  continue_in-Ensures (ctx ∷ outer) e m =
      let k = skip_keyword src (codes "continue") (ground arith) m in
      let each = subst (λ l. All (IsLoop whole (length src) s.code) l) e h.each in
      let l = each.0 in
      let g = emit-Grows op_jmp ctx.loop_start s in
      Ensures-if (leb 32 (length ctx.continue_jumps))
        (λ full. overran (ground (arith, full, l.few_continues, k)))
        (λ room. holds (
          jump-Compiles whole (length src) (length src) ctx.loop_start s
            (record ctx { continue_jumps = ip s ∷ ctx.continue_jumps }) outer (skip_to_line_end src)
            h (ap length (sym e)) (omega (arith, k)) (omega arith) l.start
            (record {
              start = omega (arith, l.start, g.longer);
              breaks = jumps_kept g ctx.break_jumps l.breaks;
              continues = (
                emit-jump_at op_jmp ctx.loop_start s refl,
                jumps_kept g ctx.continue_jumps l.continues,
              );
              few_breaks = omega (arith, l.few_breaks, k);
              few_continues = omega (arith, l.few_continues, k);
            })
            each.1))

  compile_continue-Ensures :
      match_keyword src (codes "continue") ≡ true
      → Ensures (165 ≤ whole) (Compiles whole s (length src)) (compile_continue s src)
  unfolding compile_continue
  compile_continue-Ensures m = continue_in-Ensures s.loops refl m

  pub compile_simple-Ensures :
      peek src ≢ 0
      → peek src ≢ b'\n'
      → Ensures (165 ≤ whole) (Compiles whole s (length src)) (compile_simple s src)
  unfolding compile_simple
  compile_simple-Ensures nz nl =
      Ensures-if (match_keyword src (codes "print"))
        (λ e. parsed (compile_print-Ensures s src h.tables))
        (λ e. Ensures-if (match_keyword src (codes "break")) compile_break-Ensures (λ e.
          Ensures-if (match_keyword src (codes "continue")) compile_continue-Ensures (λ e.
            Ensures-if (match_keyword src (codes "int"))
              (λ e. parsed (compile_int-Ensures s src h.tables))
              (λ e.
                Ensures-if (match_keyword src (codes "read"))
                  (λ e. parsed (compile_read-Ensures s src h.tables))
                  (λ e.
                    Ensures-if (is_ident_start (peek src))
                      (λ e. parsed (compile_assignment-Ensures s src nz nl h.tables))
                      (λ e. parsed (holds (Extends-refl s h.tables, skipped))))))))
    where
      shorter : length (rest src) < length src
      shorter = rest-lt src nz

      skipped : length (skip_to_line_end src) ≤ length (rest src)
      skipped = omega (arith, skip_to_line_end-lt src nz nl, length-rest_sub src)

      parsed :
          {r : Result Parsed}
          → Ensures (165 ≤ whole) (Parses s (length (rest src))) r
          → Ensures (165 ≤ whole) (Compiles whole s (length src)) r
      parsed e =
          Ensures-map e
            λ r g. Parses-Compiles whole (length src) (length (rest src)) s r h shorter g
