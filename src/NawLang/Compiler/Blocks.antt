-- ===== src/NawLang/Compiler/Blocks.antt =====
-- apps/nawlang/compiler.c: `if`, `while` and blocks.
use naw_os.Base.{
  ℕ, zero, suc, ◌+◌, ◌*◌, ◌≤◌, ◌<◌, ◌≡◌, ◌≢◌, ◌∙◌, inl, inr, refl, ap, subst, true, ◌||◌, not, List,
  [], ◌∷◌, ◌==◌, leb, length, length-drop, drop, All, arith,
}
use naw_os.CString.{peek, rest}
use naw_os.NawLang.Bytecode.{op_jmp, op_jmp_if_false}
use naw_os.NawLang.Compiler.Scan.{
  codes, match_keyword, skip_inline_space, skip_whitespace, skip_to_line_end, skip_char,
}
use naw_os.NawLang.Compiler.Outcome.{Result, Ensures, holds, Ensures-bind, Ensures-if, Ensures-map}
use naw_os.NawLang.Compiler.State.{LoopContext, Compiler, ip, emit, set_target, set_targets}
use naw_os.NawLang.Compiler.Lengths.{
  length-rest, rest-lt, length-skip_inline_space, length-skip_to_line_end, length-skip_whitespace,
  skip_whitespace-cases, skip_whitespace-peek, length-skip_char, length-after_condition,
}
use naw_os.NawLang.Compiler.Extends.{Extends-refl}
use naw_os.NawLang.Compiler.Terms.{compile_expr-Ensures}
use naw_os.NawLang.Compiler.Targets.{
  Grows, Grows-refl, Grows-trans, Extends-Grows, emit-Grows, emit-jump_at, jump_at, IsTables-code,
  jumps_kept, set_target-Grows, set_targets-Grows,
}
use naw_os.NawLang.Compiler.Compiled.{
  IsLoop, IsCompiled, IsLoop-Grows, IsCompiled-le, Extends-IsCompiled, emit_jump-IsCompiled,
  set_target-IsCompiled, set_targets-IsCompiled,
}
use naw_os.NawLang.Compiler.Simple.{Compiles, Parses-Compiles}
use naw_os.NawLang.Compiler.Breaks.{compile_simple-Ensures}
use naw_os.NawLang.Compiler.Expression.{Parsed}
use naw_os.NawLang.Compiler.Statement.{
  Compile, after_condition, compile_else, compile_if, enter_loop, leave_in, leave_loop,
  compile_while, compile_statement, compile_block, block_loop,
}

-- A later part is compiled from the state `s1`, which has the loops of `s` and more code.
Compiles-after :
    {whole m n : ℕ} {s s1 : Compiler} {q : Parsed}
    → length s1.loops ≡ length s.loops
    → Grows s.code s1.code
    → m ≤ n
    → Compiles whole s1 m q
    → Compiles whole s n q
Compiles-after d g le c = record {
  compiled = c.compiled;
  same_depth = c.same_depth ∙ d;
  grows = Grows-trans g c.grows;
  less = omega (arith, c.less, le);
}

loops-emit : (k t : ℕ) (s : Compiler) → (set_target k t s).loops ≡ s.loops
unfolding set_target
loops-emit k t s = refl

loops-set_targets : (ks : List ℕ) (t : ℕ) (s : Compiler) → (set_targets ks t s).loops ≡ s.loops
unfolding set_targets
loops-set_targets [] t s = refl
loops-set_targets (k ∷ ks) t s = loops-emit k t (set_targets ks t s) ∙ loops-set_targets ks t s

loops-emit_op : (t : ℕ) (s : Compiler) → (emit op_jmp t s).loops ≡ s.loops
unfolding emit
loops-emit_op t s = refl

loops-emit_exit : (s : Compiler) → (emit op_jmp_if_false 0 s).loops ≡ s.loops
unfolding emit
loops-emit_exit s = refl

module _ (whole : ℕ) where
  -- `block` compiles any text shorter than `n`.
  abbrev IsBlock : ℕ → Compile → Type 0
  IsBlock n block =
      (s : Compiler) (src : List ℕ)
      → length src < n
      → IsCompiled whole (length src) s
      → Ensures (165 ≤ whole) (Compiles whole s (suc (length src))) (block s src)

  set_target-Compiles :
      (n k t : ℕ) (s : Compiler) (p : List ℕ)
      → jump_at s.code k ≡ true
      → t ≤ ip s
      → length p < n
      → IsCompiled whole (length p) s
      → Compiles whole s n (set_target k t s, p)
  set_target-Compiles n k t s p j le lt h = record {
    compiled = set_target-IsCompiled whole (length p) k t s j le h;
    same_depth = ap length (loops-emit k t s);
    grows = set_target-Grows k t s;
    less = lt;
  }

  compile_else-Ensures :
      (n : ℕ) (block : Compile) (k : ℕ) (s : Compiler) (src : List ℕ)
      → IsBlock n block
      → length src < n
      → jump_at s.code k ≡ true
      → IsCompiled whole (length src) s
      → Ensures (165 ≤ whole) (Compiles whole s (suc (length src))) (compile_else block k (s, src))
  unfolding compile_else
  compile_else-Ensures n block k s src b lt j h =
      let cur = skip_whitespace src in
      let le = length-skip_whitespace src in
      let s1 = emit op_jmp 0 s in
      let h1 =
        emit_jump-IsCompiled whole (length (drop 4 cur)) op_jmp 0 s refl (omega arith)
          (IsCompiled-le whole (length src) (omega (arith, le, length-drop {0} 4 cur)) h) in
      let g1 = emit-Grows op_jmp 0 s in
      let h2 =
        set_target-IsCompiled whole (length (drop 4 cur)) k (ip s1) s1 (g1.kept k j) (omega arith)
          h1 in
      let g2 = Grows-trans g1 (set_target-Grows k (ip s1) s1) in
      let d2 = ap length (loops-emit k (ip s1) s1 ∙ loops-emit_op 0 s) in
      Ensures-if (match_keyword cur (codes "else"))
        (λ e.
          Ensures-bind
            (b (set_target k (ip s1) s1) (drop 4 cur) (omega (arith, lt, le, length-drop {0} 4 cur))
              h2)
            λ r c. holds (
              Compiles-after (c.same_depth ∙ d2) (Grows-trans g2 c.grows) (omega arith) (
                set_target-Compiles (suc (length src)) (ip s) (ip r.0) r.0 r.1
                  (c.grows.kept (ip s)
                    ((set_target-Grows k (ip s1) s1).kept (ip s) (emit-jump_at op_jmp 0 s refl)))
                  (omega arith) (omega (arith, c.less, le, length-drop {0} 4 cur)) c.compiled)))
        (λ e. holds (
          set_target-Compiles (suc (length src)) k (ip s) s cur j (omega arith) (omega (arith, le))
            (IsCompiled-le whole (length src) le h)))

  -- the jump over a block, and the block
  guarded-Ensures :
      (n left : ℕ) (block : Compile) (s : Compiler) (src : List ℕ)
      → IsBlock n block
      → length src < n
      → length src ≤ left
      → IsCompiled whole left s
      → Ensures
          (165 ≤ whole)
          (λ q.
            Compiles whole (emit op_jmp_if_false 0 s) (suc (length src)) q
            × (jump_at q.0.code (ip s) ≡ true))
          (block (emit op_jmp_if_false 0 s) src)
  guarded-Ensures n left block s src b lt le h =
      let h1 =
        emit_jump-IsCompiled whole (length src) op_jmp_if_false 0 s refl (omega arith)
          (IsCompiled-le whole left le h) in
      Ensures-map (b (emit op_jmp_if_false 0 s) src lt h1)
        λ q c. (c, c.grows.kept (ip s) (emit-jump_at op_jmp_if_false 0 s refl))

  skipped-Compiles :
      (s : Compiler) (src p : List ℕ)
      → IsCompiled whole (length src) s
      → length p < length src
      → Compiles whole s (length src) (s, p)
  skipped-Compiles s src p h lt =
      Parses-Compiles whole (length src) (length p) s (s, p) h lt
        (Extends-refl s h.tables, omega arith)

  compile_if-Ensures :
      (block : Compile) (s : Compiler) (src : List ℕ)
      → IsBlock (length src) block
      → peek src ≢ 0
      → IsCompiled whole (length src) s
      → Ensures (165 ≤ whole) (Compiles whole s (length src)) (compile_if block s src)
  unfolding compile_if
  compile_if-Ensures block s src b nz h =
      let cur = skip_inline_space (drop 2 src) in
      let a = length-skip_inline_space (drop 2 src) in
      let d = length-drop {0} 2 src in
      let lt = rest-lt src nz in
      let inside = length-rest cur in
      let cond = length-after_condition (rest cur) in
      Ensures-if (peek cur == b'(')
        (λ e. Ensures-bind (compile_expr-Ensures s (rest cur) h.tables) λ r g.
          let h1 = Extends-IsCompiled whole (length src) g.0 h in
          Ensures-bind
            (guarded-Ensures (length src) (length src) block r.0 (after_condition (rest cur)) b
              (omega (arith, a, d, lt, inside, cond)) (omega (arith, a, d, inside, cond)) h1)
            λ q c.
              Ensures-map
                (compile_else-Ensures (length src) block (ip r.0) q.0 q.1 b
                  (omega (arith, c.0.less, a, d, lt, inside, cond)) c.1 c.0.compiled)
                λ x y.
                  Compiles-after (c.0.same_depth ∙ ap length (loops-emit_exit r.0 ∙ g.0.loops))
                    (Grows-trans (Extends-Grows g.0)
                      (Grows-trans (emit-Grows op_jmp_if_false 0 r.0) c.0.grows))
                    (omega (arith, c.0.less, a, d, lt, inside, cond)) y)
        (λ e. holds (
          skipped-Compiles s src (skip_to_line_end cur) h
            (omega (arith, a, d, lt, length-skip_to_line_end cur))))

  enter_loop-IsCompiled :
      (left : ℕ) (s : Compiler)
      → length s.loops < 8
      → IsCompiled whole left s
      → IsCompiled whole left (enter_loop s)
  enter_loop-IsCompiled left s lt h = record {
    tables = IsTables-code s.code (enter_loop s).loops h.tables;
    safe = h.safe;
    depth = omega (arith, lt);
    each = (
      record {
        start = omega arith;
        breaks = tt;
        continues = tt;
        few_breaks = omega (arith, h.within);
        few_continues = omega (arith, h.within);
      },
      h.each,
    );
    within = h.within;
  }

  -- A loop that is left sets its jumps, and the loops around it stay.
  leave_in-IsCompiled :
      (l : List LoopContext) (left k d : ℕ) (s : Compiler)
      → s.loops ≡ l
      → length l ≡ suc d
      → jump_at s.code k ≡ true
      → IsCompiled whole left s
      → IsCompiled whole left (leave_in l k s)
        × (length (leave_in l k s).loops ≡ d)
        × Grows s.code (leave_in l k s).code
  unfolding leave_in
  leave_in-IsCompiled [] left k d s e len j h = absurd (omega arith)
  leave_in-IsCompiled (ctx ∷ outer) left k d s e len j h =
      let each = subst (λ l. All (IsLoop whole left s.code) l) e h.each in
      let l = each.0 in
      let s0 = emit op_jmp ctx.loop_start s in
      let g0 = emit-Grows op_jmp ctx.loop_start s in
      let h0 = emit_jump-IsCompiled whole left op_jmp ctx.loop_start s refl l.start h in
      let s1 : Compiler = record s0 { loops = outer } in
      let h1 : IsCompiled whole left s1 = record {
        tables = IsTables-code s0.code outer h0.tables;
        safe = h0.safe;
        depth = omega (arith, h.depth, ap length e);
        each = IsLoop-Grows whole left outer (omega arith) g0 each.1;
        within = h.within;
      } in
      let s2 = set_targets ctx.break_jumps (ip s1) s1 in
      let g2 = set_targets-Grows ctx.break_jumps (ip s1) s1 in
      let h2 =
        set_targets-IsCompiled whole left ctx.break_jumps (ip s1) s1
          (jumps_kept g0 ctx.break_jumps l.breaks) (omega arith) h1 in
      let s3 = set_targets ctx.continue_jumps ctx.loop_start s2 in
      let g3 = set_targets-Grows ctx.continue_jumps ctx.loop_start s2 in
      let h3 =
        set_targets-IsCompiled whole left ctx.continue_jumps ctx.loop_start s2
          (jumps_kept (Grows-trans g0 g2) ctx.continue_jumps l.continues)
          (omega (arith, l.start, g0.longer, g2.longer)) h2 in
      (
        set_target-IsCompiled whole left k (ip s1) s3 (g3.kept k (g2.kept k (g0.kept k j)))
            (omega (arith, g2.longer, g3.longer)) h3,
        ap length (
              loops-emit k (ip s1) s3
              ∙ loops-set_targets ctx.continue_jumps ctx.loop_start s2
              ∙ loops-set_targets ctx.break_jumps (ip s1) s1)
            ∙ omega (arith, len),
        Grows-trans g0 (Grows-trans g2 (Grows-trans g3 (set_target-Grows k (ip s1) s3))),
      )

  compile_while-Ensures :
      (block : Compile) (s : Compiler) (src : List ℕ)
      → IsBlock (length src) block
      → peek src ≢ 0
      → IsCompiled whole (length src) s
      → Ensures (165 ≤ whole) (Compiles whole s (length src)) (compile_while block s src)
  unfolding compile_while leave_loop
  compile_while-Ensures block s src b nz h =
      let cur = skip_inline_space (drop 5 src) in
      let a = length-skip_inline_space (drop 5 src) in
      let d = length-drop {0} 5 src in
      let lt = rest-lt src nz in
      let inside = length-rest cur in
      Ensures-if (not (peek cur == b'('))
        (λ e. holds (
          skipped-Compiles s src (skip_to_line_end cur) h
            (omega (arith, a, d, lt, length-skip_to_line_end cur))))
        (λ e.
          Ensures-if (leb 8 (length s.loops))
            (λ deep. holds (
              skipped-Compiles s src (skip_to_line_end (rest cur)) h
                (omega (arith, a, d, lt, inside, length-skip_to_line_end (rest cur)))))
            (λ room.
              let h0 = enter_loop-IsCompiled (length src) s (ground (arith, room)) h in
              Ensures-bind (compile_expr-Ensures (enter_loop s) (rest cur) h0.tables) λ r g.
                let cond = length-after_condition r.1 in
                let h1 = Extends-IsCompiled whole (length src) g.0 h0 in
                Ensures-bind
                  (guarded-Ensures (length src) (length src) block r.0 (after_condition r.1) b
                    (omega (arith, a, d, lt, inside, cond, g.1))
                    (omega (arith, a, d, inside, cond, g.1)) h1)
                  λ q c.
                    let (compiled, depth, grown) =
                      leave_in-IsCompiled q.0.loops (length q.1) (ip r.0) (length s.loops) q.0 refl
                        (c.0.same_depth ∙ ap length (loops-emit_exit r.0 ∙ g.0.loops)) c.1
                        c.0.compiled in
                    holds (record {
                      compiled = compiled;
                      same_depth = depth;
                      grows = Grows-trans (Extends-Grows g.0) (
                          Grows-trans (emit-Grows op_jmp_if_false 0 r.0)
                            (Grows-trans c.0.grows grown));
                      less = omega (arith, c.0.less, a, d, lt, inside, cond, g.1);
                    })))

  -- Whether the pointer moves: it does unless it stands at the end or at `}`.
  abbrev pub Moves : List ℕ → Parsed → Type 0
  Moves src r = peek src ≢ 0 → peek src ≢ b'}' → length r.1 < length src

  at_end :
      (src : List ℕ)
      → (peek (skip_whitespace src) == 0 || peek (skip_whitespace src) == b'}') ≡ true
      → peek src ≢ 0
      → peek src ≢ b'}'
      → length (skip_whitespace src) < length src
  at_end src e nz nb = elim (skip_whitespace-cases src) [
    | inl same ↦
        absurd (ground (arith, subst (λ t. (peek t == 0 || peek t == b'}') ≡ true) same e, nz, nb))
    | inr lt ↦ lt
  ]

  moved :
      (s : Compiler) (src : List ℕ) {r : Result Parsed}
      → Ensures (165 ≤ whole) (Compiles whole s (length (skip_whitespace src))) r
      → Ensures (165 ≤ whole) (λ q. Compiles whole s (suc (length src)) q × Moves src q) r
  moved s src e =
      let le = length-skip_whitespace src in
      Ensures-map e λ r c. (
        Compiles-after refl (Grows-refl s.code) (omega (arith, le)) c,
        λ nz nb. omega (arith, c.less, le),
      )

  skip_block :
      (s : Compiler) (src p : List ℕ)
      → length p ≤ length src
      → IsCompiled whole (length src) s
      → Compiles whole s (suc (length src)) (s, p)
  skip_block s src p le h = record {
    compiled = IsCompiled-le whole (length src) le h;
    same_depth = refl;
    grows = Grows-refl s.code;
    less = omega (arith, le);
  }

  mutual
    unfolding compile_statement compile_block block_loop

    statement-Ensures :
        (f : ℕ) (s : Compiler) (src : List ℕ)
        → 2 * length src < f
        → IsCompiled whole (length src) s
        → Ensures
            (165 ≤ whole)
            (λ r. Compiles whole s (suc (length src)) r × Moves src r)
            (compile_statement f s src)
    statement-Ensures zero s src lt h = absurd (omega arith)
    statement-Ensures (suc f) s src lt h =
        let cur = skip_whitespace src in
        let le = length-skip_whitespace src in
        let h' = IsCompiled-le whole (length src) le h in
        let b : IsBlock (length cur) (compile_block f) =
          λ s' src' lt' c. block-Ensures f s' src' (omega (arith, lt, le, lt')) c in
        Ensures-if (peek cur == 0 || peek cur == b'}')
          (λ e. holds (skip_block s src cur le h, at_end src e))
          (λ e.
            let nz : peek cur ≢ 0 = λ z. ground (arith, e, z) in
            Ensures-if (match_keyword cur (codes "if"))
              (λ _. moved s src (compile_if-Ensures (compile_block f) s cur b nz h'))
              (λ _.
                Ensures-if (match_keyword cur (codes "while"))
                  (λ _. moved s src (compile_while-Ensures (compile_block f) s cur b nz h'))
                  (λ _.
                    moved s src
                      (compile_simple-Ensures whole s cur h' nz (skip_whitespace-peek src)))))

    block-Ensures :
        (f : ℕ) (s : Compiler) (src : List ℕ)
        → 2 * length src < f
        → IsCompiled whole (length src) s
        → Ensures (165 ≤ whole) (Compiles whole s (suc (length src))) (compile_block f s src)
    block-Ensures zero s src lt h = absurd (omega arith)
    block-Ensures (suc f) s src lt h =
        let cur = skip_whitespace src in
        let le = length-skip_whitespace src in
        Ensures-if (peek cur == b'{')
          (λ e.
            let inside = rest-lt cur (λ z. ground (arith, e, z)) in
            Ensures-map
              (loop-Ensures f s (rest cur) (omega (arith, lt, le, inside))
                (IsCompiled-le whole (length src) (omega (arith, le, inside)) h))
              λ r c. Compiles-after refl (Grows-refl s.code) (omega (arith, le, inside)) c)
          (λ e. holds (skip_block s src cur le h))

    loop-Ensures :
        (f : ℕ) (s : Compiler) (src : List ℕ)
        → 2 * length src + 1 < f
        → IsCompiled whole (length src) s
        → Ensures (165 ≤ whole) (Compiles whole s (suc (length src))) (block_loop f s src)
    loop-Ensures zero s src lt h = absurd (omega arith)
    loop-Ensures (suc f) s src lt h =
        Ensures-if (peek src == 0 || peek src == b'}')
          (λ e. holds (skip_block s src (skip_char b'}' src) (length-skip_char b'}' src) h))
          (λ e. Ensures-bind (statement-Ensures f s src (omega (arith, lt)) h) λ r c.
            let le = length-skip_whitespace r.1 in
            let less = c.1 (λ z. ground (arith, e, z)) (λ z. ground (arith, e, z)) in
            Ensures-map
              (loop-Ensures f r.0 (skip_whitespace r.1) (omega (arith, lt, le, less))
                (IsCompiled-le whole (length r.1) le c.0.compiled))
              λ q k. Compiles-after c.0.same_depth c.0.grows (omega (arith, le, less)) k)

  -- With the fuel that `compile_lines` gives, a statement is compiled, and unless it starts at `}` or at
  -- the end of the text, the pointer moves.
  pub compile_statement-Ensures :
      (s : Compiler) (src : List ℕ)
      → IsCompiled whole (length src) s
      → Ensures
          (165 ≤ whole)
          (λ r. Compiles whole s (suc (length src)) r × Moves src r)
          (compile_statement (2 * length src + 1) s src)
  compile_statement-Ensures s src h = statement-Ensures (2 * length src + 1) s src (omega arith) h
