-- ===== src/NawLang/Compiler/Compiled.antt =====
-- apps/nawlang/compiler.c: the compiler between two statements.
use naw_os.Base.{
  ℕ, ◌+◌, ◌*◌, ◌≤◌, ◌≡◌, sym, subst, true, List, [], ◌∷◌, ◌++◌, length, All, All-append, All-map,
  arith,
}
use naw_os.NawLang.Bytecode.{OpCode, Instruction}
use naw_os.NawLang.Vm.Run.{is_jump}
use naw_os.NawLang.Compiler.State.{
  LoopContext, Compiler, ip, emit, set_arg, set_target, set_targets,
}
use naw_os.NawLang.Compiler.Extends.{IsTables, limit, Extends}
use naw_os.NawLang.Compiler.Targets.{
  IsSafe, IsSafe-le, IsPlain-IsSafe, Within, Grows, Grows-refl, append-Grows, jump_at,
  length-set_arg, set_arg-IsSafe, set_target-Grows, set_targets-Grows, Extends-Grows, IsTables-code,
}

-- A loop that is being compiled, with `left` of `whole` characters left: its jumps are in the code, and a
-- `break` and a `continue` took at least five characters each.
pub record IsLoop (whole left : ℕ) (c : List Instruction) (ctx : LoopContext) : Type 0 where
  pub start : ctx.loop_start ≤ length c
  pub breaks : All (λ k. jump_at c k ≡ true) ctx.break_jumps
  pub continues : All (λ k. jump_at c k ≡ true) ctx.continue_jumps
  pub few_breaks : 5 * length ctx.break_jumps + left ≤ whole
  pub few_continues : 5 * length ctx.continue_jumps + left ≤ whole

pub record IsCompiled (whole left : ℕ) (s : Compiler) : Type 0 where
  pub tables : IsTables s
  pub safe : All (IsSafe (ip s)) s.code
  pub depth : length s.loops ≤ 8
  pub each : All (IsLoop whole left s.code) s.loops
  pub within : left ≤ whole

module _ (whole left : ℕ) where
  pub IsLoop-Grows :
      {less : ℕ} {c d : List Instruction} (loops : List LoopContext)
      → less ≤ left
      → Grows c d
      → All (IsLoop whole left c) loops
      → All (IsLoop whole less d) loops
  IsLoop-Grows loops le g h =
      All-map loops
        (λ ctx l. record {
          start = omega (arith, l.start, g.longer);
          breaks = All-map ctx.break_jumps (λ k j. g.kept k j) l.breaks;
          continues = All-map ctx.continue_jumps (λ k j. g.kept k j) l.continues;
          few_breaks = omega (arith, l.few_breaks, le);
          few_continues = omega (arith, l.few_continues, le);
        })
        h

  pub IsCompiled-le :
      {s : Compiler} {less : ℕ} → less ≤ left → IsCompiled whole left s → IsCompiled whole less s
  IsCompiled-le {s} le h = record {
    tables = h.tables;
    safe = h.safe;
    depth = h.depth;
    each = IsLoop-Grows s.loops le (Grows-refl s.code) h.each;
    within = omega (arith, le, h.within);
  }

  pub Extends-IsCompiled :
      {s s' : Compiler} → Extends s s' → IsCompiled whole left s → IsCompiled whole left s'
  Extends-IsCompiled {s} {s'} e h = record {
    tables = e.tables;
    safe =
        subst (λ c. All (IsSafe (length c)) c) (sym e.code)
          (All-append (IsSafe (length (s.code ++ e.added))) s.code e.added
            (IsSafe-le s.code (append-Grows s.code e.added).longer h.safe)
            (All-map e.added (λ i p. IsPlain-IsSafe (length (s.code ++ e.added)) i p) e.plain));
    depth = subst (λ l. length l ≤ 8) (sym e.loops) h.depth;
    each =
        subst (λ l. All (IsLoop whole left s'.code) l) (sym e.loops)
          (IsLoop-Grows s.loops (omega arith) (Extends-Grows e) h.each);
    within = h.within;
  }

  pub emit_jump-IsCompiled :
      (op : OpCode) (arg : ℕ) (s : Compiler)
      → is_jump op ≡ true
      → arg ≤ ip s
      → IsCompiled whole left s
      → IsCompiled whole left (emit op arg s)
  unfolding emit
  emit_jump-IsCompiled op arg s j le h =
      let i : Instruction = record { op = op; arg = arg } in
      let g = append-Grows s.code (i ∷ []) in
      record {
        tables = IsTables-code (s.code ++ (i ∷ [])) s.loops h.tables;
        safe =
            All-append (IsSafe (length (s.code ++ (i ∷ [])))) s.code (i ∷ [])
              (IsSafe-le s.code g.longer h.safe)
              (
                subst (λ b. Within b (length (s.code ++ (i ∷ []))) (limit op) arg) (sym j)
                    (omega (arith, le, g.longer)),
                tt,
              );
        depth = h.depth;
        each = IsLoop-Grows s.loops (omega arith) g h.each;
        within = h.within;
      }

  pub set_target-IsCompiled :
      (k t : ℕ) (s : Compiler)
      → jump_at s.code k ≡ true
      → t ≤ ip s
      → IsCompiled whole left s
      → IsCompiled whole left (set_target k t s)
  unfolding set_target
  set_target-IsCompiled k t s j le h = record {
    tables = IsTables-code (set_arg s.code k t) s.loops h.tables;
    safe =
        subst (λ n. All (IsSafe n) (set_arg s.code k t)) (sym (length-set_arg s.code k t))
          (set_arg-IsSafe (ip s) s.code k t j le h.safe);
    depth = h.depth;
    each = IsLoop-Grows s.loops (omega arith) (set_target-Grows k t s) h.each;
    within = h.within;
  }

  pub set_targets-IsCompiled :
      (ks : List ℕ) (t : ℕ) (s : Compiler)
      → All (λ k. jump_at s.code k ≡ true) ks
      → t ≤ ip s
      → IsCompiled whole left s
      → IsCompiled whole left (set_targets ks t s)
  unfolding set_targets
  set_targets-IsCompiled [] t s j le h = h
  set_targets-IsCompiled (k ∷ ks) t s j le h =
      let g = set_targets-Grows ks t s in
      set_target-IsCompiled k t (set_targets ks t s) (g.kept k j.0) (omega (arith, le, g.longer))
        (set_targets-IsCompiled ks t s j.1 le h)
