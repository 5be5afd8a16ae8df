-- ===== src/NawLang/Compiler/Machine.antt =====
-- apps/nawlang/compiler.c with apps/nawlang/vm.c: the machine on the code that the compiler returns.
use naw_os.Base.{
  ℕ, zero, suc, ◌+◌, ◌≤◌, ◌<◌, ◌≡◌, ◌≢◌, ◌⊎◌, inl, inr, refl, sym, subst, some, List, [], ◌∷◌, ◌++◌,
  length, get_elem?, All, All-split, All-two, arith,
}
use naw_os.NawLang.Bytecode.{
  OpCode, Instruction, op_push_int, op_push_str, op_print_int, op_print_str, op_read_int,
  op_load_var, op_store_var, op_add, op_sub, op_mul, op_div, op_eq, op_ne, op_lt, op_gt, op_le,
  op_ge, op_jmp, op_jmp_if_false, op_native_call, op_print, op_halt,
}
use naw_os.NawLang.Vm.{
  Host, Vm, Outcome, running, halted, failed, undefined, execute, vm_step, vm_loop, vm_run,
  and_then,
}
use naw_os.NawLang.Vm.Inside.{IsInside, IsInsideOutcome, InRange, execute-IsInside}
use naw_os.NawLang.Vm.Run.{is_jump}
use naw_os.NawLang.Compiler.Outcome.{ok}
use naw_os.NawLang.Compiler.State.{Compiler}
use naw_os.NawLang.Compiler.Extends.{limit}
use naw_os.NawLang.Compiler.Targets.{IsSafe, Within}
use naw_os.NawLang.Compiler.Program.{naw_compile-IsProgram}
use naw_os.NawLang.Compiler.Statement.{naw_compile}

abbrev pub NoDivision : List Instruction → Type 0
NoDivision code = All (λ i. i.op ≢ op_div) code

abbrev pub halt : Instruction
halt = record { op = op_halt; arg = 0 }

safe-InRange :
    (host : Host) (n : ℕ) (op : OpCode) (arg : ℕ)
    → Within (is_jump op) n (limit op) arg
    → op ≢ op_div
    → InRange host n op arg
safe-InRange host n op_halt arg h d = tt
safe-InRange host n op_push_int arg h d = tt
safe-InRange host n op_push_str arg h d = tt
safe-InRange host n op_load_var arg h d = h
safe-InRange host n op_store_var arg h d = h
safe-InRange host n op_add arg h d = tt
safe-InRange host n op_sub arg h d = tt
safe-InRange host n op_mul arg h d = tt
safe-InRange host n op_div arg h d = d refl
safe-InRange host n op_eq arg h d = tt
safe-InRange host n op_ne arg h d = tt
safe-InRange host n op_lt arg h d = tt
safe-InRange host n op_gt arg h d = tt
safe-InRange host n op_le arg h d = tt
safe-InRange host n op_ge arg h d = tt
safe-InRange host n op_jmp arg h d = h
safe-InRange host n op_jmp_if_false arg h d = h
safe-InRange host n op_native_call arg h d = tt
safe-InRange host n op_print arg h d = tt
safe-InRange host n op_print_int arg h d = tt
safe-InRange host n op_print_str arg h d = tt
safe-InRange host n op_read_int arg h d = h

-- The instruction at an index: one of the body, or the last.
code-cases :
    (P : Instruction → Type 0) (body : List Instruction) (last : Instruction) (k : ℕ)
    → All P body
    → k ≤ length body
    → (get_elem? (body ++ (last ∷ [])) k ≡ some last)
      ⊎ ((i : Instruction) × (get_elem? (body ++ (last ∷ [])) k ≡ some i) × P i × (k < length body))
code-cases P [] last zero h le = inl refl
code-cases P [] last (suc k) h le = absurd (omega arith)
code-cases P (x ∷ body) last zero h le = inr (x, refl, h.0, omega arith)
code-cases P (x ∷ body) last (suc k) h le = elim (code-cases P body last k h.1 (omega arith)) [
  | inl e ↦ inl e
  | inr (i, e, p, lt) ↦ inr (i, e, p, omega (arith, lt))
]

module _ (host : Host) (body : List Instruction) where
  open host use {World}

  step-IsInside :
      (m : Vm World)
      → All (λ i. IsSafe (length body) i × (i.op ≢ op_div)) body
      → IsInside (length body) m
      → IsInsideOutcome (length body) (vm_step host (body ++ (halt ∷ [])) m)
  unfolding vm_step execute
  step-IsInside m h k =
      elim (code-cases (λ i. IsSafe (length body) i × (i.op ≢ op_div)) body halt m.ip h k.before) [
        | inl e ↦ rw (e, vm_step) tt
        | inr (i, e, (s, d), lt) ↦
            rw (e, vm_step)
              (execute-IsInside host (length body) i.op i.arg (record m { ip = m.ip + 1 })
                (safe-InRange host (length body) i.op i.arg s d)
                (record { before = omega (arith, lt); vars_len = k.vars_len }))
      ]

  and_then-IsInside :
      (o : Outcome World) (next : Vm World → Outcome World)
      → IsInsideOutcome (length body) o
      → ((m : Vm World) → IsInside (length body) m → IsInsideOutcome (length body) (next m))
      → IsInsideOutcome (length body) (and_then o next)
  unfolding and_then
  and_then-IsInside (running m) next v h = h m v
  and_then-IsInside (halted m) next v h = tt
  and_then-IsInside (failed e m) next v h = tt
  and_then-IsInside undefined next v h = v

  pub loop-IsInside :
      (rounds : ℕ) (m : Vm World)
      → All (λ i. IsSafe (length body) i × (i.op ≢ op_div)) body
      → IsInside (length body) m
      → IsInsideOutcome (length body) (vm_loop host rounds (body ++ (halt ∷ [])) m)
  unfolding vm_loop
  loop-IsInside zero m h k = k
  loop-IsInside (suc rounds) m h k =
      and_then-IsInside (vm_step host (body ++ (halt ∷ [])) m)
        (vm_loop host rounds (body ++ (halt ∷ []))) (step-IsInside m h k)
        (λ m' v. loop-IsInside rounds m' h v)

IsInsideOutcome-ne : {W : Type 0} (n : ℕ) (o : Outcome W) → IsInsideOutcome n o → o ≢ undefined
IsInsideOutcome-ne n (running m) h e = cc e
IsInsideOutcome-ne n (halted m) h e = cc e
IsInsideOutcome-ne n (failed x m) h e = cc e
IsInsideOutcome-ne n undefined h e = h

-- When naw_compile returns a program without a division, then for any number of rounds the run of the
-- machine on it is never undefined: it fetches no instruction outside the code and reads and writes no
-- variable outside the 64.
pub vm_run-naw_compile :
    (host : Host) (fuel pool rounds : ℕ) (src : List ℕ) (s : Compiler) (w : Host.World host)
    → naw_compile fuel pool src ≡ ok s
    → NoDivision s.code
    → vm_run host rounds s.code w ≢ undefined
unfolding vm_run
vm_run-naw_compile host fuel pool rounds src s w e d =
    let program = naw_compile-IsProgram fuel pool src s e in
    let body = program.body in
    let solid = (All-split (λ i. i.op ≢ op_div) body _ (subst NoDivision program.code d)).0 in
    subst (λ code. vm_run host rounds code w ≢ undefined) (sym program.code)
      (IsInsideOutcome-ne (length body) _ (
        loop-IsInside host body rounds _
          (All-two (IsSafe (length body)) (λ i. i.op ≢ op_div) body program.safe solid)
          (record { before = omega arith; vars_len = refl })))
