-- ===== src/NawLang/Vm/Run.antt =====
-- Whole runs of the machine.
use naw_os.Base.{
  ℕ, zero, suc, ◌+◌, ◌≤◌, ◌<◌, ◌≡◌, Bool, true, false, Bool-cases, inl, inr, Option-cases, none,
  some, List, [], ◌∷◌, length, get_elem?, replicate, All, arith, ltb, not, ◌&&◌, ◌||◌, subst, refl,
  ◌-◌,
}
use naw_os.NawLang.Word.{int_add, int_sub, int_mul}
use naw_os.NawLang.Bytecode.{
  OpCode, Instruction, max_vars, op_push_int, op_push_str, op_print_int, op_print_str, op_read_int,
  op_load_var, op_store_var, op_add, op_sub, op_mul, op_div, op_eq, op_ne, op_lt, op_gt, op_le,
  op_ge, op_jmp, op_jmp_if_false, op_native_call, op_print, op_halt,
}
use naw_os.NawLang.Vm.{
  Host, value_int, Vm, Outcome, running, halted, failed, undefined, vm_print, call_with,
  native_call, execute, vm_step, vm_loop, vm_run, and_then, vm_native_arg_count, to_int,
}
use naw_os.NawLang.Vm.Keep.{
  IsWord, IsValid, IsValidOutcome, vm_push-IsValid, vm_pop-cases, binary-IsValid, divide-IsValid,
  load_var-IsValid, set_var-IsValid, store_var-IsValid, IsValid-ip, jump_if_false-IsValid,
  pop_args-cases,
}

abbrev pub is_jump : OpCode → Bool
is_jump op_jmp = true
is_jump op_jmp_if_false = true
is_jump _ = false

-- every jump leads to a later instruction, in code that starts at the index
abbrev pub jumps_forward : ℕ → List Instruction → Bool
jumps_forward k [] = true
jumps_forward k (i ∷ code) = (not (is_jump i.op) || ltb k i.arg) && jumps_forward (k + 1) code

jumps_forward-lt :
    (code : List Instruction) (start k : ℕ) (i : Instruction)
    → jumps_forward start code ≡ true
    → get_elem? code k ≡ some i
    → is_jump i.op ≡ true
    → start + k < i.arg
jumps_forward-lt [] start k i f e j = absurd (cc e)
jumps_forward-lt (c ∷ code) start zero i f e j =
    subst (λ (x : Instruction). is_jump x.op ≡ true → start + 0 < x.arg) {x = c} {y = i} (cc e)
      (λ jump. ground (arith, f, jump)) j
jumps_forward-lt (c ∷ code) start (suc k) i f e j =
    omega (arith, jumps_forward-lt code (start + 1) k i (ground (arith, f)) e j)

to_int-IsWord : (b : Bool) → IsWord (to_int b)
to_int-IsWord true = omega arith
to_int-IsWord false = omega arith

get_elem?-lt : {A : Type 0} (xs : List A) (i : ℕ) (a : A) → get_elem? xs i ≡ some a → i < length xs
get_elem?-lt [] i a e = absurd (cc e)
get_elem?-lt (x ∷ xs) zero a e = omega arith
get_elem?-lt (x ∷ xs) (suc i) a e = omega (arith, get_elem?-lt xs i a e)

module _ (host : Host) where
  open host use {World, keyboard_read_int, naw_math_native_call}

  -- The keyboard's `int` is a 32-bit pattern.
  abbrev pub IsWordHost : Type 0
  IsWordHost = (w : World) → IsWord (keyboard_read_int w).0

  vm_print-IsValid : (lo : ℕ) (m : Vm World) → IsValid lo m → IsValidOutcome lo (vm_print host m)
  unfolding vm_print
  vm_print-IsValid lo m h = elim (vm_pop-cases lo m h) [
    | inl e ↦ rw (e, vm_print) h
    | inr (v, m', e, w, h') ↦
        rw (e, vm_print)
          (record {
            room = h'.room;
            words = h'.words;
            vars_len = h'.vars_len;
            vars_words = h'.vars_words;
            after = h'.after;
          })
  ]

  IsValid-world :
      (lo : ℕ) (m : Vm World) (w : World) → IsValid lo m → IsValid lo (record m { world = w })
  IsValid-world lo m w h = record {
    room = h.room;
    words = h.words;
    vars_len = h.vars_len;
    vars_words = h.vars_words;
    after = h.after;
  }

  call_with-IsValid :
      (lo id argc : ℕ) (m : Vm World) → IsValid lo m → IsValidOutcome lo (call_with host id argc m)
  unfolding call_with
  call_with-IsValid lo id argc m h = elim (pop_args-cases lo argc m [] h) [
    | inl e ↦ rw (e, call_with) h
    | inr (args, m', e, h') ↦
        rw (e, call_with)
          (vm_push-IsValid lo _ _ tt
            (IsValid-world lo m' (naw_math_native_call id args m'.world).1 h'))
  ]

  native_call-IsValid :
      (lo id : ℕ) (m : Vm World) → IsValid lo m → IsValidOutcome lo (native_call host id m)
  unfolding native_call
  native_call-IsValid lo id m h = elim (Option-cases (vm_native_arg_count id)) [
    | inl e ↦ rw (e, native_call) h
    | inr (argc, e) ↦ elim (Bool-cases (ltb (length m.stack) argc)) [
      | inl few ↦ rw (e, native_call, few) h
      | inr enough ↦ rw (e, native_call, enough) (call_with-IsValid lo id argc m h)
    ]
  ]

  execute-IsValid :
      (lo : ℕ) (op : OpCode) (arg : ℕ) (m : Vm World)
      → IsWordHost
      → IsWord arg
      → (is_jump op ≡ true → lo ≤ arg)
      → IsValid lo m
      → IsValidOutcome lo (execute host op arg m)
  unfolding execute int_add int_sub int_mul
  execute-IsValid lo op_halt arg m k w j h = h
  execute-IsValid lo op_push_int arg m k w j h = vm_push-IsValid lo (value_int arg) m w h
  execute-IsValid lo op_push_str arg m k w j h = vm_push-IsValid lo _ m tt h
  execute-IsValid lo op_load_var arg m k w j h = load_var-IsValid lo arg m h
  execute-IsValid lo op_store_var arg m k w j h = store_var-IsValid lo arg m h
  execute-IsValid lo op_add arg m k w j h = binary-IsValid lo int_add m (λ a b wa wb. omega arith) h
  execute-IsValid lo op_sub arg m k w j h = binary-IsValid lo int_sub m (λ a b wa wb. omega arith) h
  execute-IsValid lo op_mul arg m k w j h = binary-IsValid lo int_mul m (λ a b wa wb. omega arith) h
  execute-IsValid lo op_div arg m k w j h = divide-IsValid lo m h
  execute-IsValid lo op_eq arg m k w j h = binary-IsValid lo _ m (λ a b wa wb. to_int-IsWord _) h
  execute-IsValid lo op_ne arg m k w j h = binary-IsValid lo _ m (λ a b wa wb. to_int-IsWord _) h
  execute-IsValid lo op_lt arg m k w j h = binary-IsValid lo _ m (λ a b wa wb. to_int-IsWord _) h
  execute-IsValid lo op_gt arg m k w j h = binary-IsValid lo _ m (λ a b wa wb. to_int-IsWord _) h
  execute-IsValid lo op_le arg m k w j h = binary-IsValid lo _ m (λ a b wa wb. to_int-IsWord _) h
  execute-IsValid lo op_ge arg m k w j h = binary-IsValid lo _ m (λ a b wa wb. to_int-IsWord _) h
  execute-IsValid lo op_jmp arg m k w j h = IsValid-ip lo m arg (j refl) h
  execute-IsValid lo op_jmp_if_false arg m k w j h = jump_if_false-IsValid lo arg m (j refl) h
  execute-IsValid lo op_native_call arg m k w j h = native_call-IsValid lo arg m h
  execute-IsValid lo op_print arg m k w j h = vm_print-IsValid lo m h
  execute-IsValid lo op_print_int arg m k w j h = vm_print-IsValid lo m h
  execute-IsValid lo op_print_str arg m k w j h = vm_print-IsValid lo m h
  execute-IsValid lo op_read_int arg m k w j h =
      set_var-IsValid lo arg _ _ (k m.world) (IsValid-world lo m (keyboard_read_int m.world).1 h)

  abbrev pub IsWordCode : List Instruction → Type 0
  IsWordCode code = All (λ i. IsWord i.arg) code

  -- The machine does not run any more, for whatever reason.
  abbrev pub IsOver : Outcome World → Type 0
  IsOver (running m) = ⊥
  IsOver (halted m) = Unit
  IsOver (failed e m) = Unit
  IsOver undefined = Unit

  code-IsWord :
      (code : List Instruction) (k : ℕ) (i : Instruction)
      → IsWordCode code
      → get_elem? code k ≡ some i
      → IsWord i.arg
  code-IsWord [] k i h e = absurd (cc e)
  code-IsWord (c ∷ code) zero i h e =
      subst (λ (x : Instruction). IsWord x.arg) {x = c} {y = i} (cc e) h.0
  code-IsWord (c ∷ code) (suc k) i h e = code-IsWord code k i h.1 e

  vm_step-IsValid :
      (lo : ℕ) (code : List Instruction) (m : Vm World)
      → IsWordHost
      → IsWordCode code
      → ((i : Instruction) → get_elem? code m.ip ≡ some i → is_jump i.op ≡ true → lo ≤ i.arg)
      → lo ≤ m.ip + 1
      → IsValid 0 m
      → IsValidOutcome lo (vm_step host code m)
  unfolding vm_step
  vm_step-IsValid lo code m k w j le h = elim (Option-cases (get_elem? code m.ip)) [
    | inl e ↦ rw (e, vm_step) tt
    | inr (i, e) ↦
        rw (e, vm_step)
          (execute-IsValid lo i.op i.arg (record m { ip = m.ip + 1 }) k
            (code-IsWord code m.ip i w e) (j i e)
            (record {
              room = h.room;
              words = h.words;
              vars_len = h.vars_len;
              vars_words = h.vars_words;
              after = le;
            }))
  ]

  anywhere : {lo : ℕ} {m : Vm World} → IsValid lo m → IsValid 0 m
  anywhere h = record {
    room = h.room;
    words = h.words;
    vars_len = h.vars_len;
    vars_words = h.vars_words;
    after = omega arith;
  }

  and_then-IsValid :
      (o : Outcome World) (next : Vm World → Outcome World)
      → IsValidOutcome 0 o
      → ((m : Vm World) → IsValid 0 m → IsValidOutcome 0 (next m))
      → IsValidOutcome 0 (and_then o next)
  unfolding and_then
  and_then-IsValid (running m) next v h = h m v
  and_then-IsValid (halted m) next v h = v
  and_then-IsValid (failed e m) next v h = v
  and_then-IsValid undefined next v h = v

  and_then-IsOver :
      (lo : ℕ) (o : Outcome World) (next : Vm World → Outcome World)
      → IsValidOutcome lo o
      → ((m : Vm World) → IsValid lo m → IsOver (next m))
      → IsOver (and_then o next)
  unfolding and_then
  and_then-IsOver lo (running m) next v h = h m v
  and_then-IsOver lo (halted m) next v h = tt
  and_then-IsOver lo (failed e m) next v h = tt
  and_then-IsOver lo undefined next v h = tt

  vm_loop-IsValid :
      (fuel : ℕ) (code : List Instruction) (m : Vm World)
      → IsWordHost
      → IsWordCode code
      → IsValid 0 m
      → IsValidOutcome 0 (vm_loop host fuel code m)
  unfolding vm_loop
  vm_loop-IsValid zero code m k w h = h
  vm_loop-IsValid (suc fuel) code m k w h =
      and_then-IsValid (vm_step host code m) (vm_loop host fuel code)
        (vm_step-IsValid 0 code m k w (λ i e j. omega arith) (omega arith) h)
        (λ m' v. vm_loop-IsValid fuel code m' k w v)

  vm_step-past :
      (code : List Instruction) (m : Vm World)
      → get_elem? code m.ip ≡ none
      → vm_step host code m ≡ undefined
  unfolding vm_step
  vm_step-past code m e = rw (e, vm_step) refl

  vm_loop-IsOver :
      (fuel : ℕ) (code : List Instruction) (m : Vm World)
      → IsWordHost
      → IsWordCode code
      → jumps_forward 0 code ≡ true
      → IsValid 0 m
      → length code - m.ip < fuel
      → IsOver (vm_loop host fuel code m)
  unfolding vm_loop
  vm_loop-IsOver zero code m k w f h lt = omega arith
  vm_loop-IsOver (suc fuel) code m k w f h lt = elim (Option-cases (get_elem? code m.ip)) [
    | inl e ↦ rw (vm_step-past code m e, and_then) tt
    | inr (i, e) ↦
        and_then-IsOver (m.ip + 1) (vm_step host code m) (vm_loop host fuel code)
          (vm_step-IsValid (m.ip + 1) code m k w
            (λ x e' j. omega (arith, jumps_forward-lt code 0 m.ip x f e' j)) (omega arith) h)
          (λ m' v.
            vm_loop-IsOver fuel code m' k w f (anywhere v)
              (omega (arith, v.after, get_elem?-lt code m.ip i e)))
  ]

  started-IsValid :
      (w : World)
      → IsValid 0
          (record { stack = []; vars = replicate max_vars 0; ip = 0; printed = []; world = w })
  started-IsValid w = record {
    room = omega arith;
    words = tt;
    vars_len = refl;
    vars_words = zeros 64;
    after = omega arith;
  }
    where
      zeros : (n : ℕ) → All IsWord (replicate n 0)
      zeros zero = tt
      zeros (suc n) = (omega arith, zeros n)

  -- On code and keyboard input of 32-bit numbers, after any number of rounds the stack has at most 256
  -- values, there are 64 variables, and every integer is a 32-bit pattern.
  pub vm_run-IsValid :
      (fuel : ℕ) (code : List Instruction) (w : World)
      → IsWordHost
      → IsWordCode code
      → IsValidOutcome 0 (vm_run host fuel code w)
  unfolding vm_run
  vm_run-IsValid fuel code w k c = vm_loop-IsValid fuel code _ k c (started-IsValid w)

  pub vm_run-IsOver :
      (code : List Instruction) (w : World)
      → IsWordHost
      → IsWordCode code
      → jumps_forward 0 code ≡ true
      → IsOver (vm_run host (length code + 1) code w)
  unfolding vm_run
  vm_run-IsOver code w k c f =
      vm_loop-IsOver (length code + 1) code _ k c f (started-IsValid w) (omega arith)
