-- ===== src/NawLang/Vm/Inside.antt =====
-- apps/nawlang/vm.c: the machine on code whose jumps and variables are in range.
use naw_os.Base.{
  ℕ, zero, suc, ◌≤◌, ◌<◌, ◌≡◌, ◌∙◌, ◌⊎◌, inl, inr, refl, Bool-cases, none, some, Option-cases, List,
  [], ◌∷◌, ltb, leb, ◌==◌, length, get_elem?, length-set, arith,
}
use naw_os.NawLang.Bytecode.{
  OpCode, max_vars, op_push_int, op_push_str, op_print_int, op_print_str, op_read_int, op_load_var,
  op_store_var, op_add, op_sub, op_mul, op_div, op_eq, op_ne, op_lt, op_gt, op_le, op_ge, op_jmp,
  op_jmp_if_false, op_native_call, op_print, op_halt,
}
use naw_os.NawLang.Vm.{
  Host, Value, value_int, value_str, Vm, Outcome, running, halted, failed, undefined, stack_size,
  vm_push, vm_pop, vm_pop_int, vm_pop_operands, binary, pop_args, load_var, set_var, store_var,
  jump_if_false, vm_print, call_with, native_call, vm_native_arg_count, execute,
}
use naw_os.NawLang.Vm.Keep.{List-cases}

-- The next instruction is at `n` or before, and there are 64 variables.
pub record IsInside {W : Type 0} (n : ℕ) (m : Vm W) : Type 0 where
  pub before : m.ip ≤ n
  pub vars_len : length m.vars ≡ 64

-- not undefined, and inside if it still runs
abbrev pub IsInsideOutcome : {W : Type 0} → ℕ → Outcome W → Type 0
IsInsideOutcome n (running m) = IsInside n m
IsInsideOutcome n (halted m) = Unit
IsInsideOutcome n (failed e m) = Unit
IsInsideOutcome n undefined = ⊥

module _ {W : Type 0} (n : ℕ) where
  vm_push-IsInside : (v : Value) (m : Vm W) → IsInside n m → IsInside n (vm_push v m)
  unfolding vm_push
  vm_push-IsInside v m h = elim (Bool-cases (leb stack_size (length m.stack))) [
    | inl e ↦ rw e (record { before = h.before; vars_len = h.vars_len })
    | inr e ↦ rw e (record { before = h.before; vars_len = h.vars_len })
  ]

  vm_pop-Inside :
      (m : Vm W)
      → IsInside n m
      → (vm_pop m ≡ none) ⊎ ((v : Value) × (m' : Vm W) × (vm_pop m ≡ some (v, m')) × IsInside n m')
  unfolding vm_pop
  vm_pop-Inside m h = elim (List-cases m.stack) [
    | inl e ↦ inl (rw e refl)
    | inr (v, us, e) ↦
        inr (
          v,
          record m { stack = us },
          rw e refl,
          record { before = h.before; vars_len = h.vars_len },
        )
  ]

  vm_pop_int-Inside :
      (m : Vm W)
      → IsInside n m
      → (vm_pop_int m ≡ none)
        ⊎ ((v : ℕ) × (m' : Vm W) × (vm_pop_int m ≡ some (v, m')) × IsInside n m')
  unfolding vm_pop_int
  vm_pop_int-Inside m h = elim (vm_pop-Inside m h) [
    | inl e ↦ inl (rw (e, vm_pop_int) refl)
    | inr (value_int v, m', e, h') ↦ inr (v, m', rw (e, vm_pop_int) refl, h')
    | inr (value_str p, m', e, h') ↦ inl (rw (e, vm_pop_int) refl)
  ]

  binary-IsInside : (f : ℕ → ℕ → ℕ) (m : Vm W) → IsInside n m → IsInsideOutcome n (binary f m)
  unfolding binary vm_pop_operands
  binary-IsInside f m h = elim (vm_pop_int-Inside m h) [
    | inl e ↦ rw (e, binary, vm_pop_operands) tt
    | inr (b, m1, e, h1) ↦ elim (vm_pop_int-Inside m1 h1) [
      | inl e' ↦ rw (e, e', binary, vm_pop_operands) tt
      | inr (a, m2, e', h2) ↦
          rw (e, e', binary, vm_pop_operands) (vm_push-IsInside (value_int (f a b)) m2 h2)
    ]
  ]

  load_var-IsInside : (i : ℕ) (m : Vm W) → i < 64 → IsInside n m → IsInsideOutcome n (load_var i m)
  unfolding load_var
  load_var-IsInside i m lt h = elim (Option-cases (get_elem? m.vars i)) [
    | inl e ↦ absurd (get_elem?-past m.vars i e (omega (arith, lt, h.vars_len)))
    | inr (v, e) ↦ rw (e, load_var) (vm_push-IsInside (value_int v) m h)
  ]
    where
      get_elem?-past : (xs : List ℕ) (k : ℕ) → get_elem? xs k ≡ none → k < length xs → ⊥
      get_elem?-past [] k e lt = omega arith
      get_elem?-past (x ∷ xs) zero e lt = cc e
      get_elem?-past (x ∷ xs) (suc k) e lt = get_elem?-past xs k e (omega arith)

  set_var-IsInside :
      (i v : ℕ) (m : Vm W) → i < 64 → IsInside n m → IsInsideOutcome n (set_var i v m)
  unfolding set_var
  set_var-IsInside i v m lt h = elim (Bool-cases (ltb i max_vars)) [
    | inr e ↦ absurd (ground (arith, e, lt))
    | inl e ↦ rw e (record { before = h.before; vars_len = length-set m.vars i v ∙ h.vars_len })
  ]

  store_var-IsInside :
      (i : ℕ) (m : Vm W) → i < 64 → IsInside n m → IsInsideOutcome n (store_var i m)
  unfolding store_var
  store_var-IsInside i m lt h = elim (vm_pop_int-Inside m h) [
    | inl e ↦ rw (e, store_var) tt
    | inr (v, m', e, h') ↦ rw (e, store_var) (set_var-IsInside i v m' lt h')
  ]

  jump_if_false-IsInside :
      (t : ℕ) (m : Vm W) → t ≤ n → IsInside n m → IsInsideOutcome n (jump_if_false t m)
  unfolding jump_if_false
  jump_if_false-IsInside t m le h = elim (vm_pop_int-Inside m h) [
    | inl e ↦ rw (e, jump_if_false) tt
    | inr (v, m', e, h') ↦ elim (Bool-cases (v == 0)) [
      | inl z ↦ rw (e, jump_if_false, z) (record { before = le; vars_len = h'.vars_len })
      | inr z ↦ rw (e, jump_if_false, z) h'
    ]
  ]

  pop_args-Inside :
      (k : ℕ) (m : Vm W) (args : List ℕ)
      → IsInside n m
      → (pop_args k m args ≡ none)
        ⊎ ((all_args : List ℕ) × (m' : Vm W) × (pop_args k m args ≡ some (all_args, m'))
            × IsInside n m')
  unfolding pop_args
  pop_args-Inside zero m args h = inr (args, m, refl, h)
  pop_args-Inside (suc k) m args h = elim (vm_pop-Inside m h) [
    | inl e ↦ inl (rw (e, pop_args) refl)
    | inr (value_int i, m', e, h') ↦ inl (rw (e, pop_args) refl)
    | inr (value_str p, m', e, h') ↦ rw (e, pop_args) (pop_args-Inside k m' (p ∷ args) h')
  ]

module _ (host : Host) where
  open host use {World, keyboard_read_int, naw_math_native_call}

  vm_print-IsInside : (n : ℕ) (m : Vm World) → IsInside n m → IsInsideOutcome n (vm_print host m)
  unfolding vm_print
  vm_print-IsInside n m h = elim (vm_pop-Inside n m h) [
    | inl e ↦ rw (e, vm_print) tt
    | inr (v, m', e, h') ↦ rw (e, vm_print) (record { before = h'.before; vars_len = h'.vars_len })
  ]

  native_call-IsInside :
      (n id : ℕ) (m : Vm World) → IsInside n m → IsInsideOutcome n (native_call host id m)
  unfolding native_call call_with
  native_call-IsInside n id m h = elim (Option-cases (vm_native_arg_count id)) [
    | inl e ↦ rw (e, native_call) tt
    | inr (argc, e) ↦ elim (Bool-cases (ltb (length m.stack) argc)) [
      | inl few ↦ rw (e, native_call, few) tt
      | inr enough ↦ elim (pop_args-Inside n argc m [] h) [
        | inl e' ↦ rw (e, native_call, enough, e', call_with) tt
        | inr (args, m', e', h') ↦
            rw (e, native_call, enough, e', call_with)
              (vm_push-IsInside n _ _ (record { before = h'.before; vars_len = h'.vars_len }))
      ]
    ]
  ]

  abbrev pub InRange : ℕ → OpCode → ℕ → Type 0
  InRange n op_load_var arg = arg < 64
  InRange n op_store_var arg = arg < 64
  InRange n op_read_int arg = arg < 64
  InRange n op_jmp arg = arg ≤ n
  InRange n op_jmp_if_false arg = arg ≤ n
  InRange n op_div arg = ⊥
  InRange n _ arg = Unit

  pub execute-IsInside :
      (n : ℕ) (op : OpCode) (arg : ℕ) (m : Vm World)
      → InRange n op arg
      → IsInside n m
      → IsInsideOutcome n (execute host op arg m)
  unfolding execute
  execute-IsInside n op_halt arg m r h = tt
  execute-IsInside n op_push_int arg m r h = vm_push-IsInside n (value_int arg) m h
  execute-IsInside n op_push_str arg m r h = vm_push-IsInside n _ m h
  execute-IsInside n op_load_var arg m r h = load_var-IsInside n arg m r h
  execute-IsInside n op_store_var arg m r h = store_var-IsInside n arg m r h
  execute-IsInside n op_add arg m r h = binary-IsInside n _ m h
  execute-IsInside n op_sub arg m r h = binary-IsInside n _ m h
  execute-IsInside n op_mul arg m r h = binary-IsInside n _ m h
  execute-IsInside n op_div arg m r h = absurd r
  execute-IsInside n op_eq arg m r h = binary-IsInside n _ m h
  execute-IsInside n op_ne arg m r h = binary-IsInside n _ m h
  execute-IsInside n op_lt arg m r h = binary-IsInside n _ m h
  execute-IsInside n op_gt arg m r h = binary-IsInside n _ m h
  execute-IsInside n op_le arg m r h = binary-IsInside n _ m h
  execute-IsInside n op_ge arg m r h = binary-IsInside n _ m h
  execute-IsInside n op_jmp arg m r h = record { before = r; vars_len = h.vars_len }
  execute-IsInside n op_jmp_if_false arg m r h = jump_if_false-IsInside n arg m r h
  execute-IsInside n op_native_call arg m r h = native_call-IsInside n arg m h
  execute-IsInside n op_print arg m r h = vm_print-IsInside n m h
  execute-IsInside n op_print_int arg m r h = vm_print-IsInside n m h
  execute-IsInside n op_print_str arg m r h = vm_print-IsInside n m h
  execute-IsInside n op_read_int arg m r h =
      set_var-IsInside n arg _ _ r (record { before = h.before; vars_len = h.vars_len })
