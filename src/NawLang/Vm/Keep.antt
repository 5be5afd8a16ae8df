-- ===== src/NawLang/Vm/Keep.antt =====
-- apps/nawlang/vm.c: the machine's bounds, instruction by instruction.
use naw_os.Base.{
  ℕ, zero, suc, ◌≤◌, ◌<◌, ◌≡◌, Bool-cases, inl, inr, Option-cases, none, some, List, [], ◌∷◌,
  length, get_elem?, set, length-set, subst, ap, refl, ◌∙◌, ◌⊎◌, ◌&&◌, All, arith, ◌==◌, leb, ltb,
}
use naw_os.NawLang.Word.{int_div, int_div-lt}
use naw_os.NawLang.Bytecode.{max_vars}
use naw_os.NawLang.Vm.{
  Value, value_int, value_str, Vm, Outcome, running, halted, failed, undefined, stack_size, vm_push,
  vm_pop, vm_pop_int, vm_pop_operands, binary, divide, pop_args, load_var, set_var, store_var,
  jump_if_false,
}

abbrev pub IsWord : ℕ → Type 0
IsWord n = n < 4294967296

abbrev pub IsWordValue : Value → Type 0
IsWordValue (value_int n) = IsWord n
IsWordValue (value_str p) = Unit

-- The stack has at most 256 values and there are 64 variables; an integer is a 32-bit pattern. The next
-- instruction is at `lo` or later.
pub record IsValid {W : Type 0} (lo : ℕ) (m : Vm W) : Type 0 where
  pub room : length m.stack ≤ stack_size
  pub words : All IsWordValue m.stack
  pub vars_len : length m.vars ≡ max_vars
  pub vars_words : All IsWord m.vars
  pub after : lo ≤ m.ip

abbrev pub IsValidOutcome : {W : Type 0} → ℕ → Outcome W → Type 0
IsValidOutcome lo (running m) = IsValid lo m
IsValidOutcome lo (halted m) = IsValid lo m
IsValidOutcome lo (failed e m) = IsValid lo m
IsValidOutcome lo undefined = Unit

pub get_elem?-IsWord : (xs : List ℕ) (i v : ℕ) → All IsWord xs → get_elem? xs i ≡ some v → IsWord v
get_elem?-IsWord [] i v h e = absurd (cc e)
get_elem?-IsWord (x ∷ xs) zero v h e = subst IsWord (cc e) h.0
get_elem?-IsWord (x ∷ xs) (suc i) v h e = get_elem?-IsWord xs i v h.1 e

set-All : (xs : List ℕ) (i v : ℕ) → All IsWord xs → IsWord v → All IsWord (set xs i v)
set-All [] i v h k = tt
set-All (x ∷ xs) zero v h k = (k, h.1)
set-All (x ∷ xs) (suc i) v h k = (h.0, set-All xs i v h.1 k)

pub List-cases : (vs : List Value) → (vs ≡ []) ⊎ ((v : Value) × (us : List Value) × (vs ≡ v ∷ us))
List-cases [] = inl refl
List-cases (v ∷ us) = inr (v, us, refl)

module _ {W : Type 0} (lo : ℕ) where
  pub vm_push-IsValid :
      (v : Value) (m : Vm W) → IsWordValue v → IsValid lo m → IsValid lo (vm_push v m)
  unfolding vm_push
  vm_push-IsValid v m k h = elim (Bool-cases (leb stack_size (length m.stack))) [
    | inl full ↦ rw full (record {
      room = h.room;
      words = h.words;
      vars_len = h.vars_len;
      vars_words = h.vars_words;
      after = h.after;
    })
    | inr e ↦ rw e (record {
      room = ground arith;
      words = (k, h.words);
      vars_len = h.vars_len;
      vars_words = h.vars_words;
      after = h.after;
    })
  ]

  -- What is popped is a word, and the rest is valid.
  pub vm_pop-cases :
      (m : Vm W)
      → IsValid lo m
      → (vm_pop m ≡ none)
        ⊎ ((v : Value) × (m' : Vm W) × (vm_pop m ≡ some (v, m')) × IsWordValue v × IsValid lo m')
  unfolding vm_pop
  vm_pop-cases m h = elim (List-cases m.stack) [
    | inl e ↦ inl (rw e refl)
    | inr (v, us, e) ↦
        let w = subst (All IsWordValue) e h.words in
        inr (
          v,
          record m { stack = us },
          rw e refl,
          w.0,
          record {
            room = omega (arith, h.room, ap length e);
            words = w.1;
            vars_len = h.vars_len;
            vars_words = h.vars_words;
            after = h.after;
          },
        )
  ]

  vm_pop_int-cases :
      (m : Vm W)
      → IsValid lo m
      → (vm_pop_int m ≡ none)
        ⊎ ((n : ℕ) × (m' : Vm W) × (vm_pop_int m ≡ some (n, m')) × IsWord n × IsValid lo m')
  unfolding vm_pop_int
  vm_pop_int-cases m h = elim (vm_pop-cases m h) [
    | inl e ↦ inl (rw (e, vm_pop_int) refl)
    | inr (value_int n, m', e, w, h') ↦ inr (n, m', rw (e, vm_pop_int) refl, w, h')
    | inr (value_str p, m', e, w, h') ↦ inl (rw (e, vm_pop_int) refl)
  ]

  vm_pop_operands-cases :
      (m : Vm W)
      → IsValid lo m
      → (vm_pop_operands m ≡ none)
        ⊎ ((a b : ℕ) × (m' : Vm W) × (vm_pop_operands m ≡ some (a, b, m'))
            × IsWord a
            × IsWord b
            × IsValid lo m')
  unfolding vm_pop_operands
  vm_pop_operands-cases m h = elim (vm_pop_int-cases m h) [
    | inl e ↦ inl (rw (e, vm_pop_operands) refl)
    | inr (b, m1, e, wb, h1) ↦ elim (vm_pop_int-cases m1 h1) [
      | inl e' ↦ inl (rw (e, e', vm_pop_operands) refl)
      | inr (a, m2, e', wa, h2) ↦ inr (a, b, m2, rw (e, e', vm_pop_operands) refl, wa, wb, h2)
    ]
  ]

  pub binary-IsValid :
      (f : ℕ → ℕ → ℕ) (m : Vm W)
      → ((a b : ℕ) → IsWord a → IsWord b → IsWord (f a b))
      → IsValid lo m
      → IsValidOutcome lo (binary f m)
  unfolding binary
  binary-IsValid f m k h = elim (vm_pop_operands-cases m h) [
    | inl e ↦ rw (e, binary) h
    | inr (a, b, m', e, wa, wb, h') ↦
        rw (e, binary) (vm_push-IsValid (value_int (f a b)) m' (k a b wa wb) h')
  ]

  pub divide-IsValid : (m : Vm W) → IsValid lo m → IsValidOutcome lo (divide m)
  unfolding divide
  divide-IsValid m h = elim (vm_pop_operands-cases m h) [
    | inl e ↦ rw (e, divide) h
    | inr (a, b, m', e, wa, wb, h') ↦ elim (Bool-cases (b == 0)) [
      | inl z ↦ rw (e, divide, z) h
      | inr nz ↦ elim (Bool-cases ((a == 2147483648) && (b == 4294967295))) [
        | inl o ↦ rw (e, divide, nz, o) tt
        | inr o ↦
            rw (e, divide, nz, o)
              (vm_push-IsValid (value_int (int_div a b)) m' (int_div-lt a b wa wb) h')
      ]
    ]
  ]

  pub load_var-IsValid : (i : ℕ) (m : Vm W) → IsValid lo m → IsValidOutcome lo (load_var i m)
  unfolding load_var
  load_var-IsValid i m h = elim (Option-cases (get_elem? m.vars i)) [
    | inl e ↦ rw (e, load_var) tt
    | inr (v, e) ↦
        rw (e, load_var)
          (vm_push-IsValid (value_int v) m (get_elem?-IsWord m.vars i v h.vars_words e) h)
  ]

  pub set_var-IsValid :
      (i v : ℕ) (m : Vm W) → IsWord v → IsValid lo m → IsValidOutcome lo (set_var i v m)
  unfolding set_var
  set_var-IsValid i v m w h = elim (Bool-cases (ltb i max_vars)) [
    | inr e ↦ rw e tt
    | inl e ↦ rw e (record {
      room = h.room;
      words = h.words;
      vars_len = length-set m.vars i v ∙ h.vars_len;
      vars_words = set-All m.vars i v h.vars_words w;
      after = h.after;
    })
  ]

  pub store_var-IsValid : (i : ℕ) (m : Vm W) → IsValid lo m → IsValidOutcome lo (store_var i m)
  unfolding store_var
  store_var-IsValid i m h = elim (vm_pop_int-cases m h) [
    | inl e ↦ rw (e, store_var) h
    | inr (v, m', e, w, h') ↦ rw (e, store_var) (set_var-IsValid i v m' w h')
  ]

  pub IsValid-ip : (m : Vm W) (ip : ℕ) → lo ≤ ip → IsValid lo m → IsValid lo (record m { ip = ip })
  IsValid-ip m ip le h = record {
    room = h.room;
    words = h.words;
    vars_len = h.vars_len;
    vars_words = h.vars_words;
    after = le;
  }

  pub jump_if_false-IsValid :
      (t : ℕ) (m : Vm W) → lo ≤ t → IsValid lo m → IsValidOutcome lo (jump_if_false t m)
  unfolding jump_if_false
  jump_if_false-IsValid t m le h = elim (vm_pop_int-cases m h) [
    | inl e ↦ rw (e, jump_if_false) h
    | inr (v, m', e, w, h') ↦ elim (Bool-cases (v == 0)) [
      | inl z ↦ rw (e, jump_if_false, z) (IsValid-ip m' t le h')
      | inr z ↦ rw (e, jump_if_false, z) h'
    ]
  ]

  pub pop_args-cases :
      (n : ℕ) (m : Vm W) (args : List ℕ)
      → IsValid lo m
      → (pop_args n m args ≡ none)
        ⊎ ((all_args : List ℕ) × (m' : Vm W) × (pop_args n m args ≡ some (all_args, m'))
            × IsValid lo m')
  unfolding pop_args
  pop_args-cases zero m args h = inr (args, m, refl, h)
  pop_args-cases (suc n) m args h = elim (vm_pop-cases m h) [
    | inl e ↦ inl (rw (e, pop_args) refl)
    | inr (value_int i, m', e, w, h') ↦ inl (rw (e, pop_args) refl)
    | inr (value_str p, m', e, w, h') ↦ rw (e, pop_args) (pop_args-cases n m' (p ∷ args) h')
  ]
