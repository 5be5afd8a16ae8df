-- ===== src/NawLang/Compiler/Targets.antt =====
-- apps/nawlang/compiler.c: the jumps of the code that is compiled, and of the loops around it.
use naw_os.Base.{
  ℕ, zero, suc, ◌+◌, ◌≤◌, ◌<◌, ◌≡◌, ◌∙◌, refl, sym, ap, subst, Bool, true, false, List, [], ◌∷◌,
  ◌++◌, length, length-append, All, All-map, arith,
}
use naw_os.NawLang.Bytecode.{OpCode, Instruction}
use naw_os.NawLang.Vm.Run.{is_jump}
use naw_os.NawLang.Compiler.State.{
  LoopContext, Compiler, ip, emit, set_arg, set_target, set_targets,
}
use naw_os.NawLang.Compiler.Extends.{IsTables, limit, IsPlain, Extends}

abbrev pub jump_at : List Instruction → ℕ → Bool
jump_at [] k = false
jump_at (i ∷ code) zero = is_jump i.op
jump_at (i ∷ code) (suc k) = jump_at code k

abbrev pub Within : Bool → ℕ → ℕ → ℕ → Type 0
Within true n l arg = arg ≤ n
Within false n l arg = arg < l

-- A jump leads to an index up to `n`; the argument of any other instruction is in its range.
abbrev pub IsSafe : ℕ → Instruction → Type 0
IsSafe n i = Within (is_jump i.op) n (limit i.op) i.arg

Within-le : (b : Bool) (l arg : ℕ) {n m : ℕ} → n ≤ m → Within b n l arg → Within b m l arg
Within-le true l arg le h = omega (arith, le, h)
Within-le false l arg le h = h

pub IsSafe-le :
    (code : List Instruction) {n m : ℕ} → n ≤ m → All (IsSafe n) code → All (IsSafe m) code
IsSafe-le code le h = All-map code (λ i s. Within-le (is_jump i.op) (limit i.op) i.arg le s) h

pub IsPlain-IsSafe : (n : ℕ) (i : Instruction) → IsPlain i → IsSafe n i
IsPlain-IsSafe n i (j, h) = subst (λ b. Within b n (limit i.op) i.arg) (sym j) h

-- The code `d` has the instructions of `c` and more, though the arguments may differ.
pub record Grows (c d : List Instruction) : Type 0 where
  pub longer : length c ≤ length d
  pub kept : (k : ℕ) → jump_at c k ≡ true → jump_at d k ≡ true

pub Grows-refl : (c : List Instruction) → Grows c c
Grows-refl c = record { longer = omega arith; kept = λ k h. h }

pub Grows-trans : {a b c : List Instruction} → Grows a b → Grows b c → Grows a c
Grows-trans g h = record {
  longer = omega (arith, g.longer, h.longer);
  kept = λ k j. h.kept k (g.kept k j);
}

pub jump_at-append :
    (c d : List Instruction) (k : ℕ) → jump_at c k ≡ true → jump_at (c ++ d) k ≡ true
jump_at-append [] d k h = absurd (cc h)
jump_at-append (i ∷ c) d zero h = h
jump_at-append (i ∷ c) d (suc k) h = jump_at-append c d k h

pub jump_at-end :
    (c : List Instruction) (i : Instruction)
    → is_jump i.op ≡ true
    → jump_at (c ++ (i ∷ [])) (length c) ≡ true
jump_at-end [] i h = h
jump_at-end (j ∷ c) i h = jump_at-end c i h

pub append-Grows : (c d : List Instruction) → Grows c (c ++ d)
append-Grows c d = record {
  longer = omega (arith, length-append c d);
  kept = λ k h. jump_at-append c d k h;
}

pub length-set_arg : (c : List Instruction) (k t : ℕ) → length (set_arg c k t) ≡ length c
unfolding set_arg
length-set_arg [] k t = refl
length-set_arg (i ∷ c) zero t = refl
length-set_arg (i ∷ c) (suc k) t = ap suc (length-set_arg c k t)

jump_at-set_arg : (c : List Instruction) (k t j : ℕ) → jump_at (set_arg c k t) j ≡ jump_at c j
unfolding set_arg
jump_at-set_arg [] k t j = refl
jump_at-set_arg (i ∷ c) zero t zero = refl
jump_at-set_arg (i ∷ c) zero t (suc j) = refl
jump_at-set_arg (i ∷ c) (suc k) t zero = refl
jump_at-set_arg (i ∷ c) (suc k) t (suc j) = jump_at-set_arg c k t j

pub set_arg-IsSafe :
    (n : ℕ) (c : List Instruction) (k t : ℕ)
    → jump_at c k ≡ true
    → t ≤ n
    → All (IsSafe n) c
    → All (IsSafe n) (set_arg c k t)
unfolding set_arg
set_arg-IsSafe n [] k t j le h = tt
set_arg-IsSafe n (i ∷ c) zero t j le h = (subst (λ b. Within b n (limit i.op) t) (sym j) le, h.1)
set_arg-IsSafe n (i ∷ c) (suc k) t j le h = (h.0, set_arg-IsSafe n c k t j le h.1)

pub set_target-Grows : (k t : ℕ) (s : Compiler) → Grows s.code (set_target k t s).code
unfolding set_target
set_target-Grows k t s = record {
  longer = omega (arith, length-set_arg s.code k t);
  kept = λ j h. jump_at-set_arg s.code k t j ∙ h;
}

pub Extends-Grows : {s s' : Compiler} → Extends s s' → Grows s.code s'.code
Extends-Grows {s} {s'} e = subst (λ c. Grows s.code c) (sym e.code) (append-Grows s.code e.added)

pub IsTables-code :
    {s : Compiler} (c : List Instruction) (l : List LoopContext)
    → IsTables s
    → IsTables (record s { code = c; loops = l })
IsTables-code c l t = record {
  strings_room = t.strings_room;
  strings_short = t.strings_short;
  names_room = t.names_room;
  names_short = t.names_short;
}

pub emit-Grows : (op : OpCode) (arg : ℕ) (s : Compiler) → Grows s.code (emit op arg s).code
unfolding emit
emit-Grows op arg s = append-Grows s.code (record { op = op; arg = arg } ∷ [])

pub emit-jump_at :
    (op : OpCode) (arg : ℕ) (s : Compiler)
    → is_jump op ≡ true
    → jump_at (emit op arg s).code (ip s) ≡ true
unfolding emit
emit-jump_at op arg s j = jump_at-end s.code (record { op = op; arg = arg }) j

pub ip-emit : (op : OpCode) (arg : ℕ) (s : Compiler) → ip (emit op arg s) ≡ ip s + 1
unfolding emit
ip-emit op arg s = length-append s.code (record { op = op; arg = arg } ∷ [])

pub ip-set_target : (k t : ℕ) (s : Compiler) → ip (set_target k t s) ≡ ip s
unfolding set_target
ip-set_target k t s = length-set_arg s.code k t

pub set_targets-Grows :
    (ks : List ℕ) (t : ℕ) (s : Compiler) → Grows s.code (set_targets ks t s).code
unfolding set_targets
set_targets-Grows [] t s = Grows-refl s.code
set_targets-Grows (k ∷ ks) t s =
    Grows-trans (set_targets-Grows ks t s) (set_target-Grows k t (set_targets ks t s))

pub jumps_kept :
    {c d : List Instruction}
    → Grows c d
    → (ks : List ℕ) → All (λ k. jump_at c k ≡ true) ks
    → All (λ k. jump_at d k ≡ true) ks
jumps_kept g ks h = All-map ks (λ k j. g.kept k j) h
