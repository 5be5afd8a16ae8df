-- ===== src/NawLang/Compiler/Extends.antt =====
-- apps/nawlang/compiler.c: what the functions that emit code for an expression do to the state.
use mathlib.Core.List.{append_assoc, append-nil}
use naw_os.Base.{
  ℕ, ◌+◌, ◌≤◌, ◌<◌, ◌≡◌, ◌∙◌, inl, inr, refl, sym, ap, false, Bool-cases, some, Option-cases, List,
  [], ◌∷◌, ◌++◌, leb, length, length-append, length-take, take, All, All-append, arith,
}
use naw_os.Base.Int.{is_zero}
use naw_os.CString.{strcmp}
use naw_os.NawLang.Bytecode.{
  OpCode, Instruction, op_load_var, op_store_var, op_read_int, op_native_call, op_push_str,
}
use naw_os.NawLang.Vm.Run.{is_jump}
use naw_os.NawLang.Compiler.State.{
  Compiler, emit, find_text, same_text, new_string, add_string, new_name, var_index, emit_var,
  emit_string,
}
use naw_os.NawLang.Compiler.Native.{
  native_names, native_id_from, native_math_id_from_name, emit_arguments,
}

-- The pool has at most 64 strings of at most 127 characters, and the table of variables at most 64 names
-- of at most 15.
pub record IsTables (s : Compiler) : Type 0 where
  pub strings_room : length s.strings ≤ 64
  pub strings_short : All (λ t. length t ≤ 127) s.strings
  pub names_room : length s.names ≤ 64
  pub names_short : All (λ t. length t ≤ 15) s.names

-- below which the argument of an instruction is
abbrev pub limit : OpCode → ℕ
limit op_load_var = 64
limit op_store_var = 64
limit op_read_int = 64
limit op_native_call = 15
limit _ = 4294967296

-- not a jump, and the argument in its range
abbrev pub IsPlain : Instruction → Type 0
IsPlain i = (is_jump i.op ≡ false) × (i.arg < limit i.op)

-- The state `s'` has more code than `s`, without jumps, and the same loops.
pub record Extends (s s' : Compiler) : Type 0 where
  pub tables : IsTables s'
  pub loops : s'.loops ≡ s.loops
  pub added : List Instruction
  pub code : s'.code ≡ s.code ++ added
  pub plain : All IsPlain added

pub Extends-refl : (s : Compiler) → IsTables s → Extends s s
Extends-refl s t = record {
  tables = t;
  loops = refl;
  added = [];
  code = sym (append-nil s.code);
  plain = tt;
}

pub Extends-trans : {s t u : Compiler} → Extends s t → Extends t u → Extends s u
Extends-trans {s} {t} {u} a b = record {
  tables = b.tables;
  loops = b.loops ∙ a.loops;
  added = a.added ++ b.added;
  code = b.code ∙ ap (λ c. c ++ b.added) a.code ∙ append_assoc s.code a.added b.added;
  plain = All-append IsPlain a.added b.added a.plain b.plain;
}

pub emit-Extends :
    (op : OpCode) (arg : ℕ) (s : Compiler)
    → is_jump op ≡ false
    → arg < limit op
    → IsTables s
    → Extends s (emit op arg s)
unfolding emit
emit-Extends op arg s j h t = record {
  tables = record {
    strings_room = t.strings_room;
    strings_short = t.strings_short;
    names_room = t.names_room;
    names_short = t.names_short;
  };
  loops = refl;
  added = record { op = op; arg = arg } ∷ [];
  code = refl;
  plain = ((j, h), tt);
}

find_text-lt :
    (i : ℕ) (texts : List (List ℕ)) (t : List ℕ) (k : ℕ)
    → find_text i texts t ≡ some k
    → k < i + length texts
unfolding find_text
find_text-lt i [] t k e = absurd (cc e)
find_text-lt i (u ∷ texts) t k e = elim (Bool-cases (same_text u t)) [
  | inl h ↦ ground (arith, e, h)
  | inr h ↦ omega (arith, find_text-lt (i + 1) texts t k (rw h at e))
]

short : (n : ℕ) (t : List ℕ) → length (take n t) ≤ n
short n t = omega (arith, length-take {0} n t)

new_name-Extends :
    (name : List ℕ) (s : Compiler)
    → IsTables s
    → ((new_name name s).0 < 64) × Extends s (new_name name s).1
unfolding new_name
new_name-Extends name s t = elim (Bool-cases (leb 64 (length s.names))) [
  | inl e ↦ rw e (omega arith, Extends-refl s t)
  | inr e ↦ rw e (
    ground (arith, e),
    record {
      tables = record {
        strings_room = t.strings_room;
        strings_short = t.strings_short;
        names_room = ground (arith, e, length-append s.names (take 15 name ∷ []));
        names_short =
            All-append (λ u. length u ≤ 15) s.names (take 15 name ∷ []) t.names_short
              (short 15 name, tt);
      };
      loops = refl;
      added = [];
      code = sym (append-nil s.code);
      plain = tt;
    },
  )
]

new_string-Extends :
    (u : List ℕ) (s : Compiler)
    → IsTables s
    → ((new_string u s).0 < 4294967296) × Extends s (new_string u s).1
unfolding new_string
new_string-Extends u s t = elim (Bool-cases (leb 64 (length s.strings))) [
  | inl e ↦ rw e (omega arith, Extends-refl s t)
  | inr e ↦ rw e (
    omega arith,
    record {
      tables = record {
        strings_room = ground (arith, e, length-append s.strings (take 127 u ∷ []));
        strings_short =
            All-append (λ v. length v ≤ 127) s.strings (take 127 u ∷ []) t.strings_short
              (short 127 u, tt);
        names_room = t.names_room;
        names_short = t.names_short;
      };
      loops = refl;
      added = [];
      code = sym (append-nil s.code);
      plain = tt;
    },
  )
]

-- A variable's index is below 64, whether its name is known, new, or one too many.
pub var_index-Extends :
    (name : List ℕ) (s : Compiler)
    → IsTables s
    → ((var_index name s).0 < 64) × Extends s (var_index name s).1
unfolding var_index
var_index-Extends name s t = elim (Option-cases (find_text 0 s.names name)) [
  | inl e ↦ rw (e, var_index) (new_name-Extends name s t)
  | inr (k, e) ↦
      rw (e, var_index)
        (omega (arith, find_text-lt 0 s.names name k e, t.names_room), Extends-refl s t)
]

pub add_string-Extends :
    (u : List ℕ) (s : Compiler)
    → IsTables s
    → ((add_string u s).0 < 4294967296) × Extends s (add_string u s).1
unfolding add_string
add_string-Extends u s t = elim (Option-cases (find_text 0 s.strings u)) [
  | inl e ↦ rw (e, add_string) (new_string-Extends u s t)
  | inr (k, e) ↦ rw (e, add_string) (omega arith, Extends-refl s t)
]

pub emit_var-Extends :
    (op : OpCode) (name : List ℕ) (s : Compiler)
    → is_jump op ≡ false
    → limit op ≡ 64
    → IsTables s
    → Extends s (emit_var op name s)
unfolding emit_var
emit_var-Extends op name s j l t =
    let (h, e) = var_index-Extends name s t in
    Extends-trans e
      (emit-Extends op (var_index name s).0 (var_index name s).1 j (omega (arith, h, l)) e.tables)

pub emit_string-Extends :
    (u : List ℕ) (s : Compiler) → IsTables s → Extends s (emit_string op_push_str u s)
unfolding emit_string
emit_string-Extends u s t =
    let (h, e) = add_string-Extends u s t in
    Extends-trans e (emit-Extends op_push_str (add_string u s).0 (add_string u s).1 refl h e.tables)

pub emit_arguments-Extends :
    (args : List (List ℕ)) (s : Compiler) → IsTables s → Extends s (emit_arguments args s)
unfolding emit_arguments
emit_arguments-Extends [] s t = Extends-refl s t
emit_arguments-Extends (a ∷ args) s t =
    let e = emit_string-Extends a s t in
    Extends-trans e (emit_arguments-Extends args (emit_string op_push_str a s) e.tables)

native_id_from-lt :
    (i : ℕ) (names : List (List ℕ)) (name : List ℕ) (k : ℕ)
    → native_id_from i names name ≡ some k
    → k < i + length names
unfolding native_id_from
native_id_from-lt i [] name k e = absurd (cc e)
native_id_from-lt i (n ∷ names) name k e = elim (Bool-cases (is_zero (strcmp name n))) [
  | inl h ↦ ground (arith, e, h)
  | inr h ↦ omega (arith, native_id_from-lt (i + 1) names name k (rw h at e))
]

pub native_math_id_from_name-lt :
    (name : List ℕ) (k : ℕ) → native_math_id_from_name name ≡ some k → k < 15
unfolding native_math_id_from_name
native_math_id_from_name-lt name k e = omega (arith, native_id_from-lt 0 native_names name k e)
