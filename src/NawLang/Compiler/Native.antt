-- ===== src/NawLang/Compiler/Native.antt =====
-- apps/nawlang/compiler.c: the calls math_*(...).
use naw_os.Base.{
  ℕ, zero, suc, ◌+◌, ◌-◌, Bool, true, false, ◌&&◌, ◌||◌, not, Option, none, some, List, [], ◌∷◌,
  ◌==◌, if◌then◌else◌,
}
use naw_os.Base.Int.{is_zero}
use naw_os.CString.{peek, rest, strcmp}
use naw_os.NawLang.Bytecode.{op_push_str, op_native_call}
use naw_os.NawLang.Compiler.Scan.{codes, skip_inline_space}
use naw_os.NawLang.Compiler.State.{Compiler, emit, emit_string, max_string_len}

abbrev pub max_native_args : ℕ
max_native_args = 3

-- in the order of the identifiers NAW_MATH_NATIVE_*, from 0 on
abbrev pub native_names : List (List ℕ)
native_names =
    codes "math_eval"
    ∷ codes "math_add"
    ∷ codes "math_sub"
    ∷ codes "math_mul"
    ∷ codes "math_div"
    ∷ codes "math_pow"
    ∷ codes "math_sqrt"
    ∷ codes "math_sin"
    ∷ codes "math_cos"
    ∷ codes "math_tan"
    ∷ codes "math_abs"
    ∷ codes "math_arg"
    ∷ codes "math_conj"
    ∷ codes "math_norm"
    ∷ codes "math_quad"
    ∷ []

unfoldable pub native_id_from : ℕ → List (List ℕ) → List ℕ → Option ℕ
unfolding strcmp
native_id_from i [] name = none
native_id_from i (n ∷ names) name =
    let more = native_id_from (i + 1) names name in if is_zero (strcmp name n) then some i else more

-- `none` is -1
unfoldable pub native_math_id_from_name : List ℕ → Option ℕ
unfolding native_id_from
native_math_id_from_name name = native_id_from 0 native_names name

-- the end of the argument, at a character outside a string
abbrev pub ends_argument : Bool → ℕ → ℕ → Bool
ends_argument in_string depth c =
    c == 0 || (not in_string && depth == 0 && (c == b')' || c == b','))

abbrev pub next_in_string : Bool → ℕ → Bool
next_in_string in_string c = if c == b'"' then not in_string else in_string

abbrev pub next_depth : Bool → ℕ → ℕ → ℕ
next_depth in_string depth c =
    if in_string
    then depth
    else (if c == b'(' then depth + 1 else (if c == b')' then depth - 1 else depth))

-- the characters kept, with the room left for them, and the end
unfoldable pub capture_loop : Bool → ℕ → ℕ → List ℕ → List ℕ × List ℕ
capture_loop in_string depth room [] = ([], [])
capture_loop in_string depth room (c ∷ s) =
    let (out, cur) =
      capture_loop (next_in_string in_string c) (next_depth in_string depth c) (room - 1) s in
    if ends_argument in_string depth c
    then ([], c ∷ s)
    else (if room == 0 then out else c ∷ out, cur)

abbrev pub is_nil : List ℕ → Bool
is_nil [] = true
is_nil (c ∷ s) = false

unfoldable pub trim_end : List ℕ → List ℕ
trim_end [] = []
trim_end (c ∷ s) = let t = trim_end s in if is_nil t && (c == b' ' || c == b'\t') then [] else c ∷ t

-- what is captured, and where the pointer stands then; `nothing` is the result 0
pub data Captured : Type 0 where
  captured : List ℕ → List ℕ → Captured
  nothing : List ℕ → Captured

abbrev pub trimmed : List ℕ × List ℕ → Captured
trimmed (out, cur) = captured (trim_end out) cur

unfoldable pub capture_native_math_argument : List ℕ → Captured
unfolding skip_inline_space trim_end
capture_native_math_argument src =
    let cur = skip_inline_space src in
    if peek cur == 0 || peek cur == b')'
    then nothing src
    else (if peek cur == b','
        then nothing cur
        else trimmed (capture_loop false 0 (max_string_len - 1) cur))

pub data NativeArgs : Type 0 where
  arguments : List (List ℕ) → List ℕ → NativeArgs
  bad_arguments : List ℕ → NativeArgs

abbrev pub add_argument : List ℕ → NativeArgs → NativeArgs
add_argument a (arguments args cur) = arguments (a ∷ args) cur
add_argument a (bad_arguments cur) = bad_arguments cur

-- the loop over the arguments, with the number of those that still fit
unfoldable pub native_args : ℕ → List ℕ → NativeArgs
unfolding skip_inline_space
native_args zero cur = bad_arguments cur
native_args (suc left) cur = elim (capture_native_math_argument cur) [
  | nothing cur' ↦ bad_arguments cur'
  | captured a cur' ↦
      let cur'' = skip_inline_space cur' in
      let more = add_argument a (native_args left (skip_inline_space (rest cur''))) in
      if peek cur'' == b','
      then more
      else (if peek cur'' == b')' then arguments (a ∷ []) (rest cur'') else bad_arguments cur'')
]

unfoldable pub emit_arguments : List (List ℕ) → Compiler → Compiler
emit_arguments [] s = s
emit_arguments (a ∷ args) s = emit_arguments args (emit_string op_push_str a s)

-- The results 0, 1 and -1 of `compile_native_math_call`.
pub data NativeCall : Type 0 where
  not_native : NativeCall
  called : Compiler → List ℕ → NativeCall
  broken : List ℕ → NativeCall

abbrev pub finish_call : ℕ → Compiler → NativeArgs → NativeCall
finish_call native_id s (arguments args cur) =
    called (emit op_native_call native_id (emit_arguments args s)) cur
finish_call native_id s (bad_arguments cur) = broken cur

unfoldable pub compile_native_math_call : List ℕ → List ℕ → Compiler → NativeCall
unfolding skip_inline_space
compile_native_math_call name src s =
    let cur = skip_inline_space src in
    let inside = skip_inline_space (rest cur) in
    let args =
      if peek inside == b')'
      then arguments [] (rest inside)
      else native_args max_native_args inside in
    elim (native_math_id_from_name name) [
      | none ↦ not_native
      | some native_id ↦ if peek cur == b'(' then finish_call native_id s args else not_native
    ]
