-- ===== src/NawLang/Compiler/Lengths.antt =====
-- apps/nawlang/compiler.c: how far the functions that read characters move the pointer.
use naw_os.Base.{
  ℕ, zero, suc, ◌+◌, ◌-◌, ◌*◌, ◌%◌, ◌≤◌, ◌<◌, ◌≡◌, ◌≢◌, ◌⊎◌, inl, inr, refl, Bool, true, false,
  ◌||◌, ◌&&◌, Bool-cases, none, some, List, [], ◌∷◌, ◌==◌, length, drop, length-drop, All, arith,
}
use naw_os.NawLang.Bytecode.{OpCode, op_eq, op_ne, op_lt, op_gt, op_le, op_ge}
use naw_os.CString.{peek, rest}
use naw_os.NawLang.Compiler.Scan.{
  is_ident_start, is_inline_space, match_keyword, skip_inline_space, skip_whitespace,
  skip_to_line_end, skip_to_paren, skip_char, identifier_loop, read_identifier,
}
use naw_os.NawLang.Compiler.Native.{
  Captured, captured, nothing, capture_loop, capture_native_math_argument, NativeArgs, arguments,
  bad_arguments, native_args, add_argument, next_in_string, next_depth,
}
use naw_os.NawLang.Compiler.Expression.{string_loop, digits_loop, compare_op}

-- an operator without an argument
abbrev pub IsCompare : OpCode → Type 0
IsCompare op_eq = Unit
IsCompare op_ne = Unit
IsCompare op_lt = Unit
IsCompare op_gt = Unit
IsCompare op_le = Unit
IsCompare op_ge = Unit
IsCompare _ = ⊥

pub length-rest : (s : List ℕ) → length (rest s) ≤ length s
length-rest [] = omega arith
length-rest (c ∷ s) = omega arith

pub length-rest_sub : (s : List ℕ) → length (rest s) ≡ length s - 1
length-rest_sub [] = omega arith
length-rest_sub (c ∷ s) = omega arith

-- behind a character that is there
pub suc-length-rest : (s : List ℕ) → peek s ≢ 0 → suc (length (rest s)) ≡ length s
suc-length-rest [] h = absurd (h refl)
suc-length-rest (c ∷ s) h = refl

pub rest-lt : (s : List ℕ) → peek s ≢ 0 → length (rest s) < length s
rest-lt s h = omega (arith, suc-length-rest s h)

pub length-skip_inline_space : (s : List ℕ) → length (skip_inline_space s) ≤ length s
unfolding skip_inline_space
length-skip_inline_space [] = omega arith
length-skip_inline_space (c ∷ s) = ground (arith, length-skip_inline_space s)

pub length-skip_whitespace : (s : List ℕ) → length (skip_whitespace s) ≤ length s
unfolding skip_whitespace
length-skip_whitespace [] = omega arith
length-skip_whitespace (c ∷ s) = ground (arith, length-skip_whitespace s)

pub skip_whitespace-cases :
    (s : List ℕ) → (skip_whitespace s ≡ s) ⊎ (length (skip_whitespace s) < length s)
unfolding skip_whitespace
skip_whitespace-cases [] = inl refl
skip_whitespace-cases (c ∷ s) = elim (Bool-cases (c == b'\n' || is_inline_space c)) [
  | inl e ↦ inr (rw e (omega (arith, length-skip_whitespace s)))
  | inr e ↦ inl (rw e refl)
]

pub skip_whitespace-peek : (s : List ℕ) → peek (skip_whitespace s) ≢ b'\n'
unfolding skip_whitespace
skip_whitespace-peek [] h = omega arith
skip_whitespace-peek (c ∷ s) h = elim (Bool-cases (c == b'\n' || is_inline_space c)) [
  | inl e ↦ skip_whitespace-peek s (rw e at h)
  | inr e ↦ ground (arith, h, e)
]

pub length-skip_to_line_end : (s : List ℕ) → length (skip_to_line_end s) ≤ length s
unfolding skip_to_line_end
length-skip_to_line_end [] = omega arith
length-skip_to_line_end (c ∷ s) = ground (arith, length-skip_to_line_end s)

pub skip_to_line_end-lt :
    (s : List ℕ) → peek s ≢ 0 → peek s ≢ b'\n' → length (skip_to_line_end s) < length s
unfolding skip_to_line_end
skip_to_line_end-lt [] h k = absurd (h refl)
skip_to_line_end-lt (c ∷ s) h k = ground (arith, length-skip_to_line_end s)

length-skip_to_paren : (s : List ℕ) → length (skip_to_paren s) ≤ length s
unfolding skip_to_paren
length-skip_to_paren [] = omega arith
length-skip_to_paren (c ∷ s) = ground (arith, length-skip_to_paren s)

pub length-skip_char : (c : ℕ) (s : List ℕ) → length (skip_char c s) ≤ length s
unfolding skip_char
length-skip_char c s = ground (arith, length-rest s)

pub length-after_condition : (s : List ℕ) → length (skip_char b')' (skip_to_paren s)) ≤ length s
length-after_condition s =
    omega (arith, length-skip_char b')' (skip_to_paren s), length-skip_to_paren s)

pub length-drop_le : (n : ℕ) (s : List ℕ) → length (drop n s) ≤ length s
length-drop_le n s = omega (arith, length-drop {0} n s)

-- The end of the line stands behind a keyword that matches.
pub skip_keyword :
    (src keyword : List ℕ)
    → All (λ c. (c ≢ 0) × (c ≢ b'\n')) keyword
    → match_keyword src keyword ≡ true
    → length (skip_to_line_end src) + length keyword ≤ length src
unfolding match_keyword skip_to_line_end
skip_keyword src [] h e = omega (arith, length-skip_to_line_end src)
skip_keyword [] (k ∷ keyword) h e = absurd (h.0.0 (ground arith))
skip_keyword (c ∷ src) (k ∷ keyword) h e = elim (Bool-cases (c == k)) [
  | inl same ↦ ground (arith, same, h.0.0, h.0.1, skip_keyword src keyword h.1 (rw same at e))
  | inr other ↦ absurd (cc (rw other at e))
]

length-identifier_loop :
    (room : ℕ) (s : List ℕ)
    → (length (identifier_loop room s).0 ≤ room) × (length (identifier_loop room s).1 ≤ length s)
unfolding identifier_loop
length-identifier_loop room [] = (omega arith, omega arith)
length-identifier_loop room (c ∷ s) =
    let (a, b) = length-identifier_loop (room - 1) s in (ground arith, ground arith)

-- An identifier is read or the pointer stays; what is read has at most 15 characters, and the pointer
-- moves.
pub read_identifier-cases :
    (s : List ℕ)
    → (read_identifier s ≡ none)
      ⊎ ((name cur : List ℕ) × (read_identifier s ≡ some (name, cur))
          × (length name ≤ 15)
          × (length cur < length s))
unfolding read_identifier identifier_loop
read_identifier-cases [] = inl refl
read_identifier-cases (c ∷ s) = elim (Bool-cases (is_ident_start c)) [
  | inl e ↦
      let (a, b) = length-identifier_loop 14 s in
      inr (
        c ∷ (identifier_loop 14 s).0,
        (identifier_loop 14 s).1,
        rw (e, identifier_loop) refl,
        omega (arith, a),
        omega (arith, b),
      )
  | inr e ↦ inl (rw e refl)
]

pub length-string_loop :
    (room : ℕ) (s : List ℕ)
    → (length (string_loop room s).0 ≤ room) × (length (string_loop room s).1 ≤ length s)
unfolding string_loop
length-string_loop room [] = (omega arith, omega arith)
length-string_loop room (c ∷ s) =
    let (a, b) = length-string_loop (room - 1) s in (ground arith, ground arith)

pub length-digits_loop :
    (v : ℕ) (s : List ℕ)
    → v < 4294967296
    → ((digits_loop v s).0 < 4294967296) × (length (digits_loop v s).1 ≤ length s)
unfolding digits_loop
length-digits_loop v [] h = (h, omega arith)
length-digits_loop v (c ∷ s) h =
    let (a, b) = length-digits_loop ((v * 10 + (c - b'0')) % 4294967296) s (omega arith) in
    (ground arith, ground arith)

length-capture_loop :
    (q : Bool) (d room : ℕ) (s : List ℕ) → length (capture_loop q d room s).1 ≤ length s
unfolding capture_loop
length-capture_loop q d room [] = omega arith
length-capture_loop q d room (c ∷ s) =
    ground (arith, length-capture_loop (next_in_string q c) (next_depth q d c) (room - 1) s)

abbrev captured_end : Captured → List ℕ
captured_end (captured a cur) = cur
captured_end (nothing cur) = cur

length-captured_end :
    (s : List ℕ) → length (captured_end (capture_native_math_argument s)) ≤ length s
unfolding capture_native_math_argument
length-captured_end s =
    let cur = skip_inline_space s in
    let h = length-skip_inline_space s in
    let k = length-capture_loop false 0 127 cur in
    elim (Bool-cases (peek cur == 0 || peek cur == b')')) [
      | inl e ↦ rw e (omega arith)
      | inr e ↦ elim (Bool-cases (peek cur == b',')) [
        | inl e' ↦ rw (e, e') h
        | inr e' ↦ rw (e, e') (omega (arith, h, k))
      ]
    ]

abbrev pub args_end : NativeArgs → List ℕ
args_end (arguments args cur) = cur
args_end (bad_arguments cur) = cur

args_end-add_argument : (a : List ℕ) (r : NativeArgs) → args_end (add_argument a r) ≡ args_end r
args_end-add_argument a (arguments args cur) = refl
args_end-add_argument a (bad_arguments cur) = refl

pub Captured-cases :
    (c : Captured)
    → ((cur : List ℕ) × (c ≡ nothing cur)) ⊎ ((a cur : List ℕ) × (c ≡ captured a cur))
Captured-cases (nothing cur) = inl (cur, refl)
Captured-cases (captured a cur) = inr (a, cur, refl)

pub length-args_end : (left : ℕ) (s : List ℕ) → length (args_end (native_args left s)) ≤ length s
unfolding native_args
length-args_end zero s = omega arith
length-args_end (suc left) s = elim (Captured-cases (capture_native_math_argument s)) [
  | inl (cur, e) ↦ rw (e, native_args) (rw e at (length-captured_end s))
  | inr (a, cur, e) ↦
      let h : length cur ≤ length s = rw e at (length-captured_end s) in
      let cur' = skip_inline_space cur in
      let k = length-skip_inline_space cur in
      let r = length-rest cur' in
      let next = skip_inline_space (rest cur') in
      let more = length-args_end left next in
      elim (Bool-cases (peek cur' == b',')) [
        | inl c ↦
            rw (e, native_args, c)
              (rw (args_end-add_argument a (native_args left next))
                (omega (arith, h, k, r, more, length-skip_inline_space (rest cur'))))
        | inr c ↦ elim (Bool-cases (peek cur' == b')')) [
          | inl d ↦ rw (e, native_args, c, d) (omega (arith, h, k, r))
          | inr d ↦ rw (e, native_args, c, d) (omega (arith, h, k))
        ]
      ]
]

-- The operator that `parse_compare` finds stands in the text.
pub compare_op-cases :
    (p : List ℕ)
    → (compare_op p ≡ none)
      ⊎ ((op : OpCode) × (p' : List ℕ) × (compare_op p ≡ some (op, p'))
          × IsCompare op
          × (length p' < length p))
unfolding compare_op
compare_op-cases [] = inl refl
compare_op-cases (c ∷ p) =
    let h = length-rest p in
    let eq = peek p == b'=' in
    elim (Bool-cases (c == b'=' && eq)) [
      | inl e ↦ inr (op_eq, rest p, rw e refl, tt, omega (arith, h))
      | inr e1 ↦ elim (Bool-cases (c == b'!' && eq)) [
        | inl e ↦ inr (op_ne, rest p, rw (e1, e) refl, tt, omega (arith, h))
        | inr e2 ↦ elim (Bool-cases (c == b'<' && eq)) [
          | inl e ↦ inr (op_le, rest p, rw (e1, e2, e) refl, tt, omega (arith, h))
          | inr e3 ↦ elim (Bool-cases (c == b'>' && eq)) [
            | inl e ↦ inr (op_ge, rest p, rw (e1, e2, e3, e) refl, tt, omega (arith, h))
            | inr e4 ↦ elim (Bool-cases (c == b'<')) [
              | inl e ↦ inr (op_lt, p, rw (e1, e2, e3, e4, e) refl, tt, omega arith)
              | inr e5 ↦ elim (Bool-cases (c == b'>')) [
                | inl e ↦ inr (op_gt, p, rw (e1, e2, e3, e4, e5, e) refl, tt, omega arith)
                | inr e ↦ inl (rw (e1, e2, e3, e4, e5, e) refl)
              ]
            ]
          ]
        ]
      ]
    ]
