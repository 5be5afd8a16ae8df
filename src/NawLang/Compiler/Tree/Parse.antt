-- ===== src/NawLang/Compiler/Tree/Parse.antt =====
-- apps/nawlang/compiler.c: the parser on the text of a tree.
use mathlib.Core.List.{append_assoc}
use naw_os.Base.{
  ℕ, zero, suc, ◌+◌, ◌-◌, ◌*◌, ◌≤◌, ◌≡◌, ◌∙◌, ◌⊎◌, inl, inr, refl, sym, ap, true, false, ◌||◌, some,
  Option-cases, List, [], ◌∷◌, ◌++◌, ◌==◌, if◌then◌else◌, length, length-append, All, u32, arith,
}
use naw_os.CString.{peek, rest, is_digit}
use naw_os.NawLang.Bytecode.{OpCode, op_load_var}
use naw_os.NawLang.Compiler.Scan.{
  is_ident_start, is_ident_char, is_inline_space, skip_inline_space, skip_char, identifier_loop,
  read_identifier,
}
use naw_os.NawLang.Compiler.Outcome.{Result, ok, ◌>>=◌}
use naw_os.NawLang.Compiler.State.{Compiler, emit, emit_var, var_index, find_text}
use naw_os.NawLang.Compiler.Native.{compile_native_math_call}
use naw_os.NawLang.Compiler.Expression.{
  Parsed, digits_loop, parse_number, parse_name, parse_atom, parse_factor, parse_term, term_loop,
  parse_expr, expr_loop, compare_op, compare_loop, parse_compare, compile_expr, close_paren,
  term_op, expr_op,
}
use naw_os.NawLang.Compiler.Tree.{
  Op, plus, minus, times, over, Expr, num, var, bin, symbol, op_code, expr_text, IsSource,
  digits_value, IsDeclared, expr_code, place,
}

-- the code of the expression behind what stands in the state
abbrev pub with_code : Expr → Compiler → Compiler
with_code e s = record s { code = s.code ++ expr_code s.names e }

-- what may follow a number or a name
abbrev Stops : List ℕ → Type 0
Stops tail = is_ident_char (peek tail) ≡ false

digits_loop-append :
    (v : ℕ) (digits tail : List ℕ)
    → All (λ c. is_digit c ≡ true) digits
    → Stops tail
    → digits_loop v (digits ++ tail) ≡ (digits_value v digits, tail)
unfolding digits_loop
digits_loop-append v [] [] h stop = refl
digits_loop-append v [] (c ∷ tail) h stop = ground (arith, stop)
digits_loop-append v (c ∷ digits) tail h stop =
    rw (h.0) (digits_loop-append (u32 (v * 10 + (c - b'0'))) digits tail h.1 stop)

identifier_loop-append :
    (room : ℕ) (name tail : List ℕ)
    → All (λ c. is_ident_char c ≡ true) name
    → length name ≤ room
    → Stops tail
    → identifier_loop room (name ++ tail) ≡ (name, tail)
unfolding identifier_loop
identifier_loop-append room [] [] h le stop = refl
identifier_loop-append room [] (c ∷ tail) h le stop = rw stop refl
identifier_loop-append zero (c ∷ name) tail h le stop = absurd (omega arith)
identifier_loop-append (suc room) (c ∷ name) tail h le stop =
    let ih = identifier_loop-append room name tail h.1 (omega arith) stop in ground (arith, h.0, ih)

digit_char :
    (c : ℕ)
    → is_digit c ≡ true
    → ((c == b'"') ≡ false) × ((c == b'(') ≡ false) × (is_inline_space c ≡ false)
digit_char c h = (ground (arith, h), ground (arith, h), ground (arith, h))

ident_char :
    (c : ℕ)
    → is_ident_start c ≡ true
    → ((c == b'"') ≡ false)
      × ((c == b'(') ≡ false)
      × (is_inline_space c ≡ false)
      × (is_digit c ≡ false)
ident_char c h = (ground (arith, h), ground (arith, h), ground (arith, h), ground (arith, h))

parse_atom-name :
    (s : Compiler) (c : ℕ) (p : List ℕ)
    → is_ident_start c ≡ true
    → parse_atom s (c ∷ p) ≡ parse_name s (c ∷ p)
unfolding parse_atom
parse_atom-name s c p h = rw ((ident_char c h).0, (ident_char c h).3) refl

parse_atom-num :
    (digits tail : List ℕ) (s : Compiler)
    → IsSource (num digits)
    → Stops tail
    → parse_atom s (digits ++ tail) ≡ (with_code (num digits) s, tail)
unfolding parse_atom parse_number emit
parse_atom-num [] tail s h stop = absurd (cc (h.0))
parse_atom-num (c ∷ digits) tail s h stop =
    let (a, b, d) = digit_char c h.0 in
    rw (a, h.0, digits_loop-append (u32 (0 + (c - b'0'))) digits tail h.1.1 stop) refl

emit_var-known :
    (op : OpCode) (name : List ℕ) (s : Compiler) (i : ℕ)
    → find_text 0 s.names name ≡ some i
    → emit_var op name s ≡ emit op i s
unfolding emit_var var_index
emit_var-known op name s i e = rw (e, var_index) refl

emit_var-declared :
    (name : List ℕ) (s : Compiler)
    → IsDeclared s.names (var name)
    → emit_var op_load_var name s ≡ with_code (var name) s
unfolding emit
emit_var-declared name s d = elim (Option-cases (find_text 0 s.names name)) [
  | inl e ↦ absurd (d e)
  | inr (i, e) ↦
      emit_var-known op_load_var name s i e
      ∙ ap (λ k. record s { code = s.code ++ (record { op = op_load_var; arg = place k } ∷ []) })
          (sym e)
]

parse_name-var :
    (name tail : List ℕ) (s : Compiler)
    → IsSource (var name)
    → IsDeclared s.names (var name)
    → Stops tail
    → parse_name s (name ++ tail) ≡ (with_code (var name) s, tail)
unfolding parse_name read_identifier compile_native_math_call
parse_name-var [] tail s h d stop = absurd (cc (h.0))
parse_name-var (c ∷ name) tail s h d stop =
    let read : read_identifier ((c ∷ name) ++ tail) ≡ some (c ∷ name, tail) =
      rw (h.0, identifier_loop-append 14 name tail h.1.1 (omega (arith, h.2)) stop) refl in
    rw (read, parse_name, h.3, compile_native_math_call)
      (ap (λ t. (t, tail)) (emit_var-declared (c ∷ name) s d))

-- the end of the text of a factor: its first character
skip-expr_text :
    (e : Expr) (tail : List ℕ)
    → IsSource e
    → skip_inline_space (expr_text e ++ tail) ≡ expr_text e ++ tail
unfolding skip_inline_space
skip-expr_text (num []) tail h = absurd (cc (h.0))
skip-expr_text (num (c ∷ digits)) tail h = rw ((digit_char c h.0).2) refl
skip-expr_text (var []) tail h = absurd (cc (h.0))
skip-expr_text (var (c ∷ name)) tail h = rw ((ident_char c h.0).2) refl
skip-expr_text (bin op l r) tail h = refl

-- how much fuel the parser needs
abbrev need : Expr → ℕ
need (num digits) = 1
need (var name) = 1
need (bin op l r) = need l + need r + 5

need-le : (e : Expr) → IsSource e → need e ≤ 4 * length (expr_text e)
need-le (num []) h = absurd (cc (h.0))
need-le (num (c ∷ digits)) h = omega arith
need-le (var []) h = absurd (cc (h.0))
need-le (var (c ∷ name)) h = omega arith
need-le (bin op l r) h = omega (
  arith,
  need-le l h.0,
  need-le r h.1,
  length-append (expr_text l) (symbol op ∷ (expr_text r ++ (b')' ∷ []))),
  length-append (expr_text r) (b')' ∷ []),
)

Stops-symbol : (op : Op) (tail : List ℕ) → Stops (symbol op ∷ tail)
Stops-symbol plus tail = refl
Stops-symbol minus tail = refl
Stops-symbol times tail = refl
Stops-symbol over tail = refl

-- The loops over operators stop at a `)`.
term_loop_stop :
    (f : ℕ) (s : Compiler) (tail : List ℕ) → term_loop (suc f) s (b')' ∷ tail) ≡ ok (s, b')' ∷ tail)
unfolding term_loop skip_inline_space
term_loop_stop f s tail = refl

expr_loop_stop :
    (f : ℕ) (s : Compiler) (tail : List ℕ) → expr_loop (suc f) s (b')' ∷ tail) ≡ ok (s, b')' ∷ tail)
unfolding expr_loop skip_inline_space
expr_loop_stop f s tail = refl

with_code-bin :
    (op : Op) (l r : Expr) (s : Compiler)
    → emit (op_code op) 0 (with_code r (with_code l s)) ≡ with_code (bin op l r) s
unfolding emit
with_code-bin op l r s =
    ap (λ c. record s { code = c })
      (ap (λ t. t ++ (record { op = op_code op; arg = 0 } ∷ []))
          (append_assoc s.code (expr_code s.names l) (expr_code s.names r))
        ∙ append_assoc s.code (expr_code s.names l ++ expr_code s.names r) _
        ∙ ap (λ t. s.code ++ t) (append_assoc (expr_code s.names l) (expr_code s.names r) _))

-- `e` is read by `parse_factor` with the fuel that it needs.
abbrev IsRead : Expr → Type 0
IsRead e =
    (f : ℕ) (s : Compiler) (tail : List ℕ)
    → need e ≤ f
    → IsDeclared s.names e
    → Stops tail
    → parse_factor f s (expr_text e ++ tail) ≡ ok (with_code e s, tail)

module _ (l r : Expr) (hl : IsRead l) (hr : IsRead r) (f : ℕ) (s : Compiler) (tail : List ℕ)
    (fuel : need l + need r ≤ f) (dl : IsDeclared s.names l) (dr : IsDeclared s.names r) where
  abbrev closed : List ℕ
  closed = expr_text r ++ (b')' ∷ tail)

  -- the right operand of `*` and `/`
  term_loop_op :
      (c : ℕ)
      → (c == b'*' || c == b'/') ≡ true
      → is_inline_space c ≡ false
      → term_loop (suc (suc f)) (with_code l s) (c ∷ closed)
        ≡ ok (emit (term_op c) 0 (with_code r (with_code l s)), b')' ∷ tail)
  unfolding term_loop skip_inline_space
  term_loop_op c t sp =
      rw (sp, t, hr (suc f) (with_code l s) (b')' ∷ tail) (omega (arith, fuel)) dr refl)
        (term_loop_stop f (emit (term_op c) 0 (with_code r (with_code l s))) tail)

  -- the loop over `*` and `/` stops in front of another operator
  term_loop_skip :
      (c : ℕ)
      → (c == b'*' || c == b'/') ≡ false
      → is_inline_space c ≡ false
      → term_loop (suc (suc f)) (with_code l s) (c ∷ closed) ≡ ok (with_code l s, c ∷ closed)
  unfolding term_loop skip_inline_space
  term_loop_skip c t sp = rw (sp, t) refl

  -- the right operand of `+` and `-`
  expr_loop_op :
      (c : ℕ)
      → (c == b'+' || c == b'-') ≡ true
      → is_inline_space c ≡ false
      → expr_loop (suc (suc (suc f))) (with_code l s) (c ∷ closed)
        ≡ ok (emit (expr_op c) 0 (with_code r (with_code l s)), b')' ∷ tail)
  unfolding expr_loop parse_term skip_inline_space
  expr_loop_op c t sp =
      rw (sp, t, hr (suc f) (with_code l s) (b')' ∷ tail) (omega (arith, fuel)) dr refl) refl

  left_operand :
      (c : ℕ)
      → Stops (c ∷ closed)
      → parse_factor (suc (suc f)) s (expr_text l ++ (c ∷ closed)) ≡ ok (with_code l s, c ∷ closed)
  left_operand c stop = hl (suc (suc f)) s (c ∷ closed) (omega (arith, fuel)) dl stop

  parse_expr-low :
      (c : ℕ)
      → (c == b'+' || c == b'-') ≡ true
      → (c == b'*' || c == b'/') ≡ false
      → is_inline_space c ≡ false
      → Stops (c ∷ closed)
      → parse_expr (suc (suc (suc (suc f)))) s (expr_text l ++ (c ∷ closed))
        ≡ ok (emit (expr_op c) 0 (with_code r (with_code l s)), b')' ∷ tail)
  unfolding parse_expr parse_term
  parse_expr-low c low high sp stop =
      rw (left_operand c stop) (rw (term_loop_skip c high sp) (expr_loop_op c low sp))

  parse_expr-high :
      (c : ℕ)
      → (c == b'*' || c == b'/') ≡ true
      → is_inline_space c ≡ false
      → Stops (c ∷ closed)
      → parse_expr (suc (suc (suc (suc f)))) s (expr_text l ++ (c ∷ closed))
        ≡ ok (emit (term_op c) 0 (with_code r (with_code l s)), b')' ∷ tail)
  unfolding parse_expr parse_term
  parse_expr-high c high sp stop = rw (left_operand c stop) (
      rw (term_loop_op c high sp)
        (expr_loop_stop (suc (suc f)) (emit (term_op c) 0 (with_code r (with_code l s))) tail))

  parse_expr-op :
      (op : Op)
      → parse_expr (suc (suc (suc (suc f)))) s (expr_text l ++ (symbol op ∷ closed))
        ≡ ok (emit (op_code op) 0 (with_code r (with_code l s)), b')' ∷ tail)
  parse_expr-op plus = parse_expr-low b'+' refl refl refl refl
  parse_expr-op minus = parse_expr-low b'-' refl refl refl refl
  parse_expr-op times = parse_expr-high b'*' refl refl refl
  parse_expr-op over = parse_expr-high b'/' refl refl refl

bin_text :
    (op : Op) (l r : Expr) (tail : List ℕ)
    → expr_text (bin op l r) ++ tail
      ≡ b'(' ∷ (expr_text l ++ (symbol op ∷ (expr_text r ++ (b')' ∷ tail))))
bin_text op l r tail =
    ap (λ t. b'(' ∷ t)
      (append_assoc (expr_text l) _ tail
        ∙ ap (λ t. expr_text l ++ (symbol op ∷ t)) (append_assoc (expr_text r) (b')' ∷ []) tail))

parse_factor-bin : (op : Op) (l r : Expr) → IsRead l → IsRead r → IsRead (bin op l r)
unfolding parse_factor skip_inline_space skip_char
parse_factor-bin op l r hl hr (suc (suc (suc (suc (suc f))))) s tail le d stop =
    rw (bin_text op l r tail) (
      rw (parse_expr-op l r hl hr f s tail (omega arith) d.0 d.1 op)
        (ap (λ t. ok (t, tail)) (with_code-bin op l r s)))
parse_factor-bin op l r hl hr zero s tail le d stop = absurd (omega arith)
parse_factor-bin op l r hl hr (suc zero) s tail le d stop = absurd (omega arith)
parse_factor-bin op l r hl hr (suc (suc zero)) s tail le d stop = absurd (omega arith)
parse_factor-bin op l r hl hr (suc (suc (suc zero))) s tail le d stop = absurd (omega arith)
parse_factor-bin op l r hl hr (suc (suc (suc (suc zero)))) s tail le d stop = absurd (omega arith)

-- The text of a tree is read by `parse_factor`, and its code is emitted.
parse_factor-expr_text : (e : Expr) → IsSource e → IsRead e
unfolding parse_factor
parse_factor-expr_text (num digits) h zero s tail le d stop = absurd (omega arith)
parse_factor-expr_text (num digits) h (suc f) s tail le d stop =
    rw (skip-expr_text (num digits) tail h)
      (not_paren digits h.0 (ap ok (parse_atom-num digits tail s h stop)))
  where
    not_paren :
        (ds : List ℕ)
        → is_digit (peek ds) ≡ true
        → ok (parse_atom s (ds ++ tail)) ≡ ok (with_code (num digits) s, tail)
        → (if peek (ds ++ tail) == b'('
            then parse_expr f s (rest (ds ++ tail)) >>= close_paren
            else ok (parse_atom s (ds ++ tail)))
          ≡ ok (with_code (num digits) s, tail)
    not_paren [] k e = absurd (cc k)
    not_paren (c ∷ ds) k e = rw ((digit_char c k).1) e
parse_factor-expr_text (var name) h zero s tail le d stop = absurd (omega arith)
parse_factor-expr_text (var name) h (suc f) s tail le d stop =
    rw (skip-expr_text (var name) tail h) (not_paren name h.0 (parse_name-var name tail s h d stop))
  where
    not_paren :
        (x : List ℕ)
        → is_ident_start (peek x) ≡ true
        → parse_name s (x ++ tail) ≡ (with_code (var name) s, tail)
        → (if peek (x ++ tail) == b'('
            then parse_expr f s (rest (x ++ tail)) >>= close_paren
            else ok (parse_atom s (x ++ tail)))
          ≡ ok (with_code (var name) s, tail)
    not_paren [] k e = absurd (cc k)
    not_paren (c ∷ x) k e = rw ((ident_char c k).1) (ap ok (parse_atom-name s c (x ++ tail) k ∙ e))
parse_factor-expr_text (bin op l r) h f s tail le d stop =
    parse_factor-bin op l r (parse_factor-expr_text l h.0) (parse_factor-expr_text r h.1) f s tail
      le d stop

-- what may follow the expression of a statement: the end of the text or of the line, or a `)`
abbrev pub Ends : List ℕ → Type 0
Ends tail = (peek tail ≡ 0) ⊎ ((peek tail ≡ b'\n') ⊎ (peek tail ≡ b')'))

compare_loop-Ends :
    (f : ℕ) (s : Compiler) (tail : List ℕ)
    → Ends tail
    → (term_loop (suc f) s tail ≡ ok (s, tail))
      × (expr_loop (suc f) s tail ≡ ok (s, tail))
      × (compare_loop (suc f) s tail ≡ ok (s, tail))
unfolding term_loop expr_loop compare_loop compare_op skip_inline_space
compare_loop-Ends f s [] h = (refl, refl, refl)
compare_loop-Ends f s (c ∷ tail) h = (ground (arith, h), ground (arith, h), ground (arith, h))

Ends-Stops : (tail : List ℕ) → Ends tail → Stops tail
Ends-Stops tail h = ground (arith, h)

parse_expr-expr_text :
    (e : Expr) (k : ℕ) (s : Compiler) (tail : List ℕ)
    → IsSource e
    → IsDeclared s.names e
    → Ends tail
    → need e ≤ k
    → parse_expr (suc (suc (suc k))) s (expr_text e ++ tail) ≡ ok (with_code e s, tail)
unfolding parse_expr parse_term
parse_expr-expr_text e k s tail h d end le =
    rw (parse_factor-expr_text e h (suc k) s tail (omega (arith, le)) d (Ends-Stops tail end)) (
      rw ((compare_loop-Ends k (with_code e s) tail end).0)
        ((compare_loop-Ends (suc k) (with_code e s) tail end).1))

-- Hypotheses: the tree can be written, its variables are in the table, and the text goes on with the end
-- of the text or of the line, or with `)`. Then `compile_expr` reads exactly the text of the tree,
-- appends its code, and changes nothing else.
pub compile_expr-expr_text :
    (e : Expr) (s : Compiler) (tail : List ℕ)
    → IsSource e
    → IsDeclared s.names e
    → Ends tail
    → compile_expr s (expr_text e ++ tail)
      ≡ ok (record s { code = s.code ++ expr_code s.names e }, tail)
unfolding compile_expr parse_compare
compile_expr-expr_text e s tail h d end =
    ap (λ f. parse_expr f s text >>= λ r. compare_loop f r.0 r.1) {x = 4 * length text + 4}
      {y = suc (suc (suc k))} (omega arith)
    ∙ finish
  where
    text : List ℕ
    text = expr_text e ++ tail

    k : ℕ
    k = 4 * length text + 1

    enough : need e ≤ k
    enough = omega (arith, need-le e h, length-append (expr_text e) tail)

    finish :
        (parse_expr (suc (suc (suc k))) s text >>= λ r. compare_loop (suc (suc (suc k))) r.0 r.1)
        ≡ ok (with_code e s, tail)
    finish =
        ap (λ (m : Result Parsed). m >>= λ r. compare_loop (suc (suc (suc k))) r.0 r.1)
          (parse_expr-expr_text e k s tail h d end enough)
        ∙ (compare_loop-Ends (suc (suc k)) (with_code e s) tail end).2
