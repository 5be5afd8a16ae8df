-- ===== src/NawLang/Compiler/Tree.antt =====
-- apps/nawlang/compiler.c: arithmetic expressions as trees, with the text, the code and the value of each.
-- No code of the program is modelled here: it is what the compiler is measured against.
pub mod Parse
pub mod Run
use naw_os.Base.{
  ℕ, zero, suc, ◌+◌, ◌-◌, ◌*◌, ◌≤◌, ◌≡◌, ◌≢◌, Bool, true, false, ◌&&◌, Option, none, some, List, [],
  ◌∷◌, ◌++◌, ◌==◌, if◌then◌else◌, length, get_or, All, u32,
}
use naw_os.CString.{peek, is_digit}
use naw_os.NawLang.Word.{int_add, int_sub, int_mul, int_div}
use naw_os.NawLang.Bytecode.{
  OpCode, Instruction, op_push_int, op_load_var, op_add, op_sub, op_mul, op_div,
}
use naw_os.NawLang.Compiler.Scan.{is_ident_start, is_ident_char}
use naw_os.NawLang.Compiler.State.{Compiler, find_text}
use naw_os.NawLang.Compiler.Native.{native_math_id_from_name}

pub data Op : Type 0 where
  plus minus times over : Op

-- A number by its digits, a variable by its name, or an operation in parentheses.
pub data Expr : Type 0 where
  num : List ℕ → Expr
  var : List ℕ → Expr
  bin : Op → Expr → Expr → Expr

abbrev pub symbol : Op → ℕ
symbol plus = b'+'
symbol minus = b'-'
symbol times = b'*'
symbol over = b'/'

abbrev pub op_code : Op → OpCode
op_code plus = op_add
op_code minus = op_sub
op_code times = op_mul
op_code over = op_div

abbrev pub expr_text : Expr → List ℕ
expr_text (num digits) = digits
expr_text (var name) = name
expr_text (bin op l r) = b'(' ∷ (expr_text l ++ (symbol op ∷ (expr_text r ++ (b')' ∷ []))))

-- A number has a digit and only digits; a name is an identifier of at most 15 characters and no native
-- function.
abbrev pub IsSource : Expr → Type 0
IsSource (num digits) = (is_digit (peek digits) ≡ true) × All (λ c. is_digit c ≡ true) digits
IsSource (var name) =
    (is_ident_start (peek name) ≡ true)
    × All (λ c. is_ident_char c ≡ true) name
    × (length name ≤ 15)
    × (native_math_id_from_name name ≡ none)
IsSource (bin op l r) = IsSource l × IsSource r

-- the value of digits, from a value on, as a 32-bit pattern
abbrev pub digits_value : ℕ → List ℕ → ℕ
digits_value v [] = v
digits_value v (c ∷ digits) = digits_value (u32 (v * 10 + (c - b'0'))) digits

-- the place of a name in the table, 0 if it is not there
abbrev pub place : Option ℕ → ℕ
place none = 0
place (some i) = i

abbrev pub index_of : List (List ℕ) → List ℕ → ℕ
index_of names name = place (find_text 0 names name)

-- The variables of the expression stand in the table.
abbrev pub IsDeclared : List (List ℕ) → Expr → Type 0
IsDeclared names (num digits) = Unit
IsDeclared names (var name) = find_text 0 names name ≢ none
IsDeclared names (bin op l r) = IsDeclared names l × IsDeclared names r

-- the code, for a table of names
abbrev pub expr_code : List (List ℕ) → Expr → List Instruction
expr_code names (num digits) = record { op = op_push_int; arg = digits_value 0 digits } ∷ []
expr_code names (var name) = record { op = op_load_var; arg = index_of names name } ∷ []
expr_code names (bin op l r) =
    expr_code names l ++ (expr_code names r ++ (record { op = op_code op; arg = 0 } ∷ []))

-- A division by 0 and INT_MIN / -1 have no value.
abbrev pub apply : Op → ℕ → ℕ → Option ℕ
apply plus a b = some (int_add a b)
apply minus a b = some (int_sub a b)
apply times a b = some (int_mul a b)
apply over a b =
    if b == 0
    then none
    else (if (a == 2147483648) && (b == 4294967295) then none else some (int_div a b))

abbrev pub apply_both : Op → Option ℕ → Option ℕ → Option ℕ
apply_both op (some a) (some b) = apply op a b
apply_both op (some a) none = none
apply_both op none b = none

-- the value, for the values of the variables
abbrev pub eval : (List ℕ → ℕ) → Expr → Option ℕ
eval look (num digits) = some (digits_value 0 digits)
eval look (var name) = some (look name)
eval look (bin op l r) = apply_both op (eval look l) (eval look r)

-- how many values the stack needs
abbrev pub depth : Expr → ℕ
depth (num digits) = 1
depth (var name) = 1
depth (bin op l r) = depth l + depth r
