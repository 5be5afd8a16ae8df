-- ===== src/NawLang/Word.antt =====
-- The `int` of apps/nawlang/vm.c, as its 32-bit pattern. Sums, differences and products wrap as the
-- machine's do.
use naw_os.Base.{
  ℕ, ◌+◌, ◌-◌, ◌*◌, ◌/◌, ◌<◌, ◌≡◌, ◌↔◌, ◌≤◌, ◌≢◌, Bool, true, ◌==◌, leb, ltb, u32, if◌then◌else◌,
  not, ◌&&◌, arith, Bool-cases, inl, inr,
}
use native.Mathlib.Nat.{div-le_self, div-lt_self}
use naw_os.Base.Int.{ℤ, pos, negsuc}

abbrev pub is_negative : ℕ → Bool
is_negative a = leb 2147483648 a

unfoldable pub int_add : ℕ → ℕ → ℕ
int_add a b = u32 (a + b)

unfoldable pub int_sub : ℕ → ℕ → ℕ
int_sub a b = u32 (a + (4294967296 - b))

unfoldable pub int_mul : ℕ → ℕ → ℕ
int_mul a b = u32 (a * b)

abbrev pub magnitude : ℕ → ℕ
magnitude a = if is_negative a then 4294967296 - a else a

-- rounds towards zero, for `b` other than 0
unfoldable pub int_div : ℕ → ℕ → ℕ
int_div a b =
    let q = magnitude a / magnitude b in
    if (if is_negative a then is_negative b else not (is_negative b))
    then q
    else u32 (4294967296 - q)

unfoldable pub int_lt : ℕ → ℕ → Bool
int_lt a b = ltb (u32 (a + 2147483648)) (u32 (b + 2147483648))

-- the number that a pattern stands for
abbrev pub signed : ℕ → ℤ
signed a = if is_negative a then negsuc (4294967295 - a) else pos a

abbrev pub IsLess : ℤ → ℤ → Type 0
IsLess (pos m) (pos n) = m < n
IsLess (pos m) (negsuc n) = ⊥
IsLess (negsuc m) (pos n) = Unit
IsLess (negsuc m) (negsuc n) = n < m

-- The comparison of two 32-bit patterns is the order of the integers that they stand for.
pub int_lt_iff :
    (a b : ℕ) → a < 4294967296 → b < 4294967296 → (int_lt a b ≡ true) ↔ IsLess (signed a) (signed b)
unfolding int_lt
int_lt_iff a b ha hb = elim (Bool-cases (is_negative a)) [
  | inl p ↦ elim (Bool-cases (is_negative b)) [
    | inl q ↦ rw (p, q) (ground arith)
    | inr q ↦ rw (p, q) (ground arith)
  ]
  | inr p ↦ elim (Bool-cases (is_negative b)) [
    | inl q ↦ rw (p, q) (ground arith)
    | inr q ↦ rw (p, q) (ground arith)
  ]
]

pub int_div-lt : (a b : ℕ) → a < 4294967296 → b < 4294967296 → int_div a b < 4294967296
unfolding int_div
int_div-lt a b ha hb = ground (arith, div-le_self (magnitude a) (magnitude b))

-- The quotient of the magnitudes is below 2 ^ 31, but for INT_MIN / -1.
quotient-lt : (x y : ℕ) → y ≢ 0 → x ≤ 2147483648 → (x ≡ 2147483648 → y ≢ 1) → x / y < 2147483648
quotient-lt x y nz h solid = elim (Bool-cases (ltb 1 y)) [
  | inl big ↦ elim (Bool-cases (ltb 0 x)) [
    | inl some_x ↦ omega (arith, div-lt_self {n = x} {k = y} (ground arith) (ground arith))
    | inr no_x ↦ ground (arith, div-le_self x y)
  ]
  | inr one ↦ ground (arith, div-le_self x y)
]

-- For 32-bit patterns, a divisor other than 0, and not INT_MIN / -1, the magnitude of the quotient is
-- the quotient of the magnitudes, and the result is negative exactly when it is not 0 and one of the
-- operands is negative and the other is not.
int_div_lem :
    (a b : ℕ)
    → a < 4294967296
    → b < 4294967296
    → b ≢ 0
    → (a ≡ 2147483648 → b ≢ 4294967295)
    → (magnitude (int_div a b) ≡ magnitude a / magnitude b)
      × (is_negative (int_div a b)
          ≡ (if is_negative a then not (is_negative b) else is_negative b)
            && not (int_div a b == 0))
unfolding int_div
int_div_lem a b ha hb nz solid = elim (Bool-cases (is_negative a)) [
  | inl p ↦ elim (Bool-cases (is_negative b)) [
    | inl q ↦
        let small =
          quotient-lt (4294967296 - a) (4294967296 - b) (λ z. ground arith) (ground arith)
            (ground arith) in
        rw (p, q) (ground (arith, small))
    | inr q ↦ let small = div-le_self (4294967296 - a) b in rw (p, q) (ground (arith, small))
  ]
  | inr p ↦ elim (Bool-cases (is_negative b)) [
    | inl q ↦ let small = div-le_self a (4294967296 - b) in rw (p, q) (ground (arith, small))
    | inr q ↦ let small = div-le_self a b in rw (p, q) (ground (arith, small))
  ]
]
