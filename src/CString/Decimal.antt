-- ===== src/CString/Decimal.antt =====
-- `itoa` of lib/nawstring.c, and the decimal output of kernel/terminal/terminal.c. Integers are 32-bit
-- patterns; a text is the list of the bytes before its terminator.
use naw_os.Base.{
  ℕ, zero, suc, ◌+◌, ◌-◌, ◌*◌, ◌/◌, ◌%◌, ◌<◌, ◌≡◌, ◌≢◌, ◌∙◌, refl, ap, true, Bool-cases, inl, inr,
  List, [], ◌∷◌, leb, ◌==◌, if◌then◌else◌, u32, ne→==, All, arith,
}
use naw_os.CString.{itoa_digits, is_digit, atoi_digits, skip_blanks, naw_atoi}

-- the loop that reverses the digits, onto what follows them
unfoldable pub reverse_digits : List ℕ → List ℕ → List ℕ
reverse_digits [] tail = tail
reverse_digits (d ∷ ds) tail = reverse_digits ds (d ∷ tail)

-- The digits that the loop makes of INT_MIN, which `-value` leaves negative: the remainders are.
unfoldable pub min_digits : ℕ → ℕ → List ℕ
min_digits zero value = []
min_digits (suc fuel) value =
    let more = min_digits fuel (value / 10) in if value == 0 then [] else (b'0' - value % 10) ∷ more

unfoldable pub itoa : ℕ → List ℕ
itoa value =
    if value == 0
    then b'0' ∷ []
    else (if value == 2147483648
        then b'-' ∷ reverse_digits (min_digits 10 2147483648) []
        else (if leb 2147483648 value
            then b'-' ∷ reverse_digits (itoa_digits 10 (4294967296 - value)) []
            else reverse_digits (itoa_digits 10 value) []))

-- what `terminal_write_dec` prints
unfoldable pub dec_text : ℕ → List ℕ
dec_text num = if num == 0 then b'0' ∷ [] else reverse_digits (itoa_digits 10 num) []

-- what `terminal_write_int` prints: of INT_MIN only the sign, since `num > 0` fails at once
unfoldable pub int_text : ℕ → List ℕ
int_text num =
    if num == 0
    then b'0' ∷ []
    else (if num == 2147483648
        then b'-' ∷ []
        else (if leb 2147483648 num
            then b'-' ∷ reverse_digits (itoa_digits 10 (4294967296 - num)) []
            else reverse_digits (itoa_digits 10 num) []))

-- 10 ^ n
power : ℕ → ℕ
power zero = 1
power (suc n) = 10 * power n

next_digit :
    (v : ℕ) (t : List ℕ)
    → v < 4294967296
    → atoi_digits (v / 10) ((48 + v % 10) ∷ t) ≡ atoi_digits v t
unfolding atoi_digits
next_digit v t s = elim (Bool-cases (is_digit (48 + v % 10))) [
  | inl e ↦ rw e (ap (λ x. atoi_digits x t) (omega arith))
  | inr e ↦ absurd (ground (arith, e))
]

-- Reading the digits of a number, most significant first, gives the number.
atoi_digits-reverse_digits :
    (fuel value : ℕ) (tail : List ℕ)
    → value < power fuel
    → value < 4294967296
    → atoi_digits 0 (reverse_digits (itoa_digits fuel value) tail) ≡ atoi_digits value tail
unfolding power itoa_digits reverse_digits
atoi_digits-reverse_digits zero value tail h small = ap (λ v. atoi_digits v tail) (omega arith)
atoi_digits-reverse_digits (suc fuel) value tail h small = elim (Bool-cases (value == 0)) [
  | inl e ↦ rw e (ap (λ v. atoi_digits v tail) (ground (arith, e)))
  | inr e ↦ rw e (
      atoi_digits-reverse_digits fuel (value / 10) ((48 + value % 10) ∷ tail) (omega (arith, h))
        (omega arith)
      ∙ next_digit value tail small)
]

-- Decimal digits, which no blank and no sign is.
digits-are_digits : (fuel value : ℕ) → All (λ d. is_digit d ≡ true) (itoa_digits fuel value)
unfolding itoa_digits
digits-are_digits zero value = tt
digits-are_digits (suc fuel) value = elim (Bool-cases (value == 0)) [
  | inl e ↦ rw e tt
  | inr e ↦ rw e (ground arith, digits-are_digits fuel (value / 10))
]

-- A text that starts with a digit is read by its digits alone.
naw_atoi-digit : (c : ℕ) (s : List ℕ) → is_digit c ≡ true → naw_atoi (c ∷ s) ≡ atoi_digits 0 (c ∷ s)
unfolding naw_atoi skip_blanks
naw_atoi-digit c s h = ground (arith, h)

reverse_digits-head :
    (ds : List ℕ) (d : ℕ) (tail : List ℕ)
    → All (λ x. is_digit x ≡ true) ds
    → is_digit d ≡ true
    → naw_atoi (reverse_digits ds (d ∷ tail)) ≡ atoi_digits 0 (reverse_digits ds (d ∷ tail))
unfolding reverse_digits
reverse_digits-head [] d tail h k = naw_atoi-digit d tail k
reverse_digits-head (x ∷ ds) d tail h k = reverse_digits-head ds x (d ∷ tail) h.1 h.0

naw_atoi-reverse_digits :
    (ds : List ℕ)
    → All (λ x. is_digit x ≡ true) ds
    → naw_atoi (reverse_digits ds []) ≡ atoi_digits 0 (reverse_digits ds [])
unfolding reverse_digits naw_atoi skip_blanks
naw_atoi-reverse_digits [] h = refl
naw_atoi-reverse_digits (d ∷ ds) h = reverse_digits-head ds d [] h.1 h.0

digits_value :
    (value : ℕ)
    → value < 4294967296
    → atoi_digits 0 (reverse_digits (itoa_digits 10 value) []) ≡ value
digits_value value h =
    atoi_digits-reverse_digits 10 value [] (unfold power in omega arith) h
    ∙ (unfold atoi_digits in refl)

read_digits :
    (value : ℕ) → value < 4294967296 → naw_atoi (reverse_digits (itoa_digits 10 value) []) ≡ value
read_digits value h =
    naw_atoi-reverse_digits (itoa_digits 10 value) (digits-are_digits 10 value)
    ∙ digits_value value h

naw_atoi-minus : (s : List ℕ) → naw_atoi (b'-' ∷ s) ≡ u32 (4294967296 - atoi_digits 0 s)
unfolding naw_atoi skip_blanks
naw_atoi-minus s = refl

-- the text of 0
zero_text : naw_atoi (b'0' ∷ []) ≡ 0
unfolding naw_atoi skip_blanks atoi_digits
zero_text = refl

-- Reading what the terminal prints of an unsigned 32-bit number gives its pattern.
pub naw_atoi-dec_text : (num : ℕ) → num < 4294967296 → naw_atoi (dec_text num) ≡ num
unfolding dec_text
naw_atoi-dec_text num h = elim (Bool-cases (num == 0)) [
  | inl e ↦ rw e (zero_text ∙ ground (arith, e))
  | inr e ↦ rw e (read_digits num h)
]

negative_text :
    (value : ℕ)
    → value < 4294967296
    → leb 2147483648 value ≡ true
    → naw_atoi (b'-' ∷ reverse_digits (itoa_digits 10 (4294967296 - value)) []) ≡ value
negative_text value h neg =
    naw_atoi-minus (reverse_digits (itoa_digits 10 (4294967296 - value)) [])
    ∙ ap (λ x. u32 (4294967296 - x)) (digits_value (4294967296 - value) (ground arith))
    ∙ ground arith

-- Reading the text of a 32-bit integer other than INT_MIN gives the integer.
pub naw_atoi-itoa :
    (value : ℕ) → value < 4294967296 → value ≢ 2147483648 → naw_atoi (itoa value) ≡ value
unfolding itoa
naw_atoi-itoa value h no_min = elim (Bool-cases (value == 0)) [
  | inl e ↦ rw e (zero_text ∙ ground (arith, e))
  | inr e ↦ elim (Bool-cases (leb 2147483648 value)) [
    | inl f ↦ rw (e, ne→== value 2147483648 no_min, f) (negative_text value h f)
    | inr f ↦ rw (e, ne→== value 2147483648 no_min, f) (read_digits value h)
  ]
]

-- Reading what the terminal prints of a 32-bit integer other than INT_MIN gives the integer.
pub naw_atoi-int_text :
    (num : ℕ) → num < 4294967296 → num ≢ 2147483648 → naw_atoi (int_text num) ≡ num
unfolding int_text
naw_atoi-int_text num h no_min = elim (Bool-cases (num == 0)) [
  | inl e ↦ rw e (zero_text ∙ ground (arith, e))
  | inr e ↦ elim (Bool-cases (leb 2147483648 num)) [
    | inl f ↦ rw (e, ne→== num 2147483648 no_min, f) (negative_text num h f)
    | inr f ↦ rw (e, ne→== num 2147483648 no_min, f) (read_digits num h)
  ]
]
