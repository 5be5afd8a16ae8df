-- ===== src/CString.antt =====
-- lib/nawstring.c, lib/nawutil.c, kernel/memory/memory.c.
-- A pointer into a string or an array is the list of the bytes from there on. What stands past the
-- end of a list reads as 0, the terminator of a C string, and no loop walks over it.
pub mod Memory
pub mod Laws
pub mod Decimal
mod Tests
use naw_os.Base.{
  ℕ, zero, suc, ◌+◌, ◌-◌, ◌*◌, ◌/◌, ◌%◌, Bool, true, false, ◌&&◌, ◌||◌, Option, none, some, List,
  [], ◌∷◌, ◌++◌, ltb, leb, ◌==◌, if◌then◌else◌, u8, u32, get_or,
}
use naw_os.Base.Int.{ℤ, pos, sub_ℕ}

-- `*p`
abbrev pub peek : List ℕ → ℕ
peek [] = 0
peek (c ∷ s) = c

-- `p + 1`
abbrev pub rest : List ℕ → List ℕ
rest [] = []
rest (c ∷ s) = s

unfoldable pub strlen : List ℕ → ℕ
strlen [] = 0
strlen (c ∷ s) = if c == 0 then 0 else suc (strlen s)

-- what a reader of the string sees: the bytes before the first 0
unfoldable pub text : List ℕ → List ℕ
text [] = []
text (c ∷ s) = if c == 0 then [] else c ∷ text s

-- writes the first `n` bytes of `dest`: those of the string, then zeros
unfoldable pub strncpy : List ℕ → List ℕ → ℕ → List ℕ
strncpy dest src zero = dest
strncpy [] src (suc n) = []
strncpy (d ∷ dest) src (suc n) =
    if peek src == 0 then 0 ∷ strncpy dest [] n else peek src ∷ strncpy dest (rest src) n

unfoldable pub strcmp : List ℕ → List ℕ → ℤ
strcmp [] s2 = sub_ℕ 0 (peek s2)
strcmp (c ∷ s1) s2 =
    let next = strcmp s1 (rest s2) in
    if (if c == 0 then false else (c == peek s2)) then next else sub_ℕ c (peek s2)

unfoldable pub strncmp : List ℕ → List ℕ → ℕ → ℤ
strncmp s1 s2 zero = pos 0
strncmp s1 s2 (suc n) =
    let next = strncmp (rest s1) (rest s2) n in
    if peek s1 == peek s2 then (if peek s1 == 0 then pos 0 else next) else sub_ℕ (peek s1) (peek s2)

-- the inner loop of `strstr`: the needle is used up
unfoldable pub starts_with : List ℕ → List ℕ → Bool
starts_with h [] = true
starts_with h (n ∷ needle) =
    if n == 0
    then true
    else (if peek h == 0 then false else ((peek h == n) && starts_with (rest h) needle))

-- `none` is the null pointer
unfoldable pub strstr : List ℕ → List ℕ → Option (List ℕ)
strstr [] needle = if peek needle == 0 then some [] else none
strstr (c ∷ h) needle =
    let next = strstr h needle in
    if peek needle == 0
    then some (c ∷ h)
    else (if c == 0 then none else (if starts_with (c ∷ h) needle then some (c ∷ h) else next))

unfoldable pub naw_find_char : List ℕ → ℕ → Option (List ℕ)
naw_find_char [] ch = none
naw_find_char (c ∷ s) ch =
    let next = naw_find_char s ch in
    if c == 0 then none else (if c == ch then some (c ∷ s) else next)

-- the digit loop of `itoa` on a value that is not negative, before the reversal
unfoldable pub itoa_digits : ℕ → ℕ → List ℕ
itoa_digits zero value = []
itoa_digits (suc fuel) value =
    let more = itoa_digits fuel (value / 10) in
    if value == 0 then [] else (b'0' + value % 10) ∷ more

abbrev pub is_digit : ℕ → Bool
is_digit c = leb b'0' c && leb c b'9'

-- `result` wraps as the machine's 32-bit product and sum do
unfoldable pub atoi_digits : ℕ → List ℕ → ℕ
atoi_digits result [] = result
atoi_digits result (c ∷ s) =
    let next = atoi_digits (u32 (result * 10 + (c - b'0'))) s in if is_digit c then next else result

unfoldable pub skip_blanks : List ℕ → List ℕ
skip_blanks [] = []
skip_blanks (c ∷ s) = if c == b' ' then skip_blanks s else c ∷ s

-- the result is the bit pattern of the `int`
unfoldable pub naw_atoi : List ℕ → ℕ
naw_atoi str =
    let s = skip_blanks str in
    if peek s == b'-'
    then u32 (4294967296 - atoi_digits 0 (rest s))
    else (if peek s == b'+' then atoi_digits 0 (rest s) else atoi_digits 0 s)
