-- ===== src/CString/Laws.antt =====
-- What the string functions compute.
use naw_os.Base.{
  ◌<◌, get_or, window, window-cons, ℕ, zero, suc, ◌≡◌, ◌≢◌, ◌≤◌, refl, List, [], ◌∷◌, length, take,
  arith, ◌==◌, Bool-cases, inl, inr, All,
}
use naw_os.CString.{rest, strlen, text, strncpy}

pub length-text : (s : List ℕ) → length (text s) ≡ strlen s
unfolding text strlen
length-text [] = refl
length-text (c ∷ s) = ground (arith, length-text s)

pub strlen-le-length : (s : List ℕ) → strlen s ≤ length s
unfolding strlen
strlen-le-length [] = omega arith
strlen-le-length (c ∷ s) = ground (arith, strlen-le-length s)

-- Without zeros the whole list is the string.
pub text-eq_self : (s : List ℕ) → All (λ c. c ≢ 0) s → text s ≡ s
unfolding text
text-eq_self [] h = refl
text-eq_self (c ∷ s) h = ground (arith, text-eq_self s h.1, h.0)

pub text-All : (s : List ℕ) → All (λ c. c ≢ 0) (text s)
unfolding text
text-All [] = tt
text-All (c ∷ s) = elim (Bool-cases (c == 0)) [
  | inl e ↦ rw e tt
  | inr e ↦ rw e ((λ z. ground arith), text-All s)
]

pub take-strlen : (s : List ℕ) → take (strlen s) s ≡ text s
unfolding text strlen
take-strlen [] = refl
take-strlen (c ∷ s) = ground (arith, take-strlen s)

pub length-strncpy : (dest src : List ℕ) (n : ℕ) → length (strncpy dest src n) ≡ length dest
unfolding strncpy
length-strncpy dest src zero = refl
length-strncpy [] src (suc n) = refl
length-strncpy (d ∷ dest) src (suc n) =
    ground (arith, length-strncpy dest [] n, length-strncpy dest (rest src) n)

-- An array without zeros before one at `n` holds the string of its first `n` bytes.
pub text-window :
    (b : List ℕ) (n : ℕ)
    → ((j : ℕ) → j < n → get_or b j 0 ≢ 0)
    → get_or b n 0 ≡ 0
    → text b ≡ window b 0 n
unfolding text
text-window [] zero solid ended = refl
text-window [] (suc n) solid ended = absurd (solid 0 (omega arith) refl)
text-window (c ∷ s) zero solid ended = ground arith
text-window (c ∷ s) (suc n) solid ended = ground (
  arith,
  solid 0 (omega arith),
  text-window s n (λ j h. solid (suc j) (omega arith)) ended,
  window-cons c s n,
)
