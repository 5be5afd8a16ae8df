-- ===== src/CString/Memory.antt =====
-- kernel/memory/memory.c: the loops write the first `n` bytes of `dest` in place.
use mathlib.Core.Path.{ap₂}
use naw_os.Base.{
  ℕ, zero, suc, ◌≤◌, List, [], ◌∷◌, ◌++◌, ◌==◌, if◌then◌else◌, u8, length, take, drop, replicate,
  ◌≡◌, refl, ap, arith, ==_iff, Bool-cases, inl, inr, ◌↔◌, true,
}
use naw_os.Base.Int.{ℤ, pos, sub_ℕ, is_zero, is_zero_iff}

unfoldable pub memset : List ℕ → ℕ → ℕ → List ℕ
memset dest val zero = dest
memset [] val (suc n) = []
memset (d ∷ dest) val (suc n) = u8 val ∷ memset dest val n

unfoldable pub memcpy : List ℕ → List ℕ → ℕ → List ℕ
memcpy dest src zero = dest
memcpy [] src (suc n) = []
memcpy (d ∷ dest) [] (suc n) = d ∷ dest
memcpy (d ∷ dest) (s ∷ src) (suc n) = s ∷ memcpy dest src n

unfoldable pub memcmp : List ℕ → List ℕ → ℕ → ℤ
memcmp p q zero = pos 0
memcmp [] q (suc n) = pos 0
memcmp (x ∷ p) [] (suc n) = pos 0
memcmp (x ∷ p) (y ∷ q) (suc n) = let next = memcmp p q n in if x == y then next else sub_ℕ x y

pub length-memcpy : (dest src : List ℕ) (n : ℕ) → length (memcpy dest src n) ≡ length dest
unfolding memcpy
length-memcpy dest src zero = refl
length-memcpy [] src (suc n) = refl
length-memcpy (d ∷ dest) [] (suc n) = refl
length-memcpy (d ∷ dest) (s ∷ src) (suc n) = ap suc (length-memcpy dest src n)

-- A copy that fits replaces the beginning of `dest` and leaves the end.
pub memcpy_lem :
    (dest src : List ℕ) (n : ℕ)
    → n ≤ length dest
    → n ≤ length src
    → memcpy dest src n ≡ take n src ++ drop n dest
unfolding memcpy
memcpy_lem dest src zero h k = refl
memcpy_lem [] src (suc n) h k = absurd (omega arith)
memcpy_lem (d ∷ dest) [] (suc n) h k = absurd (omega arith)
memcpy_lem (d ∷ dest) (s ∷ src) (suc n) h k =
    ap (λ t. s ∷ t) (memcpy_lem dest src n (omega arith) (omega arith))

pub memset_zero : (dest : List ℕ) (n : ℕ) → length dest ≡ n → memset dest 0 n ≡ replicate n 0
unfolding memset
memset_zero [] zero h = refl
memset_zero (d ∷ dest) zero h = absurd (omega arith)
memset_zero [] (suc n) h = absurd (omega arith)
memset_zero (d ∷ dest) (suc n) h = ap (λ t. 0 ∷ t) (memset_zero dest n (omega arith))

memcmp-zero : (p q : List ℕ) (n : ℕ) → length p ≡ n → length q ≡ n → memcmp p q n ≡ pos 0 → p ≡ q
unfolding memcmp
memcmp-zero [] [] n hp hq h = refl
memcmp-zero [] (y ∷ q) n hp hq h = absurd (omega arith)
memcmp-zero (x ∷ p) [] n hp hq h = absurd (omega arith)
memcmp-zero (x ∷ p) (y ∷ q) zero hp hq h = absurd (omega arith)
memcmp-zero (x ∷ p) (y ∷ q) (suc n) hp hq h = elim (Bool-cases (x == y)) [
  | inl e ↦
      ap₂ ◌∷◌ ((==_iff x y).0 e) (memcmp-zero p q n (omega arith) (omega arith) (ground arith))
  | inr e ↦ ground arith
]

pub memcmp_self : (p : List ℕ) (n : ℕ) → memcmp p p n ≡ pos 0
unfolding memcmp
memcmp_self p zero = refl
memcmp_self [] (suc n) = refl
memcmp_self (x ∷ p) (suc n) = ground (arith, memcmp_self p n)

-- `memcmp` over two whole arrays of one length returns 0 exactly when they are equal.
pub memcmp_iff :
    (p q : List ℕ) (n : ℕ) → length p ≡ n → length q ≡ n → (memcmp p q n ≡ pos 0) ↔ (p ≡ q)
memcmp_iff p q n hp hq = (memcmp-zero p q n hp hq, λ e. rw e (memcmp_self q n))

pub is_zero-memcmp :
    (p q : List ℕ) (n : ℕ) → length p ≡ n → length q ≡ n → (is_zero (memcmp p q n) ≡ true) ↔ (p ≡ q)
is_zero-memcmp p q n hp hq = (
  λ h. (memcmp_iff p q n hp hq).0 ((is_zero_iff (memcmp p q n)).0 h),
  λ e. (is_zero_iff (memcmp p q n)).1 ((memcmp_iff p q n hp hq).1 e),
)
