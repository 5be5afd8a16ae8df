-- ===== src/Base/Window.antt =====
-- A stretch of an array: `n` elements from index `i` on, read with 0 past the end.
use Prim.Native.Nat.{ℕ, zero, suc, ◌+◌, ◌<◌, ◌≤◌}
use mathlib.Core.Path.{◌≡◌, refl, ap, ap₂, ◌∙◌}
use mathlib.Core.List.{List, [], ◌∷◌, ◌++◌}
use native.Mathlib.Omega.{arith}
use naw_os.Base.Lists.{length, get_or, take}

abbrev pub window : List ℕ → ℕ → ℕ → List ℕ
window b i zero = []
window b i (suc n) = get_or b i 0 ∷ window b (i + 1) n

pub length-window : (b : List ℕ) (i n : ℕ) → length (window b i n) ≡ n
length-window b i zero = refl
length-window b i (suc n) = ap suc (length-window b (i + 1) n)

pub window_ext :
    (b c : List ℕ) (i k n : ℕ)
    → ((j : ℕ) → j < n → get_or b (i + j) 0 ≡ get_or c (k + j) 0)
    → window b i n ≡ window c k n
window_ext b c i k zero h = refl
window_ext b c i k (suc n) h =
    ap₂ ◌∷◌
      (ap (λ t. get_or b t 0) (omega arith)
        ∙ h 0 (omega arith)
        ∙ ap (λ t. get_or c t 0) (omega arith))
      (window_ext b c (i + 1) (k + 1) n (λ j lt.
        ap (λ t. get_or b t 0) (omega arith)
        ∙ h (suc j) (omega arith)
        ∙ ap (λ t. get_or c t 0) (omega arith)))

pub window-add : (b : List ℕ) (i n m : ℕ) → window b i (n + m) ≡ window b i n ++ window b (i + n) m
window-add b i zero m = ap₂ (window b) (omega arith) (omega arith)
window-add b i (suc n) m =
    ap (window b i) e ∙ ap (λ t. get_or b i 0 ∷ t) (window-add b (i + 1) n m ∙ shift)
  where
    e : suc n + m ≡ suc (n + m)
    e = omega arith

    shift :
        window b (i + 1) n ++ window b (i + 1 + n) m ≡ window b (i + 1) n ++ window b (i + suc n) m
    shift = ap (λ t. window b (i + 1) n ++ window b t m) (omega arith)

pub window-snoc :
    (b : List ℕ) (i n : ℕ) → window b i (n + 1) ≡ window b i n ++ get_or b (i + n) 0 ∷ []
window-snoc b i n = window-add b i n 1

pub window-cons : (x : ℕ) (s : List ℕ) (n : ℕ) → window (x ∷ s) 1 n ≡ window s 0 n
window-cons x s n = window_ext (x ∷ s) s 1 0 n (λ j lt.
    ap (λ t. get_or (x ∷ s) t 0) {y = suc j} (omega arith) ∙ ap (λ t. get_or s t 0) (omega arith))

pub window-eq_take : (b : List ℕ) (n : ℕ) → n ≤ length b → window b 0 n ≡ take n b
window-eq_take b zero h = refl
window-eq_take [] (suc n) h = absurd (omega arith)
window-eq_take (x ∷ s) (suc n) h =
    ap (λ t. x ∷ t) (window-cons x s n ∙ window-eq_take s n (omega arith))
