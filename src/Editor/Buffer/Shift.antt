-- ===== src/Editor/Buffer/Shift.antt =====
-- Where the loops of apps/editor/editor_buffer.c leave each byte.
use naw_os.Base.{
  ℕ, zero, suc, ◌+◌, ◌-◌, ◌≤◌, ◌<◌, ◌≡◌, ◌∙◌, refl, List, length, length-set, get_or, set, arith,
  get_or-set_self, get_or-set_ne, ◌⊎◌, inl, inr, subst, sym,
}
use native.Mathlib.Decide.{ℕ_discrete}
use naw_os.Editor.Buffer.{shift_right, shift_left}

pub length-shift_right : (k e : ℕ) (b : List ℕ) → length (shift_right k e b) ≡ length b
unfolding shift_right
length-shift_right zero e b = refl
length-shift_right (suc k) e b =
    length-shift_right k (e - 1) (set b e (get_or b (e - 1) 0))
    ∙ length-set b e (get_or b (e - 1) 0)

pub length-shift_left : (k i : ℕ) (b : List ℕ) → length (shift_left k i b) ≡ length b
unfolding shift_left
length-shift_left zero i b = refl
length-shift_left (suc k) i b =
    length-shift_left k (i + 1) (set b i (get_or b (i + 1) 0)) ∙ length-set b i (get_or b (i + 1) 0)

-- From `c` on every byte moves up by one, up to the index `e`; the others stay.
pub shift_right-stays :
    (k e c : ℕ) (b : List ℕ) (j : ℕ)
    → k + c ≡ e
    → (j ≤ c) ⊎ (e < j)
    → get_or (shift_right k e b) j 0 ≡ get_or b j 0
unfolding shift_right
shift_right-stays zero e c b j p h = refl
shift_right-stays (suc k) e c b j p h =
    shift_right-stays k (e - 1) c (set b e (get_or b (e - 1) 0)) j (omega arith) (omega arith)
    ∙ get_or-set_ne b e j (get_or b (e - 1) 0) 0 (omega arith)

pub shift_right-moves :
    (k e c : ℕ) (b : List ℕ) (j : ℕ)
    → k + c ≡ e
    → e < length b
    → c < j
    → j ≤ e
    → get_or (shift_right k e b) j 0 ≡ get_or b (j - 1) 0
unfolding shift_right
shift_right-moves zero e c b j p fits lo hi = absurd (omega arith)
shift_right-moves (suc k) e c b j p fits lo hi =
    let b1 = set b e (get_or b (e - 1) 0) in
    elim (ℕ_discrete j e) [
      | yes q ↦
          shift_right-stays k (e - 1) c b1 j (omega arith) (inr (omega arith))
          ∙ subst (λ t. get_or b1 t 0 ≡ get_or b (t - 1) 0) (sym q)
              (get_or-set_self b e (get_or b (e - 1) 0) 0 fits)
      | no q ↦
          shift_right-moves k (e - 1) c b1 j (omega arith)
            (omega (arith, length-set b e (get_or b (e - 1) 0))) lo (omega arith)
          ∙ get_or-set_ne b e (j - 1) (get_or b (e - 1) 0) 0 (omega arith)
    ]

-- From `i` on every byte moves down by one, for `k` bytes; the others stay.
pub shift_left-stays :
    (k i : ℕ) (b : List ℕ) (j : ℕ)
    → (j < i) ⊎ (i + k ≤ j)
    → get_or (shift_left k i b) j 0 ≡ get_or b j 0
unfolding shift_left
shift_left-stays zero i b j h = refl
shift_left-stays (suc k) i b j h =
    shift_left-stays k (i + 1) (set b i (get_or b (i + 1) 0)) j (omega arith)
    ∙ get_or-set_ne b i j (get_or b (i + 1) 0) 0 (omega arith)

pub shift_left-moves :
    (k i : ℕ) (b : List ℕ) (j : ℕ)
    → i + k ≤ length b
    → i ≤ j
    → j < i + k
    → get_or (shift_left k i b) j 0 ≡ get_or b (j + 1) 0
unfolding shift_left
shift_left-moves zero i b j fits lo hi = absurd (omega arith)
shift_left-moves (suc k) i b j fits lo hi =
    let b1 = set b i (get_or b (i + 1) 0) in
    elim (ℕ_discrete i j) [
      | yes q ↦
          shift_left-stays k (i + 1) b1 j (inl (omega arith))
          ∙ subst (λ t. get_or b1 t 0 ≡ get_or b (t + 1) 0) q
              (get_or-set_self b i (get_or b (i + 1) 0) 0 (omega arith))
      | no q ↦
          shift_left-moves k (i + 1) b1 j (omega (arith, length-set b i (get_or b (i + 1) 0)))
            (omega arith) (omega arith)
          ∙ get_or-set_ne b i (j + 1) (get_or b (i + 1) 0) 0 (omega arith)
    ]
