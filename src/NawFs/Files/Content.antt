-- ===== src/NawFs/Files/Content.antt =====
-- What `fs_write` puts into the sector of the file.
use naw_os.Base.{
  ℕ, zero, suc, ◌≤◌, ◌<◌, ◌≡◌, ◌∙◌, ap, List, [], ◌∷◌, length, replicate, take, drop, arith, min,
  ◌==◌, Bool-cases, inl, inr, take-append_at, length-take, take-nil,
}
use naw_os.CString.{strlen, text}
use naw_os.CString.Laws.{strlen-le-length}
use naw_os.CString.Memory.{memcpy_lem, length-memcpy}
use naw_os.NawFs.Files.{stored_len, file_sector}

take-text : (k : ℕ) (s : List ℕ) → take (min k (strlen s)) s ≡ take k (text s)
unfolding strlen text
take-text zero s = ap (λ n. take n s) {y = 0} (omega arith)
take-text (suc k) [] = take-nil ℕ (min (suc k) 0)
take-text (suc k) (c ∷ s) = elim (Bool-cases (c == 0)) [
  | inl e ↦ rw e (ap (λ n. take n (c ∷ s)) {y = 0} (omega arith))
  | inr e ↦ rw e (
      ap (λ n. take n (c ∷ s)) {y = suc (min k (strlen s))} (omega arith)
      ∙ ap (λ l. c ∷ l) (take-text k s))
]

stored_len-eq_min :
    (content : List ℕ) → strlen content < 65536 → stored_len content ≡ min 512 (strlen content)
unfolding stored_len
stored_len-eq_min content small = ground arith

-- The file's bytes on the disk are the text, cut at 512 bytes.
pub take-file_sector :
    (content : List ℕ)
    → strlen content < 65536
    → take (stored_len content) (file_sector content) ≡ take 512 (text content)
unfolding file_sector
take-file_sector content small =
    ap (take len) (memcpy_lem (replicate 512 0) content len fits inside)
    ∙ take-append_at len (take len content) (drop len (replicate 512 0))
        (omega (arith, inside, length-take len content))
    ∙ ap (λ n. take n content) (stored_len-eq_min content small)
    ∙ take-text 512 content
  where
    len : ℕ
    len = stored_len content

    fits : len ≤ length {A = ℕ} (replicate 512 0)
    fits = omega (arith, stored_len-eq_min content small)

    inside : len ≤ length content
    inside = omega (arith, stored_len-eq_min content small, strlen-le-length content)

pub length-file_sector : (content : List ℕ) → length (file_sector content) ≡ 512
unfolding file_sector
length-file_sector content = length-memcpy (replicate 512 0) content (stored_len content)
