-- ===== src/Editor/Input/Saving.antt =====
-- apps/editor/editor_file.c: a load after a save.
use naw_os.Base.{
  ℕ, zero, suc, ◌+◌, ◌≤◌, ◌<◌, ◌≡◌, ◌∙◌, refl, ap, true, Bool-cases, inl, inr, some, List, [], ◌∷◌,
  ◌++◌, length, length-append, take, drop, take_all, take-append_at, length-window, window-eq_take,
  arith, ◌==◌,
}
use mathlib.Core.List.{append_assoc}
use naw_os.CString.{strlen, text}
use naw_os.CString.Laws.{text-window, length-text, text-eq_self, text-All}
use naw_os.CString.Memory.{memcpy, memcpy_lem, length-memcpy}
use naw_os.NawFs.Device.{BlockDevice, IsReliable}
use naw_os.NawFs.Catalog.{Fs}
use naw_os.NawFs.Files.{copy_text, fs_read, fs_read_to_buffer, fs_write}
use naw_os.NawFs.Files.Valid
use naw_os.NawFs.Files.Laws.Write.{fs_read-fs_write_same}
use naw_os.Editor.State.{EditorState, IsValid, contents}
use naw_os.Editor.Input.{editor_file_load, editor_file_save}

copy_text-take : (room : ℕ) (s : List ℕ) → copy_text room s ≡ take room (text s)
unfolding copy_text text
copy_text-take zero s = refl
copy_text-take (suc room) [] = refl
copy_text-take (suc room) (c ∷ s) = elim (Bool-cases (c == 0)) [
  | inl e ↦ rw e
  | inr e ↦ rw e (ap (λ t. c ∷ t) (copy_text-take room s))
]

pub text-contents : (st : EditorState) → IsValid st → text st.buffer ≡ contents st
text-contents st v = text-window st.buffer st.len v.solid v.ended

fs_read_to_buffer-some :
    (dev : BlockDevice) (name ext s : List ℕ) (fs : Fs dev.Disk)
    → fs_read dev name ext fs ≡ some s
    → fs_read_to_buffer dev name ext 512 fs ≡ some (length (take 511 (text s)), take 511 (text s))
unfolding fs_read_to_buffer
fs_read_to_buffer-some dev name ext s fs h =
    rw (h, fs_read_to_buffer) (ap some (ap (λ t. (length t, t)) (copy_text-take 511 s)))

-- A file that holds the text of a session is read back as that text.
short_text : (s : List ℕ) → strlen s < 512 → take 511 (text (take 512 (text s))) ≡ text s
short_text s h =
    ap (λ t. take 511 (text t)) (take_all 512 (text s) (ground (arith, length-text s)))
    ∙ ap (take 511) (text-eq_self (text s) (text-All s))
    ∙ take_all 511 (text s) (ground (arith, length-text s))

loaded_contents :
    (dev : BlockDevice) (st : EditorState) (fs : Fs dev.Disk) (t : List ℕ)
    → length st.buffer ≡ 512
    → length t < 512
    → fs_read_to_buffer dev st.name st.ext 512 fs ≡ some (length t, t)
    → contents (editor_file_load dev st fs) ≡ t
unfolding editor_file_load
loaded_contents dev st fs t size short h =
    rw (h, editor_file_load)
      (window-eq_take (memcpy st.buffer (t ++ (0 ∷ [])) (length t + 1)) (length t)
          (ground (arith, length-memcpy st.buffer (t ++ (0 ∷ [])) (length t + 1)))
        ∙ ap (take (length t))
            (memcpy_lem st.buffer (t ++ (0 ∷ [])) (length t + 1) (omega arith) fits)
        ∙ ap (λ x. take (length t) (x ++ drop (length t + 1) st.buffer))
            (take_all (length t + 1) (t ++ (0 ∷ [])) (omega (arith, length-append t (0 ∷ []))))
        ∙ ap (take (length t)) (append_assoc t (0 ∷ []) (drop (length t + 1) st.buffer))
        ∙ take-append_at (length t) t (0 ∷ drop (length t + 1) st.buffer) refl)
  where
    fits : length t + 1 ≤ length (t ++ (0 ∷ []))
    fits = ground (arith, length-append t (0 ∷ []))

-- When a valid session saves its text to a valid catalog on a reliable disk, any session of the same
-- name and extension with a buffer of 512 bytes that loads from the resulting file system has that
-- text.
pub editor_file_load-editor_file_save :
    (dev : BlockDevice) (r : IsReliable dev) (st st' : EditorState) (fs : Fs dev.Disk)
    → Valid.IsValid fs
    → IsValid st
    → st'.name ≡ st.name
    → st'.ext ≡ st.ext
    → length st'.buffer ≡ 512
    → (editor_file_save dev st fs).0 ≡ true
    → contents (editor_file_load dev st' (editor_file_save dev st fs).1) ≡ contents st
unfolding editor_file_save
editor_file_load-editor_file_save dev r st st' fs v w same_name same_ext size done =
    loaded_contents dev st' _ (text st.buffer) size (omega (arith, short)) (
      rw (same_name, same_ext)
        (fs_read_to_buffer-some dev st.name st.ext _ _ read
          ∙ ap (λ t. some (length t, t)) (short_text st.buffer small)))
    ∙ text-contents st w
  where
    short : length (text st.buffer) < 512
    short = rw (text-contents st w, length-window st.buffer 0 st.len) w.fits

    small : strlen st.buffer < 512
    small = omega (arith, short, length-text st.buffer)

    read :
        fs_read dev st.name st.ext (fs_write dev st.name st.ext st.buffer fs).1
        ≡ some (take 512 (text st.buffer))
    read =
        fs_read-fs_write_same dev r st.name st.ext st.name st.ext st.buffer fs v
          (omega (arith, small)) (refl, refl) done
