-- ===== src/Editor/Buffer/Refine.antt =====
-- apps/editor/editor_buffer.c against the text before and after the cursor.
use native.Mathlib.Decide.{dec_lt, ℕ_discrete}
use naw_os.Base.{
  ℕ, ◌+◌, ◌-◌, ◌≤◌, ◌<◌, ◌≡◌, ◌≢◌, inl, inr, ◌∙◌, refl, ap, ap₂, sym, true, false, Bool-cases, [],
  ◌∷◌, ◌++◌, length-set, get_or, set, get_or-set_self, get_or-set_ne, window, window_ext,
  window-snoc, arith, leb, ltb, ◌==◌, if◌then◌else◌,
}
use mathlib.Core.List.{append-nil}
use naw_os.Editor.State.{EditorState, IsValid, before_cursor, after_cursor}
use naw_os.Editor.Buffer.{shift_right, shift_left, editor_buffer_insert, editor_buffer_delete}
use naw_os.Editor.Buffer.Shift.{
  length-shift_right, shift_right-stays, shift_right-moves, length-shift_left, shift_left-stays,
  shift_left-moves,
}

-- The state that a successful insertion, or deletion, leaves.
abbrev inserted : ℕ → EditorState → EditorState
inserted c st = record st {
  buffer = set (shift_right (st.len + 1 - st.cursor) (st.len + 1) st.buffer) st.cursor c;
  len = st.len + 1;
  cursor = st.cursor + 1;
}

abbrev removed : EditorState → EditorState
removed st = record st {
  buffer = shift_left (st.len - (st.cursor - 1)) (st.cursor - 1) st.buffer;
  len = st.len - 1;
  cursor = st.cursor - 1;
}

module _ (c : ℕ) (st : EditorState) (v : IsValid st) (room : st.len < 511) where
  at_cursor : get_or (inserted c st).buffer st.cursor 0 ≡ c
  at_cursor =
      get_or-set_self (shift_right (st.len + 1 - st.cursor) (st.len + 1) st.buffer) st.cursor c 0 (
        omega (
          arith,
          length-shift_right (st.len + 1 - st.cursor) (st.len + 1) st.buffer,
          v.size,
          v.inside,
          v.fits,
        ))

  below_cursor : (j : ℕ) → j < st.cursor → get_or (inserted c st).buffer j 0 ≡ get_or st.buffer j 0
  below_cursor j h =
      get_or-set_ne (shift_right (st.len + 1 - st.cursor) (st.len + 1) st.buffer) st.cursor j c 0
        (omega arith)
      ∙ shift_right-stays (st.len + 1 - st.cursor) (st.len + 1) st.cursor st.buffer j
          (omega (arith, v.inside)) (inl (omega arith))

  above_cursor :
      (j : ℕ)
      → st.cursor < j
      → j ≤ st.len + 1
      → get_or (inserted c st).buffer j 0 ≡ get_or st.buffer (j - 1) 0
  above_cursor j lo hi =
      get_or-set_ne (shift_right (st.len + 1 - st.cursor) (st.len + 1) st.buffer) st.cursor j c 0
        (omega arith)
      ∙ shift_right-moves (st.len + 1 - st.cursor) (st.len + 1) st.cursor st.buffer j
          (omega (arith, v.inside)) (omega (arith, v.size)) lo hi

  before_inserted : before_cursor (inserted c st) ≡ before_cursor st ++ (c ∷ [])
  before_inserted =
      window-snoc (inserted c st).buffer 0 st.cursor
      ∙ ap₂ (λ l x. l ++ (x ∷ []))
          (window_ext (inserted c st).buffer st.buffer 0 0 st.cursor
            (λ j h. below_cursor (0 + j) (omega arith)))
          (ap (λ k. get_or (inserted c st).buffer k 0) (omega arith) ∙ at_cursor)

  after_inserted : after_cursor (inserted c st) ≡ after_cursor st
  after_inserted =
      ap (window (inserted c st).buffer (st.cursor + 1)) (omega (arith, v.inside))
      ∙ window_ext (inserted c st).buffer st.buffer (st.cursor + 1) st.cursor (st.len - st.cursor)
          (λ j h.
            above_cursor (st.cursor + 1 + j) (omega arith) (omega arith)
            ∙ ap (λ k. get_or st.buffer k 0) (omega arith))

  inserted-IsValid : c ≢ 0 → IsValid (inserted c st)
  inserted-IsValid ne = record {
    size =
        length-set (shift_right (st.len + 1 - st.cursor) (st.len + 1) st.buffer) st.cursor c
        ∙ length-shift_right (st.len + 1 - st.cursor) (st.len + 1) st.buffer
        ∙ v.size;
    fits = omega arith;
    inside = omega (arith, v.inside);
    ended =
        above_cursor (st.len + 1) (omega (arith, v.inside)) (omega arith)
        ∙ ap (λ k. get_or st.buffer k 0) (omega arith)
        ∙ v.ended;
    solid = λ j h z. elim (dec_lt j st.cursor) [
      | yes lo ↦ v.solid j (omega (arith, v.inside)) (sym (below_cursor j lo) ∙ z)
      | no hi ↦ elim (ℕ_discrete st.cursor j) [
        | yes e ↦ ne (sym at_cursor ∙ ap (λ k. get_or (inserted c st).buffer k 0) e ∙ z)
        | no other ↦
            v.solid (j - 1) (omega arith) (sym (above_cursor j (omega arith) (omega arith)) ∙ z)
      ]
    ];
  }

module _ (st : EditorState) (v : IsValid st) (some_before : 0 < st.cursor) where
  below_removed :
      (j : ℕ) → j < st.cursor - 1 → get_or (removed st).buffer j 0 ≡ get_or st.buffer j 0
  below_removed j h =
      shift_left-stays (st.len - (st.cursor - 1)) (st.cursor - 1) st.buffer j (inl h)

  above_removed :
      (j : ℕ)
      → st.cursor - 1 ≤ j
      → j < st.len
      → get_or (removed st).buffer j 0 ≡ get_or st.buffer (j + 1) 0
  above_removed j lo hi =
      shift_left-moves (st.len - (st.cursor - 1)) (st.cursor - 1) st.buffer j
        (omega (arith, v.size, v.fits, v.inside)) lo (omega (arith, v.inside))

  before_removed :
      before_cursor st ≡ before_cursor (removed st) ++ (get_or st.buffer (st.cursor - 1) 0 ∷ [])
  before_removed =
      ap (window st.buffer 0) (omega arith)
      ∙ window-snoc st.buffer 0 (st.cursor - 1)
      ∙ ap₂ (λ l k. l ++ (get_or st.buffer k 0 ∷ []))
          (window_ext st.buffer (removed st).buffer 0 0 (st.cursor - 1)
            (λ j h. sym (below_removed (0 + j) (omega arith))))
          (omega arith)

  after_removed : after_cursor (removed st) ≡ after_cursor st
  after_removed =
      ap (window (removed st).buffer (st.cursor - 1)) (omega (arith, v.inside))
      ∙ window_ext (removed st).buffer st.buffer (st.cursor - 1) st.cursor (st.len - st.cursor)
          (λ j h.
            above_removed (st.cursor - 1 + j) (omega arith) (omega (arith, v.inside))
            ∙ ap (λ k. get_or st.buffer k 0) (omega arith))

  removed-IsValid : IsValid (removed st)
  removed-IsValid = record {
    size = length-shift_left (st.len - (st.cursor - 1)) (st.cursor - 1) st.buffer ∙ v.size;
    fits = omega (arith, v.fits);
    inside = omega (arith, v.inside);
    ended =
        above_removed (st.len - 1) (omega (arith, v.inside)) (omega (arith, v.inside))
        ∙ ap (λ k. get_or st.buffer k 0) (omega (arith, v.inside))
        ∙ v.ended;
    solid = λ j h z. elim (dec_lt j (st.cursor - 1)) [
      | yes lo ↦ v.solid j (omega arith) (sym (below_removed j lo) ∙ z)
      | no hi ↦
          v.solid (j + 1) (omega arith) (sym (above_removed j (omega arith) (omega arith)) ∙ z)
    ];
  }

-- In a valid session an insertion succeeds exactly when the text has fewer than 511 bytes, then puts
-- the character at the end of the text before the cursor, and otherwise changes nothing there; the text
-- after the cursor stays.
pub editor_buffer_insert_refines :
    (c : ℕ) (st : EditorState)
    → IsValid st
    → ((editor_buffer_insert c st).0 ≡ ltb st.len 511)
      × (before_cursor (editor_buffer_insert c st).1
          ≡ (if ltb st.len 511 then before_cursor st ++ (c ∷ []) else before_cursor st))
      × (after_cursor (editor_buffer_insert c st).1 ≡ after_cursor st)
unfolding editor_buffer_insert
editor_buffer_insert_refines c st v = elim (dec_lt st.len 511) [
  | yes room ↦
      let full : leb 511 st.len ≡ false = ground arith in
      let free : ltb st.len 511 ≡ true = ground arith in
      rw (full, free) (refl, before_inserted c st v room, after_inserted c st v room)
  | no h ↦
      let full : leb 511 st.len ≡ true = ground arith in
      let free : ltb st.len 511 ≡ false = ground arith in rw (full, free) (refl, refl, refl)
]

-- In a valid session a deletion succeeds exactly when the cursor is not at the beginning, and then
-- takes the last character of the text before the cursor; the text after the cursor stays.
pub editor_buffer_delete_refines :
    (st : EditorState)
    → IsValid st
    → ((editor_buffer_delete st).0 ≡ ltb 0 st.cursor)
      × (before_cursor st
          ≡ before_cursor (editor_buffer_delete st).1
            ++ (if ltb 0 st.cursor then get_or st.buffer (st.cursor - 1) 0 ∷ [] else []))
      × (after_cursor (editor_buffer_delete st).1 ≡ after_cursor st)
unfolding editor_buffer_delete
editor_buffer_delete_refines st v = elim (ℕ_discrete st.cursor 0) [
  | yes z ↦
      let start : (st.cursor == 0) ≡ true = ground arith in
      let none_before : ltb 0 st.cursor ≡ false = ground arith in
      rw (start, none_before) (refl, sym (append-nil (before_cursor st)), refl)
  | no nz ↦
      let start : (st.cursor == 0) ≡ false = ground arith in
      let before : ltb 0 st.cursor ≡ true = ground arith in
      rw (start, before) (refl, before_removed st v (omega arith), after_removed st v (omega arith))
]

pub editor_buffer_insert-IsValid :
    (c : ℕ) (st : EditorState) → c ≢ 0 → IsValid st → IsValid (editor_buffer_insert c st).1
unfolding editor_buffer_insert
editor_buffer_insert-IsValid c st ne v = elim (Bool-cases (leb 511 st.len)) [
  | inl full ↦ rw full v
  | inr room ↦ rw room (inserted-IsValid c st v (ground arith) ne)
]

pub editor_buffer_delete-IsValid :
    (st : EditorState) → IsValid st → IsValid (editor_buffer_delete st).1
unfolding editor_buffer_delete
editor_buffer_delete-IsValid st v = elim (Bool-cases (st.cursor == 0)) [
  | inl start ↦ rw start v
  | inr before ↦ rw before (removed-IsValid st v (ground arith))
]
