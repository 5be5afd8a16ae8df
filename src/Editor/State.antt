-- ===== src/Editor/State.antt =====
-- apps/editor/editor.h: the state of an editing session.
use naw_os.Base.{ℕ, ◌-◌, ◌≤◌, ◌<◌, ◌≡◌, ◌≢◌, List, length, get_or, window}

abbrev pub editor_buffer_size : ℕ
editor_buffer_size = 512

abbrev pub editor_text_start_row : ℕ
editor_text_start_row = 3

-- the texts that `status_message` points to
pub data StatusMessage : Type 0 where
  no_message new_file file_saved save_failed buffer_full : StatusMessage

-- `len` and `cursor` are never negative: each decrement stands under a test.
pub record EditorState : Type 0 where
  pub name : List ℕ
  pub ext : List ℕ
  pub buffer : List ℕ
  pub len : ℕ
  pub cursor : ℕ
  pub status_message : StatusMessage

-- The text before the cursor, and from the cursor on.
abbrev pub before_cursor : EditorState → List ℕ
before_cursor st = window st.buffer 0 st.cursor

abbrev pub after_cursor : EditorState → List ℕ
after_cursor st = window st.buffer st.cursor (st.len - st.cursor)

abbrev pub contents : EditorState → List ℕ
contents st = window st.buffer 0 st.len

-- The text fits with its terminator, holds no zero, and the cursor stands in it or at its end.
pub record IsValid (st : EditorState) : Type 0 where
  pub size : length st.buffer ≡ editor_buffer_size
  pub fits : st.len < editor_buffer_size
  pub inside : st.cursor ≤ st.len
  pub ended : get_or st.buffer st.len 0 ≡ 0
  pub solid : (j : ℕ) → j < st.len → get_or st.buffer j 0 ≢ 0
