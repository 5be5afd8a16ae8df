-- ===== src/Editor/Cursor.antt =====
-- apps/editor/editor_cursor.c
pub mod Position
use naw_os.Base.{
  ℕ, zero, suc, ◌+◌, ◌-◌, Bool, true, false, ◌&&◌, Option, none, some, List, get_or, leb, ltb, ◌==◌,
  if◌then◌else◌,
}
use naw_os.Editor.State.{EditorState, editor_text_start_row}

abbrev pub terminal_cols : ℕ
terminal_cols = 80

abbrev pub key_up : ℕ
key_up = 0x48

abbrev pub key_down : ℕ
key_down = 0x50

abbrev pub key_left : ℕ
key_left = 0x4B

abbrev pub key_right : ℕ
key_right = 0x4D

-- a row and a column
abbrev pub Place : Type 0
Place = ℕ × ℕ

unfoldable pub editor_step_visual_position : ℕ → Place → Place
editor_step_visual_position c (row, col) =
    if c == 10
    then (row + 1, 0)
    else (if leb terminal_cols (col + 1) then (row + 1, 0) else (row, col + 1))

-- the loop over the characters before the cursor, with the rounds left
unfoldable pub visual_from : ℕ → ℕ → List ℕ → Place → Place
visual_from zero i b p = p
visual_from (suc rounds) i b p =
    visual_from rounds (i + 1) b (editor_step_visual_position (get_or b i 0) p)

unfoldable pub editor_cursor_get_visual_position : EditorState → Place
editor_cursor_get_visual_position st = visual_from st.cursor 0 st.buffer (editor_text_start_row, 0)

-- The loop of `editor_cursor_index_from_visual_position` from the index `i`, with `len - i` rounds
-- left; at `i == len` it ends. `none` is the result -1.
unfoldable pub index_from : ℕ → ℕ → List ℕ → Place → Place → Option ℕ → Option ℕ
index_from zero i b target (row, col) best_index = if row == target.0 then some i else best_index
index_from (suc rounds) i b target (row, col) best_index =
    let next =
      index_from rounds (i + 1) b target (editor_step_visual_position (get_or b i 0) (row, col))
        (if row == target.0 then some i else best_index) in
    if row == target.0
    then (if leb target.1 col then some i else next)
    else (if ltb target.0 row then best_index else next)

unfoldable pub editor_cursor_index_from_visual_position : EditorState → Place → Option ℕ
editor_cursor_index_from_visual_position st target =
    index_from st.len 0 st.buffer target (editor_text_start_row, 0) none

-- what a vertical move does with the index that it finds
abbrev pub go_to : EditorState → Option ℕ → EditorState
go_to st none = st
go_to st (some next_cursor) = record st { cursor = next_cursor }

unfoldable pub editor_cursor_move : ℕ → EditorState → EditorState
editor_cursor_move scancode st =
    let (row, col) = editor_cursor_get_visual_position st in
    let up = go_to st (editor_cursor_index_from_visual_position st (row - 1, col)) in
    let down = go_to st (editor_cursor_index_from_visual_position st (row + 1, col)) in
    if (scancode == key_left) && ltb 0 st.cursor
    then record st { cursor = st.cursor - 1 }
    else (if (scancode == key_right) && ltb st.cursor st.len
        then record st { cursor = st.cursor + 1 }
        else (if scancode == key_up then up else (if scancode == key_down then down else st)))
