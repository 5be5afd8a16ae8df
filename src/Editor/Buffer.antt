-- ===== src/Editor/Buffer.antt =====
-- apps/editor/editor_buffer.c
pub mod Shift
pub mod Refine
use naw_os.Base.{
  ℕ, zero, suc, ◌+◌, ◌-◌, Bool, true, false, List, leb, ltb, ◌==◌, if◌then◌else◌, get_or, set,
}
use naw_os.Editor.State.{EditorState, editor_buffer_size}

-- The loop of `editor_buffer_insert`, with the rounds left. `end` is `i + 1`, the index written.
unfoldable pub shift_right : ℕ → ℕ → List ℕ → List ℕ
shift_right zero end b = b
shift_right (suc rounds) end b = shift_right rounds (end - 1) (set b end (get_or b (end - 1) 0))

-- The loop of `editor_buffer_delete`, with the rounds left.
unfoldable pub shift_left : ℕ → ℕ → List ℕ → List ℕ
shift_left zero i b = b
shift_left (suc rounds) i b = shift_left rounds (i + 1) (set b i (get_or b (i + 1) 0))

unfoldable pub editor_buffer_insert : ℕ → EditorState → Bool × EditorState
editor_buffer_insert c st = if leb (editor_buffer_size - 1) st.len then (false, st) else (
  true,
  record st {
    buffer = set (shift_right (st.len + 1 - st.cursor) (st.len + 1) st.buffer) st.cursor c;
    len = st.len + 1;
    cursor = st.cursor + 1;
  },
)

unfoldable pub editor_buffer_delete : EditorState → Bool × EditorState
editor_buffer_delete st = if st.cursor == 0 then (false, st) else (
  true,
  record st {
    buffer = shift_left (st.len - (st.cursor - 1)) (st.cursor - 1) st.buffer;
    len = st.len - 1;
    cursor = st.cursor - 1;
  },
)
