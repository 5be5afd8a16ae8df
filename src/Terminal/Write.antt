-- ===== src/Terminal/Write.antt =====
-- `terminal_put_char` and `terminal_write`, the rows that they go to, and the moves of the cursor.
use naw_os.Base.{
  ℕ, zero, suc, ◌+◌, ◌-◌, ◌*◌, ◌/◌, ◌%◌, Bool, true, false, ◌&&◌, ◌||◌, List, [], ◌∷◌, leb, ltb,
  ◌==◌, if◌then◌else◌, get_or, set,
}
use naw_os.Base.Int.{ℤ, pos, negsuc}
use naw_os.Terminal.State.{Terminal, max_rows, max_cols, scrollback_rows, terminal_make_cell}
use naw_os.Terminal.View.{blank_row, request_render, sync_view_to_bottom, ensure_cursor_visible}

abbrev pub length_at : Terminal → ℕ → ℕ
length_at t row = get_or t.line_lengths row 0

abbrev pub wrapped_at : Terminal → ℕ → Bool
wrapped_at t row = get_or t.line_wrapped row false

-- `screen_history[row][col] = cell`
unfoldable pub set_cell : Terminal → ℕ → ℕ → ℕ → Terminal
set_cell t row col cell = record t {
  screen_history = set t.screen_history row (set (get_or t.screen_history row []) col cell);
}

-- `line_lengths[row] = len; line_wrapped[row] = wrapped`
unfoldable pub set_line : Terminal → ℕ → ℕ → Bool → Terminal
set_line t row len wrapped = record t {
  line_lengths = set t.line_lengths row len;
  line_wrapped = set t.line_wrapped row wrapped;
}

unfoldable pub clear_history_row : ℕ → Terminal → Terminal
clear_history_row row t = record t {
  screen_history = set t.screen_history row blank_row;
  line_lengths = set t.line_lengths row 0;
  line_wrapped = set t.line_wrapped row false;
}

-- the loop of `reset_history_buffer`, from a row on with the rows left
unfoldable pub reset_rows : ℕ → ℕ → Terminal → Terminal
unfolding clear_history_row
reset_rows zero row t = t
reset_rows (suc left) row t = reset_rows left (row + 1) (clear_history_row row t)

-- the loop of `shift_history_up` on one array: `a[row - 1] = a[row]`
unfoldable pub shift_back {ℓ} : {A : Type ℓ} → List A → List A
shift_back [] = []
shift_back (x ∷ []) = x ∷ []
shift_back (x ∷ y ∷ xs) = y ∷ shift_back (y ∷ xs)

unfoldable pub shift_history_up : Terminal → Terminal
unfolding clear_history_row shift_back
shift_history_up t =
    let t' = clear_history_row (scrollback_rows - 1) (record t {
      screen_history = shift_back t.screen_history;
      line_lengths = shift_back t.line_lengths;
      line_wrapped = shift_back t.line_wrapped;
    }) in
    record t' {
      cursor_row = t.cursor_row - 1;
      total_rows = if ltb 1 t.total_rows then t.total_rows - 1 else t.total_rows;
      view_top_row = t.view_top_row - 1;
    }

-- `if (cursor_row >= total_rows) total_rows = cursor_row + 1`
unfoldable pub use_row : Terminal → Terminal
use_row t = if leb t.total_rows t.cursor_row then record t { total_rows = t.cursor_row + 1 } else t

unfoldable pub ensure_history_room : Terminal → Terminal
unfolding shift_history_up use_row
ensure_history_room t =
    if leb scrollback_rows t.cursor_row
    then use_row (record (shift_history_up t) { cursor_row = scrollback_rows - 1 })
    else use_row t

unfoldable pub advance_to_next_row : Terminal → Terminal
unfolding ensure_history_room clear_history_row
advance_to_next_row t =
    let t' = ensure_history_room (record t { cursor_col = 0; cursor_row = t.cursor_row + 1 }) in
    clear_history_row t'.cursor_row t'

-- to the end of the row before
unfoldable pub to_previous_row : Terminal → Terminal
to_previous_row t =
    let prev_row = t.cursor_row - 1 in
    record t {
      cursor_row = prev_row;
      cursor_col = if wrapped_at t prev_row then max_cols - 1 else length_at t prev_row;
    }

-- the branch for '\n'
unfoldable pub put_newline : Terminal → Terminal
unfolding set_line advance_to_next_row
put_newline t = advance_to_next_row (set_line t t.cursor_row t.cursor_col false)

-- the branch for '\b' after the cursor has moved
unfoldable pub erase_cell : Terminal → Terminal
unfolding set_line set_cell
erase_cell t =
    let row = t.cursor_row in
    let col = t.cursor_col in
    set_cell
      (if wrapped_at t row && (col == max_cols - 1)
        then set_line t row (max_cols - 1) false
        else record t { line_lengths = set t.line_lengths row col })
      row col (terminal_make_cell 0x20)

unfoldable pub put_backspace : Terminal → Terminal
unfolding to_previous_row erase_cell
put_backspace t =
    if ltb 0 t.cursor_row || ltb 0 t.cursor_col
    then erase_cell (
        if ltb 0 t.cursor_col
        then record t { cursor_col = t.cursor_col - 1 }
        else to_previous_row t)
    else t

-- the branch for all other characters
unfoldable pub put_plain : ℕ → Terminal → Terminal
unfolding set_line set_cell advance_to_next_row
put_plain c t =
    let row = t.cursor_row in
    let col = t.cursor_col + 1 in
    let t' = record (set_cell t row t.cursor_col (terminal_make_cell c)) { cursor_col = col } in
    if leb max_cols col
    then advance_to_next_row (set_line t' row col true)
    else set_line t' row col false

unfoldable pub terminal_put_char : ℕ → Terminal → Terminal
unfolding put_newline put_backspace put_plain sync_view_to_bottom request_render
terminal_put_char c t = request_render (
    sync_view_to_bottom
      (if c == 10 then put_newline t else (if c == 8 then put_backspace t else put_plain c t)))

unfoldable pub terminal_write : List ℕ → Terminal → Terminal
unfolding terminal_put_char
terminal_write [] t = t
terminal_write (c ∷ str) t =
    let next = terminal_write str (terminal_put_char c t) in if c == 0 then t else next

unfoldable pub terminal_clear : Terminal → Terminal
unfolding reset_rows request_render
terminal_clear t = request_render (record (reset_rows scrollback_rows 0 t) {
  cursor_row = 0;
  cursor_col = 0;
  total_rows = 1;
  view_top_row = 0;
  terminal_cursor_offset = 0;
})

unfoldable pub terminal_set_cursor_offset : ℕ → Terminal → Terminal
unfolding ensure_history_room request_render
terminal_set_cursor_offset offset t =
    let at = if leb (max_rows * max_cols) offset then max_rows * max_cols - 1 else offset in
    request_render (
      ensure_history_room
        (record t { cursor_row = t.view_top_row + at / max_cols; cursor_col = at % max_cols }))

unfoldable pub terminal_move_cursor_left : Terminal → Terminal
unfolding to_previous_row ensure_cursor_visible request_render
terminal_move_cursor_left t =
    if ltb 0 t.cursor_col
    then request_render (ensure_cursor_visible (record t { cursor_col = t.cursor_col - 1 }))
    else (if ltb 0 t.cursor_row
        then request_render (ensure_cursor_visible (to_previous_row t))
        else t)

unfoldable pub terminal_move_cursor_right : Terminal → Terminal
unfolding ensure_cursor_visible request_render
terminal_move_cursor_right t =
    let same_row =
      request_render (ensure_cursor_visible (record t { cursor_col = t.cursor_col + 1 })) in
    let next_row =
      request_render
        (ensure_cursor_visible (record t { cursor_row = t.cursor_row + 1; cursor_col = 0 })) in
    if (if wrapped_at t t.cursor_row
      then ltb t.cursor_col (max_cols - 1)
      else ltb t.cursor_col (length_at t t.cursor_row))
    then same_row
    else (if ltb (t.cursor_row + 1) t.total_rows then next_row else t)

-- an `int` below 0 becomes 0
abbrev pub at_least_0 : ℤ → ℕ
at_least_0 (pos n) = n
at_least_0 (negsuc n) = 0

unfoldable pub terminal_set_cursor_absolute : ℤ → ℤ → Terminal → Terminal
unfolding ensure_cursor_visible request_render
terminal_set_cursor_absolute row col t =
    let r = at_least_0 row in
    let c = at_least_0 col in
    request_render (
      ensure_cursor_visible (record t {
        cursor_row = if leb t.total_rows r then t.total_rows - 1 else r;
        cursor_col = if leb max_cols c then max_cols - 1 else c;
      }))
