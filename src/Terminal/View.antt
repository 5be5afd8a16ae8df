-- ===== src/Terminal/View.antt =====
-- `render_view` and what asks for it.
use naw_os.Base.{
  ℕ, zero, suc, ◌+◌, ◌-◌, ◌*◌, ◌/◌, ◌%◌, true, false, ◌&&◌, List, [], ◌∷◌, leb, ltb, ◌==◌,
  if◌then◌else◌, replicate, get_or,
}
use naw_os.Terminal.State.{Terminal, max_rows, max_cols, terminal_make_cell}

abbrev pub blank_row : List ℕ
blank_row = replicate max_cols (terminal_make_cell 0x20)

-- what the loop of `render_view` writes to the rows of the screen, with the rows left
unfoldable pub rows_shown : ℕ → ℕ → Terminal → List (List ℕ)
rows_shown zero row t = []
rows_shown (suc left) row t =
    (if ltb (t.view_top_row + row) t.total_rows
      then get_or t.screen_history (t.view_top_row + row) blank_row
      else blank_row)
    ∷ rows_shown left (row + 1) t

unfoldable pub render_view : Terminal → Terminal
unfolding rows_shown
render_view t = record t {
  screen = rows_shown max_rows 0 t;
  terminal_cursor_offset =
      if leb t.view_top_row t.cursor_row && ltb t.cursor_row (t.view_top_row + max_rows)
      then ((t.cursor_row - t.view_top_row) * max_cols + t.cursor_col) * 2
      else ((max_rows - 1) * max_cols + (max_cols - 1)) * 2;
  terminal_cursor_x = t.cursor_col;
  terminal_cursor_y = t.cursor_row;
}

unfoldable pub request_render : Terminal → Terminal
unfolding render_view
request_render t =
    if ltb 0 t.render_batch_depth then record t { render_pending = true } else render_view t

unfoldable pub terminal_begin_batch : Terminal → Terminal
terminal_begin_batch t = record t { render_batch_depth = t.render_batch_depth + 1 }

unfoldable pub terminal_end_batch : Terminal → Terminal
unfolding render_view
terminal_end_batch t =
    let depth = t.render_batch_depth - 1 in
    if t.render_batch_depth == 0
    then t
    else (if (depth == 0) && t.render_pending
        then render_view (record t { render_batch_depth = depth; render_pending = false })
        else record t { render_batch_depth = depth })

unfoldable pub live_view_top_row : Terminal → ℕ
live_view_top_row t = if leb t.total_rows max_rows then 0 else t.total_rows - max_rows

unfoldable pub sync_view_to_bottom : Terminal → Terminal
unfolding live_view_top_row
sync_view_to_bottom t = record t { view_top_row = live_view_top_row t }

unfoldable pub ensure_cursor_visible : Terminal → Terminal
ensure_cursor_visible t =
    if ltb t.cursor_row t.view_top_row
    then record t { view_top_row = t.cursor_row }
    else (if leb (t.view_top_row + max_rows) t.cursor_row
        then record t { view_top_row = t.cursor_row - max_rows + 1 }
        else t)

unfoldable pub terminal_scroll_page_up : Terminal → Terminal
unfolding request_render
terminal_scroll_page_up t =
    if t.view_top_row == 0
    then t
    else request_render (record t { view_top_row = t.view_top_row - max_rows })

unfoldable pub terminal_scroll_page_down : Terminal → Terminal
unfolding live_view_top_row request_render
terminal_scroll_page_down t =
    let bottom_view = live_view_top_row t in
    let next = t.view_top_row + max_rows in
    if leb bottom_view t.view_top_row
    then t
    else request_render
        (record t { view_top_row = if ltb bottom_view next then bottom_view else next })

-- the row and the column that `terminal_update_cursor` gives to the hardware
unfoldable pub terminal_update_cursor : Terminal → ℕ × ℕ
terminal_update_cursor t =
    (t.terminal_cursor_offset / 2 / max_cols, t.terminal_cursor_offset / 2 % max_cols)
