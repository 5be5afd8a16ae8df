-- ===== src/Terminal/State.antt =====
-- The static variables of kernel/terminal/terminal.c, and the text screen that it draws on.
use naw_os.Base.{
  ℕ, ◌+◌, ◌*◌, ◌%◌, ◌≤◌, ◌<◌, ◌≡◌, Bool, true, false, List, [], ◌∷◌, length, replicate, All,
}

-- TERMINAL_ROWS and TERMINAL_COLS, VGA_ROWS and VGA_COLS
abbrev pub max_rows : ℕ
max_rows = 25

abbrev pub max_cols : ℕ
max_cols = 80

abbrev pub scrollback_rows : ℕ
scrollback_rows = 96

-- VGA_DEFAULT_ATTRIBUTE is 0x0F.
abbrev pub terminal_make_cell : ℕ → ℕ
terminal_make_cell c = 0x0F * 256 + c % 256

-- The columns and rows are never negative. `screen` is the video memory by rows.
pub record Terminal : Type 0 where
  pub screen_history : List (List ℕ)
  pub line_lengths : List ℕ
  pub line_wrapped : List Bool
  pub cursor_row : ℕ
  pub cursor_col : ℕ
  pub total_rows : ℕ
  pub view_top_row : ℕ
  pub render_batch_depth : ℕ
  pub render_pending : Bool
  pub terminal_cursor_x : ℕ
  pub terminal_cursor_y : ℕ
  pub terminal_cursor_offset : ℕ
  pub screen : List (List ℕ)

-- before the first call
unfoldable pub initial : Terminal
initial = record {
  screen_history = replicate scrollback_rows (replicate max_cols 0);
  line_lengths = replicate scrollback_rows 0;
  line_wrapped = replicate scrollback_rows false;
  cursor_row = 0;
  cursor_col = 0;
  total_rows = 1;
  view_top_row = 0;
  render_batch_depth = 0;
  render_pending = false;
  terminal_cursor_x = 0;
  terminal_cursor_y = 0;
  terminal_cursor_offset = 0;
  screen = replicate max_rows (replicate max_cols 0);
}

-- how long a line can be
abbrev pub limit : Bool → ℕ
limit true = 80
limit false = 79

-- A line that is not wrapped leaves room for the cursor behind it.
abbrev pub IsFit : List ℕ → List Bool → Type 0
IsFit [] [] = Unit
IsFit [] (w ∷ ws) = ⊥
IsFit (l ∷ ls) [] = ⊥
IsFit (l ∷ ls) (w ∷ ws) = (l ≤ limit w) × IsFit ls ws

abbrev pub IsGrid : ℕ → List (List ℕ) → Type 0
IsGrid n rows = (length rows ≡ n) × All (λ r. length r ≡ max_cols) rows

-- The arrays have their sizes, and the position given to the hardware is on the screen.
pub record IsSound (t : Terminal) : Type 0 where
  pub history : IsGrid scrollback_rows t.screen_history
  pub fit : IsFit t.line_lengths t.line_wrapped
  pub lines : length t.line_lengths ≡ scrollback_rows
  pub offset_fits : t.terminal_cursor_offset < max_rows * max_cols * 2
  pub shown : IsGrid max_rows t.screen

-- Besides, the cursor stands in a used row and in a column, and the view begins in a used row.
pub record IsValid (t : Terminal) : Type 0 where
  pub sound : IsSound t
  pub row_used : t.cursor_row < t.total_rows
  pub rows_fit : t.total_rows ≤ scrollback_rows
  pub col_fits : t.cursor_col < max_cols
  pub view_used : t.view_top_row < t.total_rows
