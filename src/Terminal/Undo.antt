-- ===== src/Terminal/Undo.antt =====
-- kernel/terminal/terminal.c: a backspace after a character, and the hardware cursor.
use naw_os.Base.{
  ℕ, zero, suc, ◌+◌, ◌-◌, ◌≤◌, ◌<◌, ◌≡◌, ◌≢◌, ◌∙◌, refl, ap, sym, Bool, false, Bool-cases, inl, inr,
  List, [], ◌∷◌, length, arith, leb, ltb, ◌==◌, ◌&&◌, ◌||◌, if◌then◌else◌, get_or, set,
  get_or-set_self, ne→==,
}
use naw_os.Terminal.State.{Terminal, IsValid, max_rows, max_cols, terminal_make_cell}
use naw_os.Terminal.View.{request_render, render_view, sync_view_to_bottom, terminal_update_cursor}
use naw_os.Terminal.Write.{
  set_cell, set_line, to_previous_row, erase_cell, put_newline, put_backspace, put_plain,
  terminal_put_char, length_at, wrapped_at,
}

-- the text that the terminal keeps, and the cursor in it
pub record Page : Type 0 where
  pub rows : List (List ℕ)
  pub lengths : List ℕ
  pub wrapped : List Bool
  pub row : ℕ
  pub col : ℕ
  pub total : ℕ

abbrev pub page : Terminal → Page
page t = record {
  rows = t.screen_history;
  lengths = t.line_lengths;
  wrapped = t.line_wrapped;
  row = t.cursor_row;
  col = t.cursor_col;
  total = t.total_rows;
}

-- a terminal with that text
abbrev fill : Page → Terminal
fill p = record {
  screen_history = p.rows;
  line_lengths = p.lengths;
  line_wrapped = p.wrapped;
  cursor_row = p.row;
  cursor_col = p.col;
  total_rows = p.total;
  view_top_row = 0;
  render_batch_depth = 0;
  render_pending = false;
  terminal_cursor_x = 0;
  terminal_cursor_y = 0;
  terminal_cursor_offset = 0;
  screen = [];
}

set-set : {A : Type 0} (xs : List A) (i : ℕ) (a b : A) → set (set xs i a) i b ≡ set xs i b
set-set [] i a b = refl
set-set (x ∷ xs) zero a b = refl
set-set (x ∷ xs) (suc i) a b = ap (λ t. x ∷ t) (set-set xs i a b)

set-get_or : {A : Type 0} (xs : List A) (i : ℕ) (d : A) → set xs i (get_or xs i d) ≡ xs
set-get_or [] i d = refl
set-get_or (x ∷ xs) zero d = refl
set-get_or (x ∷ xs) (suc i) d = ap (λ t. x ∷ t) (set-get_or xs i d)

page-request_render : (t : Terminal) → page (request_render t) ≡ page t
unfolding request_render render_view
page-request_render t = elim (Bool-cases (ltb 0 t.render_batch_depth)) [
  | inl e ↦ rw e refl
  | inr e ↦ rw e refl
]

page-erase_cell : (t : Terminal) → page (erase_cell t) ≡ page (erase_cell (fill (page t)))
unfolding erase_cell set_cell set_line
page-erase_cell t =
    elim (Bool-cases (wrapped_at t t.cursor_row && (t.cursor_col == max_cols - 1))) [
      | inl e ↦ rw e refl
      | inr e ↦ rw e refl
    ]

page-put_backspace : (t : Terminal) → page (put_backspace t) ≡ page (put_backspace (fill (page t)))
unfolding put_backspace to_previous_row
page-put_backspace t = elim (Bool-cases (ltb 0 t.cursor_row || ltb 0 t.cursor_col)) [
  | inr e ↦ rw e refl
  | inl e ↦ elim (Bool-cases (ltb 0 t.cursor_col)) [
    | inl f ↦ rw (e, f) (page-erase_cell (record t { cursor_col = t.cursor_col - 1 }))
    | inr f ↦ rw (e, f) (page-erase_cell (to_previous_row t))
  ]
]

choose_plain :
    (c : ℕ) (t : Terminal)
    → c ≢ 10
    → c ≢ 8
    → (if c == 10 then put_newline t else (if c == 8 then put_backspace t else put_plain c t))
      ≡ put_plain c t
choose_plain c t n b = rw (ne→== c 10 n, ne→== c 8 b) refl

page-terminal_put_char :
    (c : ℕ) (t : Terminal) → c ≢ 10 → c ≢ 8 → page (terminal_put_char c t) ≡ page (put_plain c t)
unfolding terminal_put_char sync_view_to_bottom
page-terminal_put_char c t n b =
    page-request_render (
      sync_view_to_bottom
        (if c == 10 then put_newline t else (if c == 8 then put_backspace t else put_plain c t)))
    ∙ ap page (choose_plain c t n b)

page-terminal_put_char_back : (t : Terminal) → page (terminal_put_char 8 t) ≡ page (put_backspace t)
unfolding terminal_put_char sync_view_to_bottom
page-terminal_put_char_back t = page-request_render (sync_view_to_bottom (put_backspace t))

abbrev page_of : List (List ℕ) → List ℕ → List Bool → ℕ → ℕ → ℕ → Page
page_of h l w row col total = record {
  rows = h;
  lengths = l;
  wrapped = w;
  row = row;
  col = col;
  total = total;
}

page_eq :
    {h h' : List (List ℕ)} {l l' : List ℕ} {w w' : List Bool} {col col' : ℕ} (row total : ℕ)
    → h ≡ h'
    → l ≡ l'
    → w ≡ w'
    → col ≡ col'
    → page_of h l w row col total ≡ page_of h' l' w' row col' total
page_eq row total p q r s = rw (p, q, r, s) refl

put_plain-page :
    (c : ℕ) (t : Terminal)
    → t.cursor_col < 79
    → page (put_plain c t) ≡ record {
      rows =
          set t.screen_history t.cursor_row
            (set (get_or t.screen_history t.cursor_row []) t.cursor_col (terminal_make_cell c));
      lengths = set t.line_lengths t.cursor_row (t.cursor_col + 1);
      wrapped = set t.line_wrapped t.cursor_row false;
      row = t.cursor_row;
      col = t.cursor_col + 1;
      total = t.total_rows;
    }
unfolding put_plain set_cell set_line
put_plain-page c t room = elim (Bool-cases (leb max_cols (t.cursor_col + 1))) [
  | inl e ↦ absurd (ground (arith, e))
  | inr e ↦ rw e refl
]

erased :
    (h : List (List ℕ)) (l : List ℕ) (w : List Bool) (row col total cell : ℕ)
    → row < length h
    → col < 79
    → get_or w row false ≡ false
    → get_or l row 0 ≡ col
    → get_or (get_or h row []) col 0 ≡ terminal_make_cell 0x20
    → page (
        put_backspace (
          fill (record {
            rows = set h row (set (get_or h row []) col cell);
            lengths = set l row (col + 1);
            wrapped = set w row false;
            row = row;
            col = col + 1;
            total = total;
          })))
      ≡ record { rows = h; lengths = l; wrapped = w; row = row; col = col; total = total }
unfolding put_backspace erase_cell set_cell
erased h l w row col total cell inside room flat end blank =
    elim (Bool-cases (ltb 0 row || ltb 0 (col + 1))) [
      | inr e ↦ absurd (ground (arith, e))
      | inl e ↦ elim (Bool-cases (ltb 0 (col + 1))) [
        | inr f ↦ absurd (ground (arith, f))
        | inl f ↦ elim (Bool-cases (get_or (set w row false) row false && (col + 1 - 1 == 79))) [
          | inl g ↦ absurd (ground (arith, g))
          | inr g ↦
              rw (e, f, g) (page_eq row total same_rows same_lengths same_wrapped (omega arith))
        ]
      ]
    ]
  where
    back : col + 1 - 1 ≡ col
    back = omega arith

    same_rows :
        set (set h row (set (get_or h row []) col cell)) row (
          set
            (get_or (set h row (set (get_or h row []) col cell)) row [])
            (col + 1 - 1)
            (terminal_make_cell 0x20))
        ≡ h
    same_rows =
        set-set h row (set (get_or h row []) col cell) _
        ∙ ap (λ x. set h row (set x (col + 1 - 1) (terminal_make_cell 0x20)))
            (get_or-set_self h row (set (get_or h row []) col cell) [] inside)
        ∙ ap (λ k. set h row (set (set (get_or h row []) col cell) k (terminal_make_cell 0x20)))
            back
        ∙ ap (set h row) (
            set-set (get_or h row []) col cell (terminal_make_cell 0x20)
            ∙ ap (set (get_or h row []) col) (sym blank)
            ∙ set-get_or (get_or h row []) col 0)
        ∙ set-get_or h row []

    same_lengths : set (set l row (col + 1)) row (col + 1 - 1) ≡ l
    same_lengths =
        ap (set (set l row (col + 1)) row) back
        ∙ set-set l row (col + 1) col
        ∙ ap (set l row) (sym end)
        ∙ set-get_or l row 0

    same_wrapped : set w row false ≡ w
    same_wrapped = ap (set w row) (sym flat) ∙ set-get_or w row false

-- In a valid terminal, in a line that is not wrapped and ends at the cursor, before its last column and
-- with a blank under the cursor, a character other than a newline and a backspace, followed by a
-- backspace, leaves the text and the cursor as they were.
pub terminal_put_char-back :
    (c : ℕ) (t : Terminal)
    → IsValid t
    → c ≢ 10
    → c ≢ 8
    → t.cursor_col < 79
    → wrapped_at t t.cursor_row ≡ false
    → length_at t t.cursor_row ≡ t.cursor_col
    → get_or (get_or t.screen_history t.cursor_row []) t.cursor_col 0 ≡ terminal_make_cell 0x20
    → page (terminal_put_char 8 (terminal_put_char c t)) ≡ page t
terminal_put_char-back c t v n b room flat end blank =
    page-terminal_put_char_back (terminal_put_char c t)
    ∙ page-put_backspace (terminal_put_char c t)
    ∙ ap (λ p. page (put_backspace (fill p))) (page-terminal_put_char c t n b)
    ∙ ap (λ p. page (put_backspace (fill p))) (put_plain-page c t room)
    ∙ erased t.screen_history t.line_lengths t.line_wrapped t.cursor_row t.cursor_col t.total_rows
        (terminal_make_cell c) (omega (arith, v.sound.history.0, v.row_used, v.rows_fit)) room flat
        end blank

-- After rendering, when the cursor is in a column and its row is in view, the row and column given to
-- the hardware are those of the cursor relative to the view.
pub terminal_update_cursor-render_view :
    (t : Terminal)
    → t.cursor_col < max_cols
    → t.view_top_row ≤ t.cursor_row
    → t.cursor_row < t.view_top_row + max_rows
    → terminal_update_cursor (render_view t) ≡ (t.cursor_row - t.view_top_row, t.cursor_col)
unfolding terminal_update_cursor render_view
terminal_update_cursor-render_view t col above below = ground arith
