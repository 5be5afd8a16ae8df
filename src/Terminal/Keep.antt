-- ===== src/Terminal/Keep.antt =====
-- kernel/terminal/terminal.c: the parts of the operations and the invariant.
use naw_os.Base.{
  ℕ, ◌+◌, ◌-◌, ◌≤◌, ◌<◌, Bool, true, false, Bool-cases, inl, inr, length-set, ◌∙◌, subst, arith,
  leb, ltb, ◌==◌, ◌&&◌, ◌||◌, if◌then◌else◌,
}
use naw_os.Terminal.State.{
  Terminal, max_rows, max_cols, scrollback_rows, limit, IsSound, IsValid, terminal_make_cell,
}
use naw_os.Terminal.View.{
  render_view, request_render, live_view_top_row, sync_view_to_bottom, ensure_cursor_visible,
}
use naw_os.Terminal.Write.{
  set_cell, set_line, clear_history_row, shift_history_up, use_row, ensure_history_room,
  advance_to_next_row, to_previous_row, put_newline, erase_cell, put_backspace, length_at,
  wrapped_at,
}
use naw_os.Terminal.Sound.{
  IsFit-get_or, IsFit-set_length, IsSound-place, set_cell-IsSound, set_line-IsSound,
  clear_history_row-IsSound, shift_history_up-IsSound, render_view-IsSound,
}

-- what holds before `ensure_history_room`: the row may be past the used ones
pub record IsAhead (t : Terminal) : Type 0 where
  pub sound : IsSound t
  pub some_row : 0 < t.total_rows
  pub rows_fit : t.total_rows ≤ scrollback_rows
  pub col_fits : t.cursor_col < max_cols
  pub view_used : t.view_top_row < t.total_rows

pub render_view-IsValid : (t : Terminal) → IsValid t → IsValid (render_view t)
unfolding render_view
render_view-IsValid t v = record {
  sound = render_view-IsSound t v.col_fits v.sound;
  row_used = v.row_used;
  rows_fit = v.rows_fit;
  col_fits = v.col_fits;
  view_used = v.view_used;
}

pub IsValid-batch :
    (t : Terminal) (depth : ℕ) (pending : Bool)
    → IsValid t
    → IsValid (record t { render_batch_depth = depth; render_pending = pending })
IsValid-batch t depth pending v = record {
  sound = record {
    history = v.sound.history;
    fit = v.sound.fit;
    lines = v.sound.lines;
    offset_fits = v.sound.offset_fits;
    shown = v.sound.shown;
  };
  row_used = v.row_used;
  rows_fit = v.rows_fit;
  col_fits = v.col_fits;
  view_used = v.view_used;
}

pub request_render-IsValid : (t : Terminal) → IsValid t → IsValid (request_render t)
unfolding request_render
request_render-IsValid t v = elim (Bool-cases (ltb 0 t.render_batch_depth)) [
  | inl e ↦ rw e (IsValid-batch t t.render_batch_depth true v)
  | inr e ↦ rw e (render_view-IsValid t v)
]

-- a place within the used rows
pub IsValid-place :
    (t : Terminal) (row col view : ℕ)
    → IsValid t
    → row < t.total_rows
    → col < max_cols
    → view < t.total_rows
    → IsValid (record t { cursor_row = row; cursor_col = col; view_top_row = view })
IsValid-place t row col view v r c w = record {
  sound = IsSound-place t row col t.total_rows view v.sound;
  row_used = r;
  rows_fit = v.rows_fit;
  col_fits = c;
  view_used = w;
}

pub sync_view_to_bottom-IsValid : (t : Terminal) → IsValid t → IsValid (sync_view_to_bottom t)
unfolding sync_view_to_bottom live_view_top_row
sync_view_to_bottom-IsValid t v =
    IsValid-place t t.cursor_row t.cursor_col (live_view_top_row t) v v.row_used v.col_fits
      (ground (arith, v.row_used))

pub ensure_cursor_visible-IsValid : (t : Terminal) → IsValid t → IsValid (ensure_cursor_visible t)
unfolding ensure_cursor_visible
ensure_cursor_visible-IsValid t v = elim (Bool-cases (ltb t.cursor_row t.view_top_row)) [
  | inl e ↦
      rw e
        (IsValid-place t t.cursor_row t.cursor_col t.cursor_row v v.row_used v.col_fits v.row_used)
  | inr e ↦ elim (Bool-cases (leb (t.view_top_row + max_rows) t.cursor_row)) [
    | inl f ↦
        rw (e, f)
          (IsValid-place t t.cursor_row t.cursor_col (t.cursor_row - max_rows + 1) v v.row_used
            v.col_fits (ground (arith, v.row_used)))
    | inr f ↦ rw (e, f) v
  ]
]

pub shown_place-IsValid :
    (t : Terminal) (row col : ℕ)
    → IsValid t
    → row < t.total_rows
    → col < max_cols
    → IsValid
        (request_render (ensure_cursor_visible (record t { cursor_row = row; cursor_col = col })))
shown_place-IsValid t row col v r c =
    request_render-IsValid _
      (ensure_cursor_visible-IsValid _ (IsValid-place t row col t.view_top_row v r c v.view_used))

use_row-IsValid : (t : Terminal) → IsAhead t → t.cursor_row < scrollback_rows → IsValid (use_row t)
unfolding use_row
use_row-IsValid t a r = elim (Bool-cases (leb t.total_rows t.cursor_row)) [
  | inl e ↦ rw e (record {
    sound = IsSound-place t t.cursor_row t.cursor_col (t.cursor_row + 1) t.view_top_row a.sound;
    row_used = omega arith;
    rows_fit = omega (arith, r);
    col_fits = a.col_fits;
    view_used = ground (arith, a.view_used);
  })
  | inr e ↦ rw e (record {
    sound = a.sound;
    row_used = ground arith;
    rows_fit = a.rows_fit;
    col_fits = a.col_fits;
    view_used = a.view_used;
  })
]

shifted-IsAhead :
    (t : Terminal)
    → IsAhead t
    → 72 ≤ t.total_rows
    → IsAhead (record (shift_history_up t) { cursor_row = 95 })
unfolding shift_history_up
shifted-IsAhead t a enough =
    let s = shift_history_up-IsSound t a.sound in
    record {
      sound = record {
        history = s.history;
        fit = s.fit;
        lines = s.lines;
        offset_fits = s.offset_fits;
        shown = s.shown;
      };
      some_row = ground (arith, enough);
      rows_fit = ground (arith, a.rows_fit);
      col_fits = a.col_fits;
      view_used = ground (arith, a.view_used, enough);
    }

-- The row after which there is none is at most 24 past the view.
pub ensure_history_room-IsValid :
    (t : Terminal)
    → IsAhead t
    → (scrollback_rows ≤ t.cursor_row → 72 ≤ t.total_rows)
    → IsValid (ensure_history_room t)
unfolding ensure_history_room
ensure_history_room-IsValid t a near = elim (Bool-cases (leb scrollback_rows t.cursor_row)) [
  | inl e ↦ rw e (use_row-IsValid _ (shifted-IsAhead t a (near (ground arith))) (omega arith))
  | inr e ↦ rw e (use_row-IsValid t a (ground arith))
]

clear_history_row-IsValid : (row : ℕ) (t : Terminal) → IsValid t → IsValid (clear_history_row row t)
unfolding clear_history_row
clear_history_row-IsValid row t v =
    let s = clear_history_row-IsSound row t v.sound in
    record {
      sound = s;
      row_used = v.row_used;
      rows_fit = v.rows_fit;
      col_fits = v.col_fits;
      view_used = v.view_used;
    }

pub advance_to_next_row-IsValid :
    (t : Terminal)
    → IsSound t
    → t.cursor_row < t.total_rows
    → t.total_rows ≤ scrollback_rows
    → t.view_top_row < t.total_rows
    → IsValid (advance_to_next_row t)
unfolding advance_to_next_row
advance_to_next_row-IsValid t s r n w = clear_history_row-IsValid _ _ (
    ensure_history_room-IsValid (record t { cursor_col = 0; cursor_row = t.cursor_row + 1 })
      (record {
        sound = IsSound-place t (t.cursor_row + 1) 0 t.total_rows t.view_top_row s;
        some_row = omega (arith, r);
        rows_fit = n;
        col_fits = omega arith;
        view_used = w;
      })
      (λ past. omega (arith, r, past)))

pub put_newline-IsValid : (t : Terminal) → IsValid t → IsValid (put_newline t)
unfolding put_newline set_line
put_newline-IsValid t v =
    advance_to_next_row-IsValid (set_line t t.cursor_row t.cursor_col false)
      (set_line-IsSound t t.cursor_row t.cursor_col false v.sound (omega (arith, v.col_fits)))
      v.row_used v.rows_fit v.view_used

pub to_previous_row-IsValid : (t : Terminal) → IsValid t → IsValid (to_previous_row t)
unfolding to_previous_row
to_previous_row-IsValid t v =
    IsValid-place t (t.cursor_row - 1) _ t.view_top_row v (omega (arith, v.row_used)) end_fits
      v.view_used
  where
    end_fits :
        (if wrapped_at t (t.cursor_row - 1) then max_cols - 1 else length_at t (t.cursor_row - 1))
        < max_cols
    end_fits =
        let fits = IsFit-get_or t.line_lengths t.line_wrapped (t.cursor_row - 1) v.sound.fit in
        elim (Bool-cases (wrapped_at t (t.cursor_row - 1))) [
          | inl e ↦ rw e (omega arith)
          | inr e ↦
              rw e (omega (arith, subst (λ w. length_at t (t.cursor_row - 1) ≤ limit w) e fits))
        ]

erase_cell-IsValid : (t : Terminal) → IsValid t → IsValid (erase_cell t)
unfolding erase_cell set_cell set_line
erase_cell-IsValid t v =
    elim (Bool-cases (wrapped_at t t.cursor_row && (t.cursor_col == max_cols - 1))) [
      | inl e ↦ rw e (record {
        sound =
            set_cell-IsSound _ t.cursor_row t.cursor_col (terminal_make_cell 0x20)
              (set_line-IsSound t t.cursor_row 79 false v.sound (omega arith));
        row_used = v.row_used;
        rows_fit = v.rows_fit;
        col_fits = v.col_fits;
        view_used = v.view_used;
      })
      | inr e ↦ rw e (record {
        sound = set_cell-IsSound _ t.cursor_row t.cursor_col (terminal_make_cell 0x20) (record {
          history = v.sound.history;
          fit =
              IsFit-set_length t.line_lengths t.line_wrapped t.cursor_row t.cursor_col v.sound.fit
                (omega (arith, v.col_fits));
          lines = length-set t.line_lengths t.cursor_row t.cursor_col ∙ v.sound.lines;
          offset_fits = v.sound.offset_fits;
          shown = v.sound.shown;
        });
        row_used = v.row_used;
        rows_fit = v.rows_fit;
        col_fits = v.col_fits;
        view_used = v.view_used;
      })
    ]

pub put_backspace-IsValid : (t : Terminal) → IsValid t → IsValid (put_backspace t)
unfolding put_backspace
put_backspace-IsValid t v = elim (Bool-cases (ltb 0 t.cursor_row || ltb 0 t.cursor_col)) [
  | inr e ↦ rw e v
  | inl e ↦ elim (Bool-cases (ltb 0 t.cursor_col)) [
    | inl f ↦
        rw (e, f)
          (erase_cell-IsValid _ (
            IsValid-place t t.cursor_row (t.cursor_col - 1) t.view_top_row v v.row_used
              (omega (arith, v.col_fits)) v.view_used))
    | inr f ↦ rw (e, f) (erase_cell-IsValid _ (to_previous_row-IsValid t v))
  ]
]
