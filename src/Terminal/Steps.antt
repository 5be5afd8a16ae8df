-- ===== src/Terminal/Steps.antt =====
-- The terminal as a state machine: the calls that the rest of the kernel makes, in any order.
use naw_os.Base.{
  ℕ, zero, suc, ◌+◌, ◌-◌, ◌*◌, ◌/◌, ◌%◌, ◌≤◌, ◌<◌, ◌≡◌, refl, Bool, true, false, Bool-cases, inl,
  inr, List, [], ◌∷◌, replicate, arith, leb, ltb, ◌==◌, ◌&&◌, if◌then◌else◌, subst, length,
}
use naw_os.Base.Int.{ℤ}
use naw_os.Terminal.State.{
  Terminal, initial, max_rows, max_cols, scrollback_rows, limit, IsFit, IsSound, IsValid,
  terminal_make_cell,
}
use naw_os.Terminal.View.{
  request_render, terminal_begin_batch, terminal_end_batch, live_view_top_row,
  terminal_scroll_page_up, terminal_scroll_page_down,
}
use naw_os.Terminal.Write.{
  set_cell, set_line, put_plain, put_newline, put_backspace, ensure_history_room, terminal_put_char,
  terminal_write, terminal_clear, terminal_set_cursor_offset, terminal_move_cursor_left,
  terminal_move_cursor_right, terminal_set_cursor_absolute, length_at, wrapped_at,
}
use naw_os.Terminal.Sound.{
  All-replicate, IsFit-get_or, IsSound-place, set_cell-IsSound, set_line-IsSound,
  reset_rows-IsSound,
}
use naw_os.Terminal.Keep.{
  ensure_cursor_visible-IsValid, request_render-IsValid, shown_place-IsValid, IsValid-place,
  IsValid-batch, render_view-IsValid, sync_view_to_bottom-IsValid, ensure_history_room-IsValid,
  put_newline-IsValid, to_previous_row-IsValid, put_backspace-IsValid, advance_to_next_row-IsValid,
}

pub data Call : Type 0 where
  put_char : ℕ → Call
  write : List ℕ → Call
  set_cursor_offset : ℕ → Call
  set_cursor_absolute : ℤ → ℤ → Call
  move_left move_right clear begin_batch end_batch page_up page_down : Call

unfoldable pub run_call : Call → Terminal → Terminal
run_call (put_char c) t = terminal_put_char c t
run_call (write s) t = terminal_write s t
run_call (set_cursor_offset n) t = terminal_set_cursor_offset n t
run_call (set_cursor_absolute row col) t = terminal_set_cursor_absolute row col t
run_call move_left t = terminal_move_cursor_left t
run_call move_right t = terminal_move_cursor_right t
run_call clear t = terminal_clear t
run_call begin_batch t = terminal_begin_batch t
run_call end_batch t = terminal_end_batch t
run_call page_up t = terminal_scroll_page_up t
run_call page_down t = terminal_scroll_page_down t

-- what some sequence of calls leads to
pub data Reachable : Terminal → Type 0 where
  start : Reachable initial
  step : {t : Terminal} (c : Call) → Reachable t → Reachable (run_call c t)

put_plain-IsValid : (c : ℕ) (t : Terminal) → IsValid t → IsValid (put_plain c t)
unfolding put_plain set_cell set_line
put_plain-IsValid c t v = elim (Bool-cases (leb max_cols (t.cursor_col + 1))) [
  | inl e ↦ rw e (
      advance_to_next_row-IsValid _
        (set_line-IsSound _ t.cursor_row (t.cursor_col + 1) true put_sound
          (omega (arith, v.col_fits)))
        v.row_used v.rows_fit v.view_used)
  | inr e ↦ rw e (record {
    sound = set_line-IsSound _ t.cursor_row (t.cursor_col + 1) false put_sound (ground arith);
    row_used = v.row_used;
    rows_fit = v.rows_fit;
    col_fits = ground arith;
    view_used = v.view_used;
  })
]
  where
    put_sound : IsSound (record (set_cell t t.cursor_row t.cursor_col (terminal_make_cell c)) {
      cursor_col = t.cursor_col + 1;
    })
    put_sound =
        IsSound-place _ t.cursor_row (t.cursor_col + 1) t.total_rows t.view_top_row
          (set_cell-IsSound t t.cursor_row t.cursor_col (terminal_make_cell c) v.sound)

placed-IsValid :
    (c : ℕ) (t : Terminal)
    → IsValid t
    → IsValid
        (if c == 10 then put_newline t else (if c == 8 then put_backspace t else put_plain c t))
placed-IsValid c t v = elim (Bool-cases (c == 10)) [
  | inl e ↦ rw e (put_newline-IsValid t v)
  | inr e ↦ elim (Bool-cases (c == 8)) [
    | inl f ↦ rw (e, f) (put_backspace-IsValid t v)
    | inr f ↦ rw (e, f) (put_plain-IsValid c t v)
  ]
]

terminal_put_char-IsValid : (c : ℕ) (t : Terminal) → IsValid t → IsValid (terminal_put_char c t)
unfolding terminal_put_char
terminal_put_char-IsValid c t v =
    request_render-IsValid _ (sync_view_to_bottom-IsValid _ (placed-IsValid c t v))

terminal_write-IsValid : (s : List ℕ) (t : Terminal) → IsValid t → IsValid (terminal_write s t)
unfolding terminal_write
terminal_write-IsValid [] t v = v
terminal_write-IsValid (c ∷ s) t v = elim (Bool-cases (c == 0)) [
  | inl e ↦ rw e v
  | inr e ↦
      rw e (terminal_write-IsValid s (terminal_put_char c t) (terminal_put_char-IsValid c t v))
]

at_offset-IsValid :
    (at : ℕ) (t : Terminal)
    → at < max_rows * max_cols
    → IsValid t
    → IsValid (
        ensure_history_room
          (record t { cursor_row = t.view_top_row + at / max_cols; cursor_col = at % max_cols }))
at_offset-IsValid at t h v =
    ensure_history_room-IsValid _
      (record {
        sound =
            IsSound-place t (t.view_top_row + at / max_cols) (at % max_cols) t.total_rows
              t.view_top_row v.sound;
        some_row = omega (arith, v.row_used);
        rows_fit = v.rows_fit;
        col_fits = omega arith;
        view_used = v.view_used;
      })
      (λ (past : scrollback_rows ≤ t.view_top_row + at / max_cols).
        omega (arith, past, v.view_used, h))

terminal_set_cursor_offset-IsValid :
    (n : ℕ) (t : Terminal) → IsValid t → IsValid (terminal_set_cursor_offset n t)
unfolding terminal_set_cursor_offset
terminal_set_cursor_offset-IsValid n t v = request_render-IsValid _ (
    at_offset-IsValid (if leb (max_rows * max_cols) n then max_rows * max_cols - 1 else n) t
      (ground arith) v)

terminal_set_cursor_absolute-IsValid :
    (row col : ℤ) (t : Terminal) → IsValid t → IsValid (terminal_set_cursor_absolute row col t)
unfolding terminal_set_cursor_absolute
terminal_set_cursor_absolute-IsValid row col t v =
    shown_place-IsValid t _ _ v (ground (arith, v.row_used)) (ground arith)

terminal_move_cursor_left-IsValid :
    (t : Terminal) → IsValid t → IsValid (terminal_move_cursor_left t)
unfolding terminal_move_cursor_left
terminal_move_cursor_left-IsValid t v = elim (Bool-cases (ltb 0 t.cursor_col)) [
  | inl e ↦ rw e (
      shown_place-IsValid t t.cursor_row (t.cursor_col - 1) v v.row_used
        (omega (arith, v.col_fits)))
  | inr e ↦ elim (Bool-cases (ltb 0 t.cursor_row)) [
    | inl f ↦
        rw (e, f)
          (request_render-IsValid _ (ensure_cursor_visible-IsValid _ (to_previous_row-IsValid t v)))
    | inr f ↦ rw (e, f) v
  ]
]

-- whether the cursor can move to the right in its row
abbrev has_next : Terminal → Bool
has_next t =
    if wrapped_at t t.cursor_row
    then ltb t.cursor_col (max_cols - 1)
    else ltb t.cursor_col (length_at t t.cursor_row)

has_next-lt : (t : Terminal) → IsValid t → has_next t ≡ true → t.cursor_col + 1 < max_cols
has_next-lt t v h =
    let fits = IsFit-get_or t.line_lengths t.line_wrapped t.cursor_row v.sound.fit in
    elim (Bool-cases (wrapped_at t t.cursor_row)) [
      | inl e ↦ ground (arith, e, h)
      | inr e ↦ ground (arith, e, h, subst (λ w. length_at t t.cursor_row ≤ limit w) e fits)
    ]

terminal_move_cursor_right-IsValid :
    (t : Terminal) → IsValid t → IsValid (terminal_move_cursor_right t)
unfolding terminal_move_cursor_right
terminal_move_cursor_right-IsValid t v = elim (Bool-cases (has_next t)) [
  | inl e ↦
      rw e (shown_place-IsValid t t.cursor_row (t.cursor_col + 1) v v.row_used (has_next-lt t v e))
  | inr e ↦ elim (Bool-cases (ltb (t.cursor_row + 1) t.total_rows)) [
    | inl f ↦ rw (e, f) (shown_place-IsValid t (t.cursor_row + 1) 0 v (ground arith) (omega arith))
    | inr f ↦ rw (e, f) v
  ]
]

IsFit-replicate : (n : ℕ) → IsFit (replicate n 0) (replicate n false)
IsFit-replicate zero = tt
IsFit-replicate (suc n) = (omega arith, IsFit-replicate n)

initial-IsValid : IsValid initial
unfolding initial
initial-IsValid = record {
  sound = record {
    history = (refl, All-replicate (λ r. length r ≡ max_cols) 96 (replicate {A = ℕ} 80 0) refl);
    fit = IsFit-replicate 96;
    lines = refl;
    offset_fits = omega arith;
    shown = (refl, All-replicate (λ r. length r ≡ max_cols) 25 (replicate {A = ℕ} 80 0) refl);
  };
  row_used = omega arith;
  rows_fit = omega arith;
  col_fits = omega arith;
  view_used = omega arith;
}

terminal_clear-IsValid : (t : Terminal) → IsValid t → IsValid (terminal_clear t)
unfolding terminal_clear
terminal_clear-IsValid t v =
    let s = reset_rows-IsSound scrollback_rows 0 t v.sound in
    request_render-IsValid _ (record {
      sound = record {
        history = s.history;
        fit = s.fit;
        lines = s.lines;
        offset_fits = omega arith;
        shown = s.shown;
      };
      row_used = omega arith;
      rows_fit = omega arith;
      col_fits = omega arith;
      view_used = omega arith;
    })

terminal_end_batch-IsValid : (t : Terminal) → IsValid t → IsValid (terminal_end_batch t)
unfolding terminal_end_batch
terminal_end_batch-IsValid t v = elim (Bool-cases (t.render_batch_depth == 0)) [
  | inl e ↦ rw e v
  | inr e ↦ elim (Bool-cases ((t.render_batch_depth - 1 == 0) && t.render_pending)) [
    | inl f ↦ rw (e, f) (render_view-IsValid _ (IsValid-batch t (t.render_batch_depth - 1) false v))
    | inr f ↦ rw (e, f) (IsValid-batch t (t.render_batch_depth - 1) t.render_pending v)
  ]
]

scrolled-IsValid :
    (t : Terminal) (view : ℕ)
    → IsValid t
    → view < t.total_rows
    → IsValid (request_render (record t { view_top_row = view }))
scrolled-IsValid t view v h =
    request_render-IsValid _
      (IsValid-place t t.cursor_row t.cursor_col view v v.row_used v.col_fits h)

terminal_scroll_page_up-IsValid : (t : Terminal) → IsValid t → IsValid (terminal_scroll_page_up t)
unfolding terminal_scroll_page_up
terminal_scroll_page_up-IsValid t v = elim (Bool-cases (t.view_top_row == 0)) [
  | inl e ↦ rw e v
  | inr e ↦ rw e (scrolled-IsValid t (t.view_top_row - max_rows) v (omega (arith, v.view_used)))
]

terminal_scroll_page_down-IsValid :
    (t : Terminal) → IsValid t → IsValid (terminal_scroll_page_down t)
unfolding terminal_scroll_page_down live_view_top_row
terminal_scroll_page_down-IsValid t v =
    elim (Bool-cases (leb (live_view_top_row t) t.view_top_row)) [
      | inl e ↦ rw e v
      | inr e ↦ rw e (scrolled-IsValid t _ v (ground (arith, v.row_used, e)))
    ]

run_call-IsValid : (c : Call) (t : Terminal) → IsValid t → IsValid (run_call c t)
unfolding run_call terminal_begin_batch
run_call-IsValid (put_char c) t v = terminal_put_char-IsValid c t v
run_call-IsValid (write s) t v = terminal_write-IsValid s t v
run_call-IsValid (set_cursor_offset n) t v = terminal_set_cursor_offset-IsValid n t v
run_call-IsValid (set_cursor_absolute row col) t v =
    terminal_set_cursor_absolute-IsValid row col t v
run_call-IsValid move_left t v = terminal_move_cursor_left-IsValid t v
run_call-IsValid move_right t v = terminal_move_cursor_right-IsValid t v
run_call-IsValid clear t v = terminal_clear-IsValid t v
run_call-IsValid begin_batch t v = IsValid-batch t (t.render_batch_depth + 1) t.render_pending v
run_call-IsValid end_batch t v = terminal_end_batch-IsValid t v
run_call-IsValid page_up t v = terminal_scroll_page_up-IsValid t v
run_call-IsValid page_down t v = terminal_scroll_page_down-IsValid t v

-- Whatever calls are made from the start, the arrays of the terminal keep their sizes, the cursor
-- stands in a used row of the 96 and in one of the 80 columns, the view begins in a used row, a line
-- that is not wrapped has at most 79 characters, and the position for the hardware is on the screen.
pub Reachable-IsValid : (t : Terminal) → Reachable t → IsValid t
Reachable-IsValid _ start = initial-IsValid
Reachable-IsValid _ (step {t} c r) = run_call-IsValid c t (Reachable-IsValid t r)
