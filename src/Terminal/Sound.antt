-- ===== src/Terminal/Sound.antt =====
-- kernel/terminal/terminal.c: the sizes of the arrays and the limits of the lines.
use naw_os.Base.{
  ℕ, zero, suc, ◌+◌, ◌≤◌, ◌<◌, ◌≡◌, ◌∙◌, refl, ap, Bool, true, false, Bool-cases, inl, inr, List,
  [], ◌∷◌, length, length-set, get_or, set, replicate, All, arith, ltb, if◌then◌else◌,
}
use naw_os.Terminal.State.{Terminal, max_cols, scrollback_rows, limit, IsFit, IsGrid, IsSound}
use naw_os.Terminal.View.{blank_row, rows_shown, render_view}
use naw_os.Terminal.Write.{
  shift_back, set_cell, set_line, clear_history_row, reset_rows, shift_history_up,
}

All-set :
    {A : Type 0} (P : A → Type 0) (xs : List A) (i : ℕ) (v : A)
    → All P xs
    → P v
    → All P (set xs i v)
All-set P [] i v h k = tt
All-set P (x ∷ xs) zero v h k = (k, h.1)
All-set P (x ∷ xs) (suc i) v h k = (h.0, All-set P xs i v h.1 k)

All-get_or :
    {A : Type 0} (P : A → Type 0) (xs : List A) (i : ℕ) (d : A) → All P xs → P d → P (get_or xs i d)
All-get_or P [] i d h k = k
All-get_or P (x ∷ xs) zero d h k = h.0
All-get_or P (x ∷ xs) (suc i) d h k = All-get_or P xs i d h.1 k

pub All-replicate : {A : Type 0} (P : A → Type 0) (n : ℕ) (a : A) → P a → All P (replicate n a)
All-replicate P zero a h = tt
All-replicate P (suc n) a h = (h, All-replicate P n a h)

IsGrid-set :
    (n : ℕ) (rows : List (List ℕ)) (i : ℕ) (r : List ℕ)
    → IsGrid n rows
    → length r ≡ max_cols
    → IsGrid n (set rows i r)
IsGrid-set n rows i r (size, all_rows) h =
    (length-set rows i r ∙ size, All-set (λ x. length x ≡ max_cols) rows i r all_rows h)

-- a cell may be set in a row that is there; elsewhere nothing changes
IsGrid-set_cell :
    (n : ℕ) (rows : List (List ℕ)) (i col cell : ℕ)
    → IsGrid n rows
    → IsGrid n (set rows i (set (get_or rows i []) col cell))
IsGrid-set_cell n rows i col cell (size, all_rows) =
    (length-set rows i _ ∙ size, go rows i all_rows)
  where
    go :
        (rs : List (List ℕ)) (k : ℕ)
        → All (λ x. length x ≡ max_cols) rs
        → All (λ x. length x ≡ max_cols) (set rs k (set (get_or rs k []) col cell))
    go [] k h = tt
    go (x ∷ rs) zero h = (length-set x col cell ∙ h.0, h.1)
    go (x ∷ rs) (suc k) h = (h.0, go rs k h.1)

IsFit-set :
    (ls : List ℕ) (ws : List Bool) (i l : ℕ) (w : Bool)
    → IsFit ls ws
    → l ≤ limit w
    → IsFit (set ls i l) (set ws i w)
IsFit-set [] [] i l w h k = tt
IsFit-set [] (v ∷ ws) i l w h k = absurd h
IsFit-set (x ∷ ls) [] i l w h k = absurd h
IsFit-set (x ∷ ls) (v ∷ ws) zero l w h k = (k, h.1)
IsFit-set (x ∷ ls) (v ∷ ws) (suc i) l w h k = (h.0, IsFit-set ls ws i l w h.1 k)

limit-ge : (w : Bool) → 79 ≤ limit w
limit-ge true = omega arith
limit-ge false = omega arith

pub IsFit-set_length :
    (ls : List ℕ) (ws : List Bool) (i l : ℕ) → IsFit ls ws → l ≤ 79 → IsFit (set ls i l) ws
IsFit-set_length [] [] i l h k = tt
IsFit-set_length [] (v ∷ ws) i l h k = absurd h
IsFit-set_length (x ∷ ls) [] i l h k = absurd h
IsFit-set_length (x ∷ ls) (v ∷ ws) zero l h k = (omega (arith, limit-ge v), h.1)
IsFit-set_length (x ∷ ls) (v ∷ ws) (suc i) l h k = (h.0, IsFit-set_length ls ws i l h.1 k)

pub IsFit-get_or :
    (ls : List ℕ) (ws : List Bool) (i : ℕ) → IsFit ls ws → get_or ls i 0 ≤ limit (get_or ws i false)
IsFit-get_or [] [] i h = omega arith
IsFit-get_or [] (v ∷ ws) i h = absurd h
IsFit-get_or (x ∷ ls) [] i h = absurd h
IsFit-get_or (x ∷ ls) (v ∷ ws) zero h = h.0
IsFit-get_or (x ∷ ls) (v ∷ ws) (suc i) h = IsFit-get_or ls ws i h.1

length-shift_back : {A : Type 0} (xs : List A) → length (shift_back xs) ≡ length xs
unfolding shift_back
length-shift_back [] = refl
length-shift_back (x ∷ []) = refl
length-shift_back (x ∷ y ∷ xs) = ap suc (length-shift_back (y ∷ xs))

All-shift_back : {A : Type 0} (P : A → Type 0) (xs : List A) → All P xs → All P (shift_back xs)
unfolding shift_back
All-shift_back P [] h = tt
All-shift_back P (x ∷ []) h = h
All-shift_back P (x ∷ y ∷ xs) h = (h.1.0, All-shift_back P (y ∷ xs) h.1)

IsFit-shift_back :
    (ls : List ℕ) (ws : List Bool) → IsFit ls ws → IsFit (shift_back ls) (shift_back ws)
unfolding shift_back
IsFit-shift_back [] [] h = tt
IsFit-shift_back [] (v ∷ ws) h = absurd h
IsFit-shift_back (x ∷ ls) [] h = absurd h
IsFit-shift_back (x ∷ []) (v ∷ []) h = h
IsFit-shift_back (x ∷ []) (v ∷ u ∷ ws) h = absurd h.1
IsFit-shift_back (x ∷ y ∷ ls) (v ∷ []) h = absurd h.1
IsFit-shift_back (x ∷ y ∷ ls) (v ∷ u ∷ ws) h = (h.1.0, IsFit-shift_back (y ∷ ls) (u ∷ ws) h.1)

pub set_cell-IsSound :
    (t : Terminal) (row col cell : ℕ) → IsSound t → IsSound (set_cell t row col cell)
unfolding set_cell
set_cell-IsSound t row col cell h = record {
  history = IsGrid-set_cell scrollback_rows t.screen_history row col cell h.history;
  fit = h.fit;
  lines = h.lines;
  offset_fits = h.offset_fits;
  shown = h.shown;
}

pub set_line-IsSound :
    (t : Terminal) (row len : ℕ) (w : Bool)
    → IsSound t
    → len ≤ limit w
    → IsSound (set_line t row len w)
unfolding set_line
set_line-IsSound t row len w h k = record {
  history = h.history;
  fit = IsFit-set t.line_lengths t.line_wrapped row len w h.fit k;
  lines = length-set t.line_lengths row len ∙ h.lines;
  offset_fits = h.offset_fits;
  shown = h.shown;
}

pub clear_history_row-IsSound :
    (row : ℕ) (t : Terminal) → IsSound t → IsSound (clear_history_row row t)
unfolding clear_history_row
clear_history_row-IsSound row t h = record {
  history = IsGrid-set scrollback_rows t.screen_history row blank_row h.history refl;
  fit = IsFit-set t.line_lengths t.line_wrapped row 0 false h.fit (omega arith);
  lines = length-set t.line_lengths row 0 ∙ h.lines;
  offset_fits = h.offset_fits;
  shown = h.shown;
}

pub reset_rows-IsSound : (n row : ℕ) (t : Terminal) → IsSound t → IsSound (reset_rows n row t)
unfolding reset_rows
reset_rows-IsSound zero row t h = h
reset_rows-IsSound (suc n) row t h =
    reset_rows-IsSound n (row + 1) (clear_history_row row t) (clear_history_row-IsSound row t h)

shift_back-IsSound :
    (t : Terminal)
    → IsSound t
    → IsSound (record t {
      screen_history = shift_back t.screen_history;
      line_lengths = shift_back t.line_lengths;
      line_wrapped = shift_back t.line_wrapped;
    })
shift_back-IsSound t h = record {
  history = (
    length-shift_back t.screen_history ∙ h.history.0,
    All-shift_back (λ x. length x ≡ max_cols) t.screen_history h.history.1,
  );
  fit = IsFit-shift_back t.line_lengths t.line_wrapped h.fit;
  lines = length-shift_back t.line_lengths ∙ h.lines;
  offset_fits = h.offset_fits;
  shown = h.shown;
}

-- moving the cursor or the view keeps the arrays
pub IsSound-place :
    (t : Terminal) (row col total view : ℕ)
    → IsSound t
    → IsSound
        (record t { cursor_row = row; cursor_col = col; total_rows = total; view_top_row = view })
IsSound-place t row col total view h = record {
  history = h.history;
  fit = h.fit;
  lines = h.lines;
  offset_fits = h.offset_fits;
  shown = h.shown;
}

pub shift_history_up-IsSound : (t : Terminal) → IsSound t → IsSound (shift_history_up t)
unfolding shift_history_up
shift_history_up-IsSound t h =
    let s = clear_history_row-IsSound 95 _ (shift_back-IsSound t h) in
    record {
      history = s.history;
      fit = s.fit;
      lines = s.lines;
      offset_fits = s.offset_fits;
      shown = s.shown;
    }

rows_shown-IsGrid :
    (n row : ℕ) (t : Terminal)
    → IsGrid scrollback_rows t.screen_history
    → IsGrid n (rows_shown n row t)
unfolding rows_shown
rows_shown-IsGrid zero row t h = (refl, tt)
rows_shown-IsGrid (suc n) row t h =
    let (size, all_rows) = rows_shown-IsGrid n (row + 1) t h in (ap suc size, (shown_row, all_rows))
  where
    shown_row :
        length (
          if ltb (t.view_top_row + row) t.total_rows
          then get_or t.screen_history (t.view_top_row + row) blank_row
          else blank_row)
        ≡ max_cols
    shown_row = elim (Bool-cases (ltb (t.view_top_row + row) t.total_rows)) [
      | inl e ↦ rw e (
          All-get_or (λ x. length x ≡ max_cols) t.screen_history (t.view_top_row + row) blank_row
            h.1 refl)
      | inr e ↦ rw e refl
    ]

pub render_view-IsSound :
    (t : Terminal) → t.cursor_col < max_cols → IsSound t → IsSound (render_view t)
unfolding render_view
render_view-IsSound t col h = record {
  history = h.history;
  fit = h.fit;
  lines = h.lines;
  offset_fits = ground arith;
  shown = rows_shown-IsGrid 25 0 t h.history;
}
