-- ===== src/Terminal/Tests.antt =====
-- Runs of the terminal.
use naw_os.Base.{◌≡◌, refl, [], ◌∷◌, arith}
use naw_os.Terminal.State.{Terminal, initial, IsValid}
use naw_os.Terminal.View.{render_view}
use naw_os.Terminal.Write.{terminal_put_char, terminal_clear, reset_rows, clear_history_row}
use naw_os.Terminal.View.{request_render}
use naw_os.Terminal.Steps.{run_call, clear, write, move_left, start, step, Reachable-IsValid}
use naw_os.Terminal.Undo.{page, terminal_put_char-back}

Reachable-IsValid_example :
    IsValid (run_call move_left (run_call (write (72 ∷ 105 ∷ [])) (run_call clear initial)))
Reachable-IsValid_example =
    Reachable-IsValid
      (run_call move_left (run_call (write (72 ∷ 105 ∷ [])) (run_call clear initial)))
      (step move_left (step (write (72 ∷ 105 ∷ [])) (step clear start)))

abbrev cleared : Terminal
cleared = run_call clear initial

cleared-IsValid : IsValid cleared
cleared-IsValid = Reachable-IsValid cleared (step clear start)

terminal_put_char-back_example :
    page (terminal_put_char 8 (terminal_put_char 65 cleared)) ≡ page cleared
unfolding run_call terminal_clear reset_rows clear_history_row request_render render_view initial
terminal_put_char-back_example =
    terminal_put_char-back 65 cleared cleared-IsValid (λ e. omega arith) (λ e. omega arith)
      (omega arith) refl refl refl

-- a cursor in the fifth row of the screen
abbrev lower : Terminal
lower = record initial { cursor_row = 34; cursor_col = 7; total_rows = 40; view_top_row = 30 }
