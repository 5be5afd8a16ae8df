-- ===== src/Shell/Tests.antt =====
-- Runs of the line input.
use naw_os.Base.{ℕ, zero, suc, ◌≡◌, ◌≢◌, ◌<◌, refl, arith, some, List, [], ◌∷◌, get_or, replicate}
use naw_os.CString.{text}
use naw_os.Shell.Input.{
  ShellInput, IsValid, line, enter, shell_input_handle_event, shell_input_handle_event-enter,
}

-- "ls"
abbrev ls : ShellInput
ls = record { buffer = 108 ∷ 115 ∷ replicate 254 0; pos = 2 }

ls-IsValid : IsValid ls
ls-IsValid = record { size = refl; fits = omega arith; solid = letters }
  where
    letters : (j : ℕ) → j < 2 → get_or ls.buffer j 0 ≢ 0
    letters zero h e = omega arith
    letters (suc zero) h e = omega arith
    letters (suc (suc j)) h e = omega arith

shell_input_handle_event-enter_example :
    (command : List ℕ) × ((shell_input_handle_event (enter 28) ls).0 ≡ some command)
    × (text command ≡ line ls)
    × (line (shell_input_handle_event (enter 28) ls).1 ≡ [])
shell_input_handle_event-enter_example = shell_input_handle_event-enter 28 ls ls-IsValid
