-- ===== src/Keyboard/Tests.antt =====
-- Runs of the keyboard driver.
use naw_os.Base.{◌≡◌, ◌≢◌, refl, arith, none}
use naw_os.Keyboard.{Keyboard, keyboard_driver_reset_state, keyboard_driver_handle_irq}
use naw_os.Keyboard.Repeat.{IsValid, keyboard_driver_handle_irq-repeat}

abbrev idle : Keyboard
idle = keyboard_driver_reset_state

idle-IsValid : IsValid idle
unfolding keyboard_driver_reset_state
idle-IsValid = record { keys = refl; extended_keys = refl }

-- the key A
keyboard_driver_handle_irq-repeat_example :
    ((keyboard_driver_handle_irq 30 idle).0 ≢ none)
    × ((keyboard_driver_handle_irq 30 (keyboard_driver_handle_irq 30 idle).1).0 ≡ none)
    × ((keyboard_driver_handle_irq 30
          (keyboard_driver_handle_irq 158 (keyboard_driver_handle_irq 30 idle).1).1).0
        ≢ none)
unfolding keyboard_driver_reset_state
keyboard_driver_handle_irq-repeat_example =
    keyboard_driver_handle_irq-repeat 30 idle idle-IsValid (omega arith) (omega arith)
      (λ e. omega arith) (λ e. omega arith) (λ e. omega arith) refl refl
