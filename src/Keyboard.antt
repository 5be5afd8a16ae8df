-- ===== src/Keyboard.antt =====
-- kernel/input/keyboard_driver.c and kernel/input/keyboard_driver.h, without the ports: a byte from
-- the keyboard is an argument.
pub mod Repeat
mod Tests
use naw_os.Base.{
  ℕ, zero, suc, ◌+◌, ◌-◌, ◌%◌, Bool, true, false, ◌&&◌, ◌||◌, Option, none, some, List, [], ◌∷◌,
  leb, ltb, ◌==◌, if◌then◌else◌, get_or, set, replicate,
}

pub record KeyboardEvent : Type 0 where
  pub scancode : ℕ
  pub character : ℕ
  pub pressed : Bool
  pub extended : Bool

pub record Keyboard : Type 0 where
  pub key_down : List Bool
  pub extended_key_down : List Bool
  pub extended_scancode_prefix : Bool
  pub shift_pressed : Bool

-- the entries behind the last one are 0
abbrev pub scancode_map : List ℕ
scancode_map =
    0 ∷ 27 ∷ 49 ∷ 50 ∷ 51 ∷ 52 ∷ 53 ∷ 54 ∷ 55 ∷ 56 ∷ 57 ∷ 48 ∷ 45 ∷ 61 ∷ 8 ∷ 9 ∷ 113 ∷ 119 ∷ 101
    ∷ 114 ∷ 116 ∷ 121 ∷ 117 ∷ 105 ∷ 111 ∷ 112 ∷ 91 ∷ 93 ∷ 10 ∷ 0 ∷ 97 ∷ 115 ∷ 100 ∷ 102 ∷ 103 ∷ 104
    ∷ 106 ∷ 107 ∷ 108 ∷ 59 ∷ 39 ∷ 96 ∷ 0 ∷ 92 ∷ 122 ∷ 120 ∷ 99 ∷ 118 ∷ 98 ∷ 110 ∷ 109 ∷ 44 ∷ 46 ∷ 47
    ∷ 0 ∷ 42 ∷ 0 ∷ 32 ∷ 0 ∷ []

abbrev pub scancode_shift_map : List ℕ
scancode_shift_map =
    0 ∷ 27 ∷ 33 ∷ 64 ∷ 35 ∷ 36 ∷ 37 ∷ 94 ∷ 38 ∷ 42 ∷ 40 ∷ 41 ∷ 95 ∷ 43 ∷ 8 ∷ 9 ∷ 81 ∷ 87 ∷ 69 ∷ 82
    ∷ 84 ∷ 89 ∷ 85 ∷ 73 ∷ 79 ∷ 80 ∷ 123 ∷ 125 ∷ 10 ∷ 0 ∷ 65 ∷ 83 ∷ 68 ∷ 70 ∷ 71 ∷ 72 ∷ 74 ∷ 75 ∷ 76
    ∷ 58 ∷ 34 ∷ 126 ∷ 0 ∷ 124 ∷ 90 ∷ 88 ∷ 67 ∷ 86 ∷ 66 ∷ 78 ∷ 77 ∷ 60 ∷ 62 ∷ 63 ∷ 0 ∷ 42 ∷ 0 ∷ 32
    ∷ 0 ∷ []

unfoldable pub keyboard_driver_reset_state : Keyboard
keyboard_driver_reset_state = record {
  key_down = replicate 128 false;
  extended_key_down = replicate 128 false;
  extended_scancode_prefix = false;
  shift_pressed = false;
}

-- the branch for codes above 0xFF
unfoldable pub translate_extended : ℕ → Keyboard → Option KeyboardEvent × Keyboard
translate_extended scancode kb =
    let ext = scancode % 256 in
    let key = ext % 128 in
    if leb 128 ext
    then (none, record kb { extended_key_down = set kb.extended_key_down key false })
    else (if get_or kb.extended_key_down key false then (none, kb) else (
      some (record { scancode = scancode; character = 0; pressed = true; extended = true }),
      record kb { extended_key_down = set kb.extended_key_down key true },
    ))

-- the codes of the keys without a special role
unfoldable pub translate_plain : ℕ → Keyboard → Option KeyboardEvent × Keyboard
translate_plain scancode kb =
    if leb 128 scancode
    then (none, record kb { key_down = set kb.key_down (scancode % 128) false })
    else (if get_or kb.key_down scancode false then (none, kb) else (
      some (record {
        scancode = scancode;
        character =
            get_or (if kb.shift_pressed then scancode_shift_map else scancode_map) scancode 0;
        pressed = true;
        extended = false;
      }),
      record kb { key_down = set kb.key_down scancode true },
    ))

-- `none` for the result 0
unfoldable pub keyboard_driver_translate_scancode : ℕ → Keyboard → Option KeyboardEvent × Keyboard
keyboard_driver_translate_scancode scancode kb =
    if scancode == 0
    then (none, kb)
    else (if ltb 255 scancode
        then translate_extended scancode kb
        else (if (scancode == 42) || (scancode == 54)
            then (
              some
                  (record { scancode = scancode; character = 0; pressed = true; extended = false }),
              record kb { shift_pressed = true; key_down = set kb.key_down scancode true },
            )
            else (if (scancode == 170) || (scancode == 182)
                then (
                  none,
                  record kb {
                    shift_pressed = false;
                    key_down = set kb.key_down (scancode % 128) false;
                  },
                )
                else translate_plain scancode kb)))

-- the event that the handler gets, if any
unfoldable pub keyboard_driver_handle_irq : ℕ → Keyboard → Option KeyboardEvent × Keyboard
keyboard_driver_handle_irq scancode kb =
    if scancode == 224
    then (none, record kb { extended_scancode_prefix = true })
    else (if kb.extended_scancode_prefix
        then keyboard_driver_translate_scancode (57344 + scancode)
            (record kb { extended_scancode_prefix = false })
        else keyboard_driver_translate_scancode scancode kb)
