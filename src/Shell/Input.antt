-- ===== src/Shell/Input.antt =====
-- kernel/shell/shell_input.c: the line that is typed. Its output to the terminal is not modelled.
use naw_os.Base.{
  ℕ, ◌+◌, ◌-◌, ◌<◌, ◌≡◌, ◌≢◌, ◌∙◌, refl, sym, ap, true, false, ◌||◌, not, Bool-cases, inl, inr,
  Option, none, some, List, [], ltb, ◌==◌, if◌then◌else◌, get_or, get_or-set_self, get_or-set_ne,
  set, length, length-set, window, window_ext, arith,
}
use naw_os.CString.{text}
use naw_os.CString.Laws.{text-window}
use naw_os.Keyboard.{KeyboardEvent}

abbrev pub shell_input_buffer_size : ℕ
shell_input_buffer_size = 256

pub record ShellInput : Type 0 where
  pub buffer : List ℕ
  pub pos : ℕ

unfoldable pub shell_input_init : ShellInput → ShellInput
shell_input_init st = record { buffer = set st.buffer 0 0; pos = 0 }

-- the branch for all other characters
unfoldable pub append_char : ℕ → ShellInput → ShellInput
append_char c st =
    if ltb st.pos (shell_input_buffer_size - 1)
    then record { buffer = set (set st.buffer st.pos c) (st.pos + 1) 0; pos = st.pos + 1 }
    else st

-- the branch for '\b'
unfoldable pub erase_char : ShellInput → ShellInput
erase_char st =
    if ltb 0 st.pos then record { buffer = set st.buffer (st.pos - 1) 0; pos = st.pos - 1 } else st

-- The command that is run, if any, and the state after it. `shell_run_command` gets the buffer.
unfoldable pub shell_input_handle_event : KeyboardEvent → ShellInput → Option (List ℕ) × ShellInput
shell_input_handle_event event st =
    let finished = set st.buffer st.pos 0 in
    if not event.pressed || (event.extended || (event.character == 0))
    then (none, st)
    else (if event.character == 8
        then (none, erase_char st)
        else (if event.character == 10
            then (some finished, record { buffer = set finished 0 0; pos = 0 })
            else (none, append_char event.character st)))

-- the line typed so far
abbrev pub line : ShellInput → List ℕ
line st = window st.buffer 0 st.pos

-- the key Enter, pressed
abbrev pub enter : ℕ → KeyboardEvent
enter scancode = record { scancode = scancode; character = 10; pressed = true; extended = false }

-- The line fits with its terminator and holds no zero.
pub record IsValid (st : ShellInput) : Type 0 where
  pub size : length st.buffer ≡ shell_input_buffer_size
  pub fits : st.pos < shell_input_buffer_size
  pub solid : (j : ℕ) → j < st.pos → get_or st.buffer j 0 ≢ 0

append_char-IsValid : (c : ℕ) (st : ShellInput) → c ≢ 0 → IsValid st → IsValid (append_char c st)
unfolding append_char
append_char-IsValid c st ne v = elim (Bool-cases (ltb st.pos (shell_input_buffer_size - 1))) [
  | inr e ↦ rw e v
  | inl e ↦ rw e (record {
    size =
        length-set (set st.buffer st.pos c) (st.pos + 1) 0 ∙ length-set st.buffer st.pos c ∙ v.size;
    fits = ground (arith, e);
    solid = typed;
  })
]
  where
    typed : (j : ℕ) → j < st.pos + 1 → get_or (set (set st.buffer st.pos c) (st.pos + 1) 0) j 0 ≢ 0
    typed j h = elim (Bool-cases (j == st.pos)) [
      | inl same ↦ λ z. ne (sym (here (ground (arith, same))) ∙ z)
      | inr other ↦
          λ z. v.solid j (ground (arith, other)) (sym (elsewhere (λ e. ground (arith, other))) ∙ z)
    ]
      where
        below :
            get_or (set (set st.buffer st.pos c) (st.pos + 1) 0) j 0
            ≡ get_or (set st.buffer st.pos c) j 0
        below = get_or-set_ne (set st.buffer st.pos c) (st.pos + 1) j 0 0 (λ e. omega (arith, e, h))

        here : j ≡ st.pos → get_or (set (set st.buffer st.pos c) (st.pos + 1) 0) j 0 ≡ c
        here e =
            below
            ∙ ap (λ k. get_or (set st.buffer st.pos c) k 0) e
            ∙ get_or-set_self st.buffer st.pos c 0 (omega (arith, v.size, v.fits))

        elsewhere :
            st.pos ≢ j
            → get_or (set (set st.buffer st.pos c) (st.pos + 1) 0) j 0 ≡ get_or st.buffer j 0
        elsewhere n = below ∙ get_or-set_ne st.buffer st.pos j c 0 n

erase_char-IsValid : (st : ShellInput) → IsValid st → IsValid (erase_char st)
unfolding erase_char
erase_char-IsValid st v = elim (Bool-cases (ltb 0 st.pos)) [
  | inr e ↦ rw e v
  | inl e ↦ rw e (record {
    size = length-set st.buffer (st.pos - 1) 0 ∙ v.size;
    fits = omega (arith, v.fits);
    solid = λ j h z.
        v.solid j (omega (arith, h))
          (sym (get_or-set_ne st.buffer (st.pos - 1) j 0 0 (λ q. omega (arith, q, h))) ∙ z);
  })
]

-- Whatever key event comes, the typed line keeps within its buffer of 256 bytes with its terminator,
-- and holds no zero.
pub shell_input_handle_event-IsValid :
    (event : KeyboardEvent) (st : ShellInput)
    → IsValid st
    → IsValid (shell_input_handle_event event st).1
unfolding shell_input_handle_event
shell_input_handle_event-IsValid event st v =
    elim (Bool-cases (not event.pressed || (event.extended || (event.character == 0)))) [
      | inl e ↦ rw e v
      | inr e ↦ elim (Bool-cases (event.character == 8)) [
        | inl f ↦ rw (e, f) (erase_char-IsValid st v)
        | inr f ↦ elim (Bool-cases (event.character == 10)) [
          | inl g ↦
              rw (e, f, g)
                (record {
                  size =
                      length-set (set st.buffer st.pos 0) 0 0
                      ∙ length-set st.buffer st.pos 0
                      ∙ v.size;
                  fits = omega arith;
                  solid = λ j h. absurd (omega (arith, h));
                })
          | inr g ↦ rw (e, f, g) (append_char-IsValid event.character st (ground (arith, e)) v)
        ]
      ]
    ]

-- In a valid line input, the key Enter runs the line that was typed, and leaves an empty line.
pub shell_input_handle_event-enter :
    (scancode : ℕ) (st : ShellInput)
    → IsValid st
    → (command : List ℕ) × ((shell_input_handle_event (enter scancode) st).0 ≡ some command)
      × (text command ≡ line st)
      × (line (shell_input_handle_event (enter scancode) st).1 ≡ [])
unfolding shell_input_handle_event
shell_input_handle_event-enter scancode st v = (
  set st.buffer st.pos 0,
  refl,
  text-window (set st.buffer st.pos 0) st.pos (λ j h z. v.solid j h (sym (kept j h) ∙ z))
        (get_or-set_self st.buffer st.pos 0 0 (omega (arith, v.size, v.fits)))
      ∙ window_ext (set st.buffer st.pos 0) st.buffer 0 0 st.pos
          (λ j h. kept (0 + j) (omega (arith, h))),
  refl,
)
  where
    kept : (j : ℕ) → j < st.pos → get_or (set st.buffer st.pos 0) j 0 ≡ get_or st.buffer j 0
    kept j h = get_or-set_ne st.buffer st.pos j 0 0 (λ e. omega (arith, e, h))
