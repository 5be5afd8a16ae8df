-- ===== src/Editor/Input/Keep.antt =====
-- apps/editor/editor_input.c and the invariant of the editing session.
use naw_os.Base.{ℕ, zero, suc, ◌≢◌, Bool-cases, inl, inr, ◌&&◌, ◌==◌, leb, arith, ◌%◌}
use naw_os.NawFs.Device.{BlockDevice}
use naw_os.NawFs.Catalog.{Fs}
use naw_os.Editor.State.{EditorState, StatusMessage, IsValid}
use naw_os.Editor.Buffer.{editor_buffer_insert, editor_buffer_delete}
use naw_os.Editor.Buffer.Refine.{editor_buffer_insert-IsValid, editor_buffer_delete-IsValid}
use naw_os.Editor.Cursor.Position.{editor_cursor_move-IsValid}
use naw_os.Keyboard.{KeyboardEvent}
use naw_os.Editor.Input.{insert_blanks, insert_typed, handle_character, editor_input_handle_event}

IsValid-status :
    (st : EditorState) (m : StatusMessage) → IsValid st → IsValid (record st { status_message = m })
IsValid-status st m v = record {
  size = v.size;
  fits = v.fits;
  inside = v.inside;
  ended = v.ended;
  solid = v.solid;
}

insert_blanks-IsValid : (n : ℕ) (st : EditorState) → IsValid st → IsValid (insert_blanks n st).1
unfolding insert_blanks
insert_blanks-IsValid zero st v = v
insert_blanks-IsValid (suc n) st v =
    let v' = editor_buffer_insert-IsValid 32 st (λ e. omega arith) v in
    elim (Bool-cases (editor_buffer_insert 32 st).0) [
      | inl done ↦ rw done (insert_blanks-IsValid n (editor_buffer_insert 32 st).1 v')
      | inr full ↦ rw full v'
    ]

insert_typed-IsValid : (c : ℕ) (st : EditorState) → c ≢ 0 → IsValid st → IsValid (insert_typed c st)
unfolding insert_typed
insert_typed-IsValid c st ne v =
    IsValid-status (editor_buffer_insert c st).1 _ (editor_buffer_insert-IsValid c st ne v)

handle_character-IsValid :
    (c : ℕ) (st : EditorState) → IsValid st → IsValid (handle_character c st).1
unfolding handle_character
handle_character-IsValid c st v = elim (Bool-cases (c == 10)) [
  | inl e ↦ rw e (insert_typed-IsValid 10 st (λ z. omega arith) v)
  | inr a ↦ elim (Bool-cases (c == 8)) [
    | inl e ↦
        rw (a, e) (IsValid-status (editor_buffer_delete st).1 _ (editor_buffer_delete-IsValid st v))
    | inr b ↦ elim (Bool-cases (c == 9)) [
      | inl e ↦
          rw (a, b, e) (IsValid-status (insert_blanks 4 st).1 _ (insert_blanks-IsValid 4 st v))
      | inr d ↦ elim (Bool-cases (leb 32 c && leb c 126)) [
        | inl e ↦ rw (a, b, d, e) (insert_typed-IsValid c st (ground arith) v)
        | inr o ↦ rw (a, b, d, o) v
      ]
    ]
  ]
]

-- Whatever the key event, a valid session stays valid: the text stays within the buffer with its
-- terminator and without a zero, and the cursor stays in the text.
pub editor_input_handle_event-IsValid :
    (dev : BlockDevice) (st : EditorState) (event : KeyboardEvent) (fs : Fs dev.Disk)
    → IsValid st
    → IsValid (editor_input_handle_event dev st event fs).1
unfolding editor_input_handle_event
editor_input_handle_event-IsValid dev st event fs v = elim (Bool-cases event.pressed) [
  | inr up ↦ rw up v
  | inl down ↦ elim (Bool-cases event.extended) [
    | inl ext ↦ rw (down, ext) (editor_cursor_move-IsValid (event.scancode % 256) st v)
    | inr plain ↦ elim (Bool-cases (event.scancode == 60)) [
      | inl f2 ↦ rw (down, plain, f2) (IsValid-status st _ v)
      | inr a ↦ elim (Bool-cases (event.scancode == 1)) [
        | inl esc ↦ rw (down, plain, a, esc) v
        | inr b ↦ rw (down, plain, a, b) (handle_character-IsValid event.character st v)
      ]
    ]
  ]
]
