-- ===== src/Editor/Input.antt =====
-- apps/editor/editor_input.c and apps/editor/editor_file.c. A key event changes the editing session,
-- and the file system when it saves.
pub mod Keep
pub mod Saving
use naw_os.Base.{
  ℕ, zero, suc, ◌+◌, ◌%◌, Bool, true, false, ◌&&◌, Option, none, some, List, [], ◌∷◌, ◌++◌, leb,
  ltb, ◌==◌, if◌then◌else◌, not, length,
}
use naw_os.CString.Memory.{memcpy}
use naw_os.Keyboard.{KeyboardEvent}
use naw_os.NawFs.Device.{BlockDevice}
use naw_os.NawFs.Catalog.{Fs}
use naw_os.NawFs.Files.{fs_write, fs_read_to_buffer}
use naw_os.Editor.State.{
  EditorState, StatusMessage, no_message, new_file, file_saved, save_failed, buffer_full,
  editor_buffer_size,
}
use naw_os.Editor.Buffer.{editor_buffer_insert, editor_buffer_delete}
use naw_os.Editor.Cursor.{editor_cursor_move}

pub data InputResult : Type 0 where
  ignored render exit : InputResult

-- `while (inserted < 4 && editor_buffer_insert(state, ' ')) inserted++`, with the rounds left: the
-- count and the state
unfoldable pub insert_blanks : ℕ → EditorState → ℕ × EditorState
insert_blanks zero st = (0, st)
insert_blanks (suc rounds) st =
    let (done, st') = editor_buffer_insert b' ' st in
    let (inserted, st'') = insert_blanks rounds st' in
    if done then (inserted + 1, st'') else (0, st')

-- inserts, and sets the message for the result
unfoldable pub insert_typed : ℕ → EditorState → EditorState
insert_typed c st =
    let (done, st') = editor_buffer_insert c st in
    record st' { status_message = if done then no_message else buffer_full }

-- the branches on the character, below the tests on the scancode
unfoldable pub handle_character : ℕ → EditorState → InputResult × EditorState
unfolding insert_typed insert_blanks
handle_character c st =
    if c == 10
    then (render, insert_typed 10 st)
    else (if c == 8
        then (render, record (editor_buffer_delete st).1 { status_message = no_message })
        else (if c == 9
            then (let (inserted, st') = insert_blanks 4 st in
                (
                  render,
                  record st' { status_message = if inserted == 4 then no_message else buffer_full },
                ))
            else (if leb 32 c && leb c 126 then (render, insert_typed c st) else (ignored, st))))

module _ (dev : BlockDevice) where
  -- The buffer gets the text and its terminator.
  unfoldable pub editor_file_load : EditorState → Fs dev.Disk → EditorState
  editor_file_load st fs = elim (fs_read_to_buffer dev st.name st.ext editor_buffer_size fs) [
    | none ↦ record st { status_message = new_file }
    | some (loaded, copied) ↦ record st {
      buffer = memcpy st.buffer (copied ++ (0 ∷ [])) (loaded + 1);
      len = loaded;
      cursor = loaded;
      status_message = no_message;
    }
  ]

  unfoldable pub editor_file_save : EditorState → Fs dev.Disk → Bool × Fs dev.Disk
  editor_file_save st fs = fs_write dev st.name st.ext st.buffer fs

  unfoldable pub editor_input_handle_event :
      EditorState → KeyboardEvent → Fs dev.Disk → InputResult × EditorState × Fs dev.Disk
  unfolding handle_character editor_file_save
  editor_input_handle_event st event fs =
      let (saved, fs') = editor_file_save st fs in
      let (result, st') = handle_character event.character st in
      if not event.pressed
      then (ignored, st, fs)
      else (if event.extended
          then (render, editor_cursor_move (event.scancode % 256) st, fs)
          else (if event.scancode == 60
              then (
                render,
                record st { status_message = if saved then file_saved else save_failed },
                fs',
              )
              else (if event.scancode == 1 then (exit, st, fs) else (result, st', fs))))
