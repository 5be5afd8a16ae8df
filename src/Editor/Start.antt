-- ===== src/Editor/Start.antt =====
-- apps/editor/editor.c: a session from its start on, over the key events that the keyboard driver
-- gives. The output to the terminal is not modelled.
use naw_os.Base.{Bool, true, false, not, ◌==◌, if◌then◌else◌, List, [], ◌∷◌, ℕ, replicate}
use naw_os.Keyboard.{KeyboardEvent}
use naw_os.NawFs.Device.{BlockDevice, IsReliable}
use naw_os.NawFs.Catalog.{Fs}
use naw_os.NawFs.Files.Valid.{IsValid}
use naw_os.NawFs.Files.Keep.{fs_write-IsValid}
use naw_os.Editor.State.{EditorState, no_message, editor_buffer_size}
use naw_os.Editor.Input.{
  InputResult, ignored, render, exit, editor_file_load, editor_file_save, editor_input_handle_event,
}

-- `editor_state_t state = {0}` with the name and the extension
unfoldable pub new_session : List ℕ → List ℕ → EditorState
new_session name ext = record {
  name = name;
  ext = ext;
  buffer = replicate editor_buffer_size 0;
  len = 0;
  cursor = 0;
  status_message = no_message;
}

-- the tests on the result of an event: the loop is left, or goes on
abbrev on_result {ℓ} : {A : Type ℓ} → InputResult → A → A → A
on_result exit left later = left
on_result ignored left later = later
on_result render left later = later

module _ (dev : BlockDevice) where
  open dev use {Disk}

  -- The loop over the events of a session: whether it was left, the session and the file system.
  -- Without further events it waits.
  unfoldable pub editor_loop :
      List KeyboardEvent → EditorState → Fs Disk → Bool × EditorState × Fs Disk
  unfolding editor_input_handle_event
  editor_loop [] st fs = (false, st, fs)
  editor_loop (event ∷ events) st fs =
      let (result, st', fs') = editor_input_handle_event dev st event fs in
      let later = editor_loop events st' fs' in on_result result (true, st', fs') later

  unfoldable pub editor_start :
      List ℕ → List ℕ → List KeyboardEvent → Fs Disk → Bool × EditorState × Fs Disk
  unfolding new_session editor_loop editor_file_load
  editor_start name ext events fs =
      editor_loop events (editor_file_load dev (new_session name ext) fs) fs

module _ (dev : BlockDevice) (r : IsReliable dev) where
  open dev use {Disk}

  if-IsValid :
      (b : Bool) (x y : InputResult × EditorState × Fs Disk)
      → IsValid x.2
      → IsValid y.2
      → IsValid (if b then x else y).2
  if-IsValid true x y h k = h
  if-IsValid false x y h k = k

  -- Whatever the event and the session, the catalog stays valid.
  event-IsValid :
      (st : EditorState) (event : KeyboardEvent) (fs : Fs Disk)
      → IsValid fs
      → IsValid (editor_input_handle_event dev st event fs).2
  unfolding editor_input_handle_event editor_file_save
  event-IsValid st event fs v = if-IsValid (not event.pressed) _ _ v (
      if-IsValid event.extended _ _ v (
        if-IsValid (event.scancode == 60) _ _ (fs_write-IsValid dev r st.name st.ext st.buffer fs v)
          (if-IsValid (event.scancode == 1) _ _ v v)))

  editor_loop-IsValid :
      (events : List KeyboardEvent) (st : EditorState) (fs : Fs Disk)
      → IsValid fs
      → IsValid (editor_loop dev events st fs).2
  unfolding editor_loop
  editor_loop-IsValid [] st fs v = v
  editor_loop-IsValid (event ∷ events) st fs v =
      let h = editor_input_handle_event dev st event fs in
      let kept = event-IsValid st event fs v in
      on_result-IsValid h.0 (true, h.1, h.2) (editor_loop dev events h.1 h.2) kept
        (editor_loop-IsValid events h.1 h.2 kept)
    where
      on_result-IsValid :
          (result : InputResult) (x y : Bool × EditorState × Fs Disk)
          → IsValid x.2
          → IsValid y.2
          → IsValid (on_result result x y).2
      on_result-IsValid exit x y h k = h
      on_result-IsValid ignored x y h k = k
      on_result-IsValid render x y h k = k

  pub editor_start-IsValid :
      (name ext : List ℕ) (events : List KeyboardEvent) (fs : Fs Disk)
      → IsValid fs
      → IsValid (editor_start dev name ext events fs).2
  unfolding editor_start
  editor_start-IsValid name ext events fs v = editor_loop-IsValid events _ fs v
