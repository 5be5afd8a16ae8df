-- ===== src/Editor/Tests.antt =====
-- Runs of the editor on a short text.
use naw_os.Base.{
  ℕ, zero, suc, ◌≡◌, ◌≢◌, refl, true, false, List, [], ◌∷◌, ◌++◌, some, replicate, arith, get_or,
  ◌<◌,
}
use naw_os.NawFs.Device.{ram_disk, ram_disk-IsReliable}
use naw_os.NawFs.Catalog.{Fs, find_file, find_from}
use naw_os.NawFs.Files.{fs_write}
use naw_os.NawFs.Files.Valid
use naw_os.NawFs.Catalog.Roundtrip.{IsGood}
use naw_os.NawFs.Format.{Entry, is_valid_entry, entry_matches, pack_field, pack_loop}
use naw_os.CString.Memory.{memset, memcmp}
use naw_os.Editor.State.{EditorState, no_message, before_cursor, after_cursor, contents, IsValid}
use naw_os.Editor.Buffer.{editor_buffer_insert, editor_buffer_delete}
use naw_os.Editor.Buffer.Refine.{editor_buffer_insert_refines, editor_buffer_delete_refines}
use naw_os.Editor.Cursor.{
  editor_cursor_index_from_visual_position, editor_cursor_get_visual_position,
}
use naw_os.Editor.Cursor.Position.{editor_cursor_index-get_visual_position}
use naw_os.Keyboard.{KeyboardEvent}
use naw_os.Editor.Input.{editor_file_load, editor_file_save, editor_input_handle_event}
use naw_os.Editor.Input.Keep.{editor_input_handle_event-IsValid}
use naw_os.Editor.Input.Saving.{editor_file_load-editor_file_save}

-- "ab" with the cursor between the letters, in the file "n.t"
abbrev ab : EditorState
ab = record {
  name = 110 ∷ [];
  ext = 116 ∷ [];
  buffer = 97 ∷ 98 ∷ replicate 510 0;
  len = 2;
  cursor = 1;
  status_message = no_message;
}

ab-IsValid : IsValid ab
ab-IsValid = record {
  size = refl;
  fits = omega arith;
  inside = omega arith;
  ended = refl;
  solid = letters;
}
  where
    letters : (j : ℕ) → j < 2 → get_or ab.buffer j 0 ≢ 0
    letters zero h e = omega arith
    letters (suc zero) h e = omega arith
    letters (suc (suc j)) h e = omega arith

editor_buffer_insert_refines_example :
    ((editor_buffer_insert 99 ab).0 ≡ true)
    × (before_cursor (editor_buffer_insert 99 ab).1 ≡ 97 ∷ 99 ∷ [])
    × (after_cursor (editor_buffer_insert 99 ab).1 ≡ 98 ∷ [])
editor_buffer_insert_refines_example = editor_buffer_insert_refines 99 ab ab-IsValid

editor_buffer_delete_refines_example :
    ((editor_buffer_delete ab).0 ≡ true)
    × (before_cursor ab ≡ before_cursor (editor_buffer_delete ab).1 ++ (97 ∷ []))
    × (after_cursor (editor_buffer_delete ab).1 ≡ after_cursor ab)
editor_buffer_delete_refines_example = editor_buffer_delete_refines ab ab-IsValid

editor_cursor_index-get_visual_position_example :
    editor_cursor_index_from_visual_position ab (editor_cursor_get_visual_position ab) ≡ some 1
editor_cursor_index-get_visual_position_example =
    editor_cursor_index-get_visual_position ab ab-IsValid

-- "n.t" without content, in the first data sector
abbrev entry : Entry
entry = record {
  name = 110 ∷ replicate 7 0;
  ext = 116 ∷ 0 ∷ 0 ∷ [];
  size = 0;
  sector = 139;
  reserved = replicate 17 0;
}

abbrev stored : Fs (ℕ → List ℕ)
stored = record { entries = entry ∷ []; disk = λ k. replicate 512 0 }

entry-IsGood : IsGood entry
unfolding is_valid_entry
entry-IsGood = record {
  sized = record {
    name_len = refl;
    ext_len = refl;
    size_fits = omega arith;
    sector_fits = omega arith;
    reserved_len = refl;
  };
  valid = refl;
}

stored-IsValid : Valid.IsValid stored
stored-IsValid = record { good = (entry-IsGood, tt); distinct = (tt, tt); small = omega arith }

saved : (editor_file_save ram_disk ab stored).0 ≡ true
unfolding editor_file_save fs_write find_file find_from entry_matches pack_field pack_loop memset
    memcmp
saved = refl

editor_file_load-editor_file_save_example :
    contents (editor_file_load ram_disk ab (editor_file_save ram_disk ab stored).1) ≡ contents ab
editor_file_load-editor_file_save_example =
    editor_file_load-editor_file_save ram_disk ram_disk-IsReliable ab ab stored stored-IsValid
      ab-IsValid refl refl refl saved

-- the key C
abbrev key_c : KeyboardEvent
key_c = record { scancode = 46; character = 99; pressed = true; extended = false }

editor_input_handle_event-IsValid_example :
    IsValid (editor_input_handle_event ram_disk ab key_c stored).1
editor_input_handle_event-IsValid_example =
    editor_input_handle_event-IsValid ram_disk ab key_c stored ab-IsValid
