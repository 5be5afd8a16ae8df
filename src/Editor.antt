-- ===== src/Editor.antt =====
-- apps/editor: the text editor. A parent of:
--   State    the state of an editing session (editor.h) and its invariant
--   Buffer   editor_buffer.c
--   Cursor   editor_cursor.c
--   Input    editor_input.c and editor_file.c
--   Start    editor.c
pub mod State
pub mod Buffer
pub mod Cursor
pub mod Input
pub mod Start
mod Tests
