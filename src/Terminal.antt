-- ===== src/Terminal.antt =====
-- kernel/terminal/terminal.c and drivers/vga/vga.c.
--   State    the scrollback, the cursor and the screen
--   View     what is shown of the scrollback
--   Write    characters, the rows that they go to, and moves of the cursor
--   Sound    the sizes of the arrays
--   Keep     the invariant and the parts of the operations
--   Steps    the calls as steps of a state machine
--   Undo     a backspace after a character, and the hardware cursor
pub mod State
pub mod View
pub mod Write
pub mod Sound
pub mod Keep
pub mod Steps
pub mod Undo
mod Tests
