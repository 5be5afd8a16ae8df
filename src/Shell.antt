-- ===== src/Shell.antt =====
-- kernel/shell.
pub mod Input
pub mod Parser
pub mod Commands
mod Tests
