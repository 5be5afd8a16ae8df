-- ===== src/NawLang.antt =====
-- apps/nawlang: the language Lelya.
pub mod Word
pub mod Bytecode
pub mod Vm
pub mod Compiler
mod Tests
