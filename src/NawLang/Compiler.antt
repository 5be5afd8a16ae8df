-- ===== src/NawLang/Compiler.antt =====
-- apps/nawlang/compiler.c: the compiler of Lelya. The source text and the pointer p are the list of the
-- bytes from there on, and what stands past its end reads as 0.
pub mod Scan
pub mod Outcome
pub mod State
pub mod Native
pub mod Expression
pub mod Statement
mod Tests
pub mod Lengths
pub mod Extends
pub mod Terms
pub mod Targets
pub mod Compiled
pub mod Simple
pub mod Breaks
pub mod Blocks
pub mod Program
pub mod Machine
pub mod Stops
pub mod Tree
