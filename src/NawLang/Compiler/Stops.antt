-- ===== src/NawLang/Compiler/Stops.antt =====
-- apps/nawlang/vm.c: the end of a program whose jumps lead forward.
use naw_os.NawLang.Vm.{Outcome, running, halted, failed, undefined}

-- OP_HALT or an error that the machine reports.
abbrev pub IsStopped : {W : Type 0} → Outcome W → Type 0
IsStopped (running m) = ⊥
IsStopped (halted m) = Unit
IsStopped (failed e m) = Unit
IsStopped undefined = ⊥
