-- ===== src/NawLang/Tests.antt =====
-- Runs of the machine.
use naw_os.Base.{ℕ, suc, List, [], ◌∷◌, arith}
use naw_os.NawLang.Bytecode.{
  Instruction, op_jmp_if_false, op_print_int, op_halt, op_read_int, op_load_var,
}
use naw_os.NawLang.Vm.{Host, vm_run}
use naw_os.NawLang.Vm.Keep.{IsValidOutcome}
use naw_os.NawLang.Vm.Run.{vm_run-IsValid}

-- A keyboard that always gives 7, and strings that are all empty.
abbrev host : Host
host = record {
  World = ℕ;
  string_at = λ w p. [];
  empty_string = 1;
  naw_math_native_call = λ id args w. (1, w);
  keyboard_read_int = λ w. (7, suc w);
}

-- reads a number and prints it unless it is 0
abbrev code : List Instruction
code =
    record { op = op_read_int; arg = 0 }
    ∷ record { op = op_load_var; arg = 0 }
    ∷ record { op = op_jmp_if_false; arg = 5 }
    ∷ record { op = op_load_var; arg = 0 }
    ∷ record { op = op_print_int; arg = 0 }
    ∷ record { op = op_halt; arg = 0 }
    ∷ []

vm_run-IsValid_example : IsValidOutcome 0 (vm_run host 3 code 0)
vm_run-IsValid_example =
    vm_run-IsValid host 3 code 0 (λ w. omega arith)
      (omega arith, (omega arith, (omega arith, (omega arith, (omega arith, (omega arith, tt))))))
