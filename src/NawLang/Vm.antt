-- ===== src/NawLang/Vm.antt =====
-- apps/nawlang/vm.c: the stack machine. Strings are the machine's pointers; the host is what the
-- machine calls: the text at a pointer, the native functions of lib/math.c and the keyboard.
-- An access out of bounds and INT_MIN / -1 are the outcome `undefined`. An opcode that the enumeration
-- does not name is not modelled.
pub mod Keep
pub mod Run
pub mod Inside
use naw_os.Base.{
  ℕ, zero, suc, ◌+◌, Bool, true, false, ◌&&◌, not, Option, none, some, List, [], ◌∷◌, ◌++◌, leb,
  ltb, ◌==◌, if◌then◌else◌, length, get_elem?, set, replicate,
}
use naw_os.NawLang.Word.{int_add, int_sub, int_mul, int_div, int_lt}
use naw_os.NawLang.Bytecode.{
  OpCode, Instruction, max_vars, op_push_int, op_push_str, op_print_int, op_print_str, op_read_int,
  op_load_var, op_store_var, op_add, op_sub, op_mul, op_div, op_eq, op_ne, op_lt, op_gt, op_le,
  op_ge, op_jmp, op_jmp_if_false, op_native_call, op_print, op_halt,
}

pub record Host : Type 1 where
  pub World : Type 0
  pub string_at : World → ℕ → List ℕ
  -- the pointer to ""
  pub empty_string : ℕ
  pub naw_math_native_call : ℕ → List ℕ → World → ℕ × World
  pub keyboard_read_int : World → ℕ × World

pub data Value : Type 0 where
  value_int : ℕ → Value
  value_str : ℕ → Value

pub data VmError : Type 0 where
  type_mismatch bad_native_call native_expects_strings stack_underflow : VmError

pub data Output : Type 0 where
  output_str : List ℕ → Output
  output_dec : ℕ → Output
  output_overflow : Output

-- The stack's top stands first: it is `stack[sp - 1]`, and `sp` is the length.
pub record Vm (W : Type 0) : Type 0 where
  pub stack : List Value
  pub vars : List ℕ
  pub ip : ℕ
  pub printed : List Output
  pub world : W

-- After `failed`, the state is the one before the instruction: nothing reads the stack any more.
pub data Outcome (W : Type 0) : Type 0 where
  running : Vm W → Outcome W
  halted : Vm W → Outcome W
  failed : VmError → Vm W → Outcome W
  undefined : Outcome W

abbrev pub stack_size : ℕ
stack_size = 256

unfoldable pub vm_push : {W : Type 0} → Value → Vm W → Vm W
vm_push v m =
    if leb stack_size (length m.stack)
    then record m { printed = m.printed ++ (output_overflow ∷ []) }
    else record m { stack = v ∷ m.stack }

unfoldable pub vm_pop : {W : Type 0} → Vm W → Option (Value × Vm W)
vm_pop m = elim m.stack [ [] ↦ none | (v ∷ vs) ↦ some (v, record m { stack = vs }) ]

unfoldable pub vm_pop_int : {W : Type 0} → Vm W → Option (ℕ × Vm W)
unfolding vm_pop
vm_pop_int m = elim (vm_pop m) [
  | none ↦ none
  | some (value_int n, m') ↦ some (n, m')
  | some (value_str p, m') ↦ none
]

unfoldable pub vm_native_arg_count : ℕ → Option ℕ
vm_native_arg_count native_id =
    if native_id == 0
    then some 1
    else (if leb native_id 5
        then some 2
        else (if leb native_id 13 then some 1 else (if native_id == 14 then some 3 else none)))

-- the two operands: the left one below the right one
unfoldable pub vm_pop_operands : {W : Type 0} → Vm W → Option (ℕ × ℕ × Vm W)
unfolding vm_pop_int
vm_pop_operands m = elim (vm_pop_int m) [
  | none ↦ none
  | some (b, m1) ↦ elim (vm_pop_int m1) [ none ↦ none | some (a, m2) ↦ some (a, b, m2) ]
]

unfoldable pub binary : {W : Type 0} → (ℕ → ℕ → ℕ) → Vm W → Outcome W
unfolding vm_pop_operands vm_push
binary f m = elim (vm_pop_operands m) [
  | none ↦ failed type_mismatch m
  | some (a, b, m') ↦ running (vm_push (value_int (f a b)) m')
]

unfoldable pub divide : {W : Type 0} → Vm W → Outcome W
unfolding vm_pop_operands vm_push int_div
divide m = elim (vm_pop_operands m) [
  | none ↦ failed type_mismatch m
  | some (a, b, m') ↦
      if b == 0
      then failed type_mismatch m
      else (if (a == 2147483648) && (b == 4294967295)
          then undefined
          else running (vm_push (value_int (int_div a b)) m'))
]

abbrev pub to_int : Bool → ℕ
to_int b = if b then 1 else 0

-- the loop of OP_NATIVE_CALL from the last argument to the first, with the rounds left
unfoldable pub pop_args : {W : Type 0} → ℕ → Vm W → List ℕ → Option (List ℕ × Vm W)
unfolding vm_pop
pop_args zero m args = some (args, m)
pop_args (suc n) m args = elim (vm_pop m) [
  | none ↦ none
  | some (value_int i, m') ↦ none
  | some (value_str p, m') ↦ pop_args n m' (p ∷ args)
]

unfoldable pub load_var : {W : Type 0} → ℕ → Vm W → Outcome W
unfolding vm_push
load_var i m = elim (get_elem? m.vars i) [
  | none ↦ undefined
  | some v ↦ running (vm_push (value_int v) m)
]

-- a write to `vars[i]`
unfoldable pub set_var : {W : Type 0} → ℕ → ℕ → Vm W → Outcome W
set_var i v m = if ltb i max_vars then running (record m { vars = set m.vars i v }) else undefined

unfoldable pub store_var : {W : Type 0} → ℕ → Vm W → Outcome W
unfolding vm_pop_int set_var
store_var i m = elim (vm_pop_int m) [
  | none ↦ failed type_mismatch m
  | some (v, m') ↦ set_var i v m'
]

unfoldable pub jump_if_false : {W : Type 0} → ℕ → Vm W → Outcome W
unfolding vm_pop_int
jump_if_false target m = elim (vm_pop_int m) [
  | none ↦ failed type_mismatch m
  | some (condition, m') ↦ running (if condition == 0 then record m' { ip = target } else m')
]

-- goes on if the machine is still running
unfoldable pub and_then : {W : Type 0} → Outcome W → (Vm W → Outcome W) → Outcome W
and_then (running m) next = next m
and_then (halted m) next = halted m
and_then (failed e m) next = failed e m
and_then undefined next = undefined

module _ (host : Host) where
  open host use {World, string_at, empty_string, naw_math_native_call, keyboard_read_int}

  abbrev pub or_empty : ℕ → ℕ
  or_empty p = if p == 0 then empty_string else p

  unfoldable pub output_of : Value → World → Output
  output_of (value_int n) w = output_dec n
  output_of (value_str p) w = output_str (string_at w p)

  unfoldable pub vm_print : Vm World → Outcome World
  unfolding vm_pop output_of
  vm_print m = elim (vm_pop m) [
    | none ↦ failed stack_underflow m
    | some (v, m') ↦ running (record m' { printed = m'.printed ++ (output_of v m'.world ∷ []) })
  ]

  -- OP_NATIVE_CALL, when the stack has `argc` values
  unfoldable pub call_with : ℕ → ℕ → Vm World → Outcome World
  unfolding pop_args vm_push
  call_with id argc m = elim (pop_args argc m []) [
    | none ↦ failed native_expects_strings m
    | some (args, m') ↦
        let (p, w) = naw_math_native_call id args m'.world in
        running (vm_push (value_str (or_empty p)) (record m' { world = w }))
  ]

  unfoldable pub native_call : ℕ → Vm World → Outcome World
  unfolding vm_native_arg_count call_with
  native_call id m = elim (vm_native_arg_count id) [
    | none ↦ failed bad_native_call m
    | some argc ↦
        if ltb (length m.stack) argc then failed bad_native_call m else call_with id argc m
  ]

  -- The instruction at `ip - 1`.
  unfoldable pub execute : OpCode → ℕ → Vm World → Outcome World
  unfolding binary divide load_var set_var store_var jump_if_false vm_print native_call vm_push
  execute op_halt arg m = halted m
  execute op_push_int arg m = running (vm_push (value_int arg) m)
  execute op_push_str arg m = running (vm_push (value_str (or_empty arg)) m)
  execute op_load_var arg m = load_var arg m
  execute op_store_var arg m = store_var arg m
  execute op_add arg m = binary int_add m
  execute op_sub arg m = binary int_sub m
  execute op_mul arg m = binary int_mul m
  execute op_div arg m = divide m
  execute op_eq arg m = binary (λ a b. to_int (a == b)) m
  execute op_ne arg m = binary (λ a b. to_int (not (a == b))) m
  execute op_lt arg m = binary (λ a b. to_int (int_lt a b)) m
  execute op_gt arg m = binary (λ a b. to_int (int_lt b a)) m
  execute op_le arg m = binary (λ a b. to_int (not (int_lt b a))) m
  execute op_ge arg m = binary (λ a b. to_int (not (int_lt a b))) m
  execute op_jmp arg m = running (record m { ip = arg })
  execute op_jmp_if_false arg m = jump_if_false arg m
  execute op_native_call arg m = native_call arg m
  execute op_print arg m = vm_print m
  execute op_print_int arg m = vm_print m
  execute op_print_str arg m = vm_print m
  execute op_read_int arg m =
      let (v, w) = keyboard_read_int m.world in set_var arg v (record m { world = w })

  -- one round of the loop
  unfoldable pub vm_step : List Instruction → Vm World → Outcome World
  unfolding execute
  vm_step code m = elim (get_elem? code m.ip) [
    | none ↦ undefined
    | some i ↦ execute i.op i.arg (record m { ip = m.ip + 1 })
  ]

  -- The loop, on fuel: it is still `running` when the fuel is used up.
  unfoldable pub vm_loop : ℕ → List Instruction → Vm World → Outcome World
  unfolding vm_step and_then
  vm_loop zero code m = running m
  vm_loop (suc fuel) code m = and_then (vm_step code m) (vm_loop fuel code)

  unfoldable pub vm_run : ℕ → List Instruction → World → Outcome World
  unfolding vm_loop
  vm_run fuel code w =
      vm_loop fuel code
        (record { stack = []; vars = replicate max_vars 0; ip = 0; printed = []; world = w })
