-- ===== src/NawLang/Compiler/Tree/Run.antt =====
-- apps/nawlang/compiler.c with apps/nawlang/vm.c: the machine on the code of a tree.
use mathlib.Core.List.{append_assoc}
use naw_os.Base.{
  ℕ, suc, ◌+◌, ◌≤◌, ◌<◌, ◌≡◌, ◌≢◌, ◌∙◌, inl, inr, refl, sym, ap, ◌&&◌, Bool-cases, Option, none,
  some, List, [], ◌∷◌, ◌++◌, ◌==◌, length, length-append, get_elem?, arith,
}
use naw_os.NawLang.Word.{int_add, int_sub, int_mul, int_div}
use naw_os.NawLang.Bytecode.{Instruction}
use naw_os.NawLang.Vm.{
  Host, Value, value_int, Vm, Outcome, running, vm_push, vm_pop_operands, vm_pop_int, vm_pop,
  binary, divide, load_var, execute, vm_step, vm_loop, and_then,
}
use naw_os.NawLang.Compiler.Outcome.{ok}
use naw_os.NawLang.Compiler.State.{Compiler, find_text}
use naw_os.NawLang.Compiler.Expression.{compile_expr}
use naw_os.NawLang.Compiler.Tree.Parse.{Ends, compile_expr-expr_text}
use naw_os.NawLang.Compiler.Tree.{
  IsSource, expr_text, Op, plus, minus, times, over, Expr, num, var, bin, op_code, digits_value,
  IsDeclared, expr_code, index_of, apply, apply_both, eval, depth,
}

get_elem?-middle :
    (pre : List Instruction) (i : Instruction) (post : List Instruction)
    → get_elem? (pre ++ (i ∷ post)) (length pre) ≡ some i
get_elem?-middle [] i post = refl
get_elem?-middle (x ∷ pre) i post = get_elem?-middle pre i post

depth_pos : (e : Expr) → 0 < depth e
depth_pos (num digits) = omega arith
depth_pos (var name) = omega arith
depth_pos (bin op l r) = omega (arith, depth_pos l)

apply_both-some :
    (op : Op) (l r : Option ℕ) (v : ℕ)
    → apply_both op l r ≡ some v
    → (a b : ℕ) × (l ≡ some a) × (r ≡ some b) × (apply op a b ≡ some v)
apply_both-some op (some a) (some b) v e = (a, b, refl, refl, e)
apply_both-some op (some a) none v e = absurd (cc e)
apply_both-some op none r v e = absurd (cc e)

module _ (host : Host) where
  open host use {World}

  abbrev pushed : ℕ → ℕ → Vm World → Vm World
  pushed v ip m = record m { stack = value_int v ∷ m.stack; ip = ip }

  step_at :
      (pre : List Instruction) (i : Instruction) (post : List Instruction) (m : Vm World)
      → m.ip ≡ length pre
      → vm_step host (pre ++ (i ∷ post)) m ≡ execute host i.op i.arg (record m { ip = m.ip + 1 })
  unfolding vm_step
  step_at pre i post m e =
      rw (ap (get_elem? (pre ++ (i ∷ post))) e ∙ get_elem?-middle pre i post, vm_step) refl

  push_room :
      (v : Value) (m : Vm World)
      → length m.stack < 256
      → vm_push v m ≡ record m { stack = v ∷ m.stack }
  unfolding vm_push
  push_room v m h = ground (arith, h)

  result :
      (x v : ℕ) (vs : List Value) (m : Vm World)
      → length vs < 256
      → x ≡ v
      → running (vm_push (value_int x) (record m { stack = vs }))
        ≡ running (record m { stack = value_int v ∷ vs })
  result x v vs m h e = ap running (
      push_room (value_int x) (record m { stack = vs }) h
      ∙ ap (λ y. record m { stack = value_int y ∷ vs }) e)

  both : (x v : ℕ) (m : Vm World) {i j : ℕ} → x ≡ v → i ≡ j → pushed x i m ≡ pushed v j m
  both x v m {i} {j} e f = ap (λ y. pushed y i m) e ∙ ap (λ n. pushed v n m) f

  -- an operation on the two values on top
  operate :
      (op : Op) (a b v : ℕ) (vs : List Value) (m : Vm World)
      → apply op a b ≡ some v
      → length vs < 256
      → execute host (op_code op) 0 (record m { stack = value_int b ∷ value_int a ∷ vs })
        ≡ running (record m { stack = value_int v ∷ vs })
  unfolding execute binary divide vm_pop_operands vm_pop_int vm_pop
  operate plus a b v vs m e h = result (int_add a b) v vs m h (cc e)
  operate minus a b v vs m e h = result (int_sub a b) v vs m h (cc e)
  operate times a b v vs m e h = result (int_mul a b) v vs m h (cc e)
  operate over a b v vs m e h = elim (Bool-cases (b == 0)) [
    | inl z ↦ absurd (cc (rw z at e))
    | inr nz ↦ elim (Bool-cases ((a == 2147483648) && (b == 4294967295))) [
      | inl o ↦ absurd (cc (rw (nz, o) at e))
      | inr fits ↦ rw (nz, fits) (result (int_div a b) v vs m h (cc (rw (nz, fits) at e)))
    ]
  ]

  -- one round, at an instruction that goes on
  one :
      (pre post code : List Instruction) (i : Instruction) (k : ℕ) (m m' : Vm World)
      → code ≡ pre ++ (i ∷ post)
      → m.ip ≡ length pre
      → execute host i.op i.arg (record m { ip = m.ip + 1 }) ≡ running m'
      → vm_loop host (suc k) code m ≡ vm_loop host k code m'
  unfolding vm_loop and_then
  one pre post code i k m m' c e x =
      ap (λ (o : Outcome World). and_then o (vm_loop host k code))
        (ap (λ t. vm_step host t m) c ∙ step_at pre i post m e ∙ x)

  module _ (names : List (List ℕ)) (look : List ℕ → ℕ) (code : List Instruction) where
    -- The machine's variables are the values of the names in the table.
    abbrev Holds : List ℕ → Type 0
    Holds vars =
        (name : List ℕ)
        → find_text 0 names name ≢ none
        → get_elem? vars (index_of names name) ≡ some (look name)

    run_expr :
        (e : Expr) (pre post : List Instruction) (m : Vm World) (v k : ℕ)
        → code ≡ pre ++ (expr_code names e ++ post)
        → m.ip ≡ length pre
        → IsDeclared names e
        → Holds m.vars
        → eval look e ≡ some v
        → length m.stack + depth e ≤ 256
        → vm_loop host (length (expr_code names e) + k) code m
          ≡ vm_loop host k code (pushed v (length pre + length (expr_code names e)) m)
    unfolding execute load_var
    run_expr (num digits) pre post m v k c at d b e h =
        ap (λ f. vm_loop host f code m) {y = suc k} (omega arith)
        ∙ one pre post code _ k m (pushed v (length pre + 1) m) c at (
            ap running (
              push_room (value_int (digits_value 0 digits)) (record m { ip = m.ip + 1 })
                (omega (arith, h))
              ∙ both (digits_value 0 digits) v m (cc e) (omega (arith, at))))
    run_expr (var name) pre post m v k c at d b e h =
        ap (λ f. vm_loop host f code m) {y = suc k} (omega arith)
        ∙ one pre post code _ k m (pushed v (length pre + 1) m) c at (
            rw (b name d, load_var)
              (ap running (
                push_room (value_int (look name)) (record m { ip = m.ip + 1 }) (omega (arith, h))
                ∙ both (look name) v m (cc e) (omega (arith, at)))))
    run_expr (bin op l r) pre post m v k c at d b e h =
        let (x, y, ex, ey, ev) = apply_both-some op (eval look l) (eval look r) v e in
        let cl = expr_code names l in
        let cr = expr_code names r in
        let i : Instruction = record { op = op_code op; arg = 0 } in
        let c1 : code ≡ pre ++ (cl ++ (cr ++ (i ∷ post))) =
          c
          ∙ ap (λ t. pre ++ t)
              (append_assoc cl (cr ++ (i ∷ [])) post
                ∙ ap (λ t. cl ++ t) (append_assoc cr (i ∷ []) post)) in
        let c2 = c1 ∙ sym (append_assoc pre cl (cr ++ (i ∷ post))) in
        let c3 = c2 ∙ sym (append_assoc (pre ++ cl) cr (i ∷ post)) in
        let m1 = pushed x (length pre + length cl) m in
        let m2 = pushed y (length (pre ++ cl) + length cr) m1 in
        let end = length (pre ++ cl) + length cr + 1 in
        let lengths = length-append cl (cr ++ (i ∷ [])) in
        let lengths' = length-append cr (i ∷ []) in
        let front = length-append pre cl in
        ap (λ f. vm_loop host f code m) {y = length cl + (length cr + suc k)}
          (omega (arith, lengths, lengths'))
        ∙ run_expr l pre (cr ++ (i ∷ post)) m x (length cr + suc k) c1 at d.0 b ex
            (omega (arith, h, depth_pos r))
        ∙ run_expr r (pre ++ cl) (i ∷ post) m1 y (suc k) c2 (omega (arith, front)) d.1 b ey
            (omega (arith, h, depth_pos l))
        ∙ one ((pre ++ cl) ++ cr) post code i k m2 (pushed v end m) c3
            (omega (arith, length-append (pre ++ cl) cr))
            (operate op x y v m.stack (record m2 { ip = end }) ev
              (omega (arith, h, depth_pos l, depth_pos r)))
        ∙ ap (λ n. vm_loop host k code (pushed v n m)) (omega (arith, front, lengths, lengths'))

-- Compiler and machine together on an expression. Hypotheses: the tree of the expression can be
-- written, with parentheses around each operation, its variables are in the table of names, and the
-- text goes on with its end, the end of the line or a closing parenthesis; the machine stands at the
-- end of the code so far, its variables have the given values, the tree has a value for them, with no
-- division by 0 and no INT_MIN / -1, and the stack has room. Then compile_expr reads exactly the text
-- of the tree and returns more code; with any code behind, the machine comes in a number of rounds to
-- the end of the new code, with the value of the tree on the stack and all else as it was.
pub vm_loop-compile_expr :
    (host : Host) (e : Expr) (s : Compiler) (tail : List ℕ) (m : Vm (Host.World host))
    (look : List ℕ → ℕ) (v : ℕ)
    → IsSource e
    → IsDeclared s.names e
    → Ends tail
    → m.ip ≡ length s.code
    → ((name : List ℕ)
        → find_text 0 s.names name ≢ none
        → get_elem? m.vars (index_of s.names name) ≡ some (look name))
    → eval look e ≡ some v
    → length m.stack + depth e ≤ 256
    → (s' : Compiler) × (rounds : ℕ) × (compile_expr s (expr_text e ++ tail) ≡ ok (s', tail))
      × ((post : List Instruction) (k : ℕ)
          → vm_loop host (rounds + k) (s'.code ++ post) m
            ≡ vm_loop host k
                (s'.code ++ post)
                (record m { stack = value_int v ∷ m.stack; ip = length s'.code }))
vm_loop-compile_expr host e s tail m look v h d end at holds_look value room = (
  record s { code = s.code ++ expr_code s.names e },
  length (expr_code s.names e),
  compile_expr-expr_text e s tail h d end,
  λ post k.
      run_expr host s.names look ((s.code ++ expr_code s.names e) ++ post) e s.code post m v k
        (append_assoc s.code (expr_code s.names e) post) at d holds_look value room
      ∙ ap
          (λ n.
            vm_loop host k ((s.code ++ expr_code s.names e) ++ post)
              (record m { stack = value_int v ∷ m.stack; ip = n }))
          (sym (length-append s.code (expr_code s.names e))),
)
