-- ===== src/NawLang/Compiler/Program.antt =====
-- apps/nawlang/compiler.c: whole programs.
use naw_os.Base.{
  ℕ, zero, suc, ◌+◌, ◌*◌, ◌≤◌, ◌<◌, ◌≡◌, ◌≢◌, ◌∙◌, ◌⊎◌, ◌↔◌, inl, inr, refl, ap, subst, ==_iff,
  Bool-cases, List, [], ◌∷◌, ◌++◌, ◌==◌, length, All, arith,
}
use naw_os.CString.{peek}
use naw_os.NawLang.Bytecode.{Instruction, op_halt}
use naw_os.NawLang.Compiler.Scan.{skip_whitespace}
use naw_os.NawLang.Compiler.Outcome.{Result, ok, undefined, out_of_fuel, Ensures-cases}
use naw_os.NawLang.Compiler.State.{Compiler, emit}
use naw_os.NawLang.Compiler.Lengths.{length-skip_whitespace}
use naw_os.NawLang.Compiler.Extends.{IsTables}
use naw_os.NawLang.Compiler.Targets.{IsSafe, IsTables-code}
use naw_os.NawLang.Compiler.Compiled.{IsCompiled, IsCompiled-le}
use naw_os.NawLang.Compiler.Blocks.{compile_statement-Ensures}
use naw_os.NawLang.Compiler.Expression.{Parsed}
use naw_os.NawLang.Compiler.Statement.{compile_statement, compile_lines, new_compiler, naw_compile}

-- The code ends with OP_HALT; before it every jump leads to an instruction of the program, every variable
-- is one of the 64, every native function one of the 15, and the tables are in their bounds.
pub record IsProgram (s : Compiler) : Type 0 where
  pub tables : IsTables s
  pub body : List Instruction
  pub code : s.code ≡ body ++ (record { op = op_halt; arg = 0 } ∷ [])
  pub safe : All (IsSafe (length body)) body

abbrev statement : Compiler → List ℕ → Result Parsed
statement s line = compile_statement (2 * length line + 1) s line

-- The rounds of the loop of `naw_compile`, each with a statement.
pub data Runs : Compiler → List ℕ → Compiler → List ℕ → Type 0 where
  here : (s : Compiler) (line : List ℕ) → Runs s line s line
  next :
      (s : Compiler) (line : List ℕ) (r : Parsed) (t : Compiler) (end : List ℕ)
      → peek line ≢ 0
      → statement s line ≡ ok r
      → Runs r.0 (skip_whitespace r.1) t end
      → Runs s line t end

-- The loop stands at a `}` outside every block.
pub record Hangs (s : Compiler) (line : List ℕ) : Type 0 where
  pub state : Compiler
  pub rest_of_text : List ℕ
  pub runs : Runs s line state rest_of_text
  pub brace : peek rest_of_text ≡ b'}'

new_compiler-IsCompiled :
    (pool : ℕ) (src : List ℕ) → IsCompiled (length src) (length src) (new_compiler pool)
new_compiler-IsCompiled pool src = record {
  tables = record {
    strings_room = omega arith;
    strings_short = tt;
    names_room = omega arith;
    names_short = tt;
  };
  safe = tt;
  depth = omega arith;
  each = tt;
  within = omega arith;
}

skip_whitespace-brace : (line : List ℕ) → peek line ≡ b'}' → skip_whitespace line ≡ line
unfolding skip_whitespace
skip_whitespace-brace [] e = refl
skip_whitespace-brace (c ∷ line) e = ground (arith, e)

compile_statement-brace :
    (f : ℕ) (s : Compiler) (line : List ℕ)
    → peek line ≡ b'}'
    → compile_statement (suc f) s line ≡ ok (s, line)
unfolding compile_statement
compile_statement-brace f s line e = rw (skip_whitespace-brace line e) (ground (arith, e))

statement-brace :
    (s : Compiler) (line : List ℕ) → peek line ≡ b'}' → statement s line ≡ ok (s, line)
statement-brace s line e =
    ap (λ f. compile_statement f s line) {x = 2 * length line + 1} {y = suc (2 * length line)}
      (omega arith)
    ∙ compile_statement-brace (2 * length line) s line e

lines-brace :
    (f : ℕ) (s : Compiler) (line : List ℕ) → peek line ≡ b'}' → compile_lines f s line ≡ out_of_fuel
unfolding compile_lines
lines-brace zero s line e = refl
lines-brace (suc f) s line e = elim (Bool-cases (peek line == 0)) [
  | inl z ↦ absurd (ground (arith, e, z))
  | inr z ↦
      rw (z, statement-brace s line e) (rw (skip_whitespace-brace line e) (lines-brace f s line e))
]

lines-Runs :
    {s t : Compiler} {line end : List ℕ}
    → Runs s line t end
    → peek end ≡ b'}'
    → (f : ℕ) → compile_lines f s line ≡ out_of_fuel
unfolding compile_lines
lines-Runs (here s line) e f = lines-brace f s line e
lines-Runs (next s line r t end nz step more) e zero = refl
lines-Runs (next s line r t end nz step more) e (suc f) = elim (Bool-cases (peek line == 0)) [
  | inl z ↦ absurd (ground (arith, nz, z))
  | inr z ↦ rw (z, step) (lines-Runs more e f)
]

module _ (whole : ℕ) where
  -- A round of the loop that is not the last one.
  round-cases :
      (s : Compiler) (line : List ℕ)
      → IsCompiled whole (length line) s
      → ((r : Parsed) × (statement s line ≡ ok r)
          × IsCompiled whole (length (skip_whitespace r.1)) r.0
          × (peek line ≢ 0 → peek line ≢ b'}' → length (skip_whitespace r.1) < length line))
        ⊎ ((statement s line ≡ undefined) × (165 ≤ whole))
  round-cases s line h = elim (Ensures-cases (compile_statement-Ensures whole s line h)) [
    | inl (r, e, c) ↦
        let le = length-skip_whitespace r.1 in
        inl (
          r,
          e,
          IsCompiled-le whole (length r.1) le c.0.compiled,
          λ nz nb. omega (arith, le, c.1 nz nb),
        )
    | inr u ↦ inr u
  ]

  lines-IsProgram :
      (f : ℕ) (s t : Compiler) (line : List ℕ)
      → IsCompiled whole (length line) s
      → compile_lines f s line ≡ ok t
      → IsProgram t
  unfolding compile_lines emit
  lines-IsProgram zero s t line h e = absurd (cc e)
  lines-IsProgram (suc f) s t line h e = elim (Bool-cases (peek line == 0)) [
    | inl z ↦ subst IsProgram {x = emit op_halt 0 s} {y = t} (ground (arith, e, z)) (record {
      tables = IsTables-code (emit op_halt 0 s).code s.loops h.tables;
      body = s.code;
      code = refl;
      safe = h.safe;
    })
    | inr z ↦ elim (round-cases s line h) [
      | inl (r, step, c, moves) ↦
          lines-IsProgram f r.0 t (skip_whitespace r.1) c (rw (z, step) at e)
      | inr (step, u) ↦ absurd (cc (rw (z, step) at e))
    ]
  ]

  lines-overran :
      (f : ℕ) (s : Compiler) (line : List ℕ)
      → IsCompiled whole (length line) s
      → compile_lines f s line ≡ undefined
      → 165 ≤ whole
  unfolding compile_lines
  lines-overran zero s line h e = absurd (cc e)
  lines-overran (suc f) s line h e = elim (Bool-cases (peek line == 0)) [
    | inl z ↦ absurd (cc (rw z at e))
    | inr z ↦ elim (round-cases s line h) [
      | inl (r, step, c, moves) ↦ lines-overran f r.0 (skip_whitespace r.1) c (rw (z, step) at e)
      | inr (step, u) ↦ u
    ]
  ]

  lines-Hangs :
      (f : ℕ) (s : Compiler) (line : List ℕ)
      → length line < f
      → IsCompiled whole (length line) s
      → compile_lines f s line ≡ out_of_fuel
      → Hangs s line
  unfolding compile_lines
  lines-Hangs zero s line lt h e = absurd (omega arith)
  lines-Hangs (suc f) s line lt h e = elim (Bool-cases (peek line == b'}')) [
    | inl brace ↦ record {
      state = s;
      rest_of_text = line;
      runs = here s line;
      brace = (==_iff (peek line) b'}').0 brace;
    }
    | inr b ↦ elim (Bool-cases (peek line == 0)) [
      | inl z ↦ absurd (cc (rw z at e))
      | inr z ↦
          let nz : peek line ≢ 0 = λ k. ground (arith, k, z) in
          elim (round-cases s line h) [
            | inl (r, step, c, moves) ↦
                let later =
                  lines-Hangs f r.0 (skip_whitespace r.1)
                    (omega (arith, lt, moves nz (λ k. ground (arith, k, b)))) c
                    (rw (z, step) at e) in
                record {
                  state = later.state;
                  rest_of_text = later.rest_of_text;
                  runs = next s line r later.state later.rest_of_text nz step later.runs;
                  brace = later.brace;
                }
            | inr (step, u) ↦ absurd (cc (rw (z, step) at e))
          ]
    ]
  ]

pub naw_compile-IsProgram :
    (fuel pool : ℕ) (src : List ℕ) (s : Compiler) → naw_compile fuel pool src ≡ ok s → IsProgram s
unfolding naw_compile
naw_compile-IsProgram fuel pool src s e =
    lines-IsProgram (length src) fuel (new_compiler pool) s src (new_compiler-IsCompiled pool src) e

naw_compile-overran :
    (fuel pool : ℕ) (src : List ℕ) → naw_compile fuel pool src ≡ undefined → 165 ≤ length src
unfolding naw_compile
naw_compile-overran fuel pool src e =
    lines-overran (length src) fuel (new_compiler pool) src (new_compiler-IsCompiled pool src) e

Result-cases :
    (r : Result Compiler) → ((s : Compiler) × (r ≡ ok s)) ⊎ ((r ≡ undefined) ⊎ (r ≡ out_of_fuel))
Result-cases (ok s) = inl (s, refl)
Result-cases undefined = inr (inl refl)
Result-cases out_of_fuel = inr (inr refl)

-- With more rounds than the text has characters, naw_compile does not end exactly when its loop comes
-- to a closing brace outside every block; and when it does, no number of rounds is enough.
pub naw_compile-Hangs_iff :
    (fuel pool : ℕ) (src : List ℕ)
    → length src < fuel
    → ((naw_compile fuel pool src ≡ out_of_fuel) ↔ Hangs (new_compiler pool) src)
      × (Hangs (new_compiler pool) src → (f : ℕ) → naw_compile f pool src ≡ out_of_fuel)
unfolding naw_compile
naw_compile-Hangs_iff fuel pool src lt = (
  (
    lines-Hangs (length src) fuel (new_compiler pool) src lt (new_compiler-IsCompiled pool src),
    λ h. lines-Runs h.runs h.brace fuel,
  ),
  λ h f. lines-Runs h.runs h.brace f,
)

-- With more rounds of its loop than the text has characters, naw_compile returns a state whose code
-- ends with OP_HALT, jumps only to instructions of the program, names only the 64 variables and the 15
-- native functions, and whose tables are in their bounds; or it has written past an array of jumps, and
-- the text has at least 165 characters; or the loop has come to a closing brace outside every block.
pub naw_compile-cases :
    (fuel pool : ℕ) (src : List ℕ)
    → length src < fuel
    → ((s : Compiler) × (naw_compile fuel pool src ≡ ok s) × IsProgram s)
      ⊎ (((naw_compile fuel pool src ≡ undefined) × (165 ≤ length src))
          ⊎ ((naw_compile fuel pool src ≡ out_of_fuel) × Hangs (new_compiler pool) src))
naw_compile-cases fuel pool src lt = elim (Result-cases (naw_compile fuel pool src)) [
  | inl (s, e) ↦ inl (s, e, naw_compile-IsProgram fuel pool src s e)
  | inr (inl e) ↦ inr (inl (e, naw_compile-overran fuel pool src e))
  | inr (inr e) ↦ inr (inr (e, (naw_compile-Hangs_iff fuel pool src lt).0.0 e))
]
