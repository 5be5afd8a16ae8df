-- ===== src/NawLang/Compiler/Outcome.antt =====
-- The results of the functions of apps/nawlang/compiler.c.
use naw_os.Base.{◌≡◌, ◌≢◌, ◌⊎◌, inl, inr, Bool, true, false, if◌then◌else◌, refl}

-- `undefined` is a write past the end of an array of jumps; `out_of_fuel` has no counterpart in the program.
pub data Result (A : Type 0) : Type 0 where
  ok : A → Result A
  undefined out_of_fuel : Result A

infixl 5 ◌>>=◌
abbrev pub ◌>>=◌ : {A B : Type 0} → Result A → (A → Result B) → Result B
ok a >>= f = f a
undefined >>= f = undefined
out_of_fuel >>= f = out_of_fuel

-- The run kept within its fuel and `P` holds of its value; or `U` holds and it wrote out of bounds.
pub data Ensures (U : Type 0) {A : Type 0} (P : A → Type 0) : Result A → Type 0 where
  holds : {a : A} → P a → Ensures U P (ok a)
  overran : U → Ensures U P undefined

module _ {U : Type 0} where
  pub Ensures-bind :
      {A B : Type 0} {P : A → Type 0} {Q : B → Type 0} {r : Result A} {f : A → Result B}
      → Ensures U P r
      → ((a : A) → P a → Ensures U Q (f a))
      → Ensures U Q (r >>= f)
  Ensures-bind (holds {a} h) k = k a h
  Ensures-bind (overran u) k = overran u

  pub Ensures-if :
      {A : Type 0} {P : A → Type 0} (b : Bool) {x y : Result A}
      → (b ≡ true → Ensures U P x)
      → (b ≡ false → Ensures U P y)
      → Ensures U P (if b then x else y)
  Ensures-if true hx hy = hx refl
  Ensures-if false hx hy = hy refl

  pub Ensures-map :
      {A : Type 0} {P Q : A → Type 0} {r : Result A}
      → Ensures U P r
      → ((a : A) → P a → Q a)
      → Ensures U Q r
  Ensures-map (holds {a} h) k = holds (k a h)
  Ensures-map (overran u) k = overran u

  pub Ensures-out_of_fuel :
      {A : Type 0} {P : A → Type 0} {r : Result A} → Ensures U P r → r ≢ out_of_fuel
  Ensures-out_of_fuel (holds h) = cc
  Ensures-out_of_fuel (overran u) = cc

  pub Ensures-cases :
      {A : Type 0} {P : A → Type 0} {r : Result A}
      → Ensures U P r
      → ((a : A) × (r ≡ ok a) × P a) ⊎ ((r ≡ undefined) × U)
  Ensures-cases (holds {a} h) = inl (a, refl, h)
  Ensures-cases (overran u) = inr (refl, u)
