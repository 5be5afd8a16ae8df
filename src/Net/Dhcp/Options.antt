-- ===== src/Net/Dhcp/Options.antt =====
-- net/dhcp.c: `dhcp_find_option` on a list of options.
use mathlib.Core.List.{append_assoc}
use naw_os.Base.{
  ℕ, zero, suc, ◌+◌, ◌≤◌, ◌≡◌, ◌≢◌, refl, Bool-cases, inl, inr, Option, none, some, List, [], ◌∷◌,
  ◌++◌, ltb, ◌==◌, if◌then◌else◌, length, length-append, length-drop, drop, ne→==, subst,
  drop-append_left, All, arith,
}
use naw_os.Net.Dhcp.{find_option, dhcp_find_option}

-- An option: its code and its bytes.
abbrev pub DhcpOption : Type 0
DhcpOption = ℕ × List ℕ

-- a code that is neither padding nor the end, and the length a byte
abbrev pub IsOption : DhcpOption → Type 0
IsOption o = (o.0 ≢ 0) × (o.0 ≢ 255)

-- the bytes of options
abbrev pub option_bytes : List DhcpOption → List ℕ
option_bytes [] = []
option_bytes ((code, body) ∷ options) = code ∷ length body ∷ (body ++ option_bytes options)

-- the first option of a code, and what stands from its bytes on, before the bytes `tail`
abbrev pub first_option : List DhcpOption → List ℕ → ℕ → Option (List ℕ × ℕ)
first_option [] tail code = none
first_option ((c, body) ∷ options) tail code =
    if c == code
    then some (body ++ (option_bytes options ++ tail), length body)
    else first_option options tail code

find_option_end :
    (rounds : ℕ) (tail : List ℕ) (code : ℕ) → find_option rounds (255 ∷ tail) code ≡ none
unfolding find_option
find_option_end zero tail code = refl
find_option_end (suc rounds) [] code = refl
find_option_end (suc rounds) (x ∷ tail) code = refl

find_option-option_bytes :
    (rounds : ℕ) (options : List DhcpOption) (tail : List ℕ) (code : ℕ)
    → All IsOption options
    → length (option_bytes options) ≤ rounds
    → find_option rounds (option_bytes options ++ (255 ∷ tail)) code
      ≡ first_option options (255 ∷ tail) code
unfolding find_option
find_option-option_bytes rounds [] tail code h le = find_option_end rounds tail code
find_option-option_bytes zero ((c, body) ∷ options) tail code h le = absurd (omega arith)
find_option-option_bytes (suc rounds) ((c, body) ∷ options) tail code h le =
    let after = option_bytes options ++ (255 ∷ tail) in
    let same : (body ++ option_bytes options) ++ (255 ∷ tail) ≡ body ++ after =
      append_assoc body (option_bytes options) (255 ∷ tail) in
    let later =
      find_option-option_bytes rounds options tail code h.1
        (omega (arith, le, length-append body (option_bytes options))) in
    rw (ne→== c 0 h.0.0, ne→== c 255 h.0.1, same) (rw (drop-append_left body after) (enough later))
  where
    enough :
        find_option rounds (option_bytes options ++ (255 ∷ tail)) code
          ≡ first_option options (255 ∷ tail) code
        → (if ltb (length (body ++ (option_bytes options ++ (255 ∷ tail)))) (length body)
            then none
            else (if c == code
                then some (body ++ (option_bytes options ++ (255 ∷ tail)), length body)
                else find_option rounds (option_bytes options ++ (255 ∷ tail)) code))
          ≡ (if c == code
              then some (body ++ (option_bytes options ++ (255 ∷ tail)), length body)
              else first_option options (255 ∷ tail) code)
    enough e = rw e (ground (arith, length-append body (option_bytes options ++ (255 ∷ tail))))

-- The rounds that `dhcp_find_option` gives are enough: more change nothing.
pub find_option-rounds :
    (more rounds : ℕ) (options : List ℕ) (code : ℕ)
    → length options ≤ more
    → length options ≤ rounds
    → find_option more options code ≡ find_option rounds options code
unfolding find_option
find_option-rounds zero zero options code h k = refl
find_option-rounds zero (suc rounds) [] code h k = refl
find_option-rounds zero (suc rounds) (x ∷ options) code h k = absurd (omega arith)
find_option-rounds (suc more) zero [] code h k = refl
find_option-rounds (suc more) zero (x ∷ options) code h k = absurd (omega arith)
find_option-rounds (suc more) (suc rounds) [] code h k = refl
find_option-rounds (suc more) (suc rounds) (x ∷ []) code h k = refl
find_option-rounds (suc more) (suc rounds) (x ∷ n ∷ rest) code h k = ground (
  arith,
  find_option-rounds more rounds (n ∷ rest) code,
  find_option-rounds more rounds (drop n rest) code,
  length-drop {0} n rest,
)

find_option-inside :
    (rounds : ℕ) (options : List ℕ) (code : ℕ) (body : List ℕ) (len : ℕ)
    → find_option rounds options code ≡ some (body, len)
    → (len ≤ length body) × (length body + 2 ≤ length options)
unfolding find_option
find_option-inside zero options code body len e = absurd (cc e)
find_option-inside (suc rounds) [] code body len e = absurd (cc e)
find_option-inside (suc rounds) (x ∷ []) code body len e = absurd (cc e)
find_option-inside (suc rounds) (x ∷ n ∷ rest) code body len e = elim (Bool-cases (x == 0)) [
  | inl pad ↦
      let (a, b) = find_option-inside rounds (n ∷ rest) code body len (rw pad at e) in
      (a, omega (arith, b))
  | inr p ↦ elim (Bool-cases (x == 255)) [
    | inl end ↦ absurd (cc (rw (p, end) at e))
    | inr q ↦ elim (Bool-cases (ltb (length rest) n)) [
      | inl cut ↦ absurd (cc (rw (p, q, cut) at e))
      | inr fits ↦ elim (Bool-cases (x == code)) [
        | inl found ↦
            let same = rw (p, q, fits, found) at e in
            subst {A = List ℕ × ℕ}
              (λ r. (r.1 ≤ length r.0) × (length r.0 + 2 ≤ length (x ∷ n ∷ rest))) {x = (rest, n)}
              {y = (body, len)} (cc same) (ground (arith, fits), omega arith)
        | inr other ↦
            let (a, b) =
              find_option-inside rounds (drop n rest) code body len (rw (p, q, fits, other) at e) in
            (a, omega (arith, b, length-drop {0} n rest))
      ]
    ]
  ]
]

-- For a list of options whose codes are neither 0 nor 255, the search in their bytes, which end with
-- 255, finds the first option of the code, its bytes and its length, or nothing if there is none.
pub dhcp_find_option-option_bytes :
    (options : List DhcpOption) (tail : List ℕ) (code : ℕ)
    → All IsOption options
    → dhcp_find_option (option_bytes options ++ (255 ∷ tail)) code
      ≡ first_option options (255 ∷ tail) code
unfolding dhcp_find_option
dhcp_find_option-option_bytes options tail code h =
    find_option-option_bytes (length (option_bytes options ++ (255 ∷ tail))) options tail code h
      (omega (arith, length-append (option_bytes options) (255 ∷ tail)))

-- What is found lies inside the options: its bytes are the end of them, and its length fits.
pub dhcp_find_option-inside :
    (options : List ℕ) (code : ℕ) (body : List ℕ) (len : ℕ)
    → dhcp_find_option options code ≡ some (body, len)
    → (len ≤ length body) × (length body + 2 ≤ length options)
unfolding dhcp_find_option
dhcp_find_option-inside options code body len e =
    find_option-inside (length options) options code body len e
