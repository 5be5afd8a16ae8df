-- ===== src/NawLang/Compiler/Scan.antt =====
-- apps/nawlang/compiler.c: the functions that read characters, keywords and identifiers.
use Prim.Native.Char.{code}
use Prim.Native.String.{String}
use naw_os.Base.{
  ℕ, ◌-◌, Bool, false, ◌&&◌, ◌||◌, not, Option, none, some, List, [], ◌∷◌, leb, ◌==◌, if◌then◌else◌,
}
use naw_os.CString.{peek, rest}

-- the bytes of a literal
abbrev pub codes : String → List ℕ
codes String.[] = []
codes (String.◌∷◌ c s) = code c ∷ codes s

abbrev pub is_ident_start : ℕ → Bool
is_ident_start c = (leb b'a' c && leb c b'z') || (leb b'A' c && leb c b'Z') || c == b'_'

abbrev pub is_ident_char : ℕ → Bool
is_ident_char c = is_ident_start c || (leb b'0' c && leb c b'9')

abbrev pub is_inline_space : ℕ → Bool
is_inline_space c = c == b' ' || c == b'\t' || c == b'\r'

unfoldable pub match_keyword : List ℕ → List ℕ → Bool
match_keyword src [] = not (is_ident_char (peek src))
match_keyword src (k ∷ keyword) =
    let more = match_keyword (rest src) keyword in if peek src == k then more else false

unfoldable pub skip_inline_space : List ℕ → List ℕ
skip_inline_space [] = []
skip_inline_space (c ∷ s) = if is_inline_space c then skip_inline_space s else c ∷ s

unfoldable pub skip_whitespace : List ℕ → List ℕ
skip_whitespace [] = []
skip_whitespace (c ∷ s) = if c == b'\n' || is_inline_space c then skip_whitespace s else c ∷ s

unfoldable pub skip_to_line_end : List ℕ → List ℕ
skip_to_line_end [] = []
skip_to_line_end (c ∷ s) = if c == 0 || c == b'\n' then c ∷ s else skip_to_line_end s

-- the loop of `compile_if` and `compile_while` that looks for the end of the condition
unfoldable pub skip_to_paren : List ℕ → List ℕ
skip_to_paren [] = []
skip_to_paren (c ∷ s) = if c == 0 || c == b')' then c ∷ s else skip_to_paren s

-- `if (*src == c) src++;`
unfoldable pub skip_char : ℕ → List ℕ → List ℕ
skip_char c src = if peek src == c then rest src else src

abbrev pub max_var_name_len : ℕ
max_var_name_len = 16

-- the loop of `read_identifier`: the letters kept, with the room left for them, and the end
unfoldable pub identifier_loop : ℕ → List ℕ → List ℕ × List ℕ
identifier_loop room [] = ([], [])
identifier_loop room (c ∷ s) =
    let (name, cur) = identifier_loop (room - 1) s in
    if is_ident_char c then (if room == 0 then name else c ∷ name, cur) else ([], c ∷ s)

-- `none` leaves the pointer where it was and the name empty
unfoldable pub read_identifier : List ℕ → Option (List ℕ × List ℕ)
unfolding identifier_loop
read_identifier src =
    if is_ident_start (peek src) then some (identifier_loop (max_var_name_len - 1) src) else none
