-- ===== src/Shell/Parser.antt =====
-- kernel/shell/shell_parser.c: the names of files and the requests that the shell's commands take.
pub mod Laws
use naw_os.Base.{
  ℕ, ◌+◌, ◌-◌, Bool, true, false, ◌&&◌, Option, none, some, List, [], ◌∷◌, leb, ltb, if◌then◌else◌,
  length, set, drop,
}
use naw_os.CString.{strlen, strncpy, strstr, naw_find_char, rest}
use naw_os.CString.Memory.{memset, memcpy}

-- " - "
abbrev pub separator : List ℕ
separator = b' ' ∷ b'-' ∷ b' ' ∷ []

-- The result, and what stands in `name` and `ext` afterwards.
unfoldable pub parse_at_dot : List ℕ → List ℕ → List ℕ → List ℕ → Bool × List ℕ × List ℕ
parse_at_dot filename dot name ext =
    let offset = length filename - length dot in
    let name_len = if ltb 8 offset then 8 else offset in
    let new_name = memcpy (memset name 0 9) filename name_len in
    let new_ext = set (strncpy (memset ext 0 4) (rest dot) 3) 3 0 in
    if leb offset 0
    then (false, name, ext)
    else ((ltb 0 (strlen new_name) && ltb 0 (strlen new_ext)), new_name, new_ext)

unfoldable pub shell_parse_filename : List ℕ → List ℕ → List ℕ → Bool × List ℕ × List ℕ
shell_parse_filename filename name ext = elim (naw_find_char filename b'.') [
  | none ↦ (false, name, ext)
  | some dot ↦ parse_at_dot filename dot name ext
]

-- The result, and what stands in `text` and `file` afterwards.
unfoldable pub shell_parse_write_request : List ℕ → List ℕ → ℕ → List ℕ → ℕ → Bool × List ℕ × List ℕ
shell_parse_write_request input text text_size file file_size = elim (strstr input separator) [
  | none ↦ (false, text, file)
  | some sep ↦
      let text_len = length input - length sep in
      (
        true,
        memcpy (memset text 0 text_size) input
            (if leb text_size text_len then text_size - 1 else text_len),
        set (strncpy (memset file 0 file_size) (drop 3 sep) (file_size - 1)) (file_size - 1) 0,
      )
]
