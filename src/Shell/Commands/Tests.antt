-- ===== src/Shell/Commands/Tests.antt =====
-- Lines that are typed.
use naw_os.Base.{true, false, ◌∷◌, ℕ, ◌≡◌, ◌++◌, refl, arith, List, [], replicate}
use naw_os.CString.{strcmp, strncmp, strlen, strstr, starts_with, naw_find_char, strncpy}
use naw_os.CString.Memory.{memset, memcpy, memcmp}
use naw_os.NawFs.Format.{entry_matches, pack_field, pack_loop}
use naw_os.NawLang.Compiler.Scan.{codes}
use naw_os.NawFs.Device.{ram_disk, ram_disk-IsReliable}
use naw_os.NawFs.Catalog.{Fs, find_file, find_from, find_free_sector, free_from, in_use, fs_flush}
use naw_os.NawFs.Files.{fs_create, fs_write, new_entry}
use naw_os.NawFs.Files.Valid.{IsValid}
use naw_os.Keyboard.{KeyboardEvent}
use naw_os.Shell.Parser.{separator, parse_at_dot, shell_parse_filename, shell_parse_write_request}
use naw_os.Shell.Commands.{Locals, says, command_of, unknown, calc, shell_execute_command}
use naw_os.Shell.Commands.Files.{IsSized, IsFilename, dotted, shell_execute_command-wr_cat}
use naw_os.Shell.Commands.Keep.{shell_execute_command-IsValid}

-- "calc" does not match the beginning of a longer word
calculator : command_of (codes "calculator") ≡ unknown
unfolding command_of strcmp strncmp strlen
calculator = refl

calculation : command_of (codes "calc  1+2") ≡ calc (codes "1+2")
unfolding command_of strcmp strncmp strlen
calculation = refl

-- 'x', then F2, which saves, then Escape
abbrev keys : List KeyboardEvent
keys =
    record { scancode = 45; character = 120; pressed = true; extended = false }
    ∷ record { scancode = 60; character = 0; pressed = true; extended = false }
    ∷ record { scancode = 1; character = 0; pressed = true; extended = false }
    ∷ []

abbrev locals : Locals
locals = record {
  text_array = replicate 128 1;
  file_array = replicate 16 2;
  name_array = replicate 9 3;
  ext_array = replicate 4 4;
}

locals-IsSized : IsSized locals
locals-IsSized = record { text_size = refl; file_size = refl; name_size = refl; ext_size = refl }

abbrev blank : Fs (ℕ → List ℕ)
blank = record { entries = []; disk = λ k. replicate 512 0 }

blank-IsValid : IsValid blank
blank-IsValid = record { good = tt; distinct = tt; small = omega arith }

abbrev made : Fs (ℕ → List ℕ)
made = (shell_execute_command ram_disk keys locals (codes "cf note.txt") blank).1

made-IsValid : IsValid made
made-IsValid =
    shell_execute_command-IsValid ram_disk ram_disk-IsReliable keys locals (codes "cf note.txt")
      blank blank-IsValid

shell_execute_command-IsValid_example :
    IsValid (shell_execute_command ram_disk keys locals (codes "edit note.txt") made).1
shell_execute_command-IsValid_example =
    shell_execute_command-IsValid ram_disk ram_disk-IsReliable keys locals (codes "edit note.txt")
      made made-IsValid

note-IsFilename : IsFilename (codes "note") (codes "txt")
note-IsFilename = record {
  name_bytes = grind arith;
  has_name = omega arith;
  ext_bytes = grind arith;
  has_ext = omega arith;
  fits = omega arith;
}

made-written :
    (shell_execute_command ram_disk keys locals
      (codes "wr " ++ (codes "hi" ++ (separator ++ dotted (codes "note") (codes "txt"))))
      made).0
    ≡ says (codes "File written\n")
unfolding shell_execute_command strcmp strncmp strlen shell_parse_write_request strstr starts_with
    shell_parse_filename naw_find_char parse_at_dot strncpy memset memcpy memcmp fs_write find_file
    fs_create find_free_sector fs_flush entry_matches pack_field pack_loop new_entry in_use
    free_from find_from
made-written = refl

shell_execute_command-wr_cat_example :
    shell_execute_command ram_disk keys locals
      (codes "cat " ++ dotted (codes "note") (codes "txt"))
      (shell_execute_command ram_disk keys locals
        (codes "wr " ++ (codes "hi" ++ (separator ++ dotted (codes "note") (codes "txt"))))
        made).1
    ≡ (
      says (codes "hi" ++ codes "\n"),
      (shell_execute_command ram_disk keys locals
          (codes "wr " ++ (codes "hi" ++ (separator ++ dotted (codes "note") (codes "txt"))))
          made).1,
    )
shell_execute_command-wr_cat_example =
    shell_execute_command-wr_cat ram_disk ram_disk-IsReliable keys keys locals locals (codes "note")
      (codes "txt") (codes "hi") made locals-IsSized locals-IsSized note-IsFilename (grind arith)
      made-IsValid made-written
