-- ===== src/Shell/Commands.antt =====
-- kernel/shell/shell_commands.c: which command a line is, and the commands on files. A call of
-- another part of the kernel is a value; so is the text that goes to the terminal.
pub mod Files
pub mod Keep
mod Tests
use naw_os.Base.{
  ℕ, zero, suc, ◌+◌, ◌-◌, ◌/◌, ◌%◌, ltb, Bool, true, false, ◌&&◌, ◌||◌, not, Option, none, some,
  List, [], ◌∷◌, ◌++◌, ◌==◌, if◌then◌else◌, drop,
}
use naw_os.Base.Int.{is_zero}
use naw_os.CString.{peek, rest, text, strlen, strcmp, strncmp, naw_atoi}
use naw_os.NawLang.Compiler.Scan.{codes}
use naw_os.NawFs.Device.{BlockDevice}
use naw_os.NawFs.Catalog.{Fs}
use naw_os.NawFs.Files.{fs_create, fs_write, fs_read, fs_delete, listing}
use naw_os.Keyboard.{KeyboardEvent}
use naw_os.Editor.State.{EditorState}
use naw_os.Editor.Start.{editor_start}
use naw_os.Shell.Parser.{shell_parse_filename, shell_parse_write_request}

-- the branches of `shell_execute_command`, with what each takes from the line
pub data Command : Type 0 where
  help empty clear reboot ls swaga scancodes dhcp ipconfig unknown : Command
  run echo cf wr cat rm edit calc netmsg : List ℕ → Command
  readsec : ℕ → Command

unfoldable pub shell_skip_spaces : List ℕ → List ℕ
shell_skip_spaces [] = []
shell_skip_spaces (c ∷ s) = if c == b' ' || c == b'\t' then shell_skip_spaces s else c ∷ s

unfoldable pub shell_command_matches : List ℕ → List ℕ → Bool
shell_command_matches input command =
    let after = peek (drop (strlen command) input) in
    is_zero (strncmp input command (strlen command))
    && (after == 0 || after == b' ' || after == b'\t')

abbrev is_line : List ℕ → List ℕ → Bool
is_line input line = is_zero (strcmp input line)

abbrev starts : List ℕ → List ℕ → ℕ → Bool
starts input prefix n = is_zero (strncmp input prefix n)

-- the tests behind the one for "rm "
unfoldable pub later_command : List ℕ → Command
unfolding shell_command_matches shell_skip_spaces
later_command input =
    if starts input (codes "readsec ") 8
    then readsec (naw_atoi (drop 8 input))
    else (if starts input (codes "edit ") 5
        then edit (drop 5 input)
        else (if shell_command_matches input (codes "calc")
            then calc (shell_skip_spaces (drop 4 input))
            else (if starts input (codes "lelya") 5
                then scancodes
                else (if is_line input (codes "dhcp")
                    then dhcp
                    else (if starts input (codes "netmsg ") 7
                        then netmsg (drop 7 input)
                        else (if is_line input (codes "ipconfig") then ipconfig else unknown))))))

-- the tests of `shell_execute_command`, in their order
unfoldable pub command_of : List ℕ → Command
unfolding later_command
command_of input =
    if is_line input (codes "help")
    then help
    else (if is_line input []
        then empty
        else (if starts input (codes "run ") 4
            then run (drop 4 input)
            else (if is_line input (codes "clear")
                then clear
                else (if is_line input (codes "reboot")
                    then reboot
                    else (if starts input (codes "echo ") 5
                        then echo (drop 5 input)
                        else (if is_line input (codes "ls")
                            then ls
                            else (if is_line input (codes "swaga")
                                then swaga
                                else (if starts input (codes "cf ") 3
                                    then cf (drop 3 input)
                                    else (if starts input (codes "wr ") 3
                                        then wr (drop 3 input)
                                        else (if starts input (codes "cat ") 4
                                            then cat (drop 4 input)
                                            else (if starts input (codes "rm ") 3
                                                then rm (drop 3 input)
                                                else later_command input)))))))))))

-- What a command asks of the rest of the kernel: `says` is a text for the terminal; `edits` tells whether
-- the editor was left, and its session; `passes` is a command whose branch calls a part that does not
-- write to the file system, or prints what that part keeps.
pub data Effect : Type 0 where
  says : List ℕ → Effect
  lists : List (List ℕ × List ℕ × ℕ) → Effect
  edits : Bool → EditorState → Effect
  passes : Command → Effect

-- the arrays `text`, `file`, `name` and `ext` of a command, with what stood there before
pub record Locals : Type 0 where
  pub text_array : List ℕ
  pub file_array : List ℕ
  pub name_array : List ℕ
  pub ext_array : List ℕ

abbrev invalid : Effect
invalid = says (codes "Invalid filename. Use name.ext\n")

abbrev or_usage : List ℕ → Effect → List ℕ → Effect
or_usage usage e argument = if peek argument == 0 then says usage else e

-- shell_print_help
abbrev help_text : List ℕ
help_text =
    codes " commands:\n"
    ++ codes "help - Show this message\n"
    ++ codes "clear - Clear screen\n"
    ++ codes "reboot - Reboot system\n"
    ++ codes "echo <text> - Print text to the screen\n"
    ++ codes "ls - Show files\n"
    ++ codes "cf <name.ext> - Create file\n"
    ++ codes "wr <text> - <name.ext> - Write to file\n"
    ++ codes "cat <name.ext> - Show file content\n"
    ++ codes "rm <name.ext> - Delete file\n"
    ++ codes "readsec <num> - Read disk sector\n"
    ++ codes "edit <name.ext> - text editor\n"
    ++ codes "calc - complex math tools\n"
    ++ codes "dhcp - Request a DHCP lease\n"
    ++ codes "ipconfig - Show network configuration\n"
    ++ codes "netmsg <text> - Broadcast UDP text\n"

-- a digit of `naw_uint8_to_hex`
abbrev pub hex_digit : ℕ → ℕ
hex_digit d = if ltb d 10 then b'0' + d else b'A' + (d - 10)

-- the two digits that `naw_uint8_to_hex` writes before the final 0
unfoldable pub naw_uint8_to_hex : ℕ → List ℕ
naw_uint8_to_hex value = hex_digit (value / 16 % 16) ∷ hex_digit (value % 16) ∷ []

-- the loop of "readsec" from byte `i` on
unfoldable pub dump : ℕ → List ℕ → List ℕ
unfolding naw_uint8_to_hex
dump i [] = []
dump i (c ∷ buffer) =
    naw_uint8_to_hex c
    ++ (b' ' ∷ ((if (i + 1) % 16 == 0 then b'\n' ∷ [] else []) ++ dump (i + 1) buffer))

-- what "cat" prints for the result of `fs_read`
abbrev shown : Option (List ℕ) → List ℕ
shown none = codes "File not found\n"
shown (some file_data) = text file_data ++ codes "\n"

module _ (dev : BlockDevice) where
  open dev use {Disk, read}

  unfoldable pub shell_cf : Locals → List ℕ → Fs Disk → Effect × Fs Disk
  shell_cf l input fs =
      let p = shell_parse_filename input l.name_array l.ext_array in
      let r = fs_create dev p.1 p.2 fs in
      if p.0
      then (says (if r.0 then codes "File created\n" else codes "Failed to create file\n"), r.1)
      else (invalid, fs)

  unfoldable pub shell_wr : Locals → List ℕ → Fs Disk → Effect × Fs Disk
  shell_wr l input fs =
      let q = shell_parse_write_request input l.text_array 128 l.file_array 16 in
      let p = shell_parse_filename q.2 l.name_array l.ext_array in
      let r = fs_write dev p.1 p.2 q.1 fs in
      if q.0
      then (if p.0
          then (says (if r.0 then codes "File written\n" else codes "Failed to write file\n"), r.1)
          else (invalid, fs))
      else (says (codes "Usage: wr <text> - <file>\n"), fs)

  unfoldable pub shell_cat : Locals → List ℕ → Fs Disk → Effect × Fs Disk
  shell_cat l input fs =
      let p = shell_parse_filename input l.name_array l.ext_array in
      if p.0 then (says (shown (fs_read dev p.1 p.2 fs)), fs) else (invalid, fs)

  unfoldable pub shell_rm : Locals → List ℕ → Fs Disk → Effect × Fs Disk
  shell_rm l input fs =
      let p = shell_parse_filename input l.name_array l.ext_array in
      let r = fs_delete dev p.1 p.2 fs in
      if p.0
      then (says (if r.0 then codes "File deleted\n" else codes "Failed to delete file\n"), r.1)
      else (invalid, fs)

  unfoldable pub shell_edit : List KeyboardEvent → Locals → List ℕ → Fs Disk → Effect × Fs Disk
  shell_edit keys l input fs =
      let p = shell_parse_filename input l.name_array l.ext_array in
      let r = editor_start dev p.1 p.2 keys fs in
      if p.0 then (edits r.0 r.1, r.2) else (invalid, fs)

  unfoldable pub shell_readsec : ℕ → Fs Disk → Effect
  unfolding dump
  shell_readsec sec fs = elim (read sec fs.disk) [
    | none ↦ says (codes "Disk read error\n")
    | some buffer ↦ says (dump 0 buffer)
  ]

  unfoldable pub run_command : List KeyboardEvent → Locals → Command → Fs Disk → Effect × Fs Disk
  unfolding shell_cf shell_wr shell_cat shell_rm shell_edit shell_readsec
  run_command keys l empty fs = (says (codes "\n"), fs)
  run_command keys l (echo line) fs = (says (text line ++ codes "\n"), fs)
  run_command keys l swaga fs = (says (codes "swaga prisutstvuet"), fs)
  run_command keys l unknown fs = (says (codes "Unknown command. Type 'help' for help.\n"), fs)
  run_command keys l (run filename) fs =
      (or_usage (codes "Usage: run <filename>\n") (passes (run filename)) filename, fs)
  run_command keys l (netmsg line) fs =
      (or_usage (codes "Usage: netmsg <text>\n") (passes (netmsg line)) line, fs)
  run_command keys l ls fs = (lists (listing fs.entries), fs)
  run_command keys l (cf input) fs = shell_cf l input fs
  run_command keys l (wr input) fs = shell_wr l input fs
  run_command keys l (cat input) fs = shell_cat l input fs
  run_command keys l (rm input) fs = shell_rm l input fs
  run_command keys l (edit input) fs = shell_edit keys l input fs
  run_command keys l (readsec sec) fs = (shell_readsec sec fs, fs)
  run_command keys l help fs = (says help_text, fs)
  run_command keys l c fs = (passes c, fs)

  -- `keys` are the events that the keyboard driver gives while the command runs.
  unfoldable pub shell_execute_command :
      List KeyboardEvent → Locals → List ℕ → Fs Disk → Effect × Fs Disk
  unfolding command_of run_command
  shell_execute_command keys l input fs = run_command keys l (command_of input) fs
