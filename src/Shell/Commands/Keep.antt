-- ===== src/Shell/Commands/Keep.antt =====
-- kernel/shell/shell_commands.c: what every line that is typed keeps of the file system.
use naw_os.Base.{Bool, true, false, List, ℕ, if◌then◌else◌}
use naw_os.NawFs.Device.{BlockDevice, IsReliable}
use naw_os.NawFs.Catalog.{Fs}
use naw_os.NawFs.Files.Valid.{IsValid}
use naw_os.NawFs.Files.Keep.{fs_create-IsValid, fs_write-IsValid, fs_delete-IsValid}
use naw_os.Keyboard.{KeyboardEvent}
use naw_os.Editor.Start.{editor_start-IsValid}
use naw_os.Shell.Parser.{shell_parse_filename, shell_parse_write_request}
use naw_os.Shell.Commands.{
  Command, help, empty, clear, reboot, ls, swaga, scancodes, dhcp, ipconfig, unknown, run, echo, cf,
  wr, cat, rm, edit, calc, netmsg, readsec, Effect, Locals, command_of, shell_cf, shell_wr,
  shell_cat, shell_rm, shell_edit, run_command, shell_execute_command,
}

module _ (dev : BlockDevice) (r : IsReliable dev) where
  open dev use {Disk}

  if-IsValid :
      (b : Bool) (x y : Effect × Fs Disk)
      → IsValid x.1
      → IsValid y.1
      → IsValid (if b then x else y).1
  if-IsValid true x y hx hy = hx
  if-IsValid false x y hx hy = hy

  run_command-IsValid :
      (keys : List KeyboardEvent) (l : Locals) (c : Command) (fs : Fs Disk)
      → IsValid fs
      → IsValid (run_command dev keys l c fs).1
  unfolding run_command shell_cf shell_wr shell_cat shell_rm shell_edit
  run_command-IsValid keys l (cf input) fs v =
      let p = shell_parse_filename input l.name_array l.ext_array in
      if-IsValid p.0 _ _ (fs_create-IsValid dev r p.1 p.2 fs v) v
  run_command-IsValid keys l (wr input) fs v =
      let q = shell_parse_write_request input l.text_array 128 l.file_array 16 in
      let p = shell_parse_filename q.2 l.name_array l.ext_array in
      if-IsValid q.0 _ _ (if-IsValid p.0 _ _ (fs_write-IsValid dev r p.1 p.2 q.1 fs v) v) v
  run_command-IsValid keys l (cat input) fs v =
      if-IsValid (shell_parse_filename input l.name_array l.ext_array).0 _ _ v v
  run_command-IsValid keys l (rm input) fs v =
      let p = shell_parse_filename input l.name_array l.ext_array in
      if-IsValid p.0 _ _ (fs_delete-IsValid dev r p.1 p.2 fs v) v
  run_command-IsValid keys l help fs v = v
  run_command-IsValid keys l empty fs v = v
  run_command-IsValid keys l clear fs v = v
  run_command-IsValid keys l reboot fs v = v
  run_command-IsValid keys l ls fs v = v
  run_command-IsValid keys l swaga fs v = v
  run_command-IsValid keys l scancodes fs v = v
  run_command-IsValid keys l dhcp fs v = v
  run_command-IsValid keys l ipconfig fs v = v
  run_command-IsValid keys l unknown fs v = v
  run_command-IsValid keys l (run filename) fs v = v
  run_command-IsValid keys l (echo line) fs v = v
  run_command-IsValid keys l (edit input) fs v =
      let p = shell_parse_filename input l.name_array l.ext_array in
      if-IsValid p.0 _ _ (editor_start-IsValid dev r p.1 p.2 keys fs v) v
  run_command-IsValid keys l (calc input) fs v = v
  run_command-IsValid keys l (netmsg line) fs v = v
  run_command-IsValid keys l (readsec sector) fs v = v

  -- On a reliable disk, whatever line is typed, whatever key events come while the command runs (they
  -- reach the editor, which can save) and whatever the arrays of the command held before, the catalog
  -- is valid after the command, or while the editor waits for a further event, if it was valid before.
  pub shell_execute_command-IsValid :
      (keys : List KeyboardEvent) (l : Locals) (input : List ℕ) (fs : Fs Disk)
      → IsValid fs
      → IsValid (shell_execute_command dev keys l input fs).1
  unfolding shell_execute_command
  shell_execute_command-IsValid keys l input fs v =
      run_command-IsValid keys l (command_of input) fs v
