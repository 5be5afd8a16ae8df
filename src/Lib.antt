-- ===== src/Lib.antt =====
-- NawOS, a hobby operating system for x86, in C: a model of its parts as functions, and what holds of
-- them.
--
-- The parts. The shell starts the editor and the interpreter of the language Lelya. The editor keeps
-- a text in a buffer and saves it through the file system, which keeps a catalog of files in memory
-- and on disk and asks a disk driver for sectors. The interpreter compiles a program to bytecode and
-- runs it on a stack machine. Key events come from the keyboard driver, and output goes to the
-- terminal, a scrollback of 96 lines of which the screen shows 25. All of them use the kernel's own
-- string and memory routines. Datagrams go out as frames and come in through the layers of the network
-- code.
--
-- The files, and the code each one models:
--   Base          no code: lists, bytes and tests under one roof
--   Ata           drivers/ata/ata.c
--     Drive       the drive behind the ports, in the words of the ATA standard
--     Wait        ata_wait and the registers of a command
--     Words       the loops over the words of a sector
--     Sector      reading and writing a sector
--   CString       lib/nawstring.c, lib/nawutil.c, kernel/memory/memory.c
--     Decimal     itoa, terminal_write_dec and terminal_write_int
--   NawFs         fs/nawfs.c, fs/nawfs_format.h
--     Format      the structures on disk and their bytes, and the tests on one entry
--     Device      the disk driver as an interface: sectors that can be read and written
--     Catalog     load_catalog, fs_flush, fs_format, fs_init, find_file, find_free_sector
--     Files       fs_create, fs_write, fs_read, fs_read_to_buffer, fs_delete, fs_list
--   Editor        apps/editor
--     State       editor_state_t and its invariant
--     Buffer      editor_buffer_insert, editor_buffer_delete
--     Cursor      the rows and columns of the cursor, and its moves
--     Input       editor_input_handle_event, editor_file_load, editor_file_save
--     Start       editor_start
--   Terminal      kernel/terminal/terminal.c
--     State       the static variables and their invariant
--     View        rendering, batches, and the part of the scrollback that is shown
--     Write       terminal_put_char and the moves of the cursor
--     Steps       the calls of the rest of the kernel as steps of a state machine
--   Keyboard      kernel/input/keyboard_driver.c
--   Net           net/udp.c, net/ipv4.c, net/ethernet.c
--     Packet      sending a datagram, and the way of a frame that is received
--     Roundtrip   what is sent is received
--     Checksum    the checksum of a header
--     Dhcp        net/dhcp.c, net/net.c
--       Options   dhcp_find_option
--       Replies   which datagrams dhcp_handle_udp_packet takes
--       Lease     the calls of the network code as steps, and their invariant
--       Exchange  an offer, a request and an acknowledgement
--   Shell         kernel/shell
--     Input       shell_input.c
--     Parser      shell_parser.c
--     Commands    shell_commands.c
--   NawLang       apps/nawlang
--     Word        the machine's int as a 32-bit pattern
--     Bytecode    the instructions
--     Vm          vm_run
--     Compiler    apps/nawlang/compiler.c, with no code of its own
--       Scan      the reading of names, numbers and keywords
--       Outcome   a value, undefined behaviour, or no fuel left
--       State     the text that is left, the tables of names and variables, emit
--       Native    the calls that become instructions of their own
--       Expression  compile_expr
--       Statement  the statements, the jumps of the loops, and the loop of naw_compile
--       Program   what naw_compile returns, and when it does
--       Machine   the code of a program on the machine of Vm
--       Stops     programs whose jumps lead forward
--       Tree      expressions as trees, printed, compiled and run
--
-- The state. An array of bytes is a list; a pointer into it is the list from there on. The catalog is
-- the list of the entries in use, whose length is file_count. A disk is any type with a read and a
-- write; the theorems on files ask of it that a sector below 4096 reads as what was last written to
-- it. The driver of the disk stands on the ports of the machine, a parameter with the protocol of a
-- drive as the ATA standard describes it. The key events that come while the editor runs are a list.
-- The machine's stack is a list whose first element is the top.
--
-- Bounds and fuel. The loops of the file system and the editor are recursions on the rounds left,
-- which the code's bounds give: 64 entries, 9 catalog sectors of 16 slots, 512 bytes. The machine's
-- loop may go on for ever, so it is on fuel; when the jumps of the code lead forward, one round more
-- than it has instructions is enough. The compiler is on fuel too: four rounds for each byte of the
-- text and four more for an expression, two for each byte and one more for a statement, and for a
-- program one more than the text has bytes; a program whose text the compiler reads for ever has no
-- fuel that is enough. dhcp_find_option has a round for each byte of the options. The array of
-- instructions is as long as the code needs, and a break or continue past the tables of a loop is
-- undefined behaviour, a result of its own. Integers of the machine wrap at 32 bits, the sizes and
-- sectors of entries at 16. Each of the two loops of ata_wait reads the status at most 100000 times.
-- The carries of a checksum of 32 bits are folded in at most three rounds.
--
-- Not modelled: the drivers of the network card, of PCI and of the screen, whose code is input and
-- output on ports and memory; interrupts and the order of start-up; the messages that the file system
-- and DHCP print, and the screen of the editor; the prompt of the shell, and what it prints for ipconfig; the reading of numbers; the
-- start of the interpreter; the calculator and the floating-point library; the program that builds the
-- image of a disk.
pub mod Base
pub mod CString
pub mod NawFs
pub mod Editor
pub mod NawLang
pub mod Ata
pub mod Keyboard
pub mod Net
pub mod Shell
pub mod Terminal
