-- ===== src/NawFs/Files.antt =====
-- The operations of fs/nawfs.c on files. An operation that may fail returns whether it succeeded
-- (the result 0) beside the new state. Names and data are C strings, no pointer is null.
pub mod Lists
pub mod Valid
pub mod Cases
pub mod Keep
pub mod Content
pub mod Reading
pub mod Laws
pub mod Restart
use naw_os.Base.{
  ℕ, zero, suc, ◌+◌, ◌-◌, Bool, true, false, Option, none, some, List, [], ◌∷◌, ◌++◌, ltb, leb,
  ◌==◌, if◌then◌else◌, length, get_elem?, set, take, replicate, u16,
}
use naw_os.CString.{peek, rest, strlen, strncpy}
use naw_os.CString.Memory.{memcpy}
use naw_os.NawFs.Device.{BlockDevice}
use naw_os.NawFs.Format.{
  Entry, max_files, filename_len, extension_len, sector_size, max_file_size, entry_matches,
  unpack_field,
}
use naw_os.NawFs.Catalog.{Fs, find_file, find_free_sector, fs_flush}

-- the entry that `fs_create` fills in, in a slot that `memset` has cleared
unfoldable pub new_entry : List ℕ → List ℕ → ℕ → Entry
new_entry name ext free_sector = record {
  name = strncpy (replicate 8 0) name filename_len;
  ext = strncpy (replicate 3 0) ext extension_len;
  size = 0;
  sector = u16 free_sector;
  reserved = replicate 17 0;
}

-- the length that `fs_write` stores
unfoldable pub stored_len : List ℕ → ℕ
stored_len content =
    let len = u16 (strlen content) in if ltb max_file_size len then max_file_size else len

-- the sector that `fs_write` writes
unfoldable pub file_sector : List ℕ → List ℕ
unfolding stored_len
file_sector content = memcpy (replicate 512 0) content (stored_len content)

unfoldable pub set_size : List Entry → ℕ → ℕ → List Entry
set_size es i len = elim (get_elem? es i) [
  | none ↦ es
  | some e ↦ set es i (record e { size = len })
]

-- `entries[j] = entries[j + 1]`
unfoldable pub move_back : ℕ → List Entry → List Entry
move_back j es = elim (get_elem? es (j + 1)) [ none ↦ es | some e ↦ set es j e ]

-- the loop of `fs_delete`, with the rounds left
unfoldable pub shift_entries : ℕ → ℕ → List Entry → List Entry
unfolding move_back
shift_entries zero j es = es
shift_entries (suc rounds) j es = shift_entries rounds (j + 1) (move_back j es)

-- the shift and `file_count--`
unfoldable pub remove_entry : List Entry → ℕ → List Entry
unfolding shift_entries
remove_entry es i = take (length es - 1) (shift_entries (length es - 1 - i) i es)

-- the loop of `fs_read_to_buffer`, with the room left: the bytes that it copies
unfoldable pub copy_text : ℕ → List ℕ → List ℕ
copy_text zero src = []
copy_text (suc room) src =
    let more = copy_text room (rest src) in if peek src == 0 then [] else peek src ∷ more

-- what `fs_list` prints of an entry: the name, the extension and the size
unfoldable pub listing : List Entry → List (List ℕ × List ℕ × ℕ)
listing [] = []
listing (e ∷ es) =
    (unpack_field (filename_len + 1) e.name 8, unpack_field (extension_len + 1) e.ext 3, e.size)
    ∷ listing es

module _ (dev : BlockDevice) where
  open dev use {Disk, read, write}

  unfoldable pub fs_create : List ℕ → List ℕ → Fs Disk → Bool × Fs Disk
  fs_create name ext fs =
      if leb max_files (length fs.entries)
      then (false, fs)
      else (if peek name == 0
          then (false, fs)
          else (if peek ext == 0 then (false, fs) else (elim (find_file fs.entries name ext) [
            | some i ↦ (false, fs)
            | none ↦ elim (find_free_sector fs.entries) [
              | none ↦ (false, fs)
              | some free_sector ↦
                  let e = new_entry name ext free_sector in
                  let (done, d) = write e.sector (replicate 512 0) fs.disk in
                  if done
                  then (true, fs_flush dev (record { entries = fs.entries ++ (e ∷ []); disk = d }))
                  else (false, record fs { disk = d })
            ]
          ])))

  unfoldable pub fs_write : List ℕ → List ℕ → List ℕ → Fs Disk → Bool × Fs Disk
  fs_write name ext content fs = elim (find_file fs.entries name ext) [
    | none ↦ (false, fs)
    | some i ↦ elim (get_elem? fs.entries i) [
      | none ↦ (false, fs)
      | some e ↦
          let (done, d) = write e.sector (file_sector content) fs.disk in
          if done
          then (
            true,
            fs_flush dev
                (record { entries = set_size fs.entries i (stored_len content); disk = d }),
          )
          else (false, record fs { disk = d })
    ]
  ]

  -- The loop ends at the first entry that matches. The result is the string in the buffer, which
  -- `buffer[size] = 0` ends; `none` is the null pointer.
  unfoldable pub read_from : List Entry → List ℕ → List ℕ → Disk → Option (List ℕ)
  read_from [] name ext d = none
  read_from (e ∷ es) name ext d =
      let next = read_from es name ext d in
      if entry_matches e name ext
      then (elim (read e.sector d) [
        | none ↦ none
        | some bytes ↦
            some (take (if ltb max_file_size e.size then max_file_size else e.size) bytes)
      ])
      else next

  unfoldable pub fs_read : List ℕ → List ℕ → Fs Disk → Option (List ℕ)
  unfolding read_from
  fs_read name ext fs = read_from fs.entries name ext fs.disk

  -- the count that is returned (`none` for -1) and the text that the buffer holds then
  unfoldable pub fs_read_to_buffer : List ℕ → List ℕ → ℕ → Fs Disk → Option (ℕ × List ℕ)
  unfolding fs_read copy_text
  fs_read_to_buffer name ext max_len fs = elim (fs_read name ext fs) [
    | none ↦ none
    | some file_data ↦
        let copied = copy_text (max_len - 1) file_data in
        if max_len == 0 then none else some (length copied, copied)
  ]

  -- the write of zeros may fail: its result is not looked at
  unfoldable pub fs_delete : List ℕ → List ℕ → Fs Disk → Bool × Fs Disk
  unfolding remove_entry
  fs_delete name ext fs = elim (find_file fs.entries name ext) [
    | none ↦ (false, fs)
    | some i ↦ elim (get_elem? fs.entries i) [
      | none ↦ (false, fs)
      | some e ↦
          let (done, d) = write e.sector (replicate 512 0) fs.disk in
          (true, fs_flush dev (record { entries = remove_entry fs.entries i; disk = d }))
    ]
  ]
