-- ===== src/NawFs/Tests.antt =====
-- Runs of fs/nawfs.c on a disk of zeros.
use naw_os.Base.{
  All, ◌≢◌, ℕ, ◌≡◌, refl, true, false, List, [], ◌∷◌, ◌++◌, some, none, replicate, arith, take,
  get_or, ap, ◌≤◌, ◌<◌,
}
use naw_os.CString.{strlen, text}
use naw_os.NawFs.Device.{ram_disk, ram_disk-IsReliable}
use naw_os.NawFs.Format.{
  Entry, entry_matches, superblock_is_valid, bytes_superblock, IsSized, is_valid_entry, pack_field,
  pack_loop,
}
use naw_os.CString.Memory.{memset, memcmp}
use naw_os.NawFs.Format.Names.{padded}
use naw_os.NawFs.Catalog.{
  Fs, fs_init, fs_flush, load_catalog, find_file, find_from, find_free_sector, free_from, in_use,
}
use naw_os.NawFs.Catalog.Roundtrip.{IsGood, load_catalog-fs_flush}
use naw_os.NawFs.Catalog.Search.{find_free_sector-free}
use naw_os.NawFs.Catalog.Startup.{IsFormatted, fs_init-formatted, fs_init-unformatted}
use naw_os.NawFs.Files.{fs_create, fs_write, fs_read, fs_delete}
use naw_os.NawFs.Files.Valid.{IsValid}
use naw_os.NawFs.Files.Keep.{fs_create-IsValid, fs_write-IsValid}
use naw_os.NawFs.Files.Reading.{SameFile}
use naw_os.NawFs.Files.Restart.{IsSaved, fs_create-IsSaved, fs_write-IsSaved, fs_delete-IsSaved}
use naw_os.NawFs.Files.Laws.Write.{fs_read-fs_write_same, fs_read-fs_write_other}
use naw_os.NawFs.Files.Laws.Create.{fs_read-fs_create_other}
use naw_os.NawFs.Files.Laws.Delete.{fs_read-fs_delete_same, fs_read-fs_delete_other}

abbrev Ram : Type 0
Ram = Fs (ℕ → List ℕ)

-- "note", "log", "txt", "hi"
abbrev note : List ℕ
note = 110 ∷ 111 ∷ 116 ∷ 101 ∷ []

abbrev log : List ℕ
log = 108 ∷ 111 ∷ 103 ∷ []

abbrev txt : List ℕ
txt = 116 ∷ 120 ∷ 116 ∷ []

abbrev hi : List ℕ
hi = 104 ∷ 105 ∷ []

abbrev zeros : ℕ → List ℕ
zeros k = replicate 512 0

-- a new disk, and the file system that starts on it
abbrev blank : Ram
blank = record { entries = []; disk = zeros }

abbrev started : Ram
started = fs_init ram_disk blank

zeros-unformatted : superblock_is_valid (bytes_superblock (replicate 512 0)) ≡ false
unfolding superblock_is_valid bytes_superblock
zeros-unformatted = refl

fs_init-unformatted_example :
    (started.entries ≡ [])
    × IsFormatted ram_disk started.disk
    × (fs_init ram_disk (record { entries = []; disk = started.disk }) ≡ started)
fs_init-unformatted_example =
    fs_init-unformatted ram_disk ram_disk-IsReliable blank (replicate 512 0) [] refl
      zeros-unformatted

started-IsValid : IsValid started
started-IsValid =
    let none_yet = fs_init-unformatted_example.0 in
    record { good = rw none_yet tt; distinct = rw none_yet tt; small = rw none_yet (omega arith) }

started-IsSaved : IsSaved ram_disk ram_disk-IsReliable started
started-IsSaved memory =
    (fs_init-unformatted ram_disk ram_disk-IsReliable blank (replicate 512 0) memory refl
      zeros-unformatted).2

fs_init-formatted_example : fs_init ram_disk started ≡ (load_catalog ram_disk started).1
fs_init-formatted_example = fs_init-formatted ram_disk started fs_init-unformatted_example.1

-- one file, then two
abbrev one : Ram
one = (fs_create ram_disk note txt started).1

abbrev two : Ram
two = (fs_create ram_disk log txt one).1

fs_create-IsValid_example : IsValid one
fs_create-IsValid_example =
    fs_create-IsValid ram_disk ram_disk-IsReliable note txt started started-IsValid

two-IsValid : IsValid two
two-IsValid = fs_create-IsValid ram_disk ram_disk-IsReliable log txt one fs_create-IsValid_example

fs_create-IsSaved_example : IsSaved ram_disk ram_disk-IsReliable one × IsFormatted ram_disk one.disk
fs_create-IsSaved_example =
    fs_create-IsSaved ram_disk ram_disk-IsReliable note txt started started-IsValid
      fs_init-unformatted_example.1 started-IsSaved

two-IsSaved : IsSaved ram_disk ram_disk-IsReliable two × IsFormatted ram_disk two.disk
two-IsSaved =
    fs_create-IsSaved ram_disk ram_disk-IsReliable log txt one fs_create-IsValid_example
      fs_create-IsSaved_example.1 fs_create-IsSaved_example.0

fs_write-IsValid_example : IsValid (fs_write ram_disk note txt hi two).1
fs_write-IsValid_example = fs_write-IsValid ram_disk ram_disk-IsReliable note txt hi two two-IsValid

fs_write-IsSaved_example :
    IsSaved ram_disk ram_disk-IsReliable (fs_write ram_disk note txt hi two).1
    × IsFormatted ram_disk (fs_write ram_disk note txt hi two).1.disk
fs_write-IsSaved_example =
    fs_write-IsSaved ram_disk ram_disk-IsReliable note txt hi two two-IsValid two-IsSaved.1
      two-IsSaved.0

fs_delete-IsSaved_example :
    IsSaved ram_disk ram_disk-IsReliable (fs_delete ram_disk note txt two).1
    × IsFormatted ram_disk (fs_delete ram_disk note txt two).1.disk
fs_delete-IsSaved_example =
    fs_delete-IsSaved ram_disk ram_disk-IsReliable note txt two two-IsValid two-IsSaved.1
      two-IsSaved.0

apart : ¬ SameFile log txt note txt
unfolding padded
apart (p, _) = absurd (ground (arith, ap (λ (l : List ℕ). get_or l 0 0) p))

-- "note.txt" without content, in the first data sector
abbrev note_entry : Entry
note_entry = record {
  name = note ++ (0 ∷ 0 ∷ 0 ∷ 0 ∷ []);
  ext = txt;
  size = 0;
  sector = 139;
  reserved = replicate 17 0;
}

abbrev stored : Ram
stored = record { entries = note_entry ∷ []; disk = zeros }

note_entry-IsSized : IsSized note_entry
note_entry-IsSized = record {
  name_len = refl;
  ext_len = refl;
  size_fits = omega arith;
  sector_fits = omega arith;
  reserved_len = refl;
}

note_entry-IsGood : IsGood note_entry
unfolding is_valid_entry
note_entry-IsGood = record { sized = note_entry-IsSized; valid = refl }

stored-IsValid : IsValid stored
stored-IsValid = record { good = (note_entry-IsGood, tt); distinct = (tt, tt); small = omega arith }

fs_write-stored : (fs_write ram_disk note txt hi stored).0 ≡ true
unfolding fs_write find_file find_from entry_matches pack_field pack_loop memset memcmp
fs_write-stored = refl

fs_create-stored : (fs_create ram_disk log txt stored).0 ≡ true
unfolding fs_create find_file find_from entry_matches pack_field pack_loop memset memcmp
    find_free_sector free_from in_use
fs_create-stored = refl

hi_short : strlen hi < 65536
unfolding strlen
hi_short = omega arith

fs_read-fs_write_same_example :
    fs_read ram_disk note txt (fs_write ram_disk note txt hi stored).1 ≡ some (take 512 (text hi))
fs_read-fs_write_same_example =
    fs_read-fs_write_same ram_disk ram_disk-IsReliable note txt note txt hi stored stored-IsValid
      hi_short (refl, refl) fs_write-stored

fs_read-fs_write_other_example :
    fs_read ram_disk note txt (fs_write ram_disk log txt hi stored).1
    ≡ fs_read ram_disk note txt stored
fs_read-fs_write_other_example =
    fs_read-fs_write_other ram_disk ram_disk-IsReliable log txt note txt hi stored stored-IsValid
      apart

fs_read-fs_create_other_example :
    fs_read ram_disk note txt (fs_create ram_disk log txt stored).1
    ≡ fs_read ram_disk note txt stored
fs_read-fs_create_other_example =
    fs_read-fs_create_other ram_disk ram_disk-IsReliable log txt note txt stored stored-IsValid
      apart

fs_read-fs_delete_same_example :
    fs_read ram_disk note txt (fs_delete ram_disk note txt stored).1 ≡ none
fs_read-fs_delete_same_example =
    fs_read-fs_delete_same ram_disk ram_disk-IsReliable note txt note txt stored stored-IsValid
      (refl, refl)

fs_read-fs_delete_other_example :
    fs_read ram_disk note txt (fs_delete ram_disk log txt stored).1
    ≡ fs_read ram_disk note txt stored
fs_read-fs_delete_other_example =
    fs_read-fs_delete_other ram_disk ram_disk-IsReliable log txt note txt stored stored-IsValid
      apart

load_catalog-fs_flush_example :
    load_catalog ram_disk (record { entries = []; disk = (fs_flush ram_disk stored).disk })
    ≡ (true, fs_flush ram_disk stored)
load_catalog-fs_flush_example =
    load_catalog-fs_flush ram_disk ram_disk-IsReliable stored [] (note_entry-IsGood, tt)
      (omega arith)

next_free : find_free_sector (note_entry ∷ []) ≡ some 140
unfolding find_free_sector free_from in_use
next_free = refl

find_free_sector-free_example :
    (139 ≤ 140) × (140 < 203) × All (λ e. e.sector ≢ 140) (note_entry ∷ [])
find_free_sector-free_example = find_free_sector-free (note_entry ∷ []) 140 next_free
