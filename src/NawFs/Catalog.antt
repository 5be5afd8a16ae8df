-- ===== src/NawFs/Catalog.antt =====
-- The catalog of fs/nawfs.c: `load_catalog`, `fs_flush`, `fs_format`, `fs_init`, and the searches.
-- The array `entries` is the list of its first `file_count` elements: no function reads past those.
-- The messages on failures are not modelled, nor the `cli` and `sti` around `fs_init`.
pub mod Roundtrip
pub mod Search
pub mod Startup
use naw_os.Base.{
  ℕ, zero, suc, ◌+◌, ◌*◌, Bool, true, false, ◌&&◌, ◌||◌, Option, none, some, List, [], ◌∷◌, ◌++◌,
  ltb, leb, ◌==◌, if◌then◌else◌, length, get_elem?, take, drop, replicate,
}
use naw_os.NawFs.Device.{BlockDevice}
use naw_os.NawFs.Format.{
  Entry, max_files, fs_superblock_sector, catalog_start_sector, catalog_sectors, data_start_sector,
  data_sector_count, entry_size, entries_per_sector, entry_bytes, bytes_entry, is_valid_entry,
  entry_matches, build_superblock, superblock_is_valid, superblock_bytes, bytes_superblock,
}

pub record Fs (D : Type 0) : Type 0 where
  pub entries : List Entry
  pub disk : D

-- whether some entry uses the sector
unfoldable pub in_use : List Entry → ℕ → Bool
in_use [] sector = false
in_use (e ∷ es) sector = if e.sector == sector then true else in_use es sector

-- the outer loop, with the rounds left; `none` is the result -1
unfoldable pub free_from : List Entry → ℕ → ℕ → Option ℕ
free_from es zero sector = none
free_from es (suc rounds) sector =
    let next = free_from es rounds (sector + 1) in if in_use es sector then next else some sector

unfoldable pub find_free_sector : List Entry → Option ℕ
unfolding free_from in_use
find_free_sector es = free_from es data_sector_count data_start_sector

-- from the index of the first entry of the list
unfoldable pub find_from : List Entry → ℕ → List ℕ → List ℕ → Option ℕ
find_from [] i name ext = none
find_from (e ∷ es) i name ext =
    let next = find_from es (i + 1) name ext in if entry_matches e name ext then some i else next

-- `none` is the result -1
unfoldable pub find_file : List Entry → List ℕ → List ℕ → Option ℕ
unfolding find_from entry_matches
find_file es name ext = find_from es 0 name ext

-- the slots of one sector, with the slots left
unfoldable pub load_slots : ℕ → List ℕ → List Entry → List Entry
load_slots zero bytes es = es
load_slots (suc slots) bytes es =
    let e = bytes_entry (take entry_size bytes) in
    load_slots slots (drop entry_size bytes)
      (if is_valid_entry e && ltb (length es) max_files then es ++ (e ∷ []) else es)

-- the bytes of the slot `idx`, and of a run of slots
unfoldable pub slot_bytes : List Entry → ℕ → List ℕ
slot_bytes es idx = elim (get_elem? es idx) [ none ↦ replicate 32 0 | some e ↦ entry_bytes e ]

unfoldable pub sector_bytes : List Entry → ℕ → ℕ → List ℕ
unfolding slot_bytes
sector_bytes es idx zero = []
sector_bytes es idx (suc slots) = slot_bytes es idx ++ sector_bytes es (idx + 1) slots

module _ (dev : BlockDevice) where
  open dev use {Disk, read, write}

  -- `i` is the catalog sector, with the sectors left
  unfoldable pub load_sectors : ℕ → ℕ → Fs Disk → Bool × Fs Disk
  load_sectors zero i fs = (true, fs)
  load_sectors (suc sectors) i fs = elim (read (catalog_start_sector + i) fs.disk) [
    | none ↦ (false, fs)
    | some bytes ↦
        load_sectors sectors (i + 1)
          (record fs { entries = load_slots entries_per_sector bytes fs.entries })
  ]

  -- true for the result 0
  unfoldable pub load_catalog : Fs Disk → Bool × Fs Disk
  unfolding load_sectors
  load_catalog fs = load_sectors catalog_sectors 0 (record fs { entries = [] })

  -- A failed write ends the loop.
  unfoldable pub flush_sectors : ℕ → ℕ → List Entry → Disk → Disk
  flush_sectors zero i es d = d
  flush_sectors (suc sectors) i es d =
      let (done, d') =
        write (catalog_start_sector + i)
          (sector_bytes es (i * entries_per_sector) entries_per_sector) d in
      let next = flush_sectors sectors (i + 1) es d' in if done then next else d'

  unfoldable pub fs_flush : Fs Disk → Fs Disk
  unfolding flush_sectors
  fs_flush fs = record fs { disk = flush_sectors catalog_sectors 0 fs.entries fs.disk }

  -- writes zeros to `count` sectors; false when a write fails
  unfoldable pub zero_sectors : ℕ → ℕ → Disk → Bool × Disk
  zero_sectors zero sector d = (true, d)
  zero_sectors (suc count) sector d =
      let (done, d') = write sector (replicate 512 0) d in
      let next = zero_sectors count (sector + 1) d' in if done then next else (false, d')

  -- the three steps of `fs_format`
  unfoldable pub fs_format : Fs Disk → Bool × Fs Disk
  fs_format fs =
      let (super_done, d1) =
        write fs_superblock_sector (superblock_bytes build_superblock) fs.disk in
      let (catalog_done, d2) = zero_sectors catalog_sectors catalog_start_sector d1 in
      let (data_done, d3) = zero_sectors data_sector_count data_start_sector d2 in
      if super_done
      then (if catalog_done
          then (if data_done
              then (true, record { entries = []; disk = d3 })
              else (false, record fs { disk = d3 }))
          else (false, record fs { disk = d2 }))
      else (false, record fs { disk = d1 })

  unfoldable pub fs_init : Fs Disk → Fs Disk
  fs_init fs = elim (read fs_superblock_sector fs.disk) [
    | none ↦ fs
    | some bytes ↦
        let (formatted, fs') = fs_format fs in
        if superblock_is_valid (bytes_superblock bytes)
        then (load_catalog fs).1
        else (if formatted then (load_catalog fs').1 else fs')
  ]
