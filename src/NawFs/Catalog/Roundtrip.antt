-- ===== src/NawFs/Catalog/Roundtrip.antt =====
-- fs/nawfs.c: a load of the catalog after a flush.
use naw_os.Base.{
  ℕ, zero, suc, ◌⊎◌, inl, inr, sym, tests, ◌+◌, ◌*◌, ◌≤◌, ◌<◌, ◌≡◌, ◌≢◌, ◌∙◌, refl, ap, some, List,
  [], ◌∷◌, ◌++◌, true, length, take, replicate, arith, All, length-append, take-append_at,
  drop-append_at, take_all, if◌then◌else◌, ltb, ◌&&◌, length-take, take-nil,
}
use native.Mathlib.Decide.{ℕ_discrete}
use naw_os.NawFs.Device.{BlockDevice, IsReliable}
use naw_os.NawFs.Format.{
  Entry, IsSized, entry_bytes, bytes_entry, is_valid_entry, max_files, catalog_start_sector,
}
use naw_os.NawFs.Format.Bytes.{length-entry_bytes, bytes_entry-entry_bytes, zeros-not_valid}
use naw_os.NawFs.Catalog.{
  Fs, flush_sectors, fs_flush, load_sectors, load_catalog, load_slots, slot_bytes, sector_bytes,
}

-- An entry that the catalog may hold.
pub record IsGood (e : Entry) : Type 0 where
  pub sized : IsSized e
  pub valid : is_valid_entry e ≡ true

length-slot_bytes : (es : List Entry) (idx : ℕ) → All IsGood es → length (slot_bytes es idx) ≡ 32
unfolding slot_bytes
length-slot_bytes [] idx h = refl
length-slot_bytes (e ∷ es) zero h = length-entry_bytes e h.0.sized
length-slot_bytes (e ∷ es) (suc idx) h = length-slot_bytes es idx h.1

pub length-sector_bytes :
    (es : List Entry) (idx slots : ℕ)
    → All IsGood es
    → length (sector_bytes es idx slots) ≡ slots * 32
unfolding sector_bytes
length-sector_bytes es idx zero h = refl
length-sector_bytes es idx (suc slots) h = omega (
  arith,
  length-append (slot_bytes es idx) (sector_bytes es (idx + 1) slots),
  length-slot_bytes es idx h,
  length-sector_bytes es (idx + 1) slots h,
)

-- What the loop keeps of one slot: the entry there, if the list goes so far.
abbrev kept : List Entry → List ℕ → List Entry
kept acc bytes =
    if is_valid_entry (bytes_entry bytes) && ltb (length acc) max_files
    then acc ++ (bytes_entry bytes ∷ [])
    else acc

slot_cases :
    (es : List Entry) (idx : ℕ)
    → All IsGood es
    → ((e : Entry) × IsGood e
        × (slot_bytes es idx ≡ entry_bytes e)
        × (take (idx + 1) es ≡ take idx es ++ (e ∷ []))
        × (idx < length es))
      ⊎ ((slot_bytes es idx ≡ replicate 32 0) × (take (idx + 1) es ≡ take idx es))
unfolding slot_bytes
slot_cases [] zero h = inr (refl, refl)
slot_cases [] (suc idx) h = inr (refl, take-nil Entry (suc idx + 1))
slot_cases (x ∷ es) zero h = inl (x, h.0, refl, refl, omega arith)
slot_cases (x ∷ es) (suc idx) h = elim (slot_cases es idx h.1) [
  | inl (e, g, b, t, lt) ↦ inl (e, g, b, take_suc ∙ ap (λ l. x ∷ l) t, omega arith)
  | inr (b, t) ↦ inr (b, take_suc ∙ ap (λ l. x ∷ l) t)
]
  where
    take_suc : take (suc idx + 1) (x ∷ es) ≡ x ∷ take (idx + 1) es
    take_suc = ap (λ k. take k (x ∷ es)) {y = suc (idx + 1)} (omega arith)

kept_next :
    (es : List Entry) (idx : ℕ)
    → All IsGood es
    → length es ≤ max_files
    → kept (take idx es) (slot_bytes es idx) ≡ take (idx + 1) es
kept_next es idx h small = elim (slot_cases es idx h) [
  | inl (e, g, b, t, lt) ↦ rw (b, bytes_entry-entry_bytes e g.sized, g.valid, room lt) (sym t)
  | inr (b, t) ↦ rw (b, zeros-not_valid) (sym t)
]
  where
    room : idx < length es → ltb (length (take idx es)) max_files ≡ true
    room lt = omega (tests, length-take idx es)

-- Loading the bytes of a run of slots extends the first `idx` entries by those of the run.
load_slots-sector_bytes :
    (slots idx : ℕ) (es : List Entry)
    → All IsGood es
    → length es ≤ max_files
    → load_slots slots (sector_bytes es idx slots) (take idx es) ≡ take (idx + slots) es
unfolding load_slots sector_bytes
load_slots-sector_bytes zero idx es h small = ap (λ k. take k es) (omega arith)
load_slots-sector_bytes (suc slots) idx es h small =
    rw
      (
        take-append_at 32 (slot_bytes es idx) (sector_bytes es (idx + 1) slots)
            (length-slot_bytes es idx h),
        drop-append_at 32 0 (slot_bytes es idx) (sector_bytes es (idx + 1) slots)
            (length-slot_bytes es idx h),
      )
      (ap (load_slots slots (sector_bytes es (idx + 1) slots)) (kept_next es idx h small)
        ∙ load_slots-sector_bytes slots (idx + 1) es h small
        ∙ ap (λ k. take k es) (omega arith))

module _ (dev : BlockDevice) (r : IsReliable dev) where
  open dev use {Disk, read, write}

  -- A flush leaves the sectors outside the catalog alone.
  flush_sectors-other :
      (sectors i : ℕ) (es : List Entry) (d : Disk) (k : ℕ)
      → ((j : ℕ) → i ≤ j → j < i + sectors → catalog_start_sector + j ≢ k)
      → read k (flush_sectors dev sectors i es d) ≡ read k d
  unfolding flush_sectors
  flush_sectors-other zero i es d k h = refl
  flush_sectors-other (suc sectors) i es d k h =
      let bytes = sector_bytes es (i * 16) 16 in
      ground (
        arith,
        flush_sectors-other sectors (i + 1) es (write (catalog_start_sector + i) bytes d).1 k
            (λ j a b. h j (omega arith) (omega arith)),
        r.read-write_ne (catalog_start_sector + i) k bytes d (h i (omega arith) (omega arith)),
      )

  -- A flush writes every sector of its run.
  flush_sectors-sector :
      (sectors i : ℕ) (es : List Entry) (d : Disk) (j : ℕ)
      → All IsGood es
      → i ≤ j
      → j < i + sectors
      → i + sectors ≤ 9
      → read (catalog_start_sector + j) (flush_sectors dev sectors i es d)
        ≡ some (sector_bytes es (j * 16) 16)
  unfolding flush_sectors
  flush_sectors-sector zero i es d j g lo hi small = absurd (omega arith)
  flush_sectors-sector (suc sectors) i es d j g lo hi small =
      rw (r.write_ok (catalog_start_sector + i) (sector_bytes es (i * 16) 16) d (omega arith))
        (elim (ℕ_discrete i j) [
          | yes e ↦ rw (← e) (
              flush_sectors-other sectors (i + 1) es d' (catalog_start_sector + i)
                (λ k a b. omega arith)
              ∙ r.read-write_self (catalog_start_sector + i) (sector_bytes es (i * 16) 16) d
                  (omega arith) (length-sector_bytes es (i * 16) 16 g))
          | no ne ↦
              flush_sectors-sector sectors (i + 1) es d' j g (omega arith) (omega arith)
                (omega arith)
        ])
    where
      d' : Disk
      d' = (write (catalog_start_sector + i) (sector_bytes es (i * 16) 16) d).1

  -- Reading the sectors that hold a catalog extends its first entries by the rest.
  pub load_sectors-of_disk :
      (sectors i : ℕ) (es : List Entry) (fs : Fs Disk)
      → All IsGood es
      → length es ≤ max_files
      → ((j : ℕ)
          → i ≤ j
          → j < i + sectors
          → read (catalog_start_sector + j) fs.disk ≡ some (sector_bytes es (j * 16) 16))
      → fs.entries ≡ take (i * 16) es
      → load_sectors dev sectors i fs ≡ (true, record fs { entries = take ((i + sectors) * 16) es })
  unfolding load_sectors
  load_sectors-of_disk zero i es fs g small h e =
      ap (λ (l : List Entry). (true, record fs { entries = l }))
        (e ∙ ap (λ k. take k es) (omega arith))
  load_sectors-of_disk (suc sectors) i es fs g small h e =
      rw (h i (omega arith) (omega arith), load_sectors)
        (load_sectors-of_disk sectors (i + 1) es
            (record fs { entries = load_slots 16 (sector_bytes es (i * 16) 16) fs.entries }) g small
            (λ j a b. h j (omega arith) (omega arith))
            (ap (load_slots 16 (sector_bytes es (i * 16) 16)) e
              ∙ load_slots-sector_bytes 16 (i * 16) es g small
              ∙ ap (λ k. take k es) (omega arith))
          ∙ ap (λ k. (true, record fs { entries = take k es })) (omega arith))

  -- A flush leaves the superblock and the data sectors alone.
  pub read-fs_flush :
      (fs : Fs Disk) (k : ℕ)
      → (k < catalog_start_sector) ⊎ (catalog_start_sector + 9 ≤ k)
      → read k (fs_flush dev fs).disk ≡ read k fs.disk
  unfolding fs_flush
  read-fs_flush fs k h = flush_sectors-other 9 0 fs.entries fs.disk k (λ j a b. omega arith)

  -- On a reliable disk, a catalog of at most 64 valid entries that is flushed is loaded back as it was,
  -- whatever the memory held before.
  pub load_catalog-fs_flush :
      (fs : Fs Disk) (memory : List Entry)
      → All IsGood fs.entries
      → length fs.entries ≤ max_files
      → load_catalog dev (record { entries = memory; disk = (fs_flush dev fs).disk })
        ≡ (true, fs_flush dev fs)
  unfolding load_catalog fs_flush
  load_catalog-fs_flush fs memory g small =
      load_sectors-of_disk 9 0 fs.entries
        (record { entries = []; disk = flush_sectors dev 9 0 fs.entries fs.disk }) g small
        (λ j a b. flush_sectors-sector 9 0 fs.entries fs.disk j g (omega arith) b (omega arith))
        refl
      ∙ ap
          (λ (l : List Entry).
            (true, record { entries = l; disk = flush_sectors dev 9 0 fs.entries fs.disk }))
          (take_all 144 fs.entries (omega arith))
