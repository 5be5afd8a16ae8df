-- ===== src/NawFs/Catalog/Startup.antt =====
-- `fs_format`, and `fs_init` on a disk that is formatted and on one that is not.
use native.Mathlib.Decide.{ℕ_discrete}
use naw_os.Base.{
  ℕ, zero, suc, ◌+◌, ◌*◌, ◌≤◌, ◌<◌, ◌≡◌, ◌⊎◌, inl, ◌∙◌, refl, ap, some, List, [], Bool, true, false,
  length, replicate, arith,
}
use naw_os.NawFs.Device.{BlockDevice, IsReliable}
use naw_os.NawFs.Format.{
  Entry, build_superblock, superblock_is_valid, superblock_bytes, bytes_superblock,
  fs_superblock_sector,
}
use naw_os.NawFs.Catalog.{Fs, sector_bytes, zero_sectors, load_catalog, fs_format, fs_init}
use naw_os.NawFs.Catalog.Roundtrip.{load_sectors-of_disk}

-- What is read back of the superblock that `fs_format` writes passes the test of `fs_init`.
pub build_superblock-is_valid :
    superblock_is_valid (bytes_superblock (superblock_bytes build_superblock)) ≡ true
unfolding superblock_is_valid bytes_superblock superblock_bytes build_superblock
build_superblock-is_valid = refl

length-superblock : length (superblock_bytes build_superblock) ≡ 512
unfolding superblock_bytes build_superblock
length-superblock = refl

zeros-sector_bytes : (idx : ℕ) → replicate 512 0 ≡ sector_bytes [] idx 16
unfolding sector_bytes
zeros-sector_bytes idx = refl

module _ (dev : BlockDevice) where
  open dev use {Disk, read, write}

  -- The superblock on the disk is readable and valid.
  abbrev pub IsFormatted : Disk → Type 0
  IsFormatted d =
      (b : List ℕ) × (read fs_superblock_sector d ≡ some b)
      × (superblock_is_valid (bytes_superblock b) ≡ true)

  -- On a formatted disk `fs_init` loads the catalog and writes nothing.
  pub fs_init-formatted :
      (fs : Fs Disk) → IsFormatted fs.disk → fs_init dev fs ≡ (load_catalog dev fs).1
  unfolding fs_init
  fs_init-formatted fs (b, e, v) = ground (arith, e, v)

module _ (dev : BlockDevice) (r : IsReliable dev) where
  open dev use {Disk, read, write}

  zero_sectors-ok :
      (count s : ℕ) (d : Disk) → s + count ≤ 4096 → (zero_sectors dev count s d).0 ≡ true
  unfolding zero_sectors
  zero_sectors-ok zero s d h = refl
  zero_sectors-ok (suc count) s d h =
      rw (r.write_ok s (replicate 512 0) d (omega arith))
        (zero_sectors-ok count (s + 1) (write s (replicate 512 0) d).1 (omega arith))

  zero_sectors-other :
      (count s : ℕ) (d : Disk) (k : ℕ)
      → (k < s) ⊎ (s + count ≤ k)
      → read k (zero_sectors dev count s d).1 ≡ read k d
  unfolding zero_sectors
  zero_sectors-other zero s d k h = refl
  zero_sectors-other (suc count) s d k h = ground (
    arith,
    zero_sectors-other count (s + 1) (write s (replicate 512 0) d).1 k (omega arith),
    r.read-write_ne s k (replicate 512 0) d (omega arith),
  )

  zero_sectors-zeros :
      (count s : ℕ) (d : Disk) (k : ℕ)
      → s + count ≤ 4096
      → s ≤ k
      → k < s + count
      → read k (zero_sectors dev count s d).1 ≡ some (replicate 512 0)
  unfolding zero_sectors
  zero_sectors-zeros zero s d k h lo hi = absurd (omega arith)
  zero_sectors-zeros (suc count) s d k h lo hi =
      rw (r.write_ok s (replicate 512 0) d (omega arith)) (elim (ℕ_discrete s k) [
        | yes e ↦ rw (← e) (
            zero_sectors-other count (s + 1) (write s (replicate 512 0) d).1 s (inl (omega arith))
            ∙ r.read-write_self s (replicate 512 0) d (omega arith) refl)
        | no ne ↦
            zero_sectors-zeros count (s + 1) (write s (replicate 512 0) d).1 k (omega arith)
              (omega arith) (omega arith)
      ])

  -- the disk after `fs_format`
  formatted : Disk → Disk
  formatted d =
      (zero_sectors dev 64 139
        (zero_sectors dev 9 130 (write 129 (superblock_bytes build_superblock) d).1).1).1

  fs_format_lem :
      (fs : Fs Disk) → fs_format dev fs ≡ (true, record { entries = []; disk = formatted fs.disk })
  unfolding fs_format formatted
  fs_format_lem fs =
      let d1 = (write 129 (superblock_bytes build_superblock) fs.disk).1 in
      let d2 = (zero_sectors dev 9 130 d1).1 in
      ground (
        arith,
        r.write_ok 129 (superblock_bytes build_superblock) fs.disk (omega arith),
        zero_sectors-ok 9 130 d1 (omega arith),
        zero_sectors-ok 64 139 d2 (omega arith),
      )

  formatted-IsFormatted : (d : Disk) → IsFormatted dev (formatted d)
  unfolding formatted
  formatted-IsFormatted d =
      let d1 = (write 129 (superblock_bytes build_superblock) d).1 in
      (
        superblock_bytes build_superblock,
        zero_sectors-other 64 139 (zero_sectors dev 9 130 d1).1 129 (inl (omega arith))
            ∙ zero_sectors-other 9 130 d1 129 (inl (omega arith))
            ∙ r.read-write_self 129 (superblock_bytes build_superblock) d (omega arith)
                length-superblock,
        build_superblock-is_valid,
      )

  load_catalog-formatted :
      (es : List Entry) (d : Disk)
      → load_catalog dev (record { entries = es; disk = formatted d })
        ≡ (true, record { entries = []; disk = formatted d })
  unfolding load_catalog formatted
  load_catalog-formatted es d =
      load_sectors-of_disk dev r 9 0 [] (record { entries = []; disk = formatted d }) tt
        (omega arith)
        (λ j lo hi.
          zero_sectors-other 64 139 (zero_sectors dev 9 130 d1).1 (130 + j) (inl (omega arith))
          ∙ zero_sectors-zeros 9 130 d1 (130 + j) (omega arith) (omega arith) (omega arith)
          ∙ ap some (zeros-sector_bytes (j * 16)))
        refl
    where
      d1 : Disk
      d1 = (write 129 (superblock_bytes build_superblock) d).1

  fs_init-formats :
      (fs : Fs Disk) (b : List ℕ)
      → read fs_superblock_sector fs.disk ≡ some b
      → superblock_is_valid (bytes_superblock b) ≡ false
      → fs_init dev fs ≡ record { entries = []; disk = formatted fs.disk }
  unfolding fs_init
  fs_init-formats fs b e v = rw (e, v, fs_format_lem fs, load_catalog-formatted [] fs.disk, fs_init)

  -- On a reliable disk whose superblock reads but is not valid, starting formats the disk, leaves no
  -- file, and starting again from that disk gives the same state, whatever the memory holds.
  pub fs_init-unformatted :
      (fs : Fs Disk) (b : List ℕ) (memory : List Entry)
      → read fs_superblock_sector fs.disk ≡ some b
      → superblock_is_valid (bytes_superblock b) ≡ false
      → ((fs_init dev fs).entries ≡ [])
        × IsFormatted dev (fs_init dev fs).disk
        × (fs_init dev (record { entries = memory; disk = (fs_init dev fs).disk }) ≡ fs_init dev fs)
  fs_init-unformatted fs b memory e v = (
    ap (λ (x : Fs Disk). x.entries) once,
    rw once (formatted-IsFormatted fs.disk),
    rw once (
        fs_init-formatted dev (record { entries = memory; disk = formatted fs.disk })
          (formatted-IsFormatted fs.disk)
        ∙ ap (λ (x : Bool × Fs Disk). x.1) (load_catalog-formatted memory fs.disk)),
  )
    where
      once : fs_init dev fs ≡ record { entries = []; disk = formatted fs.disk }
      once = fs_init-formats fs b e v
