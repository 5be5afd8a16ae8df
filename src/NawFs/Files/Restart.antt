-- ===== src/NawFs/Files/Restart.antt =====
-- What `fs_init` finds after each operation.
use naw_os.Base.{ℕ, ◌≡◌, ◌≢◌, ◌∙◌, refl, ap, List, Bool, inl, inr, replicate, arith}
use naw_os.NawFs.Device.{BlockDevice, IsReliable}
use naw_os.NawFs.Format.{Entry, fs_superblock_sector}
use naw_os.NawFs.Catalog.{Fs, fs_flush, fs_init}
use naw_os.NawFs.Catalog.Roundtrip.{read-fs_flush, load_catalog-fs_flush}
use naw_os.NawFs.Catalog.Startup.{IsFormatted, fs_init-formatted}
use naw_os.NawFs.Catalog.Search.{Found, find_free_sector-unused}
use naw_os.NawFs.Files.{file_sector, fs_create, fs_write, fs_delete}
use naw_os.NawFs.Files.Valid.{IsValid}
use naw_os.NawFs.Files.Cases.{
  sector-ge, IsGood-Found, written, deleted, created, fs_write-cases, fs_delete-cases,
  fs_create-cases,
}
use naw_os.NawFs.Files.Keep.{written-IsValid, deleted-IsValid, created-IsValid}

module _ (dev : BlockDevice) (r : IsReliable dev) where
  open dev use {Disk, read, write}

  -- A restart on the disk of this state, with anything in memory, gives this state.
  abbrev pub IsSaved : Fs Disk → Type 0
  IsSaved fs =
      (memory : List Entry) → fs_init dev (record { entries = memory; disk = fs.disk }) ≡ fs

  -- A flush of a valid catalog saves it, if it and the write before it leave the superblock.
  fs_flush-IsSaved :
      (g : Fs Disk) (d : Disk) (s : ℕ) (b : List ℕ)
      → IsValid g
      → g.disk ≡ (write s b d).1
      → s ≢ fs_superblock_sector
      → IsFormatted dev d
      → IsSaved (fs_flush dev g) × IsFormatted dev (fs_flush dev g).disk
  fs_flush-IsSaved g d s b v e ne (super, p, q) = (saved, still)
    where
      still : IsFormatted dev (fs_flush dev g).disk
      still = (
        super,
        read-fs_flush dev r g 129 (inl (omega arith))
            ∙ ap (read 129) e
            ∙ r.read-write_ne s 129 b d ne
            ∙ p,
        q,
      )

      saved :
          (memory : List Entry)
          → fs_init dev (record { entries = memory; disk = (fs_flush dev g).disk }) ≡ fs_flush dev g
      saved memory =
          fs_init-formatted dev (record { entries = memory; disk = (fs_flush dev g).disk }) still
          ∙ ap (λ (x : Bool × Fs Disk). x.1) (load_catalog-fs_flush dev r g memory v.good v.small)

  sector-Found :
      (fs : Fs Disk) {name ext : List ℕ} {k : ℕ} (f : Found fs.entries name ext k)
      → IsValid fs
      → f.entry.sector ≢ fs_superblock_sector
  sector-Found fs f v p = omega (arith, sector-ge f.entry (IsGood-Found f v.good).0.valid)

  -- On a reliable formatted disk and a valid catalog (valid entries, at most 64, no two with one sector
  -- or one name and extension), if starting again from the disk gives the catalog in memory, then so it
  -- does after a file is created, and the disk is still formatted.
  pub fs_create-IsSaved :
      (name ext : List ℕ) (fs : Fs Disk)
      → IsValid fs
      → IsFormatted dev fs.disk
      → IsSaved fs
      → IsSaved (fs_create dev name ext fs).1 × IsFormatted dev (fs_create dev name ext fs).1.disk
  fs_create-IsSaved name ext fs v form saved = elim (fs_create-cases dev r name ext fs) [
    | inl (_, e) ↦ rw e (saved, form)
    | inr (s, free, room, n, x, fresh, e) ↦ rw e (
        fs_flush-IsSaved (created dev r name ext s fs) fs.disk s (replicate 512 0)
          (created-IsValid dev r name ext s fs free room n fresh v) refl
          (λ p. omega (arith, find_free_sector-unused fs.entries s free)) form)
  ]

  -- On a reliable formatted disk and a valid catalog (valid entries, at most 64, no two with one sector
  -- or one name and extension), if starting again from the disk gives the catalog in memory, then so it
  -- does after a write, and the disk is still formatted.
  pub fs_write-IsSaved :
      (name ext content : List ℕ) (fs : Fs Disk)
      → IsValid fs
      → IsFormatted dev fs.disk
      → IsSaved fs
      → IsSaved (fs_write dev name ext content fs).1
        × IsFormatted dev (fs_write dev name ext content fs).1.disk
  fs_write-IsSaved name ext content fs v form saved =
      elim (fs_write-cases dev r name ext content fs v.good) [
        | inl (_, e) ↦ rw e (saved, form)
        | inr (k, f, e) ↦ rw e (
            fs_flush-IsSaved (written dev r f content fs.disk) fs.disk f.entry.sector
              (file_sector content) (written-IsValid dev r fs f content v) refl
              (sector-Found fs f v) form)
      ]

  -- On a reliable formatted disk and a valid catalog (valid entries, at most 64, no two with one sector
  -- or one name and extension), if starting again from the disk gives the catalog in memory, then so it
  -- does after a file is deleted, and the disk is still formatted.
  pub fs_delete-IsSaved :
      (name ext : List ℕ) (fs : Fs Disk)
      → IsValid fs
      → IsFormatted dev fs.disk
      → IsSaved fs
      → IsSaved (fs_delete dev name ext fs).1 × IsFormatted dev (fs_delete dev name ext fs).1.disk
  fs_delete-IsSaved name ext fs v form saved = elim (fs_delete-cases dev r name ext fs) [
    | inl (_, e) ↦ rw e (saved, form)
    | inr (k, f, e) ↦ rw e (
        fs_flush-IsSaved (deleted dev r f fs.disk) fs.disk f.entry.sector (replicate 512 0)
          (deleted-IsValid dev r fs f v) refl (sector-Found fs f v) form)
  ]
