-- ===== src/NawFs/Device.antt =====
-- What fs/nawfs.c asks of drivers/ata/ata.c: `disk_read_sector` and `disk_write_sector`. The
-- operations of the file system take the driver as a parameter, and their theorems its laws.
use naw_os.Base.{
  ℕ, ◌<◌, ◌≡◌, ◌≢◌, Bool, true, Option, some, List, length, if◌then◌else◌, ◌==◌, arith, refl,
}

pub record BlockDevice : Type 1 where
  pub Disk : Type 0
  -- the 512 bytes of a sector; `none` for a result other than 0
  pub read : ℕ → Disk → Option (List ℕ)
  -- whether the result is 0, and the disk after the call
  pub write : ℕ → List ℕ → Disk → Bool × Disk

-- DISK_MAX_LBA
abbrev pub disk_max_lba : ℕ
disk_max_lba = 4096

-- A drive that answers in time: a sector below DISK_MAX_LBA reads as what was last written to it.
pub record IsReliable (dev : BlockDevice) : Type 0 where
  pub write_ok :
      (lba : ℕ) (b : List ℕ) (d : dev.Disk) → lba < disk_max_lba → (dev.write lba b d).0 ≡ true
  pub read-write_self :
      (lba : ℕ) (b : List ℕ) (d : dev.Disk)
      → lba < disk_max_lba
      → length b ≡ 512
      → dev.read lba (dev.write lba b d).1 ≡ some b
  pub read-write_ne :
      (lba k : ℕ) (b : List ℕ) (d : dev.Disk)
      → lba ≢ k
      → dev.read k (dev.write lba b d).1 ≡ dev.read k d

-- A disk as a function from sectors to bytes, which keeps the laws.
abbrev pub ram_disk : BlockDevice
ram_disk = record {
  Disk = ℕ → List ℕ;
  read = λ lba d. some (d lba);
  write = λ lba b d. (true, λ k. if lba == k then b else d k);
}

pub ram_disk-IsReliable : IsReliable ram_disk
ram_disk-IsReliable = record {
  write_ok = λ lba b d h. refl;
  read-write_self = λ lba b d h l. ground arith;
  read-write_ne = λ lba k b d h. ground arith;
}
