-- ===== src/Ata/Sector.antt =====
-- drivers/ata/ata.c: a sector reads as what was last written to it, and a drive that does not answer.
use naw_os.Base.{ℕ, zero, suc, ◌+◌, ◌<◌, ◌≡◌, refl, true, false, List, leb, arith}
use naw_os.Base.Int.{pos, negsuc}
use naw_os.NawFs.Device.{disk_max_lba}
use naw_os.Ata.{
  Ports, is_busy, wait_busy, ata_primary_io, ata_cmd_read_pio, ata_wait, start, disk_read_sector,
  disk_write_sector,
}

in_range : (lba : ℕ) → lba < disk_max_lba → leb disk_max_lba lba ≡ false
in_range lba h = ground arith

infixl 5 ◌⟨<⟩◌
◌⟨<⟩◌ : {a b n : ℕ} → a ≡ b → b < n → a < n
e ⟨<⟩ h = omega (arith, e, h)

-- The drive answers every request for its status as busy.
abbrev pub IsStuck : Ports → Type 0
IsStuck p = (s : p.Machine) → is_busy (p.inb (ata_primary_io + 7) s).0 ≡ true

module _ (p : Ports) (stuck : IsStuck p) where
  open p use {Machine}

  wait_busy-stuck : (timeout : ℕ) (s : Machine) → (wait_busy p timeout s).0 ≡ false
  unfolding wait_busy
  wait_busy-stuck zero s = refl
  wait_busy-stuck (suc timeout) s =
      rw (stuck s, wait_busy) (wait_busy-stuck timeout (p.inb (ata_primary_io + 7) s).1)

  ata_wait-stuck : (s : Machine) → (ata_wait p s).0 ≡ negsuc 0
  unfolding ata_wait
  ata_wait-stuck s = rw (wait_busy-stuck 100000 s, ata_wait) refl

  -- On a drive that stays busy, reading a sector below 4096 ends with -2 and leaves the buffer, but
  -- writing one ends with 0, as if it had succeeded.
  pub disk_read_sector-stuck :
      (lba : ℕ) (buffer : List ℕ) (s : Machine)
      → lba < disk_max_lba
      → ((disk_read_sector p (pos lba) buffer s).0 ≡ negsuc 1)
        × ((disk_read_sector p (pos lba) buffer s).1 ≡ buffer)
        × ((disk_write_sector p (pos lba) buffer s).0 ≡ pos 0)
  unfolding disk_read_sector disk_write_sector
  disk_read_sector-stuck lba buffer s h =
      rw (in_range, disk_read_sector, disk_write_sector)
        (rw (ata_wait-stuck (start p lba ata_cmd_read_pio s), disk_read_sector) (refl, refl, refl))
    where
      in_range : leb disk_max_lba lba ≡ false
      in_range = ground arith
