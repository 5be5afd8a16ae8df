-- ===== src/Ata.antt =====
-- drivers/ata/ata.c: reading and writing a sector. The ports of the machine are a parameter.
pub mod Drive
mod Wait
mod Words
pub mod Sector
mod Tests
use naw_os.Base.{
  ℕ, zero, suc, ◌+◌, ◌-◌, ◌*◌, ◌/◌, ◌%◌, ◌^◌, Bool, true, false, Option, none, some, List, [], ◌∷◌,
  ltb, leb, ◌==◌, if◌then◌else◌, u8, u16,
}
use naw_os.NawFs.Device.{disk_max_lba}
use naw_os.Base.Int.{ℤ, pos, negsuc, is_zero}

-- drivers/ports: input and output of bytes and words at a port
pub record Ports : Type 1 where
  pub Machine : Type 0
  pub inb : ℕ → Machine → ℕ × Machine
  pub outb : ℕ → ℕ → Machine → Machine
  pub inw : ℕ → Machine → ℕ × Machine
  pub outw : ℕ → ℕ → Machine → Machine

abbrev pub ata_primary_io : ℕ
ata_primary_io = 496

abbrev pub ata_cmd_read_pio : ℕ
ata_cmd_read_pio = 32

abbrev pub ata_cmd_write_pio : ℕ
ata_cmd_write_pio = 48

-- the bits of the status
abbrev pub is_busy : ℕ → Bool
is_busy status = status / 128 % 2 == 1

abbrev pub has_data : ℕ → Bool
has_data status = status / 8 % 2 == 1

abbrev pub has_error : ℕ → Bool
has_error status = status % 2 == 1

module _ (p : Ports) where
  open p use {Machine, inb, outb, inw, outw}

  -- the first loop of `ata_wait`: whether `timeout` is positive behind it
  unfoldable pub wait_busy : ℕ → Machine → Bool × Machine
  wait_busy zero s = (false, s)
  wait_busy (suc timeout) s =
      let (status, s') = inb (ata_primary_io + 7) s in
      elim (is_busy status) [ true ↦ wait_busy timeout s' | false ↦ (true, s') ]

  -- the second loop: the status behind it, `none` when `timeout` is used up
  unfoldable pub wait_data : ℕ → Machine → Option ℕ × Machine
  wait_data zero s = (none, s)
  wait_data (suc timeout) s =
      let (status, s') = inb (ata_primary_io + 7) s in
      elim (has_data status) [ true ↦ (some status, s') | false ↦ wait_data timeout s' ]

  unfoldable pub ata_wait : Machine → ℤ × Machine
  unfolding wait_busy wait_data
  ata_wait s =
      let (answered, s1) = wait_busy 100000 s in
      elim answered [
        | false ↦ (negsuc 0, s1)
        | true ↦
            let (ready, s2) = wait_data 100000 s1 in
            elim ready [
              | none ↦ (negsuc 1, s2)
              | some status ↦ (if has_error status then negsuc 2 else pos 0, s2)
            ]
      ]

  -- the six calls of `outb` that start a command on one sector
  unfoldable pub command : ℕ → ℕ → ℕ → ℕ → ℕ → Machine → Machine
  command drive low middle high code s = outb (ata_primary_io + 7) code (
      outb (ata_primary_io + 5) high (
        outb (ata_primary_io + 4) middle (
          outb (ata_primary_io + 3) low
            (outb (ata_primary_io + 2) 1 (outb (ata_primary_io + 6) drive s)))))

  -- the registers for a sector
  unfoldable pub start : ℕ → ℕ → Machine → Machine
  unfolding command
  start lba code s =
      command (224 + lba / 16777216 % 16) (u8 lba) (u8 (lba / 256)) (u8 (lba / 65536)) code s

  -- the loop of `disk_read_sector`, with the rounds left, on the rest of the buffer
  unfoldable pub read_words : ℕ → List ℕ → Machine → List ℕ × Machine
  read_words zero buffer s = (buffer, s)
  read_words (suc rounds) [] s = ([], s)
  read_words (suc rounds) (x ∷ []) s = (x ∷ [], s)
  read_words (suc rounds) (x ∷ y ∷ buffer) s =
      let (word, s1) = inw ata_primary_io s in
      let (bytes, s2) = read_words rounds buffer s1 in (word % 256 ∷ word / 256 % 256 ∷ bytes, s2)

  -- the loop of `disk_write_sector`
  unfoldable pub write_words : ℕ → List ℕ → Machine → Machine
  write_words zero buffer s = s
  write_words (suc rounds) [] s = s
  write_words (suc rounds) (x ∷ []) s = s
  write_words (suc rounds) (x ∷ y ∷ buffer) s =
      write_words rounds buffer (outw ata_primary_io (u16 (y * 256 + x)) s)

  -- the result, the buffer and the machine afterwards
  unfoldable pub disk_read_sector : ℤ → List ℕ → Machine → ℤ × List ℕ × Machine
  unfolding ata_wait start read_words
  disk_read_sector (negsuc n) buffer s = (negsuc 0, buffer, s)
  disk_read_sector (pos lba) buffer s =
      let w = ata_wait (start lba ata_cmd_read_pio s) in
      let r = read_words 256 buffer w.1 in
      if leb disk_max_lba lba
      then (negsuc 0, buffer, s)
      else (if is_zero w.0 then (pos 0, r.0, r.1) else (negsuc 1, buffer, w.1))

  -- what the calls of `ata_wait` return is not looked at
  unfoldable pub disk_write_sector : ℤ → List ℕ → Machine → ℤ × Machine
  unfolding ata_wait start write_words
  disk_write_sector (negsuc n) buffer s = (negsuc 0, s)
  disk_write_sector (pos lba) buffer s =
      let written = write_words 256 buffer (ata_wait (start lba ata_cmd_write_pio s)).1 in
      if leb disk_max_lba lba
      then (negsuc 0, s)
      else (pos 0, (ata_wait (outb (ata_primary_io + 7) 231 written)).1)
