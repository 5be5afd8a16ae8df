-- ===== src/Ata/Drive.antt =====
-- What drivers/ata/ata.c asks of the drive behind the ports: transfers of one sector by LBA, in the
-- words of the ATA standard. Numbers of ports, commands and bits are those of the standard.
use naw_os.Base.{
  ℕ, zero, suc, ◌+◌, ◌-◌, ◌*◌, ◌/◌, ◌%◌, ◌^◌, ◌<◌, ◌≡◌, Bool, true, false, ◌&&◌, List, [], ◌∷◌,
  ◌++◌, ltb, ◌==◌, if◌then◌else◌, length, IsByte,
}
use naw_os.Ata.{Ports}

abbrev pub bit : ℕ → ℕ → Bool
bit k status = status / 2 ^ k % 2 == 1

-- the words that are still to be read; or the sector of a write, the words that are still missing
-- after the next one, and those that have come
pub data Phase : Type 0 where
  idle : Phase
  sending : List ℕ → Phase
  receiving : ℕ → ℕ → List ℕ → Phase

-- The drive as the standard describes it. `busy` is the number of reads of the status that still see
-- BSY, and `late` that of those that see neither BSY nor DRQ after that.
pub record View : Type 0 where
  pub count : ℕ
  pub low : ℕ
  pub middle : ℕ
  pub high : ℕ
  pub device : ℕ
  pub busy : ℕ
  pub late : ℕ
  pub phase : Phase
  pub content : ℕ → List ℕ

-- the sector that the registers name
abbrev pub address : View → ℕ
address v = v.low + v.middle * 256 + v.high * 65536 + v.device % 16 * 16777216

-- The drive waits for a command.
pub record IsIdle (v : View) : Type 0 where
  pub calm : v.busy ≡ 0
  pub free : v.phase ≡ idle

-- A sector has 512 bytes.
abbrev pub HasSectors : View → Type 0
HasSectors v = (k : ℕ) → length (v.content k) ≡ 256

-- The drive has a word, or waits for one.
pub record IsReady (v : View) : Type 0 where
  pub calm : v.busy ≡ 0
  pub prompt : v.late ≡ 0

abbrev pub requests : Phase → Bool
requests idle = false
requests (sending words) = true
requests (receiving sector missing words) = true

-- what a read of the status changes
abbrev pub polled : View → View
polled v = record v { busy = v.busy - 1; late = if v.busy == 0 then v.late - 1 else v.late }

abbrev pub after_word : List ℕ → Phase
after_word [] = idle
after_word (w ∷ words) = sending (w ∷ words)

abbrev pub put_sector : ℕ → List ℕ → (ℕ → List ℕ) → ℕ → List ℕ
put_sector sector words content k = if sector == k then words else content k

-- the drive after a word of a write: the last one completes the sector
abbrev pub accepted : ℕ → ℕ → List ℕ → ℕ → View → View
accepted sector zero words w v = record v {
  phase = idle;
  content = put_sector sector (words ++ (w ∷ [])) v.content;
}
accepted sector (suc missing) words w v = record v {
  phase = receiving sector missing (words ++ (w ∷ []));
}

-- A drive that obeys the standard, finds no error and is in time: a
-- command makes it busy for fewer than 100000 reads of the status, and late for as few. Commands and
-- registers are only said to work while the drive waits for a command, a transfer of data only while
-- BSY is clear and DRQ set, and the commands to read and to write only for a count of one sector.
pub record IsDrive (p : Ports) : Type 0 where
  pub view : p.Machine → View
  pub busy_for : p.Machine → ℕ
  pub late_for : p.Machine → ℕ
  pub busy_in_time : (s : p.Machine) → busy_for s < 100000
  pub late_in_time : (s : p.Machine) → late_for s < 100000
  -- the status, at port 0x1F7
  pub status_busy : (s : p.Machine) → bit 7 (p.inb 503 s).0 ≡ ltb 0 (view s).busy
  pub status_request :
      (s : p.Machine)
      → (view s).busy ≡ 0
      → bit 3 (p.inb 503 s).0 ≡ (((view s).late == 0) && requests (view s).phase)
  pub status_error : (s : p.Machine) → (view s).busy ≡ 0 → bit 0 (p.inb 503 s).0 ≡ false
  pub status_polled : (s : p.Machine) → view (p.inb 503 s).1 ≡ polled (view s)
  -- the registers
  pub set_count :
      (n : ℕ) (s : p.Machine)
      → IsIdle (view s)
      → IsByte n
      → view (p.outb 498 n s) ≡ record (view s) { count = n }
  pub set_low :
      (n : ℕ) (s : p.Machine)
      → IsIdle (view s)
      → IsByte n
      → view (p.outb 499 n s) ≡ record (view s) { low = n }
  pub set_middle :
      (n : ℕ) (s : p.Machine)
      → IsIdle (view s)
      → IsByte n
      → view (p.outb 500 n s) ≡ record (view s) { middle = n }
  pub set_high :
      (n : ℕ) (s : p.Machine)
      → IsIdle (view s)
      → IsByte n
      → view (p.outb 501 n s) ≡ record (view s) { high = n }
  pub set_device :
      (n : ℕ) (s : p.Machine)
      → IsIdle (view s)
      → IsByte n
      → view (p.outb 502 n s) ≡ record (view s) { device = n }
  -- READ SECTORS, WRITE SECTORS and FLUSH CACHE, on the first drive with LBA addressing
  pub read_sectors :
      (s : p.Machine)
      → IsIdle (view s)
      → (view s).count ≡ 1
      → (view s).device / 16 ≡ 14
      → view (p.outb 503 32 s) ≡ record (view s) {
        busy = busy_for s;
        late = late_for s;
        phase = sending ((view s).content (address (view s)));
      }
  pub write_sectors :
      (s : p.Machine)
      → IsIdle (view s)
      → (view s).count ≡ 1
      → (view s).device / 16 ≡ 14
      → view (p.outb 503 48 s) ≡ record (view s) {
        busy = busy_for s;
        late = late_for s;
        phase = receiving (address (view s)) 255 [];
      }
  pub flush_cache :
      (s : p.Machine)
      → IsIdle (view s)
      → view (p.outb 503 231 s) ≡ record (view s) { busy = busy_for s; late = late_for s }
  -- the data, at port 0x1F0
  pub send_word :
      (w : ℕ) (words : List ℕ) (s : p.Machine)
      → IsReady (view s)
      → (view s).phase ≡ sending (w ∷ words)
      → ((p.inw 496 s).0 ≡ w)
        × (view (p.inw 496 s).1 ≡ record (view s) { phase = after_word words })
  pub receive_word :
      (sector missing w : ℕ) (words : List ℕ) (s : p.Machine)
      → IsReady (view s)
      → (view s).phase ≡ receiving sector missing words
      → w < 65536
      → view (p.outw 496 w s) ≡ accepted sector missing words w (view s)
