-- ===== src/NawFs/Files/Laws/Write.antt =====
-- What `fs_read` returns after `fs_write`.
use naw_os.Base.{
  Bool, ◌≤◌, if◌then◌else◌, ℕ, ◌≡◌, ◌<◌, ◌∙◌, refl, ap, sym, some, List, ◌++◌, take, arith, true,
  false, inl, inr, ltb,
}
use naw_os.CString.{strlen, text}
use naw_os.NawFs.Device.{BlockDevice, IsReliable}
use naw_os.NawFs.Format.{Entry, entry_matches, max_file_size}
use naw_os.NawFs.Catalog.{Fs, fs_flush}
use naw_os.NawFs.Catalog.Roundtrip.{read-fs_flush}
use naw_os.NawFs.Catalog.Search.{Found}
use naw_os.NawFs.Files.{stored_len, file_sector, fs_read, fs_write, read_from}
use naw_os.NawFs.Files.Valid.{IsValid}
use naw_os.NawFs.Files.Cases.{sector-lt, sector-ge, IsGood-Found, written, fs_write-cases}
use naw_os.NawFs.Files.Keep.{stored_len-le}
use naw_os.NawFs.Files.Content.{take-file_sector, length-file_sector}
use naw_os.NawFs.Files.Reading.{
  SameFile, fs_read-SameFile, matches_other, entry_read, read_from-skip, read_from-hit,
  read_from-agree,
}
use naw_os.NawFs.Files.Laws.{others-Found}

module _ (dev : BlockDevice) (r : IsReliable dev) where
  open dev use {Disk, read, write}

  written_sector :
      (fs : Fs Disk) {name ext : List ℕ} {k : ℕ} (f : Found fs.entries name ext k)
      (content : List ℕ)
      → IsValid fs
      → read f.entry.sector (fs_flush dev (written dev r f content fs.disk)).disk
        ≡ some (file_sector content)
  written_sector fs f content v =
      let g = (IsGood-Found f v.good).0 in
      read-fs_flush dev r (written dev r f content fs.disk) f.entry.sector
        (inr (sector-ge f.entry g.valid))
      ∙ r.read-write_self f.entry.sector (file_sector content) fs.disk (sector-lt f.entry g.valid)
          (length-file_sector content)

  resized_matches :
      (e : Entry) (len : ℕ) (name ext : List ℕ)
      → entry_matches (record e { size = len }) name ext ≡ entry_matches e name ext
  unfolding entry_matches
  resized_matches e len name ext = refl

  resized_read :
      (e : Entry) (content : List ℕ) (d : Disk)
      → strlen content < 65536
      → read e.sector d ≡ some (file_sector content)
      → entry_read dev r (record e { size = stored_len content }) d ≡ some (take 512 (text content))
  unfolding entry_read
  resized_read e content d small h =
      rw (h, entry_read)
        (ap some (
          ap (λ n. take n (file_sector content))
            (capped (stored_len content) (stored_len-le content))
          ∙ take-file_sector content small))
    where
      capped :
          (len : ℕ)
          → len ≤ max_file_size
          → (if ltb max_file_size len then max_file_size else len) ≡ len
      capped len h = ground arith

  -- On a reliable disk and a valid catalog, after a write that succeeds, reading the same file returns
  -- the first 512 bytes of the string that was written, for strings shorter than 65536.
  pub fs_read-fs_write_same :
      (name ext name' ext' content : List ℕ) (fs : Fs Disk)
      → IsValid fs
      → strlen content < 65536
      → SameFile name ext name' ext'
      → (fs_write dev name ext content fs).0 ≡ true
      → fs_read dev name' ext' (fs_write dev name ext content fs).1 ≡ some (take 512 (text content))
  unfolding fs_read fs_flush
  fs_read-fs_write_same name ext name' ext' content fs v small same done =
      elim (fs_write-cases dev r name ext content fs v.good) [
        | inl (_, e) ↦ absurd (cc (ap (λ (t : Bool × Fs Disk). t.0) e))
        | inr (k, f, e) ↦
            sym (fs_read-SameFile dev r name ext name' ext' _ same)
            ∙ ap (λ (t : Bool × Fs Disk). fs_read dev name ext t.1) e
            ∙ read_from-hit dev r f.before (record f.entry { size = stored_len content }) f.after
                name ext (fs_flush dev (written dev r f content fs.disk)).disk f.missed
                (resized_matches f.entry (stored_len content) name ext ∙ f.hit)
            ∙ resized_read f.entry content (fs_flush dev (written dev r f content fs.disk)).disk
                small (written_sector fs f content v)
      ]

  -- On a reliable disk and a valid catalog, writing a file, whether it succeeds or not, leaves what
  -- every other file reads as.
  pub fs_read-fs_write_other :
      (name ext name' ext' content : List ℕ) (fs : Fs Disk)
      → IsValid fs
      → ¬ SameFile name ext name' ext'
      → fs_read dev name' ext' (fs_write dev name ext content fs).1 ≡ fs_read dev name' ext' fs
  unfolding fs_read fs_flush
  fs_read-fs_write_other name ext name' ext' content fs v other =
      elim (fs_write-cases dev r name ext content fs v.good) [
        | inl (_, e) ↦ ap (λ (t : Bool × Fs Disk). fs_read dev name' ext' t.1) e
        | inr (k, f, e) ↦
            ap (λ (t : Bool × Fs Disk). fs_read dev name' ext' t.1) e
            ∙ read_from-skip dev r f.before (record f.entry { size = stored_len content }) f.after
                name' ext' _
                (resized_matches f.entry (stored_len content) name' ext' ∙ missed_other fs f v)
            ∙ read_from-agree dev r (f.before ++ f.after) name' ext' fs.disk _ (
                others-Found dev r fs (written dev r f content fs.disk) f (file_sector content) v
                  refl)
            ∙ sym (
                read_from-skip dev r f.before f.entry f.after name' ext' fs.disk
                  (missed_other fs f v))
            ∙ ap (λ es. read_from dev es name' ext' fs.disk) (sym f.split)
      ]
    where
      missed_other :
          (fs : Fs Disk) {k : ℕ} (f : Found fs.entries name ext k)
          → IsValid fs
          → entry_matches f.entry name' ext' ≡ false
      missed_other fs f v =
          matches_other f.entry name ext name' ext' (IsGood-Found f v.good).0 other f.hit
