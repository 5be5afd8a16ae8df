-- ===== src/NawFs/Files/Laws.antt =====
-- The parent of: what `fs_read` returns after `fs_create`, `fs_write` and `fs_delete`, for the file itself and for
-- every other.
pub mod Write
pub mod Create
pub mod Delete
use mathlib.Core.List.{append-nil, map-append}
use naw_os.Base.{
  Bool, ◌≤◌, if◌then◌else◌, ℕ, zero, ◌≡◌, ◌≢◌, ◌<◌, ◌∙◌, refl, ap, sym, subst, Option, none, some,
  List, [], ◌∷◌, ◌++◌, map, take, arith, All, All-split, All-two, All-map, All-of_map, true, false,
  inl, inr, replicate, ltb, length,
}
use naw_os.CString.{peek, strlen, text}
use naw_os.NawFs.Device.{BlockDevice, IsReliable}
use naw_os.NawFs.Format.{Entry, entry_matches, max_file_size, max_files}
use naw_os.NawFs.Catalog.{Fs, find_file, find_free_sector, fs_flush}
use naw_os.NawFs.Catalog.Roundtrip.{IsGood, read-fs_flush}
use naw_os.NawFs.Catalog.Search.{Found, find_file-none, find_free_sector-unused, not_in_use}
use naw_os.NawFs.Files.{
  new_entry, stored_len, file_sector, fs_read, fs_create, fs_write, fs_delete, read_from,
}
use naw_os.NawFs.Files.Valid.{IsValid, IsDistinct, IsApart, ident, IsDistinct-middle}
use naw_os.NawFs.Files.Cases.{
  sector-lt, sector-ge, IsGood-Found, written, deleted, created, fs_write-cases, fs_delete-cases,
  fs_create-cases,
}
use naw_os.NawFs.Files.Keep.{map-ident, stored_len-le, resize-IsGood, new_entry-IsGood}
use naw_os.NawFs.Files.Content.{take-file_sector, length-file_sector}
use naw_os.NawFs.Files.Reading.{
  SameFile, fs_read-SameFile, matches_other, entry_read, read_from-skip, read_from-hit,
  read_from-missed, read_from-agree,
}

module _ (dev : BlockDevice) (r : IsReliable dev) where
  open dev use {Disk, read, write}

  -- A flush after a write to one data sector leaves the other data sectors as they were.
  pub other_sector :
      (g : Fs Disk) (d : Disk) (s : ℕ) (b : List ℕ) (x : Entry)
      → g.disk ≡ (write s b d).1
      → IsGood x
      → s ≢ x.sector
      → read x.sector (fs_flush dev g).disk ≡ read x.sector d
  other_sector g d s b x e good ne =
      read-fs_flush dev r g x.sector (inr (sector-ge x good.valid))
      ∙ ap (read x.sector) e
      ∙ r.read-write_ne s x.sector b d ne

  -- The other entries are good ones, and apart from the one that is found.
  pub IsApart-Found :
      (fs : Fs Disk) {name ext : List ℕ} {k : ℕ} (f : Found fs.entries name ext k)
      → IsValid fs
      → All (λ x. IsGood x × IsApart (ident f.entry) (ident x)) (f.before ++ f.after)
  IsApart-Found fs f v =
      All-two IsGood (λ x. IsApart (ident f.entry) (ident x)) (f.before ++ f.after)
        (IsGood-Found f v.good).1
        (All-of_map (IsApart (ident f.entry)) ident (f.before ++ f.after) (
          subst (All (IsApart (ident f.entry))) (sym (map-append ident f.before f.after)) (
            IsDistinct-middle (map ident f.before) (ident f.entry) (map ident f.after) (
              subst IsDistinct (ap (map ident) f.split ∙ map-ident f.before f.entry f.after)
                v.distinct))))

  pub others-Found :
      (fs g : Fs Disk) {name ext : List ℕ} {k : ℕ} (f : Found fs.entries name ext k) (b : List ℕ)
      → IsValid fs
      → g.disk ≡ (write f.entry.sector b fs.disk).1
      → All (λ x. read x.sector (fs_flush dev g).disk ≡ read x.sector fs.disk) (f.before ++ f.after)
  others-Found fs g f b v e =
      All-map (f.before ++ f.after)
        (λ x h. other_sector g fs.disk f.entry.sector b x e h.0 (λ p. h.1.0 p))
        (IsApart-Found fs f v)
