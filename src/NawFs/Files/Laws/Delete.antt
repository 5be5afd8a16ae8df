-- ===== src/NawFs/Files/Laws/Delete.antt =====
-- What `fs_read` returns after `fs_delete`.
use naw_os.Base.{
  Bool-cases, Bool, ℕ, ◌≡◌, ◌∙◌, refl, ap, sym, none, List, ◌++◌, All-map, true, false, inl, inr,
  replicate,
}
use naw_os.NawFs.Device.{BlockDevice, IsReliable}
use naw_os.NawFs.Format.{Entry, entry_matches}
use naw_os.NawFs.Format.Names.{entry_matches_iff}
use naw_os.NawFs.Catalog.{Fs, fs_flush}
use naw_os.NawFs.Catalog.Roundtrip.{IsGood}
use naw_os.NawFs.Catalog.Search.{find_file-none}
use naw_os.NawFs.Files.{fs_read, fs_delete, read_from}
use naw_os.NawFs.Files.Valid.{IsValid, IsApart, ident}
use naw_os.NawFs.Files.Cases.{IsGood-Found, deleted, fs_delete-cases}
use naw_os.NawFs.Files.Reading.{
  SameFile, fs_read-SameFile, matches_other, read_from-skip, read_from-missed, read_from-agree,
}
use naw_os.NawFs.Files.Laws.{others-Found, IsApart-Found}

module _ (dev : BlockDevice) (r : IsReliable dev) where
  open dev use {Disk, read, write}

  apart_misses :
      (e x : Entry) (name ext : List ℕ)
      → IsGood e
      → IsGood x
      → IsApart (ident e) (ident x)
      → entry_matches e name ext ≡ true
      → entry_matches x name ext ≡ false
  apart_misses e x name ext ge gx apart hit = elim (Bool-cases (entry_matches x name ext)) [
    | inr miss ↦ miss
    | inl both ↦
        let (a, b) = (entry_matches_iff e name ext ge.sized).0 hit in
        let (a', b') = (entry_matches_iff x name ext gx.sized).0 both in
        absurd (apart.1 (a ∙ sym a') (b ∙ sym b'))
  ]

  -- On a reliable disk and a valid catalog, a file cannot be read after it is deleted, whether it was
  -- there or not.
  pub fs_read-fs_delete_same :
      (name ext name' ext' : List ℕ) (fs : Fs Disk)
      → IsValid fs
      → SameFile name ext name' ext'
      → fs_read dev name' ext' (fs_delete dev name ext fs).1 ≡ none
  unfolding fs_read fs_flush
  fs_read-fs_delete_same name ext name' ext' fs v same = elim (fs_delete-cases dev r name ext fs) [
    | inl (none_found, e) ↦
        sym (fs_read-SameFile dev r name ext name' ext' _ same)
        ∙ ap (λ (t : Bool × Fs Disk). fs_read dev name ext t.1) e
        ∙ read_from-missed dev r fs.entries name ext fs.disk
            (find_file-none fs.entries name ext none_found)
    | inr (k, f, e) ↦
        sym (fs_read-SameFile dev r name ext name' ext' _ same)
        ∙ ap (λ (t : Bool × Fs Disk). fs_read dev name ext t.1) e
        ∙ read_from-missed dev r (f.before ++ f.after) name ext _ (
            All-map (f.before ++ f.after)
              (λ x h. apart_misses f.entry x name ext (IsGood-Found f v.good).0 h.0 h.1 f.hit)
              (IsApart-Found dev r fs f v))
  ]

  -- On a reliable disk and a valid catalog, deleting a file leaves what every other file reads as.
  pub fs_read-fs_delete_other :
      (name ext name' ext' : List ℕ) (fs : Fs Disk)
      → IsValid fs
      → ¬ SameFile name ext name' ext'
      → fs_read dev name' ext' (fs_delete dev name ext fs).1 ≡ fs_read dev name' ext' fs
  unfolding fs_read fs_flush
  fs_read-fs_delete_other name ext name' ext' fs v other =
      elim (fs_delete-cases dev r name ext fs) [
        | inl (_, e) ↦ ap (λ (t : Bool × Fs Disk). fs_read dev name' ext' t.1) e
        | inr (k, f, e) ↦
            ap (λ (t : Bool × Fs Disk). fs_read dev name' ext' t.1) e
            ∙ read_from-agree dev r (f.before ++ f.after) name' ext' fs.disk _
                (others-Found dev r fs (deleted dev r f fs.disk) f (replicate 512 0) v refl)
            ∙ sym (
                read_from-skip dev r f.before f.entry f.after name' ext' fs.disk
                  (matches_other f.entry name ext name' ext' (IsGood-Found f v.good).0 other f.hit))
            ∙ ap (λ es. read_from dev es name' ext' fs.disk) (sym f.split)
      ]
