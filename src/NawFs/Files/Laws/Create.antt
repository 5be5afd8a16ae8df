-- ===== src/NawFs/Files/Laws/Create.antt =====
-- What `fs_read` returns after `fs_create`.
use mathlib.Core.List.{append-nil}
use naw_os.Base.{
  Bool, ◌≤◌, ℕ, ◌≡◌, ◌≢◌, ◌<◌, ◌∙◌, refl, ap, sym, some, List, [], take, arith, All-two, All-map,
  true, inl, inr, replicate,
}
use naw_os.CString.{peek}
use naw_os.NawFs.Device.{BlockDevice, IsReliable}
use naw_os.NawFs.Format.{Entry, entry_matches}
use naw_os.NawFs.Format.Names.{strncpy-padded, entry_matches_iff}
use naw_os.NawFs.Catalog.{Fs, fs_flush}
use naw_os.NawFs.Catalog.Roundtrip.{IsGood, read-fs_flush}
use naw_os.NawFs.Catalog.Search.{find_file-none, find_free_sector-unused, not_in_use}
use naw_os.NawFs.Files.{new_entry, fs_read, fs_create, read_from}
use naw_os.NawFs.Files.Valid.{IsValid}
use naw_os.NawFs.Files.Cases.{created, fs_create-cases}
use naw_os.NawFs.Files.Keep.{new_entry-IsGood}
use naw_os.NawFs.Files.Reading.{
  SameFile, fs_read-SameFile, matches_other, entry_read, read_from-skip, read_from-hit,
  read_from-agree,
}
use naw_os.NawFs.Files.Laws.{other_sector}

module _ (dev : BlockDevice) (r : IsReliable dev) where
  open dev use {Disk, read, write}

  new_entry-matches :
      (name ext : List ℕ) (s : ℕ)
      → peek name ≢ 0
      → (139 ≤ s) × (s < 203)
      → entry_matches (new_entry name ext s) name ext ≡ true
  new_entry-matches name ext s n (lo, hi) =
      (entry_matches_iff (new_entry name ext s) name ext
          (new_entry-IsGood name ext s n lo hi).sized).1
        (unfold new_entry in
          (strncpy-padded (replicate 8 0) 8 name refl, strncpy-padded (replicate 3 0) 3 ext refl))

  -- The zeros are in the sector of the new entry.
  created_sector :
      (fs : Fs Disk) (name ext : List ℕ) (s : ℕ)
      → (139 ≤ s) × (s < 203)
      → read s (fs_flush dev (created dev r name ext s fs)).disk ≡ some (replicate 512 0)
  created_sector fs name ext s (lo, hi) =
      read-fs_flush dev r (created dev r name ext s fs) s (inr lo)
      ∙ r.read-write_self s (replicate 512 0) fs.disk (omega arith) refl

  empty_read :
      (e : Entry) (d : Disk) (s : ℕ) (b : List ℕ)
      → e.size ≡ 0
      → e.sector ≡ s
      → read s d ≡ some b
      → entry_read dev r e d ≡ some []
  unfolding entry_read
  empty_read e d s b z p h =
      rw (ap (λ k. read k d) p ∙ h, entry_read) (ap (λ n. some (take n b)) {y = 0} (ground arith))

  sizeof_new :
      (name ext : List ℕ) (s : ℕ)
      → s < 203
      → ((new_entry name ext s).size ≡ 0) × ((new_entry name ext s).sector ≡ s)
  unfolding new_entry
  sizeof_new name ext s hi = (refl, omega arith)

  -- On a reliable disk, a file that was just created reads as the empty string.
  pub fs_read-fs_create_same :
      (name ext name' ext' : List ℕ) (fs : Fs Disk)
      → SameFile name ext name' ext'
      → (fs_create dev name ext fs).0 ≡ true
      → fs_read dev name' ext' (fs_create dev name ext fs).1 ≡ some []
  unfolding fs_read fs_flush
  fs_read-fs_create_same name ext name' ext' fs same done =
      elim (fs_create-cases dev r name ext fs) [
        | inl (_, e) ↦ absurd (cc (ap (λ (t : Bool × Fs Disk). t.0) e))
        | inr (s, free, room, n, x, fresh, e) ↦
            let (lo, hi, _) = find_free_sector-unused fs.entries s free in
            let (z, p) = sizeof_new name ext s hi in
            sym (fs_read-SameFile dev r name ext name' ext' _ same)
            ∙ ap (λ (t : Bool × Fs Disk). fs_read dev name ext t.1) e
            ∙ read_from-hit dev r fs.entries (new_entry name ext s) [] name ext
                (fs_flush dev (created dev r name ext s fs)).disk
                (find_file-none fs.entries name ext fresh) (new_entry-matches name ext s n (lo, hi))
            ∙ empty_read (new_entry name ext s) _ s (replicate 512 0) z p
                (created_sector fs name ext s (lo, hi))
      ]

  -- On a reliable disk and a valid catalog, creating a file, whether it succeeds or not, leaves what
  -- every other file reads as.
  pub fs_read-fs_create_other :
      (name ext name' ext' : List ℕ) (fs : Fs Disk)
      → IsValid fs
      → ¬ SameFile name ext name' ext'
      → fs_read dev name' ext' (fs_create dev name ext fs).1 ≡ fs_read dev name' ext' fs
  unfolding fs_read fs_flush
  fs_read-fs_create_other name ext name' ext' fs v other =
      elim (fs_create-cases dev r name ext fs) [
        | inl (_, e) ↦ ap (λ (t : Bool × Fs Disk). fs_read dev name' ext' t.1) e
        | inr (s, free, room, n, x, fresh, e) ↦
            let (lo, hi, unused) = find_free_sector-unused fs.entries s free in
            ap (λ (t : Bool × Fs Disk). fs_read dev name' ext' t.1) e
            ∙ read_from-skip dev r fs.entries (new_entry name ext s) [] name' ext' _ (
                matches_other (new_entry name ext s) name ext name' ext'
                  (new_entry-IsGood name ext s n lo hi) other
                  (new_entry-matches name ext s n (lo, hi)))
            ∙ ap
                (λ es.
                  read_from dev es name' ext' (fs_flush dev (created dev r name ext s fs)).disk)
                (append-nil fs.entries)
            ∙ read_from-agree dev r fs.entries name' ext' fs.disk _ (
                All-map fs.entries
                  (λ y h.
                    other_sector dev r (created dev r name ext s fs) fs.disk s (replicate 512 0) y
                      refl h.0 (λ q. h.1 (sym q)))
                  (All-two IsGood (λ y. y.sector ≢ s) fs.entries v.good
                    (not_in_use fs.entries s unused)))
      ]
