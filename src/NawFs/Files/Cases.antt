-- ===== src/NawFs/Files/Cases.antt =====
-- The outcomes of `fs_create`, `fs_write` and `fs_delete` on a reliable disk.
use naw_os.Base.{
  ℕ, ◌≡◌, ◌≢◌, ◌⊎◌, inl, inr, ◌∙◌, ap, none, some, List, [], ◌∷◌, ◌++◌, true, false, Bool-cases,
  length, get_elem?, replicate, arith, leb, ◌<◌, ◌≤◌, ◌==◌, sym, subst, Option-cases, All,
  All-middle, ap₂, length-append, suc, ◌+◌,
}
use naw_os.CString.{peek}
use naw_os.NawFs.Device.{BlockDevice, IsReliable}
use naw_os.NawFs.Format.{Entry, max_files, is_valid_entry}
use naw_os.NawFs.Catalog.{Fs, find_file, find_free_sector, fs_flush}
use naw_os.NawFs.Catalog.Roundtrip.{IsGood}
use naw_os.NawFs.Catalog.Search.{
  Found, find_file-Found, find_free_sector-room, find_free_sector-unused,
}
use naw_os.NawFs.Files.{
  fs_create, fs_write, fs_delete, new_entry, file_sector, stored_len, set_size, remove_entry,
}
use naw_os.NawFs.Files.Lists.{get_elem?-split, set_size-split, remove_entry-split}

-- the sector of an entry that is valid
pub sector-lt : (e : Entry) → is_valid_entry e ≡ true → e.sector < 4096
unfolding is_valid_entry
sector-lt e h = ground arith

pub sector-ge : (e : Entry) → is_valid_entry e ≡ true → 139 ≤ e.sector
unfolding is_valid_entry
sector-ge e h = ground arith

module _ {es : List Entry} {name ext : List ℕ} {k : ℕ} (f : Found es name ext k) where
  get_found : get_elem? es k ≡ some f.entry
  get_found = ap₂ get_elem? f.split (sym f.count) ∙ get_elem?-split f.before f.entry f.after

  set_found : (len : ℕ) → set_size es k len ≡ f.before ++ (record f.entry { size = len } ∷ f.after)
  set_found len =
      ap₂ (λ a b. set_size a b len) f.split (sym f.count)
      ∙ set_size-split f.before f.entry f.after len

  remove_found : remove_entry es k ≡ f.before ++ f.after
  remove_found =
      ap₂ remove_entry f.split (sym f.count) ∙ remove_entry-split f.before f.entry f.after

  pub IsGood-Found : All IsGood es → IsGood f.entry × All IsGood (f.before ++ f.after)
  IsGood-Found good =
      All-middle IsGood f.before f.entry f.after (subst (λ l. All IsGood l) f.split good)

  pub length_found : length es ≡ suc (length f.before + length f.after)
  length_found = ap length f.split ∙ length-append f.before (f.entry ∷ f.after) ∙ omega arith

module _ (dev : BlockDevice) (r : IsReliable dev) where
  open dev use {Disk, read, write}

  write_ok-Found :
      {es : List Entry} {name ext : List ℕ} {k : ℕ} (f : Found es name ext k) (b : List ℕ)
      (d : Disk)
      → All IsGood es
      → (write f.entry.sector b d).0 ≡ true
  write_ok-Found f b d good =
      r.write_ok f.entry.sector b d (sector-lt f.entry (IsGood-Found f good).0.valid)

  -- what `fs_write` does to the file at which its search stops
  abbrev pub written :
      {es : List Entry} {name ext : List ℕ} {k : ℕ} → Found es name ext k → List ℕ → Disk → Fs Disk
  written f content d = record {
    entries = f.before ++ (record f.entry { size = stored_len content } ∷ f.after);
    disk = (write f.entry.sector (file_sector content) d).1;
  }

  pub fs_write-cases :
      (name ext content : List ℕ) (fs : Fs Disk)
      → All IsGood fs.entries
      → ((find_file fs.entries name ext ≡ none) × (fs_write dev name ext content fs ≡ (false, fs)))
        ⊎ ((k : ℕ) × (f : Found fs.entries name ext k) × (fs_write dev name ext content fs
              ≡ (true, fs_flush dev (written f content fs.disk))))
  unfolding fs_write
  fs_write-cases name ext content fs good = elim (Option-cases (find_file fs.entries name ext)) [
    | inl e ↦ inl (e, rw (e, fs_write))
    | inr (k, e) ↦
        let f = find_file-Found fs.entries k name ext e in
        inr (
          k,
          f,
          ground (
            arith,
            e,
            get_found f,
            set_found f (stored_len content),
            write_ok-Found f (file_sector content) fs.disk good,
          ),
        )
  ]

  -- what `fs_delete` does to the file at which its search stops
  abbrev pub deleted :
      {es : List Entry} {name ext : List ℕ} {k : ℕ} → Found es name ext k → Disk → Fs Disk
  deleted f d = record {
    entries = f.before ++ f.after;
    disk = (write f.entry.sector (replicate 512 0) d).1;
  }

  pub fs_delete-cases :
      (name ext : List ℕ) (fs : Fs Disk)
      → ((find_file fs.entries name ext ≡ none) × (fs_delete dev name ext fs ≡ (false, fs)))
        ⊎ ((k : ℕ) × (f : Found fs.entries name ext k) × (fs_delete dev name ext fs
              ≡ (true, fs_flush dev (deleted f fs.disk))))
  unfolding fs_delete
  fs_delete-cases name ext fs = elim (Option-cases (find_file fs.entries name ext)) [
    | inl e ↦ inl (e, rw (e, fs_delete))
    | inr (k, e) ↦
        let f = find_file-Found fs.entries k name ext e in
        inr (k, f, ground (arith, e, get_found f, remove_found f))
  ]

  -- what `fs_create` does when it succeeds
  abbrev pub created : List ℕ → List ℕ → ℕ → Fs Disk → Fs Disk
  created name ext sector fs = record {
    entries = fs.entries ++ (new_entry name ext sector ∷ []);
    disk = (write sector (replicate 512 0) fs.disk).1;
  }

  -- `fs_create` fails only for a full catalog, an empty name or extension, or a file that exists.
  abbrev pub Refused : List ℕ → List ℕ → Fs Disk → Type 0
  Refused name ext fs =
      (max_files ≤ length fs.entries)
      ⊎ (peek name ≡ 0)
      ⊎ (peek ext ≡ 0)
      ⊎ (find_file fs.entries name ext ≢ none)

  pub sector-new_entry :
      (name ext : List ℕ) (es : List Entry) (s : ℕ)
      → find_free_sector es ≡ some s
      → (new_entry name ext s).sector ≡ s
  unfolding new_entry
  sector-new_entry name ext es s h = omega (arith, find_free_sector-unused es s h)

  fs_create-writes :
      (name ext : List ℕ) (fs : Fs Disk) (s : ℕ)
      → leb max_files (length fs.entries) ≡ false
      → (peek name == 0) ≡ false
      → (peek ext == 0) ≡ false
      → find_file fs.entries name ext ≡ none
      → find_free_sector fs.entries ≡ some s
      → fs_create dev name ext fs ≡ (true, fs_flush dev (created name ext s fs))
  unfolding fs_create
  fs_create-writes name ext fs s room n x e free = ground (
    arith,
    room,
    n,
    x,
    e,
    free,
    sector-new_entry name ext fs.entries s free,
    r.write_ok s (replicate 512 0) fs.disk
        (omega (arith, find_free_sector-unused fs.entries s free)),
  )

  pub fs_create-cases :
      (name ext : List ℕ) (fs : Fs Disk)
      → (Refused name ext fs × (fs_create dev name ext fs ≡ (false, fs)))
        ⊎ ((s : ℕ) × (find_free_sector fs.entries ≡ some s)
            × (length fs.entries < max_files)
            × (peek name ≢ 0)
            × (peek ext ≢ 0)
            × (find_file fs.entries name ext ≡ none)
            × (fs_create dev name ext fs ≡ (true, fs_flush dev (created name ext s fs))))
  fs_create-cases name ext fs = elim (Bool-cases (leb max_files (length fs.entries))) [
    | inl full ↦ inl (inl (ground arith), unfold fs_create in rw full)
    | inr room ↦ elim (Bool-cases (peek name == 0)) [
      | inl n ↦ inl (inr (inl (ground arith)), unfold fs_create in rw (room, n))
      | inr n ↦ elim (Bool-cases (peek ext == 0)) [
        | inl x ↦ inl (inr (inr (inl (ground arith))), unfold fs_create in rw (room, n, x))
        | inr x ↦ elim (Option-cases (find_file fs.entries name ext)) [
          | inr (k, e) ↦ inl (
            inr (inr (inr (λ z. ground arith))),
            unfold fs_create in ground (arith, room, n, x, e),
          )
          | inl e ↦ elim (Option-cases (find_free_sector fs.entries)) [
            | inl none_free ↦ absurd (find_free_sector-room fs.entries (ground arith) none_free)
            | inr (s, free) ↦ inr (
              s,
              free,
              ground arith,
              (λ z. ground arith),
              (λ z. ground arith),
              e,
              fs_create-writes name ext fs s room n x e free,
            )
          ]
        ]
      ]
    ]
  ]
