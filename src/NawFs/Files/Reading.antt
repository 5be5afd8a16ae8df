-- ===== src/NawFs/Files/Reading.antt =====
-- How `fs_read` depends on the catalog and the disk.
use naw_os.Base.{
  ap₂, ◌&&◌, ℕ, ◌≡◌, ◌∙◌, refl, ap, sym, Option, none, some, List, [], ◌∷◌, ◌++◌, replicate, take,
  arith, All, true, false, inl, inr, ltb, Bool-cases, if◌then◌else◌,
}
use naw_os.CString.Memory.{memcmp}
use naw_os.NawFs.Device.{BlockDevice, IsReliable}
use naw_os.Base.Int.{is_zero}
use naw_os.NawFs.Format.{Entry, max_file_size, entry_matches}
use naw_os.NawFs.Format.Names.{padded, pack_field-padded, entry_matches_iff}
use naw_os.NawFs.Catalog.{Fs}
use naw_os.NawFs.Catalog.Roundtrip.{IsGood}
use naw_os.NawFs.Files.{read_from, fs_read}

-- The two names and extensions are stored as the same bytes, and so denote one file.
abbrev pub SameFile : List ℕ → List ℕ → List ℕ → List ℕ → Type 0
SameFile name ext name' ext' = (padded 8 name ≡ padded 8 name') × (padded 3 ext ≡ padded 3 ext')

entry_matches_same :
    (e : Entry) (name ext name' ext' : List ℕ)
    → SameFile name ext name' ext'
    → entry_matches e name ext ≡ entry_matches e name' ext'
unfolding entry_matches
entry_matches_same e name ext name' ext' (p, q) =
    ap₂ (λ a b. is_zero (memcmp e.name a 8) && is_zero (memcmp e.ext b 3))
      (pack_field-padded (replicate 8 0) 8 name refl
        ∙ p
        ∙ sym (pack_field-padded (replicate 8 0) 8 name' refl))
      (pack_field-padded (replicate 3 0) 3 ext refl
        ∙ q
        ∙ sym (pack_field-padded (replicate 3 0) 3 ext' refl))

pub matches_other :
    (e : Entry) (name ext name' ext' : List ℕ)
    → IsGood e
    → ¬ SameFile name ext name' ext'
    → entry_matches e name ext ≡ true
    → entry_matches e name' ext' ≡ false
matches_other e name ext name' ext' g other h = elim (Bool-cases (entry_matches e name' ext')) [
  | inr no_match ↦ no_match
  | inl both ↦
      let (a, b) = (entry_matches_iff e name ext g.sized).0 h in
      let (a', b') = (entry_matches_iff e name' ext' g.sized).0 both in
      absurd (other (sym a ∙ a', sym b ∙ b'))
]

module _ (dev : BlockDevice) (r : IsReliable dev) where
  open dev use {Disk, read, write}

  -- a read of the entry at which the search stops
  unfoldable pub entry_read : Entry → Disk → Option (List ℕ)
  entry_read e d = elim (read e.sector d) [
    | none ↦ none
    | some bytes ↦ some (take (if ltb max_file_size e.size then max_file_size else e.size) bytes)
  ]

  pub read_from-skip :
      (before : List Entry) (e : Entry) (after : List Entry) (name ext : List ℕ) (d : Disk)
      → entry_matches e name ext ≡ false
      → read_from dev (before ++ (e ∷ after)) name ext d
        ≡ read_from dev (before ++ after) name ext d
  unfolding read_from entry_read
  read_from-skip [] e after name ext d h = rw h
  read_from-skip (b ∷ before) e after name ext d h =
      ap (λ t. if entry_matches b name ext then entry_read b d else t)
        (read_from-skip before e after name ext d h)

  pub read_from-hit :
      (before : List Entry) (e : Entry) (after : List Entry) (name ext : List ℕ) (d : Disk)
      → All (λ f. entry_matches f name ext ≡ false) before
      → entry_matches e name ext ≡ true
      → read_from dev (before ++ (e ∷ after)) name ext d ≡ entry_read e d
  unfolding read_from entry_read
  read_from-hit [] e after name ext d miss hit = rw hit
  read_from-hit (b ∷ before) e after name ext d miss hit =
      rw miss.0 (read_from-hit before e after name ext d miss.1 hit)

  pub read_from-missed :
      (es : List Entry) (name ext : List ℕ) (d : Disk)
      → All (λ f. entry_matches f name ext ≡ false) es
      → read_from dev es name ext d ≡ none
  unfolding read_from
  read_from-missed [] name ext d miss = refl
  read_from-missed (b ∷ es) name ext d miss = rw miss.0 (read_from-missed es name ext d miss.1)

  -- Disks that agree on the sectors of the entries read alike.
  pub read_from-agree :
      (es : List Entry) (name ext : List ℕ) (d d' : Disk)
      → All (λ e. read e.sector d' ≡ read e.sector d) es
      → read_from dev es name ext d' ≡ read_from dev es name ext d
  unfolding read_from
  read_from-agree [] name ext d d' h = refl
  read_from-agree (e ∷ es) name ext d d' h =
      ground (arith, h.0, read_from-agree es name ext d d' h.1)

  -- Names that are stored alike read the same file.
  pub fs_read-SameFile :
      (name ext name' ext' : List ℕ) (fs : Fs Disk)
      → SameFile name ext name' ext'
      → fs_read dev name ext fs ≡ fs_read dev name' ext' fs
  unfolding fs_read entry_read
  fs_read-SameFile name ext name' ext' fs same = go fs.entries
    where
      go :
          (es : List Entry)
          → read_from dev es name ext fs.disk ≡ read_from dev es name' ext' fs.disk
      go [] = refl
      go (e ∷ es) =
          ap₂ (λ b t. if b then entry_read e fs.disk else t)
            (entry_matches_same e name ext name' ext' same) (go es)
