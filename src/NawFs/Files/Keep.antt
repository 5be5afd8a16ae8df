-- ===== src/NawFs/Files/Keep.antt =====
-- `fs_create`, `fs_write` and `fs_delete` of fs/nawfs.c and the invariant of the catalog.
use mathlib.Core.List.{map-append}
use naw_os.Base.{
  ℕ, suc, ◌≤◌, ◌<◌, ◌≡◌, ◌≢◌, ◌∙◌, refl, ap, sym, subst, none, some, List, [], ◌∷◌, ◌++◌, map,
  length, length-append, replicate, arith, All-append, All-put, All-two, All-map, All-to_map, false,
  inl, inr,
}
use naw_os.CString.{peek, strncpy}
use naw_os.CString.Laws.{length-strncpy}
use naw_os.NawFs.Device.{BlockDevice, IsReliable}
use naw_os.NawFs.Format.{Entry, max_files, max_file_size, is_valid_entry, entry_matches}
use naw_os.NawFs.Format.Names.{strncpy-padded, entry_matches_iff}
use naw_os.NawFs.Catalog.{Fs, find_file, find_free_sector, fs_flush}
use naw_os.NawFs.Catalog.Roundtrip.{IsGood}
use naw_os.NawFs.Catalog.Search.{Found, find_file-none, find_free_sector-unused, not_in_use}
use naw_os.NawFs.Files.{new_entry, stored_len, fs_create, fs_write, fs_delete}
use naw_os.NawFs.Files.Valid.{
  IsValid, IsDistinct, IsApart, ident, IsDistinct-remove, IsDistinct-snoc,
}
use naw_os.NawFs.Files.Cases.{
  IsGood-Found, length_found, written, deleted, created, fs_write-cases, fs_delete-cases,
  fs_create-cases,
}

pub stored_len-le : (content : List ℕ) → stored_len content ≤ max_file_size
unfolding stored_len
stored_len-le content = ground arith

pub resize-IsGood :
    (e : Entry) (len : ℕ) → len ≤ max_file_size → IsGood e → IsGood (record e { size = len })
unfolding is_valid_entry
resize-IsGood e len small g = record {
  sized = record {
    name_len = g.sized.name_len;
    ext_len = g.sized.ext_len;
    size_fits = omega arith;
    sector_fits = g.sized.sector_fits;
    reserved_len = g.sized.reserved_len;
  };
  valid = ground (arith, g.valid);
}

peek-strncpy :
    (src : List ℕ) (d : ℕ) (dest : List ℕ) (n : ℕ)
    → peek (strncpy (d ∷ dest) src (suc n)) ≡ peek src
unfolding strncpy
peek-strncpy src d dest n = ground arith

pub new_entry-IsGood :
    (name ext : List ℕ) (s : ℕ) → peek name ≢ 0 → 139 ≤ s → s < 203 → IsGood (new_entry name ext s)
unfolding new_entry is_valid_entry
new_entry-IsGood name ext s n lo hi = record {
  sized = record {
    name_len = length-strncpy (replicate 8 0) name 8;
    ext_len = length-strncpy (replicate 3 0) ext 3;
    size_fits = omega arith;
    sector_fits = omega arith;
    reserved_len = refl;
  };
  valid = ground (arith, peek-strncpy name 0 (replicate 7 0) 7);
}

-- No entry that the search has passed over has the identity of the new one.
new_entry-IsApart :
    (name ext : List ℕ) (s : ℕ) (e : Entry)
    → s < 203
    → IsGood e
    → entry_matches e name ext ≡ false
    → e.sector ≢ s
    → IsApart (ident e) (ident (new_entry name ext s))
unfolding new_entry
new_entry-IsApart name ext s e hi g miss free = (
  λ p. free (omega arith),
  λ p q.
      let same = (entry_matches_iff e name ext g.sized).1 (
        p ∙ strncpy-padded (replicate 8 0) 8 name refl,
        q ∙ strncpy-padded (replicate 3 0) 3 ext refl,
      ) in
      cc same,
)

pub map-ident :
    (before : List Entry) (e : Entry) (after : List Entry)
    → map ident (before ++ (e ∷ after)) ≡ map ident before ++ (ident e ∷ map ident after)
map-ident before e after = map-append ident before (e ∷ after)

module _ (dev : BlockDevice) (r : IsReliable dev) where
  open dev use {Disk, read, write}

  fs_flush-IsValid : {fs : Fs Disk} → IsValid fs → IsValid (fs_flush dev fs)
  unfolding fs_flush
  fs_flush-IsValid v = record { good = v.good; distinct = v.distinct; small = v.small }

  pub written-IsValid :
      (fs : Fs Disk) {name ext : List ℕ} {k : ℕ} (f : Found fs.entries name ext k)
      (content : List ℕ)
      → IsValid fs
      → IsValid (written dev r f content fs.disk)
  written-IsValid fs f content v =
      let (ge, gs) = IsGood-Found f v.good in
      record {
        good =
            All-put IsGood f.before _ f.after
              (resize-IsGood f.entry (stored_len content) (stored_len-le content) ge) gs;
        distinct =
            subst IsDistinct
              (ap (map ident) f.split
                ∙ map-ident f.before f.entry f.after
                ∙ sym (map-ident f.before _ f.after))
              v.distinct;
        small = omega (
          arith,
          length_found f,
          v.small,
          length-append f.before (record f.entry { size = stored_len content } ∷ f.after),
        );
      }

  pub deleted-IsValid :
      (fs : Fs Disk) {name ext : List ℕ} {k : ℕ} (f : Found fs.entries name ext k)
      → IsValid fs
      → IsValid (deleted dev r f fs.disk)
  deleted-IsValid fs f v = record {
    good = (IsGood-Found f v.good).1;
    distinct = subst IsDistinct (sym (map-append ident f.before f.after)) (
        IsDistinct-remove (map ident f.before) (ident f.entry) (map ident f.after) (
          subst IsDistinct (ap (map ident) f.split ∙ map-ident f.before f.entry f.after)
            v.distinct));
    small = omega (arith, length_found f, v.small, length-append f.before f.after);
  }

  pub created-IsValid :
      (name ext : List ℕ) (s : ℕ) (fs : Fs Disk)
      → find_free_sector fs.entries ≡ some s
      → length fs.entries < max_files
      → peek name ≢ 0
      → find_file fs.entries name ext ≡ none
      → IsValid fs
      → IsValid (created dev r name ext s fs)
  created-IsValid name ext s fs free room n fresh v =
      let (lo, hi, unused) = find_free_sector-unused fs.entries s free in
      record {
        good =
            All-append IsGood fs.entries (new_entry name ext s ∷ []) v.good
              (new_entry-IsGood name ext s n lo hi, tt);
        distinct =
            subst IsDistinct (sym (map-append ident fs.entries (new_entry name ext s ∷ []))) (
              IsDistinct-snoc (map ident fs.entries) (ident (new_entry name ext s)) v.distinct (
                All-to_map (λ a. IsApart a (ident (new_entry name ext s))) ident fs.entries
                  (All-map fs.entries (λ e h. new_entry-IsApart name ext s e hi h.0 h.1.0 h.1.1)
                    (All-two IsGood (λ e. (entry_matches e name ext ≡ false) × (e.sector ≢ s))
                      fs.entries v.good
                      (All-two (λ e. entry_matches e name ext ≡ false) (λ e. e.sector ≢ s)
                        fs.entries (find_file-none fs.entries name ext fresh)
                        (not_in_use fs.entries s unused))))));
        small = omega (arith, length-append fs.entries (new_entry name ext s ∷ []));
      }

  -- On a reliable disk, creating a file keeps the catalog valid, whether it succeeds or not: its
  -- entries are valid, no two share a sector or a name with its extension, and there are at most 64.
  pub fs_create-IsValid :
      (name ext : List ℕ) (fs : Fs Disk) → IsValid fs → IsValid (fs_create dev name ext fs).1
  fs_create-IsValid name ext fs v = elim (fs_create-cases dev r name ext fs) [
    | inl (_, e) ↦ rw e v
    | inr (s, free, room, n, x, fresh, e) ↦
        rw e (fs_flush-IsValid (created-IsValid name ext s fs free room n fresh v))
  ]

  -- On a reliable disk, writing a file keeps the catalog valid, whether it succeeds or not.
  pub fs_write-IsValid :
      (name ext content : List ℕ) (fs : Fs Disk)
      → IsValid fs
      → IsValid (fs_write dev name ext content fs).1
  fs_write-IsValid name ext content fs v = elim (fs_write-cases dev r name ext content fs v.good) [
    | inl (_, e) ↦ rw e v
    | inr (k, f, e) ↦ rw e (fs_flush-IsValid (written-IsValid fs f content v))
  ]

  -- On a reliable disk, deleting a file keeps the catalog valid, whether it succeeds or not.
  pub fs_delete-IsValid :
      (name ext : List ℕ) (fs : Fs Disk) → IsValid fs → IsValid (fs_delete dev name ext fs).1
  fs_delete-IsValid name ext fs v = elim (fs_delete-cases dev r name ext fs) [
    | inl (_, e) ↦ rw e v
    | inr (k, f, e) ↦ rw e (fs_flush-IsValid (deleted-IsValid fs f v))
  ]
