-- ===== src/NawFs/Files/Valid.antt =====
-- The invariant of the catalog.
use naw_os.Base.{
  ℕ, ◌≤◌, ◌≡◌, ◌≢◌, sym, List, [], ◌∷◌, ◌++◌, map, length, All, All-append, All-split,
}
use naw_os.NawFs.Format.{Entry, max_files}
use naw_os.NawFs.Catalog.{Fs}
use naw_os.NawFs.Catalog.Roundtrip.{IsGood}

-- what tells two files apart
abbrev pub Ident : Type 0
Ident = List ℕ × List ℕ × ℕ

abbrev pub ident : Entry → Ident
ident e = (e.name, e.ext, e.sector)

-- other data sector, and not the same name and extension
abbrev pub IsApart : Ident → Ident → Type 0
IsApart a b = (a.2 ≢ b.2) × (a.0 ≡ b.0 → a.1 ≡ b.1 → ⊥)

abbrev pub IsDistinct : List Ident → Type 0
IsDistinct [] = Unit
IsDistinct (a ∷ as') = All (IsApart a) as' × IsDistinct as'

-- Every entry is one that `is_valid_entry` accepts, no two entries share a data sector, or a name
-- with its extension, and there are at most MAX_FILES.
pub record IsValid {D : Type 0} (fs : Fs D) : Type 0 where
  pub good : All IsGood fs.entries
  pub distinct : IsDistinct (map ident fs.entries)
  pub small : length fs.entries ≤ max_files

IsApart-sym : (a b : Ident) → IsApart a b → IsApart b a
IsApart-sym a b (s, n) = ((λ e. s (sym e)), (λ e f. n (sym e) (sym f)))

pub IsDistinct-remove :
    (xs : List Ident) (a : Ident) (ys : List Ident)
    → IsDistinct (xs ++ (a ∷ ys))
    → IsDistinct (xs ++ ys)
IsDistinct-remove [] a ys h = h.1
IsDistinct-remove (x ∷ xs) a ys (hx, h) =
    let (l, r) = All-split (IsApart x) xs (a ∷ ys) hx in
    (All-append (IsApart x) xs ys l r.1, IsDistinct-remove xs a ys h)

pub IsDistinct-middle :
    (xs : List Ident) (a : Ident) (ys : List Ident)
    → IsDistinct (xs ++ (a ∷ ys))
    → All (IsApart a) (xs ++ ys)
IsDistinct-middle [] a ys h = h.0
IsDistinct-middle (x ∷ xs) a ys (hx, h) =
    (IsApart-sym x a ((All-split (IsApart x) xs (a ∷ ys) hx).1).0, IsDistinct-middle xs a ys h)

pub IsDistinct-snoc :
    (xs : List Ident) (a : Ident)
    → IsDistinct xs
    → All (λ x. IsApart x a) xs
    → IsDistinct (xs ++ (a ∷ []))
IsDistinct-snoc [] a h k = (tt, tt)
IsDistinct-snoc (x ∷ xs) a (hx, h) (kx, k) =
    (All-append (IsApart x) xs (a ∷ []) hx (kx, tt), IsDistinct-snoc xs a h k)
