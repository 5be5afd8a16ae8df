-- ===== src/NawFs/Format/Names.antt =====
-- How names are stored and compared.
use naw_os.Base.{
  ℕ, zero, suc, ◌≡◌, ◌∙◌, refl, ap, List, [], ◌∷◌, length, replicate, length-replicate, ◌==◌,
  if◌then◌else◌, arith, true, ◌↔◌, Bool, ◌&&◌,
}
use naw_os.Base.Int.{is_zero}
use naw_os.CString.{peek, rest, strncpy}
use naw_os.CString.Memory.{memset_zero, memcmp, is_zero-memcmp}
use naw_os.NawFs.Format.{Entry, IsSized, pack_loop, pack_field, entry_matches}

-- The `n` bytes of a field that holds a string: its first `n` bytes, then zeros.
unfoldable pub padded : ℕ → List ℕ → List ℕ
padded zero src = []
padded (suc n) src =
    let more = padded n (rest src) in if peek src == 0 then replicate (suc n) 0 else peek src ∷ more

pub length-padded : (n : ℕ) (src : List ℕ) → length (padded n src) ≡ n
unfolding padded
length-padded zero src = refl
length-padded (suc n) src = ground (arith, length-padded n (rest src), length-replicate {A = ℕ} n 0)

pack_loop-zeros : (n : ℕ) (src : List ℕ) → pack_loop (replicate n 0) src n ≡ padded n src
unfolding pack_loop padded
pack_loop-zeros zero src = refl
pack_loop-zeros (suc n) src = ground (arith, pack_loop-zeros n (rest src))

pub pack_field-padded :
    (dest : List ℕ) (n : ℕ) (src : List ℕ) → length dest ≡ n → pack_field dest n src ≡ padded n src
unfolding pack_field
pack_field-padded dest n src h = rw (memset_zero dest n h) (pack_loop-zeros n src)

strncpy-empty : (dest : List ℕ) (n : ℕ) → length dest ≡ n → strncpy dest [] n ≡ replicate n 0
unfolding strncpy
strncpy-empty [] zero h = refl
strncpy-empty [] (suc n) h = absurd (omega arith)
strncpy-empty (d ∷ dest) zero h = absurd (omega arith)
strncpy-empty (d ∷ dest) (suc n) h = ap (λ t. 0 ∷ t) (strncpy-empty dest n (omega arith))

pub strncpy-padded :
    (dest : List ℕ) (n : ℕ) (src : List ℕ) → length dest ≡ n → strncpy dest src n ≡ padded n src
unfolding strncpy padded
strncpy-padded [] zero src h = refl
strncpy-padded [] (suc n) src h = absurd (omega arith)
strncpy-padded (d ∷ dest) zero src h = absurd (omega arith)
strncpy-padded (d ∷ dest) (suc n) src h =
    ground (arith, strncpy-padded dest n (rest src), strncpy-empty dest n)

-- On a field of `n` bytes, `strncpy` of `fs_create` and `pack_field` of `entry_matches` write the
-- same bytes, whatever the field held before and however long the string is.
pub strncpy-pack_field :
    (d1 d2 : List ℕ) (n : ℕ) (src : List ℕ)
    → length d1 ≡ n
    → length d2 ≡ n
    → strncpy d1 src n ≡ pack_field d2 n src
strncpy-pack_field d1 d2 n src h1 h2 =
    strncpy-padded d1 n src h1 ∙ (rw (pack_field-padded d2 n src h2))

&&_iff : (a b : Bool) → ((a && b) ≡ true) ↔ ((a ≡ true) × (b ≡ true))
&&_iff a b = ground arith

-- For an entry of the C sizes, the comparison with a name and an extension succeeds exactly when the
-- entry holds the name cut or padded to 8 bytes and the extension cut or padded to 3.
pub entry_matches_iff :
    (e : Entry) (name ext : List ℕ)
    → IsSized e
    → (entry_matches e name ext ≡ true) ↔ ((e.name ≡ padded 8 name) × (e.ext ≡ padded 3 ext))
unfolding entry_matches
entry_matches_iff e name ext s =
    rw (pack_field-padded (replicate 8 0) 8 name refl, pack_field-padded (replicate 3 0) 3 ext refl)
      (
        λ h.
            let both = (&&_iff (is_zero (memcmp e.name (padded 8 name) 8)) _).0 h in
            (by_name.0 both.0, by_ext.0 both.1),
        λ h. (&&_iff _ _).1 (by_name.1 h.0, by_ext.1 h.1),
      )
  where
    by_name : (is_zero (memcmp e.name (padded 8 name) 8) ≡ true) ↔ (e.name ≡ padded 8 name)
    by_name = is_zero-memcmp e.name (padded 8 name) 8 s.name_len (length-padded 8 name)

    by_ext : (is_zero (memcmp e.ext (padded 3 ext) 3) ≡ true) ↔ (e.ext ≡ padded 3 ext)
    by_ext = is_zero-memcmp e.ext (padded 3 ext) 3 s.ext_len (length-padded 3 ext)
