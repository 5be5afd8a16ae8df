-- ===== src/NawFs/Catalog/Search.antt =====
-- What `find_free_sector` and `find_file` find.
use native.Mathlib.Decide.{ℕ_discrete}
use naw_os.Base.{
  ℕ, zero, suc, ◌+◌, ◌≤◌, ◌<◌, ◌≡◌, ◌≢◌, inl, inr, refl, ◌∙◌, ap, subst, none, some, List, [], ◌∷◌,
  ◌++◌, true, false, Bool-cases, length, arith, All, ◌==◌, if◌then◌else◌,
}
use naw_os.NawFs.Format.{Entry, entry_matches, data_start_sector, data_sector_count, max_files}
use naw_os.NawFs.Catalog.{in_use, free_from, find_free_sector, find_from, find_file}

-- the list without the first entry that uses the sector
without : ℕ → List Entry → List Entry
without s [] = []
without s (e ∷ es) = if e.sector == s then es else e ∷ without s es

length-without :
    (s : ℕ) (es : List Entry) → in_use es s ≡ true → length es ≡ suc (length (without s es))
unfolding without in_use
length-without s [] h = cc
length-without s (e ∷ es) h = ground (arith, length-without s es)

in_use-without :
    (s t : ℕ) (es : List Entry) → s ≢ t → in_use es t ≡ true → in_use (without s es) t ≡ true
unfolding without in_use
in_use-without s t [] ne h = h
in_use-without s t (e ∷ es) ne h = ground (arith, in_use-without s t es)

-- `n` sectors in use take `n` entries.
in_use-le-length :
    (n s : ℕ) (es : List Entry) → ((j : ℕ) → s ≤ j → j < s + n → in_use es j ≡ true) → n ≤ length es
in_use-le-length zero s es h = omega arith
in_use-le-length (suc n) s es h =
    let ih =
      in_use-le-length n (s + 1) (without s es)
        (λ j a b. in_use-without s j es (omega arith) (h j (omega arith) (omega arith))) in
    omega (arith, length-without s es (h s (omega arith) (omega arith)))

free_from-none :
    (n s : ℕ) (es : List Entry)
    → free_from es n s ≡ none
    → (j : ℕ) → s ≤ j
    → j < s + n
    → in_use es j ≡ true
unfolding free_from
free_from-none zero s es h j a b = absurd (omega arith)
free_from-none (suc n) s es h j a b = elim (Bool-cases (in_use es s)) [
  | inr free ↦ absurd (none≢some (ground arith))
  | inl used ↦ elim (ℕ_discrete s j) [
    | yes e ↦ rw (← e) used
    | no ne ↦ free_from-none n (s + 1) es (ground arith) j (omega arith) (omega arith)
  ]
]
  where
    none≢some : none ≡ some s → ⊥
    none≢some e = cc

-- With fewer than 64 entries the search for a free sector finds one.
pub find_free_sector-room : (es : List Entry) → length es < max_files → find_free_sector es ≢ none
unfolding find_free_sector
find_free_sector-room es small h =
    omega (arith, in_use-le-length 64 139 es (free_from-none 64 139 es h))

free_from-free :
    (n s : ℕ) (es : List Entry) (t : ℕ)
    → free_from es n s ≡ some t
    → (s ≤ t) × (t < s + n) × (in_use es t ≡ false)
unfolding free_from
free_from-free zero s es t h = cc
free_from-free (suc n) s es t h = ground (arith, free_from-free n (s + 1) es t)

pub find_free_sector-unused :
    (es : List Entry) (s : ℕ)
    → find_free_sector es ≡ some s
    → (data_start_sector ≤ s) × (s < data_start_sector + data_sector_count) × (in_use es s ≡ false)
unfolding find_free_sector
find_free_sector-unused es s h = free_from-free 64 139 es s h

pub not_in_use : (es : List Entry) (s : ℕ) → in_use es s ≡ false → All (λ e. e.sector ≢ s) es
unfolding in_use
not_in_use [] s h = tt
not_in_use (e ∷ es) s h = ((λ p. ground arith), not_in_use es s (ground arith))

-- A sector that the search finds is one of the 64 data sectors, and it is the sector of no entry.
pub find_free_sector-free :
    (es : List Entry) (s : ℕ)
    → find_free_sector es ≡ some s
    → (data_start_sector ≤ s)
      × (s < data_start_sector + data_sector_count)
      × All (λ e. e.sector ≢ s) es
find_free_sector-free es s h =
    let (lo, hi, unused) = find_free_sector-unused es s h in (lo, hi, not_in_use es s unused)

-- The entry at which a search stops, with what stands before and behind it.
pub record Found (es : List Entry) (name ext : List ℕ) (k : ℕ) : Type 0 where
  pub before : List Entry
  pub entry : Entry
  pub after : List Entry
  pub split : es ≡ before ++ (entry ∷ after)
  pub count : length before ≡ k
  pub hit : entry_matches entry name ext ≡ true
  pub missed : All (λ e. entry_matches e name ext ≡ false) before

find_from-Found :
    (es : List Entry) (i k : ℕ) (name ext : List ℕ)
    → find_from es i name ext ≡ some k
    → (n : ℕ) × (k ≡ i + n) × Found es name ext n
unfolding find_from
find_from-Found [] i k name ext h = cc
find_from-Found (e ∷ es) i k name ext h = elim (Bool-cases (entry_matches e name ext)) [
  | inl m ↦ (
    0,
    ground arith,
    record { before = []; entry = e; after = es; split = refl; count = refl; hit = m; missed = tt },
  )
  | inr m ↦ further m (find_from-Found es (i + 1) k name ext (ground arith))
]
  where
    further :
        entry_matches e name ext ≡ false
        → (n : ℕ) × (k ≡ i + 1 + n) × Found es name ext n
        → (n : ℕ) × (k ≡ i + n) × Found (e ∷ es) name ext n
    further m (n, p, f) = (
      suc n,
      omega arith,
      record {
        before = e ∷ f.before;
        entry = f.entry;
        after = f.after;
        split = ap (λ l. e ∷ l) f.split;
        count = ap suc f.count;
        hit = f.hit;
        missed = (m, f.missed);
      },
    )

-- `find_file` stops at the first entry that matches.
pub find_file-Found :
    (es : List Entry) (k : ℕ) (name ext : List ℕ)
    → find_file es name ext ≡ some k
    → Found es name ext k
unfolding find_file
find_file-Found es k name ext h =
    let (n, p, f) = find_from-Found es 0 k name ext h in subst (Found es name ext) (omega arith) f

find_from-none :
    (es : List Entry) (i : ℕ) (name ext : List ℕ)
    → find_from es i name ext ≡ none
    → All (λ e. entry_matches e name ext ≡ false) es
unfolding find_from
find_from-none [] i name ext h = tt
find_from-none (e ∷ es) i name ext h =
    (ground arith, find_from-none es (i + 1) name ext (ground arith))

-- `find_file` fails only where no entry matches.
pub find_file-none :
    (es : List Entry) (name ext : List ℕ)
    → find_file es name ext ≡ none
    → All (λ e. entry_matches e name ext ≡ false) es
unfolding find_file
find_file-none es name ext h = find_from-none es 0 name ext h

find_from-split :
    (before : List Entry) (e : Entry) (after : List Entry) (i : ℕ) (name ext : List ℕ)
    → All (λ f. entry_matches f name ext ≡ false) before
    → entry_matches e name ext ≡ true
    → find_from (before ++ (e ∷ after)) i name ext ≡ some (i + length before)
unfolding find_from
find_from-split [] e after i name ext miss hit = rw hit (ap some (omega arith))
find_from-split (b ∷ before) e after i name ext miss hit =
    rw miss.0 (find_from-split before e after (i + 1) name ext miss.1 hit ∙ ap some (omega arith))

pub find_file-split :
    (before : List Entry) (e : Entry) (after : List Entry) (name ext : List ℕ)
    → All (λ f. entry_matches f name ext ≡ false) before
    → entry_matches e name ext ≡ true
    → find_file (before ++ (e ∷ after)) name ext ≡ some (length before)
unfolding find_file
find_file-split before e after name ext miss hit =
    find_from-split before e after 0 name ext miss hit ∙ ap some (omega arith)

find_from-missed :
    (es : List Entry) (i : ℕ) (name ext : List ℕ)
    → All (λ f. entry_matches f name ext ≡ false) es
    → find_from es i name ext ≡ none
unfolding find_from
find_from-missed [] i name ext h = refl
find_from-missed (e ∷ es) i name ext h = rw h.0 (find_from-missed es (i + 1) name ext h.1)

pub find_file-missed :
    (es : List Entry) (name ext : List ℕ)
    → All (λ f. entry_matches f name ext ≡ false) es
    → find_file es name ext ≡ none
unfolding find_file
find_file-missed es name ext h = find_from-missed es 0 name ext h
