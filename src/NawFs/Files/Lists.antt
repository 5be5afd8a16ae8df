-- ===== src/NawFs/Files/Lists.antt =====
-- The changes that the operations make to the list of entries.
use naw_os.Base.{
  ℕ, suc, ◌+◌, ◌-◌, ◌≡◌, refl, ◌∙◌, ap, ap₂, subst, sym, some, List, [], ◌∷◌, ◌++◌, length,
  get_elem?, set, take, arith, length-append, take-append_at,
}
use mathlib.Core.List.{append_assoc, append-nil}
use naw_os.NawFs.Format.{Entry}
use naw_os.NawFs.Files.{move_back, set_size, shift_entries, remove_entry}

module _ {ℓ} {A : Type ℓ} where
  pub get_elem?-split :
      (xs : List A) (x : A) (ys : List A) → get_elem? (xs ++ (x ∷ ys)) (length xs) ≡ some x
  get_elem?-split [] x ys = refl
  get_elem?-split (y ∷ xs) x ys = get_elem?-split xs x ys

  pub set-split :
      (xs : List A) (x v : A) (ys : List A) → set (xs ++ (x ∷ ys)) (length xs) v ≡ xs ++ (v ∷ ys)
  set-split [] x v ys = refl
  set-split (y ∷ xs) x v ys = ap (λ l. y ∷ l) (set-split xs x v ys)

pub set_size-split :
    (before : List Entry) (e : Entry) (after : List Entry) (len : ℕ)
    → set_size (before ++ (e ∷ after)) (length before) len
      ≡ before ++ (record e { size = len } ∷ after)
unfolding set_size
set_size-split before e after len =
    rw (get_elem?-split before e after, set_size)
      (set-split before e (record e { size = len }) after)

get_elem?-next :
    (xs : List Entry) (x y : Entry) (ys : List Entry)
    → get_elem? (xs ++ (x ∷ y ∷ ys)) (length xs + 1) ≡ some y
get_elem?-next [] x y ys = refl
get_elem?-next (z ∷ xs) x y ys =
    ap (get_elem? (z ∷ (xs ++ (x ∷ y ∷ ys)))) {y = suc (length xs + 1)} (omega arith)
    ∙ get_elem?-next xs x y ys

move_back-split :
    (before : List Entry) (e f : Entry) (after : List Entry)
    → move_back (length before) (before ++ (e ∷ f ∷ after)) ≡ (before ++ (f ∷ [])) ++ (f ∷ after)
unfolding move_back
move_back-split before e f after =
    rw (get_elem?-next before e f after, move_back)
      (set-split before e f (f ∷ after) ∙ sym (append_assoc before (f ∷ []) (f ∷ after)))

-- Shifting back everything behind an entry, and dropping the last slot, takes the entry out.
shift_entries-split :
    (n : ℕ) (before : List Entry) (e : Entry) (after : List Entry)
    → length before ≡ n
    → take (n + length after) (shift_entries (length after) n (before ++ (e ∷ after)))
      ≡ before ++ after
unfolding shift_entries
shift_entries-split n before e [] p =
    take-append_at (n + 0) before (e ∷ []) (omega arith) ∙ sym (append-nil before)
shift_entries-split n before e (f ∷ after) p =
    ap (λ k. take (n + suc (length after)) (shift_entries (length after) (n + 1) k))
      (subst (λ k. move_back k (before ++ (e ∷ f ∷ after)) ≡ (before ++ (f ∷ [])) ++ (f ∷ after)) p
        (move_back-split before e f after))
    ∙ ap (λ k. take k (shift_entries (length after) (n + 1) ((before ++ (f ∷ [])) ++ (f ∷ after))))
        {y = n + 1 + length after} (omega arith)
    ∙ shift_entries-split (n + 1) (before ++ (f ∷ [])) f after
        (omega (arith, p, length-append before (f ∷ [])))
    ∙ append_assoc before (f ∷ []) after

pub remove_entry-split :
    (before : List Entry) (e : Entry) (after : List Entry)
    → remove_entry (before ++ (e ∷ after)) (length before) ≡ before ++ after
unfolding remove_entry
remove_entry-split before e after =
    let rounds : length (before ++ (e ∷ after)) - 1 - length before ≡ length after =
      omega (arith, length-append before (e ∷ after)) in
    let kept : length (before ++ (e ∷ after)) - 1 ≡ length before + length after =
      omega (arith, length-append before (e ∷ after)) in
    ap₂ (λ a b. take a (shift_entries b (length before) (before ++ (e ∷ after)))) kept rounds
    ∙ shift_entries-split (length before) before e after refl
