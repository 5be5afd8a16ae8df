-- ===== src/Editor/Cursor/Position.antt =====
-- Indices and places on the screen.
use naw_os.Base.{
  ℕ, zero, suc, ◌+◌, ◌-◌, ◌≤◌, ◌<◌, ◌≡◌, ◌⊎◌, inl, inr, ◌∙◌, refl, ap, sym, Bool-cases, ◌&&◌,
  Option, none, some, List, get_or, arith, leb, ltb, ◌==◌, if◌then◌else◌,
}
use naw_os.Editor.State.{EditorState, IsValid, editor_text_start_row}
use naw_os.Editor.Cursor.{
  Place, editor_step_visual_position, visual_from, editor_cursor_get_visual_position, index_from,
  editor_cursor_index_from_visual_position, editor_cursor_move, key_up, key_down, key_left,
  key_right, go_to,
}

-- `p` comes before `q` in reading order.
abbrev IsBefore : Place → Place → Type 0
IsBefore p q = (p.0 < q.0) ⊎ ((p.0 ≡ q.0) × (p.1 < q.1))

step-IsBefore : (c : ℕ) (p : Place) → IsBefore p (editor_step_visual_position c p)
unfolding editor_step_visual_position
step-IsBefore c (row, col) = ground arith

visual_from-IsBefore : (n i : ℕ) (b : List ℕ) (p : Place) → IsBefore p (visual_from (suc n) i b p)
unfolding visual_from
visual_from-IsBefore zero i b p = step-IsBefore (get_or b i 0) p
visual_from-IsBefore (suc n) i b p = omega (
  arith,
  step-IsBefore (get_or b i 0) p,
  visual_from-IsBefore n (i + 1) b (editor_step_visual_position (get_or b i 0) p),
)

-- The place of a character comes after the places of the characters before it, so the search stops
-- at that character and no earlier.
index_from-visual_from :
    (m k i : ℕ) (b : List ℕ) (p : Place) (best : Option ℕ)
    → m ≤ k
    → index_from k i b (visual_from m i b p) p best ≡ some (i + m)
unfolding index_from visual_from
index_from-visual_from zero zero i b (row, col) best h = ground arith
index_from-visual_from zero (suc k) i b (row, col) best h = ground arith
index_from-visual_from (suc m) zero i b p best h = absurd (omega arith)
index_from-visual_from (suc m) (suc k) i b (row, col) best h = ground (
  arith,
  visual_from-IsBefore m i b (row, col),
  index_from-visual_from m k (i + 1) b (editor_step_visual_position (get_or b i 0) (row, col))
      (if row == (visual_from (suc m) i b (row, col)).0 then some i else best) (omega arith),
)

-- In a valid session the index found for the row and column of the cursor is the cursor.
pub editor_cursor_index-get_visual_position :
    (st : EditorState)
    → IsValid st
    → editor_cursor_index_from_visual_position st (editor_cursor_get_visual_position st)
      ≡ some st.cursor
unfolding editor_cursor_index_from_visual_position editor_cursor_get_visual_position
editor_cursor_index-get_visual_position st v =
    index_from-visual_from st.cursor st.len 0 st.buffer (editor_text_start_row, 0) none v.inside
    ∙ ap some (omega arith)

visual_from-snoc :
    (n i : ℕ) (b : List ℕ) (p : Place)
    → visual_from (n + 1) i b p
      ≡ editor_step_visual_position (get_or b (i + n) 0) (visual_from n i b p)
unfolding visual_from
visual_from-snoc zero i b p = ap (λ k. editor_step_visual_position (get_or b k 0) p) (omega arith)
visual_from-snoc (suc n) i b p =
    ap (λ k. visual_from k i b p) {x = suc n + 1} {y = suc (n + 1)} (omega arith)
    ∙ visual_from-snoc n (i + 1) b (editor_step_visual_position (get_or b i 0) p)
    ∙ ap
        (λ k.
          editor_step_visual_position (get_or b k 0)
            (visual_from n (i + 1) b (editor_step_visual_position (get_or b i 0) p)))
        (omega arith)

-- the place of the character with the index `n`
abbrev pub place_of : List ℕ → ℕ → Place
place_of b n = visual_from n 0 b (editor_text_start_row, 0)

-- An index that the search keeps is in the text, and on the row of the target.
abbrev OnRow : List ℕ → ℕ → Place → Option ℕ → Type 0
OnRow b len target none = Unit
OnRow b len target (some n) = (n ≤ len) × ((place_of b n).0 ≡ target.0)

index_from-OnRow :
    (k i len : ℕ) (b : List ℕ) (target p : Place) (best : Option ℕ)
    → k + i ≡ len
    → p ≡ place_of b i
    → OnRow b len target best
    → OnRow b len target (index_from k i b target p best)
unfolding index_from
index_from-OnRow zero i len b target (row, col) best e q h = elim (Bool-cases (row == target.0)) [
  | inl on ↦ rw on (omega arith, ground (arith, ap (λ (t : Place). t.0) q))
  | inr off ↦ rw off h
]
index_from-OnRow (suc k) i len b target (row, col) best e q h =
    elim (Bool-cases (row == target.0)) [
      | inl on ↦ elim (Bool-cases (leb target.1 col)) [
        | inl reached ↦ rw (on, reached) (omega arith, ground (arith, ap (λ (t : Place). t.0) q))
        | inr short ↦
            rw (on, short)
              (index_from-OnRow k (i + 1) len b target _ (some i) (omega arith) next
                (omega arith, ground (arith, ap (λ (t : Place). t.0) q)))
      ]
      | inr off ↦ elim (Bool-cases (ltb target.0 row)) [
        | inl passed ↦ rw (off, passed) h
        | inr before ↦
            rw (off, before) (index_from-OnRow k (i + 1) len b target _ best (omega arith) next h)
      ]
    ]
  where
    next : editor_step_visual_position (get_or b i 0) (row, col) ≡ place_of b (i + 1)
    next =
        ap (editor_step_visual_position (get_or b i 0)) q
        ∙ ap (λ t. editor_step_visual_position (get_or b t 0) (place_of b i)) (omega arith)
        ∙ sym (visual_from-snoc i 0 b (editor_text_start_row, 0))

-- A search of the screen ends in the text, on the row that is asked for.
pub editor_cursor_index-OnRow :
    (st : EditorState) (target : Place)
    → OnRow st.buffer st.len target (editor_cursor_index_from_visual_position st target)
unfolding editor_cursor_index_from_visual_position
editor_cursor_index-OnRow st target =
    index_from-OnRow st.len 0 st.len st.buffer target (editor_text_start_row, 0) none (omega arith)
      (unfold visual_from in refl) tt

go_to-row :
    (st : EditorState) (target : Place) (o : Option ℕ)
    → OnRow st.buffer st.len target o
    → (go_to st o ≡ st) ⊎ ((editor_cursor_get_visual_position (go_to st o)).0 ≡ target.0)
unfolding editor_cursor_get_visual_position
go_to-row st target none h = inl refl
go_to-row st target (some n) h = inr h.1

-- The key up leaves the session as it is or moves the cursor to the row above, and the key down leaves
-- it or moves the cursor to the row below.
editor_cursor_move-row :
    (st : EditorState)
    → ((editor_cursor_move key_up st ≡ st)
        ⊎ ((editor_cursor_get_visual_position (editor_cursor_move key_up st)).0
            ≡ (editor_cursor_get_visual_position st).0 - 1))
      × ((editor_cursor_move key_down st ≡ st)
          ⊎ ((editor_cursor_get_visual_position (editor_cursor_move key_down st)).0
              ≡ (editor_cursor_get_visual_position st).0 + 1))
unfolding editor_cursor_move
editor_cursor_move-row st =
    let (row, col) = editor_cursor_get_visual_position st in
    (
      go_to-row st (row - 1, col) _ (editor_cursor_index-OnRow st (row - 1, col)),
      go_to-row st (row + 1, col) _ (editor_cursor_index-OnRow st (row + 1, col)),
    )

place_at : (st : EditorState) (n : ℕ) → n ≤ st.len → IsValid st → IsValid (record st { cursor = n })
place_at st n h v = record {
  size = v.size;
  fits = v.fits;
  inside = h;
  ended = v.ended;
  solid = v.solid;
}

go_to-IsValid :
    (st : EditorState) (target : Place) (o : Option ℕ)
    → OnRow st.buffer st.len target o
    → IsValid st
    → IsValid (go_to st o)
go_to-IsValid st target none h v = v
go_to-IsValid st target (some n) h v = place_at st n h.0 v

-- Every arrow key, and every other code, keeps the cursor in the text.
pub editor_cursor_move-IsValid :
    (scancode : ℕ) (st : EditorState) → IsValid st → IsValid (editor_cursor_move scancode st)
unfolding editor_cursor_move
editor_cursor_move-IsValid scancode st v =
    let (row, col) = editor_cursor_get_visual_position st in
    elim (Bool-cases ((scancode == key_left) && ltb 0 st.cursor)) [
      | inl left ↦ rw left (place_at st (st.cursor - 1) (omega (arith, v.inside)) v)
      | inr l ↦ elim (Bool-cases ((scancode == key_right) && ltb st.cursor st.len)) [
        | inl right ↦ rw (l, right) (place_at st (st.cursor + 1) (ground arith) v)
        | inr r ↦ elim (Bool-cases (scancode == key_up)) [
          | inl up ↦
              rw (l, r, up)
                (go_to-IsValid st (row - 1, col) _ (editor_cursor_index-OnRow st (row - 1, col)) v)
          | inr u ↦ elim (Bool-cases (scancode == key_down)) [
            | inl down ↦
                rw (l, r, u, down)
                  (go_to-IsValid st (row + 1, col) _ (editor_cursor_index-OnRow st (row + 1, col))
                    v)
            | inr d ↦ rw (l, r, u, d) v
          ]
        ]
      ]
    ]
