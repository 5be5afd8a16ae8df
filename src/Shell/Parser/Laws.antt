-- ===== src/Shell/Parser/Laws.antt =====
-- kernel/shell/shell_parser.c: what is read from a name with a dot and from a request to write.
use mathlib.Core.List.{append-nil}
use naw_os.Base.{
  ℕ, zero, suc, ◌-◌, ◌≤◌, ◌<◌, min, ◌≡◌, ◌≢◌, ◌∙◌, refl, ap, lt→ltb, sym, true, false, ◌&&◌, some,
  List, [], ◌∷◌, ◌++◌, leb, ltb, if◌then◌else◌, length, length-append, length-take,
  length-replicate, set, take, drop, replicate, arith, All, All-map,
}
use naw_os.CString.{strlen, strncpy, strstr, starts_with, naw_find_char, text, peek}
use naw_os.CString.Laws.{length-text}
use naw_os.CString.Memory.{memset, memcpy, memcpy_lem, memset_zero}
use naw_os.Shell.Parser.{separator, parse_at_dot, shell_parse_filename, shell_parse_write_request}

-- a byte of the part of a name before the dot
abbrev pub IsNameByte : ℕ → Type 0
IsNameByte c = (c ≢ 0) × (c ≢ b'.')

naw_find_char-append :
    (n e : List ℕ) → All IsNameByte n → naw_find_char (n ++ (b'.' ∷ e)) b'.' ≡ some (b'.' ∷ e)
unfolding naw_find_char
naw_find_char-append [] e h = refl
naw_find_char-append (c ∷ n) e h = ground (arith, h.0.0, h.0.1, naw_find_char-append n e h.1)

-- The string in an array that begins with bytes other than 0 begins with them.
pub text-append : (s z : List ℕ) → All (λ c. c ≢ 0) s → text (s ++ z) ≡ s ++ text z
unfolding text
text-append [] z h = refl
text-append (c ∷ s) z h = ground (arith, h.0, text-append s z h.1)

text-zeros : (k n : ℕ) → text (drop k (replicate n 0)) ≡ []
unfolding text
text-zeros zero zero = refl
text-zeros zero (suc n) = refl
text-zeros (suc k) zero = refl
text-zeros (suc k) (suc n) = text-zeros k n

-- A copy into an array of zeros that is longer holds the string that was copied.
text-memcpy :
    (dest src : List ℕ) (m k : ℕ)
    → length dest ≡ m
    → k ≤ m
    → k ≤ length src
    → All (λ c. c ≢ 0) (take k src)
    → text (memcpy (memset dest 0 m) src k) ≡ take k src
text-memcpy dest src m k e hk hs ha =
    rw
      (
        memset_zero dest m e,
        memcpy_lem (replicate m 0) src k (omega (arith, length-replicate {A = ℕ} m 0)) hs,
        text-append (take k src) (drop k (replicate m 0)) ha,
        text-zeros k m,
      )
      (append-nil (take k src))

-- `strncpy` and the 0 that is written behind it leave the first `n` bytes of the string.
pub text-strncpy :
    (dest src : List ℕ) (n : ℕ)
    → length dest ≡ suc n
    → text (set (strncpy dest src n) n 0) ≡ take n (text src)
unfolding text strncpy
text-strncpy [] src n e = absurd (omega arith)
text-strncpy (d ∷ dest) src zero e = refl
text-strncpy (d ∷ dest) [] (suc n) e = refl
text-strncpy (d ∷ dest) (c ∷ src) (suc n) e = ground (arith, text-strncpy dest src n (omega arith))

All-take :
    (P : ℕ → Type 0) (k : ℕ) (s z : List ℕ) → k ≤ length s → All P s → All P (take k (s ++ z))
All-take P zero s z h a = tt
All-take P (suc k) [] z h a = absurd (omega arith)
All-take P (suc k) (c ∷ s) z h a = (a.0, All-take P k s z (omega arith) a.1)

-- what `shell_parse_filename` leaves in `name`, for `k` bytes before the dot
abbrev name_field : List ℕ → List ℕ → ℕ → List ℕ
name_field filename name k = memcpy (memset name 0 9) filename (if ltb 8 k then 8 else k)

-- what it leaves in `ext`
abbrev ext_field : List ℕ → List ℕ → List ℕ
ext_field ext e = set (strncpy (memset ext 0 4) e 3) 3 0

shell_parse_filename-opened :
    (c : ℕ) (n e name ext : List ℕ)
    → All IsNameByte (c ∷ n)
    → let name' = name_field (c ∷ n ++ (b'.' ∷ e)) name (suc (length n)) in
      shell_parse_filename (c ∷ n ++ (b'.' ∷ e)) name ext
      ≡ ((ltb 0 (strlen name') && ltb 0 (strlen (ext_field ext e))), name', ext_field ext e)
unfolding shell_parse_filename parse_at_dot
shell_parse_filename-opened c n e name ext h =
    rw (naw_find_char-append (c ∷ n) e h, shell_parse_filename)
      (rw (shorter, closed, parse_at_dot) refl)
  where
    shorter : length (c ∷ n ++ (b'.' ∷ e)) - length (b'.' ∷ e) ≡ suc (length n)
    shorter = omega (arith, length-append n (b'.' ∷ e))

    closed : leb (suc (length n)) 0 ≡ false
    closed = ground arith

take-cut :
    (k m : ℕ) (n z : List ℕ) → length n ≡ k → take (if ltb m k then m else k) (n ++ z) ≡ take m n
take-cut k zero [] z e = ground arith
take-cut k (suc m) [] z e = ground arith
take-cut zero m (c ∷ n) z e = absurd (omega arith)
take-cut (suc k) zero (c ∷ n) z e = ground arith
take-cut (suc k) (suc m) (c ∷ n) z e = ground (arith, take-cut k m n z (omega arith))

text-ext_field : (ext e : List ℕ) → length ext ≡ 4 → text (ext_field ext e) ≡ take 3 (text e)
text-ext_field ext e h = text-strncpy (memset ext 0 4) e 3 (rw (memset_zero ext 4 h) refl)

text-name_field :
    (n z name : List ℕ)
    → All IsNameByte n
    → length name ≡ 9
    → text (name_field (n ++ z) name (length n)) ≡ take 8 n
text-name_field n z name h l =
    text-memcpy name (n ++ z) 9 k l (ground arith) (omega (arith, length-append n z, small))
      (All-take (λ c. c ≢ 0) k n z small (All-map n (λ c p. p.0) h))
    ∙ take-cut (length n) 8 n z refl
  where
    k : ℕ
    k = if ltb 8 (length n) then 8 else length n

    small : k ≤ length n
    small = ground arith

-- A name with a dot, of which no byte before the dot is 0 and one at least stands there, is accepted
-- when a byte follows the dot. In both cases `name` gets the first 8 bytes before the dot, and `ext`
-- the first 3 behind it.
pub shell_parse_filename-dotted :
    (n e name ext : List ℕ)
    → All IsNameByte n
    → 0 < length n
    → length name ≡ 9
    → length ext ≡ 4
    → (name' ext' : List ℕ) × (shell_parse_filename (n ++ (b'.' ∷ e)) name ext
        ≡ (ltb 0 (strlen e), name', ext'))
      × (text name' ≡ take 8 n)
      × (text ext' ≡ take 3 (text e))
shell_parse_filename-dotted [] e name ext h positive l l' = absurd (omega arith)
shell_parse_filename-dotted (c ∷ n) e name ext h positive l l' = (
  name',
  ext_field ext e,
  shell_parse_filename-opened c n e name ext h ∙ ap (λ t. (t, name', ext_field ext e)) accepted,
  named,
  text-ext_field ext e l',
)
  where
    name' : List ℕ
    name' = name_field (c ∷ n ++ (b'.' ∷ e)) name (suc (length n))

    named : text name' ≡ take 8 (c ∷ n)
    named = text-name_field (c ∷ n) (b'.' ∷ e) name h l

    extended : strlen (ext_field ext e) ≡ min 3 (strlen e)
    extended =
        sym (length-text (ext_field ext e))
        ∙ ap length (text-ext_field ext e l')
        ∙ length-take 3 (text e)
        ∙ ap (λ k. min 3 k) (length-text e)

    accepted : (ltb 0 (strlen name') && ltb 0 (strlen (ext_field ext e))) ≡ ltb 0 (strlen e)
    accepted =
        rw (lt→ltb 0 (strlen name') (omega (arith, length-text name', ap length named)), extended)
          (ground arith)

-- a byte of a text that a request can write
abbrev pub IsTextByte : ℕ → Type 0
IsTextByte c = (c ≢ 0) × (c ≢ b'-')

peek-undashed : (t f : List ℕ) → All IsTextByte t → peek (t ++ (separator ++ f)) ≢ b'-'
peek-undashed [] f h e = omega arith
peek-undashed (c ∷ t) f h e = h.0.1 e

strstr-append :
    (t f : List ℕ)
    → All IsTextByte t
    → strstr (t ++ (separator ++ f)) separator ≡ some (separator ++ f)
unfolding strstr starts_with
strstr-append [] f h = refl
strstr-append (c ∷ t) f h = ground (arith, h.0.0, peek-undashed t f h.1, strstr-append t f h.1)

-- A text without 0 and '-', then " - ", then a name: the request is accepted, `text` gets the text and
-- `file` the name, both cut so that the final 0 fits.
pub shell_parse_write_request-separated :
    (t f text' file : List ℕ) (m j : ℕ)
    → All IsTextByte t
    → length text' ≡ suc m
    → length file ≡ suc j
    → (text_out file_out : List ℕ) × (shell_parse_write_request
          (t ++ (separator ++ f))
          text'
          (suc m)
          file
          (suc j)
        ≡ (true, text_out, file_out))
      × (text text_out ≡ take m t)
      × (text file_out ≡ take j (text f))
unfolding shell_parse_write_request
shell_parse_write_request-separated t f text' file m j h l l' = (
  memcpy (memset text' 0 (suc m)) (t ++ (separator ++ f)) k,
  set (strncpy (memset file 0 (suc j)) f j) j 0,
  rw (strstr-append t f h, shell_parse_write_request) (rw (before, counted, one_less) refl),
  text-memcpy text' (t ++ (separator ++ f)) (suc m) k l (ground arith)
        (omega (arith, length-append t (separator ++ f), small))
        (All-take (λ c. c ≢ 0) k t (separator ++ f) small (All-map t (λ c p. p.0) h))
      ∙ take-cut (length t) m t (separator ++ f) refl,
  text-strncpy (memset file 0 (suc j)) f j
      (rw (memset_zero file (suc j) l') (ap suc (length-replicate {A = ℕ} j 0))),
)
  where
    k : ℕ
    k = if ltb m (length t) then m else length t

    small : k ≤ length t
    small = ground arith

    before : length (t ++ (separator ++ f)) - length (separator ++ f) ≡ length t
    before = omega (arith, length-append t (separator ++ f))

    counted : (if leb (suc m) (length t) then suc m - 1 else length t) ≡ k
    counted = ground arith

    one_less : suc j - 1 ≡ j
    one_less = omega arith
