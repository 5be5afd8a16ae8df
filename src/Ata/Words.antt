-- ===== src/Ata/Words.antt =====
-- drivers/ata/ata.c: the loops that move the words of a sector.
use mathlib.Core.List.{append_assoc}
use naw_os.Base.{
  ℕ, zero, suc, ◌+◌, ◌*◌, ◌/◌, ◌%◌, ◌<◌, ◌≡◌, ◌∙◌, refl, sym, ap, ap₂, subst, List, [], ◌∷◌, ◌++◌,
  length, u16, IsByte, All, arith,
}
use naw_os.Ata.{Ports, read_words, write_words}
use naw_os.Ata.Drive.{IsDrive, View, receiving, IsIdle, IsReady, after_word, put_sector}

-- the words of the bytes of a buffer, and the bytes of words
unfoldable pub words_of : List ℕ → List ℕ
words_of [] = []
words_of (x ∷ []) = []
words_of (x ∷ y ∷ buffer) = u16 (y * 256 + x) ∷ words_of buffer

unfoldable pub bytes_of : List ℕ → List ℕ
bytes_of [] = []
bytes_of (w ∷ words) = w % 256 ∷ w / 256 % 256 ∷ bytes_of words

pub bytes_of-words_of :
    (n : ℕ) (b : List ℕ) → length b ≡ n + n → All IsByte b → bytes_of (words_of b) ≡ b
unfolding bytes_of words_of
bytes_of-words_of n [] e h = refl
bytes_of-words_of n (x ∷ []) e h = absurd (omega arith)
bytes_of-words_of zero (x ∷ y ∷ b) e h = absurd (omega arith)
bytes_of-words_of (suc n) (x ∷ y ∷ b) e h =
    ap₂ ◌∷◌ (omega (arith, h.0, h.1.0))
      (ap₂ ◌∷◌ (omega (arith, h.0, h.1.0)) (bytes_of-words_of n b (omega arith) h.1.1))

pub length-words_of : (n : ℕ) (b : List ℕ) → length b ≡ n + n → length (words_of b) ≡ n
unfolding words_of
length-words_of zero [] e = refl
length-words_of (suc n) [] e = absurd (omega arith)
length-words_of n (x ∷ []) e = absurd (omega arith)
length-words_of zero (x ∷ y ∷ b) e = absurd (omega arith)
length-words_of (suc n) (x ∷ y ∷ b) e = ap suc (length-words_of n b (omega arith))

words_of-All : (b : List ℕ) → All (λ w. w < 65536) (words_of b)
unfolding words_of
words_of-All [] = tt
words_of-All (x ∷ []) = tt
words_of-All (x ∷ y ∷ b) = (omega arith, words_of-All b)

module _ (p : Ports) (drive : IsDrive p) where
  open p use {Machine, inw, outw}
  open drive use {view, send_word, receive_word}

  -- A ready drive that has the words of `ws` sends them all, and then waits for a command.
  pub read_words_lem :
      (n : ℕ) (buffer ws : List ℕ) (s : Machine)
      → length buffer ≡ n + n
      → length ws ≡ n
      → IsReady (view s)
      → (view s).phase ≡ after_word ws
      → ((read_words p n buffer s).0 ≡ bytes_of ws)
        × IsIdle (view (read_words p n buffer s).1)
        × ((view (read_words p n buffer s).1).content ≡ (view s).content)
  unfolding read_words bytes_of
  read_words_lem zero [] [] s e f r q = (refl, record { calm = r.calm; free = q }, refl)
  read_words_lem zero (x ∷ b) ws s e f r q = absurd (omega arith)
  read_words_lem zero [] (w ∷ ws) s e f r q = absurd (omega arith)
  read_words_lem (suc n) [] ws s e f r q = absurd (omega arith)
  read_words_lem (suc n) (x ∷ []) ws s e f r q = absurd (omega arith)
  read_words_lem (suc n) (x ∷ y ∷ b) [] s e f r q = absurd (omega arith)
  read_words_lem (suc n) (x ∷ y ∷ b) (w ∷ ws) s e f r q =
      let (word, next) = send_word w ws s r q in
      let (bytes, waits, same) =
        read_words_lem n b ws (inw 496 s).1 (omega arith) (omega arith)
          (subst IsReady (sym next) (record { calm = r.calm; prompt = r.prompt }))
          (ap View.phase next) in
      (ap₂ (λ c t. c % 256 ∷ c / 256 % 256 ∷ t) word bytes, waits, same ∙ ap View.content next)

  -- A ready drive that waits for as many words as the buffer has stores them in the sector.
  pub write_words_lem :
      (n sector : ℕ) (b ws : List ℕ) (s : Machine)
      → length b ≡ suc n + suc n
      → IsReady (view s)
      → (view s).phase ≡ receiving sector n ws
      → IsIdle (view (write_words p (suc n) b s))
        × ((view (write_words p (suc n) b s)).content
            ≡ put_sector sector (ws ++ words_of b) (view s).content)
  unfolding write_words words_of
  write_words_lem n sector [] ws s e r q = absurd (omega arith)
  write_words_lem n sector (x ∷ []) ws s e r q = absurd (omega arith)
  write_words_lem zero sector (x ∷ y ∷ []) ws s e r q =
      let next = receive_word sector 0 (u16 (y * 256 + x)) ws s r q (omega arith) in
      (
        record { calm = ap View.busy next ∙ r.calm; free = ap View.phase next },
        ap View.content next,
      )
  write_words_lem zero sector (x ∷ y ∷ z ∷ b) ws s e r q = absurd (omega arith)
  write_words_lem (suc n) sector (x ∷ y ∷ b) ws s e r q =
      let w = u16 (y * 256 + x) in
      let next = receive_word sector (suc n) w ws s r q (omega arith) in
      let (waits, stored) =
        write_words_lem n sector b (ws ++ (w ∷ [])) (outw 496 w s) (omega arith)
          (subst IsReady (sym next) (record { calm = r.calm; prompt = r.prompt }))
          (ap View.phase next) in
      (
        waits,
        stored
            ∙ ap₂ (λ t c. put_sector sector t c) (append_assoc ws (w ∷ []) (words_of b))
                (ap View.content next),
      )
