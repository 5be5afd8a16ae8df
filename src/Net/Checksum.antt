-- ===== src/Net/Checksum.antt =====
-- The checksum of a header that `udp_send_packet` fills in.
use naw_os.Base.{
  ℕ, ◌+◌, ◌-◌, ◌*◌, ◌/◌, ◌%◌, ◌≤◌, ◌<◌, ◌≡◌, ◌∙◌, ap, Bool-cases, inl, inr, List, [], ◌∷◌, ◌==◌,
  u32, arith,
}
use naw_os.Net.Packet.{ipv4_write_be16, sum_words, fold_carries, ipv4_checksum, ipv4_header}

-- the sum of the big-endian words, without wrap-around
words : List ℕ → ℕ
words [] = 0
words (x ∷ []) = x * 256
words (x ∷ y ∷ rest) = x * 256 + y + words rest

sum_words-words :
    (sum : ℕ) (bytes : List ℕ)
    → sum + words bytes < 4294967296
    → sum_words sum bytes ≡ sum + words bytes
unfolding sum_words words
sum_words-words sum [] h = omega arith
sum_words-words sum (x ∷ []) h = omega arith
sum_words-words sum (x ∷ y ∷ rest) h =
    ap (λ s. sum_words s rest) {x = u32 (sum + (x * 256 + y))} {y = sum + (x * 256 + y)}
      (omega (arith, h))
    ∙ sum_words-words (sum + (x * 256 + y)) rest (omega (arith, h))
    ∙ omega arith

-- Folding keeps the sum modulo 65535, and ends.
fold_carries_lem :
    (sum : ℕ)
    → 0 < sum
    → sum < 1048576
    → (k : ℕ) × (fold_carries 3 sum + 65535 * k ≡ sum)
      × (0 < fold_carries 3 sum)
      × (fold_carries 3 sum ≤ 65535)
unfolding fold_carries
fold_carries_lem sum pos small =
    let s1 = sum % 65536 + sum / 65536 in
    elim (Bool-cases (sum / 65536 == 0)) [
      | inl e ↦ rw e (0, ground (arith, e), pos, ground (arith, e))
      | inr e ↦ elim (Bool-cases (s1 / 65536 == 0)) [
        | inl f ↦ rw (e, f) (sum / 65536, ground (arith, f), ground (arith, e), ground (arith, f))
        | inr f ↦ elim (Bool-cases ((s1 % 65536 + s1 / 65536) / 65536 == 0)) [
          | inl g ↦
              rw (e, f, g)
                (
                  sum / 65536 + s1 / 65536,
                  ground (arith, f, g),
                  ground (arith, f),
                  ground (arith, g),
                )
          | inr g ↦ absurd (ground (arith, g))
        ]
      ]
    ]

header_words :
    (a b c d e f g h total checksum : ℕ)
    → total < 65536
    → checksum < 65536
    → words (ipv4_header (a ∷ b ∷ c ∷ d ∷ []) (e ∷ f ∷ g ∷ h ∷ []) total checksum)
      ≡ 34065 + total + checksum + (a + c + e + g) * 256 + (b + d + f + h)
unfolding words ipv4_header ipv4_write_be16
header_words a b c d e f g h total checksum ht hc = omega arith

ipv4_checksum-words :
    (bytes : List ℕ)
    → 0 < words bytes
    → words bytes < 1048576
    → (k : ℕ) × (65535 - ipv4_checksum bytes + 65535 * k ≡ words bytes)
      × (ipv4_checksum bytes < 65535)
unfolding ipv4_checksum
ipv4_checksum-words bytes pos small =
    let sum = sum_words-words 0 bytes (omega (arith, small)) in
    let (k, e, low, high) =
      fold_carries_lem (sum_words 0 bytes) (omega (arith, sum, pos)) (omega (arith, sum, small)) in
    (k, omega (arith, e, low, high, sum), omega (arith, low, high))

-- For addresses of four bytes and a length below 65536, the checksum of a header that holds its
-- checksum is 0.
pub ipv4_checksum-ipv4_header :
    (a b c d e f g h total : ℕ)
    → a < 256
    → b < 256
    → c < 256
    → d < 256
    → e < 256
    → f < 256
    → g < 256
    → h < 256
    → total < 65536
    → ipv4_checksum (
        ipv4_header
          (a ∷ b ∷ c ∷ d ∷ [])
          (e ∷ f ∷ g ∷ h ∷ [])
          total
          (ipv4_checksum (ipv4_header (a ∷ b ∷ c ∷ d ∷ []) (e ∷ f ∷ g ∷ h ∷ []) total 0)))
      ≡ 0
ipv4_checksum-ipv4_header a b c d e f g h total ha hb hc hd he hf hg hh ht =
    let (k, sum_0, less_0) =
      ipv4_checksum-words (header 0) (omega (arith, words_0)) (omega (arith, words_0)) in
    let words_c =
      header_words a b c d e f g h total (ipv4_checksum (header 0)) ht (omega (arith, less_0)) in
    let (k', sum_c, less_c) =
      ipv4_checksum-words (header (ipv4_checksum (header 0))) (omega (arith, words_c))
        (omega (arith, words_c, less_0)) in
    omega (arith, sum_0, sum_c, words_0, words_c, less_0, less_c)
  where
    header : ℕ → List ℕ
    header c' = ipv4_header (a ∷ b ∷ c ∷ d ∷ []) (e ∷ f ∷ g ∷ h ∷ []) total c'

    words_0 : words (header 0) ≡ 34065 + total + 0 + (a + c + e + g) * 256 + (b + d + f + h)
    words_0 = header_words a b c d e f g h total 0 ht (omega arith)
