-- ===== src/NawFs/Format/Bytes.antt =====
-- An entry read back from its bytes.
use naw_os.Base.{
  ℕ, ◌≡◌, refl, ◌∙◌, ap, List, ◌++◌, false, length, take, drop, replicate, get_or, ◌+◌, arith,
  length-append, take-append_at, drop-append_at, get_or-append_at, take_all,
}
use naw_os.NawFs.Format.{
  Entry, IsSized, entry_bytes, bytes_entry, is_valid_entry, le16, read_le16, entry_size,
}

-- What stands behind the name and the extension.
abbrev tail_bytes : Entry → List ℕ
tail_bytes e = le16 e.size ++ (le16 e.sector ++ e.reserved)

pub length-entry_bytes : (e : Entry) → IsSized e → length (entry_bytes e) ≡ entry_size
unfolding entry_bytes
length-entry_bytes e s = omega (
  arith,
  s.name_len,
  s.ext_len,
  s.reserved_len,
  length-append e.name (e.ext ++ tail_bytes e),
  length-append e.ext (tail_bytes e),
)

module _ (e : Entry) (s : IsSized e) where
  at_tail : (k : ℕ) → get_or (entry_bytes e) (8 + (3 + k)) 0 ≡ get_or (tail_bytes e) k 0
  unfolding entry_bytes
  at_tail k =
      get_or-append_at 8 (3 + k) e.name (e.ext ++ tail_bytes e) 0 s.name_len
      ∙ get_or-append_at 3 k e.ext (tail_bytes e) 0 s.ext_len

  drop_tail : (k : ℕ) → drop (8 + (3 + k)) (entry_bytes e) ≡ drop k (tail_bytes e)
  unfolding entry_bytes
  drop_tail k =
      drop-append_at 8 (3 + k) e.name (e.ext ++ tail_bytes e) s.name_len
      ∙ drop-append_at 3 k e.ext (tail_bytes e) s.ext_len

  take_name : take 8 (entry_bytes e) ≡ e.name
  unfolding entry_bytes
  take_name = take-append_at 8 e.name (e.ext ++ tail_bytes e) s.name_len

  take_ext : take 3 (drop 8 (entry_bytes e)) ≡ e.ext
  unfolding entry_bytes
  take_ext =
      ap (take 3) (drop-append_at 8 0 e.name (e.ext ++ tail_bytes e) s.name_len)
      ∙ take-append_at 3 e.ext (tail_bytes e) s.ext_len

  read_size : read_le16 (entry_bytes e) 11 ≡ e.size
  read_size = omega (arith, at_tail 0, at_tail 1, s.size_fits)

  read_sector : read_le16 (entry_bytes e) 13 ≡ e.sector
  read_sector = omega (arith, at_tail 2, at_tail 3, s.sector_fits)

  take_reserved : take 17 (drop 15 (entry_bytes e)) ≡ e.reserved
  take_reserved =
      ap (take 17) (drop_tail 4) ∙ take_all 17 e.reserved (omega (arith, s.reserved_len))

  -- An entry of the C sizes that is laid out as bytes is read back as it was.
  pub bytes_entry-entry_bytes : bytes_entry (entry_bytes e) ≡ e
  unfolding bytes_entry
  bytes_entry-entry_bytes = λ i. record {
    name = take_name i;
    ext = take_ext i;
    size = read_size i;
    sector = read_sector i;
    reserved = take_reserved i;
  }

-- An empty slot of the catalog is no valid entry.
pub zeros-not_valid : is_valid_entry (bytes_entry (replicate 32 0)) ≡ false
unfolding is_valid_entry bytes_entry
zeros-not_valid = refl
