-- ===== src/NawFs/Format.antt =====
-- fs/nawfs_format.h, and the functions of fs/nawfs.c on a single entry or superblock.
pub mod Bytes
pub mod Names
use naw_os.Base.{
  ℕ, zero, suc, ◌+◌, ◌*◌, ◌/◌, ◌%◌, ◌≤◌, ◌<◌, Bool, true, false, ◌&&◌, List, [], ◌∷◌, ◌++◌, ltb,
  leb, ◌==◌, if◌then◌else◌, not, length, get_or, take, drop, replicate, ◌≡◌,
}
use naw_os.Base.Int.{ℤ, pos, is_zero}
use naw_os.CString.{peek, rest, strncpy}
use naw_os.CString.Memory.{memset, memcmp}

abbrev pub max_files : ℕ
max_files = 64

abbrev pub filename_len : ℕ
filename_len = 8

abbrev pub extension_len : ℕ
extension_len = 3

abbrev pub sector_size : ℕ
sector_size = 512

abbrev pub max_file_size : ℕ
max_file_size = 512

abbrev pub fs_superblock_sector : ℕ
fs_superblock_sector = 129

abbrev pub catalog_start_sector : ℕ
catalog_start_sector = 130

abbrev pub catalog_sectors : ℕ
catalog_sectors = 9

abbrev pub data_start_sector : ℕ
data_start_sector = 139

abbrev pub data_sector_count : ℕ
data_sector_count = 64

-- sizeof(nawfs_entry) and SECTOR_SIZE / sizeof(nawfs_entry)
abbrev pub entry_size : ℕ
entry_size = 32

abbrev pub entries_per_sector : ℕ
entries_per_sector = 16

-- The arrays are lists of the bytes; `reserved` pads the packed structure to 32 bytes.
pub record Entry : Type 0 where
  pub name : List ℕ
  pub ext : List ℕ
  pub size : ℕ
  pub sector : ℕ
  pub reserved : List ℕ

-- the sizes that the C type gives
pub record IsSized (e : Entry) : Type 0 where
  pub name_len : length e.name ≡ filename_len
  pub ext_len : length e.ext ≡ extension_len
  pub size_fits : e.size < 65536
  pub sector_fits : e.sector < 65536
  pub reserved_len : length e.reserved ≡ 17

-- a `uint16_t` in memory: the machine is little-endian
abbrev pub le16 : ℕ → List ℕ
le16 n = (n % 256) ∷ (n / 256) ∷ []

abbrev pub read_le16 : List ℕ → ℕ → ℕ
read_le16 b i = get_or b i 0 + get_or b (i + 1) 0 * 256

-- the bytes of the packed structure, and the structure at some bytes
unfoldable pub entry_bytes : Entry → List ℕ
entry_bytes e = e.name ++ (e.ext ++ (le16 e.size ++ (le16 e.sector ++ e.reserved)))

unfoldable pub bytes_entry : List ℕ → Entry
bytes_entry b = record {
  name = take 8 b;
  ext = take 3 (drop 8 b);
  size = read_le16 b 11;
  sector = read_le16 b 13;
  reserved = take 17 (drop 15 b);
}

unfoldable pub pack_loop : List ℕ → List ℕ → ℕ → List ℕ
pack_loop dest src zero = dest
pack_loop [] src (suc n) = []
pack_loop (d ∷ dest) src (suc n) =
    let more = pack_loop dest (rest src) n in if peek src == 0 then d ∷ dest else peek src ∷ more

unfoldable pub pack_field : List ℕ → ℕ → List ℕ → List ℕ
unfolding pack_loop memset
pack_field dest field_len src = pack_loop (memset dest 0 field_len) src field_len

-- the loop of `unpack_field`: what it writes before the final 0
unfoldable pub unpack_field : ℕ → List ℕ → ℕ → List ℕ
unpack_field zero src field_len = []
unpack_field (suc zero) src field_len = []
unpack_field (suc dest_len) src zero = []
unpack_field (suc dest_len) src (suc field_len) =
    let more = unpack_field dest_len (rest src) field_len in
    if peek src == 0 then [] else peek src ∷ more

unfoldable pub is_valid_entry : Entry → Bool
is_valid_entry e =
    if peek e.name == 0
    then false
    else (if ltb e.sector data_start_sector
        then false
        else (if leb (data_start_sector + data_sector_count) e.sector
            then false
            else (if ltb max_file_size e.size then false else true)))

-- The packed arrays are local variables, whose first contents `memset` overwrites.
unfoldable pub entry_matches : Entry → List ℕ → List ℕ → Bool
unfolding pack_field memcmp
entry_matches e name ext =
    let packed_name = pack_field (replicate 8 0) 8 name in
    let packed_ext = pack_field (replicate 3 0) 3 ext in
    is_zero (memcmp e.name packed_name 8) && is_zero (memcmp e.ext packed_ext 3)

pub record Superblock : Type 0 where
  pub magic : List ℕ
  pub version : ℕ
  pub max_files : ℕ
  pub catalog_start_sector : ℕ
  pub catalog_sectors : ℕ
  pub data_start_sector : ℕ
  pub data_sector_count : ℕ
  pub reserved : List ℕ

-- "NAWFS1" and two zeros
abbrev pub nawfs_magic : List ℕ
nawfs_magic = 78 ∷ 65 ∷ 87 ∷ 70 ∷ 83 ∷ 49 ∷ 0 ∷ 0 ∷ []

unfoldable pub build_superblock : Superblock
build_superblock = record {
  magic = nawfs_magic;
  version = 1;
  max_files = 64;
  catalog_start_sector = 130;
  catalog_sectors = 9;
  data_start_sector = 139;
  data_sector_count = 64;
  reserved = replicate 492 0;
}

unfoldable pub superblock_is_valid : Superblock → Bool
unfolding memcmp
superblock_is_valid s =
    is_zero (memcmp s.magic nawfs_magic 8)
    && ((s.version == 1)
        && ((s.max_files == 64)
            && ((s.catalog_start_sector == 130)
                && ((s.catalog_sectors == 9)
                    && ((s.data_start_sector == 139) && (s.data_sector_count == 64))))))

unfoldable pub superblock_bytes : Superblock → List ℕ
superblock_bytes s =
    s.magic
    ++ (le16 s.version
        ++ (le16 s.max_files
            ++ (le16 s.catalog_start_sector
                ++ (le16 s.catalog_sectors
                    ++ (le16 s.data_start_sector ++ (le16 s.data_sector_count ++ s.reserved))))))

unfoldable pub bytes_superblock : List ℕ → Superblock
bytes_superblock b = record {
  magic = take 8 b;
  version = read_le16 b 8;
  max_files = read_le16 b 10;
  catalog_start_sector = read_le16 b 12;
  catalog_sectors = read_le16 b 14;
  data_start_sector = read_le16 b 16;
  data_sector_count = read_le16 b 18;
  reserved = take 492 (drop 20 b);
}
