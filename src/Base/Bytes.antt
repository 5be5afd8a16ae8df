-- ===== src/Base/Bytes.antt =====
-- Machine words as numbers.
use Prim.Native.Nat.{ℕ, ◌%◌, ◌^◌, ◌<◌}

-- the conversion to `uint8_t`, `uint16_t`, `uint32_t`
abbrev pub u8 : ℕ → ℕ
u8 n = n % 2 ^ 8

abbrev pub u16 : ℕ → ℕ
u16 n = n % 2 ^ 16

abbrev pub u32 : ℕ → ℕ
u32 n = n % 2 ^ 32

abbrev pub IsByte : ℕ → Type 0
IsByte n = n < 2 ^ 8
