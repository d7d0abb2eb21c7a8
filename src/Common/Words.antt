-- ===== src/Common/Words.antt =====
-- Casts to the unsigned widths of <stdint.h>, subtraction that wraps, and the bits of registers.
use Prim.Native.Nat.{ℕ, ◌+◌, ◌-◌, ◌*◌, ◌%◌, ◌^◌, bit_and, bit_or}

abbrev pub u8 : ℕ → ℕ
u8 n = n % 2 ^ 8

abbrev pub u16 : ℕ → ℕ
u16 n = n % 2 ^ 16

abbrev pub u32 : ℕ → ℕ
u32 n = n % 2 ^ 32

-- `a - b` in `uint16_t` and `uint32_t`; `-` on ℕ stops at 0, so the modulus is added first.
abbrev pub sub16 : ℕ → ℕ → ℕ
sub16 a b = (a + 2 ^ 16 - b) % 2 ^ 16

abbrev pub sub32 : ℕ → ℕ → ℕ
sub32 a b = (a + 2 ^ 32 - b) % 2 ^ 32

-- `m << k` in 32 bits
unfoldable pub shl32 : ℕ → ℕ → ℕ
shl32 m k = u32 (m * 2 ^ k)

-- `reg & ~mask` and `reg | mask`
unfoldable pub clear_bits : ℕ → ℕ → ℕ
clear_bits reg mask = bit_and reg (2 ^ 32 - 1 - mask)

unfoldable pub set_bits : ℕ → ℕ → ℕ
set_bits reg mask = bit_or reg mask
