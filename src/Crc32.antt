-- ===== src/Crc32.antt =====
-- src/crc32.c: the table of 128 remainders, and the checksum of a block and of a C string.
pub mod Blocks
mod Tests
use Prim.Native.Nat.{bit_xor}
use edysquelch.Prelude.{ℕ, zero, suc, ◌+◌, ◌/◌, ◌%◌, ◌^◌, [], ◌∷◌, ◌==◌, if◌then◌else◌, Bytes}

-- POLY, which is POLY31
abbrev pub poly : ℕ
poly = 1207959552

-- The inner loop of crcinit from bit `j - 1` down.
unfoldable pub table_loop : ℕ → ℕ → ℕ → ℕ
table_loop i zero sum = sum
table_loop i (suc j) sum =
    table_loop i j (if i / 2 ^ j % 2 == 1 then bit_xor sum (poly / 2 ^ j) else sum)

-- CrcTable[i]; the table is filled before its first use.
unfoldable pub crc_table : ℕ → ℕ
unfolding table_loop
crc_table i = table_loop i 7 0

-- key = (key >> 7) ^ CrcTable[(key ^ *s) & 0x7f]
unfoldable pub crc_step : ℕ → ℕ → ℕ
unfolding crc_table
crc_step key c = bit_xor (key / 128) (crc_table (bit_xor key c % 128))

-- The loop of crc32n at index `i` of the block, with the rounds left.
unfoldable pub block_loop : (ℕ → ℕ) → ℕ → ℕ → ℕ → ℕ
unfolding crc_step
block_loop s zero i key = key
block_loop s (suc n) i key = block_loop s n (i + 1) (crc_step key (s i))

unfoldable pub crc32n : (ℕ → ℕ) → ℕ → ℕ
unfolding block_loop
crc32n s slen = block_loop s slen 0 0 % 2 ^ 32

-- The loop of crc32, which ends at a zero byte, or at the end of the list, behind which it stands.
unfoldable pub string_crc : Bytes → ℕ → ℕ
unfolding crc_step
string_crc [] key = key
string_crc (c ∷ s) key = if c == 0 then key else string_crc s (crc_step key c)

unfoldable pub crc32 : Bytes → ℕ
unfolding string_crc
crc32 s = string_crc s 0 % 2 ^ 32
