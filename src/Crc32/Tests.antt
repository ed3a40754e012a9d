-- ===== src/Crc32/Tests.antt =====
-- Checksums of a few strings.
use edysquelch.Prelude.{ℕ, ◌≡◌, refl, get_or, codes}
use edysquelch.Crc32.{crc32n, crc32}

-- The memory that holds the string "ab", and a 7 everywhere behind it.
abbrev memory : ℕ → ℕ
memory i = get_or (codes "ab") i 7

crc32n-memory : crc32n memory 2 ≡ crc32 (codes "ab")
unfolding crc32n crc32
crc32n-memory = refl
