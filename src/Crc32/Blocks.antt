-- ===== src/Crc32/Blocks.antt =====
-- The two checksums agree.
use edysquelch.Prelude.{
  ℕ, suc, ◌+◌, ◌%◌, ◌^◌, ◌<◌, ◌≡◌, refl, ap, ◌∙◌, [], ◌∷◌, All, false, ◌==◌, arith, length, get_or,
  Bytes,
}
use edysquelch.Crc32.{crc_step, block_loop, crc32n, string_crc, crc32}

block_loop-string_crc :
    (s : ℕ → ℕ) (bytes : Bytes) (i key : ℕ)
    → All (λ c. (c == 0) ≡ false) bytes
    → ((k : ℕ) → k < length bytes → s (i + k) ≡ get_or bytes k 0)
    → block_loop s (length bytes) i key ≡ string_crc bytes key
unfolding block_loop string_crc
block_loop-string_crc s [] i key full h = refl
block_loop-string_crc s (c ∷ bytes) i key (byte, full) h =
    let here : s i ≡ c = ap s (omega arith) ∙ h 0 (omega arith) in
    let later = λ (k : ℕ) (l : k < length bytes). ap s (omega arith) ∙ h (suc k) (omega arith) in
    block_loop-string_crc s bytes (i + 1) (crc_step key (s i)) full later
    ∙ ap (λ x. string_crc bytes (crc_step key x)) here
    ∙ (rw (byte) refl)

-- crc32n over the bytes of a C string, as many as it has before its zero byte, is crc32 of the string, whatever stands
-- behind it in memory.
pub crc32n-crc32 :
    (s : ℕ → ℕ) (bytes : Bytes)
    → All (λ c. (c == 0) ≡ false) bytes
    → ((k : ℕ) → k < length bytes → s k ≡ get_or bytes k 0)
    → crc32n s (length bytes) ≡ crc32 bytes
unfolding crc32n crc32
crc32n-crc32 s bytes full h =
    ap (λ x. x % 2 ^ 32)
      (block_loop-string_crc s bytes 0 0 full (λ k l. ap s (omega arith) ∙ h k l))
