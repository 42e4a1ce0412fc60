-- ===== src/Crypto/Word.antt =====
-- 32-bit words and byte buffers (crypto.c, from get_unaligned_le32 to xor_cpy; crypto.h).
use wireguard_freebsd.Prelude.{
  ℕ, ◌+◌, ◌-◌, ◌*◌, ◌/◌, ◌%◌, ◌^◌, List, [], ◌∷◌, ◌++◌, get_or, Bytes, bit_or, bit_xor,
}

abbrev pub u32_mod : ℕ
u32_mod = 2 ^ 32

-- `a + b` and `a << k` on uint32_t.
abbrev pub add32 : ℕ → ℕ → ℕ
add32 a b = (a + b) % u32_mod

abbrev pub shl32 : ℕ → ℕ → ℕ
shl32 a k = a * 2 ^ k % u32_mod

-- get_unaligned_le32(a + i)
unfoldable pub get_unaligned_le32 : Bytes → ℕ → ℕ
get_unaligned_le32 a i =
    get_or a i 0
    + 256 * get_or a (i + 1) 0
    + 65536 * get_or a (i + 2) 0
    + 16777216 * get_or a (i + 3) 0

-- get_unaligned_le64(a + i)
unfoldable pub get_unaligned_le64 : Bytes → ℕ → ℕ
get_unaligned_le64 a i = get_unaligned_le32 a i + u32_mod * get_unaligned_le32 a (i + 4)

-- The bytes that put_unaligned_le32(s, d) writes.
abbrev pub put_unaligned_le32 : ℕ → Bytes
put_unaligned_le32 s = s % 256 ∷ s / 256 % 256 ∷ s / 65536 % 256 ∷ s / 16777216 % 256 ∷ []

-- An array of words in memory, after cpu_to_le32_array.
abbrev pub le32_bytes : List ℕ → Bytes
le32_bytes [] = []
le32_bytes (w ∷ ws) = put_unaligned_le32 w ++ le32_bytes ws

-- The bytes of cpu_to_le64(s).
abbrev pub le64_bytes : ℕ → Bytes
le64_bytes s = put_unaligned_le32 s ++ put_unaligned_le32 (s / u32_mod)

-- `(-shift) & 31`
abbrev minus_shift : ℕ → ℕ
minus_shift shift = (u32_mod - shift) % 32

unfoldable pub rol32 : ℕ → ℕ → ℕ
rol32 word shift = bit_or (shl32 word (shift % 32)) (word / 2 ^ minus_shift shift)

unfoldable pub ror32 : ℕ → ℕ → ℕ
ror32 word shift = bit_or (word / 2 ^ (shift % 32)) (shl32 word (minus_shift shift))

-- What xor_cpy(dst, src1, src2, len) writes, where `src1` is `len` bytes and `src2` at least as many.
abbrev pub xor_cpy : Bytes → Bytes → Bytes
xor_cpy [] ys = []
xor_cpy (x ∷ xs) [] = []
xor_cpy (x ∷ xs) (y ∷ ys) = bit_xor x y ∷ xor_cpy xs ys
