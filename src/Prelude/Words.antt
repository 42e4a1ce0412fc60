-- ===== src/Prelude/Words.antt =====
-- Unsigned 64-bit arithmetic of C, and the error numbers that the code returns.
use Prim.Native.Nat.{ℕ, ◌+◌, ◌-◌, ◌*◌, ◌%◌, ◌^◌}
use Prim.Native.Char.{code}
use Prim.Native.String.{String}
use mathlib.Core.List.{List, [], ◌∷◌}

abbrev pub u64_mod : ℕ
u64_mod = 2 ^ 64

-- `a + b`, `a - b` and `a << k` on uint64_t (unsigned long on LP64).
abbrev pub add64 : ℕ → ℕ → ℕ
add64 a b = (a + b) % u64_mod

abbrev pub sub64 : ℕ → ℕ → ℕ
sub64 a b = (a + u64_mod - b) % u64_mod

abbrev pub shl64 : ℕ → ℕ → ℕ
shl64 a k = a * 2 ^ k % u64_mod

-- The `int` that a function returns: 0, or one of the errno(2) numbers that occur in the source.
pub data Errno : Type 0 where
  success : Errno
  einval eexist enoent enospc enxio etimedout econnreset estale : Errno
  eagain econnrefused eafnosupport enobufs enomem emsgsize ebadmsg : Errno

-- A string of bytes in memory.
abbrev pub Bytes : Type 0
Bytes = List ℕ

-- The bytes of a C string literal, without the final zero.
abbrev pub codes : String → Bytes
codes String.[] = []
codes (String.◌∷◌ c s) = code c ∷ codes s

-- A value, or the error number that the function returns instead.
pub data Result {ℓ} (A : Type ℓ) : Type ℓ where
  ok : A → Result A
  err : Errno → Result A
