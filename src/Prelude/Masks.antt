-- ===== src/Prelude/Masks.antt =====
-- Masks of the low digits, and the or of numbers that share no digit.
use Prim.Native.Nat.{ℕ, zero, suc, ◌+◌, ◌*◌, ◌/◌, ◌%◌, ◌≤◌, ◌<◌, min, max}
use Prim.Native.Nat.{bit_and, bit_or}
use mathlib.Core.Path.{◌≡◌, sym, ap, ◌∙◌}
use native.Mathlib.Omega.{arith}
use wireguard_freebsd.Prelude.Digits.{
  bit, bit-zero, bit-double, bit-bit_and, bit-bit_or, eq_of_bits,
}

-- 2 ^ k - 1
abbrev pub ones : ℕ → ℕ
ones zero = 0
ones (suc k) = ones k * 2 + 1

-- b * 2 ^ k
abbrev pub doubled : ℕ → ℕ → ℕ
doubled b zero = b
doubled b (suc k) = doubled b k * 2

-- The k lowest digits.
abbrev pub low : ℕ → ℕ → ℕ
low zero x = 0
low (suc k) x = low k (x / 2) * 2 + x % 2

bit-low : (k j x : ℕ) → bit (low k x) j ≡ min (bit x j) (bit (ones k) j)
unfolding bit
bit-low zero j x =
    let e : 0 ≡ min (bit x j) 0 = omega arith in
    bit-zero j ∙ e ∙ ap (min (bit x j)) (sym (bit-zero j))
bit-low (suc k) zero x = omega arith
bit-low (suc k) (suc j) x =
    bit-double (low k (x / 2)) (x % 2) j (omega arith)
    ∙ bit-low k j (x / 2)
    ∙ ap (min (bit (x / 2) j)) (sym (bit-double (ones k) 1 j (omega arith)))

pub bit_and-ones : (k x : ℕ) → bit_and x (ones k) ≡ low k x
bit_and-ones k x =
    eq_of_bits (bit_and x (ones k) + low k x) (bit_and x (ones k)) (low k x) (omega arith)
      (omega arith) (λ j. bit-bit_and x (ones k) j ∙ sym (bit-low k j x))

pub low_lem : (k x : ℕ) → (q : ℕ) × (x ≡ doubled q k + low k x) × (low k x < doubled 1 k)
low_lem zero x = (x, omega arith, omega arith)
low_lem (suc k) x =
    let half = low_lem k (x / 2) in (half.0, omega (arith, half.1), omega (arith, half.2))

le_of_bits : (n a b : ℕ) → a ≤ n → b ≤ n → ((k : ℕ) → bit a k ≤ bit b k) → a ≤ b
unfolding bit
le_of_bits zero a b h k all = omega arith
le_of_bits (suc n) a b h k all =
    let halves = le_of_bits n (a / 2) (b / 2) (omega arith) (omega arith) (λ j. all (suc j)) in
    omega (arith, halves, all 0)

pub bit_and-le : (x m : ℕ) → bit_and x m ≤ m
bit_and-le x m =
    le_of_bits (bit_and x m + m) (bit_and x m) m (omega arith) (omega arith)
      (λ j. omega (arith, bit-bit_and x m j))

bit-disjoint :
    (k j a b : ℕ) → a < doubled 1 k → bit (a + doubled b k) j ≡ max (bit a j) (bit (doubled b k) j)
unfolding bit
bit-disjoint zero j a b h =
    let z : a ≡ 0 = omega arith in
    let e : a + b ≡ b = omega arith in
    let f : bit b j ≡ max 0 (bit b j) = omega arith in
    ap (λ t. bit t j) e ∙ f ∙ ap (λ t. max t (bit b j)) (sym (ap (λ t. bit t j) z ∙ bit-zero j))
bit-disjoint (suc k) zero a b h = omega arith
bit-disjoint (suc k) (suc j) a b h =
    let e : (a + doubled b k * 2) / 2 ≡ a / 2 + doubled b k = omega arith in
    let f : doubled b k * 2 / 2 ≡ doubled b k = omega arith in
    ap (λ t. bit t j) e
    ∙ bit-disjoint k j (a / 2) b (omega arith)
    ∙ ap (λ t. max (bit (a / 2) j) (bit t j)) (sym f)

-- `a | (b << k)` for an a of k digits.
pub bit_or-doubled : (k a b : ℕ) → a < doubled 1 k → bit_or a (doubled b k) ≡ a + doubled b k
bit_or-doubled k a b h =
    let l = bit_or a (doubled b k) in
    let r = a + doubled b k in
    eq_of_bits (l + r) l r (omega arith) (omega arith)
      (λ j. bit-bit_or a (doubled b k) j ∙ sym (bit-disjoint k j a b h))

-- `x & 0x3ffffff`
pub low26_lem : (x : ℕ) → bit_and x 67108863 ≡ x % 67108864
low26_lem x = let split = low_lem 26 x in bit_and-ones 26 x ∙ omega (arith, split.1, split.2)
