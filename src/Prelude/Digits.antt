-- ===== src/Prelude/Digits.antt =====
-- Single binary digits of `a & b`, `a | b` and `1 << k`, for numbers of every size.
use Prim.Native.Nat.{ℕ, zero, suc, ◌+◌, ◌*◌, ◌/◌, ◌%◌, ◌^◌, ◌≤◌, min, max}
use Prim.Native.Nat.{
  bit_and, bit_or, bit_xor, digits, differ, bit_and-bitwise, bit_or-bitwise, bit_xor-bitwise,
}
use mathlib.Core.Path.{◌≡◌, refl, sym, ◌∙◌, ap, ap₂}
use mathlib.Core.Logic.{◌≢◌}
use native.Mathlib.Nat.{pow-suc}
use native.Mathlib.Decide.{ℕ_discrete}
use native.Mathlib.Omega.{arith}

-- The binary digit of `w` with weight 2 ^ k.
unfoldable pub bit : ℕ → ℕ → ℕ
bit w zero = w % 2
bit w (suc k) = bit (w / 2) k

pub bit-le-one : (w k : ℕ) → bit w k ≤ 1
unfolding bit
bit-le-one w zero = omega arith
bit-le-one w (suc k) = bit-le-one (w / 2) k

pub bit-zero : (k : ℕ) → bit 0 k ≡ 0
unfolding bit
bit-zero zero = refl
bit-zero (suc k) = bit-zero k

pub bit-double : (x d k : ℕ) → d ≤ 1 → bit (x * 2 + d) (suc k) ≡ bit x k
unfolding bit
bit-double x d k h = let e : (x * 2 + d) / 2 ≡ x = omega arith in ap (λ t. bit t k) e

pub bit-double_lowest : (x d : ℕ) → d ≤ 1 → bit (x * 2 + d) 0 ≡ d
unfolding bit
bit-double_lowest x d h = omega arith

-- The digits of an operation that the digit function `f` describes.
module _ (z : ℕ → ℕ) (f : ℕ → ℕ → ℕ) (end : (b k : ℕ) → bit (z b) k ≡ f 0 (bit b k))
    (small : (x y : ℕ) → x ≤ 1 → y ≤ 1 → f x y ≤ 1) where
  bit-digits : (n a b k : ℕ) → a ≤ n → bit (digits z f n a b) k ≡ f (bit a k) (bit b k)
  unfolding bit
  bit-digits zero zero b k h = end b k ∙ ap (λ t. f t (bit b k)) (ground (arith, bit-zero k))
  bit-digits zero (suc a) b k h = absurd (omega arith)
  bit-digits (suc n) zero b k h = end b k ∙ ap (λ t. f t (bit b k)) (ground (arith, bit-zero k))
  bit-digits (suc n) (suc a) b zero h =
      bit-double_lowest (digits z f n (suc a / 2) (b / 2)) (f (suc a % 2) (b % 2))
        (small (suc a % 2) (b % 2) (omega arith) (omega arith))
  bit-digits (suc n) (suc a) b (suc k) h =
      bit-double (digits z f n (suc a / 2) (b / 2)) (f (suc a % 2) (b % 2)) k
        (small (suc a % 2) (b % 2) (omega arith) (omega arith))
      ∙ bit-digits n (suc a / 2) (b / 2) k (omega arith)

pub bit-bit_and : (a b k : ℕ) → bit (bit_and a b) k ≡ min (bit a k) (bit b k)
bit-bit_and a b k =
    ap (λ t. bit t k) (bit_and-bitwise a b)
    ∙ bit-digits (λ y. zero) min (λ y j. ground (arith, bit-zero j)) (λ x y p q. omega arith) a a b
        k (omega arith)

pub bit-bit_or : (a b k : ℕ) → bit (bit_or a b) k ≡ max (bit a k) (bit b k)
bit-bit_or a b k =
    ap (λ t. bit t k) (bit_or-bitwise a b)
    ∙ bit-digits (λ y. y) max (λ y j. omega arith) (λ x y p q. omega arith) a a b k (omega arith)

pub bit-bit_xor : (a b k : ℕ) → bit (bit_xor a b) k ≡ differ (bit a k) (bit b k)
bit-bit_xor a b k =
    ap (λ t. bit t k) (bit_xor-bitwise a b)
    ∙ bit-digits (λ y. y) differ (λ y j. refl) digit a a b k (omega arith)
  where
    digit : (x y : ℕ) → x ≤ 1 → y ≤ 1 → differ x y ≤ 1
    digit zero y h k = k
    digit (suc zero) zero h k = h
    digit (suc zero) (suc y) h k = omega arith
    digit (suc (suc x)) y h k = absurd (omega arith)

pub bit-two_pow_self : (k : ℕ) → bit (2 ^ k) k ≡ 1
unfolding bit
bit-two_pow_self zero = refl
bit-two_pow_self (suc k) =
    let e : 2 ^ suc k / 2 ≡ 2 ^ k = omega (arith, pow-suc 2 k) in
    ap (λ t. bit t k) e ∙ bit-two_pow_self k

pub bit-two_pow_ne : (j k : ℕ) → j ≢ k → bit (2 ^ j) k ≡ 0
unfolding bit
bit-two_pow_ne zero zero h = absurd (h refl)
bit-two_pow_ne zero (suc k) h = bit-zero k
bit-two_pow_ne (suc j) zero h = omega (arith, pow-suc 2 j)
bit-two_pow_ne (suc j) (suc k) h =
    let e : 2 ^ suc j / 2 ≡ 2 ^ j = omega (arith, pow-suc 2 j) in
    ap (λ t. bit t k) e ∙ bit-two_pow_ne j k (λ q. h (ap suc q))

-- A number without a digit 1 is 0.
zero_of_bits : (n w : ℕ) → w ≤ n → ((k : ℕ) → bit w k ≡ 0) → w ≡ 0
unfolding bit
zero_of_bits n zero h all = refl
zero_of_bits zero (suc w) h all = absurd (omega arith)
zero_of_bits (suc n) (suc w) h all =
    omega (arith, zero_of_bits n (suc w / 2) (omega arith) (λ k. all (suc k)), all 0)

differ-zero : (x : ℕ) → differ x 0 ≡ x
differ-zero zero = refl
differ-zero (suc x) = refl

-- Two numbers with the same digits are the same.
pub eq_of_bits : (n a b : ℕ) → a ≤ n → b ≤ n → ((k : ℕ) → bit a k ≡ bit b k) → a ≡ b
unfolding bit
eq_of_bits zero a b h k all = omega arith
eq_of_bits (suc n) a b h k all =
    let halves : a / 2 ≡ b / 2 =
      eq_of_bits n (a / 2) (b / 2) (omega arith) (omega arith) (λ j. all (suc j)) in
    omega (arith, halves, all 0)

-- `a ^ b ^ b` is a.
pub bit_xor_self : (a b : ℕ) → bit_xor (bit_xor a b) b ≡ a
bit_xor_self a b =
    eq_of_bits (bit_xor (bit_xor a b) b + a) (bit_xor (bit_xor a b) b) a (omega arith) (omega arith)
      (λ k.
        bit-bit_xor (bit_xor a b) b k
        ∙ ap (λ t. differ t (bit b k)) (bit-bit_xor a b k)
        ∙ undo (bit a k) (bit b k) (bit-le-one a k) (bit-le-one b k))
  where
    undo : (x y : ℕ) → x ≤ 1 → y ≤ 1 → differ (differ x y) y ≡ x
    undo zero zero h k = refl
    undo zero (suc zero) h k = refl
    undo (suc zero) zero h k = refl
    undo (suc zero) (suc zero) h k = refl
    undo x (suc (suc y)) h k = absurd (omega arith)
    undo (suc (suc x)) y h k = absurd (omega arith)

-- `a ^ b ^ (c ^ b)` is a ^ c.
pub bit_xor-exchange : (a b c : ℕ) → bit_xor (bit_xor a b) (bit_xor c b) ≡ bit_xor a c
bit_xor-exchange a b c =
    let l = bit_xor (bit_xor a b) (bit_xor c b) in
    let r = bit_xor a c in
    eq_of_bits (l + r) l r (omega arith) (omega arith) (λ k.
      bit-bit_xor (bit_xor a b) (bit_xor c b) k
      ∙ ap₂ differ (bit-bit_xor a b k) (bit-bit_xor c b k)
      ∙ exchange (bit a k) (bit b k) (bit c k) (bit-le-one a k) (bit-le-one b k) (bit-le-one c k)
      ∙ sym (bit-bit_xor a c k))
  where
    exchange : (x y z : ℕ) → x ≤ 1 → y ≤ 1 → z ≤ 1 → differ (differ x y) (differ z y) ≡ differ x z
    exchange x zero z h k l = ap₂ differ (differ-zero x) (differ-zero z)
    exchange zero (suc zero) zero h k l = refl
    exchange zero (suc zero) (suc zero) h k l = refl
    exchange (suc zero) (suc zero) zero h k l = refl
    exchange (suc zero) (suc zero) (suc zero) h k l = refl
    exchange x (suc (suc y)) z h k l = absurd (omega arith)
    exchange (suc (suc x)) (suc zero) z h k l = absurd (omega arith)
    exchange x (suc zero) (suc (suc z)) h k l = absurd (omega arith)

-- `w & (1 << k)` is 0 exactly when digit k of `w` is.
pub bit_and-two_pow_of_clear : (w k : ℕ) → bit w k ≡ 0 → bit_and w (2 ^ k) ≡ 0
bit_and-two_pow_of_clear w k h = zero_of_bits (bit_and w (2 ^ k)) _ (omega arith) clear
  where
    clear : (j : ℕ) → bit (bit_and w (2 ^ k)) j ≡ 0
    clear j = elim (ℕ_discrete k j) [
      | yes e ↦ ground (arith, bit-bit_and w (2 ^ k) j)
      | no ne ↦ omega (arith, bit-bit_and w (2 ^ k) j, bit-two_pow_ne k j ne)
    ]

pub clear_of_bit_and-two_pow : (w k : ℕ) → bit_and w (2 ^ k) ≡ 0 → bit w k ≡ 0
clear_of_bit_and-two_pow w k h = omega (
  arith,
  ap (λ t. bit t k) h,
  bit-zero k,
  bit-bit_and w (2 ^ k) k,
  bit-two_pow_self k,
  bit-le-one w k,
)
