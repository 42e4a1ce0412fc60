-- ===== src/Noise/Counter/Bitmap.antt =====
-- `kp_backtrack` read as one bit for each of the last 8192 counters: what `clear_words` and `mark` do
-- to the bits.
use wireguard_freebsd.Prelude.{
  ℕ, zero, suc, ◌+◌, ◌/◌, ◌%◌, ◌^◌, ◌≤◌, ◌<◌, bit_or, ◌≡◌, refl, ◌∙◌, ap, ◌≢◌, List, [], ◌∷◌,
  length, set, get_or, length-set, get_or-set_self, get_or-set_ne, add64, shl64, arith,
}
use wireguard_freebsd.Prelude.Digits.{bit, bit-le-one, bit-bit_or, bit-two_pow_self, bit-two_pow_ne}
use wireguard_freebsd.Noise.Counter.{counter_words, counter_bits, clear_words}
use native.Mathlib.Nat.{pow-le-pow_right, mod-eq_of_lt}
use native.Mathlib.Decide.{ℕ_discrete}

-- The bit of counter `c`.
abbrev pub slot : List ℕ → ℕ → ℕ
slot words c = bit (get_or words (c / 64 % counter_words) 0) (c % counter_bits)

pub length-clear_words :
    (n i ic : ℕ) (words : List ℕ) → length (clear_words n i ic words) ≡ length words
unfolding clear_words
length-clear_words zero i ic words = refl
length-clear_words (suc n) i ic words =
    length-clear_words n (i + 1) ic (set words (add64 i ic % counter_words) 0)
    ∙ length-set words (add64 i ic % counter_words) 0

-- A word that no round names is left alone.
pub clear_words_miss :
    (n i ic j : ℕ) (words : List ℕ)
    → i + n + ic < 2 ^ 64
    → ((k : ℕ) → i ≤ k → k < i + n → (k + ic) % 128 ≢ j)
    → get_or (clear_words n i ic words) j 0 ≡ get_or words j 0
unfolding clear_words
clear_words_miss zero i ic j words b h = refl
clear_words_miss (suc n) i ic j words b h =
    clear_words_miss n (i + 1) ic j _ (omega arith) (λ k p q. h k (omega arith) (omega arith))
    ∙ get_or-set_ne words (add64 i ic % counter_words) j 0 0
        (λ e. h i (omega arith) (omega arith) (omega arith))

get_or-set_zero : (words : List ℕ) (i j : ℕ) → get_or words j 0 ≡ 0 → get_or (set words i 0) j 0 ≡ 0
get_or-set_zero [] i j h = h
get_or-set_zero (w ∷ ws) zero zero h = refl
get_or-set_zero (w ∷ ws) zero (suc j) h = h
get_or-set_zero (w ∷ ws) (suc i) zero h = h
get_or-set_zero (w ∷ ws) (suc i) (suc j) h = get_or-set_zero ws i j h

clear_words_zero :
    (n i ic j : ℕ) (words : List ℕ)
    → get_or words j 0 ≡ 0
    → get_or (clear_words n i ic words) j 0 ≡ 0
unfolding clear_words
clear_words_zero zero i ic j words h = h
clear_words_zero (suc n) i ic j words h =
    clear_words_zero n (i + 1) ic j _ (get_or-set_zero words (add64 i ic % counter_words) j h)

-- A word that a round names is 0 afterwards.
pub clear_words_hit :
    (n i ic k : ℕ) (words : List ℕ)
    → length words ≡ counter_words
    → i + n + ic < 2 ^ 64
    → i ≤ k
    → k < i + n
    → get_or (clear_words n i ic words) ((k + ic) % 128) 0 ≡ 0
unfolding clear_words
clear_words_hit zero i ic k words l b p q = absurd (omega arith)
clear_words_hit (suc n) i ic k words l b p q = elim (ℕ_discrete i k) [
  | yes e ↦
      let here : (k + ic) % 128 ≡ add64 i ic % counter_words = omega arith in
      clear_words_zero n (i + 1) ic ((k + ic) % 128) _
        (rw here (get_or-set_self words (add64 i ic % counter_words) 0 0 (omega arith)))
  | no ne ↦
      clear_words_hit n (i + 1) ic k _ (length-set words (add64 i ic % counter_words) 0 ∙ l)
        (omega arith) (omega arith) (omega arith)
]

-- Setting the bit of `c` sets that bit alone, among the counters of 128 successive words.
pub slot-set :
    (words : List ℕ) (c d : ℕ)
    → length words ≡ counter_words
    → c / 64 < d / 64 + 128
    → d / 64 < c / 64 + 128
    → c ≢ d
    → slot
        (set words
          (c / 64 % counter_words)
          (bit_or (get_or words (c / 64 % counter_words) 0) (2 ^ (c % 64))))
        d
      ≡ slot words d
slot-set words c d l p q ne = elim (ℕ_discrete (c / 64) (d / 64)) [
  | yes e ↦
      let here : d / 64 % counter_words ≡ c / 64 % counter_words = omega arith in
      rw here (
        ap (λ w. bit w (d % 64)) (get_or-set_self words (c / 64 % counter_words) _ 0 (omega arith))
        ∙ omega (
          arith,
          bit-bit_or (get_or words (c / 64 % counter_words) 0) (2 ^ (c % 64)) (d % 64),
          bit-two_pow_ne (c % 64) (d % 64) (omega arith),
        ))
  | no far ↦
      ap (λ w. bit w (d % counter_bits))
        (get_or-set_ne words (c / 64 % counter_words) (d / 64 % counter_words) _ 0 (omega arith))
]

pub slot-set_self :
    (words : List ℕ) (c : ℕ)
    → length words ≡ counter_words
    → slot
        (set words
          (c / 64 % counter_words)
          (bit_or (get_or words (c / 64 % counter_words) 0) (2 ^ (c % 64))))
        c
      ≡ 1
slot-set_self words c l =
    ap (λ w. bit w (c % counter_bits))
      (get_or-set_self words (c / 64 % counter_words) _ 0 (omega arith))
    ∙ omega (
      arith,
      bit-bit_or (get_or words (c / 64 % counter_words) 0) (2 ^ (c % 64)) (c % 64),
      bit-two_pow_self (c % 64),
      bit-le-one (get_or words (c / 64 % counter_words) 0) (c % 64),
    )

-- `1ul << (recv & 63)` does not overflow.
pub shl64_one : (c : ℕ) → shl64 1 (c % counter_bits) ≡ 2 ^ (c % 64)
shl64_one c = omega (
  arith,
  mod-eq_of_lt {n = 2 ^ (c % 64)} {m = 2 ^ 64}
      (omega (arith, pow-le-pow_right {n = 2} (omega arith) {i = c % 64} {j = 63} (omega arith))),
)
