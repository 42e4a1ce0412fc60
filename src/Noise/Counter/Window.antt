-- ===== src/Noise/Counter/Window.antt =====
-- What the replay window promises: it remembers which nonces were accepted. `IsWindow` ties the bitmap
-- of `kp_backtrack` to that memory; `advance` and `mark` keep it.
use wireguard_freebsd.Prelude.{
  member, ℕ, zero, suc, ◌+◌, ◌-◌, ◌/◌, ◌%◌, ◌^◌, ◌≤◌, ◌<◌, min, max, ◌≡◌, refl, sym, ◌∙◌, ap, inl,
  inr, true, List, [], length, get_or-replicate, sub64, if◌then◌else◌, ltb, tests, ltb→lt,
  Bool-cases, arith,
}
use wireguard_freebsd.Prelude.Digits.{bit, bit-zero}
use wireguard_freebsd.Noise.Counter.{
  Counter, counter_words, reject_after_messages, clear_words, advance, fresh,
}
use wireguard_freebsd.Noise.Counter.Bitmap.{
  slot, length-clear_words, clear_words_miss, clear_words_hit,
}
use native.Mathlib.Decide.{dec_lt}

-- The nonces accepted so far, and one more than the largest of them.
pub record Memory : Type 0 where
  pub top : ℕ
  pub accepted : List ℕ

-- The bit that counter `c` should have: counter `n + 1` stands for nonce `n`.
abbrev pub marked : Memory → ℕ → ℕ
marked s zero = 0
marked s (suc n) = if member n s.accepted then 1 else 0

pub record IsWindow (kp : Counter) (s : Memory) : Type 0 where
  pub size : length kp.backtrack ≡ counter_words
  pub top_is : kp.nonce_recv ≡ s.top
  pub in_range : s.top ≤ reject_after_messages
  pub below : (n : ℕ) → member n s.accepted ≡ true → n < s.top
  pub bits :
      (c : ℕ) → c / 64 ≤ s.top / 64 → s.top / 64 < c / 64 + 128 → slot kp.backtrack c ≡ marked s c

-- Counters above the top are not marked.
marked_above :
    (s : Memory) (c : ℕ)
    → ((n : ℕ) → member n s.accepted ≡ true → n < s.top)
    → s.top < c
    → marked s c ≡ 0
marked_above s zero below h = refl
marked_above s (suc n) below h = elim (Bool-cases (member n s.accepted)) [
  | inl e ↦ absurd (omega (arith, below n e))
  | inr e ↦ rw e
]

-- The window of a larger top, before the new counter is marked in it.
pub record IsMoved (kp : Counter) (s : Memory) : Type 0 where
  pub size : length kp.backtrack ≡ counter_words
  pub bits :
      (c : ℕ)
      → c / 64 ≤ kp.nonce_recv / 64
      → kp.nonce_recv / 64 < c / 64 + 128
      → slot kp.backtrack c ≡ marked s c

-- The words that `advance` clears are those above the old top, down to 128 words from the new one.
clear_words-slot :
    (words : List ℕ) (old new c : ℕ)
    → length words ≡ counter_words
    → old ≤ new
    → new < 2 ^ 58
    → c / 64 ≤ new
    → new < c / 64 + 128
    → (c / 64 ≤ old → slot (clear_words (min (new - old) 128) 1 old words) c ≡ slot words c)
      × (old < c / 64 → slot (clear_words (min (new - old) 128) 1 old words) c ≡ 0)
clear_words-slot words old new c l p b q r = (kept, cleared)
  where
    kept : c / 64 ≤ old → slot (clear_words (min (new - old) 128) 1 old words) c ≡ slot words c
    kept h =
        ap (λ w. bit w (c % 64))
          (clear_words_miss (min (new - old) 128) 1 old (c / 64 % counter_words) words (omega arith)
            (λ k u v. omega arith))

    cleared : old < c / 64 → slot (clear_words (min (new - old) 128) 1 old words) c ≡ 0
    cleared h =
        let k : ℕ = (c / 64 - old - 1) % 128 + 1 in
        let e : c / 64 % counter_words ≡ (k + old) % 128 = omega arith in
        rw e (
          ap (λ w. bit w (c % 64))
            (clear_words_hit (min (new - old) 128) 1 old k words l (omega arith) (omega arith)
              (omega arith))
          ∙ bit-zero (c % 64))

abbrev pub forgotten : Memory
forgotten = record { top = 0; accepted = [] }

marked-forgotten : (c : ℕ) → marked forgotten c ≡ 0
marked-forgotten zero = refl
marked-forgotten (suc n) = refl

-- A zeroed keypair remembers nothing.
pub fresh-IsWindow : IsWindow fresh forgotten
fresh-IsWindow = record {
  size = refl;
  top_is = refl;
  in_range = omega arith;
  below = λ n h. cc;
  bits = λ c p q.
      ap (λ w. bit w (c % 64)) (get_or-replicate counter_words (c / 64 % counter_words) 0)
      ∙ bit-zero (c % 64)
      ∙ sym (marked-forgotten c);
}

module _ (kp : Counter) (s : Memory) (recv : ℕ) (w : IsWindow kp s)
    (r : recv ≤ reject_after_messages) (e : kp.nonce_recv < recv) where
  -- The bitmap after the loop of `advance`.
  cleared_words : List ℕ
  cleared_words =
      clear_words (min (sub64 (recv / 64) (kp.nonce_recv / 64)) counter_words) 1
        (kp.nonce_recv / 64) kp.backtrack

  cleared_words-bits :
      (c : ℕ) → c / 64 ≤ recv / 64 → recv / 64 < c / 64 + 128 → slot cleared_words c ≡ marked s c
  unfolding cleared_words
  cleared_words-bits c p q =
      let rounds : sub64 (recv / 64) (kp.nonce_recv / 64) ≡ recv / 64 - kp.nonce_recv / 64 =
        omega arith in
      let split =
        clear_words-slot kp.backtrack (kp.nonce_recv / 64) (recv / 64) c w.size (omega arith)
          (omega arith) p q in
      rw rounds (elim (dec_lt (kp.nonce_recv / 64) (c / 64)) [
        | yes above ↦ split.1 above ∙ sym (marked_above s c w.below (omega arith))
        | no under ↦ split.0 (omega arith) ∙ w.bits c (omega arith) (omega arith)
      ])

-- `advance` makes the window's top the larger of the two counters, and keeps every bit right.
pub advance-IsMoved :
    (kp : Counter) (s : Memory) (recv : ℕ)
    → IsWindow kp s
    → recv ≤ reject_after_messages
    → IsMoved (advance kp recv) s
      × ((advance kp recv).nonce_recv ≡ max s.top recv)
      × ((advance kp recv).nonce_send ≡ kp.nonce_send)
unfolding advance cleared_words
advance-IsMoved kp s recv w r = elim (Bool-cases (ltb kp.nonce_recv recv)) [
  | inl e ↦ rw e (
    (record {
      size = length-clear_words _ 1 (kp.nonce_recv / 64) kp.backtrack ∙ w.size;
      bits = cleared_words-bits kp s recv w r (ltb→lt _ _ e);
    }),
    omega tests,
    refl,
  )
  | inr e ↦ rw e (
    (record { size = w.size; bits = λ c p q. w.bits c (omega arith) (omega arith) }),
    omega tests,
    refl,
  )
]
