-- ===== src/Noise/Counter/Refine.antt =====
-- `noise_keypair_nonce_check` against its specification: a nonce is accepted exactly if it is below the
-- limit, not older than the window, and was not accepted before.
use wireguard_freebsd.Prelude.{
  member, ℕ, zero, suc, ◌+◌, ◌/◌, ◌%◌, ◌≤◌, ◌<◌, max, ◌≡◌, refl, sym, ◌∙◌, ◌≢◌, inl, inr, Bool,
  true, false, ◌||◌, List, [], ◌∷◌, set, get_or, length-set, bit_or, bit_and, add64, shl64,
  if◌then◌else◌, ltb, leb, tests, Bool-cases, Errno, success, eexist, arith,
}
use wireguard_freebsd.Prelude.Digits.{bit_and-two_pow_of_clear, clear_of_bit_and-two_pow}
use wireguard_freebsd.Noise.Counter.{
  Counter, counter_words, counter_bits, counter_window_size, reject_after_messages, advance, mark,
  nonce_check, run,
}
use wireguard_freebsd.Noise.Counter.Bitmap.{slot, slot-set, slot-set_self, shl64_one}
use wireguard_freebsd.Noise.Counter.Window.{Memory, IsWindow, IsMoved, marked, advance-IsMoved}
use native.Mathlib.Decide.{ℕ_discrete}

abbrev pub refused : Memory → ℕ → Bool
refused s n =
    leb reject_after_messages n || (ltb (n + 1 + counter_window_size) s.top || member n s.accepted)

-- The specification, with no bitmap.
unfoldable pub remember : Memory → ℕ → Errno × Memory
remember s n =
    if refused s n
    then (eexist, s)
    else (success, record { top = max s.top (n + 1); accepted = n ∷ s.accepted })

pub run_spec : Memory → List ℕ → List Errno
run_spec s [] = []
run_spec s (n ∷ ns) = let (e, s') = remember s n in e ∷ run_spec s' ns

marked-cons_self :
    (s : Memory) (t n : ℕ) → marked (record { top = t; accepted = n ∷ s.accepted }) (suc n) ≡ 1
marked-cons_self s t n = ground arith

marked-cons_ne :
    (s : Memory) (t n c : ℕ)
    → suc n ≢ c
    → marked (record { top = t; accepted = n ∷ s.accepted }) c ≡ marked s c
marked-cons_ne s t n zero h = refl
marked-cons_ne s t n (suc k) h = ground arith

module _ (kp : Counter) (s : Memory) (n : ℕ) (m : IsMoved kp s)
    (top_is : kp.nonce_recv ≡ max s.top (suc n)) (young : s.top ≤ n + 1 + counter_window_size) where
  word_clear :
      member n s.accepted ≡ false
      → bit_and
          (get_or kp.backtrack (suc n / 64 % counter_words) 0)
          (shl64 1 (suc n % counter_bits))
        ≡ 0
  word_clear h = rw (shl64_one (suc n)) (
      bit_and-two_pow_of_clear _ (suc n % 64) (m.bits (suc n) (omega arith) (omega arith) ∙ (rw h)))

  word_set :
      member n s.accepted ≡ true
      → bit_and
          (get_or kp.backtrack (suc n / 64 % counter_words) 0)
          (shl64 1 (suc n % counter_bits))
        ≢ 0
  word_set h e =
      let unset : slot kp.backtrack (suc n) ≡ 0 =
        clear_of_bit_and-two_pow _ (suc n % 64) (rw shl64_one at e) in
      let one : marked s (suc n) ≡ 1 = rw h in
      omega (arith, unset, one, m.bits (suc n) (omega arith) (omega arith))

  -- A counter that was accepted is refused.
  mark_again : member n s.accepted ≡ true → mark kp (suc n) ≡ (eexist, kp)
  unfolding mark
  mark_again h = ground (arith, word_set h)

  abbrev marked_words : List ℕ
  marked_words =
      set kp.backtrack (suc n / 64 % counter_words) (
        bit_or (get_or kp.backtrack (suc n / 64 % counter_words) 0)
          (shl64 1 (suc n % counter_bits)))

  mark_new :
      member n s.accepted ≡ false
      → mark kp (suc n) ≡ (success, record kp { backtrack = marked_words })
  unfolding mark
  mark_new h = ground (arith, word_clear h)

  marked_words-bits :
      (c : ℕ)
      → c / 64 ≤ kp.nonce_recv / 64
      → kp.nonce_recv / 64 < c / 64 + 128
      → slot marked_words c
        ≡ marked (record { top = max s.top (n + 1); accepted = n ∷ s.accepted }) c
  marked_words-bits c p q = elim (ℕ_discrete (suc n) c) [
    | yes e ↦
        rw (← e, shl64_one)
          (slot-set_self kp.backtrack (suc n) m.size
            ∙ sym (marked-cons_self s (max s.top (n + 1)) n))
    | no ne ↦ rw shl64_one (
        slot-set kp.backtrack (suc n) c m.size (omega arith) (omega arith) ne
        ∙ m.bits c p q
        ∙ sym (marked-cons_ne s (max s.top (n + 1)) n c ne))
  ]

  mark-IsWindow :
      suc n ≤ reject_after_messages
      → s.top ≤ reject_after_messages
      → ((k : ℕ) → member k s.accepted ≡ true → k < s.top)
      → IsWindow
          (record kp { backtrack = marked_words })
          (record { top = max s.top (n + 1); accepted = n ∷ s.accepted })
  mark-IsWindow r t below = record {
    size = length-set kp.backtrack (suc n / 64 % counter_words) _ ∙ m.size;
    top_is = omega arith;
    in_range = omega arith;
    below = λ k h. ground (arith, below k);
    bits = λ c p q. marked_words-bits c (omega arith) (omega arith);
  }

-- Nothing moves for a counter below the top.
advance_old : (kp : Counter) (recv : ℕ) → recv ≤ kp.nonce_recv → advance kp recv ≡ kp
unfolding advance
advance_old kp recv h = ground arith

-- The state after a check and its answer, against the specification's.
pub record Agrees (out : Errno × Counter) (spec : Errno × Memory) : Type 0 where
  pub answer : out.0 ≡ spec.0
  pub window : IsWindow out.1 spec.1

remember-refused : (s : Memory) (n : ℕ) → refused s n ≡ true → remember s n ≡ (eexist, s)
unfolding remember
remember-refused s n h = rw h

remember_new :
    (s : Memory) (n : ℕ)
    → refused s n ≡ false
    → remember s n ≡ (success, record { top = max s.top (n + 1); accepted = n ∷ s.accepted })
unfolding remember
remember_new s n h = rw h

module _ (kp : Counter) (s : Memory) (n : ℕ) (w : IsWindow kp s) (r : n < reject_after_messages)
    (young : s.top ≤ n + 1 + counter_window_size) where
  mark-Agrees : Agrees (mark (advance kp (suc n)) (suc n)) (remember s n)
  mark-Agrees =
      let moved = advance-IsMoved kp s (suc n) w (omega arith) in
      let top_is : (advance kp (suc n)).nonce_recv ≡ max s.top (suc n) = moved.1 in
      elim (Bool-cases (member n s.accepted)) [
        | inl old ↦
            rw
              (
                remember-refused s n (ground arith),
                mark_again (advance kp (suc n)) s n moved.0 top_is young old,
                advance_old kp (suc n) (omega (arith, w.below n old)),
              )
              (record { answer = refl; window = w })
        | inr new ↦
            rw
              (
                remember_new s n (ground arith),
                mark_new (advance kp (suc n)) s n moved.0 top_is young new,
              )
              (record {
                answer = refl;
                window =
                    mark-IsWindow (advance kp (suc n)) s n moved.0 top_is young (omega arith)
                      w.in_range w.below;
              })
      ]

-- `noise_keypair_nonce_check` gives the answer of the specification, and the bitmap it leaves stands
-- for the nonces that the specification remembers, if it did before.
pub nonce_check-Agrees :
    (kp : Counter) (s : Memory) (n : ℕ) → IsWindow kp s → Agrees (nonce_check kp n) (remember s n)
unfolding nonce_check
nonce_check-Agrees kp s n w = elim (Bool-cases (leb reject_after_messages n)) [
  | inl spent ↦
      let first : (leb (reject_after_messages + 1) kp.nonce_recv || leb reject_after_messages n)
          ≡ true =
        ground arith in
      rw (first, remember-refused s n (ground arith)) (record { answer = refl; window = w })
  | inr open_n ↦
      let first : (leb (reject_after_messages + 1) kp.nonce_recv || leb reject_after_messages n)
          ≡ false =
        ground (arith, w.in_range) in
      let next : add64 n 1 ≡ suc n = omega tests in
      let last : add64 (suc n) counter_window_size ≡ n + 1 + counter_window_size = omega tests in
      rw (first, next, last)
        (elim (Bool-cases (ltb (n + 1 + counter_window_size) kp.nonce_recv)) [
          | inl late ↦
              rw (late, remember-refused s n (ground arith)) (record { answer = refl; window = w })
          | inr young ↦ rw young (mark-Agrees kp s n w (omega tests) (omega tests))
        ])
]

-- Packet by packet, the answers are those of the specification, which remembers the accepted nonces as
-- a list, if the bitmap stands for that list at the start (as a new keypair's does for the empty one).
pub run-eq-run_spec :
    (kp : Counter) (s : Memory) (ns : List ℕ) → IsWindow kp s → run kp ns ≡ run_spec s ns
unfolding run run_spec
run-eq-run_spec kp s [] w = refl
run-eq-run_spec kp s (n ∷ ns) w =
    let step = nonce_check-Agrees kp s n w in
    cc (step.answer, run-eq-run_spec (nonce_check kp n).1 (remember s n).1 ns step.window)
