-- ===== src/Crypto/Poly/Horner.antt =====
-- poly1305_blocks_core as the value of a polynomial modulo 2^130 - 5.
use wireguard_freebsd.Prelude.{
  ℕ, zero, suc, ◌+◌, ◌*◌, ◌/◌, ◌^◌, ◌≡◌, ap, ◌∙◌, Bytes, [], ◌∷◌, length, take, drop, each_block,
  arith,
}
use wireguard_freebsd.Crypto.Poly.{PolyInternal, poly1305_block, poly1305_blocks_core}
use wireguard_freebsd.Crypto.Poly.Field.Values.{prime, value, le_value, IsBytes, IsCarried, IsKeyed}
use wireguard_freebsd.Crypto.Poly.Field.{poly1305_block_lem}

-- RFC 8439, section 2.5, on whole blocks: acc = (acc + block + 2^128) * r.
abbrev pub horner : ℕ → ℕ → ℕ → Bytes → ℕ
horner r zero acc input = acc
horner r (suc n) acc input =
    horner r n ((acc + le_value (take 16 input) + 2 ^ 128) * r) (drop 16 input)

drop-IsBytes : (n : ℕ) (xs : Bytes) → IsBytes xs → IsBytes (drop n xs)
drop-IsBytes zero xs h i = h i
drop-IsBytes (suc n) [] h i = h i
drop-IsBytes (suc n) (x ∷ xs) h i = drop-IsBytes n xs (λ j. h (suc j)) i

take-IsBytes : (n : ℕ) (xs : Bytes) → IsBytes xs → IsBytes (take n xs)
take-IsBytes zero xs h i = omega arith
take-IsBytes (suc n) [] h i = omega arith
take-IsBytes (suc n) (x ∷ xs) h zero = h 0
take-IsBytes (suc n) (x ∷ xs) h (suc i) = take-IsBytes n xs (λ j. h (suc j)) i

-- The sum of two numbers that differ by a multiple of p, times r.
shift_multiple :
    (v c acc m r : ℕ) → v + c * prime ≡ acc → (v + m) * r + c * r * prime ≡ (acc + m) * r
shift_multiple v c acc m r h =
    let e : (v + m) * r + c * r * prime ≡ (v + c * prime + m) * r = omega arith in
    e ∙ ap (λ t. (t + m) * r) h

blocks_value :
    (n : ℕ) (st : PolyInternal) (acc : ℕ) (input : Bytes)
    → IsCarried st.h
    → IsKeyed st
    → IsBytes input
    → (c : ℕ) × (value st.h + c * prime ≡ acc)
    → let end = each_block 16 (poly1305_block 1) n st input in
      ((c : ℕ) × (value end.h + c * prime ≡ horner (value st.r) n acc input))
      × IsCarried end.h
      × IsKeyed end
unfolding poly1305_block
blocks_value zero st acc input h k b near = (near, h, k)
blocks_value (suc n) st acc input h k b near =
    let m : Bytes = take 16 input in
    let turn = poly1305_block_lem 1 st m (omega arith) h k (take-IsBytes 16 input b) in
    let r = value st.r in
    let next = poly1305_block 1 st m in
    let add = le_value m + 2 ^ 128 in
    blocks_value n next ((acc + le_value m + 2 ^ 128) * r) (drop 16 input) turn.1 turn.2
      (drop-IsBytes 16 input b)
      (
        turn.0.0 + near.0 * r,
        step (value next.h) turn.0.0 (value st.h) near.0 acc (le_value m) r turn.0.1 near.1,
      )
  where
    step :
        (v' c' v c acc m r : ℕ)
        → v' + c' * prime ≡ (v + m + 1 * 2 ^ 128) * r
        → v + c * prime ≡ acc
        → v' + (c' + c * r) * prime ≡ (acc + m + 2 ^ 128) * r
    step v' c' v c acc m r h g =
        let e = shift_multiple v c acc (m + 2 ^ 128) r g in
        let f : v' + (c' + c * r) * prime ≡ v' + c' * prime + c * r * prime = omega arith in
        let j : (v + m + 1 * 2 ^ 128) * r ≡ (v + (m + 2 ^ 128)) * r = omega arith in
        let l : (acc + (m + 2 ^ 128)) * r ≡ (acc + m + 2 ^ 128) * r = omega arith in
        f ∙ ap (λ t. t + c * r * prime) (h ∙ j) ∙ e ∙ l

-- `poly1305_blocks_core` with padbit 1, for an input of bytes, a reduced h and an r that
-- poly1305_init_core made: it computes the polynomial of RFC 8439, which adds each block and 2^128 to
-- the accumulator and multiplies with r, up to a multiple of 2^130 - 5, and its variables stay within
-- their bounds over any number of blocks.
pub poly1305_blocks_core_lem :
    (st : PolyInternal) (input : Bytes)
    → IsCarried st.h
    → IsKeyed st
    → IsBytes input
    → let end = poly1305_blocks_core st input 1 in
      ((c : ℕ) × (value end.h + c * prime
          ≡ horner (value st.r) (length input / 16) (value st.h) input))
      × IsCarried end.h
      × IsKeyed end
unfolding poly1305_blocks_core
poly1305_blocks_core_lem st input h k b =
    blocks_value (length input / 16) st (value st.h) input h k b (0, omega arith)
