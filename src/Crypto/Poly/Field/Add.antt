-- ===== src/Crypto/Poly/Field/Add.antt =====
-- The first step of a turn of poly1305_blocks_core, h += m[i].
use wireguard_freebsd.Prelude.{
  ℕ, ◌+◌, ◌*◌, ◌/◌, ◌%◌, ◌^◌, ◌≤◌, ◌<◌, ◌≡◌, sym, ap, ◌∙◌, Bytes, get_or, arith, bit_or,
}
use wireguard_freebsd.Prelude.Masks.{low26_lem, bit_or-doubled, doubled}
use wireguard_freebsd.Crypto.Word.{add32, shl32, get_unaligned_le32}
use wireguard_freebsd.Crypto.Poly.{Limbs, add_message, low26}
use wireguard_freebsd.Crypto.Poly.Field.Values.{value, le_value, IsBytes, IsCarried, IsSummed}

-- The five pieces of 26 bits of 128 bits.
pieces :
    (b0 b1 b2 b3 b4 b5 b6 b7 b8 b9 b10 b11 b12 b13 b14 b15 : ℕ)
    → b0 < 256
    → b1 < 256
    → b2 < 256
    → b3 < 256
    → b4 < 256
    → b5 < 256
    → b6 < 256
    → b7 < 256
    → b8 < 256
    → b9 < 256
    → b10 < 256
    → b11 < 256
    → b12 < 256
    → b13 < 256
    → b14 < 256
    → b15 < 256
    → let w = λ (a b c d : ℕ). a + 256 * b + 65536 * c + 16777216 * d in
      w b0 b1 b2 b3 % 67108864
        + 2 ^ 26 * (w b3 b4 b5 b6 / 4 % 67108864)
        + 2 ^ 52 * (w b6 b7 b8 b9 / 16 % 67108864)
        + 2 ^ 78 * (w b9 b10 b11 b12 / 64 % 67108864)
        + 2 ^ 104 * (w b12 b13 b14 b15 / 256)
      ≡ w b0 b1 b2 b3
        + 2 ^ 32 * w b4 b5 b6 b7
        + 2 ^ 64 * w b8 b9 b10 b11
        + 2 ^ 96 * w b12 b13 b14 b15
pieces b0 b1 b2 b3 b4 b5 b6 b7 b8 b9 b10 b11 b12 b13 b14 b15 h0 h1 h2 h3 h4 h5 h6 h7 h8 h9 h10 h11
      h12 h13 h14 h15 =
    omega arith

message_pieces :
    (m : Bytes)
    → IsBytes m
    → (get_unaligned_le32 m 0 % 67108864
          + 2 ^ 26 * (get_unaligned_le32 m 3 / 4 % 67108864)
          + 2 ^ 52 * (get_unaligned_le32 m 6 / 16 % 67108864)
          + 2 ^ 78 * (get_unaligned_le32 m 9 / 64 % 67108864)
          + 2 ^ 104 * (get_unaligned_le32 m 12 / 256)
        ≡ le_value m)
      × (get_unaligned_le32 m 12 / 256 < 16777216)
unfolding get_unaligned_le32
message_pieces m b =
    let at = λ (i : ℕ). get_or m i 0 in
    (
      pieces (at 0) (at 1) (at 2) (at 3) (at 4) (at 5) (at 6) (at 7) (at 8) (at 9) (at 10) (at 11)
          (at 12) (at 13) (at 14) (at 15) (b 0) (b 1) (b 2) (b 3) (b 4) (b 5) (b 6) (b 7) (b 8)
          (b 9) (b 10) (b 11) (b 12) (b 13) (b 14) (b 15),
      omega (arith, b 12, b 13, b 14, b 15),
    )

-- h += m[i]: nothing overflows, and the limbs stand for the sum.
pub add_message_lem :
    (h : Limbs) (m : Bytes) (padbit : ℕ)
    → IsCarried h
    → IsBytes m
    → padbit ≤ 1
    → (value (add_message h m padbit) ≡ value h + le_value m + padbit * 2 ^ 128)
      × IsSummed (add_message h m padbit)
unfolding add_message
add_message_lem h m padbit b bytes p =
    let hibit : ℕ = shl32 padbit 24 in
    let e : hibit ≡ doubled padbit 24 = omega arith in
    let w0 : ℕ = get_unaligned_le32 m 0 in
    let w1 : ℕ = get_unaligned_le32 m 3 / 4 in
    let w2 : ℕ = get_unaligned_le32 m 6 / 16 in
    let w3 : ℕ = get_unaligned_le32 m 9 / 64 in
    let w4 : ℕ = get_unaligned_le32 m 12 / 256 in
    let whole = message_pieces m bytes in
    let f0 = low26_lem w0 in
    let f1 = low26_lem w1 in
    let f2 = low26_lem w2 in
    let f3 = low26_lem w3 in
    let f4 : bit_or w4 hibit ≡ w4 + hibit =
      ap (bit_or w4) e ∙ bit_or-doubled 24 w4 padbit (omega arith) ∙ ap (λ t. w4 + t) (sym e) in
    let g0 : add32 h.l0 (low26 w0) ≡ h.l0 + w0 % 67108864 = omega arith in
    let g1 : add32 h.l1 (low26 w1) ≡ h.l1 + w1 % 67108864 = omega arith in
    let g2 : add32 h.l2 (low26 w2) ≡ h.l2 + w2 % 67108864 = omega arith in
    let g3 : add32 h.l3 (low26 w3) ≡ h.l3 + w3 % 67108864 = omega arith in
    let g4 : add32 h.l4 (bit_or w4 hibit) ≡ h.l4 + w4 + padbit * 16777216 = omega arith in
    (omega arith, (omega arith, omega arith, omega arith, omega arith, omega arith))
