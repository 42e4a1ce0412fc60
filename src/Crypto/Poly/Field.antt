-- ===== src/Crypto/Poly/Field.antt =====
-- The arithmetic of poly1305_blocks_core: the limbs as a number, and one turn of the loop as a
-- multiplication modulo 2^130 - 5, without overflow of the uint32_t and uint64_t variables.
pub mod Values
pub mod Add
pub mod Carry
pub mod Multiply
use wireguard_freebsd.Prelude.{ℕ, ◌+◌, ◌-◌, ◌*◌, ◌/◌, ◌^◌, ◌≤◌, ◌≡◌, refl, ap, ◌∙◌, Bytes, arith}
use wireguard_freebsd.Prelude.Masks.{bit_and-le}
use wireguard_freebsd.Crypto.Word.{get_unaligned_le32}
use wireguard_freebsd.Crypto.Poly.{
  Limbs, PolyInternal, add_message, mul_limbs, carry_limbs, poly1305_block, poly1305_init_core,
  clamped_r,
}
use wireguard_freebsd.Crypto.Poly.Field.Values.{prime, value, le_value, IsBytes, IsCarried, IsKeyed}
use wireguard_freebsd.Crypto.Poly.Field.Add.{add_message_lem}
use wireguard_freebsd.Crypto.Poly.Field.Carry.{carry_limbs_lem}
use wireguard_freebsd.Crypto.Poly.Field.Multiply.{mul_limbs_lem}

-- One turn of the loop of `poly1305_blocks_core`, for a block of bytes, limbs of h that the last turn
-- left and limbs of r that poly1305_init_core made: the new h is (h + block + padbit * 2^128) * r up to
-- a multiple of 2^130 - 5, no variable overflows on the way, and the new limbs again are as small.
pub poly1305_block_lem :
    (padbit : ℕ) (st : PolyInternal) (m : Bytes)
    → padbit ≤ 1
    → IsCarried st.h
    → IsKeyed st
    → IsBytes m
    → let next = poly1305_block padbit st m in
      ((c : ℕ) × (value next.h + c * prime
          ≡ (value st.h + le_value m + padbit * 2 ^ 128) * value st.r))
      × IsCarried next.h
      × IsKeyed next
unfolding poly1305_block
poly1305_block_lem padbit st m p h k b =
    let sum = add_message_lem st.h m padbit h b p in
    let product = mul_limbs_lem (add_message st.h m padbit) st sum.1 k in
    let d : Limbs = mul_limbs (add_message st.h m padbit) st in
    let rest = carry_limbs_lem d product.1 product.2 product.3 product.4 product.5 in
    let c1 = product.0.0 in
    let c2 = rest.0.0 in
    (
      (
        c2 + c1,
        value_step (value (carry_limbs d)) c2 c1 (value d) rest.0.1
            ∙ product.0.1
            ∙ ap (λ t. t * value st.r) sum.0,
      ),
      rest.1,
      k,
    )
  where
    value_step : (v c2 c1 d : ℕ) → v + c2 * prime ≡ d → v + (c2 + c1) * prime ≡ d + c1 * prime
    value_step v c2 c1 d h = omega arith

-- `poly1305_init_core` leaves an h of 0, limbs of r of 26 bits and s = 5 * r.
pub poly1305_init_core-IsKeyed :
    (key : Bytes)
    → IsKeyed (poly1305_init_core key)
      × IsCarried (poly1305_init_core key).h
      × (value (poly1305_init_core key).h ≡ 0)
unfolding poly1305_init_core clamped_r
poly1305_init_core-IsKeyed key =
    let a = bit_and-le (get_unaligned_le32 key 0) 67108863 in
    let b = bit_and-le (get_unaligned_le32 key 3 / 4) 67108611 in
    let c = bit_and-le (get_unaligned_le32 key 6 / 16) 67092735 in
    let d = bit_and-le (get_unaligned_le32 key 9 / 64) 66076671 in
    let e = bit_and-le (get_unaligned_le32 key 12 / 256) 1048575 in
    (
      (
        omega arith,
        omega arith,
        omega arith,
        omega arith,
        omega arith,
        omega arith,
        omega arith,
        omega arith,
        omega arith,
      ),
      (omega arith, omega arith, omega arith, omega arith, omega arith),
      refl,
    )
