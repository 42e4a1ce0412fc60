-- ===== src/Crypto/Poly/Field/Multiply.antt =====
-- The second step of a turn of poly1305_blocks_core, h *= r.
use wireguard_freebsd.Prelude.{ℕ, ◌+◌, ◌*◌, ◌%◌, ◌^◌, ◌≤◌, ◌≡◌, ap, ◌∙◌, arith}
use wireguard_freebsd.Crypto.Poly.{Limbs, PolyInternal, u64, mul_limbs}
use wireguard_freebsd.Crypto.Poly.Field.Values.{prime, value, IsKeyed, IsSummed, product_le}

-- One sum of `h *= r`, with factors of r or of s.
row :
    (x0 x1 x2 x3 x4 a0 a1 a2 a3 a4 bound : ℕ)
    → IsSummed (record { l0 = x0; l1 = x1; l2 = x2; l3 = x3; l4 = x4 })
    → bound ≤ 335544315
    → a0 ≤ bound
    → a1 ≤ bound
    → a2 ≤ bound
    → a3 ≤ bound
    → a4 ≤ bound
    → ((x0 * a0 + x1 * a1 + x2 * a2 + x3 * a3 + x4 * a4) % u64
        ≡ x0 * a0 + x1 * a1 + x2 * a2 + x3 * a3 + x4 * a4)
      × (x0 * a0 + x1 * a1 + x2 * a2 + x3 * a3 + x4 * a4 ≤ 5 * (134217800 * bound))
row x0 x1 x2 x3 x4 a0 a1 a2 a3 a4 bound h b k0 k1 k2 k3 k4 =
    let p0 = product_le x0 a0 134217800 bound h.0 k0 in
    let p1 = product_le x1 a1 134217800 bound h.1 k1 in
    let p2 = product_le x2 a2 134217800 bound h.2 k2 in
    let p3 = product_le x3 a3 134217800 bound h.3 k3 in
    let p4 = product_le x4 a4 134217800 bound h.4 k4 in (omega arith, omega arith)

times_five : (x s r : ℕ) → s ≡ 5 * r → x * s ≡ 5 * (x * r)
times_five x s r e = let f : x * (5 * r) ≡ 5 * (x * r) = omega arith in ap (λ t. x * t) e ∙ f

-- The products that stand for multiples of 2^130.
abbrev folded : Limbs → Limbs → ℕ
folded h r =
    h.l1 * r.l4
    + h.l2 * r.l3
    + h.l3 * r.l2
    + h.l4 * r.l1
    + 2 ^ 26 * (h.l2 * r.l4 + h.l3 * r.l3 + h.l4 * r.l2)
    + 2 ^ 52 * (h.l3 * r.l4 + h.l4 * r.l3)
    + 2 ^ 78 * (h.l4 * r.l4)

-- h *= r: the sums fit in 64 bits, and what is folded is a multiple of p.
pub mul_limbs_lem :
    (h : Limbs) (st : PolyInternal)
    → IsSummed h
    → IsKeyed st
    → ((c : ℕ) × (value (mul_limbs h st) + c * prime ≡ value h * value st.r))
      × ((mul_limbs h st).l0 ≤ 225180098809035000)
      × ((mul_limbs h st).l1 ≤ 225180098809035000)
      × ((mul_limbs h st).l2 ≤ 225180098809035000)
      × ((mul_limbs h st).l3 ≤ 225180098809035000)
      × ((mul_limbs h st).l4 ≤ 45036019761807000)
unfolding mul_limbs
mul_limbs_lem h st b k =
    let r = st.r in
    let d0 =
      row h.l0 h.l1 h.l2 h.l3 h.l4 r.l0 st.s3 st.s2 st.s1 st.s0 335544315 b (omega arith)
        (omega arith) (omega arith) (omega arith) (omega arith) (omega arith) in
    let d1 =
      row h.l0 h.l1 h.l2 h.l3 h.l4 r.l1 r.l0 st.s3 st.s2 st.s1 335544315 b (omega arith)
        (omega arith) (omega arith) (omega arith) (omega arith) (omega arith) in
    let d2 =
      row h.l0 h.l1 h.l2 h.l3 h.l4 r.l2 r.l1 r.l0 st.s3 st.s2 335544315 b (omega arith)
        (omega arith) (omega arith) (omega arith) (omega arith) (omega arith) in
    let d3 =
      row h.l0 h.l1 h.l2 h.l3 h.l4 r.l3 r.l2 r.l1 r.l0 st.s3 335544315 b (omega arith) (omega arith)
        (omega arith) (omega arith) (omega arith) (omega arith) in
    let d4 =
      row h.l0 h.l1 h.l2 h.l3 h.l4 r.l4 r.l3 r.l2 r.l1 r.l0 67108863 b (omega arith) (omega arith)
        (omega arith) (omega arith) (omega arith) (omega arith) in
    (
      (
        folded h r,
        omega (
          arith,
          d0.0,
          d1.0,
          d2.0,
          d3.0,
          d4.0,
          times_five h.l1 st.s3 r.l4 k.8,
          times_five h.l2 st.s2 r.l3 k.7,
          times_five h.l3 st.s1 r.l2 k.6,
          times_five h.l4 st.s0 r.l1 k.5,
          times_five h.l2 st.s3 r.l4 k.8,
          times_five h.l3 st.s2 r.l3 k.7,
          times_five h.l4 st.s1 r.l2 k.6,
          times_five h.l3 st.s3 r.l4 k.8,
          times_five h.l4 st.s2 r.l3 k.7,
          times_five h.l4 st.s3 r.l4 k.8,
        ),
      ),
      omega (arith, d0.0, d0.1),
      omega (arith, d1.0, d1.1),
      omega (arith, d2.0, d2.1),
      omega (arith, d3.0, d3.1),
      omega (arith, d4.0, d4.1),
    )
