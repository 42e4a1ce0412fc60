-- ===== src/Crypto/Poly/Field/Carry.antt =====
-- The last step of a turn of poly1305_blocks_core, (partial) h %= p.
use wireguard_freebsd.Prelude.{ℕ, ◌+◌, ◌*◌, ◌/◌, ◌%◌, ◌^◌, ◌≤◌, ◌<◌, ◌≡◌, ap, ◌∙◌, arith}
use wireguard_freebsd.Prelude.Masks.{low26_lem}
use wireguard_freebsd.Crypto.Word.{add32}
use wireguard_freebsd.Crypto.Poly.{Limbs, u64, carry_limbs, low26, limb26, mul32, carry26}
use wireguard_freebsd.Crypto.Poly.Field.Values.{prime, value, IsCarried, limb26_lem}

-- What a chain of carries of 26 bits, the last of them times 5 into the first limb, drops.
carried :
    (d0 d1 d2 d3 d4 c0 c1 c2 c3 c4 c t0 t1 t2 t3 t4 u : ℕ)
    → d0 ≡ 67108864 * c0 + t0
    → d1 + c0 ≡ 67108864 * c1 + t1
    → d2 + c1 ≡ 67108864 * c2 + t2
    → d3 + c2 ≡ 67108864 * c3 + t3
    → d4 + c3 ≡ 67108864 * c4 + t4
    → t0 + c4 * 5 ≡ 67108864 * c + u
    → u + 2 ^ 26 * (t1 + c) + 2 ^ 52 * t2 + 2 ^ 78 * t3 + 2 ^ 104 * t4 + c4 * prime
      ≡ d0 + 2 ^ 26 * d1 + 2 ^ 52 * d2 + 2 ^ 78 * d3 + 2 ^ 104 * d4
carried d0 d1 d2 d3 d4 c0 c1 c2 c3 c4 c t0 t1 t2 t3 t4 u h0 h1 h2 h3 h4 h = omega arith

-- (partial) h %= p: the carries fit, and what is dropped is a multiple of p.
pub carry_limbs_lem :
    (d : Limbs)
    → d.l0 ≤ 225180098809035000
    → d.l1 ≤ 225180098809035000
    → d.l2 ≤ 225180098809035000
    → d.l3 ≤ 225180098809035000
    → d.l4 ≤ 45036019761807000
    → ((c : ℕ) × (value (carry_limbs d) + c * prime ≡ value d)) × IsCarried (carry_limbs d)
unfolding carry_limbs
carry_limbs_lem d b0 b1 b2 b3 b4 =
    let d1 : ℕ = (d.l1 + carry26 d.l0) % u64 in
    let d2 : ℕ = (d.l2 + carry26 d1) % u64 in
    let d3 : ℕ = (d.l3 + carry26 d2) % u64 in
    let d4 : ℕ = (d.l4 + carry26 d3) % u64 in
    let h0 : ℕ = add32 (limb26 d.l0) (mul32 (carry26 d4) 5) in
    let c0 : ℕ = d.l0 / 67108864 in
    let e1 : d1 ≡ d.l1 + c0 = omega arith in
    let c1 : ℕ = d1 / 67108864 in
    let e2 : d2 ≡ d.l2 + c1 = omega arith in
    let c2 : ℕ = d2 / 67108864 in
    let e3 : d3 ≡ d.l3 + c2 = omega arith in
    let c3 : ℕ = d3 / 67108864 in
    let e4 : d4 ≡ d.l4 + c3 = omega arith in
    let c4 : ℕ = d4 / 67108864 in
    let s4 : c4 < 671089100 = omega arith in
    let f0 : limb26 d.l0 ≡ d.l0 % 67108864 = limb26_lem d.l0 in
    let f1 : limb26 d1 ≡ d1 % 67108864 = limb26_lem d1 in
    let f2 : limb26 d2 ≡ d2 % 67108864 = limb26_lem d2 in
    let f3 : limb26 d3 ≡ d3 % 67108864 = limb26_lem d3 in
    let f4 : limb26 d4 ≡ d4 % 67108864 = limb26_lem d4 in
    let g0 : h0 ≡ limb26 d.l0 + c4 * 5 = omega arith in
    let g1 : low26 h0 ≡ h0 % 67108864 = low26_lem h0 in
    let g2 : h0 < 67108864 * 52 = omega arith in
    let g3 : add32 (limb26 d1) (h0 / 67108864) ≡ limb26 d1 + h0 / 67108864 = omega arith in
    (
      (
        c4,
        ap
              (λ n.
                low26 h0
                + 2 ^ 26 * n
                + 2 ^ 52 * limb26 d2
                + 2 ^ 78 * limb26 d3
                + 2 ^ 104 * limb26 d4
                + c4 * prime)
              g3
            ∙ carried d.l0 d.l1 d.l2 d.l3 d.l4 c0 c1 c2 c3 c4 (h0 / 67108864) (limb26 d.l0)
                (limb26 d1) (limb26 d2) (limb26 d3) (limb26 d4) (low26 h0) (omega arith)
                (omega arith) (omega arith) (omega arith) (omega arith) (omega arith),
      ),
      (omega arith, omega arith, omega arith, omega arith, omega arith),
    )
