-- ===== src/Crypto/Poly/Field/Values.antt =====
-- The limbs of poly1305_blocks_core as numbers, and how small they are between its steps.
use wireguard_freebsd.Prelude.{ℕ, ◌+◌, ◌-◌, ◌*◌, ◌%◌, ◌^◌, ◌≤◌, ◌<◌, ◌≡◌, ◌∙◌, Bytes, get_or, arith}
use wireguard_freebsd.Prelude.Masks.{low26_lem}
use wireguard_freebsd.Crypto.Word.{get_unaligned_le32}
use wireguard_freebsd.Crypto.Poly.{Limbs, PolyInternal, limb26}

-- 2^130 - 5
abbrev pub prime : ℕ
prime = 2 ^ 130 - 5

-- The number that five limbs stand for.
abbrev pub value : Limbs → ℕ
value x = x.l0 + 2 ^ 26 * x.l1 + 2 ^ 52 * x.l2 + 2 ^ 78 * x.l3 + 2 ^ 104 * x.l4

-- The number that 16 bytes stand for, lowest first.
abbrev pub le_value : Bytes → ℕ
le_value m =
    get_unaligned_le32 m 0
    + 2 ^ 32 * get_unaligned_le32 m 4
    + 2 ^ 64 * get_unaligned_le32 m 8
    + 2 ^ 96 * get_unaligned_le32 m 12

abbrev pub IsBytes : Bytes → Type 0
IsBytes m = (i : ℕ) → get_or m i 0 < 256

-- Between two turns of the loop: limbs of 26 bits, but for a carry in the second.
abbrev pub IsCarried : Limbs → Type 0
IsCarried h =
    (h.l0 < 67108864)
    × (h.l1 < 67108928)
    × (h.l2 < 67108864)
    × (h.l3 < 67108864)
    × (h.l4 < 67108864)

-- r of 26 bits in a limb, and s = 5 * r.
abbrev pub IsKeyed : PolyInternal → Type 0
IsKeyed st =
    (st.r.l0 < 67108864)
    × (st.r.l1 < 67108864)
    × (st.r.l2 < 67108864)
    × (st.r.l3 < 67108864)
    × (st.r.l4 < 67108864)
    × (st.s0 ≡ 5 * st.r.l1)
    × (st.s1 ≡ 5 * st.r.l2)
    × (st.s2 ≡ 5 * st.r.l3)
    × (st.s3 ≡ 5 * st.r.l4)

-- After `h += m[i]`.
abbrev pub IsSummed : Limbs → Type 0
IsSummed h =
    (h.l0 ≤ 134217800)
    × (h.l1 ≤ 134217800)
    × (h.l2 ≤ 134217800)
    × (h.l3 ≤ 134217800)
    × (h.l4 ≤ 134217800)

pub product_le : (h r a b : ℕ) → h ≤ a → r ≤ b → h * r ≤ a * b
product_le h r a b p q = grind arith

pub limb26_lem : (d : ℕ) → limb26 d ≡ d % 67108864
limb26_lem d =
    let e : d % 4294967296 % 67108864 ≡ d % 67108864 = omega arith in low26_lem (d % 4294967296) ∙ e
