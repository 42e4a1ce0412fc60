-- ===== src/If/Data/Padding.antt =====
-- What calculate_padding promises for the packets that wg_xmit sends, whose MTU is not 0.
use native.Mathlib.Nat.{mod-lt}
use wireguard_freebsd.Prelude.{
  ℕ, ◌+◌, ◌-◌, ◌%◌, ◌≤◌, ◌<◌, ◌≡◌, sym, ◌⊎◌, inl, inr, subst, false, ltb, ◌==◌, Bool-cases,
  if◌then◌else◌, ltb→lt, ltb-false, arith,
}
use wireguard_freebsd.If.Data.{calculate_padding, round_up}

-- What is to be padded: all of a packet within the MTU, or the last part of a longer one.
abbrev pub last_unit : ℕ → ℕ → ℕ
last_unit len mtu = if ltb mtu len then len % mtu else len

last_unit-le : (len mtu : ℕ) → 0 < mtu → last_unit len mtu ≤ mtu
last_unit-le len mtu h = elim (Bool-cases (ltb mtu len)) [
  | inl e ↦ subst (λ b. (if b then len % mtu else len) ≤ mtu) (sym e) (omega (arith, mod-lt len h))
  | inr e ↦ subst (λ b. (if b then len % mtu else len) ≤ mtu) (sym e) (ltb-false mtu len e)
]

-- With an MTU, `calculate_padding` adds fewer than 16 bytes, so that the last unit of the packet has
-- either a whole number of 16 bytes or exactly the MTU, and never more than the MTU.
pub calculate_padding_lem :
    (len mtu : ℕ)
    → 0 < mtu
    → let unit = last_unit len mtu in
      let pad = calculate_padding len mtu in
      (pad < 16) × (unit + pad ≤ mtu) × (((unit + pad) % 16 ≡ 0) ⊎ (unit + pad ≡ mtu))
unfolding calculate_padding
calculate_padding_lem len mtu h = pick (last_unit len mtu) (last_unit-le len mtu h)
  where
    pick :
        (unit : ℕ)
        → unit ≤ mtu
        → let size = round_up unit in
          let pad =
            if mtu == 0 then round_up len else (if ltb mtu size then mtu else size) - unit in
          (pad < 16) × (unit + pad ≤ mtu) × (((unit + pad) % 16 ≡ 0) ⊎ (unit + pad ≡ mtu))
    pick unit u =
        let size : ℕ = round_up unit in
        let Good : ℕ → Type 0 =
          λ p. (p < 16) × (unit + p ≤ mtu) × (((unit + p) % 16 ≡ 0) ⊎ (unit + p ≡ mtu)) in
        let some_mtu : (mtu == 0) ≡ false = ground arith in
        subst (λ b. Good (if b then round_up len else (if ltb mtu size then mtu else size) - unit))
          (sym some_mtu)
          (elim (Bool-cases (ltb mtu size)) [
            | inl e ↦
                let more = ltb→lt mtu size e in
                subst (λ b. Good ((if b then mtu else size) - unit)) (sym e)
                  (omega arith, omega arith, inr (omega arith))
            | inr e ↦
                let less = ltb-false mtu size e in
                subst (λ b. Good ((if b then mtu else size) - unit)) (sym e)
                  (omega arith, omega arith, inl (omega arith))
          ])
