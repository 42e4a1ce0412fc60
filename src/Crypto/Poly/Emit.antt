-- ===== src/Crypto/Poly/Emit.antt =====
-- poly1305_emit_core: the last reduction modulo 2^130 - 5 and the sum with the nonce.
use wireguard_freebsd.Prelude.{
  ℕ, ◌+◌, ◌-◌, ◌*◌, ◌/◌, ◌%◌, ◌^◌, ◌<◌, ◌≡◌, refl, sym, ap, ap₂, subst, ◌∙◌, arith, bit_and, bit_or,
  ltb, ltb→lt, ltb-false, Bool-cases, inl, inr, ◌⊎◌,
}
use wireguard_freebsd.Prelude.Masks.{low26_lem, bit_or-doubled, bit_and-ones, low, low_lem, doubled}
use wireguard_freebsd.Crypto.Word.{u32_mod, add32, shl32, get_unaligned_le32}
use wireguard_freebsd.Crypto.Poly.{
  Limbs, PolyNonce, PolyInternal, low26, mul32, carry_fully, minus_p, select_limb, select_limbs,
  select_all, select_mask, join_limbs, add_nonce, poly1305_emit_core,
}
use wireguard_freebsd.Crypto.Poly.Field.Values.{prime, value, le_value, IsCarried}

-- Limbs of 26 bits.
abbrev pub IsFull : Limbs → Type 0
IsFull h =
    (h.l0 < 67108864)
    × (h.l1 < 67108864)
    × (h.l2 < 67108864)
    × (h.l3 < 67108864)
    × (h.l4 < 67108864)

carry_fully_lem :
    (h : Limbs)
    → IsCarried h
    → ((c : ℕ) × (value (carry_fully h) + c * prime ≡ value h)) × IsFull (carry_fully h)
unfolding carry_fully
carry_fully_lem h b =
    let c1 : ℕ = h.l1 / 67108864 in
    let h2 : ℕ = add32 h.l2 c1 in
    let c2 : ℕ = h2 / 67108864 in
    let h3 : ℕ = add32 h.l3 c2 in
    let c3 : ℕ = h3 / 67108864 in
    let h4 : ℕ = add32 h.l4 c3 in
    let c4 : ℕ = h4 / 67108864 in
    let h0 : ℕ = add32 h.l0 (mul32 c4 5) in
    let e2 : h2 ≡ h.l2 + c1 = omega arith in
    let e3 : h3 ≡ h.l3 + c2 = omega arith in
    let e4 : h4 ≡ h.l4 + c3 = omega arith in
    let e0 : h0 ≡ h.l0 + c4 * 5 = omega arith in
    let f0 = low26_lem h0 in
    let f1 = low26_lem h.l1 in
    let f2 = low26_lem h2 in
    let f3 = low26_lem h3 in
    let f4 = low26_lem h4 in
    let e1 : add32 (low26 h.l1) (h0 / 67108864) ≡ low26 h.l1 + h0 / 67108864 = omega arith in
    ((c4, omega arith), (omega arith, omega arith, omega arith, omega arith, omega arith))

-- The mask keeps one of two limbs.
select_first : (h g : ℕ) → h < 67108864 → select_limb 0 h g ≡ h
select_first h g b =
    let split = low_lem 32 h in
    let all : bit_and h (u32_mod - 1) ≡ h = bit_and-ones 32 h ∙ omega (arith, split.1, split.2) in
    ap₂ bit_or all (bit_and-ones 0 g) ∙ bit_or-doubled 26 h 0 b ∙ omega arith

select_second : (h g : ℕ) → g < 4294967296 → select_limb (u32_mod - 1) h g ≡ g
select_second h g b =
    let split = low_lem 32 g in
    let all : bit_and g (u32_mod - 1) ≡ g = bit_and-ones 32 g ∙ omega (arith, split.1, split.2) in
    ap₂ bit_or (bit_and-ones 0 h) all ∙ bit_or-doubled 0 0 g (omega arith) ∙ omega arith

limbs_ext :
    (a b : Limbs) → a.l0 ≡ b.l0 → a.l1 ≡ b.l1 → a.l2 ≡ b.l2 → a.l3 ≡ b.l3 → a.l4 ≡ b.l4 → a ≡ b
limbs_ext a b e0 e1 e2 e3 e4 = λ i. record { l0 = e0 i; l1 = e1 i; l2 = e2 i; l3 = e3 i; l4 = e4 i }

select_all-first : (h g : Limbs) → IsFull h → select_all 0 h g ≡ h
select_all-first h g b =
    limbs_ext (select_all 0 h g) h (select_first h.l0 g.l0 b.0) (select_first h.l1 g.l1 b.1)
      (select_first h.l2 g.l2 b.2) (select_first h.l3 g.l3 b.3) (select_first h.l4 g.l4 b.4)

select_all-second : (h g : Limbs) → IsFull g → select_all 4294967295 h g ≡ g
select_all-second h g b =
    limbs_ext (select_all 4294967295 h g) g (select_second h.l0 g.l0 (omega arith))
      (select_second h.l1 g.l1 (omega arith)) (select_second h.l2 g.l2 (omega arith))
      (select_second h.l3 g.l3 (omega arith)) (select_second h.l4 g.l4 (omega arith))

-- select h if h < p, or h + -p if h >= p
select_lem :
    (h : Limbs)
    → IsFull h
    → let s = select_limbs h (minus_p h) in
      ((value s ≡ value h) ⊎ (value s + prime ≡ value h)) × IsFull s × (value s < prime)
unfolding select_limbs minus_p
select_lem h b =
    let g0 : ℕ = add32 h.l0 5 in
    let g1 : ℕ = add32 h.l1 (g0 / 67108864) in
    let g2 : ℕ = add32 h.l2 (g1 / 67108864) in
    let g3 : ℕ = add32 h.l3 (g2 / 67108864) in
    let top : ℕ = h.l4 + g3 / 67108864 in
    let g4 : ℕ = add32 (add32 h.l4 (g3 / 67108864)) (u32_mod - 67108864) in
    let e0 : g0 ≡ h.l0 + 5 = omega arith in
    let e1 : g1 ≡ h.l1 + g0 / 67108864 = omega arith in
    let e2 : g2 ≡ h.l2 + g1 / 67108864 = omega arith in
    let e3 : g3 ≡ h.l3 + g2 / 67108864 = omega arith in
    let f0 = low26_lem g0 in
    let f1 = low26_lem g1 in
    let f2 = low26_lem g2 in
    let f3 = low26_lem g3 in
    let g : Limbs = minus_p h in
    let Good : Limbs → Type 0 =
      λ s. ((value s ≡ value h) ⊎ (value s + prime ≡ value h)) × IsFull s × (value s < prime) in
    elim (Bool-cases (ltb top 67108864)) [
      | inl l ↦
          let less = ltb→lt top 67108864 l in
          let none : select_mask g4 ≡ 0 = omega arith in
          let kept : select_limbs h g ≡ h =
            ap (λ mask. select_all mask h g) none ∙ select_all-first h g b in
          subst Good (sym kept) (inl refl, b, omega arith)
      | inr l ↦
          let more = ltb-false top 67108864 l in
          let all : select_mask g4 ≡ 4294967295 = omega arith in
          let full : IsFull g = (omega arith, omega arith, omega arith, omega arith, omega arith) in
          let taken : select_limbs h g ≡ g =
            ap (λ mask. select_all mask h g) all ∙ select_all-second h g full in
          subst Good (sym taken) (inr (omega arith), full, omega arith)
    ]

-- `(a >> right) | (b << left)`, kept to 32 bits.
join_lem :
    (k : ℕ) (a high joined : ℕ)
    → a < doubled 1 k
    → joined ≡ doubled high k
    → a + doubled high k < 4294967296
    → bit_and (bit_or a joined) (u32_mod - 1) ≡ a + doubled high k
join_lem k a high joined h e l =
    let both : bit_or a joined ≡ a + doubled high k = ap (bit_or a) e ∙ bit_or-doubled k a high h in
    let split = low_lem 32 (bit_or a joined) in
    bit_and-ones 32 (bit_or a joined) ∙ omega (arith, split.1, split.2)

-- h = h % (2^128)
joined_lem :
    (s : Limbs)
    → IsFull s
    → join_limbs s.l0 0 s.l1 26
        + 2 ^ 32 * join_limbs s.l1 6 s.l2 20
        + 2 ^ 64 * join_limbs s.l2 12 s.l3 14
        + 2 ^ 96 * join_limbs s.l3 18 s.l4 8
      ≡ value s % 2 ^ 128
joined_lem s b =
    let e0 =
      join_lem 26 (s.l0 / 1) (s.l1 % 64) (shl32 s.l1 26) (omega arith) (omega arith)
        (omega arith) in
    let e1 =
      join_lem 20 (s.l1 / 64) (s.l2 % 4096) (shl32 s.l2 20) (omega arith) (omega arith)
        (omega arith) in
    let e2 =
      join_lem 14 (s.l2 / 4096) (s.l3 % 262144) (shl32 s.l3 14) (omega arith) (omega arith)
        (omega arith) in
    let e3 =
      join_lem 8 (s.l3 / 262144) (s.l4 % 16777216) (shl32 s.l4 8) (omega arith) (omega arith)
        (omega arith) in
    omega (arith, e0, e1, e2, e3)

abbrev pub nonce_value : PolyNonce → ℕ
nonce_value n = n.n0 + 2 ^ 32 * n.n1 + 2 ^ 64 * n.n2 + 2 ^ 96 * n.n3

abbrev pub IsNonce : PolyNonce → Type 0
IsNonce n = (n.n0 < 2 ^ 32) × (n.n1 < 2 ^ 32) × (n.n2 < 2 ^ 32) × (n.n3 < 2 ^ 32)

word_bytes :
    (w : ℕ)
    → w < 4294967296
    → w % 256 + 256 * (w / 256 % 256) + 65536 * (w / 65536 % 256) + 16777216 * (w / 16777216 % 256)
      ≡ w
word_bytes w h = omega arith

-- mac = (h + nonce) % (2^128)
add_nonce_lem :
    (n : PolyNonce) (h0 h1 h2 h3 : ℕ)
    → IsNonce n
    → h0 < 4294967296
    → h1 < 4294967296
    → h2 < 4294967296
    → h3 < 4294967296
    → le_value (add_nonce n h0 h1 h2 h3)
      ≡ (h0 + 2 ^ 32 * h1 + 2 ^ 64 * h2 + 2 ^ 96 * h3 + nonce_value n) % 2 ^ 128
unfolding add_nonce get_unaligned_le32
add_nonce_lem n h0 h1 h2 h3 b l0 l1 l2 l3 =
    let f0 : ℕ = (h0 + n.n0) % 18446744073709551616 in
    let f1 : ℕ = (h1 + n.n1 + f0 / 4294967296) % 18446744073709551616 in
    let f2 : ℕ = (h2 + n.n2 + f1 / 4294967296) % 18446744073709551616 in
    let f3 : ℕ = (h3 + n.n3 + f2 / 4294967296) % 18446744073709551616 in
    let w0 = word_bytes (f0 % 4294967296) (omega arith) in
    let w1 = word_bytes (f1 % 4294967296) (omega arith) in
    let w2 = word_bytes (f2 % 4294967296) (omega arith) in
    let w3 = word_bytes (f3 % 4294967296) (omega arith) in
    let sum : f0 % 4294967296
          + 2 ^ 32 * (f1 % 4294967296)
          + 2 ^ 64 * (f2 % 4294967296)
          + 2 ^ 96 * (f3 % 4294967296)
        ≡ (h0 + 2 ^ 32 * h1 + 2 ^ 64 * h2 + 2 ^ 96 * h3 + nonce_value n) % 2 ^ 128 =
      omega arith in
    ap₂ (λ x y. x + 2 ^ 96 * y) (ap₂ (λ x y. x + 2 ^ 64 * y) (ap₂ (λ x y. x + 2 ^ 32 * y) w0 w1) w2)
      w3
    ∙ sum

word_small : (x : ℕ) → bit_and x (u32_mod - 1) < 4294967296
word_small x =
    let split = low_lem 32 x in
    let e : bit_and x (u32_mod - 1) ≡ low 32 x = bit_and-ones 32 x in omega (arith, split.2)

-- `poly1305_emit_core`, for an h that poly1305_blocks_core left: the 16 bytes of the tag are h, fully
-- reduced modulo 2^130 - 5, plus the nonce, modulo 2^128.
pub poly1305_emit_core_lem :
    (st : PolyInternal) (nonce : PolyNonce)
    → IsCarried st.h
    → IsNonce nonce
    → le_value (poly1305_emit_core st nonce) ≡ (value st.h % prime + nonce_value nonce) % 2 ^ 128
unfolding poly1305_emit_core
poly1305_emit_core_lem st nonce b n =
    let h : Limbs = carry_fully st.h in
    let full = carry_fully_lem st.h b in
    let s : Limbs = select_limbs h (minus_p h) in
    let chosen = select_lem h full.1 in
    let words = joined_lem s chosen.1 in
    let reduced : value s ≡ value st.h % prime = elim chosen.0 [
      | inl e ↦ omega arith
      | inr e ↦ omega arith
    ] in
    add_nonce_lem nonce (join_limbs s.l0 0 s.l1 26) (join_limbs s.l1 6 s.l2 20)
      (join_limbs s.l2 12 s.l3 14) (join_limbs s.l3 18 s.l4 8) n
      (word_small (bit_or (s.l0 / 1) (shl32 s.l1 26)))
      (word_small (bit_or (s.l1 / 64) (shl32 s.l2 20)))
      (word_small (bit_or (s.l2 / 4096) (shl32 s.l3 14)))
      (word_small (bit_or (s.l3 / 262144) (shl32 s.l4 8)))
    ∙ ap (λ t. (t + nonce_value nonce) % 2 ^ 128) (words ∙ ap (λ t. t % 2 ^ 128) reduced)
    ∙ drop_inner (value st.h % prime) (nonce_value nonce)
  where
    drop_inner : (x y : ℕ) → (x % 2 ^ 128 + y) % 2 ^ 128 ≡ (x + y) % 2 ^ 128
    drop_inner x y = omega arith
