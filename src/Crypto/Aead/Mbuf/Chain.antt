-- ===== src/Crypto/Aead/Mbuf/Chain.antt =====
-- The loop over the chain against one key stream for all its bytes.
use mathlib.Core.List.{append_assoc}
use wireguard_freebsd.Prelude.{
  ℕ, zero, suc, ◌+◌, ◌-◌, ◌*◌, ◌/◌, ◌≤◌, ◌<◌, ◌≡◌, refl, sym, ap, subst, ◌⊎◌, ◌∙◌, List, [], ◌∷◌,
  ◌++◌, Bytes, Bool, true, false, length, take, drop, min, ◌==◌, flatten, leb, leb→le, leb-false,
  take-add, if◌then◌else◌, Bool-cases, inl, inr, arith, length-take, length-drop, take-append_drop,
  drop-drop, drop-all, nil_of_length,
}
use wireguard_freebsd.Crypto.Word.{xor_cpy}
use wireguard_freebsd.Crypto.Chacha.{ChachaCtx, chacha20_block}
use wireguard_freebsd.Crypto.Chacha.Stream.{
  crypt_bytes, crypt_bytes-append, crypt_bytes-left, crypt_bytes-block,
}
use wireguard_freebsd.Crypto.Chacha.Blocks.{length-chacha20_block}
use wireguard_freebsd.Crypto.Poly.{PolyCtx, poly1305_update}
use wireguard_freebsd.Crypto.Poly.Mac.{updates}
use wireguard_freebsd.Crypto.Aead.Mbuf.{
  Crypt, mbuf_blocks, covered, mbuf_tail, crypt_segment, crypt_mbuf, crypt_chain,
}

-- The key bytes that are left of the last block.
abbrev pub left_of : Crypt → ChachaCtx × Bytes
left_of s = (s.chacha, drop (64 - s.leftover) s.stream)

abbrev pub IsCrypt : Crypt → Type 0
IsCrypt s = (length s.stream ≡ 64) × (s.leftover ≤ 64)

-- What one piece of the code makes of its bytes is the key stream from the state before, which goes on
-- from the state after.
abbrev Follows : Crypt → Bytes → Bytes × Crypt → Type 0
Follows s buf out =
    (crypt_bytes chacha20_block (left_of s) buf ≡ (out.0, left_of out.1))
    × IsCrypt out.1
    × (out.1.poly ≡ s.poly)

-- One piece after the other.
Follows-append :
    (s : Crypt) (xs ys : Bytes) (first second : Bytes × Crypt)
    → Follows s xs first
    → Follows first.1 ys second
    → Follows s (xs ++ ys) (first.0 ++ second.0, second.1)
Follows-append s xs ys first second f g =
    let run : Bytes × (ChachaCtx × Bytes) → Bytes × (ChachaCtx × Bytes) =
      λ r. let t = crypt_bytes chacha20_block r.1 ys in (r.0 ++ t.0, t.1) in
    (
      crypt_bytes-append chacha20_block (left_of s) xs ys
          ∙ ap run f.0
          ∙ ap
              (λ (t : Bytes × (ChachaCtx × Bytes)).
                let out : Bytes × (ChachaCtx × Bytes) = (first.0 ++ t.0, t.1) in out)
              g.0,
      g.1,
      g.2 ∙ f.2,
    )

-- A new block that covers at least one byte and at most 64.
new_block :
    (s : Crypt) (buf : Bytes) (left : ℕ)
    → s.leftover ≡ 0
    → length s.stream ≡ 64
    → 0 < length buf
    → length buf ≤ 64
    → left ≡ 64 - length buf
    → let b = chacha20_block s.chacha in
      Follows s buf (xor_cpy buf b.1, record s { chacha = b.0; stream = b.1; leftover = left })
new_block s buf left z k p h l =
    let b = chacha20_block s.chacha in
    let none_left : drop (64 - s.leftover) s.stream ≡ [] =
      drop-all s.stream (64 - s.leftover) (omega arith) in
    let e : length buf ≡ 64 - left = omega arith in
    (
      ap (λ (t : Bytes). crypt_bytes chacha20_block (s.chacha, t) buf) none_left
          ∙ crypt_bytes-block chacha20_block s.chacha buf p
              (omega (arith, length-chacha20_block s.chacha))
          ∙ ap
              (λ n.
                let out : Bytes × (ChachaCtx × Bytes) = (xor_cpy buf b.1, (b.0, drop n b.1)) in out)
              e,
      (length-chacha20_block s.chacha, omega arith),
      refl,
    )

-- The bytes that the end of the last block covers.
left_part :
    (s : Crypt) (buf : Bytes) (l : ℕ)
    → IsCrypt s
    → l ≤ s.leftover
    → length buf ≡ l
    → Follows s buf
        (xor_cpy buf (drop (64 - s.leftover) s.stream), record s { leftover = s.leftover - l })
left_part s buf l ok h k =
    let left : Bytes = drop (64 - s.leftover) s.stream in
    let len_left : length left ≡ s.leftover =
      omega (arith, length-drop (64 - s.leftover) s.stream) in
    let e : 64 - s.leftover + length buf ≡ 64 - (s.leftover - l) = omega arith in
    let out : Bytes → Bytes × (ChachaCtx × Bytes) = λ t. (xor_cpy buf left, (s.chacha, t)) in
    (
      crypt_bytes-left chacha20_block s.chacha left buf (omega arith)
          ∙ ap out
              (drop-drop (length buf) (64 - s.leftover) s.stream ∙ ap (λ n. drop n s.stream) e),
      (ok.0, omega arith),
      refl,
    )

nothing : (s : Crypt) → IsCrypt s → Follows s [] ([], s)
unfolding crypt_bytes
nothing s ok = (refl, ok, refl)

whole_part :
    (n : ℕ) (s : Crypt) (buf : Bytes)
    → IsCrypt s
    → 64 * n ≤ length buf
    → (length buf ≡ 0) ⊎ (s.leftover ≡ 0)
    → Follows s (take (64 * n) buf) (mbuf_blocks n s buf)
unfolding mbuf_blocks
whole_part zero s buf ok h k = nothing s ok
whole_part (suc n) s buf ok h (inl e) = absurd (omega arith)
whole_part (suc n) s buf ok h (inr z) =
    let b = chacha20_block s.chacha in
    let next : Crypt = record s { chacha = b.0; stream = b.1 } in
    let first : Bytes = take 64 buf in
    let ys : Bytes = drop 64 buf in
    let len_first : length first ≡ 64 = length-take 64 buf (omega arith) in
    let e : 64 + 64 * n ≡ 64 * suc n = omega arith in
    let step = new_block s first s.leftover z ok.0 (omega arith) (omega arith) (omega arith) in
    let rest = whole_part n next ys step.1 (omega (arith, length-drop 64 buf)) (inr z) in
    subst (λ (t : Bytes). Follows s t (mbuf_blocks (suc n) s buf))
      (take-add 64 (64 * n) buf ∙ ap (λ k. take k buf) e)
      (Follows-append s first (take (64 * n) ys) (xor_cpy first b.1, next) (mbuf_blocks n next ys)
        step rest)

mbuf_blocks-leftover :
    (n : ℕ) (s : Crypt) (buf : Bytes) → (mbuf_blocks n s buf).1.leftover ≡ s.leftover
unfolding mbuf_blocks
mbuf_blocks-leftover zero s buf = refl
mbuf_blocks-leftover (suc n) s buf =
    let b = chacha20_block s.chacha in
    mbuf_blocks-leftover n (record s { chacha = b.0; stream = b.1 }) (drop 64 buf)

end_part :
    (s : Crypt) (buf : Bytes)
    → IsCrypt s
    → length buf < 64
    → (length buf ≡ 0) ⊎ (s.leftover ≡ 0)
    → Follows s buf (mbuf_tail s buf)
unfolding mbuf_tail
end_part s buf ok h k =
    let b = chacha20_block s.chacha in
    let made : Bytes × Crypt =
      (xor_cpy buf b.1, record s { chacha = b.0; stream = b.1; leftover = 64 - length buf }) in
    let pick : Bool → Bytes × Crypt = λ c. if c then ([], s) else made in
    elim (Bool-cases (length buf == 0)) [
      | inl e ↦
          let none_left : length buf ≡ 0 = ground arith in
          subst (λ c. Follows s buf (pick c)) (sym e)
            (subst (λ (t : Bytes). Follows s t ([], s)) (sym (nil_of_length buf none_left))
              (nothing s ok))
      | inr e ↦
          let more : 0 < length buf = ground arith in
          let z : s.leftover ≡ 0 = elim k [ inl l ↦ absurd (omega arith) | inr l ↦ l ] in
          subst (λ c. Follows s buf (pick c)) (sym e)
            (new_block s buf (64 - length buf) z ok.0 more (omega arith) refl)
    ]

covered_lem :
    (s : Crypt) (buf : Bytes)
    → (covered s buf ≤ length buf)
      × (covered s buf ≤ s.leftover)
      × ((length buf - covered s buf ≡ 0) ⊎ (s.leftover - covered s buf ≡ 0))
covered_lem s buf =
    let e : covered s buf ≡ min (length buf) s.leftover = ground arith in
    (
      omega arith,
      omega arith,
      elim (Bool-cases (leb (length buf) s.leftover)) [
        | inl h ↦ let k = leb→le (length buf) s.leftover h in inl (omega arith)
        | inr h ↦ let k = leb-false (length buf) s.leftover h in inr (omega arith)
      ],
    )

crypt_segment_lem : (s : Crypt) (buf : Bytes) → IsCrypt s → Follows s buf (crypt_segment s buf)
unfolding crypt_segment
crypt_segment_lem s buf ok =
    let l = covered s buf in
    let facts = covered_lem s buf in
    let first : Bytes = take l buf in
    let rest : Bytes = drop l buf in
    let n = length rest / 64 in
    let s1 : Crypt = record s { leftover = s.leftover - l } in
    let len_rest : length rest ≡ length buf - l = length-drop l buf in
    let x : Bytes × Crypt = (xor_cpy first (drop (64 - s.leftover) s.stream), s1) in
    let f1 : Follows s first x = left_part s first l ok facts.1 (length-take l buf facts.0) in
    let spent : (length rest ≡ 0) ⊎ (s1.leftover ≡ 0) = elim facts.2 [
      | inl h ↦ inl (len_rest ∙ h)
      | inr h ↦ inr h
    ] in
    let whole = mbuf_blocks n s1 rest in
    let f2 = whole_part n s1 rest f1.1 (omega arith) spent in
    let tail : Bytes = drop (64 * n) rest in
    let len_tail : length tail ≡ length rest - 64 * n = length-drop (64 * n) rest in
    let spent_again : (length tail ≡ 0) ⊎ (whole.1.leftover ≡ 0) = elim spent [
      | inl h ↦ inl (omega arith)
      | inr h ↦ inr (mbuf_blocks-leftover n s1 rest ∙ h)
    ] in
    let last = mbuf_tail whole.1 tail in
    let f3 = end_part whole.1 tail f2.1 (omega arith) spent_again in
    let mid : Bytes = take (64 * n) rest in
    let out : Bytes × Crypt = (x.0 ++ whole.0 ++ last.0, last.1) in
    subst (λ (t : Bytes). Follows s t out)
      (append_assoc first mid tail
        ∙ ap (λ (t : Bytes). first ++ t) (take-append_drop (64 * n) rest)
        ∙ take-append_drop l buf)
      (Follows-append s (first ++ mid) tail (x.0 ++ whole.0, whole.1) last
        (Follows-append s first mid x whole f1 f2) f3)

-- One mbuf: the key stream goes on over its bytes, and the authenticator takes its cipher text.
crypt_mbuf_lem :
    (encrypt : Bool) (s : Crypt) (buf : Bytes)
    → IsCrypt s
    → let out = crypt_mbuf encrypt s buf in
      (crypt_bytes chacha20_block (left_of s) buf ≡ (out.0, left_of out.1))
      × IsCrypt out.1
      × (out.1.poly ≡ poly1305_update s.poly (if encrypt then out.0 else buf))
unfolding crypt_mbuf
crypt_mbuf_lem true s buf ok =
    let f = crypt_segment_lem s buf ok in
    (f.0, f.1, ap (λ p. poly1305_update p (crypt_segment s buf).0) f.2)
crypt_mbuf_lem false s buf ok =
    crypt_segment_lem (record s { poly = poly1305_update s.poly buf }) buf ok

-- However the bytes of a chain lie in its mbufs, the loop writes over them what the key stream makes of
-- all of them, and the authenticator takes the cipher text part by part, in order.
pub crypt_chain_lem :
    (encrypt : Bool) (s : Crypt) (bufs : List Bytes)
    → IsCrypt s
    → let out = crypt_chain encrypt s bufs in
      (crypt_bytes chacha20_block (left_of s) (flatten bufs) ≡ (flatten out.0, left_of out.1))
      × (out.1.poly ≡ updates s.poly (if encrypt then out.0 else bufs))
unfolding crypt_chain crypt_bytes
crypt_chain_lem true s [] ok = (refl, refl)
crypt_chain_lem false s [] ok = (refl, refl)
crypt_chain_lem encrypt s (buf ∷ bufs) ok =
    let f = crypt_mbuf_lem encrypt s buf ok in
    let out = crypt_mbuf encrypt s buf in
    let g = crypt_chain_lem encrypt out.1 bufs f.1 in
    let rest = crypt_chain encrypt out.1 bufs in
    let run : Bytes × (ChachaCtx × Bytes) → Bytes × (ChachaCtx × Bytes) =
      λ r. let t = crypt_bytes chacha20_block r.1 (flatten bufs) in (r.0 ++ t.0, t.1) in
    let text : Bool → List Bytes = λ b. if b then rest.0 else bufs in
    (
      crypt_bytes-append chacha20_block (left_of s) buf (flatten bufs)
          ∙ ap run f.0
          ∙ ap
              (λ (t : Bytes × (ChachaCtx × Bytes)).
                let r : Bytes × (ChachaCtx × Bytes) = (out.0 ++ t.0, t.1) in r)
              g.0,
      g.1 ∙ ap (λ p. updates p (text encrypt)) f.2 ∙ both_ways encrypt s.poly out.0 buf rest.0 bufs,
    )
  where
    both_ways :
        (e : Bool) (p : PolyCtx) (x y : Bytes) (xs ys : List Bytes)
        → updates (poly1305_update p (if e then x else y)) (if e then xs else ys)
          ≡ updates p (if e then x ∷ xs else y ∷ ys)
    both_ways true p x y xs ys = refl
    both_ways false p x y xs ys = refl
