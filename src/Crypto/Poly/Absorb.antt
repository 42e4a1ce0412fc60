-- ===== src/Crypto/Poly/Absorb.antt =====
-- A message taken byte by byte in blocks of one size: the description that the code of crypto.c, which
-- takes as many blocks at once as it can, is compared with. A state is what the whole blocks have made
-- and the bytes that wait for the rest of their block.
use mathlib.Core.List.{append_assoc, append-nil}
use wireguard_freebsd.Prelude.{
  ℕ, zero, suc, ◌+◌, ◌*◌, ◌<◌, ◌≡◌, refl, sym, ap, ◌∙◌, [], ◌∷◌, ◌++◌, length, take, drop, Bytes,
  arith, ◌==◌, Bool, true, false, if◌then◌else◌, each_block, length-append, take-append_drop,
  length-take, length-drop,
}

module _ {S : Type 0} (size : ℕ) (compress : S → Bytes → S) where
  abbrev settle : S → Bytes → S × Bytes
  settle s p = if length p == size then (compress s p, []) else (s, p)

  unfoldable pub absorb : S × Bytes → Bytes → S × Bytes
  absorb s [] = s
  absorb s (b ∷ bs) = absorb (settle s.0 (s.1 ++ (b ∷ []))) bs

  pub absorb-append :
      (s : S × Bytes) (xs ys : Bytes) → absorb s (xs ++ ys) ≡ absorb (absorb s xs) ys
  unfolding absorb
  absorb-append s [] ys = refl
  absorb-append s (x ∷ xs) ys = absorb-append (settle s.0 (s.1 ++ (x ∷ []))) xs ys

  -- Less than a block.
  pub absorb-short :
      (s : S) (p xs : Bytes) → length p + length xs < size → absorb (s, p) xs ≡ (s, p ++ xs)
  unfolding absorb
  absorb-short s p [] h = ap (λ (t : Bytes). (s, t)) (sym (append-nil p))
  absorb-short s p (x ∷ xs) h =
      let q : Bytes = p ++ (x ∷ []) in
      let out : S × Bytes = (compress s q, []) in
      let e : (length q == size) ≡ false = ground (arith, length-append p (x ∷ [])) in
      ap (λ (b : Bool). absorb (if b then out else (s, q)) xs) e
      ∙ absorb-short s q xs (omega (arith, length-append p (x ∷ [])))
      ∙ ap (λ (t : Bytes). (s, t)) (append_assoc p (x ∷ []) xs)

  -- Up to the end of a block.
  pub absorb-block :
      (s : S) (p xs : Bytes)
      → 0 < length xs
      → length p + length xs ≡ size
      → absorb (s, p) xs ≡ (compress s (p ++ xs), [])
  unfolding absorb
  absorb-block s p [] z h = absurd (omega arith)
  absorb-block s p (x ∷ []) z h =
      let q : Bytes = p ++ (x ∷ []) in
      let out : S × Bytes = (compress s q, []) in
      let e : (length q == size) ≡ true = ground (arith, length-append p (x ∷ [])) in
      ap (λ (b : Bool). if b then out else (s, q)) e
  absorb-block s p (x ∷ y ∷ xs) z h =
      let q : Bytes = p ++ (x ∷ []) in
      let out : S × Bytes = (compress s q, []) in
      let e : (length q == size) ≡ false = ground (arith, length-append p (x ∷ [])) in
      ap (λ (b : Bool). absorb (if b then out else (s, q)) (y ∷ xs)) e
      ∙ absorb-block s q (y ∷ xs) (omega arith) (omega (arith, length-append p (x ∷ [])))
      ∙ ap (λ (t : Bytes). (compress s t, [])) (append_assoc p (x ∷ []) (y ∷ xs))

  -- Whole blocks from the start of a block on.
  pub absorb-each_block :
      (n : ℕ) (s : S) (xs : Bytes)
      → 0 < size
      → length xs ≡ n * size
      → absorb (s, []) xs ≡ (each_block size compress n s xs, [])
  unfolding absorb
  absorb-each_block zero s [] z h = refl
  absorb-each_block zero s (x ∷ xs) z h = absurd (omega arith)
  absorb-each_block (suc n) s xs z h =
      let first : Bytes = take size xs in
      let rest : Bytes = drop size xs in
      ap (absorb (s, [])) (sym (take-append_drop size xs))
      ∙ absorb-append (s, []) first rest
      ∙ ap (λ (t : S × Bytes). absorb t rest)
          (absorb-block s [] first (grind (arith, length-take size xs))
            (grind (arith, length-take size xs)))
      ∙ absorb-each_block n (compress s first) rest z (grind (arith, length-drop size xs))
