-- ===== src/Crypto/Blake/Absorb.antt =====
-- A message taken byte by byte, where a full block waits until a further byte shows that it is not the
-- last: the description that blake2s_update is compared with. A state is what the blocks before have
-- made, and the bytes that wait.
use mathlib.Core.List.{append_assoc, append-nil}
use wireguard_freebsd.Prelude.{
  ℕ, zero, suc, ◌+◌, ◌*◌, ◌≤◌, ◌<◌, ◌≡◌, refl, sym, ap, ◌∙◌, [], ◌∷◌, ◌++◌, length, take, drop,
  Bytes, arith, ◌==◌, Bool, true, false, if◌then◌else◌, each_block, length-append, take-append_drop,
  length-take, length-drop, drop-drop,
}

module _ {S : Type 0} (size : ℕ) (compress : S → Bytes → S) where
  abbrev room : S × Bytes → S × Bytes
  room s = if length s.1 == size then (compress s.0 s.1, []) else s

  unfoldable pub absorb : S × Bytes → Bytes → S × Bytes
  absorb s [] = s
  absorb s (b ∷ bs) = let r = room s in absorb (r.0, r.1 ++ (b ∷ [])) bs

  pub absorb-append :
      (s : S × Bytes) (xs ys : Bytes) → absorb s (xs ++ ys) ≡ absorb (absorb s xs) ys
  unfolding absorb
  absorb-append s [] ys = refl
  absorb-append s (x ∷ xs) ys = let r = room s in absorb-append (r.0, r.1 ++ (x ∷ [])) xs ys

  -- Up to a block.
  pub absorb-short :
      (s : S) (p xs : Bytes) → length p + length xs ≤ size → absorb (s, p) xs ≡ (s, p ++ xs)
  unfolding absorb
  absorb-short s p [] h = ap (λ (t : Bytes). (s, t)) (sym (append-nil p))
  absorb-short s p (x ∷ xs) h =
      let made : S × Bytes = (compress s p, []) in
      let after : Bool → S × Bytes = λ b. if b then made else (s, p) in
      let e : (length p == size) ≡ false = ground arith in
      ap (λ b. absorb ((after b).0, (after b).1 ++ (x ∷ [])) xs) e
      ∙ absorb-short s (p ++ (x ∷ [])) xs (omega (arith, length-append p (x ∷ [])))
      ∙ ap (λ (t : Bytes). (s, t)) (append_assoc p (x ∷ []) xs)

  -- A byte behind a full block.
  pub absorb-full :
      (s : S) (p xs : Bytes)
      → 0 < size
      → length p ≡ size
      → 0 < length xs
      → absorb (s, p) xs ≡ absorb (compress s p, []) xs
  unfolding absorb
  absorb-full s p [] z h k = absurd (omega arith)
  absorb-full s p (x ∷ xs) z h k =
      let made : S × Bytes = (compress s p, []) in
      let empty : S × Bytes = (compress made.0 [], []) in
      let after : Bool → S × Bytes = λ b. if b then made else (s, p) in
      let again : Bool → S × Bytes = λ b. if b then empty else made in
      let e : (length p == size) ≡ true = ground arith in
      let f : (0 == size) ≡ false = ground arith in
      ap (λ b. absorb ((after b).0, (after b).1 ++ (x ∷ [])) xs) e
      ∙ ap (λ b. absorb ((again b).0, (again b).1 ++ (x ∷ [])) xs) (sym f)

  -- Whole blocks from the start of a block on, with a byte behind the last.
  pub absorb-each_block :
      (n : ℕ) (s : S) (xs : Bytes)
      → 0 < size
      → n * size < length xs
      → absorb (s, []) xs ≡ absorb (each_block size compress n s xs, []) (drop (n * size) xs)
  absorb-each_block zero s xs z h =
      let e : 0 ≡ 0 * size = omega arith in ap (λ m. absorb (s, []) (drop m xs)) e
  absorb-each_block (suc n) s xs z h =
      let first : Bytes = take size xs in
      let rest : Bytes = drop size xs in
      let more : size + n * size < length xs = grind arith in
      let len_first : length first ≡ size = length-take size xs (omega arith) in
      let k : n * size < length rest = omega (arith, length-drop size xs) in
      let e : size + n * size ≡ suc n * size = grind arith in
      ap (absorb (s, [])) (sym (take-append_drop size xs))
      ∙ absorb-append (s, []) first rest
      ∙ ap (λ (t : S × Bytes). absorb t rest) (absorb-short s [] first (omega arith))
      ∙ absorb-full s first rest z len_first (omega arith)
      ∙ absorb-each_block n (compress s first) rest z k
      ∙ ap (absorb (each_block size compress n (compress s first) rest, []))
          (drop-drop (n * size) size xs ∙ ap (λ m. drop m xs) e)
