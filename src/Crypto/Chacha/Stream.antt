-- ===== src/Crypto/Chacha/Stream.antt =====
-- A block generator as a stream of key bytes, one at a time: the description that the block-wise code of
-- crypto.c is compared with. A state of the stream is the generator and the key bytes left of its last
-- block.
use wireguard_freebsd.Prelude.{
  ℕ, suc, ◌≤◌, ◌<◌, ◌≡◌, refl, ap, ap₂, [], ◌∷◌, ◌++◌, length, drop, Bytes, bit_xor, arith,
}
use wireguard_freebsd.Prelude.Digits.{bit_xor_self}
use wireguard_freebsd.Crypto.Word.{xor_cpy}

module _ {C : Type 0} (block : C → C × Bytes) where
  abbrev first_byte : C × Bytes → ℕ × (C × Bytes)
  first_byte (c, []) = (0, (c, []))
  first_byte (c, k ∷ left) = (k, (c, left))

  -- The next key byte; a block is made when none is left.
  pub next_byte : C × Bytes → ℕ × (C × Bytes)
  next_byte (c, k ∷ left) = (k, (c, left))
  next_byte (c, []) = first_byte (block c)

  unfoldable pub crypt_bytes : C × Bytes → Bytes → Bytes × (C × Bytes)
  crypt_bytes s [] = ([], s)
  crypt_bytes s (b ∷ bs) =
      let n = next_byte s in let r = crypt_bytes n.1 bs in (bit_xor b n.0 ∷ r.0, r.1)

  pub crypt_bytes-append :
      (s : C × Bytes) (xs ys : Bytes)
      → let first = crypt_bytes s xs in
        let second = crypt_bytes first.1 ys in
        crypt_bytes s (xs ++ ys) ≡ (first.0 ++ second.0, second.1)
  unfolding crypt_bytes
  crypt_bytes-append s [] ys = refl
  crypt_bytes-append s (x ∷ xs) ys =
      let n = next_byte s in
      ap (λ (r : Bytes × (C × Bytes)). (bit_xor x n.0 ∷ r.0, r.1)) (crypt_bytes-append n.1 xs ys)

  pub length-crypt_bytes : (s : C × Bytes) (xs : Bytes) → length (crypt_bytes s xs).0 ≡ length xs
  unfolding crypt_bytes
  length-crypt_bytes s [] = refl
  length-crypt_bytes s (x ∷ xs) = ap suc (length-crypt_bytes (next_byte s).1 xs)

  -- The stream from the same state undoes itself.
  pub crypt_bytes-crypt_bytes :
      (s : C × Bytes) (xs : Bytes) → (crypt_bytes s (crypt_bytes s xs).0).0 ≡ xs
  unfolding crypt_bytes
  crypt_bytes-crypt_bytes s [] = refl
  crypt_bytes-crypt_bytes s (x ∷ xs) =
      ap₂ (λ (b : ℕ) (bs : Bytes). b ∷ bs) (bit_xor_self x (next_byte s).0)
        (crypt_bytes-crypt_bytes (next_byte s).1 xs)

  -- A run within the key bytes that are left is one xor_cpy.
  pub crypt_bytes-left :
      (c : C) (left xs : Bytes)
      → length xs ≤ length left
      → crypt_bytes (c, left) xs ≡ (xor_cpy xs left, (c, drop (length xs) left))
  unfolding crypt_bytes next_byte
  crypt_bytes-left c left [] h = refl
  crypt_bytes-left c [] (x ∷ xs) h = absurd (omega arith)
  crypt_bytes-left c (k ∷ left) (x ∷ xs) h =
      ap (λ (r : Bytes × (C × Bytes)). (bit_xor x k ∷ r.0, r.1))
        (crypt_bytes-left c left xs (omega arith))

  -- At the end of a block, the next run of at most a block makes one block.
  pub crypt_bytes-block :
      (c : C) (xs : Bytes)
      → 0 < length xs
      → length xs ≤ length (block c).1
      → crypt_bytes (c, []) xs
        ≡ (xor_cpy xs (block c).1, ((block c).0, drop (length xs) (block c).1))
  unfolding crypt_bytes next_byte
  crypt_bytes-block c [] p h = absurd (omega arith)
  crypt_bytes-block c (x ∷ xs) p h = refilled (block c) h
    where
      refilled :
          (b : C × Bytes)
          → suc (length xs) ≤ length b.1
          → let n = first_byte b in
            let r = crypt_bytes n.1 xs in
            let out : Bytes × (C × Bytes) = (bit_xor x n.0 ∷ r.0, r.1) in
            out ≡ (xor_cpy (x ∷ xs) b.1, (b.0, drop (suc (length xs)) b.1))
      refilled (d, []) h = absurd (omega arith)
      refilled (d, k ∷ left) h = crypt_bytes-left d (k ∷ left) (x ∷ xs) h
