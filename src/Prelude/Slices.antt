-- ===== src/Prelude/Slices.antt =====
-- Parts of arrays: the bytes before and after an offset, a copy into the middle of a buffer, and a run
-- over the whole blocks of an input.
use Prim.Native.Nat.{ℕ, zero, suc, ◌+◌, ◌-◌, ◌≤◌}
use mathlib.Core.Path.{◌≡◌, refl, sym, ap, ◌∙◌}
use mathlib.Core.List.{List, [], ◌∷◌, ◌++◌}
use native.Mathlib.Omega.{arith}
use wireguard_freebsd.Prelude.Lists.{length, get_or, take, replicate, length-append}

module _ {ℓ} {A : Type ℓ} where
  abbrev pub drop : ℕ → List A → List A
  drop zero xs = xs
  drop (suc n) [] = []
  drop (suc n) (x ∷ xs) = drop n xs

  -- memcpy(buf + off, src, …)
  abbrev pub copy_at : List A → ℕ → List A → List A
  copy_at buf off src = take off buf ++ src ++ drop (off + length src) buf

  abbrev pub flatten : List (List A) → List A
  flatten [] = []
  flatten (part ∷ parts) = part ++ flatten parts

  -- What f computes for i, i + 1, … of n indices.
  abbrev pub build : (ℕ → A) → ℕ → ℕ → List A
  build f i zero = []
  build f i (suc n) = f i ∷ build f (suc i) n

  -- n turns of a loop that takes `size` items of the input in each.
  abbrev pub each_block {m} : {S : Type m} → ℕ → (S → List A → S) → ℕ → S → List A → S
  each_block size step zero s input = s
  each_block size step (suc n) s input =
      each_block size step n (step s (take size input)) (drop size input)

module _ {ℓ} {A : Type ℓ} where
  pub take-append_drop : (n : ℕ) (xs : List A) → take n xs ++ drop n xs ≡ xs
  take-append_drop zero xs = refl
  take-append_drop (suc n) [] = refl
  take-append_drop (suc n) (x ∷ xs) = ap (λ (t : List A). x ∷ t) (take-append_drop n xs)

  pub length-take : (n : ℕ) (xs : List A) → n ≤ length xs → length (take n xs) ≡ n
  length-take zero xs h = refl
  length-take (suc n) [] h = absurd (omega arith)
  length-take (suc n) (x ∷ xs) h = ap suc (length-take n xs (omega arith))

  pub length-drop : (n : ℕ) (xs : List A) → length (drop n xs) ≡ length xs - n
  length-drop zero xs = omega arith
  length-drop (suc n) [] = omega arith
  length-drop (suc n) (x ∷ xs) = omega (arith, length-drop n xs)

  pub take-append : (xs ys : List A) (n : ℕ) → length xs ≡ n → take n (xs ++ ys) ≡ xs
  take-append [] ys n h = ap (λ t. take t ys) (sym h)
  take-append (x ∷ xs) ys zero h = absurd (omega arith)
  take-append (x ∷ xs) ys (suc n) h = ap (λ (t : List A). x ∷ t) (take-append xs ys n (omega arith))

  pub drop-append : (xs ys : List A) (n : ℕ) → length xs ≡ n → drop n (xs ++ ys) ≡ ys
  drop-append [] ys n h = ap (λ t. drop t ys) (sym h)
  drop-append (x ∷ xs) ys zero h = absurd (omega arith)
  drop-append (x ∷ xs) ys (suc n) h = drop-append xs ys n (omega arith)

  pub take-all : (xs : List A) (n : ℕ) → length xs ≤ n → take n xs ≡ xs
  take-all [] zero h = refl
  take-all [] (suc n) h = refl
  take-all (x ∷ xs) zero h = absurd (omega arith)
  take-all (x ∷ xs) (suc n) h = ap (λ (t : List A). x ∷ t) (take-all xs n (omega arith))

  pub drop-nil : (n : ℕ) → drop {A = A} n [] ≡ []
  drop-nil zero = refl
  drop-nil (suc n) = refl

  pub drop-drop : (m n : ℕ) (xs : List A) → drop m (drop n xs) ≡ drop (n + m) xs
  drop-drop m zero xs = ap (λ t. drop t xs) (omega arith)
  drop-drop m (suc n) [] = drop-nil m ∙ sym (drop-nil (suc n + m))
  drop-drop m (suc n) (x ∷ xs) =
      let e : suc (n + m) ≡ suc n + m = omega arith in
      drop-drop m n xs ∙ ap (λ t. drop t (x ∷ xs)) e

  pub length-build : (f : ℕ → A) (i n : ℕ) → length (build f i n) ≡ n
  length-build f i zero = refl
  length-build f i (suc n) = ap suc (length-build f (suc i) n)

  pub length-copy_at :
      (buf : List A) (off : ℕ) (src : List A)
      → off + length src ≤ length buf
      → length (copy_at buf off src) ≡ length buf
  length-copy_at buf off src h = omega (
    arith,
    length-append (take off buf ++ src) (drop (off + length src) buf),
    length-append (take off buf) src,
    length-take off buf (omega arith),
    length-drop (off + length src) buf,
  )

  -- A buffer read up to the end of what was copied.
  pub take-copy_at :
      (buf : List A) (off : ℕ) (src : List A) (n : ℕ)
      → off ≤ length buf
      → off + length src ≡ n
      → take n (copy_at buf off src) ≡ take off buf ++ src
  take-copy_at buf off src n h e =
      let rest : List A = drop (off + length src) buf in
      take-append (take off buf ++ src) rest n
        (omega (arith, length-append (take off buf) src, length-take off buf h))

  pub drop-all : (xs : List A) (n : ℕ) → length xs ≤ n → drop n xs ≡ []
  drop-all [] n h = drop-nil n
  drop-all (x ∷ xs) zero h = absurd (omega arith)
  drop-all (x ∷ xs) (suc n) h = drop-all xs n (omega arith)

  pub take-add : (m n : ℕ) (xs : List A) → take m xs ++ take n (drop m xs) ≡ take (m + n) xs
  take-add zero n xs = let e : n ≡ 0 + n = omega arith in ap (λ k. take k xs) e
  take-add (suc m) n [] = take-all [] n (omega arith) ∙ sym (take-all [] (suc m + n) (omega arith))
  take-add (suc m) n (x ∷ xs) =
      let e : suc (m + n) ≡ suc m + n = omega arith in
      ap (λ (t : List A). x ∷ t) (take-add m n xs) ∙ ap (λ k. take k (x ∷ xs)) e

  pub drop-replicate : (k n : ℕ) (a : A) → drop k (replicate n a) ≡ replicate (n - k) a
  drop-replicate zero n a = let e : n ≡ n - 0 = omega arith in ap (λ m. replicate m a) e
  drop-replicate (suc k) zero a = let e : 0 ≡ 0 - suc k = omega arith in ap (λ m. replicate m a) e
  drop-replicate (suc k) (suc n) a =
      let e : n - k ≡ suc n - suc k = omega arith in
      drop-replicate k n a ∙ ap (λ m. replicate m a) e

  pub get_or-append :
      (xs ys : List A) (i : ℕ) (d : A) → suc i ≤ length xs → get_or (xs ++ ys) i d ≡ get_or xs i d
  get_or-append [] ys i d h = absurd (omega arith)
  get_or-append (x ∷ xs) ys zero d h = refl
  get_or-append (x ∷ xs) ys (suc i) d h = get_or-append xs ys i d (omega arith)

  -- A part of an array, in a longer array.
  pub slice-append :
      (xs ys : List A) (i n : ℕ)
      → i + n ≤ length xs
      → take n (drop i (xs ++ ys)) ≡ take n (drop i xs)
  slice-append xs ys i zero h = refl
  slice-append [] ys i (suc n) h = absurd (omega arith)
  slice-append (x ∷ xs) ys zero (suc n) h =
      ap (λ (t : List A). x ∷ t) (slice-append xs ys 0 n (omega arith))
  slice-append (x ∷ xs) ys (suc i) (suc n) h = slice-append xs ys i (suc n) (omega arith)
