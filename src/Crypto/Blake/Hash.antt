-- ===== src/Crypto/Blake/Hash.antt =====
-- The digest of BLAKE2s as a function of the whole message, the calls that compute it in parts, the
-- keyed hash and the HMAC.
use mathlib.Core.List.{append-nil}
use wireguard_freebsd.Prelude.{
  ℕ, ◌+◌, ◌-◌, ◌*◌, ◌≤◌, ◌<◌, ◌≡◌, refl, sym, ap, ap₂, ◌∙◌, List, [], ◌∷◌, ◌++◌, length, take, drop,
  Bytes, arith, ◌==◌, ltb, Bool, if◌then◌else◌, if_cases, inl, inr, copy_at, replicate, flatten,
  length-take, take-copy_at, length-replicate, drop-replicate, ◌⊎◌, Bool-cases, bit_or, bit_xor,
}
use wireguard_freebsd.Prelude.Digits.{bit_xor-exchange}
use wireguard_freebsd.Crypto.Word.{le32_bytes}
use wireguard_freebsd.Crypto.Blake.{
  BlakeCore, BlakeState, compress_block, blake2s_compress, blake2s_set_lastblock,
  blake2s_init_param, blake2s_init, blake2s_init_key, update_rest, blake2s_update, blake2s_final,
  blake2s, hmac_key, xor_with, blake2s_hmac,
}
use wireguard_freebsd.Crypto.Blake.Update.{pending, IsBlakeState, absorbed, blake2s_update_lem}
use wireguard_freebsd.Crypto.Blake.Absorb.{absorb, absorb-append}

-- The last block: the bytes that wait and zeros, counted with its own bytes, with the flag set.
pub finish : ℕ → BlakeCore × Bytes → Bytes
finish outlen (core, p) = take outlen (
    le32_bytes
      (compress_block (length p) (blake2s_set_lastblock core) (p ++ replicate (64 - length p) 0)).h)

blake2s_final_lem :
    (s : BlakeState) → IsBlakeState s → blake2s_final s ≡ finish s.outlen (pending s)
unfolding blake2s_final finish blake2s_compress
blake2s_final_lem s ok =
    let waits : Bytes = take s.buflen s.buf in
    let zeros : ℕ → Bytes = λ n. replicate (64 - n) 0 in
    let len_zeros : length (zeros s.buflen) ≡ 64 - s.buflen =
      length-replicate {A = ℕ} (64 - s.buflen) 0 in
    let len_waits : length waits ≡ s.buflen = length-take s.buflen s.buf (omega arith) in
    let core : BlakeCore = blake2s_set_lastblock s.core in
    let out : BlakeCore → Bytes = λ c. take s.outlen (le32_bytes c.h) in
    ap (λ (b : Bytes). out (compress_block s.buflen core b))
      (take-copy_at s.buf s.buflen (zeros s.buflen) 64 (omega arith) (omega arith))
    ∙ ap (λ n. out (compress_block n core (waits ++ zeros n))) (sym len_waits)

abbrev pub updates : BlakeState → List Bytes → BlakeState
updates s [] = s
updates s (part ∷ parts) = updates (blake2s_update s part) parts

updates_lem :
    (s : BlakeState) (parts : List Bytes)
    → IsBlakeState s
    → (pending (updates s parts) ≡ absorbed (pending s) (flatten parts))
      × IsBlakeState (updates s parts)
unfolding absorb
updates_lem s [] ok = (refl, ok)
updates_lem s (part ∷ parts) ok =
    let first = blake2s_update_lem s part ok in
    let rest = updates_lem (blake2s_update s part) parts first.1 in
    (
      rest.0
          ∙ ap (λ (t : BlakeCore × Bytes). absorbed t (flatten parts)) first.0
          ∙ sym (absorb-append 64 (compress_block 64) (pending s) part (flatten parts)),
      rest.1,
    )

blake2s_update-outlen :
    (s : BlakeState) (input : Bytes) → (blake2s_update s input).outlen ≡ s.outlen
unfolding blake2s_update update_rest
blake2s_update-outlen s input =
    let fill = 64 - s.buflen in
    let buf = copy_at s.buf s.buflen (take fill input) in
    let filled : BlakeState = record s {
      core = blake2s_compress s.core buf 1 64;
      buf = buf;
      buflen = 0;
    } in
    let a : BlakeState = update_rest filled (drop fill input) in
    let b : BlakeState = update_rest s input in
    let Keeps : BlakeState → Type 0 = λ t. t.outlen ≡ s.outlen in
    if_cases Keeps (length input == 0) s (if ltb fill (length input) then a else b) refl
      (if_cases Keeps (ltb fill (length input)) a b refl refl)

updates-outlen : (s : BlakeState) (parts : List Bytes) → (updates s parts).outlen ≡ s.outlen
updates-outlen s [] = refl
updates-outlen s (part ∷ parts) =
    updates-outlen (blake2s_update s part) parts ∙ blake2s_update-outlen s part

-- The digest of a message from a start state, by bytes.
pub digest : BlakeState → Bytes → Bytes
digest start message = finish start.outlen (absorbed (start.core, []) message)

final_of_updates :
    (s : BlakeState) (parts : List Bytes)
    → s.buflen ≡ 0
    → length s.buf ≡ 64
    → blake2s_final (updates s parts) ≡ digest s (flatten parts)
unfolding digest
final_of_updates s parts z h =
    let run = updates_lem s parts (h, omega arith) in
    blake2s_final_lem (updates s parts) run.1
    ∙ ap₂ finish (updates-outlen s parts) run.0
    ∙ ap (λ n. finish s.outlen (absorbed (s.core, take n s.buf) (flatten parts))) z

-- However a message is cut into parts, `blake2s_init`, `blake2s_update` of each part and `blake2s_final`
-- compute the digest of the message, in which every full block but the last is hashed as it is and the
-- last is padded with zeros and flagged.
pub blake2s_parts :
    (outlen : ℕ) (parts : List Bytes)
    → blake2s_final (updates (blake2s_init outlen) parts)
      ≡ digest (blake2s_init outlen) (flatten parts)
unfolding blake2s_init blake2s_init_param
blake2s_parts outlen parts = final_of_updates (blake2s_init outlen) parts refl refl

-- A key in a block of zeros.
key_block_lem :
    (key : Bytes) → copy_at (replicate 64 0) 0 key ≡ key ++ replicate (64 - length key) 0
key_block_lem key =
    let e : 0 + length key ≡ length key = omega arith in
    ap (λ n. key ++ drop n (replicate 64 0)) e
    ∙ ap (λ (t : Bytes). key ++ t) (drop-replicate (length key) 64 0)

-- `blake2s` without a key is the digest of the message; with a key of 1 to 64 bytes it is the digest of
-- the key, padded with zeros to a block, and the message behind it, from a parameter block with the
-- length of the key.
pub blake2s_lem :
    (input key : Bytes) (outlen : ℕ)
    → length key ≤ 64
    → let param = bit_or (bit_or 16842752 (length key * 256)) outlen in
      ((length key ≡ 0) × (blake2s input key outlen ≡ digest (blake2s_init outlen) input))
      ⊎ ((0 < length key)
          × (blake2s input key outlen
              ≡ digest
                  (record (blake2s_init_param param) { outlen = outlen })
                  (key ++ replicate (64 - length key) 0 ++ input)))
unfolding blake2s blake2s_init_key blake2s_init_param
blake2s_lem input key outlen short =
    let param : ℕ = bit_or (bit_or 16842752 (length key * 256)) outlen in
    let start : BlakeState = record (blake2s_init_param param) { outlen = outlen } in
    let block : Bytes = copy_at (replicate 64 0) 0 key in
    let plain : BlakeState = blake2s_init outlen in
    let keyed : BlakeState = blake2s_init_key outlen key in
    let run : Bool → Bytes =
      λ b. let s = if b then plain else keyed in blake2s_final (blake2s_update s input) in
    elim (Bool-cases (length key == 0)) [
      | inl e ↦ inl (
        ground arith,
        ap run e
            ∙ blake2s_parts outlen (input ∷ [])
            ∙ ap (digest (blake2s_init outlen)) (append-nil input),
      )
      | inr e ↦ inr (
        ground arith,
        ap run e
            ∙ final_of_updates start (block ∷ input ∷ []) refl refl
            ∙ ap (digest start) (
                ap (λ (t : Bytes). block ++ t) (append-nil input)
                ∙ ap (λ (t : Bytes). t ++ input) (key_block_lem key)),
      )
    ]

xor_with-xor_with : (a b : ℕ) (xs : Bytes) → xor_with (bit_xor b a) (xor_with a xs) ≡ xor_with b xs
xor_with-xor_with a b [] = refl
xor_with-xor_with a b (x ∷ xs) =
    ap₂ (λ (y : ℕ) (ys : Bytes). y ∷ ys) (bit_xor-exchange x a b) (xor_with-xor_with a b xs)

-- The unkeyed hash of one message, of 32 bytes.
abbrev pub hash32 : Bytes → Bytes
hash32 message = digest (blake2s_init 32) message

-- `blake2s_hmac` is the HMAC of RFC 2104 over BLAKE2s with 32 bytes: with K the key in 64 bytes, where a
-- key of more than 64 bytes stands for its hash, it is the hash of K xor 0x5c… and the hash of K xor
-- 0x36… and the input, cut to `outlen` bytes.
pub blake2s_hmac_lem :
    (input key : Bytes) (outlen : ℕ)
    → let short = if ltb 64 (length key) then hash32 key else key in
      let k = short ++ replicate (64 - length short) 0 in
      blake2s_hmac input key outlen
      ≡ take outlen (hash32 (xor_with 92 k ++ hash32 (xor_with 54 k ++ input)))
unfolding blake2s_hmac hmac_key
blake2s_hmac_lem input key outlen =
    let hashed : Bytes = blake2s_final (blake2s_update (blake2s_init 32) key) in
    let short : Bytes = if ltb 64 (length key) then hash32 key else key in
    let one : hashed ≡ hash32 key = blake2s_parts 32 (key ∷ []) ∙ ap hash32 (append-nil key) in
    let k : Bytes = short ++ replicate (64 - length short) 0 in
    let pick : Bytes → Bytes = λ t. if ltb 64 (length key) then t else key in
    let made : hmac_key key ≡ k =
      ap (λ (t : Bytes). copy_at (replicate 64 0) 0 (pick t)) one ∙ key_block_lem short in
    let two : (a b : Bytes)
        → blake2s_final (blake2s_update (blake2s_update (blake2s_init 32) a) b) ≡ hash32 (a ++ b) =
      λ a b. blake2s_parts 32 (a ∷ b ∷ []) ∙ ap (λ (t : Bytes). hash32 (a ++ t)) (append-nil b) in
    let mac : Bytes → Bytes → Bytes = λ o i. take outlen (hash32 (o ++ hash32 (i ++ input))) in
    ap (λ (t : Bytes). take outlen t)
      (two (xor_with (bit_xor 92 54) (xor_with 54 (hmac_key key))) (
        blake2s_final
          (blake2s_update (blake2s_update (blake2s_init 32) (xor_with 54 (hmac_key key))) input)))
    ∙ ap
        (λ (t : Bytes).
          take outlen (hash32 (xor_with (bit_xor 92 54) (xor_with 54 (hmac_key key)) ++ t)))
        (two (xor_with 54 (hmac_key key)) input)
    ∙ ap (λ (o : Bytes). mac o (xor_with 54 (hmac_key key)))
        (xor_with-xor_with 54 92 (hmac_key key))
    ∙ ap (λ (t : Bytes). mac (xor_with 92 t) (xor_with 54 t)) made
