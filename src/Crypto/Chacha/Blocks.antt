-- ===== src/Crypto/Chacha/Blocks.antt =====
-- ChaCha20 block by block against its key stream byte by byte (chacha20 of crypto.c).
use mathlib.Core.List.{append_assoc, append-nil}
use wireguard_freebsd.Prelude.{
  ℕ, zero, suc, ◌+◌, ◌*◌, ◌/◌, ◌≤◌, ◌≡◌, refl, sym, ap, ◌∙◌, List, [], ◌∷◌, ◌++◌, length, drop,
  take, Bytes, arith, if◌then◌else◌, ◌==◌, Bool, false, take-append_drop, length-take, length-drop,
  drop-drop, build, drop-all,
}
use wireguard_freebsd.Crypto.Word.{xor_cpy, le32_bytes, add32}
use wireguard_freebsd.Crypto.Chacha.{
  ChachaCtx, chacha20_block, chacha20_loop, chacha20, twenty_rounds, word,
}
use wireguard_freebsd.Crypto.Chacha.Stream.{
  crypt_bytes, crypt_bytes-append, crypt_bytes-block, length-crypt_bytes, crypt_bytes-crypt_bytes,
}

length-le32_bytes : (ws : List ℕ) → length (le32_bytes ws) ≡ 4 * length ws
length-le32_bytes [] = refl
length-le32_bytes (w ∷ ws) = omega (arith, length-le32_bytes ws)

pub length-chacha20_block : (ctx : ChachaCtx) → length (chacha20_block ctx).1 ≡ 64
unfolding chacha20_block
length-chacha20_block ctx = length-le32_bytes (
    build (λ i. add32 (word (twenty_rounds (build (word ctx.state) 0 16)) i) (word ctx.state i)) 0
      16)

-- What the stream of ChaCha20 makes of `input` from the start of a block on.
abbrev pub keystream : ChachaCtx → Bytes → Bytes × (ChachaCtx × Bytes)
keystream ctx input = crypt_bytes chacha20_block (ctx, []) input

one_block :
    (ctx : ChachaCtx) (xs : Bytes)
    → length xs ≡ 64
    → keystream ctx xs ≡ (xor_cpy xs (chacha20_block ctx).1, ((chacha20_block ctx).0, []))
one_block ctx xs h =
    let b = chacha20_block ctx in
    crypt_bytes-block chacha20_block ctx xs (omega arith) (omega (arith, length-chacha20_block ctx))
    ∙ ap (λ (t : Bytes). (xor_cpy xs b.1, (b.0, t)))
        (drop-all b.1 (length xs) (omega (arith, length-chacha20_block ctx)))

-- The whole blocks of the input, then the rest.
chacha20_loop_lem :
    (n : ℕ) (ctx : ChachaCtx) (input : Bytes)
    → 64 * n ≤ length input
    → let whole = chacha20_loop n ctx input in
      let rest = keystream whole.1 (drop (64 * n) input) in
      keystream ctx input ≡ (whole.0 ++ rest.0, rest.1)
unfolding chacha20_loop
chacha20_loop_lem zero ctx input h = refl
chacha20_loop_lem (suc n) ctx input h =
    let xs : Bytes = take 64 input in
    let ys : Bytes = drop 64 input in
    let b = chacha20_block ctx in
    let k : 64 * n ≤ length ys = omega (arith, length-drop 64 input) in
    let e : drop (64 * n) ys ≡ drop (64 * suc n) input = drop_next n input in
    let whole = chacha20_loop n b.0 ys in
    let end : Bytes = drop (64 * suc n) input in
    ap (keystream ctx) (sym (take-append_drop 64 input))
    ∙ crypt_bytes-append chacha20_block (ctx, []) xs ys
    ∙ ap
        (λ (s : Bytes × (ChachaCtx × Bytes)).
          let r = crypt_bytes chacha20_block s.1 ys in
          let out : Bytes × (ChachaCtx × Bytes) = (s.0 ++ r.0, r.1) in out)
        (one_block ctx xs (length-take 64 input (omega arith)))
    ∙ ap (λ (s : Bytes × (ChachaCtx × Bytes)). (xor_cpy xs b.1 ++ s.0, s.1))
        (chacha20_loop_lem n b.0 ys k)
    ∙ ap
        (λ (t : Bytes).
          let r = keystream whole.1 t in
          let out : Bytes × (ChachaCtx × Bytes) = (xor_cpy xs b.1 ++ (whole.0 ++ r.0), r.1) in out)
        e
    ∙ ap
        (λ (t : Bytes).
          let out : Bytes × (ChachaCtx × Bytes) = (t, (keystream whole.1 end).1) in out)
        (sym (append_assoc (xor_cpy xs b.1) whole.0 (keystream whole.1 end).0))
  where
    drop_next : (n : ℕ) (input : Bytes) → drop (64 * n) (drop 64 input) ≡ drop (64 * suc n) input
    drop_next n input =
        let e : 64 + 64 * n ≡ 64 * suc n = omega arith in
        drop-drop (64 * n) 64 input ∙ ap (λ t. drop t input) e

-- The two branches at the end: no bytes left, or a last part of a block.
last_part :
    (whole : Bytes × ChachaCtx) (tail : Bytes)
    → length tail ≤ 64
    → let buf = chacha20_block whole.1 in
      let rest = keystream whole.1 tail in
      (if length tail == 0 then whole else (whole.0 ++ xor_cpy tail buf.1, buf.0))
      ≡ (whole.0 ++ rest.0, rest.1.0)
unfolding crypt_bytes
last_part whole [] h = ap (λ (t : Bytes). (t, whole.1)) (sym (append-nil whole.0))
last_part whole (x ∷ xs) h =
    let buf = chacha20_block whole.1 in
    let more : (suc (length xs) == 0) ≡ false = ground arith in
    let out : Bytes × ChachaCtx = (whole.0 ++ xor_cpy (x ∷ xs) buf.1, buf.0) in
    ap (λ (c : Bool). if c then whole else out) more
    ∙ ap (λ (r : Bytes × (ChachaCtx × Bytes)). (whole.0 ++ r.0, r.1.0))
        (sym (
          crypt_bytes-block chacha20_block whole.1 (x ∷ xs) (omega arith)
            (omega (arith, length-chacha20_block whole.1))))

-- `chacha20` is the key stream: byte i of the output is byte i of the input xored with byte i of the
-- blocks that `chacha20_block` makes one after the other, and the context stands behind the last block.
pub chacha20_lem :
    (ctx : ChachaCtx) (input : Bytes)
    → chacha20 ctx input ≡ ((keystream ctx input).0, (keystream ctx input).1.0)
unfolding chacha20
chacha20_lem ctx input =
    let n = length input / 64 in
    last_part (chacha20_loop n ctx input) (drop (64 * n) input)
      (omega (arith, length-drop (64 * (length input / 64)) input))
    ∙ ap (λ (r : Bytes × (ChachaCtx × Bytes)). (r.0, r.1.0))
        (sym (chacha20_loop_lem n ctx input (omega arith)))

pub length-chacha20 :
    (ctx : ChachaCtx) (input : Bytes) → length (chacha20 ctx input).0 ≡ length input
length-chacha20 ctx input =
    ap (λ (r : Bytes × ChachaCtx). length r.0) (chacha20_lem ctx input)
    ∙ length-crypt_bytes chacha20_block (ctx, []) input

-- `chacha20` from the same context, run on its own output, gives the input back.
pub chacha20-chacha20 :
    (ctx : ChachaCtx) (input : Bytes) → (chacha20 ctx (chacha20 ctx input).0).0 ≡ input
chacha20-chacha20 ctx input =
    let once : Bytes → Bytes = λ t. (keystream ctx t).0 in
    ap (λ (r : Bytes × ChachaCtx). r.0) (chacha20_lem ctx (chacha20 ctx input).0)
    ∙ ap once (ap (λ (r : Bytes × ChachaCtx). r.0) (chacha20_lem ctx input))
    ∙ crypt_bytes-crypt_bytes chacha20_block (ctx, []) input
