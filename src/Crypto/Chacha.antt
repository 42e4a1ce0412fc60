-- ===== src/Crypto/Chacha.antt =====
-- ChaCha20 and HChaCha20 (crypto.c, from QUARTER_ROUND to hchacha20).
pub mod Stream
pub mod Blocks
mod Tests
use wireguard_freebsd.Prelude.{
  ℕ, zero, suc, ◌+◌, ◌*◌, ◌/◌, ◌%◌, List, [], ◌∷◌, ◌++◌, get_or, set, take, drop, build, length,
  ◌==◌, Bytes, bit_xor, if◌then◌else◌,
}
use wireguard_freebsd.Crypto.Word.{u32_mod, add32, get_unaligned_le32, le32_bytes, rol32, xor_cpy}

abbrev pub chacha20_block_size : ℕ
chacha20_block_size = 64

-- x[i] of an array of words
abbrev pub word : List ℕ → ℕ → ℕ
word x i = get_or x i 0

-- Two statements of QUARTER_ROUND: `x[a] += x[b], x[d] = rol32(x[d] ^ x[a], shift)`.
abbrev add_xor_rol : List ℕ → ℕ → ℕ → ℕ → ℕ → List ℕ
add_xor_rol x a b d shift =
    let y = set x a (add32 (word x a) (word x b)) in
    set y d (rol32 (bit_xor (word y d) (word y a)) shift)

pub quarter_round : List ℕ → ℕ → ℕ → ℕ → ℕ → List ℕ
quarter_round x a b c d =
    let x1 = add_xor_rol x a b d 16 in
    let x2 = add_xor_rol x1 c d b 12 in let x3 = add_xor_rol x2 a b d 8 in add_xor_rol x3 c d b 7

pub double_round : List ℕ → List ℕ
double_round x =
    let c0 = quarter_round x 0 4 8 12 in
    let c1 = quarter_round c0 1 5 9 13 in
    let c2 = quarter_round c1 2 6 10 14 in
    let c3 = quarter_round c2 3 7 11 15 in
    let d0 = quarter_round c3 0 5 10 15 in
    let d1 = quarter_round d0 1 6 11 12 in
    let d2 = quarter_round d1 2 7 8 13 in quarter_round d2 3 4 9 14

pub twenty_rounds : List ℕ → List ℕ
twenty_rounds x = rounds 10 x
  where
    rounds : ℕ → List ℕ → List ℕ
    rounds zero x = x
    rounds (suc n) x = rounds n (double_round x)

-- CHACHA20_CONSTANT_EXPA, …
abbrev pub chacha20_constants : List ℕ
chacha20_constants = 1634760805 ∷ 857760878 ∷ 2036477234 ∷ 1797285236 ∷ []

-- The words of a key of 32 bytes.
abbrev key_words : Bytes → List ℕ
key_words key = build (λ i. get_unaligned_le32 key (4 * i)) 0 8

-- The union of `state` with `constant`, `key` and `counter`: 16 words.
pub record ChachaCtx : Type 0 where
  pub state : List ℕ

pub chacha20_init : Bytes → ℕ → ChachaCtx
chacha20_init key nonce = record {
  state = chacha20_constants ++ key_words key ++ (0 ∷ 0 ∷ nonce % u32_mod ∷ nonce / u32_mod ∷ []);
}

-- The context with counter[0] moved on, and the bytes of `stream`.
pub chacha20_block : ChachaCtx → ChachaCtx × Bytes
chacha20_block ctx =
    let x = twenty_rounds (build (word ctx.state) 0 16) in
    let stream = build (λ i. add32 (word x i) (word ctx.state i)) 0 16 in
    (record { state = set ctx.state 12 (add32 (word ctx.state 12) 1) }, le32_bytes stream)

-- n turns of the loop over whole blocks: the bytes written and the context.
pub chacha20_loop : ℕ → ChachaCtx → Bytes → Bytes × ChachaCtx
chacha20_loop zero ctx input = ([], ctx)
chacha20_loop (suc n) ctx input =
    let buf = chacha20_block ctx in
    let rest = chacha20_loop n buf.0 (drop chacha20_block_size input) in
    (xor_cpy (take chacha20_block_size input) buf.1 ++ rest.0, rest.1)

-- The input is the `len` bytes that are processed. `len` is a uint32_t: of an input of 2^32 bytes or more a
-- caller would hand over its length modulo 2^32 only, so the inputs of the model are shorter ones.
-- `while (len >= CHACHA20_BLOCK_SIZE)` takes len / 64 turns and leaves len % 64 bytes.
unfoldable pub chacha20 : ChachaCtx → Bytes → Bytes × ChachaCtx
chacha20 ctx input =
    let n = length input / chacha20_block_size in
    let whole = chacha20_loop n ctx input in
    let tail = drop (chacha20_block_size * n) input in
    let buf = chacha20_block whole.1 in
    if length tail == 0 then whole else (whole.0 ++ xor_cpy tail buf.1, buf.0)

-- The eight words of derived_key.
pub hchacha20 : Bytes → Bytes → List ℕ
hchacha20 nonce key =
    let x =
      twenty_rounds (
        chacha20_constants ++ key_words key ++ build (λ i. get_unaligned_le32 nonce (4 * i)) 0 4) in
    take 4 x ++ take 4 (drop 12 x)
