-- ===== src/Crypto/Blake.antt =====
-- BLAKE2s and its HMAC (crypto.c, from blake2s_iv to blake2s_hmac; crypto.h, struct blake2s_state).
pub mod Absorb
pub mod Update
pub mod Hash
mod Tests
use wireguard_freebsd.Prelude.{
  ℕ, zero, suc, ◌+◌, ◌-◌, ◌*◌, ◌/◌, List, [], ◌∷◌, ◌++◌, map, get_or, set, take, drop, length,
  replicate, build, copy_at, each_block, ltb, ◌==◌, Bytes, bit_or, bit_xor, if◌then◌else◌,
}
use wireguard_freebsd.Crypto.Word.{u32_mod, add32, get_unaligned_le32, le32_bytes, ror32}

abbrev pub blake2s_block_size : ℕ
blake2s_block_size = 64

abbrev pub blake2s_hash_size : ℕ
blake2s_hash_size = 32

abbrev pub blake2s_iv : List ℕ
blake2s_iv =
    1779033703 ∷ 3144134277 ∷ 1013904242 ∷ 2773480762 ∷ 1359893119 ∷ 2600822924 ∷ 528734635
    ∷ 1541459225 ∷ []

abbrev pub blake2s_sigma : List (List ℕ)
blake2s_sigma =
    (0 ∷ 1 ∷ 2 ∷ 3 ∷ 4 ∷ 5 ∷ 6 ∷ 7 ∷ 8 ∷ 9 ∷ 10 ∷ 11 ∷ 12 ∷ 13 ∷ 14 ∷ 15 ∷ [])
    ∷ (14 ∷ 10 ∷ 4 ∷ 8 ∷ 9 ∷ 15 ∷ 13 ∷ 6 ∷ 1 ∷ 12 ∷ 0 ∷ 2 ∷ 11 ∷ 7 ∷ 5 ∷ 3 ∷ [])
    ∷ (11 ∷ 8 ∷ 12 ∷ 0 ∷ 5 ∷ 2 ∷ 15 ∷ 13 ∷ 10 ∷ 14 ∷ 3 ∷ 6 ∷ 7 ∷ 1 ∷ 9 ∷ 4 ∷ [])
    ∷ (7 ∷ 9 ∷ 3 ∷ 1 ∷ 13 ∷ 12 ∷ 11 ∷ 14 ∷ 2 ∷ 6 ∷ 5 ∷ 10 ∷ 4 ∷ 0 ∷ 15 ∷ 8 ∷ [])
    ∷ (9 ∷ 0 ∷ 5 ∷ 7 ∷ 2 ∷ 4 ∷ 10 ∷ 15 ∷ 14 ∷ 1 ∷ 11 ∷ 12 ∷ 6 ∷ 8 ∷ 3 ∷ 13 ∷ [])
    ∷ (2 ∷ 12 ∷ 6 ∷ 10 ∷ 0 ∷ 11 ∷ 8 ∷ 3 ∷ 4 ∷ 13 ∷ 7 ∷ 5 ∷ 15 ∷ 14 ∷ 1 ∷ 9 ∷ [])
    ∷ (12 ∷ 5 ∷ 1 ∷ 15 ∷ 14 ∷ 13 ∷ 4 ∷ 10 ∷ 0 ∷ 7 ∷ 6 ∷ 3 ∷ 9 ∷ 2 ∷ 8 ∷ 11 ∷ [])
    ∷ (13 ∷ 11 ∷ 7 ∷ 14 ∷ 12 ∷ 1 ∷ 3 ∷ 9 ∷ 5 ∷ 0 ∷ 15 ∷ 4 ∷ 8 ∷ 6 ∷ 2 ∷ 10 ∷ [])
    ∷ (6 ∷ 15 ∷ 14 ∷ 9 ∷ 11 ∷ 3 ∷ 0 ∷ 8 ∷ 12 ∷ 2 ∷ 13 ∷ 7 ∷ 1 ∷ 4 ∷ 10 ∷ 5 ∷ [])
    ∷ (10 ∷ 2 ∷ 8 ∷ 4 ∷ 7 ∷ 6 ∷ 1 ∷ 5 ∷ 15 ∷ 11 ∷ 9 ∷ 14 ∷ 3 ∷ 12 ∷ 13 ∷ 0 ∷ [])
    ∷ []

-- h, t and f of struct blake2s_state: what blake2s_compress works on.
pub record BlakeCore : Type 0 where
  pub h : List ℕ
  pub t0 : ℕ
  pub t1 : ℕ
  pub f0 : ℕ
  pub f1 : ℕ

pub record BlakeState : Type 0 where
  pub core : BlakeCore
  pub buf : Bytes
  pub buflen : ℕ
  pub outlen : ℕ

pub blake2s_set_lastblock : BlakeCore → BlakeCore
blake2s_set_lastblock c = record c { f0 = u32_mod - 1 }

pub blake2s_increment_counter : BlakeCore → ℕ → BlakeCore
blake2s_increment_counter c inc =
    let t0 = add32 c.t0 inc in record c { t0 = t0; t1 = add32 c.t1 (if ltb t0 inc then 1 else 0) }

abbrev at : List ℕ → ℕ → ℕ
at x i = get_or x i 0

-- The message at of round r and position j.
abbrev message_word : List ℕ → ℕ → ℕ → ℕ
message_word m r j = at m (at (get_or blake2s_sigma r []) j)

-- Half of G: `a += b + m; d = ror32(d ^ a, s); c += d; b = ror32(b ^ c, s')`.
half_mix : List ℕ → ℕ → ℕ → ℕ → ℕ → ℕ → ℕ → ℕ → List ℕ
half_mix v m a b c d s s' =
    let v1 = set v a (add32 (at v a) (add32 (at v b) m)) in
    let v2 = set v1 d (ror32 (bit_xor (at v1 d) (at v1 a)) s) in
    let v3 = set v2 c (add32 (at v2 c) (at v2 d)) in
    set v3 b (ror32 (bit_xor (at v3 b) (at v3 c)) s')

-- G(r, i, v[a], v[b], v[c], v[d])
pub mix : List ℕ → ℕ → List ℕ → ℕ → ℕ → ℕ → ℕ → ℕ → List ℕ
mix m r v i a b c d =
    half_mix (half_mix v (message_word m r (2 * i)) a b c d 16 12) (message_word m r (2 * i + 1)) a
      b c d 8 7

-- ROUND(r)
pub round : List ℕ → ℕ → List ℕ → List ℕ
round m r v =
    let c0 = mix m r v 0 0 4 8 12 in
    let c1 = mix m r c0 1 1 5 9 13 in
    let c2 = mix m r c1 2 2 6 10 14 in
    let c3 = mix m r c2 3 3 7 11 15 in
    let d0 = mix m r c3 4 0 5 10 15 in
    let d1 = mix m r d0 5 1 6 11 12 in let d2 = mix m r d1 6 2 7 8 13 in mix m r d2 7 3 4 9 14

-- ROUND(0) to ROUND(9), from r on.
pub rounds : List ℕ → ℕ → ℕ → List ℕ → List ℕ
rounds m r zero v = v
rounds m r (suc n) v = rounds m (suc r) n (round m r v)

-- One turn of the loop of blake2s_compress.
pub compress_block : ℕ → BlakeCore → Bytes → BlakeCore
compress_block inc core block =
    let c = blake2s_increment_counter core inc in
    let m = build (λ i. get_unaligned_le32 block (4 * i)) 0 16 in
    let iv = at blake2s_iv in
    let v =
      take 8 c.h
      ++ (iv 0
          ∷ iv 1
          ∷ iv 2
          ∷ iv 3
          ∷ bit_xor (iv 4) c.t0
          ∷ bit_xor (iv 5) c.t1
          ∷ bit_xor (iv 6) c.f0
          ∷ bit_xor (iv 7) c.f1
          ∷ []) in
    let w = rounds m 0 10 v in
    record c { h = build (λ i. bit_xor (at c.h i) (bit_xor (at w i) (at w (i + 8)))) 0 8 }

pub blake2s_compress : BlakeCore → Bytes → ℕ → ℕ → BlakeCore
blake2s_compress core block nblocks inc =
    each_block blake2s_block_size (compress_block inc) nblocks core block

pub blake2s_init_param : ℕ → BlakeState
blake2s_init_param param = record {
  core = record {
    h = set blake2s_iv 0 (bit_xor (at blake2s_iv 0) param);
    t0 = 0;
    t1 = 0;
    f0 = 0;
    f1 = 0;
  };
  buf = replicate blake2s_block_size 0;
  buflen = 0;
  outlen = 0;
}

pub blake2s_init : ℕ → BlakeState
blake2s_init outlen = record (blake2s_init_param (bit_or 16842752 outlen)) { outlen = outlen }

-- `if (inlen > BLAKE2S_BLOCK_SIZE)`: the number of blocks that are hashed from the input, one less
-- than DIV_ROUND_UP(inlen, 64).
abbrev pub full_blocks : ℕ → ℕ
full_blocks inlen = if ltb blake2s_block_size inlen then (inlen + 63) / 64 - 1 else 0

-- The code of blake2s_update behind `if (inlen > fill)`.
pub update_rest : BlakeState → Bytes → BlakeState
update_rest s input =
    let n = full_blocks (length input) in
    let rest = drop (64 * n) input in
    record s {
      core = blake2s_compress s.core input n 64;
      buf = copy_at s.buf s.buflen rest;
      buflen = s.buflen + length rest;
    }

pub blake2s_update : BlakeState → Bytes → BlakeState
blake2s_update s input =
    let fill = blake2s_block_size - s.buflen in
    let buf = copy_at s.buf s.buflen (take fill input) in
    let filled : BlakeState = record s {
      core = blake2s_compress s.core buf 1 64;
      buf = buf;
      buflen = 0;
    } in
    if length input == 0
    then s
    else if ltb fill (length input)
    then update_rest filled (drop fill input)
    else update_rest s input

pub blake2s_init_key : ℕ → Bytes → BlakeState
blake2s_init_key outlen key =
    let s = blake2s_init_param (bit_or (bit_or 16842752 (length key * 256)) outlen) in
    blake2s_update (record s { outlen = outlen }) (copy_at (replicate 64 0) 0 key)

-- The bytes of `out`. The state is wiped.
pub blake2s_final : BlakeState → Bytes
blake2s_final s =
    let buf = copy_at s.buf s.buflen (replicate (blake2s_block_size - s.buflen) 0) in
    take s.outlen (le32_bytes (blake2s_compress (blake2s_set_lastblock s.core) buf 1 s.buflen).h)

-- blake2s(out, in, key, outlen, …)
pub blake2s : Bytes → Bytes → ℕ → Bytes
blake2s input key outlen =
    let s = if length key == 0 then blake2s_init outlen else blake2s_init_key outlen key in
    blake2s_final (blake2s_update s input)

-- `x_key[i] ^= c`
abbrev pub xor_with : ℕ → Bytes → Bytes
xor_with c bytes = map (λ b. bit_xor b c) bytes

-- The key of 64 bytes: the hash of a longer key, and zeros behind.
pub hmac_key : Bytes → Bytes
hmac_key key =
    let hashed = blake2s_final (blake2s_update (blake2s_init blake2s_hash_size) key) in
    copy_at (replicate 64 0) 0 (if ltb blake2s_block_size (length key) then hashed else key)

-- blake2s_hmac(out, in, key, outlen, …)
pub blake2s_hmac : Bytes → Bytes → ℕ → Bytes
blake2s_hmac input key outlen =
    let inner_key = xor_with 54 (hmac_key key) in
    let outer_key = xor_with (bit_xor 92 54) inner_key in
    let i = blake2s_update (blake2s_init blake2s_hash_size) inner_key in
    let i_hash = blake2s_final (blake2s_update i input) in
    let o = blake2s_update (blake2s_init blake2s_hash_size) outer_key in
    take outlen (blake2s_final (blake2s_update o i_hash))
