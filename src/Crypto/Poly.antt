-- ===== src/Crypto/Poly.antt =====
-- Poly1305 (crypto.c, from struct poly1305_internal to poly1305_final).
pub mod Absorb
pub mod Update
pub mod Mac
pub mod Field
pub mod Emit
pub mod Horner
use wireguard_freebsd.Prelude.{
  ℕ, zero, suc, ◌+◌, ◌-◌, ◌*◌, ◌/◌, ◌%◌, ◌^◌, List, [], ◌∷◌, ◌++◌, take, drop, length, copy_at,
  replicate, each_block, ltb, ◌==◌, Bytes, bit_and, bit_or, if◌then◌else◌,
}
use wireguard_freebsd.Crypto.Word.{u32_mod, add32, shl32, get_unaligned_le32, put_unaligned_le32}

abbrev pub poly1305_block_size : ℕ
poly1305_block_size = 16

abbrev pub u64 : ℕ
u64 = 2 ^ 64

-- uint32_t h[5], or r[5]: limbs of 26 bits.
pub record Limbs : Type 0 where
  pub l0 : ℕ
  pub l1 : ℕ
  pub l2 : ℕ
  pub l3 : ℕ
  pub l4 : ℕ

pub record PolyInternal : Type 0 where
  pub h : Limbs
  pub r : Limbs
  pub s0 : ℕ
  pub s1 : ℕ
  pub s2 : ℕ
  pub s3 : ℕ

-- uint32_t nonce[4]
pub record PolyNonce : Type 0 where
  pub n0 : ℕ
  pub n1 : ℕ
  pub n2 : ℕ
  pub n3 : ℕ

pub record PolyCtx : Type 0 where
  pub state : PolyInternal
  pub nonce : PolyNonce
  -- `data`
  pub buf : Bytes
  pub num : ℕ

-- The masks of r that clear the bits RFC 8439 wants clear.
pub clamped_r : Bytes → Limbs
clamped_r key = record {
  l0 = bit_and (get_unaligned_le32 key 0) 67108863;
  l1 = bit_and (get_unaligned_le32 key 3 / 4) 67108611;
  l2 = bit_and (get_unaligned_le32 key 6 / 16) 67092735;
  l3 = bit_and (get_unaligned_le32 key 9 / 64) 66076671;
  l4 = bit_and (get_unaligned_le32 key 12 / 256) 1048575;
}

abbrev no_limbs : Limbs
no_limbs = record { l0 = 0; l1 = 0; l2 = 0; l3 = 0; l4 = 0 }

abbrev pub mul32 : ℕ → ℕ → ℕ
mul32 a b = a * b % u32_mod

pub poly1305_init_core : Bytes → PolyInternal
poly1305_init_core key =
    let r = clamped_r key in
    record {
      h = no_limbs;
      r = r;
      s0 = mul32 r.l1 5;
      s1 = mul32 r.l2 5;
      s2 = mul32 r.l3 5;
      s3 = mul32 r.l4 5;
    }

-- `& 0x3ffffff`
abbrev pub low26 : ℕ → ℕ
low26 x = bit_and x 67108863

-- h += m[i]
pub add_message : Limbs → Bytes → ℕ → Limbs
add_message h input padbit =
    let hibit = shl32 padbit 24 in
    record {
      l0 = add32 h.l0 (low26 (get_unaligned_le32 input 0));
      l1 = add32 h.l1 (low26 (get_unaligned_le32 input 3 / 4));
      l2 = add32 h.l2 (low26 (get_unaligned_le32 input 6 / 16));
      l3 = add32 h.l3 (low26 (get_unaligned_le32 input 9 / 64));
      l4 = add32 h.l4 (bit_or (get_unaligned_le32 input 12 / 256) hibit);
    }

-- h *= r: the sums d0 to d4 on uint64_t.
pub mul_limbs : Limbs → PolyInternal → Limbs
mul_limbs h st =
    let r = st.r in
    record {
      l0 = (h.l0 * r.l0 + h.l1 * st.s3 + h.l2 * st.s2 + h.l3 * st.s1 + h.l4 * st.s0) % u64;
      l1 = (h.l0 * r.l1 + h.l1 * r.l0 + h.l2 * st.s3 + h.l3 * st.s2 + h.l4 * st.s1) % u64;
      l2 = (h.l0 * r.l2 + h.l1 * r.l1 + h.l2 * r.l0 + h.l3 * st.s3 + h.l4 * st.s2) % u64;
      l3 = (h.l0 * r.l3 + h.l1 * r.l2 + h.l2 * r.l1 + h.l3 * r.l0 + h.l4 * st.s3) % u64;
      l4 = (h.l0 * r.l4 + h.l1 * r.l3 + h.l2 * r.l2 + h.l3 * r.l1 + h.l4 * r.l0) % u64;
    }

-- (uint32_t)(d >> 26)
abbrev pub carry26 : ℕ → ℕ
carry26 d = d / 67108864 % u32_mod

-- (uint32_t)d & 0x3ffffff
abbrev pub limb26 : ℕ → ℕ
limb26 d = low26 (d % u32_mod)

-- (partial) h %= p
pub carry_limbs : Limbs → Limbs
carry_limbs d =
    let d1 = (d.l1 + carry26 d.l0) % u64 in
    let d2 = (d.l2 + carry26 d1) % u64 in
    let d3 = (d.l3 + carry26 d2) % u64 in
    let d4 = (d.l4 + carry26 d3) % u64 in
    let h0 = add32 (limb26 d.l0) (mul32 (carry26 d4) 5) in
    record {
      l0 = low26 h0;
      l1 = add32 (limb26 d1) (h0 / 67108864);
      l2 = limb26 d2;
      l3 = limb26 d3;
      l4 = limb26 d4;
    }

-- One turn of the loop.
pub poly1305_block : ℕ → PolyInternal → Bytes → PolyInternal
poly1305_block padbit st input = record st {
  h = carry_limbs (mul_limbs (add_message st.h input padbit) st);
}

pub poly1305_blocks_core : PolyInternal → Bytes → ℕ → PolyInternal
poly1305_blocks_core st input padbit =
    each_block poly1305_block_size (poly1305_block padbit) (length input / poly1305_block_size) st
      input

-- fully carry h
pub carry_fully : Limbs → Limbs
carry_fully h =
    let h2 = add32 h.l2 (h.l1 / 67108864) in
    let h3 = add32 h.l3 (h2 / 67108864) in
    let h4 = add32 h.l4 (h3 / 67108864) in
    let h0 = add32 h.l0 (mul32 (h4 / 67108864) 5) in
    record {
      l0 = low26 h0;
      l1 = add32 (low26 h.l1) (h0 / 67108864);
      l2 = low26 h2;
      l3 = low26 h3;
      l4 = low26 h4;
    }

-- compute h + -p
pub minus_p : Limbs → Limbs
minus_p h =
    let g0 = add32 h.l0 5 in
    let g1 = add32 h.l1 (g0 / 67108864) in
    let g2 = add32 h.l2 (g1 / 67108864) in
    let g3 = add32 h.l3 (g2 / 67108864) in
    record {
      l0 = low26 g0;
      l1 = low26 g1;
      l2 = low26 g2;
      l3 = low26 g3;
      l4 = add32 (add32 h.l4 (g3 / 67108864)) (u32_mod - 67108864);
    }

-- `(g4 >> 31) - 1`
abbrev pub select_mask : ℕ → ℕ
select_mask g4 = add32 (g4 / 2 ^ 31) (u32_mod - 1)

-- `(h & ~mask) | (g & mask)`
abbrev pub select_limb : ℕ → ℕ → ℕ → ℕ
select_limb mask h g = bit_or (bit_and h (u32_mod - 1 - mask)) (bit_and g mask)

abbrev pub select_all : ℕ → Limbs → Limbs → Limbs
select_all mask h g = record {
  l0 = select_limb mask h.l0 g.l0;
  l1 = select_limb mask h.l1 g.l1;
  l2 = select_limb mask h.l2 g.l2;
  l3 = select_limb mask h.l3 g.l3;
  l4 = select_limb mask h.l4 g.l4;
}

-- select h if h < p, or h + -p if h >= p
pub select_limbs : Limbs → Limbs → Limbs
select_limbs h g = select_all (select_mask g.l4) h g

-- `((a >> right) | (b << left)) & 0xffffffff`
abbrev pub join_limbs : ℕ → ℕ → ℕ → ℕ → ℕ
join_limbs a right b left = bit_and (bit_or (a / 2 ^ right) (shl32 b left)) (u32_mod - 1)

-- mac = (h + nonce) % (2^128)
pub add_nonce : PolyNonce → ℕ → ℕ → ℕ → ℕ → Bytes
add_nonce nonce h0 h1 h2 h3 =
    let f0 = (h0 + nonce.n0) % u64 in
    let f1 = (h1 + nonce.n1 + f0 / u32_mod) % u64 in
    let f2 = (h2 + nonce.n2 + f1 / u32_mod) % u64 in
    let f3 = (h3 + nonce.n3 + f2 / u32_mod) % u64 in
    put_unaligned_le32 (f0 % u32_mod)
    ++ put_unaligned_le32 (f1 % u32_mod)
    ++ put_unaligned_le32 (f2 % u32_mod)
    ++ put_unaligned_le32 (f3 % u32_mod)

-- The 16 bytes of `mac`.
pub poly1305_emit_core : PolyInternal → PolyNonce → Bytes
poly1305_emit_core st nonce =
    let h = carry_fully st.h in
    let s = select_limbs h (minus_p h) in
    add_nonce nonce (join_limbs s.l0 0 s.l1 26) (join_limbs s.l1 6 s.l2 20)
      (join_limbs s.l2 12 s.l3 14) (join_limbs s.l3 18 s.l4 8)

-- `data` is left as it was.
pub poly1305_init : PolyCtx → Bytes → PolyCtx
poly1305_init ctx key = record ctx {
  state = poly1305_init_core key;
  nonce = record {
    n0 = get_unaligned_le32 key 16;
    n1 = get_unaligned_le32 key 20;
    n2 = get_unaligned_le32 key 24;
    n3 = get_unaligned_le32 key 28;
  };
  num = 0;
}

-- The code after `if (num)`: whole blocks, then the rest into `data`.
pub update_blocks : PolyCtx → Bytes → PolyCtx
update_blocks ctx input =
    let rem = length input % poly1305_block_size in
    let len = length input - rem in
    let tail = drop len input in
    record ctx {
      state =
          if ltb len poly1305_block_size
          then ctx.state
          else poly1305_blocks_core ctx.state (take len input) 1;
      buf = if rem == 0 then ctx.buf else copy_at ctx.buf 0 tail;
      num = rem;
    }

unfoldable pub poly1305_update : PolyCtx → Bytes → PolyCtx
poly1305_update ctx input =
    let rem = poly1305_block_size - ctx.num in
    let buf = copy_at ctx.buf ctx.num (take rem input) in
    if ctx.num == 0
    then update_blocks ctx input
    else if ltb (length input) rem
    then record ctx { buf = copy_at ctx.buf ctx.num input; num = ctx.num + length input }
    else update_blocks (record ctx { state = poly1305_blocks_core ctx.state buf 1; buf = buf })
        (drop rem input)

-- The last block: a byte 1 and zeros behind the bytes that wait.
abbrev pub padded : PolyCtx → Bytes
padded ctx = copy_at ctx.buf ctx.num (1 ∷ replicate (15 - ctx.num) 0)

-- The 16 bytes of `mac`. The context is wiped.
pub poly1305_final : PolyCtx → Bytes
poly1305_final ctx =
    poly1305_emit_core
      (if ctx.num == 0 then ctx.state else poly1305_blocks_core ctx.state (padded ctx) 0) ctx.nonce
