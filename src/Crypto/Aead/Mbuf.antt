-- ===== src/Crypto/Aead/Mbuf.antt =====
-- chacha20poly1305_encrypt_mbuf and chacha20poly1305_decrypt_mbuf (crypto.c): the cipher and the
-- authenticator over a chain of mbufs in place, segment by segment.
pub mod Chain
pub mod Flat
use wireguard_freebsd.Prelude.{
  ℕ, zero, suc, ◌+◌, ◌-◌, ◌*◌, ◌/◌, ◌≤◌, ◌≡◌, List, [], ◌∷◌, ◌++◌, Bytes, Bool, true, false, length,
  take, drop, replicate, list_eq, ltb, min, ◌==◌, if◌then◌else◌, Errno, success, enomem, emsgsize,
  ebadmsg,
}
use wireguard_freebsd.Crypto.Word.{xor_cpy}
use wireguard_freebsd.Crypto.Chacha.{ChachaCtx, chacha20_block}
use wireguard_freebsd.Crypto.Poly.{PolyCtx, poly1305_init, poly1305_update, poly1305_final}
use wireguard_freebsd.Crypto.Poly.Mac.{stack_ctx}
use wireguard_freebsd.Crypto.Aead.{one_time_key, pad0, lens, poly1305_mac_size}

-- A chain: the bytes from m_data on of each mbuf, and m_pkthdr.len of the first.
pub record Mbuf : Type 0 where
  pub segments : List Bytes
  pub pkthdr_len : ℕ

-- The functions of mbuf(9) that are called.
pub record MbufApi : Type 0 where
  -- m_copydata(m, off, len, …)
  pub m_copydata : Mbuf → ℕ → ℕ → Bytes
  -- m_adj(m, -len)
  pub m_adj : Mbuf → ℕ → Mbuf
  -- m_append(m, …): whether it had the memory, and the chain.
  pub m_append : Mbuf → Bytes → Bool × Mbuf

-- The local variables that live through the loop: b.stream and leftover are the end of the last block
-- of key bytes.
pub record Crypt : Type 0 where
  pub chacha : ChachaCtx
  pub stream : Bytes
  pub leftover : ℕ
  pub poly : PolyCtx

-- `while (len >= CHACHA20_BLOCK_SIZE)`: len / 64 turns.
pub mbuf_blocks : ℕ → Crypt → Bytes → Bytes × Crypt
mbuf_blocks zero s buf = ([], s)
mbuf_blocks (suc n) s buf =
    let b = chacha20_block s.chacha in
    let rest = mbuf_blocks n (record s { chacha = b.0; stream = b.1 }) (drop 64 buf) in
    (xor_cpy (take 64 buf) b.1 ++ rest.0, rest.1)

-- `if (leftover != 0)`: the number of bytes that the end of the last block covers.
abbrev pub covered : Crypt → Bytes → ℕ
covered s buf = if s.leftover == 0 then 0 else min (length buf) s.leftover

-- `if (len)`: a last part of a block.
pub mbuf_tail : Crypt → Bytes → Bytes × Crypt
mbuf_tail s buf =
    let b = chacha20_block s.chacha in
    if length buf == 0
    then ([], s)
    else (xor_cpy buf b.1, record s { chacha = b.0; stream = b.1; leftover = 64 - length buf })

-- The cipher on one segment.
pub crypt_segment : Crypt → Bytes → Bytes × Crypt
crypt_segment s buf =
    let l = covered s buf in
    let rest = drop l buf in
    let n = length rest / 64 in
    let whole = mbuf_blocks n (record s { leftover = s.leftover - l }) rest in
    let last = mbuf_tail whole.1 (drop (64 * n) rest) in
    (xor_cpy (take l buf) (drop (64 - s.leftover) s.stream) ++ whole.0 ++ last.0, last.1)

-- One turn of the loop over the chain: the tag is of the text before decryption and after encryption.
pub crypt_mbuf : Bool → Crypt → Bytes → Bytes × Crypt
crypt_mbuf encrypt s buf =
    let before = if encrypt then s else record s { poly = poly1305_update s.poly buf } in
    let out = crypt_segment before buf in
    let after = out.1 in
    (out.0, if encrypt then record after { poly = poly1305_update after.poly out.0 } else after)

pub crypt_chain : Bool → Crypt → List Bytes → List Bytes × Crypt
crypt_chain encrypt s [] = ([], s)
crypt_chain encrypt s (buf ∷ bufs) =
    let out = crypt_mbuf encrypt s buf in
    let rest = crypt_chain encrypt out.1 bufs in (out.0 ∷ rest.0, rest.1)

-- b.mac and the chain after the loop.
pub crypt_and_tag : Bool → Mbuf → ℕ → Bytes → Bytes × Mbuf
crypt_and_tag encrypt m0 nonce key =
    let start = one_time_key key nonce in
    let s : Crypt = record {
      chacha = start.1;
      stream = start.0 ++ replicate 32 0;
      leftover = 0;
      poly = poly1305_init stack_ctx start.0;
    } in
    let out = crypt_chain encrypt s m0.segments in
    let p = poly1305_update out.1.poly (pad0 m0.pkthdr_len) in
    (poly1305_final (poly1305_update p (lens 0 m0.pkthdr_len)), record m0 { segments = out.0 })

unfoldable pub chacha20poly1305_encrypt_mbuf : MbufApi → Mbuf → ℕ → Bytes → Errno × Mbuf
chacha20poly1305_encrypt_mbuf api m0 nonce key =
    let out = crypt_and_tag true m0 nonce key in
    let appended = api.m_append out.1 out.0 in (if appended.0 then success else enomem, appended.1)

-- The chain loses its tag and is decrypted before the tag is compared.
pub chacha20poly1305_decrypt_mbuf : MbufApi → Mbuf → ℕ → Bytes → Errno × Mbuf
chacha20poly1305_decrypt_mbuf api m0 nonce key =
    let len = m0.pkthdr_len - poly1305_mac_size in
    let mbuf_mac = api.m_copydata m0 len poly1305_mac_size in
    let out = crypt_and_tag false (api.m_adj m0 poly1305_mac_size) nonce key in
    if ltb m0.pkthdr_len poly1305_mac_size
    then (emsgsize, m0)
    else (if list_eq out.0 mbuf_mac then success else ebadmsg, out.1)
