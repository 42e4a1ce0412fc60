-- ===== src/Crypto/Aead.antt =====
-- ChaCha20-Poly1305 and XChaCha20-Poly1305 on buffers (crypto.c, chacha20poly1305_encrypt to
-- xchacha20poly1305_decrypt; the mbuf versions are in Aead/Mbuf).
pub mod Open
pub mod Mbuf
use wireguard_freebsd.Prelude.{
  ℕ, ◌+◌, ◌-◌, ◌%◌, List, [], ◌∷◌, ◌++◌, Option, none, some, Bytes, length, take, drop, replicate,
  list_eq, ltb, sub64, if◌then◌else◌,
}
use wireguard_freebsd.Crypto.Word.{get_unaligned_le64, le32_bytes, le64_bytes}
use wireguard_freebsd.Crypto.Chacha.{ChachaCtx, chacha20_init, chacha20, hchacha20}
use wireguard_freebsd.Crypto.Poly.{PolyCtx, poly1305_init, poly1305_update, poly1305_final}
use wireguard_freebsd.Crypto.Poly.Mac.{stack_ctx}

abbrev pub poly1305_mac_size : ℕ
poly1305_mac_size = 16

-- chacha20_init, chacha20 on block0: the key of Poly1305 and the context behind the first block.
pub one_time_key : Bytes → ℕ → Bytes × ChachaCtx
one_time_key key nonce = chacha20 (chacha20_init key nonce) (replicate 32 0)

-- pad0, (0x10 - len) & 0xf
abbrev pub pad0 : ℕ → Bytes
pad0 len = replicate (sub64 16 len % 16) 0

-- b.lens
abbrev pub lens : ℕ → ℕ → Bytes
lens ad_len text_len = le64_bytes ad_len ++ le64_bytes text_len

-- The calls of poly1305_update that both directions make, with the tag at the end.
pub authenticate : Bytes → Bytes → Bytes → Bytes
authenticate block0 ad text =
    let p0 = poly1305_init stack_ctx block0 in
    let p1 = poly1305_update p0 ad in
    let p2 = poly1305_update p1 (pad0 (length ad)) in
    let p3 = poly1305_update p2 text in
    let p4 = poly1305_update p3 (pad0 (length text)) in
    poly1305_final (poly1305_update p4 (lens (length ad) (length text)))

-- What is written to dst: the text and the tag behind it.
pub chacha20poly1305_encrypt : Bytes → Bytes → ℕ → Bytes → Bytes
chacha20poly1305_encrypt src ad nonce key =
    let start = one_time_key key nonce in
    let dst = (chacha20 start.1 src).0 in dst ++ authenticate start.0 ad dst

-- `none` is a return of false.
pub chacha20poly1305_decrypt : Bytes → Bytes → ℕ → Bytes → Option Bytes
chacha20poly1305_decrypt src ad nonce key =
    let start = one_time_key key nonce in
    let dst_len = length src - poly1305_mac_size in
    let text = take dst_len src in
    let mac = authenticate start.0 ad text in
    if ltb (length src) poly1305_mac_size
    then none
    else if list_eq mac (drop dst_len src)
    then some (chacha20 start.1 text).0
    else none

-- derived_key, as bytes
abbrev derived_key : Bytes → Bytes → Bytes
derived_key nonce key = le32_bytes (hchacha20 nonce key)

pub xchacha20poly1305_encrypt : Bytes → Bytes → Bytes → Bytes → Bytes
xchacha20poly1305_encrypt src ad nonce key =
    chacha20poly1305_encrypt src ad (get_unaligned_le64 nonce 16) (derived_key nonce key)

pub xchacha20poly1305_decrypt : Bytes → Bytes → Bytes → Bytes → Option Bytes
xchacha20poly1305_decrypt src ad nonce key =
    chacha20poly1305_decrypt src ad (get_unaligned_le64 nonce 16) (derived_key nonce key)
