-- ===== src/Crypto/Tests.antt =====
-- The cryptography at concrete values: chains of mbufs as lists with the functions of mbuf(9) on them, a
-- stand-in for curve25519, and short messages.
use mathlib.Core.List.{append-nil, append_assoc}
use mathlib.Core.Option.{some-injective}
use wireguard_freebsd.Prelude.{
  ℕ, zero, suc, ◌%◌, ◌^◌, ◌↔◌, sym, ◌+◌, ◌-◌, ◌*◌, ◌≡◌, ◌≤◌, ◌<◌, ◌⊎◌, refl, ap, ◌∙◌, arith, List,
  [], ◌∷◌, ◌++◌, Bytes, Option, some, none, true, length, take, drop, flatten, replicate, success,
  enomem, emsgsize, ebadmsg, get_or,
}
use wireguard_freebsd.Crypto.Poly.{
  PolyInternal, PolyNonce, poly1305_init, poly1305_init_core, poly1305_final, poly1305_blocks_core,
  poly1305_emit_core,
}
use wireguard_freebsd.Crypto.Poly.Mac.{stack_ctx, updates, poly1305_tag, poly1305_parts}
use wireguard_freebsd.Crypto.Poly.Field.Values.{value, prime, le_value, IsBytes, IsKeyed, IsCarried}
use wireguard_freebsd.Crypto.Poly.Field.{poly1305_init_core-IsKeyed}
use wireguard_freebsd.Crypto.Poly.Horner.{horner, poly1305_blocks_core_lem}
use wireguard_freebsd.Crypto.Poly.Emit.{nonce_value, poly1305_emit_core_lem}
use wireguard_freebsd.Crypto.Aead.{chacha20poly1305_encrypt, chacha20poly1305_decrypt}
use wireguard_freebsd.Crypto.Aead.Open.{decrypt_iff, length-chacha20poly1305_encrypt}
use wireguard_freebsd.Crypto.Aead.Mbuf.{
  Mbuf, MbufApi, chacha20poly1305_encrypt_mbuf, chacha20poly1305_decrypt_mbuf,
}
use wireguard_freebsd.Crypto.Aead.Mbuf.Flat.{IsMbuf, IsMbufApi, encrypt_mbuf_lem, decrypt_mbuf_lem}
use wireguard_freebsd.Crypto.Blake.{blake2s_hmac, xor_with}
use wireguard_freebsd.Crypto.Blake.Hash.{hash32, blake2s_hmac_lem}
use wireguard_freebsd.Crypto.Primitives.Laws.{IsX25519}

abbrev key : Bytes
key = replicate 32 7

abbrev text : Bytes
text = 1 ∷ 2 ∷ 3 ∷ []

poly1305_parts_example :
    poly1305_final (updates (poly1305_init stack_ctx key) (text ∷ [] ∷ text ∷ []))
    ≡ poly1305_tag key (flatten (text ∷ [] ∷ text ∷ []))
poly1305_parts_example = poly1305_parts stack_ctx key (text ∷ [] ∷ text ∷ []) refl

abbrev block : Bytes
block = replicate 16 9

block-IsBytes : IsBytes block
block-IsBytes i = small 16 i
  where
    small : (n i : ℕ) → get_or (replicate n 9) i 0 < 256
    small zero i = omega arith
    small (suc n) zero = omega arith
    small (suc n) (suc i) = small n i

abbrev start : PolyInternal
start = poly1305_init_core key

poly1305_blocks_core_lem_example :
    let end = poly1305_blocks_core start block 1 in
    ((c : ℕ) × (value end.h + c * prime ≡ horner (value start.r) 1 (value start.h) block))
    × IsCarried end.h
    × IsKeyed end
poly1305_blocks_core_lem_example =
    poly1305_blocks_core_lem start block (poly1305_init_core-IsKeyed key).1
      (poly1305_init_core-IsKeyed key).0 block-IsBytes

abbrev nonce : PolyNonce
nonce = record { n0 = 1; n1 = 2; n2 = 3; n3 = 4 }

poly1305_emit_core_lem_example :
    le_value (poly1305_emit_core start nonce)
    ≡ (value start.h % prime + nonce_value nonce) % 2 ^ 128
poly1305_emit_core_lem_example =
    poly1305_emit_core_lem start nonce (poly1305_init_core-IsKeyed key).1
      (omega arith, omega arith, omega arith, omega arith)

decrypt_iff_example :
    (chacha20poly1305_decrypt (chacha20poly1305_encrypt text key 5 key) key 5 key ≡ some text)
    ↔ (chacha20poly1305_encrypt text key 5 key ≡ chacha20poly1305_encrypt text key 5 key)
decrypt_iff_example =
    decrypt_iff (chacha20poly1305_encrypt text key 5 key) key 5 key text
      (omega (arith, length-chacha20poly1305_encrypt text key 5 key))

blake2s_hmac_lem_example :
    blake2s_hmac text key 32
    ≡ take 32 (
        hash32 (
          xor_with 92 (key ++ replicate 32 0)
          ++ hash32 (xor_with 54 (key ++ replicate 32 0) ++ text)))
blake2s_hmac_lem_example = blake2s_hmac_lem text key 32

-- mbuf(9) on lists: a trimmed chain and an appended one are put together anew.
abbrev pub list_mbufs : MbufApi
list_mbufs = record {
  m_copydata = λ m off len. take len (drop off (flatten m.segments));
  m_adj = λ m n. record {
    segments = take (m.pkthdr_len - n) (flatten m.segments) ∷ [];
    pkthdr_len = m.pkthdr_len - n;
  };
  m_append = λ m bytes. (
    true,
    record { segments = m.segments ++ (bytes ∷ []); pkthdr_len = m.pkthdr_len + length bytes },
  );
}

pub list_mbufs_law : IsMbufApi list_mbufs
list_mbufs_law = record {
  m_copydata_lem = λ m off len ok h. refl;
  m_adj_lem = λ m n ok h. (append-nil (take (m.pkthdr_len - n) (flatten m.segments)), refl);
  m_append_lem = λ m bytes ok h. (appended m.segments bytes, refl);
}
  where
    appended :
        (segs : List Bytes) (bytes : Bytes) → flatten (segs ++ (bytes ∷ [])) ≡ flatten segs ++ bytes
    appended [] bytes = append-nil bytes
    appended (seg ∷ segs) bytes =
        ap (λ (t : Bytes). seg ++ t) (appended segs bytes)
        ∙ sym (append_assoc seg (flatten segs) bytes)

abbrev chain : Mbuf
chain = record { segments = text ∷ [] ∷ replicate 20 8 ∷ []; pkthdr_len = 23 }

encrypt_mbuf_lem_example :
    let out = chacha20poly1305_encrypt_mbuf list_mbufs chain 5 key in
    (out.0 ≡ enomem)
    ⊎ ((out.0 ≡ success)
        × (flatten out.1.segments ≡ chacha20poly1305_encrypt (flatten chain.segments) [] 5 key)
        × IsMbuf out.1)
encrypt_mbuf_lem_example = encrypt_mbuf_lem list_mbufs list_mbufs_law chain 5 key refl

decrypt_mbuf_lem_example :
    let out = chacha20poly1305_decrypt_mbuf list_mbufs chain 5 key in
    let flat = chacha20poly1305_decrypt (flatten chain.segments) [] 5 key in
    ((chain.pkthdr_len < 16) × (out ≡ (emsgsize, chain)) × (flat ≡ none))
    ⊎ (((16 ≤ chain.pkthdr_len) × (out.0 ≡ ebadmsg) × (flat ≡ none))
        ⊎ ((16 ≤ chain.pkthdr_len) × (out.0 ≡ success) × (flat ≡ some (flatten out.1.segments))))
decrypt_mbuf_lem_example = decrypt_mbuf_lem list_mbufs list_mbufs_law chain 5 key refl

abbrev toy_sum : Bytes → ℕ
toy_sum [] = 0
toy_sum (x ∷ xs) = x + toy_sum xs

-- A commutative product in place of that of Curve25519.
abbrev toy_curve : Bytes → Bytes → Option Bytes
toy_curve a b = some ((toy_sum a + toy_sum b) ∷ [])

toy_law : IsX25519 toy_curve
toy_law = record {
  exchange = λ a b pub_a pub_b p q.
      let e : ((toy_sum a + 9) ∷ []) ≡ pub_a = some-injective ((toy_sum a + 9) ∷ []) pub_a p in
      let f : ((toy_sum b + 9) ∷ []) ≡ pub_b = some-injective ((toy_sum b + 9) ∷ []) pub_b q in
      let g : toy_sum a + (toy_sum b + 9 + 0) ≡ toy_sum b + (toy_sum a + 9 + 0) = omega arith in
      ap (toy_curve a) (sym f)
      ∙ ap (λ n. let r : Option Bytes = some (n ∷ []) in r) g
      ∙ ap (toy_curve b) e;
}
