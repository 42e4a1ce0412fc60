-- ===== src/Crypto/Primitives.antt =====
-- The functions of crypto.c and crypto.h as wg_noise.c and wg_cookie.c call them. curve25519, which the
-- fiat-crypto project generates, is a parameter.
pub mod Laws
use wireguard_freebsd.Prelude.{ℕ, ◌∷◌, [], set, get_or, replicate, Option, Bytes, bit_and, bit_or}
use wireguard_freebsd.Crypto.Aead.{
  chacha20poly1305_encrypt, chacha20poly1305_decrypt, xchacha20poly1305_encrypt,
  xchacha20poly1305_decrypt,
}
use wireguard_freebsd.Crypto.Blake.{blake2s, blake2s_hmac}
use wireguard_freebsd.Noise.Crypto.{Crypto}
use wireguard_freebsd.Cookie.Macs.{CookieCrypto}

abbrev pub basepoint : Bytes
basepoint = 9 ∷ replicate 31 0

pub curve25519_clamp_secret : Bytes → Bytes
curve25519_clamp_secret secret =
    let first = set secret 0 (bit_and (get_or secret 0 0) 248) in
    set first 31 (bit_or (bit_and (get_or first 31 0) 127) 64)

module _ (curve25519 : Bytes → Bytes → Option Bytes) where
  pub curve25519_generate_public : Bytes → Option Bytes
  curve25519_generate_public secret = curve25519 secret basepoint

  unfoldable pub primitives : Crypto
  primitives = record {
    curve25519 = curve25519;
    generate_public = curve25519_generate_public;
    clamp_secret = curve25519_clamp_secret;
    blake2s = λ message. blake2s message [] 32;
    blake2s_hmac = λ input key. blake2s_hmac input key 32;
    encrypt = chacha20poly1305_encrypt;
    decrypt = chacha20poly1305_decrypt;
  }

unfoldable pub cookie_primitives : CookieCrypto
cookie_primitives = record {
  blake2s = λ message. blake2s message [] 32;
  blake2s_key = λ key message. blake2s message key 16;
  xencrypt = xchacha20poly1305_encrypt;
  xdecrypt = xchacha20poly1305_decrypt;
}
