-- ===== src/Crypto/Primitives/Laws.antt =====
-- The interfaces of wg_noise.c and wg_cookie.c, filled by crypto.c.
use wireguard_freebsd.Prelude.{◌≡◌, Option, some, Bytes}
use wireguard_freebsd.Crypto.Aead.Open.{decrypt-encrypt, xdecrypt-xencrypt}
use wireguard_freebsd.Crypto.Primitives.{
  basepoint, curve25519_generate_public, primitives, cookie_primitives,
}
use wireguard_freebsd.Noise.Crypto.{IsCrypto}
use wireguard_freebsd.Cookie.Macs.Reply.{IsCookieCrypto}

-- RFC 7748, section 6.1: the two ends of an exchange compute the same secret.
pub record IsX25519 (curve25519 : Bytes → Bytes → Option Bytes) : Type 0 where
  pub exchange :
      (a b pub_a pub_b : Bytes)
      → curve25519 a basepoint ≡ some pub_a
      → curve25519 b basepoint ≡ some pub_b
      → curve25519 a pub_b ≡ curve25519 b pub_a

-- With a curve25519 on which two ends agree, the functions of crypto.c are what the handshake of
-- wg_noise.c needs: `chacha20poly1305_decrypt` undoes `chacha20poly1305_encrypt`, and two holders of
-- keys that `curve25519_generate_public` made compute the same secret.
pub primitives-IsCrypto :
    (curve25519 : Bytes → Bytes → Option Bytes)
    → IsX25519 curve25519
    → IsCrypto (primitives curve25519)
unfolding primitives curve25519_generate_public
primitives-IsCrypto curve25519 law = record {
  decrypt-encrypt = decrypt-encrypt;
  shared_secret = law.exchange;
}

-- The functions of crypto.c are what the cookie reply of wg_cookie.c needs:
-- `xchacha20poly1305_decrypt` undoes `xchacha20poly1305_encrypt`.
pub cookie_primitives-IsCookieCrypto : IsCookieCrypto cookie_primitives
unfolding cookie_primitives
cookie_primitives-IsCookieCrypto = record { xdecrypt-xencrypt = xdecrypt-xencrypt }
