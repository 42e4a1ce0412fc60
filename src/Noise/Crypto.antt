-- ===== src/Noise/Crypto.antt =====
-- The primitives of crypto.c that wg_noise.c calls, as an interface: a record of operations, and the two
-- laws of them that the handshake rests on.
use wireguard_freebsd.Prelude.{ℕ, ◌≡◌, Option, some, Bytes}

-- `none` is a call that returns false. A function that writes through a pointer returns the bytes.
pub record Crypto : Type 0 where
  -- curve25519(out, secret, point)
  pub curve25519 : Bytes → Bytes → Option Bytes
  -- curve25519_generate_public(public, secret)
  pub generate_public : Bytes → Option Bytes
  -- curve25519_clamp_secret(secret)
  pub clamp_secret : Bytes → Bytes
  -- blake2s with no key and 32 bytes out, of all that is hashed
  pub blake2s : Bytes → Bytes
  -- blake2s_hmac(out, in, key, 32, …)
  pub blake2s_hmac : Bytes → Bytes → Bytes
  -- chacha20poly1305_encrypt(dst, src, …, ad, …, nonce, key)
  pub encrypt : Bytes → Bytes → ℕ → Bytes → Bytes
  -- chacha20poly1305_decrypt(dst, src, …, ad, …, nonce, key)
  pub decrypt : Bytes → Bytes → ℕ → Bytes → Option Bytes

-- What RFC 8439 and RFC 7748 promise: decryption undoes encryption under the same key, nonce and
-- associated data, and two key holders compute the same shared secret.
pub record IsCrypto (c : Crypto) : Type 0 where
  pub decrypt-encrypt :
      (plain ad : Bytes) (nonce : ℕ) (key : Bytes)
      → c.decrypt (c.encrypt plain ad nonce key) ad nonce key ≡ some plain
  pub shared_secret :
      (a b pub_a pub_b : Bytes)
      → c.generate_public a ≡ some pub_a
      → c.generate_public b ≡ some pub_b
      → c.curve25519 a pub_b ≡ c.curve25519 b pub_a
