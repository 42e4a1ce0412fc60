-- ===== src/Crypto.antt =====
-- crypto.c: the stream cipher, the authenticator, the authenticated encryption of buffers and of mbuf
-- chains, and the hash function.
pub mod Word
pub mod Chacha
pub mod Poly
pub mod Aead
pub mod Blake
pub mod Primitives
pub mod Tests
