-- ===== src/Noise.antt =====
-- wg_noise.c.
pub mod Counter
pub mod Crypto
pub mod Symmetric
pub mod Script
pub mod State
pub mod Index
pub mod Keypair
pub mod Handshake
pub mod Config
pub mod Tests
