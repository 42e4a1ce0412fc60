-- ===== src/If/Data/Tunnel.antt =====
-- A packet of data from one end of a session to the other: wg_encrypt, then wg_decrypt.
pub mod Packet
pub mod Sent
pub mod Opening
use wireguard_freebsd.Crypto.Aead.Mbuf.{Mbuf}
use wireguard_freebsd.Noise.State.{Keypair}
