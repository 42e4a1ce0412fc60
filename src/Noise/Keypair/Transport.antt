-- ===== src/Noise/Keypair/Transport.antt =====
-- noise_keypair_encrypt and noise_keypair_decrypt (wg_noise.c): a packet under the key of a keypair.
use wireguard_freebsd.Prelude.{ℕ, Bool, Errno, einval, leb, ◌||◌, if◌then◌else◌}
use wireguard_freebsd.Prelude.Int.{ℤ}
use wireguard_freebsd.Noise.State.{Keypair, timer_expired, seconds, reject_after_time}
use wireguard_freebsd.Noise.Counter.{reject_after_messages}
use wireguard_freebsd.Crypto.Aead.Mbuf.{
  Mbuf, MbufApi, chacha20poly1305_encrypt_mbuf, chacha20poly1305_decrypt_mbuf,
}

-- The answer, and the packet; *r_idx is `index.remote_index` of the keypair, where the answer is 0.
unfoldable pub keypair_encrypt : MbufApi → Keypair → ℕ → Mbuf → Errno × Mbuf
keypair_encrypt api kp nonce m = chacha20poly1305_encrypt_mbuf api m nonce kp.send

-- Whether the keypair may no longer receive at the time `now`.
abbrev pub expired : Keypair → ℤ → Bool
expired kp now =
    leb reject_after_messages kp.counter.nonce_recv
    || timer_expired now kp.birthdate (seconds reject_after_time)

unfoldable pub keypair_decrypt : MbufApi → Keypair → ℤ → ℕ → Mbuf → Errno × Mbuf
keypair_decrypt api kp now nonce m =
    if expired kp now then (einval, m) else chacha20poly1305_decrypt_mbuf api m nonce kp.recv
