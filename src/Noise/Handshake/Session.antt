-- ===== src/Noise/Handshake/Session.antt =====
-- The keys of the session at the two ends of a handshake.
use wireguard_freebsd.Prelude.{ℕ, ◌≡◌, refl, true, false}
use wireguard_freebsd.Prelude.Int.{ℤ}
use wireguard_freebsd.Noise.Crypto.{Crypto}
use wireguard_freebsd.Noise.State.{Noise, initiator, responder}
use wireguard_freebsd.Noise.Keypair.{new_keypair}

-- When the remote at one end is the initiator and the one at the other end is the responder, and the
-- two handshakes have the same chaining key, the new keypair at each end sends with the key that the
-- other end receives with, the initiator's may send, and each end knows its side.
pub sessions_agree :
    (c : Crypto) (s s' : Noise) (r r' : ℕ) (now now' : ℤ)
    → (s.remotes r).handshake_state ≡ initiator
    → (s'.remotes r').handshake_state ≡ responder
    → (s.remotes r).handshake.ck ≡ (s'.remotes r').handshake.ck
    → ((new_keypair c s r now).send ≡ (new_keypair c s' r' now').recv)
      × ((new_keypair c s r now).recv ≡ (new_keypair c s' r' now').send)
      × ((new_keypair c s r now).can_send ≡ true)
      × ((new_keypair c s r now).is_initiator ≡ true)
      × ((new_keypair c s' r' now').is_initiator ≡ false)
unfolding new_keypair
sessions_agree c s s' r r' now now' i p k = (rw (i, p, k), rw (i, p, k), refl, rw i, rw p)
