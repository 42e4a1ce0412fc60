-- ===== src/If/Queue/Tests.antt =====
-- The theorems on the packet queues at concrete queues.
use wireguard_freebsd.Prelude.{◌<◌, ◌++◌, ◌≡◌, ◌⊎◌, refl, [], ◌∷◌, success, enobufs, arith}
use wireguard_freebsd.If.Queue.{
  Queue, crypted, max_queued_handshakes, enlist_staged, delist_staged, enqueue_handshake,
}
use wireguard_freebsd.If.Queue.Staged.{
  IsQueue, Pushes, enlist_staged-Pushes, delist-enlist_staged, enqueue_handshake_lem,
}
use wireguard_freebsd.If.Queue.Ring.{ring_init, submit, here, next, submits}
use wireguard_freebsd.If.Queue.Ring.Inv.{Inv, Reach-Inv}

abbrev two : Queue
two = record { packets = 4 ∷ 6 ∷ []; len = 2 }

two-IsQueue : IsQueue 128 two
two-IsQueue = record { counted = refl; bounded = omega arith }

two_packets : IsQueue 1024 two
two_packets = record { counted = refl; bounded = omega arith }

two_handshakes : IsQueue 4096 two
two_handshakes = record { counted = refl; bounded = omega arith }

Reach-Inv_example : Inv (submit (ring_init (λ p. crypted)) 3 9)
Reach-Inv_example = Reach-Inv (
    next here
      (submits 3 9 (record { not_serial = λ p. refl; not_parallel = refl; not_flying = refl })))

enlist_staged-Pushes_example : Pushes two (8 ∷ 9 ∷ []) (enlist_staged two (8 ∷ 9 ∷ []))
enlist_staged-Pushes_example = enlist_staged-Pushes two (8 ∷ 9 ∷ []) two-IsQueue

delist-enlist_staged_example :
    ((enlist_staged (delist_staged two).1 (delist_staged two).0).0.packets ≡ two.packets)
    × ((enlist_staged (delist_staged two).1 (delist_staged two).0).1 ≡ [])
delist-enlist_staged_example = delist-enlist_staged two two-IsQueue

enqueue_handshake_lem_example :
    let (e, hs', freed) = enqueue_handshake two 8 in
    IsQueue max_queued_handshakes hs'
    × (hs'.packets ++ freed ≡ two.packets ++ 8 ∷ [])
    × (((2 < max_queued_handshakes) × (e ≡ success) × (freed ≡ []))
        ⊎ ((2 ≡ max_queued_handshakes) × (e ≡ enobufs) × (freed ≡ 8 ∷ [])))
enqueue_handshake_lem_example = enqueue_handshake_lem two 8 two_handshakes
