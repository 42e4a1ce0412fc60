-- ===== src/If/Queue/Staged.antt =====
-- The queues that drop: the staged packets of a peer keep the newest, the handshake queue the oldest.
use wireguard_freebsd.Prelude.{
  ℕ, ◌+◌, ◌≤◌, ◌<◌, min, ◌≡◌, refl, sym, ap, ◌∙◌, inl, inr, List, [], ◌∷◌, ◌++◌, leb, success,
  enobufs, ◌⊎◌, length, length-append, nil_of_length, arith, tests, Bool-cases,
}
use wireguard_freebsd.If.Queue.{
  Queue, queue_init, max_staged_pkt, max_queued_handshakes, first, as_list, remove_head,
  push_staged, enlist_staged, delist_staged, enqueue_handshake,
}
use mathlib.Core.List.{append_assoc, append-nil}

-- A queue's counter counts its packets, which are at most `bound`.
pub record IsQueue (bound : ℕ) (q : Queue) : Type 0 where
  pub counted : q.len ≡ length q.packets
  pub bounded : q.len ≤ bound

-- What a push does: nothing is lost but the packets that are freed, the oldest first, and only as many
-- as the bound asks for.
pub record Pushes (q : Queue) (new : List ℕ) (out : Queue × List ℕ) : Type 0 where
  pub valid : IsQueue max_staged_pkt out.0
  pub order : out.1 ++ out.0.packets ≡ q.packets ++ new
  pub kept : out.0.len ≡ min max_staged_pkt (q.len + length new)

push_full :
    (ps : List ℕ) (pkt : ℕ)
    → length ps ≡ max_staged_pkt
    → (as_list (first ps) ++ (remove_head ps ++ pkt ∷ []) ≡ ps ++ pkt ∷ [])
      × (length (remove_head ps ++ pkt ∷ []) ≡ max_staged_pkt)
push_full [] pkt h = absurd (omega arith)
push_full (p ∷ ps) pkt h = (refl, omega (arith, length-append ps (pkt ∷ [])))

-- `wg_queue_push_staged`.
push_staged-Pushes :
    (q : Queue) (pkt : ℕ) → IsQueue max_staged_pkt q → Pushes q (pkt ∷ []) (push_staged q pkt)
unfolding push_staged
push_staged-Pushes q pkt v = elim (Bool-cases (leb max_staged_pkt q.len)) [
  | inl full ↦
      let here = push_full q.packets pkt (omega (tests, v.counted, v.bounded)) in
      rw full (record {
        valid = record {
          counted = omega (tests, v.counted, v.bounded, here.1);
          bounded = omega (tests, v.bounded);
        };
        order = here.0;
        kept = omega (tests, v.bounded);
      })
  | inr space ↦ rw space (record {
    valid = record {
      counted = omega (arith, v.counted, length-append q.packets (pkt ∷ []));
      bounded = omega (tests, v.counted);
    };
    order = refl;
    kept = omega (tests, v.bounded);
  })
]

-- Staging a list of packets, on a queue whose counter is right and within MAX_STAGED_PKT, loses none
-- but those that it frees: these are the oldest of the queue and the list together, in order, and only
-- as many as MAX_STAGED_PKT asks for.
pub enlist_staged-Pushes :
    (q : Queue) (list : List ℕ) → IsQueue max_staged_pkt q → Pushes q list (enlist_staged q list)
unfolding enlist_staged
enlist_staged-Pushes q [] v = record {
  valid = v;
  order = sym (append-nil q.packets);
  kept = omega (arith, v.bounded);
}
enlist_staged-Pushes q (pkt ∷ list) v =
    let one = push_staged-Pushes q pkt v in
    let rest = enlist_staged-Pushes (push_staged q pkt).0 list one.valid in
    record {
      valid = rest.valid;
      order =
          append_assoc (push_staged q pkt).1 (enlist_staged (push_staged q pkt).0 list).1 _
          ∙ ap (◌++◌ (push_staged q pkt).1) rest.order
          ∙ sym (append_assoc (push_staged q pkt).1 (push_staged q pkt).0.packets list)
          ∙ ap (λ t. t ++ list) one.order
          ∙ append_assoc q.packets (pkt ∷ []) list;
      kept = omega (arith, one.kept, rest.kept);
    }

-- What `wg_queue_delist_staged` takes out and `wg_queue_enlist_staged` puts back is the same packets
-- in the same order, and none is freed, if the queue's counter is right and within MAX_STAGED_PKT.
pub delist-enlist_staged :
    (q : Queue)
    → IsQueue max_staged_pkt q
    → let (list, q') = delist_staged q in
      ((enlist_staged q' list).0.packets ≡ q.packets) × ((enlist_staged q' list).1 ≡ [])
unfolding delist_staged
delist-enlist_staged q v =
    let back =
      enlist_staged-Pushes queue_init q.packets
        (record { counted = refl; bounded = omega arith }) in
    let none_freed : (enlist_staged queue_init q.packets).1 ≡ [] = nil_of_length _ (
      omega (
        arith,
        ap length back.order,
        length-append (enlist_staged queue_init q.packets).1
            (enlist_staged queue_init q.packets).0.packets,
        back.kept,
        back.valid.counted,
        v.bounded,
        v.counted,
      )) in
    (
      ap (λ t. t ++ (enlist_staged queue_init q.packets).0.packets) (sym none_freed) ∙ back.order,
      none_freed,
    )

-- `wg_queue_enqueue_handshake` on a queue whose counter is right and within MAX_QUEUED_HANDSHAKES leaves
-- such a queue. With room it answers 0, frees nothing, and the packet stands at the end of the queue;
-- when the queue is full it answers ENOBUFS, frees exactly the packet, and the packets of the queue are
-- those from before.
pub enqueue_handshake_lem :
    (hs : Queue) (pkt : ℕ)
    → IsQueue max_queued_handshakes hs
    → let (e, hs', freed) = enqueue_handshake hs pkt in
      IsQueue max_queued_handshakes hs'
      × (hs'.packets ++ freed ≡ hs.packets ++ pkt ∷ [])
      × (((hs.len < max_queued_handshakes) × (e ≡ success) × (freed ≡ []))
          ⊎ ((hs.len ≡ max_queued_handshakes) × (e ≡ enobufs) × (freed ≡ pkt ∷ [])))
unfolding enqueue_handshake
enqueue_handshake_lem hs pkt v =
    ground
      (arith, append-nil (hs.packets ++ pkt ∷ []), length-append hs.packets (pkt ∷ []), v.counted)
