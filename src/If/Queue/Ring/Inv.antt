-- ===== src/If/Queue/Ring/Inv.antt =====
-- What holds of the queues whenever callers, workers and deliveries have made any number of steps.
use wireguard_freebsd.Prelude.{
  ℕ, ◌+◌, ◌≡◌, ◌≢◌, refl, sym, ap, inl, inr, true, ◌||◌, List, [], ◌∷◌, ◌++◌, some, ltb,
  length-append, member, member-append, arith, tests, Bool-cases,
}
use wireguard_freebsd.If.Queue.{
  Queue, RingState, uncrypted, max_queued_pkt, assign, Both, queue_both, dequeue_serial,
  dequeue_parallel,
}
use wireguard_freebsd.If.Queue.Ring.{
  Ring, ring_init, put, taken, submit, IsFresh, Step, submits, takes, finishes, delivers, Reach,
  here, next,
}
use wireguard_freebsd.If.Queue.Staged.{IsQueue}
use native.Mathlib.Decide.{ℕ_discrete}
use mathlib.Core.List.{append_assoc, append-nil}

pub record Inv (r : Ring) : Type 0 where
  pub parallel_ok : IsQueue max_queued_pkt r.parallel
  pub serial_ok : (p : ℕ) → IsQueue max_queued_pkt (r.serial p)
  pub in_order : (p : ℕ) → r.sent p ≡ r.delivered p ++ (r.serial p).packets
  pub tracked :
      (p pkt : ℕ)
      → member pkt (r.serial p).packets ≡ true
      → r.state pkt ≡ uncrypted
      → (member pkt r.parallel.packets || member pkt r.flying) ≡ true

ring_init-Inv : (state : ℕ → RingState) → Inv (ring_init state)
ring_init-Inv state = record {
  parallel_ok = record { counted = refl; bounded = omega arith };
  serial_ok = λ p. record { counted = refl; bounded = omega arith };
  in_order = λ p. refl;
  tracked = λ p pkt h s. cc;
}

room_for :
    (q : Queue) (pkt : ℕ)
    → IsQueue max_queued_pkt q
    → ltb q.len max_queued_pkt ≡ true
    → IsQueue max_queued_pkt (record { packets = q.packets ++ pkt ∷ []; len = q.len + 1 })
room_for q pkt v h = record {
  counted = omega (arith, v.counted, length-append q.packets (pkt ∷ []));
  bounded = omega tests;
}

module _ (parallel serial : Queue) (state : ℕ → RingState) (pkt : ℕ)
    (vp : IsQueue max_queued_pkt parallel) (vs : IsQueue max_queued_pkt serial) where
  -- What one call of `wg_queue_both` does, on all three branches.
  pub record Enters (b : Both) : Type 0 where
    pub parallel_ok : IsQueue max_queued_pkt b.parallel
    pub serial_ok : IsQueue max_queued_pkt b.serial
    pub appended : b.serial.packets ≡ serial.packets ++ taken b.freed pkt
    pub others : (k : ℕ) → k ≢ pkt → b.state k ≡ state k
    pub stays : (k : ℕ) → member k parallel.packets ≡ true → member k b.parallel.packets ≡ true
    pub waits : b.freed ≡ [] → b.state pkt ≡ uncrypted → member pkt b.parallel.packets ≡ true

  queue_both-Enters : Enters (queue_both parallel serial state pkt)
  unfolding queue_both
  queue_both-Enters = elim (Bool-cases (ltb serial.len max_queued_pkt)) [
    | inl s ↦ elim (Bool-cases (ltb parallel.len max_queued_pkt)) [
      | inl p ↦
          rw (s, p)
            (record {
              parallel_ok = room_for parallel pkt vp p;
              serial_ok = room_for serial pkt vs s;
              appended = refl;
              others = λ k ne. ground arith;
              stays = λ k h. ground (arith, member-append k parallel.packets (pkt ∷ []));
              waits = λ f u. ground (arith, member-append pkt parallel.packets (pkt ∷ []));
            })
      | inr p ↦
          rw (s, p)
            (record {
              parallel_ok = vp;
              serial_ok = room_for serial pkt vs s;
              appended = refl;
              others = λ k ne. ground arith;
              stays = λ k h. h;
              waits = λ f u. ground arith;
            })
    ]
    | inr s ↦ rw s (record {
      parallel_ok = vp;
      serial_ok = vs;
      appended = sym (append-nil serial.packets);
      others = λ k ne. ground arith;
      stays = λ k h. h;
      waits = λ f u. cc;
    })
  ]

parallel_head :
    (ps : List ℕ) (l pkt : ℕ) (q' : Queue)
    → IsQueue max_queued_pkt (record { packets = ps; len = l })
    → dequeue_parallel (record { packets = ps; len = l }) ≡ (some pkt, q')
    → IsQueue max_queued_pkt q' × (ps ≡ pkt ∷ q'.packets)
unfolding dequeue_parallel
parallel_head [] l pkt q' v e = ground (arith, v.counted)
parallel_head (p ∷ ps) l pkt q' v e = ground (arith, v.counted, v.bounded)

-- What `wg_queue_dequeue_parallel` takes is the head, and the rest stays.
dequeue_parallel_lem :
    (q q' : Queue) (pkt : ℕ)
    → IsQueue max_queued_pkt q
    → dequeue_parallel q ≡ (some pkt, q')
    → IsQueue max_queued_pkt q' × (q.packets ≡ pkt ∷ q'.packets)
dequeue_parallel_lem q q' pkt v e = parallel_head q.packets q.len pkt q' v e

serial_head :
    (ps : List ℕ) (l pkt : ℕ) (q' : Queue) (state : ℕ → RingState)
    → IsQueue max_queued_pkt (record { packets = ps; len = l })
    → dequeue_serial (record { packets = ps; len = l }) state ≡ (some pkt, q')
    → IsQueue max_queued_pkt q' × (ps ≡ pkt ∷ q'.packets) × (state pkt ≢ uncrypted)
unfolding dequeue_serial
serial_head [] l pkt q' state v e = cc
serial_head (p ∷ ps) l pkt q' state v e = ground (arith, v.counted, v.bounded)

-- When `wg_queue_dequeue_serial` takes a packet of a queue whose counter is right, it is the head, its
-- state is not UNCRYPTED, and the counter of the rest is right.
pub dequeue_serial_lem :
    (q q' : Queue) (state : ℕ → RingState) (pkt : ℕ)
    → IsQueue max_queued_pkt q
    → dequeue_serial q state ≡ (some pkt, q')
    → IsQueue max_queued_pkt q' × (q.packets ≡ pkt ∷ q'.packets) × (state pkt ≢ uncrypted)
dequeue_serial_lem q q' state pkt v e = serial_head q.packets q.len pkt q' state v e

member-taken :
    (k pkt : ℕ) (freed : List ℕ) → member k (taken freed pkt) ≡ true → (k ≡ pkt) × (freed ≡ [])
member-taken k pkt [] h = ground arith
member-taken k pkt (f ∷ fs) h = cc

module _ (r : Ring) (v : Inv r) where
  submit_tracked :
      (peer pkt : ℕ)
      → IsFresh r pkt
      → (p k : ℕ) → member k ((submit r peer pkt).serial p).packets ≡ true
      → (submit r peer pkt).state k ≡ uncrypted
      → (member k (submit r peer pkt).parallel.packets || member k r.flying) ≡ true
  submit_tracked peer pkt fresh p k h s =
      let b =
        queue_both-Enters r.parallel (r.serial peer) r.state pkt v.parallel_ok (v.serial_ok peer) in
      let freed = (queue_both r.parallel (r.serial peer) r.state pkt).freed in
      elim (ℕ_discrete k pkt) [
        | yes e ↦ ground (
          arith,
          fresh.not_serial p,
          fresh.not_serial peer,
          member-taken k pkt freed,
          ap (member k) b.appended,
          member-append k (r.serial peer).packets (taken freed pkt),
          b.waits,
        )
        | no ne ↦ ground (
          arith,
          b.others k ne,
          v.tracked p k,
          v.tracked peer k,
          member-taken k pkt freed,
          ap (member k) b.appended,
          member-append k (r.serial peer).packets (taken freed pkt),
          b.stays k,
        )
      ]

  submit-Inv : (peer pkt : ℕ) → IsFresh r pkt → Inv (submit r peer pkt)
  submit-Inv peer pkt fresh =
      let b =
        queue_both-Enters r.parallel (r.serial peer) r.state pkt v.parallel_ok (v.serial_ok peer) in
      record {
        parallel_ok = b.parallel_ok;
        serial_ok = λ p. ground (arith, b.serial_ok, v.serial_ok p);
        in_order = λ p. ground (
          arith,
          v.in_order p,
          v.in_order peer,
          b.appended,
          append_assoc (r.delivered peer) (r.serial peer).packets
              (taken (queue_both r.parallel (r.serial peer) r.state pkt).freed pkt),
        );
        tracked = λ p k h s. submit_tracked peer pkt fresh p k h s;
      }

  take-Inv :
      (pkt : ℕ) (q : Queue)
      → dequeue_parallel r.parallel ≡ (some pkt, q)
      → Inv (record r { parallel = q; flying = pkt ∷ r.flying })
  take-Inv pkt q e =
      let d = dequeue_parallel_lem r.parallel q pkt v.parallel_ok e in
      record {
        parallel_ok = d.0;
        serial_ok = v.serial_ok;
        in_order = v.in_order;
        tracked = λ p k h s. ground (arith, v.tracked p k h s, ap (member k) d.1);
      }

  finish-Inv :
      (pkt : ℕ) (s : RingState) (before later : List ℕ)
      → r.flying ≡ before ++ pkt ∷ later
      → s ≢ uncrypted
      → Inv (record r { flying = before ++ later; state = assign r.state pkt s })
  finish-Inv pkt s before later e ne = record {
    parallel_ok = v.parallel_ok;
    serial_ok = v.serial_ok;
    in_order = v.in_order;
    tracked = λ p k h u. ground (
      arith,
      v.tracked p k h,
      ap (member k) e,
      member-append k before (pkt ∷ later),
      member-append k before later,
    );
  }

  deliver-Inv :
      (peer pkt : ℕ) (q : Queue)
      → dequeue_serial (r.serial peer) r.state ≡ (some pkt, q)
      → Inv (record r {
        serial = put r.serial peer q;
        delivered = put r.delivered peer (r.delivered peer ++ pkt ∷ []);
      })
  deliver-Inv peer pkt q e =
      let d = dequeue_serial_lem (r.serial peer) q r.state pkt (v.serial_ok peer) e in
      record {
        parallel_ok = v.parallel_ok;
        serial_ok = λ p. ground (arith, d.0, v.serial_ok p);
        in_order = λ p. ground (
          arith,
          v.in_order p,
          v.in_order peer,
          d.1,
          append_assoc (r.delivered peer) (pkt ∷ []) q.packets,
        );
        tracked = λ p k h s. ground (arith, v.tracked p k, v.tracked peer k, ap (member k) d.1);
      }

Step-Inv : {r s : Ring} → Inv r → Step r s → Inv s
Step-Inv {r} v (submits peer pkt f) = submit-Inv r v peer pkt f
Step-Inv {r} v (takes pkt q e) = take-Inv r v pkt q e
Step-Inv {r} v (finishes pkt s before later e ne) = finish-Inv r v pkt s before later e ne
Step-Inv {r} v (delivers peer pkt q e) = deliver-Inv r v peer pkt q e

-- In every state that the steps reach from empty queues: both kinds of queue are within their bounds;
-- each peer's packets are delivered in the order in which they were accepted, none lost or repeated,
-- whatever the order in which the workers finish; and a packet that is still to be encrypted or
-- decrypted waits for a worker or is held by one.
pub Reach-Inv : {state : ℕ → RingState} {r : Ring} → Reach (ring_init state) r → Inv r
Reach-Inv {state} here = ring_init-Inv state
Reach-Inv (next reach step) = Step-Inv (Reach-Inv reach) step
