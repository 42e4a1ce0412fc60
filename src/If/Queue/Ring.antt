-- ===== src/If/Queue/Ring.antt =====
-- The path of a packet through the workers: `wg_queue_both` puts it into the serial queue of its peer and
-- the parallel queue of the interface, a worker takes it from there and encrypts or decrypts it, and
-- `wg_deliver_out` or `wg_deliver_in` takes it from the serial queue. The steps of callers, workers and
-- deliveries interleave in any way.
pub mod Inv
use wireguard_freebsd.Prelude.{
  ℕ, suc, zero, ◌+◌, ◌-◌, ◌≤◌, ◌<◌, min, ◌≡◌, ◌≢◌, ◌↔◌, refl, sym, ap, ◌∙◌, ◌⊎◌, inl, inr, Bool,
  true, false, ◌||◌, List, [], ◌∷◌, ◌++◌, Option, none, some, ltb, leb, ◌==◌, if◌then◌else◌, Errno,
  success, enobufs, length, length-append, member, member-append, arith, tests, Bool-cases, ==_iff,
}
use wireguard_freebsd.If.Queue.{
  Queue, queue_init, RingState, uncrypted, crypted, dead, is_uncrypted, max_queued_pkt, first,
  remove_head, assign, Both, queue_both, dequeue_serial, take_serial, dequeue_parallel,
}
use wireguard_freebsd.If.Queue.Staged.{IsQueue}
use mathlib.Core.List.{append_assoc, append-nil}

abbrev pub put {ℓ} : {A : Type ℓ} → (ℕ → A) → ℕ → A → ℕ → A
put f p v q = if p == q then v else f q

-- `flying` are the packets that workers hold. `sent` and `delivered` record, for each peer, the packets
-- that its serial queue took in and gave out.
pub record Ring : Type 0 where
  pub parallel : Queue
  pub serial : ℕ → Queue
  pub state : ℕ → RingState
  pub flying : List ℕ
  pub sent : ℕ → List ℕ
  pub delivered : ℕ → List ℕ

abbrev pub ring_init : (ℕ → RingState) → Ring
ring_init state = record {
  parallel = queue_init;
  serial = λ p. queue_init;
  state = state;
  flying = [];
  sent = λ p. [];
  delivered = λ p. [];
}

abbrev pub taken : List ℕ → ℕ → List ℕ
taken [] pkt = pkt ∷ []
taken (f ∷ fs) pkt = []

-- The call of `wg_queue_both` for a packet of `peer`.
abbrev pub submit : Ring → ℕ → ℕ → Ring
submit r peer pkt =
    let b = queue_both r.parallel (r.serial peer) r.state pkt in
    record r {
      parallel = b.parallel;
      serial = put r.serial peer b.serial;
      state = b.state;
      sent = put r.sent peer (r.sent peer ++ taken b.freed pkt);
    }

-- A packet that was just allocated stands nowhere.
pub record IsFresh (r : Ring) (pkt : ℕ) : Type 0 where
  pub not_serial : (p : ℕ) → member pkt (r.serial p).packets ≡ false
  pub not_parallel : member pkt r.parallel.packets ≡ false
  pub not_flying : member pkt r.flying ≡ false

pub data Step (r : Ring) : Ring → Type 0 where
  submits : (peer pkt : ℕ) → IsFresh r pkt → Step r (submit r peer pkt)
  takes :
      (pkt : ℕ) (q : Queue)
      → dequeue_parallel r.parallel ≡ (some pkt, q)
      → Step r (record r { parallel = q; flying = pkt ∷ r.flying })
  finishes :
      (pkt : ℕ) (s : RingState) (before later : List ℕ)
      → r.flying ≡ before ++ pkt ∷ later
      → s ≢ uncrypted
      → Step r (record r { flying = before ++ later; state = assign r.state pkt s })
  delivers :
      (peer pkt : ℕ) (q : Queue)
      → dequeue_serial (r.serial peer) r.state ≡ (some pkt, q)
      → Step r (record r {
        serial = put r.serial peer q;
        delivered = put r.delivered peer (r.delivered peer ++ pkt ∷ []);
      })

pub data Reach (r : Ring) : Ring → Type 0 where
  here : Reach r r
  next : {s t : Ring} → Reach r s → Step s t → Reach r t
