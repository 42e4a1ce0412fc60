-- ===== src/If/Queue.antt =====
-- The packet queues of if_wg.c (`struct wg_queue` and the functions `wg_queue_*`). A packet is the
-- address of its `struct wg_packet`; the queue a packet stands in twice, by `p_serial` and `p_parallel`,
-- is two lists. What wg_packet_free is called on is returned as a list.
pub mod Staged
pub mod Ring
mod Tests
use wireguard_freebsd.Prelude.{
  ℕ, ◌+◌, ◌-◌, Bool, true, false, List, [], ◌∷◌, ◌++◌, Option, none, some, ltb, leb, ◌==◌,
  if◌then◌else◌, Errno, success, enobufs, ◌&&◌,
}

abbrev pub max_staged_pkt : ℕ
max_staged_pkt = 128

abbrev pub max_queued_pkt : ℕ
max_queued_pkt = 1024

abbrev pub max_queued_handshakes : ℕ
max_queued_handshakes = 4096

-- enum wg_ring_state
pub data RingState : Type 0 where
  uncrypted crypted dead : RingState

pub record Queue : Type 0 where
  pub packets : List ℕ
  pub len : ℕ

abbrev pub queue_init : Queue
queue_init = record { packets = []; len = 0 }

-- STAILQ_REMOVE_HEAD, of a queue that is not empty.
abbrev pub remove_head : List ℕ → List ℕ
remove_head [] = []
remove_head (p ∷ ps) = ps

abbrev pub first : List ℕ → Option ℕ
first [] = none
first (p ∷ ps) = some p

pub queue_len : Queue → ℕ
queue_len q = q.len

-- With the packets that are freed: the new one, if the queue is full.
pub enqueue_handshake : Queue → ℕ → Errno × Queue × List ℕ
enqueue_handshake hs pkt =
    if ltb hs.len max_queued_handshakes
    then (success, record { packets = hs.packets ++ pkt ∷ []; len = hs.len + 1 }, [])
    else (enobufs, hs, pkt ∷ [])

pub dequeue_handshake : Queue → Option ℕ × Queue
dequeue_handshake hs = elim (first hs.packets) [
  | none ↦ (none, hs)
  | some pkt ↦ (some pkt, record { packets = remove_head hs.packets; len = hs.len - 1 })
]

abbrev pub as_list : Option ℕ → List ℕ
as_list none = []
as_list (some p) = p ∷ []

-- With the packet that is freed: the oldest, if the queue is full.
pub push_staged : Queue → ℕ → Queue × List ℕ
push_staged staged pkt =
    let full = leb max_staged_pkt staged.len in
    let old = if full then as_list (first staged.packets) else [] in
    let rest = if full then remove_head staged.packets else staged.packets in
    let len = if full then staged.len - 1 else staged.len in
    (record { packets = rest ++ pkt ∷ []; len = len + 1 }, old)

pub enlist_staged : Queue → List ℕ → Queue × List ℕ
enlist_staged staged [] = (staged, [])
enlist_staged staged (pkt ∷ list) =
    let (staged', old) = push_staged staged pkt in
    let (staged'', olds) = enlist_staged staged' list in (staged'', old ++ olds)

-- The packets that stood in the queue, and the queue.
pub delist_staged : Queue → List ℕ × Queue
delist_staged staged = (staged.packets, record { packets = []; len = 0 })

-- The packets that are freed, and the queue.
pub purge : Queue → List ℕ × Queue
unfolding delist_staged
purge staged = delist_staged staged

abbrev pub assign : (ℕ → RingState) → ℕ → RingState → ℕ → RingState
assign state p s q = if p == q then s else state q

-- The queues and states that a call of `wg_queue_both` leaves, and what it frees.
pub record Both : Type 0 where
  pub answer : Errno
  pub parallel : Queue
  pub serial : Queue
  pub state : ℕ → RingState
  pub freed : List ℕ

pub queue_both : Queue → Queue → (ℕ → RingState) → ℕ → Both
queue_both parallel serial state pkt =
    if ltb serial.len max_queued_pkt
    then (if ltb parallel.len max_queued_pkt
        then record {
          answer = success;
          parallel = record { packets = parallel.packets ++ pkt ∷ []; len = parallel.len + 1 };
          serial = record { packets = serial.packets ++ pkt ∷ []; len = serial.len + 1 };
          state = assign state pkt uncrypted;
          freed = [];
        }
        else record {
          answer = enobufs;
          parallel = parallel;
          serial = record { packets = serial.packets ++ pkt ∷ []; len = serial.len + 1 };
          state = assign state pkt dead;
          freed = [];
        })
    else record {
      answer = enobufs;
      parallel = parallel;
      serial = serial;
      state = assign state pkt uncrypted;
      freed = pkt ∷ [];
    }

abbrev pub is_uncrypted : RingState → Bool
is_uncrypted uncrypted = true
is_uncrypted _ = false

take_serial : Queue → (ℕ → RingState) → Option ℕ → Option ℕ × Queue
take_serial serial state none = (none, serial)
take_serial serial state (some pkt) =
    if ltb 0 serial.len
    then (if is_uncrypted (state pkt)
        then (none, serial)
        else (some pkt, record { packets = remove_head serial.packets; len = serial.len - 1 }))
    else (none, serial)

-- Only a packet that a worker is done with leaves the serial queue.
pub dequeue_serial : Queue → (ℕ → RingState) → Option ℕ × Queue
unfolding take_serial
dequeue_serial serial state = take_serial serial state (first serial.packets)

pub dequeue_parallel : Queue → Option ℕ × Queue
dequeue_parallel parallel =
    if ltb 0 parallel.len
    then (
      first parallel.packets,
      record { packets = remove_head parallel.packets; len = parallel.len - 1 },
    )
    else (none, parallel)
