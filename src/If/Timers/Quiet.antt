-- ===== src/If/Timers/Quiet.antt =====
-- A peer that is disabled has no timer left.
use wireguard_freebsd.Prelude.{
  if_cases, ◌+◌, ◌==◌, ℕ, ◌+◌, ◌==◌, Bool, true, false, not, ◌&&◌, ltb, leb, List, [], ◌*◌, ◌∙◌,
  none, some, ◌≡◌, refl, if◌then◌else◌,
}
use wireguard_freebsd.Noise.State.{keepalive_timeout}
use wireguard_freebsd.Prelude.Int.{ℤ}
use wireguard_freebsd.If.Timers.{
  Timers, Call, Answer, timers_init, enable, disable, set_persistent_keepalive, event_data_sent,
  event_data_received, event_any_authenticated_packet_sent, event_any_authenticated_packet_received,
  event_any_authenticated_packet_traversal, event_handshake_initiated, event_session_derived,
  send_initiation, run_send_initiation, event_want_initiation, run_send_keepalive,
  event_handshake_complete, run_retry_handshake, run_new_handshake, run_zero_key_material,
  run_persistent_keepalive, max_timer_handshakes, is_pending,
}

-- One event at a peer, or a callout that fires.
pub data Step : Timers → Timers → Type 0 where
  enabling : (p : Timers) → Step p (enable p).0
  disabling : (p : Timers) → Step p (disable p)
  setting : (p : Timers) (interval : ℕ) → Step p (set_persistent_keepalive p interval).0
  data_sent : (p : Timers) (jitter : ℕ) → Step p (event_data_sent p jitter)
  data_received : (p : Timers) → Step p (event_data_received p)
  packet_sent : (p : Timers) → Step p (event_any_authenticated_packet_sent p)
  packet_received : (p : Timers) → Step p (event_any_authenticated_packet_received p)
  packet_traversal : (p : Timers) → Step p (event_any_authenticated_packet_traversal p)
  handshake_initiated : (p : Timers) (jitter : ℕ) → Step p (event_handshake_initiated p jitter)
  handshake_complete : (p : Timers) (now : ℤ) → Step p (event_handshake_complete p now).0
  session_derived : (p : Timers) → Step p (event_session_derived p)
  want_initiation : (p : Timers) (a : Answer) → Step p (event_want_initiation p a).0
  keepalive_fires :
      (p : Timers) → Step p (run_send_keepalive (record p { send_keepalive = none })).0
  retry_fires :
      (p : Timers) (a : Answer)
      → Step p (run_retry_handshake (record p { retry_handshake = none }) a).0
  handshake_fires :
      (p : Timers) (a : Answer) → Step p (run_new_handshake (record p { new_handshake = none }) a).0
  zero_fires :
      (p : Timers) → Step p (run_zero_key_material (record p { zero_key_material = none })).0
  persistent_fires :
      (p : Timers) → Step p (run_persistent_keepalive (record p { persistent_keepalive = none })).0

pub data Reach : Timers → Type 0 where
  start : Reach timers_init
  next : {p q : Timers} → Reach p → Step p q → Reach q

-- No callout is pending.
abbrev pub IsQuiet : Timers → Type 0
IsQuiet p =
    (p.new_handshake ≡ none)
    × (p.send_keepalive ≡ none)
    × (p.retry_handshake ≡ none)
    × (p.zero_key_material ≡ none)
    × (p.persistent_keepalive ≡ none)

abbrev IsSafe : Timers → Type 0
IsSafe p = p.enabled ≡ false → IsQuiet p

and_left : (a b : Bool) → (a && b) ≡ true → a ≡ true
and_left true b h = refl
and_left false b h = h

on_IsSafe : (q : Timers) → q.enabled ≡ true → IsSafe q
on_IsSafe q on off = absurd cc

-- A change that only an enabled peer makes.
guard :
    (p q : Timers) (b : Bool)
    → (b ≡ true → p.enabled ≡ true)
    → q.enabled ≡ p.enabled
    → IsSafe p
    → IsSafe (if b then q else p)
guard p q true on same h = on_IsSafe q (same ∙ on refl)
guard p q false on same h = h

guard_calls :
    (p : Timers) (q : Timers × List Call) (calls : List Call) (b : Bool)
    → (b ≡ true → p.enabled ≡ true)
    → q.0.enabled ≡ p.enabled
    → IsSafe p
    → IsSafe (if b then q else (p, calls)).0
guard_calls p q calls true on same h = on_IsSafe q.0 (same ∙ on refl)
guard_calls p q calls false on same h = h

event_data_sent-IsSafe : (p : Timers) (jitter : ℕ) → IsSafe p → IsSafe (event_data_sent p jitter)
unfolding event_data_sent
event_data_sent-IsSafe p jitter h =
    guard p _ (p.enabled && not (is_pending p.new_handshake)) (and_left _ _) refl h

event_data_received-IsSafe : (p : Timers) → IsSafe p → IsSafe (event_data_received p)
unfolding event_data_received
event_data_received-IsSafe p h =
    guard p _ p.enabled (λ e. e) (keeps (is_pending p.send_keepalive)) h
  where
    keeps :
        (b : Bool)
        → (if b
            then record p { need_another_keepalive = true }
            else record p { send_keepalive = some (keepalive_timeout * 1000) }).enabled
          ≡ p.enabled
    keeps true = refl
    keeps false = refl

event_handshake_initiated-IsSafe :
    (p : Timers) (jitter : ℕ) → IsSafe p → IsSafe (event_handshake_initiated p jitter)
unfolding event_handshake_initiated
event_handshake_initiated-IsSafe p jitter h = guard p _ p.enabled (λ e. e) refl h

event_session_derived-IsSafe : (p : Timers) → IsSafe p → IsSafe (event_session_derived p)
unfolding event_session_derived
event_session_derived-IsSafe p h = guard p _ p.enabled (λ e. e) refl h

traversal-IsSafe : (p : Timers) → IsSafe p → IsSafe (event_any_authenticated_packet_traversal p)
unfolding event_any_authenticated_packet_traversal
traversal-IsSafe p h = guard p _ (p.enabled && ltb 0 p.interval) (and_left _ _) refl h

packet_sent-IsSafe : (p : Timers) → IsSafe p → IsSafe (event_any_authenticated_packet_sent p)
unfolding event_any_authenticated_packet_sent
packet_sent-IsSafe p h off = let q = h off in (q.0, refl, q.2, q.3, q.4)

run_send_keepalive-IsSafe : (p : Timers) → IsSafe p → IsSafe (run_send_keepalive p).0
unfolding run_send_keepalive
run_send_keepalive-IsSafe p h =
    guard_calls p _ _ (p.enabled && p.need_another_keepalive) (and_left _ _) refl h

run_send_keepalive-enabled : (p : Timers) → (run_send_keepalive p).0.enabled ≡ p.enabled
unfolding run_send_keepalive
run_send_keepalive-enabled p =
    if_cases (λ (q : Timers × List Call). q.0.enabled ≡ p.enabled)
      (p.enabled && p.need_another_keepalive) _ _ refl refl

handshake_complete-IsSafe :
    (p : Timers) (now : ℤ) → IsSafe p → IsSafe (event_handshake_complete p now).0
unfolding event_handshake_complete
handshake_complete-IsSafe p now h =
    guard_calls p (run_send_keepalive p') [] p.enabled (λ e. e) (run_send_keepalive-enabled p') h
  where
    p' : Timers
    p' = record p { retry_handshake = none; retries = 0; complete = now }

send_initiation-IsSafe : (p : Timers) (a : Answer) → IsSafe p → IsSafe (send_initiation p a).0
unfolding send_initiation
send_initiation-IsSafe p a h =
    if_cases (λ (q : Timers × List Call). IsSafe q.0) a.created _ _
      (event_handshake_initiated-IsSafe _ a.jitter (packet_sent-IsSafe _ (traversal-IsSafe p h))) h

run_send_initiation-IsSafe :
    (p : Timers) (is_retry : Bool) (a : Answer)
    → IsSafe p
    → IsSafe (run_send_initiation p is_retry a).0
unfolding run_send_initiation
run_send_initiation-IsSafe p is_retry a h =
    if_cases (λ (q : Timers × List Call). IsSafe q.0) a.expired _ _
      (send_initiation-IsSafe _ a (reset is_retry)) (reset is_retry)
  where
    reset : (b : Bool) → IsSafe (if b then p else record p { retries = 0 })
    reset true = h
    reset false = h

run_retry_handshake-IsSafe :
    (p : Timers) (a : Answer) → IsSafe p → IsSafe (run_retry_handshake p a).0
unfolding run_retry_handshake
run_retry_handshake-IsSafe p a h =
    if_cases (λ (q : Timers × List Call). IsSafe q.0) (leb p.retries max_timer_handshakes) _ _
      (run_send_initiation-IsSafe (record p { retries = p.retries + 1 }) true a h)
      (guard_calls gone _ _ (p.enabled && not (is_pending p.zero_key_material)) (and_left _ _) refl
        (λ off. let q = h off in (q.0, refl, q.2, q.3, q.4)))
  where
    gone : Timers
    gone = record p { send_keepalive = none }

set_persistent_keepalive-IsSafe :
    (p : Timers) (interval : ℕ) → IsSafe p → IsSafe (set_persistent_keepalive p interval).0
unfolding set_persistent_keepalive run_persistent_keepalive
set_persistent_keepalive-IsSafe p interval h =
    if_cases (λ (q : Timers × List Call). IsSafe q.0) (interval == p.interval) _ _ h
      (if_cases (λ (q : Timers × List Call). IsSafe q.0) p.enabled _ _ h h)

Step-IsSafe : {p q : Timers} → Step p q → IsSafe p → IsSafe q
unfolding enable disable event_any_authenticated_packet_received event_want_initiation
    run_new_handshake run_zero_key_material run_persistent_keepalive
Step-IsSafe (enabling p) h = λ off. absurd cc
Step-IsSafe (disabling p) h = λ off. (refl, refl, refl, refl, refl)
Step-IsSafe (setting p interval) h = set_persistent_keepalive-IsSafe p interval h
Step-IsSafe (data_sent p jitter) h = event_data_sent-IsSafe p jitter h
Step-IsSafe (data_received p) h = event_data_received-IsSafe p h
Step-IsSafe (packet_sent p) h = packet_sent-IsSafe p h
Step-IsSafe (packet_received p) h = λ off. let q = h off in (refl, q.1, q.2, q.3, q.4)
Step-IsSafe (packet_traversal p) h = traversal-IsSafe p h
Step-IsSafe (handshake_initiated p jitter) h = event_handshake_initiated-IsSafe p jitter h
Step-IsSafe (handshake_complete p now) h = handshake_complete-IsSafe p now h
Step-IsSafe (session_derived p) h = event_session_derived-IsSafe p h
Step-IsSafe (want_initiation p a) h =
    if_cases (λ (q : Timers × List Call). IsSafe q.0) p.enabled _ _
      (run_send_initiation-IsSafe p false a h) h
Step-IsSafe (keepalive_fires p) h =
    run_send_keepalive-IsSafe _ (λ off. let q = h off in (q.0, refl, q.2, q.3, q.4))
Step-IsSafe (retry_fires p a) h =
    run_retry_handshake-IsSafe _ a (λ off. let q = h off in (q.0, q.1, refl, q.3, q.4))
Step-IsSafe (handshake_fires p a) h =
    run_send_initiation-IsSafe _ false a (λ off. let q = h off in (refl, q.1, q.2, q.3, q.4))
Step-IsSafe (zero_fires p) h = λ off. let q = h off in (q.0, q.1, q.2, refl, q.4)
Step-IsSafe (persistent_fires p) h = λ off. let q = h off in (q.0, q.1, q.2, q.3, refl)

Reach-IsSafe : (p : Timers) → Reach p → IsSafe p
Reach-IsSafe _ start = λ off. (refl, refl, refl, refl, refl)
Reach-IsSafe _ (next r s) = Step-IsSafe s (Reach-IsSafe _ r)

-- Whatever the events at a peer were, and whichever callouts fired: if the peer is disabled, none of its
-- five callouts is pending.
pub Reach-IsQuiet : (p : Timers) → Reach p → p.enabled ≡ false → IsQuiet p
Reach-IsQuiet p r off = Reach-IsSafe p r off
