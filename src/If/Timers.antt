-- ===== src/If/Timers.antt =====
-- The timers of a peer (if_wg.c, the functions wg_timers_* and wg_send_initiation): its five callouts, and
-- the events that set and stop them. A callout is the milliseconds it was set to, or `none` if it is not
-- pending. A function returns the calls it makes of the rest of the driver, in order.

pub mod Retry
pub mod Quiet
mod Tests
use wireguard_freebsd.Prelude.{
  ℕ, ◌+◌, ◌*◌, ◌/◌, ltb, leb, ◌==◌, Bool, true, false, not, ◌&&◌, List, [], ◌∷◌, ◌++◌, Option, none,
  some, if◌then◌else◌,
}
use wireguard_freebsd.Prelude.Int.{ℤ, pos}
use wireguard_freebsd.Noise.State.{rekey_timeout, keepalive_timeout, reject_after_time}

abbrev pub max_timer_handshakes : ℕ
max_timer_handshakes = 90 / rekey_timeout

abbrev pub new_handshake_timeout : ℕ
new_handshake_timeout = rekey_timeout + keepalive_timeout

pub record Timers : Type 0 where
  pub enabled : Bool
  pub need_another_keepalive : Bool
  pub interval : ℕ
  pub new_handshake : Option ℕ
  pub send_keepalive : Option ℕ
  pub retry_handshake : Option ℕ
  pub zero_key_material : Option ℕ
  pub persistent_keepalive : Option ℕ
  pub complete : ℤ
  pub retries : ℕ

-- wg_peer_send_buf of an initiation, wg_send_keepalive, wg_peer_clear_src, wg_queue_purge of the staged
-- packets and noise_remote_keypairs_clear.
pub data Call : Type 0 where
  initiation keepalive clear_src purge keypairs_clear : Call

-- The timers of a peer that wg_peer_alloc makes.
abbrev pub timers_init : Timers
timers_init = record {
  enabled = false;
  need_another_keepalive = false;
  interval = 0;
  new_handshake = none;
  send_keepalive = none;
  retry_handshake = none;
  zero_key_material = none;
  persistent_keepalive = none;
  complete = pos 0;
  retries = 0;
}

abbrev pub is_pending : Option ℕ → Bool
is_pending none = false
is_pending (some t) = true

pub run_persistent_keepalive : Timers → Timers × List Call
run_persistent_keepalive p = (p, if ltb 0 p.interval then keepalive ∷ [] else [])

pub enable : Timers → Timers × List Call
enable p = run_persistent_keepalive (record p { enabled = true })

pub disable : Timers → Timers
disable p = record p {
  enabled = false;
  need_another_keepalive = false;
  new_handshake = none;
  send_keepalive = none;
  retry_handshake = none;
  persistent_keepalive = none;
  zero_key_material = none;
}

pub set_persistent_keepalive : Timers → ℕ → Timers × List Call
set_persistent_keepalive p interval =
    let p' = record p { interval = interval } in
    if interval == p.interval
    then (p, [])
    else (if p.enabled then run_persistent_keepalive p' else (p', []))

-- `jitter` is what arc4random_uniform(REKEY_TIMEOUT_JITTER) yields.
pub event_data_sent : Timers → ℕ → Timers
event_data_sent p jitter =
    if p.enabled && not (is_pending p.new_handshake)
    then record p { new_handshake = some (new_handshake_timeout * 1000 + jitter) }
    else p

pub event_data_received : Timers → Timers
event_data_received p =
    if p.enabled
    then (if is_pending p.send_keepalive
        then record p { need_another_keepalive = true }
        else record p { send_keepalive = some (keepalive_timeout * 1000) })
    else p

pub event_any_authenticated_packet_sent : Timers → Timers
event_any_authenticated_packet_sent p = record p { send_keepalive = none }

pub event_any_authenticated_packet_received : Timers → Timers
event_any_authenticated_packet_received p = record p { new_handshake = none }

pub event_any_authenticated_packet_traversal : Timers → Timers
event_any_authenticated_packet_traversal p =
    if p.enabled && ltb 0 p.interval
    then record p { persistent_keepalive = some (p.interval * 1000) }
    else p

pub event_handshake_initiated : Timers → ℕ → Timers
event_handshake_initiated p jitter =
    if p.enabled then record p { retry_handshake = some (rekey_timeout * 1000 + jitter) } else p

pub event_session_derived : Timers → Timers
event_session_derived p =
    if p.enabled then record p { zero_key_material = some (reject_after_time * 3 * 1000) } else p

-- What the rest of the driver does when it is asked for an initiation: whether
-- noise_remote_initiation_expired is ETIMEDOUT, whether noise_create_initiation is 0, and the jitter.
pub record Answer : Type 0 where
  pub expired : Bool
  pub created : Bool
  pub jitter : ℕ

-- wg_send_initiation; wg_peer_send_buf has the two events in it.
pub send_initiation : Timers → Answer → Timers × List Call
send_initiation p a =
    let p' = event_any_authenticated_packet_sent (event_any_authenticated_packet_traversal p) in
    if a.created then (event_handshake_initiated p' a.jitter, initiation ∷ []) else (p, [])

pub run_send_initiation : Timers → Bool → Answer → Timers × List Call
run_send_initiation p is_retry a =
    let p' = if is_retry then p else record p { retries = 0 } in
    if a.expired then send_initiation p' a else (p', [])

pub event_want_initiation : Timers → Answer → Timers × List Call
event_want_initiation p a = if p.enabled then run_send_initiation p false a else (p, [])

abbrev pub after : List Call → Timers × List Call → Timers × List Call
after before (p, calls) = (p, before ++ calls)

-- The callouts, when they fire: they are not pending then.
pub run_send_keepalive : Timers → Timers × List Call
run_send_keepalive p =
    if p.enabled && p.need_another_keepalive
    then (
      record p { need_another_keepalive = false; send_keepalive = some (keepalive_timeout * 1000) },
      keepalive ∷ [],
    )
    else (p, keepalive ∷ [])

pub event_handshake_complete : Timers → ℤ → Timers × List Call
event_handshake_complete p now =
    if p.enabled
    then run_send_keepalive (record p { retry_handshake = none; retries = 0; complete = now })
    else (p, [])

pub run_retry_handshake : Timers → Answer → Timers × List Call
run_retry_handshake p a =
    let gone = record p { send_keepalive = none } in
    if leb p.retries max_timer_handshakes
    then after (clear_src ∷ []) (run_send_initiation (record p { retries = p.retries + 1 }) true a)
    else (if gone.enabled && not (is_pending gone.zero_key_material)
        then (record gone { zero_key_material = some (reject_after_time * 3 * 1000) }, purge ∷ [])
        else (gone, purge ∷ []))

pub run_new_handshake : Timers → Answer → Timers × List Call
run_new_handshake p a = after (clear_src ∷ []) (run_send_initiation p false a)

-- wg_timers_get_last_handshake
pub get_last_handshake : Timers → ℤ
get_last_handshake p = p.complete

pub run_zero_key_material : Timers → Timers × List Call
run_zero_key_material p = (p, keypairs_clear ∷ [])
