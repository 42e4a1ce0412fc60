-- ===== src/Noise/Keypair.antt =====
-- The keypairs of a remote (wg_noise.c): the three slots `r_next`, `r_current` and `r_previous`, the
-- start of a session, and the numbering of the packets that are sent.
pub mod Nonce
pub mod Slots
pub mod Transport
use wireguard_freebsd.Prelude.{
  ℕ, ◌+◌, ◌-◌, ◌*◌, ◌^◌, ◌==◌, ltb, leb, Bool, true, false, not, ◌&&◌, ◌||◌, List, [], ◌∷◌, Option,
  none, some, if◌then◌else◌, add64, Errno, success, einval, econnreset, enospc, Bytes,
}
use wireguard_freebsd.Prelude.Int.{ℤ, pos, negsuc, ◌+ℤ◌, ltb_ℤ}
use wireguard_freebsd.Noise.State.{
  Entry, of_remote, of_keypair, Index, Keypair, Remote, HandshakeState, dead, is_initiating, Noise,
  set_remote, set_keypair, store, timer_expired, seconds, reject_after_time, rekey_after_time,
  keepalive_timeout, rekey_timeout,
}
use wireguard_freebsd.Noise.Counter.{Counter, fresh, reject_after_messages}
use wireguard_freebsd.Noise.Crypto.{Crypto}
use wireguard_freebsd.Noise.Symmetric.{kdf, no_handshake, noise_symmetric_key_len}
use wireguard_freebsd.Noise.Index.{
  erase, replace, unlink, keypair_drop, keypair_put, keypair_acquire, remote_ref, handshake_clear,
}

-- REKEY_AFTER_MESSAGES
abbrev pub rekey_after_messages : ℕ
rekey_after_messages = 2 ^ 60

-- Stores to the slots.
abbrev pub set_slots : Noise → ℕ → Option ℕ → Option ℕ → Option ℕ → Noise
set_slots s r next current previous =
    set_remote s r (record (s.remotes r) { next = next; current = current; previous = previous })

abbrev pub is_some : Option ℕ → Bool
is_some none = false
is_some (some k) = true

-- The first half of noise_add_new_keypair: the slots. The stores and the drops of one branch are in the
-- order of the source, but that all stores come first: a drop does not look at the slots.
pub put_in_slots : Noise → ℕ → ℕ → Noise
put_in_slots s r kp =
    let v = s.remotes r in
    if (s.keypairs kp).is_initiator
    then (if is_some v.next
        then keypair_drop (keypair_drop (set_slots s r none (some kp) v.next) v.current) v.previous
        else keypair_drop (set_slots s r none (some kp) v.current) v.previous)
    else keypair_drop (keypair_drop (set_slots s r (some kp) v.current none) v.next) v.previous

-- The second half: the keypair takes the place of the remote in the index table, and the handshake ends.
pub take_index : Noise → ℕ → ℕ → Noise
take_index s r kp =
    let v = s.remotes r in
    let s' = set_keypair s kp (record (s.keypairs kp) { index = v.index }) in
    record (set_remote s' r (record v { handshake_state = dead; handshake = no_handshake })) {
      index_hash = λ b. replace (of_remote r) (of_keypair kp) (s'.index_hash b);
    }

pub add_new_keypair : Noise → ℕ → ℕ → Noise
add_new_keypair s r kp = take_index (put_in_slots s r kp) r kp

-- What noise_begin_session writes to the new keypair before noise_add_new_keypair.
unfoldable pub new_keypair : Crypto → Noise → ℕ → ℤ → Keypair
new_keypair c s r now =
    let v = s.remotes r in
    let is_init = is_initiating v.handshake_state in
    let k = kdf c [] noise_symmetric_key_len noise_symmetric_key_len 0 v.handshake.ck in
    record {
      index = record { local_index = 0; remote_index = 0 };
      refcnt = 1;
      can_send = true;
      is_initiator = is_init;
      birthdate = now;
      remote = r;
      send = if is_init then k.first else k.second;
      recv = if is_init then k.second else k.first;
      counter = fresh;
    }

-- noise_begin_session; malloc returns an address, or NULL, which is `none`.
pub begin_session : Crypto → Noise → ℕ → Option ℕ → ℤ → Errno × Noise
begin_session c s r none now = (enospc, s)
begin_session c s r (some kp) now =
    (success, add_new_keypair (set_keypair (remote_ref s r) kp (new_keypair c s r now)) r kp)

abbrev pub is_slot : Option ℕ → ℕ → Bool
is_slot none k = false
is_slot (some k') k = k' == k

-- noise_keypair_received_with: a packet came with the keypair `kp`.
pub received_with : Noise → ℕ → Errno × Noise
received_with s kp =
    let r = (s.keypairs kp).remote in
    let v = s.remotes r in
    if is_slot v.next kp
    then (econnreset, keypair_drop (set_slots s r none (some kp) v.current) v.previous)
    else (success, s)

-- noise_remote_keypairs_clear
pub keypairs_clear : Noise → ℕ → Noise
keypairs_clear s r =
    let v = s.remotes r in
    keypair_drop (keypair_drop (keypair_drop (set_slots s r none none none) v.next) v.current)
      v.previous

abbrev pub stop_sending : Noise → Option ℕ → Noise
stop_sending s none = s
stop_sending s (some k) = set_keypair s k (record (s.keypairs k) { can_send = false })

-- noise_remote_expire_current
pub expire_current : Noise → ℕ → Noise
expire_current s r =
    let s' = handshake_clear s r in
    stop_sending (stop_sending s' (s'.remotes r).next) (s'.remotes r).current

-- noise_keypair_current
pub keypair_current : Noise → ℕ → ℤ → Option ℕ × Noise
keypair_current s r now = elim (s.remotes r).current [
  | none ↦ (none, s)
  | some k ↦
      let kp = s.keypairs k in
      if kp.can_send
      then (if timer_expired now kp.birthdate (seconds reject_after_time)
          then (none, stop_sending s (some k))
          else keypair_acquire s k)
      else (none, s)
]

-- noise_keypair_nonce_next, with the number it stores through `send`.
pub nonce_next : Keypair → Errno × ℕ × Keypair
nonce_next kp =
    let n = kp.counter.nonce_send in
    let kp' = record kp { counter = record kp.counter { nonce_send = add64 n 1 } } in
    if kp.can_send
    then (if ltb n reject_after_messages
        then (success, n, kp')
        else (einval, n, record kp' { can_send = false }))
    else (einval, 0, kp)

-- noise_keep_key_fresh_send and noise_keep_key_fresh_recv: whether a new handshake is due.
pub keep_key_fresh_send : Noise → ℕ → ℤ → Bool
keep_key_fresh_send s r now = elim (s.remotes r).current [
  | none ↦ false
  | some k ↦
      let kp = s.keypairs k in
      kp.can_send
      && (ltb rekey_after_messages kp.counter.nonce_send
          || kp.is_initiator && timer_expired now kp.birthdate (seconds rekey_after_time))
]

pub keep_key_fresh_recv : Noise → ℕ → ℤ → Bool
keep_key_fresh_recv s r now = elim (s.remotes r).current [
  | none ↦ false
  | some k ↦
      let kp = s.keypairs k in
      kp.can_send
      && kp.is_initiator
      && timer_expired now kp.birthdate
          (seconds (reject_after_time - keepalive_timeout - rekey_timeout))
]
