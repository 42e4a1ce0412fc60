-- ===== src/If/Handshake.antt =====
-- wg_handshake, wg_send_response and wg_send_cookie (if_wg.c): what becomes of a packet that a worker takes
-- from the handshake queue. A peer is the number of its remote. The packet has one of the three formats,
-- and its bytes are in one mbuf.
pub mod Load
pub mod Panic
mod Tests
use wireguard_freebsd.Prelude.{
  ℕ, ◌+◌, ◌*◌, ◌/◌, ltb, leb, ◌==◌, not, Bool, true, false, List, [], ◌∷◌, ◌++◌, Option, none, some,
  Bytes, Errno, success, einval, eagain, econnrefused, Result, ok, err, if◌then◌else◌,
}
use wireguard_freebsd.Prelude.Int.{ℤ}
use wireguard_freebsd.Cookie.Ratelimit.{sbt_1s, Sockaddr}
use wireguard_freebsd.Cookie.Macs.{
  CookieCrypto, Macs, Maker, Checker, Limits, validate_macs, consume_payload, create_payload,
  maker_mac,
}
use wireguard_freebsd.Crypto.Word.{put_unaligned_le32}
use wireguard_freebsd.Noise.Crypto.{Crypto}
use wireguard_freebsd.Noise.State.{Noise}
use wireguard_freebsd.Noise.Index.{remote_index_lookup, remote_put}
use wireguard_freebsd.Noise.Handshake.{consume_initiation, consume_response, create_response}
use wireguard_freebsd.If.Queue.{max_queued_handshakes}
use wireguard_freebsd.If.Timers.{
  Timers, event_session_derived, event_handshake_complete, event_any_authenticated_packet_received,
  event_any_authenticated_packet_traversal, event_any_authenticated_packet_sent,
}

abbrev pub underload_timeout : ℕ
underload_timeout = 1

-- Whether the interface is under load, and the new wg_last_underload, for a handshake queue of `len`
-- packets.
pub under_load : ℕ → ℕ → ℕ → Bool × ℕ
under_load len last now =
    let recent = ltb now (last + underload_timeout * sbt_1s) in
    if leb (max_queued_handshakes / 8) len
    then (true, now)
    else if last == 0
    then (false, last)
    else (recent, if recent then last else 0)

-- struct wg_pkt_initiation, wg_pkt_response and wg_pkt_cookie, and any other type. `covered` is the bytes
-- before the macs.
pub data Message : Type 0 where
  initiation : ℕ → Bytes → Bytes → Bytes → Macs → Bytes → Message
  response : ℕ → ℕ → Bytes → Bytes → Macs → Bytes → Message
  cookie_reply : ℕ → Bytes → Bytes → Message
  other_message : Message

-- What the handler calls of the rest of the driver, in order: wg_send_buf of a cookie to the sender or of
-- a response to the endpoint of the peer, wg_peer_set_endpoint, wg_send_keepalive of the timers, the
-- counters of the received bytes, panic(9), and wg_packet_free.
pub data Action : Type 0 where
  panic packet_free : Action
  send_cookie : Bytes → Action
  set_endpoint timer_calls count_bytes : ℕ → Action
  send_response : ℕ → Bytes → Action

pub record Device : Type 0 where
  pub noise : Noise
  pub checker : Checker
  pub limits : Limits
  pub makers : ℕ → Maker
  pub timers : ℕ → Timers
  pub last_underload : ℕ

-- What surrounds one call: the queue, the clock as it is read in turn, the sender, the memory of the
-- allocator and the random numbers (those of an answer are `nonce` and `ephemeral` and the `reply` ones);
-- `kp` is the keypair that malloc returns, or none, and `pulled` whether m_pullup had the memory.
pub record Around : Type 0 where
  pub queue_len : ℕ
  pub now : ℕ
  pub noise_now : ℤ
  pub later : ℤ
  pub sender : Sockaddr
  pub vnet : ℕ
  pub memory : Bool
  pub pulled : Bool
  pub secret : Bytes
  pub random : Bytes
  pub rands : List ℕ
  pub kp : Option ℕ
  pub nonce : Bytes
  pub ephemeral : Bytes
  pub session_now : ℤ
  pub sent_now : ℤ
  pub reply_now : ℕ
  pub reply_secret : Bytes
  pub reply_random : Bytes

abbrev pub update : (ℕ → Timers) → ℕ → Timers → ℕ → Timers
update timers r t i = if i == r then t else timers i

-- The two events after an authenticated packet.
abbrev pub authenticated : Device → ℕ → Device
authenticated d r =
    let t =
      event_any_authenticated_packet_traversal
        (event_any_authenticated_packet_received (d.timers r)) in
    record d { timers = update d.timers r t }

-- `error:` with the reference that is held, or none.
abbrev pub finish_with : Device → List Action → Device × List Action
finish_with d actions = (d, actions ++ (packet_free ∷ []))

abbrev pub put_and_free : Device → ℕ → List Action → Device × List Action
put_and_free d r actions = finish_with (record d { noise = remote_put d.noise r }) actions

-- The answers of cookie_checker_validate_macs, of which 0 goes on. `reply` is what wg_send_cookie leaves in
-- the checker, and the packet it sends.
abbrev pub gate : Errno → Device → Checker × Bytes → Device × List Action → Device × List Action
gate Errno.success d reply go_on = go_on
gate Errno.einval d reply go_on = finish_with d []
gate Errno.econnrefused d reply go_on = finish_with d []
gate Errno.eagain d reply go_on =
    finish_with (record d { checker = reply.0 }) (send_cookie reply.1 ∷ [])
gate _ d reply go_on = (d, panic ∷ [])

abbrev pub responded : Device → Result ℕ × Noise → ℤ → Device × List Action
responded d (err e, s) now = finish_with (record d { noise = s }) []
responded d (ok r, s) now =
    let done = event_handshake_complete (event_session_derived (d.timers r)) now in
    put_and_free (authenticated (record d { noise = s; timers = update d.timers r done.0 }) r) r
      (set_endpoint r ∷ timer_calls r ∷ count_bytes r ∷ [])

abbrev pub set_maker : (ℕ → Maker) → ℕ → Maker → ℕ → Maker
set_maker makers r cm i = if i == r then cm else makers i

-- The gate of an initiation lets through what `none` stands for: all random indices are in use.
abbrev pub gate_search :
    Errno → Device → Checker × Bytes → Option (Device × List Action) → Option (Device × List Action)
gate_search Errno.success d reply go_on = go_on
gate_search e d reply go_on = some (gate e d reply (d, []))

module _ (c : Crypto) (cookies : CookieCrypto) (siphash24 : Bytes → Bytes → ℕ)
    (siphash13 : List ℕ → List ℕ → ℕ) (nstosbt : ℕ → ℕ) where
  abbrev pub check_macs : Device → Around → Bool → Macs → Bytes → Errno × Checker × Limits
  check_macs d a load macs covered =
      validate_macs cookies siphash13 d.checker d.limits macs covered load a.sender a.vnet a.now
        a.memory a.secret a.random

  -- The packet of type 3 that answers a message whose sender index is `idx`.
  abbrev pub wg_send_cookie : Device → Around → Macs → ℕ → Checker × Bytes
  wg_send_cookie d a macs idx =
      let p =
        create_payload cookies d.checker macs a.nonce a.sender a.reply_now a.reply_secret
          a.reply_random in
      (p.1, put_unaligned_le32 3 ++ put_unaligned_le32 idx ++ a.nonce ++ p.0)

  -- wg_send_response behind noise_create_response, with wg_peer_send_buf: the packet of type 2 with its
  -- macs, and the events of the timers.
  abbrev pub response_made :
      Device → Around → ℕ → Result (ℕ × ℕ × Bytes × Bytes) × Noise → Device × List Action
  response_made d a r (err e, s) = (record d { noise = s }, [])
  response_made d a r (ok (s_idx, r_idx, ue, en), s) =
      let bytes =
        put_unaligned_le32 2 ++ put_unaligned_le32 s_idx ++ put_unaligned_le32 r_idx ++ ue ++ en in
      let m = maker_mac cookies (d.makers r) bytes a.reply_now in
      let t =
        event_any_authenticated_packet_sent
          (event_any_authenticated_packet_traversal (event_session_derived (d.timers r))) in
      (
        record d { noise = s; makers = set_maker d.makers r m.1; timers = update d.timers r t },
        send_response r (bytes ++ m.0.mac1 ++ m.0.mac2) ∷ [],
      )

  pub wg_send_response : Device → Around → ℕ → Device × List Action
  wg_send_response d a r =
      response_made d a r
        (create_response c siphash24 nstosbt d.noise r a.ephemeral a.kp a.session_now a.sent_now)

  abbrev pub initiated : Device → Around → Option (Result ℕ × Noise) → Option (Device × List Action)
  initiated d a none = none
  initiated d a (some (err e, s)) = some (finish_with (record d { noise = s }) [])
  initiated d a (some (ok r, s)) =
      let out = wg_send_response (record d { noise = s }) a r in
      some
        (put_and_free (authenticated out.0 r) r (set_endpoint r ∷ (out.1 ++ (count_bytes r ∷ []))))

  abbrev pub cookie_taken : Device → ℕ → Errno × Maker → Device × List Action
  cookie_taken d r (Errno.success, cm) =
      put_and_free (record d { makers = set_maker d.makers r cm }) r (count_bytes r ∷ [])
  cookie_taken d r (_, cm) = put_and_free (record d { makers = set_maker d.makers r cm }) r []

  abbrev pub cookie_from : Device → Around → Bytes → Bytes → Option ℕ × Noise → Device × List Action
  cookie_from d a nonce ec (none, s) = finish_with (record d { noise = s }) []
  cookie_from d a nonce ec (some r, s) =
      cookie_taken (record d { noise = s }) r (consume_payload cookies (d.makers r) nonce ec a.now)

  -- The switch on the type of the message.
  pub handle : Device → Around → Bool → Message → Option (Device × List Action)
  handle d a load (initiation s_idx ue es ets macs covered) =
      let v = check_macs d a load macs covered in
      let d' = record d { checker = v.1; limits = v.2 } in
      gate_search v.0 d' (wg_send_cookie d' a macs s_idx) (
        initiated d' a (
          consume_initiation c siphash24 nstosbt d.noise s_idx ue es ets a.rands a.noise_now
            a.later))
  handle d a load (response s_idx r_idx ue en macs covered) =
      let v = check_macs d a load macs covered in
      let d' = record d { checker = v.1; limits = v.2 } in
      some (
        gate v.0 d' (wg_send_cookie d' a macs s_idx) (
          responded d'
            (consume_response c siphash24 nstosbt d.noise s_idx r_idx ue en a.kp a.noise_now)
            a.noise_now))
  handle d a load (cookie_reply r_idx nonce ec) =
      some (cookie_from d a nonce ec (remote_index_lookup d.noise r_idx true))
  handle d a load other_message = some (d, panic ∷ [])

  pub wg_handshake : Device → Around → Message → Option (Device × List Action)
  wg_handshake d a message =
      let load = under_load a.queue_len d.last_underload a.now in
      let d' = record d { last_underload = load.1 } in
      if a.pulled then handle d' a load.0 message else some (finish_with d' [])
