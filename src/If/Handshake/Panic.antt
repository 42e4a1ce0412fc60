-- ===== src/If/Handshake/Panic.antt =====
-- When wg_handshake calls panic(9): the answers of the cookie checker that its gates know.
use wireguard_freebsd.Prelude.{
  ℕ, ◌≡◌, ◌≢◌, refl, inl, inr, Bool, true, false, List, [], ◌∷◌, ◌++◌, Option, none, some, Bytes,
  Errno, Bool-cases, Result, ok, err,
}
use wireguard_freebsd.Prelude.Int.{ℤ}
use wireguard_freebsd.Cookie.Macs.{Checker, CookieCrypto, Maker}
use wireguard_freebsd.Cookie.Macs.Answers.{IsAnswered, IsInternet, validate_macs-IsAnswered}
use wireguard_freebsd.Noise.Crypto.{Crypto}
use wireguard_freebsd.Noise.State.{Noise}
use wireguard_freebsd.If.Handshake.{
  response_made, wg_send_cookie, wg_send_response, count_bytes, packet_free, Device, Around, Action,
  Message, gate, gate_search, initiated, responded, cookie_taken, cookie_from, check_macs, handle,
  wg_handshake, under_load,
}

abbrev pub panics : List Action → Bool
panics [] = false
panics (Action.panic ∷ actions) = true
panics (_ ∷ actions) = panics actions

-- The handler ends without a panic.
abbrev pub IsCalm : Option (Device × List Action) → Type 0
IsCalm none = Unit {0}
IsCalm (some (d, actions)) = panics actions ≡ false

gate-IsCalm :
    (e : Errno) (d : Device) (reply : Checker × Bytes) (go_on : Device × List Action)
    → IsAnswered e
    → IsCalm (some go_on)
    → IsCalm (some (gate e d reply go_on))
gate-IsCalm Errno.success d reply go_on known calm = calm
gate-IsCalm Errno.einval d reply go_on known calm = refl
gate-IsCalm Errno.eexist d reply go_on known calm = absurd known
gate-IsCalm Errno.enoent d reply go_on known calm = absurd known
gate-IsCalm Errno.enospc d reply go_on known calm = absurd known
gate-IsCalm Errno.enxio d reply go_on known calm = absurd known
gate-IsCalm Errno.etimedout d reply go_on known calm = absurd known
gate-IsCalm Errno.econnreset d reply go_on known calm = absurd known
gate-IsCalm Errno.estale d reply go_on known calm = absurd known
gate-IsCalm Errno.eagain d reply go_on known calm = refl
gate-IsCalm Errno.econnrefused d reply go_on known calm = refl
gate-IsCalm Errno.eafnosupport d reply go_on known calm = absurd known
gate-IsCalm Errno.enobufs d reply go_on known calm = absurd known
gate-IsCalm Errno.enomem d reply go_on known calm = absurd known
gate-IsCalm Errno.emsgsize d reply go_on known calm = absurd known
gate-IsCalm Errno.ebadmsg d reply go_on known calm = absurd known

gate_search-IsCalm :
    (e : Errno) (d : Device) (reply : Checker × Bytes) (go_on : Option (Device × List Action))
    → IsAnswered e
    → IsCalm go_on
    → IsCalm (gate_search e d reply go_on)
gate_search-IsCalm Errno.success d reply go_on known calm = calm
gate_search-IsCalm Errno.einval d reply go_on known calm = refl
gate_search-IsCalm Errno.eexist d reply go_on known calm = absurd known
gate_search-IsCalm Errno.enoent d reply go_on known calm = absurd known
gate_search-IsCalm Errno.enospc d reply go_on known calm = absurd known
gate_search-IsCalm Errno.enxio d reply go_on known calm = absurd known
gate_search-IsCalm Errno.etimedout d reply go_on known calm = absurd known
gate_search-IsCalm Errno.econnreset d reply go_on known calm = absurd known
gate_search-IsCalm Errno.estale d reply go_on known calm = absurd known
gate_search-IsCalm Errno.eagain d reply go_on known calm = refl
gate_search-IsCalm Errno.econnrefused d reply go_on known calm = refl
gate_search-IsCalm Errno.eafnosupport d reply go_on known calm = absurd known
gate_search-IsCalm Errno.enobufs d reply go_on known calm = absurd known
gate_search-IsCalm Errno.enomem d reply go_on known calm = absurd known
gate_search-IsCalm Errno.emsgsize d reply go_on known calm = absurd known
gate_search-IsCalm Errno.ebadmsg d reply go_on known calm = absurd known

responded-IsCalm :
    (d : Device) (out : Result ℕ × Noise) (now : ℤ) → IsCalm (some (responded d out now))
responded-IsCalm d (err e, s) now = refl
responded-IsCalm d (ok r, s) now = refl

module _ (c : Crypto) (cookies : CookieCrypto) (siphash24 : Bytes → Bytes → ℕ)
    (siphash13 : List ℕ → List ℕ → ℕ) (nstosbt : ℕ → ℕ) where
  response_made-IsCalm :
      (d : Device) (a : Around) (r : ℕ) (out : Result (ℕ × ℕ × Bytes × Bytes) × Noise)
      → let actions = (response_made c cookies siphash24 siphash13 nstosbt d a r out).1 in
        panics ((actions ++ (count_bytes r ∷ [])) ++ (packet_free ∷ [])) ≡ false
  response_made-IsCalm d a r (err e, s) = refl
  response_made-IsCalm d a r (ok m, s) = refl

  initiated-IsCalm :
      (d : Device) (a : Around) (out : Option (Result ℕ × Noise))
      → IsCalm (initiated c cookies siphash24 siphash13 nstosbt d a out)
  unfolding wg_send_response
  initiated-IsCalm d a none = tt
  initiated-IsCalm d a (some (err e, s)) = refl
  initiated-IsCalm d a (some (ok r, s)) = response_made-IsCalm (record d { noise = s }) a r _

  cookie_taken-IsCalm :
      (d : Device) (r : ℕ) (out : Errno × Maker)
      → IsCalm (some (cookie_taken c cookies siphash24 siphash13 nstosbt d r out))
  cookie_taken-IsCalm d r (Errno.success, cm) = refl
  cookie_taken-IsCalm d r (Errno.einval, cm) = refl
  cookie_taken-IsCalm d r (Errno.eexist, cm) = refl
  cookie_taken-IsCalm d r (Errno.enoent, cm) = refl
  cookie_taken-IsCalm d r (Errno.enospc, cm) = refl
  cookie_taken-IsCalm d r (Errno.enxio, cm) = refl
  cookie_taken-IsCalm d r (Errno.etimedout, cm) = refl
  cookie_taken-IsCalm d r (Errno.econnreset, cm) = refl
  cookie_taken-IsCalm d r (Errno.estale, cm) = refl
  cookie_taken-IsCalm d r (Errno.eagain, cm) = refl
  cookie_taken-IsCalm d r (Errno.econnrefused, cm) = refl
  cookie_taken-IsCalm d r (Errno.eafnosupport, cm) = refl
  cookie_taken-IsCalm d r (Errno.enobufs, cm) = refl
  cookie_taken-IsCalm d r (Errno.enomem, cm) = refl
  cookie_taken-IsCalm d r (Errno.emsgsize, cm) = refl
  cookie_taken-IsCalm d r (Errno.ebadmsg, cm) = refl

  cookie_from-IsCalm :
      (d : Device) (a : Around) (nonce ec : Bytes) (found : Option ℕ × Noise)
      → IsCalm (some (cookie_from c cookies siphash24 siphash13 nstosbt d a nonce ec found))
  cookie_from-IsCalm d a nonce ec (none, s) = refl
  cookie_from-IsCalm d a nonce ec (some r, s) = cookie_taken-IsCalm _ r _

  handle-IsCalm :
      (d : Device) (a : Around) (load : Bool) (message : Message)
      → IsInternet a.sender
      → message ≢ Message.other_message
      → IsCalm (handle c cookies siphash24 siphash13 nstosbt d a load message)
  unfolding handle
  handle-IsCalm d a load (Message.initiation s_idx ue es ets macs covered) family other =
      let v = check_macs c cookies siphash24 siphash13 nstosbt d a load macs covered in
      let d' : Device = record d { checker = v.1; limits = v.2 } in
      gate_search-IsCalm v.0 d'
        (wg_send_cookie c cookies siphash24 siphash13 nstosbt d' a macs s_idx) _
        (validate_macs-IsAnswered cookies siphash13 d.checker d.limits macs covered load a.sender
          a.vnet a.now a.memory a.secret a.random family)
        (initiated-IsCalm d' a _)
  handle-IsCalm d a load (Message.response s_idx r_idx ue en macs covered) family other =
      let v = check_macs c cookies siphash24 siphash13 nstosbt d a load macs covered in
      let d' : Device = record d { checker = v.1; limits = v.2 } in
      gate-IsCalm v.0 d' (wg_send_cookie c cookies siphash24 siphash13 nstosbt d' a macs s_idx) _
        (validate_macs-IsAnswered cookies siphash13 d.checker d.limits macs covered load a.sender
          a.vnet a.now a.memory a.secret a.random family)
        (responded-IsCalm d' _ _)
  handle-IsCalm d a load (Message.cookie_reply r_idx nonce ec) family other =
      cookie_from-IsCalm d a nonce ec _
  handle-IsCalm d a load Message.other_message family other = absurd (other refl)

  -- A message of one of the three types, from an IPv4 or IPv6 address, never makes `wg_handshake` call
  -- panic(9), whatever its macs, the load and the state of the device are. The model has no result when
  -- the random numbers for a new index run out, which is no panic either.
  pub wg_handshake-IsCalm :
      (d : Device) (a : Around) (message : Message)
      → IsInternet a.sender
      → message ≢ Message.other_message
      → IsCalm (wg_handshake c cookies siphash24 siphash13 nstosbt d a message)
  unfolding wg_handshake
  wg_handshake-IsCalm d a message family other =
      let load = under_load a.queue_len d.last_underload a.now in
      let d' : Device = record d { last_underload = load.1 } in
      elim (Bool-cases a.pulled) [
        | inl up ↦ simp up (handle-IsCalm d' a load.0 message family other)
        | inr down ↦ simp down refl
      ]
