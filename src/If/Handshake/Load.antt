-- ===== src/If/Handshake/Load.antt =====
-- What a handshake message under load has shown before it reaches the handshake of the noise layer.
use wireguard_freebsd.Prelude.{
  ℕ, ◌≡◌, ◌≢◌, refl, sym, ap, ◌∙◌, ◌⊎◌, inl, inr, Bool, true, List, Option, none, some, Bytes,
  Errno, success, Bool-cases, arith,
}
use wireguard_freebsd.Cookie.Macs.{
  CookieCrypto, Macs, Checker, Limits, macs_mac1, macs_mac2, make_cookie, allow,
}
use wireguard_freebsd.Cookie.Macs.Gate.{validate_macs_shown}
use wireguard_freebsd.Noise.Crypto.{Crypto}
use wireguard_freebsd.Noise.State.{Noise}
use wireguard_freebsd.Noise.Index.{remote_index_lookup, remote_acquire}
use wireguard_freebsd.If.Handshake.{
  Device, Around, Action, Message, under_load, check_macs, gate_search, gate, cookie_from, handle,
  wg_handshake,
}

-- A message was handled, and the noise layer of the device is `s` after it.
abbrev pub NoiseKept : Noise → Option (Device × List Action) → Type 0
NoiseKept s none = ⊥
NoiseKept s (some (d, actions)) = d.noise ≡ s

-- The answers of the checker: one lets the message through.
gate_cases :
    (e : Errno) (d : Device) (reply : Checker × Bytes) (go_on : Option (Device × List Action))
    → (e ≡ success) ⊎ NoiseKept d.noise (gate_search e d reply go_on)
gate_cases Errno.success d reply go_on = inl refl
gate_cases Errno.einval d reply go_on = inr refl
gate_cases Errno.eexist d reply go_on = inr refl
gate_cases Errno.enoent d reply go_on = inr refl
gate_cases Errno.enospc d reply go_on = inr refl
gate_cases Errno.enxio d reply go_on = inr refl
gate_cases Errno.etimedout d reply go_on = inr refl
gate_cases Errno.econnreset d reply go_on = inr refl
gate_cases Errno.estale d reply go_on = inr refl
gate_cases Errno.eagain d reply go_on = inr refl
gate_cases Errno.econnrefused d reply go_on = inr refl
gate_cases Errno.eafnosupport d reply go_on = inr refl
gate_cases Errno.enobufs d reply go_on = inr refl
gate_cases Errno.enomem d reply go_on = inr refl
gate_cases Errno.emsgsize d reply go_on = inr refl
gate_cases Errno.ebadmsg d reply go_on = inr refl

-- A lookup that finds nothing changes nothing.
lookup_or_kept :
    (s : Noise) (idx : ℕ) (lookup_keypair : Bool)
    → let out = remote_index_lookup s idx lookup_keypair in (out.0 ≢ none) ⊎ (out.1 ≡ s)
unfolding remote_index_lookup remote_acquire
lookup_or_kept s idx lookup_keypair = ground arith

-- The same for a response.
response_cases :
    (e : Errno) (d : Device) (reply : Checker × Bytes) (go_on : Device × List Action)
    → (e ≡ success) ⊎ ((gate e d reply go_on).0.noise ≡ d.noise)
response_cases Errno.success d reply go_on = inl refl
response_cases Errno.einval d reply go_on = inr refl
response_cases Errno.eexist d reply go_on = inr refl
response_cases Errno.enoent d reply go_on = inr refl
response_cases Errno.enospc d reply go_on = inr refl
response_cases Errno.enxio d reply go_on = inr refl
response_cases Errno.etimedout d reply go_on = inr refl
response_cases Errno.econnreset d reply go_on = inr refl
response_cases Errno.estale d reply go_on = inr refl
response_cases Errno.eagain d reply go_on = inr refl
response_cases Errno.econnrefused d reply go_on = inr refl
response_cases Errno.eafnosupport d reply go_on = inr refl
response_cases Errno.enobufs d reply go_on = inr refl
response_cases Errno.enomem d reply go_on = inr refl
response_cases Errno.emsgsize d reply go_on = inr refl
response_cases Errno.ebadmsg d reply go_on = inr refl

module _ (c : Crypto) (cookies : CookieCrypto) (siphash24 : Bytes → Bytes → ℕ)
    (siphash13 : List ℕ → List ℕ → ℕ) (nstosbt : ℕ → ℕ) where
  -- What the macs of an initiation say and what the limit of its sender answers.
  abbrev pub MacsHold : Device → Around → Bytes → Macs → Type 0
  MacsHold d a covered macs =
      let mac1 = macs_mac1 cookies covered d.checker.mac1_key in
      (mac1 ≡ macs.mac1)
      × (macs_mac2 cookies covered mac1
            (make_cookie cookies d.checker a.sender a.now a.secret a.random).0
          ≡ macs.mac2)
      × ((allow cookies siphash13 d.limits a.sender a.vnet a.now a.memory).0 ≡ success)

  success_lem :
      (d : Device) (a : Around) (covered : Bytes) (macs : Macs)
      → (check_macs c cookies siphash24 siphash13 nstosbt d a true macs covered).0 ≡ success
      → MacsHold d a covered macs
  success_lem d a covered macs e =
      let h =
        validate_macs_shown cookies siphash13 d.checker d.limits macs covered a.sender a.vnet a.now
          a.memory a.secret a.random (λ k. absurd cc) (λ k. absurd cc) in
      (h.0, h.1, sym (ap (λ (t : Errno × Checker × Limits). t.0) h.2) ∙ e)

  -- What `message` has to show before it reaches the noise layer.
  abbrev pub Admissible : Device → Around → Message → Type 0
  Admissible d a (Message.initiation s_idx ue es ets macs covered) = MacsHold d a covered macs
  Admissible d a (Message.response s_idx r_idx ue en macs covered) = MacsHold d a covered macs
  Admissible d a (Message.cookie_reply r_idx nonce ec) =
      (remote_index_lookup d.noise r_idx true).0 ≢ none
  Admissible d a Message.other_message = ⊥

  cookie_kept :
      (d : Device) (a : Around) (nonce ec : Bytes) (found : Option ℕ × Noise)
      → (found.0 ≢ none) ⊎ (found.1 ≡ d.noise)
      → NoiseKept d.noise
          (some (cookie_from c cookies siphash24 siphash13 nstosbt d a nonce ec found))
        ⊎ (found.0 ≢ none)
  cookie_kept d a nonce ec (none, s) (inl h) = absurd (h refl)
  cookie_kept d a nonce ec (none, s) (inr h) = inl h
  cookie_kept d a nonce ec (some r, s) h = inr (λ e. absurd cc)

  handle_shown :
      (d : Device) (a : Around) (message : Message)
      → NoiseKept d.noise (handle c cookies siphash24 siphash13 nstosbt d a true message)
        ⊎ Admissible d a message
  unfolding handle
  handle_shown d a (Message.initiation s_idx ue es ets macs covered) =
      let v = check_macs c cookies siphash24 siphash13 nstosbt d a true macs covered in
      let kept : Device = record d { checker = v.1; limits = v.2 } in
      elim (gate_cases v.0 kept _ _) [
        | inl e ↦ inr (success_lem d a covered macs e)
        | inr h ↦ inl h
      ]
  handle_shown d a (Message.response s_idx r_idx ue en macs covered) =
      let v = check_macs c cookies siphash24 siphash13 nstosbt d a true macs covered in
      let kept : Device = record d { checker = v.1; limits = v.2 } in
      elim (response_cases v.0 kept _ _) [
        | inl e ↦ inr (success_lem d a covered macs e)
        | inr h ↦ inl h
      ]
  handle_shown d a (Message.cookie_reply r_idx nonce ec) =
      cookie_kept d a nonce ec (remote_index_lookup d.noise r_idx true)
        (lookup_or_kept d.noise r_idx true)
  handle_shown d a Message.other_message = inl refl

  -- A message that `wg_handshake` takes from the queue while the interface is under load leaves the noise
  -- layer as it was, unless the message has shown this. An initiation or a response: that its first mac
  -- is that of the checker's key, that its second mac is that of the cookie for the address it comes
  -- from, and that the rate limit of that address grants it. A cookie: that its index is that of a
  -- peer.
  pub wg_handshake_shown :
      (d : Device) (a : Around) (message : Message)
      → (under_load a.queue_len d.last_underload a.now).0 ≡ true
      → NoiseKept d.noise (wg_handshake c cookies siphash24 siphash13 nstosbt d a message)
        ⊎ Admissible d a message
  unfolding wg_handshake
  wg_handshake_shown d a message load =
      let last = (under_load a.queue_len d.last_underload a.now).1 in
      elim (Bool-cases a.pulled) [
        | inl up ↦
            simp (up, load)
              (same d a last message (handle_shown (record d { last_underload = last }) a message))
        | inr down ↦ simp (down) (inl refl)
      ]
    where
      same :
          {A : Type 0} (d : Device) (a : Around) (last : ℕ) (message : Message)
          → A ⊎ Admissible (record d { last_underload = last }) a message
          → A ⊎ Admissible d a message
      same d a last (Message.initiation s_idx ue es ets macs covered) h = h
      same d a last (Message.response s_idx r_idx ue en macs covered) h = h
      same d a last (Message.cookie_reply r_idx nonce ec) h = h
      same d a last Message.other_message h = h
