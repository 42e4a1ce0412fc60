-- ===== src/Cookie/Macs/Reply.antt =====
-- A cookie reply reaches the sender, and its next message passes the check of its second mac.
use wireguard_freebsd.Prelude.{
  if_cases, etimedout, ap₂, ◌≢◌, ℕ, ◌-◌, ◌≡◌, refl, sym, ap, ◌∙◌, Bool, true, false, not, ◌&&◌,
  List, if◌then◌else◌, Option, none, some, Errno, success, einval, Bytes,
}
use wireguard_freebsd.Cookie.Ratelimit.{Sockaddr, inet, inet6, other_family}
use wireguard_freebsd.Cookie.Macs.Gate.{validate_macs_ok}
use wireguard_freebsd.Cookie.Macs.{
  CookieCrypto, Macs, Maker, Checker, Limits, cookie_expired, cookie_secret_max_age,
  cookie_secret_latency, macs_mac1, macs_mac2, make_cookie, fresh_secret, cookie_of, create_payload,
  consume_payload, maker_mac, allow, validate_macs,
}

-- What the documentation of XChaCha20-Poly1305 promises.
pub record IsCookieCrypto (c : CookieCrypto) : Type 0 where
  pub xdecrypt-xencrypt :
      (plain ad nonce key : Bytes)
      → c.xdecrypt (c.xencrypt plain ad nonce key) ad nonce key ≡ some plain

module _ (c : CookieCrypto) (law : IsCookieCrypto c) where
  maker_mac_first :
      (cm : Maker) (buf : Bytes) (now : ℕ)
      → ((maker_mac c cm buf now).0.mac1 ≡ macs_mac1 c buf cm.mac1_key)
        × ((maker_mac c cm buf now).1.mac1_last ≡ macs_mac1 c buf cm.mac1_key)
        × ((maker_mac c cm buf now).1.mac1_sent ≡ true)
        × ((maker_mac c cm buf now).1.mac1_key ≡ cm.mac1_key)
        × ((maker_mac c cm buf now).1.cookie_key ≡ cm.cookie_key)
  unfolding maker_mac
  maker_mac_first cm buf now =
      if_cases
        (λ (out : Macs × Maker).
          (out.0.mac1 ≡ macs_mac1 c buf cm.mac1_key)
          × (out.1.mac1_last ≡ macs_mac1 c buf cm.mac1_key)
          × (out.1.mac1_sent ≡ true)
          × (out.1.mac1_key ≡ cm.mac1_key)
          × (out.1.cookie_key ≡ cm.cookie_key))
        (cm.cookie_valid
          && not (
              cookie_expired now cm.cookie_birthdate
                (cookie_secret_max_age - cookie_secret_latency)))
        _ _ (refl, refl, refl, refl, refl) (refl, refl, refl, refl, refl)

  -- The maker that has taken a cookie.
  abbrev with_cookie : Maker → Bytes → ℕ → Maker
  with_cookie cm cookie now = record cm {
    cookie = cookie;
    cookie_birthdate = now;
    cookie_valid = true;
    mac1_sent = false;
  }

  consume_payload_ok :
      (cm : Maker) (nonce cookie ad key : Bytes) (now : ℕ)
      → cm.mac1_sent ≡ true
      → cm.mac1_last ≡ ad
      → cm.cookie_key ≡ key
      → consume_payload c cm nonce (c.xencrypt cookie ad nonce key) now
        ≡ (success, with_cookie cm cookie now)
  unfolding consume_payload
  consume_payload_ok cm nonce cookie ad key now sent last same =
      let box = c.xencrypt cookie ad nonce key in
      let opened : Option Bytes → Errno × Maker =
        λ o. elim o [ none ↦ (einval, cm) | some x ↦ (success, with_cookie cm x now) ] in
      ap
        (λ b.
          if b then opened (c.xdecrypt box cm.mac1_last nonce cm.cookie_key) else (etimedout, cm))
        sent
      ∙ ap opened (
          ap (λ a. c.xdecrypt box a nonce cm.cookie_key) last
          ∙ ap (λ k. c.xdecrypt box ad nonce k) same
          ∙ law.xdecrypt-xencrypt cookie ad nonce key)

  maker_mac_second :
      (cm : Maker) (cookie buf : Bytes) (then' now : ℕ)
      → cookie_expired now then' (cookie_secret_max_age - cookie_secret_latency) ≡ false
      → (maker_mac c (with_cookie cm cookie then') buf now).0 ≡ record {
        mac1 = macs_mac1 c buf cm.mac1_key;
        mac2 = macs_mac2 c buf (macs_mac1 c buf cm.mac1_key) cookie;
      }
  unfolding maker_mac
  maker_mac_second cm cookie buf then' now h = rw (maker_mac, h)

  cookie_of_same :
      (chk : Checker) (sa : Sockaddr) (r r' : Bytes)
      → sa ≢ other_family
      → cookie_of c chk sa r ≡ cookie_of c chk sa r'
  unfolding cookie_of
  cookie_of_same chk (inet addr port) r r' h = refl
  cookie_of_same chk (inet6 addr port) r r' h = refl
  cookie_of_same chk other_family r r' h = absurd (h refl)

  fresh_secret-keys :
      (chk : Checker) (now : ℕ) (secret : Bytes)
      → ((fresh_secret c chk now secret).mac1_key ≡ chk.mac1_key)
        × ((fresh_secret c chk now secret).cookie_key ≡ chk.cookie_key)
  unfolding fresh_secret
  fresh_secret-keys chk now secret =
      if_cases (λ (d : Checker). (d.mac1_key ≡ chk.mac1_key) × (d.cookie_key ≡ chk.cookie_key))
        (cookie_expired now chk.secret_birthdate cookie_secret_max_age) _ _ (refl, refl)
        (refl, refl)

  fresh_secret_young :
      (chk : Checker) (now : ℕ) (secret : Bytes)
      → cookie_expired now chk.secret_birthdate cookie_secret_max_age ≡ false
      → fresh_secret c chk now secret ≡ chk
  unfolding fresh_secret
  fresh_secret_young chk now secret h =
      ap (λ b. if b then record chk { secret = secret; secret_birthdate = now } else chk) h

  -- A sender and a checker hold the same keys, and the checker is under load. The checker answers a
  -- message of the sender with a cookie, and the sender takes it, if the cipher decrypts what it
  -- encrypted. The next message that the sender makes with that cookie, less than 115 seconds old,
  -- from the same IPv4 or IPv6 address, gets from the checker the answer of the rate limit, if the
  -- checker's secret is not more than 120 seconds old.
  pub cookie_reply :
      (siphash13 : List ℕ → List ℕ → ℕ) (cm : Maker) (chk : Checker) (l : Limits) (sa : Sockaddr)
      (buf buf' nonce secret secret' random random' : Bytes) (vnet : ℕ) (memory : Bool)
      (sent replied taken again checked : ℕ)
      → cm.mac1_key ≡ chk.mac1_key
      → cm.cookie_key ≡ chk.cookie_key
      → sa ≢ other_family
      → cookie_expired again taken (cookie_secret_max_age - cookie_secret_latency) ≡ false
      → cookie_expired checked
          (fresh_secret c chk replied secret).secret_birthdate
          cookie_secret_max_age
        ≡ false
      → let first = maker_mac c cm buf sent in
        let reply = create_payload c chk first.0 nonce sa replied secret random in
        let took = consume_payload c first.1 nonce reply.0 taken in
        let second = maker_mac c took.1 buf' again in
        (took.0 ≡ success)
        × ((validate_macs c siphash13 reply.1 l second.0 buf' true sa vnet checked memory secret'
              random').0
            ≡ (allow c siphash13 l sa vnet checked memory).0)
  unfolding create_payload make_cookie
  cookie_reply siphash13 cm chk l sa buf buf' nonce secret secret' random random' vnet memory sent
        replied taken again checked same1 same2 known young keeps =
      let first = maker_mac c cm buf sent in
      let f = maker_mac_first cm buf sent in
      let chk' = fresh_secret c chk replied secret in
      let keys = fresh_secret-keys chk replied secret in
      let cookie = cookie_of c chk' sa random in
      let box = c.xencrypt cookie first.0.mac1 nonce chk'.cookie_key in
      let took =
        consume_payload_ok first.1 nonce cookie first.0.mac1 chk'.cookie_key taken f.2
          (f.1 ∙ sym f.0) (f.4 ∙ same2 ∙ sym keys.1) in
      let second : (maker_mac c (consume_payload c first.1 nonce box taken).1 buf' again).0
          ≡ record {
            mac1 = macs_mac1 c buf' first.1.mac1_key;
            mac2 = macs_mac2 c buf' (macs_mac1 c buf' first.1.mac1_key) cookie;
          } =
        ap (λ (q : Errno × Maker). (maker_mac c q.1 buf' again).0) took
        ∙ maker_mac_second first.1 cookie buf' taken again young in
      let key : chk'.mac1_key ≡ first.1.mac1_key = keys.0 ∙ sym same1 ∙ sym f.3 in
      let cookie' : (make_cookie c chk' sa checked secret' random').0 ≡ cookie =
        ap (λ d. cookie_of c d sa random') (fresh_secret_young chk' checked secret' keeps)
        ∙ cookie_of_same chk' sa random' random known in
      let mac1 : macs_mac1 c buf' chk'.mac1_key ≡ macs_mac1 c buf' first.1.mac1_key =
        ap (macs_mac1 c buf') key in
      (
        ap (λ (q : Errno × Maker). q.0) took,
        validate_macs_ok c siphash13 chk' l _ buf' sa vnet checked memory secret' random'
            (mac1 ∙ sym (ap (λ (m : Macs). m.mac1) second))
            (ap₂ (macs_mac2 c buf') mac1 cookie' ∙ sym (ap (λ (m : Macs). m.mac2) second)),
      )
