-- ===== src/If/Handshake/Tests.antt =====
-- A device with one peer that is under load, and an initiation with the macs of its cookie.
use wireguard_freebsd.Prelude.{◌≡◌, ◌⊎◌, refl, true, [], ◌∷◌, some, Bytes}
use wireguard_freebsd.Prelude.Int.{pos}
use wireguard_freebsd.Cookie.Macs.{Macs, macs_mac1, macs_mac2, make_cookie}
use wireguard_freebsd.Cookie.Macs.Tests.{toy_cookies, checker0, limits0, maker0, client}
use wireguard_freebsd.Noise.State.{dead}
use wireguard_freebsd.Noise.Tests.{toy, noise0}
use wireguard_freebsd.If.Timers.{timers_init}
use wireguard_freebsd.If.Handshake.{Device, Around, Message, wg_handshake, under_load}
use wireguard_freebsd.If.Handshake.Panic.{IsCalm, wg_handshake-IsCalm}
use wireguard_freebsd.If.Handshake.Load.{NoiseKept, Admissible, wg_handshake_shown}

abbrev device0 : Device
device0 = record {
  noise = noise0 dead;
  checker = checker0;
  limits = limits0;
  makers = λ r. maker0;
  timers = λ r. timers_init;
  last_underload = 0;
}

abbrev around0 : Around
around0 = record {
  queue_len = 600;
  now = 5;
  noise_now = pos 1;
  later = pos 2;
  sender = client;
  vnet = 1;
  memory = true;
  pulled = true;
  secret = 8 ∷ [];
  random = 6 ∷ [];
  rands = 11 ∷ [];
  kp = some 0;
  nonce = 9 ∷ [];
  ephemeral = 5 ∷ [];
  session_now = pos 3;
  sent_now = pos 4;
  reply_now = 6;
  reply_secret = 7 ∷ [];
  reply_random = 3 ∷ [];
}

abbrev covered0 : Bytes
covered0 = 4 ∷ []

abbrev stamped : Macs
stamped =
    let mac1 = macs_mac1 toy_cookies covered0 checker0.mac1_key in
    let cookie = (make_cookie toy_cookies checker0 client 5 (8 ∷ []) (6 ∷ [])).0 in
    record { mac1 = mac1; mac2 = macs_mac2 toy_cookies covered0 mac1 cookie }

busy : (under_load 600 0 5).0 ≡ true
unfolding under_load
busy = refl

wg_handshake_shown_example :
    let first = Message.initiation 50 (1 ∷ []) (2 ∷ []) (3 ∷ []) stamped covered0 in
    NoiseKept device0.noise
      (wg_handshake toy toy_cookies (λ key x. 0) (λ key x. 5) (λ n. 86) device0 around0 first)
    ⊎ Admissible toy toy_cookies (λ key x. 0) (λ key x. 5) (λ n. 86) device0 around0 first
wg_handshake_shown_example =
    wg_handshake_shown toy toy_cookies (λ key x. 0) (λ key x. 5) (λ n. 86) device0 around0
      (Message.initiation 50 (1 ∷ []) (2 ∷ []) (3 ∷ []) stamped covered0) busy

wg_handshake-IsCalm_example : IsCalm (
    wg_handshake toy toy_cookies
      (λ key x. 0)
      (λ key x. 5)
      (λ n. 86)
      device0
      around0
      (Message.initiation 50 (1 ∷ []) (2 ∷ []) (3 ∷ []) stamped covered0))
wg_handshake-IsCalm_example =
    wg_handshake-IsCalm toy toy_cookies (λ key x. 0) (λ key x. 5) (λ n. 86) device0 around0
      (Message.initiation 50 (1 ∷ []) (2 ∷ []) (3 ∷ []) stamped covered0) tt (λ e. absurd cc)
