-- ===== src/Cookie/Macs.antt =====
-- The macs of a handshake message and the cookie reply (wg_cookie.c, `struct cookie_maker` of the sender
-- and `struct cookie_checker` of the receiver). Times are readings of getsbinuptime(), which a caller
-- passes in; the bytes of arc4random_buf are arguments; BLAKE2s and XChaCha20-Poly1305 are an interface.
pub mod Reply
pub mod Gate
pub mod Answers
pub mod Tests
use wireguard_freebsd.Prelude.{
  ℕ, ◌+◌, ◌*◌, ◌-◌, ◌/◌, ◌%◌, ◌≡◌, Bool, true, false, not, ◌&&◌, List, [], ◌∷◌, ◌++◌, Option, none,
  some, ltb, replicate, list_eq, if◌then◌else◌, Errno, success, einval, eagain, etimedout,
  eafnosupport, Bytes, codes,
}
use wireguard_freebsd.Cookie.Ratelimit.{
  sbt_1s, Sockaddr, inet, inet6, other_family, Ratelimit, ratelimit_allow,
}

-- The functions of crypto.c that wg_cookie.c calls: blake2s with 32 bytes out, keyed blake2s with 16 bytes
-- out, and xchacha20poly1305_encrypt and _decrypt (text, associated data, nonce, key).
pub record CookieCrypto : Type 0 where
  pub blake2s : Bytes → Bytes
  pub blake2s_key : Bytes → Bytes → Bytes
  pub xencrypt : Bytes → Bytes → Bytes → Bytes → Bytes
  pub xdecrypt : Bytes → Bytes → Bytes → Bytes → Option Bytes

abbrev pub cookie_mac_size : ℕ
cookie_mac_size = 16

abbrev pub cookie_key_size : ℕ
cookie_key_size = 32

abbrev pub cookie_secret_max_age : ℕ
cookie_secret_max_age = 120

abbrev pub cookie_secret_latency : ℕ
cookie_secret_latency = 5

pub record Macs : Type 0 where
  pub mac1 : Bytes
  pub mac2 : Bytes

pub record Maker : Type 0 where
  pub mac1_key : Bytes
  pub cookie_key : Bytes
  pub cookie_valid : Bool
  pub cookie : Bytes
  pub cookie_birthdate : ℕ
  pub mac1_sent : Bool
  pub mac1_last : Bytes

pub record Checker : Type 0 where
  pub mac1_key : Bytes
  pub cookie_key : Bytes
  pub secret_birthdate : ℕ
  pub secret : Bytes

-- ratelimit_v4 and ratelimit_v6
pub record Limits : Type 0 where
  pub v4 : Ratelimit
  pub v6 : Ratelimit

-- timer_expired at the time `now`, of whole seconds.
abbrev pub cookie_expired : ℕ → ℕ → ℕ → Bool
cookie_expired now timer sec = ltb (timer + sec * sbt_1s) now

abbrev pub port_bytes : ℕ → Bytes
port_bytes p = p / 256 % 256 ∷ p % 256 ∷ []

module _ (c : CookieCrypto) where
  pub precompute_key : Bytes → Bytes → Bytes
  precompute_key input label = c.blake2s (label ++ input)

  pub macs_mac1 : Bytes → Bytes → Bytes
  macs_mac1 buf key = c.blake2s_key key buf

  pub macs_mac2 : Bytes → Bytes → Bytes → Bytes
  macs_mac2 buf mac1 key = c.blake2s_key key (buf ++ mac1)

  -- cookie_checker_update; `none` is a null key.
  pub checker_update : Checker → Option Bytes → Checker
  checker_update cc none = record cc {
    mac1_key = replicate cookie_key_size 0;
    cookie_key = replicate cookie_key_size 0;
  }
  checker_update cc (some key) = record cc {
    mac1_key = precompute_key key (codes "mac1----");
    cookie_key = precompute_key key (codes "cookie--");
  }

  -- cookie_maker_init
  pub maker_init : Bytes → Maker
  maker_init key = record {
    mac1_key = precompute_key key (codes "mac1----");
    cookie_key = precompute_key key (codes "cookie--");
    cookie_valid = false;
    cookie = replicate cookie_mac_size 0;
    cookie_birthdate = 0;
    mac1_sent = false;
    mac1_last = replicate cookie_mac_size 0;
  }

  -- The first half of make_cookie: a secret that is too old is replaced by the bytes `secret`.
  pub fresh_secret : Checker → ℕ → Bytes → Checker
  fresh_secret cc now secret =
      if cookie_expired now cc.secret_birthdate cookie_secret_max_age
      then record cc { secret = secret; secret_birthdate = now }
      else cc

  -- The second half; `random` is the cookie of an unknown family.
  pub cookie_of : Checker → Sockaddr → Bytes → Bytes
  cookie_of cc (inet addr port) random = c.blake2s_key cc.secret (addr ++ port_bytes port)
  cookie_of cc (inet6 addr port) random = c.blake2s_key cc.secret (addr ++ port_bytes port)
  cookie_of cc other_family random = random

  pub make_cookie : Checker → Sockaddr → ℕ → Bytes → Bytes → Bytes × Checker
  make_cookie cc sa now secret random =
      let cc' = fresh_secret cc now secret in (cookie_of cc' sa random, cc')

  -- cookie_checker_create_payload, with the encrypted cookie.
  pub create_payload : Checker → Macs → Bytes → Sockaddr → ℕ → Bytes → Bytes → Bytes × Checker
  create_payload cc macs nonce sa now secret random =
      let (cookie, cc') = make_cookie cc sa now secret random in
      (c.xencrypt cookie macs.mac1 nonce cc'.cookie_key, cc')

  -- cookie_maker_consume_payload
  pub consume_payload : Maker → Bytes → Bytes → ℕ → Errno × Maker
  consume_payload cm nonce ecookie now =
      if cm.mac1_sent
      then elim (c.xdecrypt ecookie cm.mac1_last nonce cm.cookie_key) [
        | none ↦ (einval, cm)
        | some cookie ↦ (
          success,
          record cm {
            cookie = cookie;
            cookie_birthdate = now;
            cookie_valid = true;
            mac1_sent = false;
          },
        )
      ]
      else (etimedout, cm)

  -- cookie_maker_mac, with the macs that it writes.
  pub maker_mac : Maker → Bytes → ℕ → Macs × Maker
  maker_mac cm buf now =
      let mac1 = macs_mac1 buf cm.mac1_key in
      let cm' = record cm { mac1_last = mac1; mac1_sent = true } in
      if cm.cookie_valid
        && not
            (cookie_expired now cm.cookie_birthdate (cookie_secret_max_age - cookie_secret_latency))
      then (record { mac1 = mac1; mac2 = macs_mac2 buf mac1 cm.cookie }, cm')
      else (
        record { mac1 = mac1; mac2 = replicate cookie_mac_size 0 },
        record cm' { cookie_valid = false },
      )

  module _ (siphash13 : List ℕ → List ℕ → ℕ) where
    -- The end of cookie_checker_validate_macs: what the limit of the family answers.
    pub allow : Limits → Sockaddr → ℕ → ℕ → Bool → Errno × Limits
    allow l (inet addr port) vnet now memory =
        let (e, rl) = ratelimit_allow siphash13 l.v4 (inet addr port) vnet now memory in
        (e, record l { v4 = rl })
    allow l (inet6 addr port) vnet now memory =
        let (e, rl) = ratelimit_allow siphash13 l.v6 (inet6 addr port) vnet now memory in
        (e, record l { v6 = rl })
    allow l other_family vnet now memory = (eafnosupport, l)

    -- cookie_checker_validate_macs, with the checker and the limits it leaves.
    pub validate_macs :
        Checker
        → Limits
        → Macs
        → Bytes
        → Bool
        → Sockaddr
        → ℕ
        → ℕ
        → Bool
        → Bytes
        → Bytes
        → Errno × Checker × Limits
    validate_macs cc l macs buf check_cookie sa vnet now memory secret random =
        let (cookie, cc') = make_cookie cc sa now secret random in
        let mac1 = macs_mac1 buf cc.mac1_key in
        let (e, l') = allow l sa vnet now memory in
        if list_eq mac1 macs.mac1
        then (if check_cookie
            then (if list_eq (macs_mac2 buf mac1 cookie) macs.mac2
                then (e, cc', l')
                else (eagain, cc', l))
            else (success, cc, l))
        else (einval, cc, l)
