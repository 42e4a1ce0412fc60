-- ===== src/Cookie/Macs/Tests.antt =====
-- Primitives to compute with in place of those of crypto.c, and the theorems on cookies at concrete
-- messages.
use wireguard_freebsd.Prelude.{
  ℕ, ◌+◌, ◌*◌, ◌==◌, ==_iff, ◌≡◌, refl, true, [], ◌∷◌, Option, none, some, if◌then◌else◌, Bytes,
  Errno, success, eafnosupport,
}
use wireguard_freebsd.Cookie.Ratelimit.{Sockaddr, inet, other_family, ratelimit_init}
use wireguard_freebsd.Cookie.Macs.{
  CookieCrypto, Macs, Maker, Checker, Limits, maker_init, checker_update, maker_mac, create_payload,
  consume_payload, validate_macs, allow, make_cookie, fresh_secret, cookie_of, macs_mac1, macs_mac2,
  precompute_key,
}
use wireguard_freebsd.Cookie.Macs.Gate.{validate_macs_shown}
use wireguard_freebsd.Cookie.Macs.Reply.{IsCookieCrypto, cookie_reply}

abbrev weigh : Bytes → ℕ
weigh [] = 0
weigh (x ∷ xs) = x + 3 * weigh xs

abbrev open_reply : Bytes → ℕ → Option Bytes
open_reply [] t = none
open_reply (x ∷ xs) t = if x == t then some xs else none

abbrev seal : Bytes → Bytes → Bytes → ℕ
seal ad nonce key = weigh ad + 5 * weigh nonce + 7 * weigh key

abbrev pub toy_cookies : CookieCrypto
toy_cookies = record {
  blake2s = λ x. (1 + weigh x) ∷ [];
  blake2s_key = λ key x. (2 + weigh key + 11 * weigh x) ∷ [];
  xencrypt = λ plain ad nonce key. seal ad nonce key ∷ plain;
  xdecrypt = λ box ad nonce key. open_reply box (seal ad nonce key);
}

open_reply_same : (t : ℕ) (xs : Bytes) → open_reply (t ∷ xs) t ≡ some xs
open_reply_same t xs = rw ((==_iff t t).1 refl)

toy_cookies_law : IsCookieCrypto toy_cookies
toy_cookies_law = record {
  xdecrypt-xencrypt = λ plain ad nonce key. open_reply_same (seal ad nonce key) plain;
}

abbrev pub maker0 : Maker
maker0 = maker_init toy_cookies (7 ∷ [])

abbrev pub checker0 : Checker
checker0 =
    checker_update toy_cookies
      (record { mac1_key = []; cookie_key = []; secret_birthdate = 0; secret = [] }) (some (7 ∷ []))

abbrev pub limits0 : Limits
limits0 = record { v4 = ratelimit_init (1 ∷ []); v6 = ratelimit_init (2 ∷ []) }

abbrev pub client : Sockaddr
client = inet (10 ∷ 0 ∷ 0 ∷ 1 ∷ []) 51820

cookie_reply_example :
    let first = maker_mac toy_cookies maker0 (4 ∷ []) 1 in
    let reply = create_payload toy_cookies checker0 first.0 (9 ∷ []) client 2 (8 ∷ []) (6 ∷ []) in
    let took = consume_payload toy_cookies first.1 (9 ∷ []) reply.0 3 in
    let second = maker_mac toy_cookies took.1 (5 ∷ []) 4 in
    (took.0 ≡ success)
    × ((validate_macs toy_cookies
          (λ key x. 5)
          reply.1
          limits0
          second.0
          (5 ∷ [])
          true
          client
          1
          5
          true
          (3 ∷ [])
          (2 ∷ [])).0
        ≡ (allow toy_cookies (λ key x. 5) limits0 client 1 5 true).0)
unfolding maker_init checker_update fresh_secret
cookie_reply_example =
    cookie_reply toy_cookies toy_cookies_law (λ key x. 5) maker0 checker0 limits0 client (4 ∷ [])
      (5 ∷ []) (9 ∷ []) (8 ∷ []) (3 ∷ []) (6 ∷ []) (2 ∷ []) 1 true 1 2 3 4 5 refl refl
      (λ e. absurd cc) refl refl

-- A message from an address of an unknown family, with the macs of the cookie that was drawn.
abbrev macs0 : Macs
macs0 = record {
  mac1 = macs_mac1 toy_cookies (4 ∷ []) checker0.mac1_key;
  mac2 = macs_mac2 toy_cookies (4 ∷ []) (macs_mac1 toy_cookies (4 ∷ []) checker0.mac1_key) (6 ∷ []);
}

abbrev answer0 : Errno × Checker × Limits
answer0 =
    validate_macs toy_cookies (λ key x. 5) checker0 limits0 macs0 (4 ∷ []) true other_family 1 5
      true (8 ∷ []) (6 ∷ [])

answer0_is : answer0.0 ≡ eafnosupport
unfolding validate_macs make_cookie fresh_secret cookie_of allow macs_mac1 macs_mac2 checker_update
    precompute_key
answer0_is = refl

validate_macs_shown_example :
    (macs_mac1 toy_cookies (4 ∷ []) checker0.mac1_key ≡ macs0.mac1)
    × (macs_mac2 toy_cookies
          (4 ∷ [])
          (macs_mac1 toy_cookies (4 ∷ []) checker0.mac1_key)
          (make_cookie toy_cookies checker0 other_family 5 (8 ∷ []) (6 ∷ [])).0
        ≡ macs0.mac2)
    × (answer0 ≡ (
      (allow toy_cookies (λ key x. 5) limits0 other_family 1 5 true).0,
      (make_cookie toy_cookies checker0 other_family 5 (8 ∷ []) (6 ∷ [])).1,
      (allow toy_cookies (λ key x. 5) limits0 other_family 1 5 true).1,
    ))
validate_macs_shown_example =
    validate_macs_shown toy_cookies (λ key x. 5) checker0 limits0 macs0 (4 ∷ []) other_family 1 5
      true (8 ∷ []) (6 ∷ []) (rw answer0_is (λ e. absurd cc)) (rw answer0_is (λ e. absurd cc))
