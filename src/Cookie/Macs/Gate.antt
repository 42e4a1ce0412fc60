-- ===== src/Cookie/Macs/Gate.antt =====
-- What a handshake message has shown when it is let through.
use wireguard_freebsd.Prelude.{
  ℕ, ◌≢◌, ap₂, ◌≡◌, refl, Bool, true, false, List, list_eq, list_eq_iff, if◌then◌else◌, Errno,
  einval, eagain, Bytes,
}
use wireguard_freebsd.Cookie.Ratelimit.{Sockaddr}
use wireguard_freebsd.Cookie.Macs.{
  CookieCrypto, Macs, Checker, Limits, macs_mac1, macs_mac2, make_cookie, allow, validate_macs,
}

shown :
    (b b' : Bool) (x y z : Errno × Checker × Limits)
    → (if b then (if b' then x else y) else z).0 ≢ y.0
    → (if b then (if b' then x else y) else z).0 ≢ z.0
    → (b ≡ true) × (b' ≡ true) × ((if b then (if b' then x else y) else z) ≡ x)
shown true true x y z h k = (refl, refl, refl)
shown true false x y z h k = absurd (h refl)
shown false b' x y z h k = absurd (k refl)

module _ (c : CookieCrypto) (siphash13 : List ℕ → List ℕ → ℕ) where
  -- Under load, a message that is answered with neither EINVAL nor EAGAIN has shown that its first mac is
  -- that of the checker's key and its second mac that of the cookie for the address it comes from, and
  -- the answer and the new limits are those of the rate limit of that address.
  pub validate_macs_shown :
      (chk : Checker) (l : Limits) (macs : Macs) (buf : Bytes) (sa : Sockaddr) (vnet now : ℕ)
      (memory : Bool) (secret random : Bytes)
      → (validate_macs c siphash13 chk l macs buf true sa vnet now memory secret random).0 ≢ eagain
      → (validate_macs c siphash13 chk l macs buf true sa vnet now memory secret random).0 ≢ einval
      → (macs_mac1 c buf chk.mac1_key ≡ macs.mac1)
        × (macs_mac2 c buf (macs_mac1 c buf chk.mac1_key) (make_cookie c chk sa now secret random).0
            ≡ macs.mac2)
        × (validate_macs c siphash13 chk l macs buf true sa vnet now memory secret random ≡ (
          (allow c siphash13 l sa vnet now memory).0,
          (make_cookie c chk sa now secret random).1,
          (allow c siphash13 l sa vnet now memory).1,
        ))
  unfolding validate_macs
  validate_macs_shown chk l macs buf sa vnet now memory secret random e e' =
      let cookie = make_cookie c chk sa now secret random in
      let mac1 = macs_mac1 c buf chk.mac1_key in
      let asked = allow c siphash13 l sa vnet now memory in
      let h =
        shown (list_eq mac1 macs.mac1) (list_eq (macs_mac2 c buf mac1 cookie.0) macs.mac2)
          (asked.0, cookie.1, asked.1) (eagain, cookie.1, l) (einval, chk, l) e e' in
      ((list_eq_iff _ _).0 h.0, (list_eq_iff _ _).0 h.1, h.2)

  -- A message with both macs right is answered by the rate limit.
  pub validate_macs_ok :
      (chk : Checker) (l : Limits) (macs : Macs) (buf : Bytes) (sa : Sockaddr) (vnet now : ℕ)
      (memory : Bool) (secret random : Bytes)
      → macs_mac1 c buf chk.mac1_key ≡ macs.mac1
      → macs_mac2 c buf (macs_mac1 c buf chk.mac1_key) (make_cookie c chk sa now secret random).0
        ≡ macs.mac2
      → (validate_macs c siphash13 chk l macs buf true sa vnet now memory secret random).0
        ≡ (allow c siphash13 l sa vnet now memory).0
  unfolding validate_macs
  validate_macs_ok chk l macs buf sa vnet now memory secret random e e' =
      let cookie = make_cookie c chk sa now secret random in
      let asked = allow c siphash13 l sa vnet now memory in
      let out : Bool → Bool → Errno × Checker × Limits = λ b b'.
        (if b
          then (if b' then (asked.0, cookie.1, asked.1) else (eagain, cookie.1, l))
          else (einval, chk, l)) in
      ap₂ (λ b b'. (out b b').0) ((list_eq_iff _ _).1 e) ((list_eq_iff _ _).1 e')
