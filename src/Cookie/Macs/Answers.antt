-- ===== src/Cookie/Macs/Answers.antt =====
-- What cookie_checker_validate_macs answers to an address of a family that it knows.
use wireguard_freebsd.Prelude.{
  ℕ, Bool, true, false, List, Bytes, Errno, list_eq, if◌then◌else◌, success, einval, eagain,
}
use wireguard_freebsd.Cookie.Ratelimit.{Sockaddr, inet, inet6, other_family}
use wireguard_freebsd.Cookie.Ratelimit.Answers.{IsAnswer, ratelimit_allow-IsAnswer}
use wireguard_freebsd.Cookie.Macs.{
  CookieCrypto, Macs, Checker, Limits, allow, make_cookie, macs_mac1, macs_mac2, validate_macs,
}

-- The answers 0, EINVAL, EAGAIN and ECONNREFUSED.
abbrev pub IsAnswered : Errno → Type 0
IsAnswered Errno.success = Unit {0}
IsAnswered Errno.einval = Unit {0}
IsAnswered Errno.eagain = Unit {0}
IsAnswered Errno.econnrefused = Unit {0}
IsAnswered _ = ⊥

abbrev pub IsInternet : Sockaddr → Type 0
IsInternet (inet addr port) = Unit {0}
IsInternet (inet6 addr port) = Unit {0}
IsInternet other_family = ⊥

answer-IsAnswered : (e : Errno) → IsAnswer e → IsAnswered e
answer-IsAnswered Errno.success h = tt
answer-IsAnswered Errno.einval h = absurd h
answer-IsAnswered Errno.eexist h = absurd h
answer-IsAnswered Errno.enoent h = absurd h
answer-IsAnswered Errno.enospc h = absurd h
answer-IsAnswered Errno.enxio h = absurd h
answer-IsAnswered Errno.etimedout h = absurd h
answer-IsAnswered Errno.econnreset h = absurd h
answer-IsAnswered Errno.estale h = absurd h
answer-IsAnswered Errno.eagain h = absurd h
answer-IsAnswered Errno.econnrefused h = tt
answer-IsAnswered Errno.eafnosupport h = absurd h
answer-IsAnswered Errno.enobufs h = absurd h
answer-IsAnswered Errno.enomem h = absurd h
answer-IsAnswered Errno.emsgsize h = absurd h
answer-IsAnswered Errno.ebadmsg h = absurd h

module _ (c : CookieCrypto) (siphash13 : List ℕ → List ℕ → ℕ) where
  allow-IsAnswered :
      (l : Limits) (sa : Sockaddr) (vnet now : ℕ) (memory : Bool)
      → IsInternet sa
      → IsAnswered (allow c siphash13 l sa vnet now memory).0
  unfolding allow
  allow-IsAnswered l (inet addr port) vnet now memory h =
      answer-IsAnswered _ (ratelimit_allow-IsAnswer siphash13 l.v4 (inet addr port) vnet now memory)
  allow-IsAnswered l (inet6 addr port) vnet now memory h =
      answer-IsAnswered _
        (ratelimit_allow-IsAnswer siphash13 l.v6 (inet6 addr port) vnet now memory)
  allow-IsAnswered l other_family vnet now memory h = absurd h

  gates :
      (b load b' : Bool) (x y z w : Errno × Checker × Limits)
      → IsAnswered x.0
      → IsAnswered y.0
      → IsAnswered z.0
      → IsAnswered w.0
      → IsAnswered (if b then (if load then (if b' then x else y) else z) else w).0
  gates true true true x y z w h i j k = h
  gates true true false x y z w h i j k = i
  gates true false b' x y z w h i j k = j
  gates false load b' x y z w h i j k = k

  pub validate_macs-IsAnswered :
      (chk : Checker) (l : Limits) (macs : Macs) (buf : Bytes) (load : Bool) (sa : Sockaddr)
      (vnet now : ℕ) (memory : Bool) (secret random : Bytes)
      → IsInternet sa
      → IsAnswered
          (validate_macs c siphash13 chk l macs buf load sa vnet now memory secret random).0
  unfolding validate_macs
  validate_macs-IsAnswered chk l macs buf load sa vnet now memory secret random h =
      let cookie = make_cookie c chk sa now secret random in
      let mac1 = macs_mac1 c buf chk.mac1_key in
      let asked = allow c siphash13 l sa vnet now memory in
      gates (list_eq mac1 macs.mac1) load (list_eq (macs_mac2 c buf mac1 cookie.0) macs.mac2)
        (asked.0, cookie.1, asked.1) (eagain, cookie.1, l) (success, chk, l) (einval, chk, l)
        (allow-IsAnswered l sa vnet now memory h) tt tt tt
