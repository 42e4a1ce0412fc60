-- ===== src/Noise/Handshake.antt =====
-- The four handshake functions of wg_noise.c, with the checks and updates of the remote around the
-- cryptographic scripts. `none` says that the numbers of arc4random were all in use (Noise/Index); an
-- error result comes with the state it leaves, since some errors come after a store.
pub mod Replay
pub mod Session
use wireguard_freebsd.Prelude.{
  ℕ, ◌+◌, ◌-◌, ◌*◌, ◌/◌, ◌%◌, ◌^◌, ◌==◌, ltb, Bool, true, false, not, ◌&&◌, List, [], ◌∷◌, ◌++◌,
  Option, none, some, zero, suc, if◌then◌else◌, Errno, success, einval, Bytes, Result, ok, err,
  list_eq,
}
use wireguard_freebsd.Prelude.Int.{ℤ}
use wireguard_freebsd.Noise.State.{
  Noise, Remote, HandshakeState, initiator, responder, is_initiating, is_responding, set_remote,
  timer_expired, seconds, rekey_timeout, reject_interval,
}
use wireguard_freebsd.Noise.Crypto.{Crypto}
use wireguard_freebsd.Noise.Symmetric.{Handshake, no_handshake}
use wireguard_freebsd.Noise.Script.{
  create_initiation_script, consume_static_script, consume_timestamp_script, create_response_script,
  consume_response_script,
}
use wireguard_freebsd.Noise.Index.{
  remote_index_insert, remote_index_lookup, remote_acquire, remote_ref, remote_put,
}
use wireguard_freebsd.Noise.Keypair.{begin_session}

-- memcmp(a, b, n) > 0, of two strings of `n` bytes.
pub memcmp_gt : Bytes → Bytes → Bool
memcmp_gt [] ys = false
memcmp_gt (x ∷ xs) [] = true
memcmp_gt (x ∷ xs) (y ∷ ys) = let rest = memcmp_gt xs ys in if x == y then rest else ltb y x

-- The `n` bytes of a number, the highest first.
pub be_bytes : ℕ → ℕ → Bytes
be_bytes zero x = []
be_bytes (suc n) x = x / 256 ^ n % 256 ∷ be_bytes n x

-- noise_tai64n_now, at the time that getnanotime tells: 12 bytes. The mask REJECT_INTERVAL_MASK clears the
-- low 24 bits.
pub tai64n_now : ℕ → ℕ → Bytes
tai64n_now tv_sec tv_nsec =
    be_bytes 8 ((4611686018427387914 + tv_sec) % 2 ^ 64)
    ++ be_bytes 4 ((tv_nsec - tv_nsec % 2 ^ 24) % 2 ^ 32)

-- HT_REMOTE_SIZE
abbrev pub ht_remote_size : ℕ
ht_remote_size = 2048

-- The first remote of a list with a public key.
unfoldable pub find_remote : Noise → Bytes → List ℕ → Option ℕ
find_remote s key [] = none
find_remote s key (r ∷ rs) =
    let rest = find_remote s key rs in if list_eq (s.remotes r).public key then some r else rest

-- noise_remote_lookup
unfoldable pub remote_lookup : (Bytes → Bytes → ℕ) → Noise → Bytes → Option ℕ × Noise
remote_lookup siphash24 s key =
    elim (find_remote s key (s.remote_hash (siphash24 s.hash_key key % ht_remote_size))) [
      | none ↦ (none, s)
      | some r ↦ remote_acquire s r
    ]

-- The end of noise_create_initiation, once the message is made.
pub initiated :
    Noise
    → ℕ
    → List ℕ
    → ℤ
    → Bytes × Bytes × Bytes
    → Option (Result (ℕ × Bytes × Bytes × Bytes) × Noise)
initiated s r rands now msg = elim (remote_index_insert s r rands) [
  | none ↦ none
  | some s' ↦
      let v = s'.remotes r in
      some (
        ok (v.index.local_index, msg.0, msg.1, msg.2),
        set_remote s' r (record v { handshake_state = initiator; last_sent = now }),
      )
]

-- The remote takes over the handshake of the initiation.
pub respond : Noise → ℕ → ℕ → Handshake → Noise
respond s r s_idx hs =
    let w = s.remotes r in
    remote_ref
      (set_remote s r (record w {
        index = record w.index { remote_index = s_idx };
        handshake_state = responder;
        handshake = hs;
      }))
      r

-- noise_consume_initiation from the check against floods on.
pub admit_initiation :
    (ℕ → ℕ) → Noise → ℕ → ℕ → Handshake → List ℕ → ℤ → ℤ → Option (Result ℕ × Noise)
admit_initiation nstosbt s r s_idx hs rands now now' =
    let v = s.remotes r in
    let s' = set_remote s r (record v { last_init_recv = now' }) in
    let inserted = remote_index_insert s' r rands in
    if timer_expired now v.last_init_recv (nstosbt reject_interval)
    then elim inserted [ none ↦ none | some s'' ↦ some (ok r, respond s'' r s_idx hs) ]
    else some (err einval, s)

-- … from the check against replays on.
pub accept_initiation :
    (ℕ → ℕ) → Noise → ℕ → ℕ → Handshake → Bytes → List ℕ → ℤ → ℤ → Option (Result ℕ × Noise)
accept_initiation nstosbt s r s_idx hs timestamp rands now now' =
    let v = s.remotes r in
    let s' = set_remote s r (record v { timestamp = timestamp }) in
    if memcmp_gt timestamp v.timestamp
    then admit_initiation nstosbt s' r s_idx hs rands now now'
    else some (err einval, s)

abbrev pub put_after : ℕ → Option (Result ℕ × Noise) → Option (Result ℕ × Noise)
put_after r none = none
put_after r (some (ret, s)) = some (ret, remote_put s r)

module _ (c : Crypto) (siphash24 : Bytes → Bytes → ℕ) (nstosbt : ℕ → ℕ) where
  -- noise_create_initiation. `e` is what curve25519_generate_secret draws, `timestamp` what noise_tai64n_now
  -- writes, `now` and `now'` are the two readings of the clock.
  pub create_initiation :
      Noise
      → ℕ
      → Bytes
      → Bytes
      → List ℕ
      → ℤ
      → ℤ
      → Option (Result (ℕ × Bytes × Bytes × Bytes) × Noise)
  create_initiation s r e timestamp rands now now' =
      let v = s.remotes r in
      let p = create_initiation_script c s.public v.public v.ss e timestamp v.handshake in
      let s' = set_remote s r (record v { handshake = p.1 }) in
      if s.has_identity && timer_expired now v.last_sent (seconds rekey_timeout)
      then elim p.0 [ err _ ↦ some (err einval, s') | ok msg ↦ initiated s' r rands now' msg ]
      else some (err einval, s)

  -- … from the lookup on.
  pub consume_from :
      Noise → ℕ → ℕ → Bytes → Bytes → Handshake → List ℕ → ℤ → ℤ → Option (Result ℕ × Noise)
  consume_from s r s_idx ue ets hs rands now now' =
      let p = consume_timestamp_script c (s.remotes r).ss ue ets hs in
      put_after r (elim p.0 [
        | err _ ↦ some (err einval, s)
        | ok timestamp ↦ accept_initiation nstosbt s r s_idx p.1 timestamp rands now now'
      ])

  -- noise_consume_initiation, with the remote it stores through `rp`.
  pub consume_initiation :
      Noise → ℕ → Bytes → Bytes → Bytes → List ℕ → ℤ → ℤ → Option (Result ℕ × Noise)
  consume_initiation s s_idx ue es ets rands now now' =
      let p = consume_static_script c s.private s.public ue es no_handshake in
      if s.has_identity
      then elim p.0 [
        | err _ ↦ some (err einval, s)
        | ok r_public ↦
            let found = remote_lookup siphash24 s r_public in
            elim found.0 [
              | none ↦ some (err einval, found.1)
              | some r ↦ consume_from found.1 r s_idx ue ets p.1 rands now now'
            ]
      ]
      else some (err einval, s)

  -- noise_create_response from the test of what noise_begin_session returned. The indices are read after
  -- noise_begin_session.
  abbrev pub response_sent :
      ℕ → Bytes × Bytes → ℤ → Errno × Noise → Result (ℕ × ℕ × Bytes × Bytes) × Noise
  response_sent r msg now' (Errno.success, s) =
      let w = s.remotes r in
      (
        ok (w.index.local_index, w.index.remote_index, msg.0, msg.1),
        set_remote s r (record w { last_sent = now' }),
      )
  response_sent r msg now' (e, s) = (err e, s)

  -- noise_create_response; `kp` is what malloc returns.
  pub create_response :
      Noise → ℕ → Bytes → Option ℕ → ℤ → ℤ → Result (ℕ × ℕ × Bytes × Bytes) × Noise
  create_response s r e kp now now' =
      let v = s.remotes r in
      let p = create_response_script c v.public v.psk e v.handshake in
      let s' = set_remote s r (record v { handshake = p.1 }) in
      if is_responding v.handshake_state
      then elim p.0 [
        | err _ ↦ (err einval, s')
        | ok msg ↦ response_sent r msg now' (begin_session c s' r kp now)
      ]
      else (err einval, s)

  -- noise_consume_response from the test of what noise_begin_session returned.
  abbrev pub response_taken : ℕ → Errno × Noise → Result ℕ × Noise
  response_taken r (Errno.success, s) = (ok r, remote_ref s r)
  response_taken r (e, s) = (err e, s)

  -- noise_consume_response from the lookup on.
  pub complete_response : Noise → ℕ → ℕ → ℕ → Bytes → Bytes → Option ℕ → ℤ → Result ℕ × Noise
  complete_response s r s_idx r_idx ue en kp now =
      let v = s.remotes r in
      let p = consume_response_script c s.private v.psk ue en v.handshake in
      let s' =
        set_remote s r
          (record v { handshake = p.1; index = record v.index { remote_index = s_idx } }) in
      if s.has_identity && is_initiating v.handshake_state
      then elim p.0 [
        | err _ ↦ (err einval, s)
        | ok _ ↦
            if v.index.local_index == r_idx
            then response_taken r (begin_session c s' r kp now)
            else (err einval, s)
      ]
      else (err einval, s)

  -- noise_consume_response
  pub consume_response : Noise → ℕ → ℕ → Bytes → Bytes → Option ℕ → ℤ → Result ℕ × Noise
  consume_response s s_idx r_idx ue en kp now =
      let found = remote_index_lookup s r_idx false in
      elim found.0 [
        | none ↦ (err einval, found.1)
        | some r ↦
            let q = complete_response found.1 r s_idx r_idx ue en kp now in (q.0, remote_put q.1 r)
      ]
