-- ===== src/Noise/Handshake/Replay.antt =====
-- What an initiation that noise_consume_initiation accepts proves of its timestamp and its time.
use wireguard_freebsd.Prelude.{
  ℕ, ◌%◌, Bool, true, false, List, Option, none, some, ◌≡◌, refl, ap, ◌∙◌, inl, inr, Bytes, Result,
  ok, err, einval, Bool-cases, Option-cases, if◌then◌else◌,
}
use wireguard_freebsd.Prelude.Int.{ℤ}
use wireguard_freebsd.Noise.Crypto.{Crypto}
use wireguard_freebsd.Noise.Symmetric.{Handshake, no_handshake}
use wireguard_freebsd.Noise.State.{
  Noise, Remote, responder, store_same, store_here, set_remote, timer_expired, reject_interval,
}
use wireguard_freebsd.Noise.Script.{consume_static_script, consume_timestamp_script}
use wireguard_freebsd.Noise.Index.{remote_index_insert, remote_acquire}
use wireguard_freebsd.Noise.Index.Frame.{
  SameClock, same_clock, SameClock-trans, set_remote-SameClock, remote_index_insert-SameClock,
  remote_acquire-SameClock, remote_ref-SameClock, remote_put-SameClock,
}
use wireguard_freebsd.Noise.Handshake.{
  ht_remote_size, memcmp_gt, respond, remote_lookup, admit_initiation, accept_initiation,
  consume_from, consume_initiation, put_after, find_remote,
}

-- An initiation of `r` was accepted at the time `now`, between the states: its timestamp is later than the
-- last one and is kept, the interval since the last initiation has passed, and the time is kept.
pub record IsAccepted (interval : ℕ) (now now' : ℤ) (s : Noise) (r : ℕ) (s' : Noise) : Type 0 where
  pub newer : memcmp_gt (s'.remotes r).timestamp (s.remotes r).timestamp ≡ true
  pub in_time : timer_expired now (s.remotes r).last_init_recv interval ≡ true
  pub kept : (s'.remotes r).last_init_recv ≡ now'

pub IsAccepted-frame :
    (interval : ℕ) (now now' : ℤ) (a b c d : Noise) (r : ℕ)
    → SameClock a b
    → IsAccepted interval now now' b r c
    → SameClock c d
    → IsAccepted interval now now' a r d
IsAccepted-frame interval now now' a b c d r h k l = record {
  newer = rw (l.timestamps r) (rw (← h.timestamps r) k.newer);
  in_time = rw (← h.times r) k.in_time;
  kept = l.times r ∙ k.kept;
}

-- What holds of every outcome: an error leaves the times of the last initiations alone.
abbrev pub Outcome : ℕ → ℤ → ℤ → Noise → Option (Result ℕ × Noise) → Type 0
Outcome interval now now' s none = Unit
Outcome interval now now' s (some (err e, s')) =
    (r : ℕ) → (s'.remotes r).last_init_recv ≡ (s.remotes r).last_init_recv
Outcome interval now now' s (some (ok r, s')) = IsAccepted interval now now' s r s'

pub Outcome-before :
    (interval : ℕ) (now now' : ℤ) (a b : Noise) (o : Option (Result ℕ × Noise))
    → SameClock a b
    → Outcome interval now now' b o
    → Outcome interval now now' a o
Outcome-before interval now now' a b none h k = tt
Outcome-before interval now now' a b (some (err e, c)) h k = λ r. k r ∙ h.times r
Outcome-before interval now now' a b (some (ok r, c)) h k =
    IsAccepted-frame interval now now' a b c c r h k (same_clock c)

put_after-Outcome :
    (interval : ℕ) (now now' : ℤ) (s : Noise) (r : ℕ) (o : Option (Result ℕ × Noise))
    → Outcome interval now now' s o
    → Outcome interval now now' s (put_after r o)
put_after-Outcome interval now now' s r none k = tt
put_after-Outcome interval now now' s r (some (err e, c)) k =
    λ i. (remote_put-SameClock c r).times i ∙ k i
put_after-Outcome interval now now' s r (some (ok r', c)) k =
    IsAccepted-frame interval now now' s s c _ r' (same_clock s) k (remote_put-SameClock c r)

respond-SameClock : (s : Noise) (r s_idx : ℕ) (hs : Handshake) → SameClock s (respond s r s_idx hs)
unfolding respond
respond-SameClock s r s_idx hs =
    let w = s.remotes r in
    let s' = set_remote s r (record w {
      index = record w.index { remote_index = s_idx };
      handshake_state = responder;
      handshake = hs;
    }) in
    SameClock-trans s s' _
      (set_remote-SameClock s r
        (record w {
          index = record w.index { remote_index = s_idx };
          handshake_state = responder;
          handshake = hs;
        })
        refl refl)
      (remote_ref-SameClock s' r)

module _ (nstosbt : ℕ → ℕ) where
  admit_initiation-Outcome :
      (a s : Noise) (r s_idx : ℕ) (hs : Handshake) (rands : List ℕ) (now now' : ℤ)
      → memcmp_gt (s.remotes r).timestamp (a.remotes r).timestamp ≡ true
      → ((i : ℕ) → (s.remotes i).last_init_recv ≡ (a.remotes i).last_init_recv)
      → Outcome
          (nstosbt reject_interval)
          now
          now'
          a
          (admit_initiation nstosbt s r s_idx hs rands now now')
  unfolding admit_initiation
  admit_initiation-Outcome a s r s_idx hs rands now now' newer times =
      elim (Bool-cases (timer_expired now (s.remotes r).last_init_recv (nstosbt reject_interval))) [
        | inr early ↦ rw early times
        | inl late ↦
            let s' = set_remote s r (record (s.remotes r) { last_init_recv = now' }) in
            elim (Option-cases (remote_index_insert s' r rands)) [
              | inl full ↦ rw (late, full) tt
              | inr (s'', e) ↦
                  let h =
                    SameClock-trans s' s'' _ (remote_index_insert-SameClock s' s'' r rands e)
                      (respond-SameClock s'' r s_idx hs) in
                  rw (late, e)
                    (record {
                      newer = rw (h.timestamps r) (
                          rw
                            (store_here s.remotes r
                              (record (s.remotes r) { last_init_recv = now' }))
                            newer);
                      in_time = rw (← times r) late;
                      kept =
                          h.times r
                          ∙ ap (λ (x : Remote). x.last_init_recv)
                              (store_here s.remotes r
                                (record (s.remotes r) { last_init_recv = now' }));
                    })
            ]
      ]

  accept_initiation-Outcome :
      (s : Noise) (r s_idx : ℕ) (hs : Handshake) (timestamp : Bytes) (rands : List ℕ) (now now' : ℤ)
      → Outcome
          (nstosbt reject_interval)
          now
          now'
          s
          (accept_initiation nstosbt s r s_idx hs timestamp rands now now')
  unfolding accept_initiation
  accept_initiation-Outcome s r s_idx hs timestamp rands now now' =
      elim (Bool-cases (memcmp_gt timestamp (s.remotes r).timestamp)) [
        | inr old ↦ rw old (λ i. refl)
        | inl new ↦ rw new (
            admit_initiation-Outcome s
              (set_remote s r (record (s.remotes r) { timestamp = timestamp })) r s_idx hs rands now
              now'
              (rw (store_here s.remotes r (record (s.remotes r) { timestamp = timestamp })) new)
              (store_same (λ (x : Remote). x.last_init_recv) s.remotes r
                (record (s.remotes r) { timestamp = timestamp }) refl))
      ]

module _ (c : Crypto) (siphash24 : Bytes → Bytes → ℕ) (nstosbt : ℕ → ℕ) where
  consume_from-Outcome :
      (s : Noise) (r s_idx : ℕ) (ue ets : Bytes) (hs : Handshake) (rands : List ℕ) (now now' : ℤ)
      → Outcome
          (nstosbt reject_interval)
          now
          now'
          s
          (consume_from c siphash24 nstosbt s r s_idx ue ets hs rands now now')
  unfolding consume_from
  consume_from-Outcome s r s_idx ue ets hs rands now now' =
      put_after-Outcome (nstosbt reject_interval) now now' s r _
        (timestamp_cases (consume_timestamp_script c (s.remotes r).ss ue ets hs))
    where
      timestamp_cases :
          (p : Result Bytes × Handshake)
          → Outcome (nstosbt reject_interval) now now' s (elim p.0 [
            | err _ ↦ some (err einval, s)
            | ok timestamp ↦ accept_initiation nstosbt s r s_idx p.1 timestamp rands now now'
          ])
      timestamp_cases (err e, hs') = λ i. refl
      timestamp_cases (ok timestamp, hs') =
          accept_initiation-Outcome nstosbt s r s_idx hs' timestamp rands now now'

  remote_lookup-SameClock :
      (s : Noise) (key : Bytes) → SameClock s (remote_lookup siphash24 s key).1
  unfolding remote_lookup
  remote_lookup-SameClock s key =
      found_cases (find_remote s key (s.remote_hash (siphash24 s.hash_key key % ht_remote_size)))
    where
      found_cases :
          (o : Option ℕ)
          → SameClock s
              (elim o as (λ o. Option ℕ × Noise) [
                | none ↦ (none, s)
                | some r ↦ remote_acquire s r
              ]).1
      found_cases none = same_clock s
      found_cases (some r) = remote_acquire-SameClock s r

  -- Whatever the bytes of a handshake initiation are: if it is accepted, the timestamp stored for its
  -- remote has become larger, REJECT_INTERVAL had passed since that remote's last initiation, and the
  -- time of this one is stored; if it is refused, the time of no remote's last initiation moves.
  -- Nothing is said of the case that every index drawn is in use.
  pub consume_initiation-Outcome :
      (s : Noise) (s_idx : ℕ) (ue es ets : Bytes) (rands : List ℕ) (now now' : ℤ)
      → Outcome
          (nstosbt reject_interval)
          now
          now'
          s
          (consume_initiation c siphash24 nstosbt s s_idx ue es ets rands now now')
  unfolding consume_initiation
  consume_initiation-Outcome s s_idx ue es ets rands now now' =
      identity_cases s.has_identity (attempt start) (static_cases start)
    where
      from : Handshake → Option ℕ × Noise → Option (Result ℕ × Noise)
      from hs found = elim found.0 [
        | none ↦ some (err einval, found.1)
        | some r ↦ consume_from c siphash24 nstosbt found.1 r s_idx ue ets hs rands now now'
      ]

      from_cases :
          (hs : Handshake) (found : Option ℕ × Noise)
          → SameClock s found.1
          → Outcome (nstosbt reject_interval) now now' s (from hs found)
      from_cases hs (none, s') h = h.times
      from_cases hs (some r, s') h =
          Outcome-before (nstosbt reject_interval) now now' s s' _ h
            (consume_from-Outcome s' r s_idx ue ets hs rands now now')

      start : Result Bytes × Handshake
      start = consume_static_script c s.private s.public ue es no_handshake

      attempt : Result Bytes × Handshake → Option (Result ℕ × Noise)
      attempt p = elim p.0 [
        | err _ ↦ some (err einval, s)
        | ok r_public ↦ from p.1 (remote_lookup siphash24 s r_public)
      ]

      static_cases :
          (p : Result Bytes × Handshake) → Outcome (nstosbt reject_interval) now now' s (attempt p)
      static_cases (err e, hs') = λ i. refl
      static_cases (ok key, hs') =
          from_cases hs' (remote_lookup siphash24 s key) (remote_lookup-SameClock s key)

      identity_cases :
          (b : Bool) (o : Option (Result ℕ × Noise))
          → Outcome (nstosbt reject_interval) now now' s o
          → Outcome (nstosbt reject_interval) now now' s (if b then o else some (err einval, s))
      identity_cases true o k = k
      identity_cases false o k = λ i. refl
