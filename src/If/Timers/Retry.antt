-- ===== src/If/Timers/Retry.antt =====
-- How often a peer that gets no answer tries again.
use wireguard_freebsd.Prelude.{
  if_cases, none, ltb, ℕ, ◌+◌, ◌≤◌, ◌≡◌, refl, ap, ◌∙◌, true, not, ◌&&◌, List, [], ◌∷◌, ◌++◌, leb,
  leb→le, Bool-cases, inl, inr, arith,
}
use wireguard_freebsd.If.Timers.{
  Timers, Call, Answer, max_timer_handshakes, send_initiation, run_send_initiation,
  run_retry_handshake, is_pending, event_any_authenticated_packet_sent,
  event_any_authenticated_packet_traversal, event_handshake_initiated,
}

-- The callout p_retry_handshake fires again and again, and nothing else resets the count.
pub retry_run : List Answer → Timers → Timers × List Call
retry_run [] p = (p, [])
retry_run (a ∷ answers) p =
    let q = run_retry_handshake (record p { retry_handshake = none }) a in
    let rest = retry_run answers q.0 in (rest.0, q.1 ++ rest.1)

abbrev weight : Call → ℕ
weight Call.initiation = 1
weight _ = 0

-- How many initiations are sent.
pub initiations : List Call → ℕ
initiations [] = 0
initiations (c ∷ calls) = weight c + initiations calls

initiations-append : (a b : List Call) → initiations (a ++ b) ≡ initiations a + initiations b
unfolding initiations
initiations-append [] b = omega arith
initiations-append (c ∷ a) b =
    let rest = initiations-append a b in
    ap (λ n. weight c + n) rest ∙ three (weight c) (initiations a) (initiations b)
  where
    three : (x y z : ℕ) → x + (y + z) ≡ x + y + z
    three x y z = omega arith

-- The outcome sends at most one initiation and leaves the count alone.
IsOne : Timers → Timers × List Call → Type 0
IsOne p q = (initiations q.1 ≤ 1) × (q.0.retries ≡ p.retries)

initiated_retries :
    (p : Timers) (jitter : ℕ) → (event_handshake_initiated p jitter).retries ≡ p.retries
unfolding event_handshake_initiated
initiated_retries p jitter =
    if_cases (λ (q : Timers). q.retries ≡ p.retries) p.enabled _ _ refl refl

traversal_retries : (p : Timers) → (event_any_authenticated_packet_traversal p).retries ≡ p.retries
unfolding event_any_authenticated_packet_traversal
traversal_retries p =
    if_cases (λ (q : Timers). q.retries ≡ p.retries) (p.enabled && ltb 0 p.interval) _ _ refl refl

send_initiation-IsOne : (p : Timers) (a : Answer) → IsOne p (send_initiation p a)
unfolding IsOne send_initiation event_any_authenticated_packet_sent initiations
send_initiation-IsOne p a =
    if_cases (IsOne p) a.created _ _
      (omega arith, initiated_retries _ a.jitter ∙ traversal_retries p) (omega arith, refl)

retry-IsOne : (p : Timers) (a : Answer) → IsOne p (run_send_initiation p true a)
unfolding IsOne run_send_initiation initiations
retry-IsOne p a = if_cases (IsOne p) a.expired _ _ (send_initiation-IsOne p a) (omega arith, refl)

-- One try: it counts, and sends at most one initiation; or the peer gives up and sends none.
IsTry : Timers → Timers × List Call → Type 0
IsTry p q = (initiations q.1 + p.retries ≤ q.0.retries) × (q.0.retries ≤ max_timer_handshakes + 1)

run_retry_handshake-IsTry :
    (p : Timers) (a : Answer)
    → p.retries ≤ max_timer_handshakes + 1
    → IsTry p (run_retry_handshake p a)
unfolding IsTry IsOne run_retry_handshake initiations
run_retry_handshake-IsTry p a h = elim (Bool-cases (leb p.retries max_timer_handshakes)) [
  | inl more ↦
      let one = retry-IsOne (record p { retries = p.retries + 1 }) a in
      let below = leb→le _ _ more in
      rw (run_retry_handshake, more) (tried _ _ p.retries one.0 one.1 below)
  | inr done ↦
      rw (run_retry_handshake, done)
        (if_cases (IsTry p) (p.enabled && not (is_pending p.zero_key_material)) _ _ (omega arith, h)
          (omega arith, h))
]
  where
    tried :
        (sent after before : ℕ)
        → sent ≤ 1
        → after ≡ before + 1
        → before ≤ max_timer_handshakes
        → (0 + sent + before ≤ after) × (after ≤ max_timer_handshakes + 1)
    tried sent after before h e k = (omega arith, omega arith)

-- However often the retry callout fires without an answer, and whatever the noise layer says each time, a
-- peer that has made `retries` tries sends at most MAX_TIMER_HANDSHAKES + 1 - retries more initiations, if
-- the count was in bounds, and the count stays in bounds.
pub retry_run-IsBounded :
    (answers : List Answer) (p : Timers)
    → p.retries ≤ max_timer_handshakes + 1
    → (initiations (retry_run answers p).1 + p.retries ≤ max_timer_handshakes + 1)
      × ((retry_run answers p).0.retries ≤ max_timer_handshakes + 1)
unfolding retry_run initiations IsTry
retry_run-IsBounded [] p h = (omega arith, h)
retry_run-IsBounded (a ∷ answers) p h =
    let q = run_retry_handshake (record p { retry_handshake = none }) a in
    let t = run_retry_handshake-IsTry (record p { retry_handshake = none }) a h in
    let rest = retry_run-IsBounded answers q.0 t.1 in
    (rw (initiations-append q.1 (retry_run answers q.0).1) (joined _ _ _ _ t.0 rest.0), rest.1)
  where
    joined :
        (x y r r' : ℕ)
        → x + r ≤ r'
        → y + r' ≤ max_timer_handshakes + 1
        → x + y + r ≤ max_timer_handshakes + 1
    joined x y r r' h k = omega arith
