-- ===== src/Noise/Keypair/Nonce.antt =====
-- The numbers that noise_keypair_nonce_next gives out.
use wireguard_freebsd.Prelude.{
  ℕ, zero, suc, ◌<◌, ◌≤◌, true, false, List, [], ◌∷◌, ◌≡◌, ap, ◌∙◌, subst, ltb→lt, refl, add64,
  Errno, success, einval, arith, ltb, Bool-cases, inl, inr,
}
use wireguard_freebsd.Noise.Counter.{reject_after_messages}
use wireguard_freebsd.Noise.State.{Keypair}
use wireguard_freebsd.Noise.Keypair.{nonce_next}

-- The numbers of the packets that are sent, in `n` calls.
pub nonces : ℕ → Keypair → List ℕ
nonces zero kp = []
nonces (suc n) kp =
    let p = nonce_next kp in let rest = nonces n p.2 in elim p.0 [ success ↦ p.1 ∷ rest | _ ↦ rest ]

-- Each number is one more than the one before, from `i` on, and below the limit.
pub data IsRun : ℕ → List ℕ → Type 0 where
  done : {i : ℕ} → IsRun i []
  sent : {i : ℕ} {ns : List ℕ} → i < reject_after_messages → IsRun (suc i) ns → IsRun i (i ∷ ns)

-- A keypair that may send has not passed the limit.
abbrev pub IsSending : Keypair → Type 0
IsSending kp = kp.can_send ≡ true → kp.counter.nonce_send ≤ reject_after_messages

-- The keypair after a call that gave a number out.
abbrev pub sent_one : Keypair → Keypair
sent_one kp = record kp {
  counter = record kp.counter { nonce_send = add64 kp.counter.nonce_send 1 };
}

nonce_next_off : (kp : Keypair) → kp.can_send ≡ false → nonce_next kp ≡ (einval, 0, kp)
unfolding nonce_next
nonce_next_off kp h = rw h

nonce_next_limit :
    (kp : Keypair)
    → kp.can_send ≡ true
    → ltb kp.counter.nonce_send reject_after_messages ≡ false
    → nonce_next kp ≡ (einval, kp.counter.nonce_send, record (sent_one kp) { can_send = false })
unfolding nonce_next
nonce_next_limit kp h l = rw (h, l)

nonce_next_on :
    (kp : Keypair)
    → kp.can_send ≡ true
    → ltb kp.counter.nonce_send reject_after_messages ≡ true
    → nonce_next kp ≡ (success, kp.counter.nonce_send, sent_one kp)
unfolding nonce_next
nonce_next_on kp h l = rw (h, l)

next_number :
    (kp : Keypair)
    → ltb kp.counter.nonce_send reject_after_messages ≡ true
    → add64 kp.counter.nonce_send 1 ≡ suc kp.counter.nonce_send
next_number kp l = ground arith

abbrev count : ℕ → Errno × ℕ × Keypair → List ℕ
count n p = elim p.0 [ success ↦ p.1 ∷ nonces n p.2 | _ ↦ nonces n p.2 ]

nonces-suc :
    (n : ℕ) (kp : Keypair) (p : Errno × ℕ × Keypair)
    → nonce_next kp ≡ p
    → nonces (suc n) kp ≡ count n p
unfolding nonces
nonces-suc n kp p e = ap (count n) e

silent : (n : ℕ) (kp : Keypair) → kp.can_send ≡ false → nonces n kp ≡ []
unfolding nonces
silent zero kp h = refl
silent (suc n) kp h = nonces-suc n kp _ (nonce_next_off kp h) ∙ silent n kp h

-- However often a keypair is asked for a number, those it gives out count up one by one from the number
-- it starts with and stay below REJECT_AFTER_MESSAGES, so that no two packets have the same number, if
-- the keypair has stopped or has not passed the limit at the start.
pub nonces-IsRun : (n : ℕ) (kp : Keypair) → IsSending kp → IsRun kp.counter.nonce_send (nonces n kp)
unfolding nonces
nonces-IsRun zero kp h = done
nonces-IsRun (suc n) kp h = elim (Bool-cases kp.can_send) [
  | inr off ↦ rw (nonces-suc n kp _ (nonce_next_off kp off) ∙ silent n kp off) done
  | inl on ↦ elim (Bool-cases (ltb kp.counter.nonce_send reject_after_messages)) [
    | inr over ↦
        rw
          (nonces-suc n kp _ (nonce_next_limit kp on over)
            ∙ silent n (record (sent_one kp) { can_send = false }) refl)
          done
    | inl below ↦ rw (nonces-suc n kp _ (nonce_next_on kp on below)) (
        sent (ltb→lt _ _ below) (
          subst (λ i. IsRun i (nonces n (sent_one kp))) (next_number kp below)
            (nonces-IsRun n (sent_one kp) (λ _. rw (next_number kp below) (ltb→lt _ _ below)))))
  ]
]
