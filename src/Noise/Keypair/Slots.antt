-- ===== src/Noise/Keypair/Slots.antt =====
-- The reference counts of the keypairs in the slots of a remote.
use wireguard_freebsd.Prelude.{
  ℕ, ◌+◌, ◌-◌, ◌≤◌, ==_iff, true, false, Option, none, some, ◌≡◌, refl, ap, ◌∙◌, inl, inr,
  Bool-cases, arith,
}
use wireguard_freebsd.Noise.State.{Noise, Remote, store_here}
use wireguard_freebsd.Noise.Index.{keypair_drop}
use wireguard_freebsd.Noise.Index.Frame.{occurs, keypair_drop-refcnt, keypair_drop-remotes}
use wireguard_freebsd.Noise.Keypair.{
  set_slots, put_in_slots, received_with, keypairs_clear, is_slot, is_some,
}

-- How many of the three slots hold a keypair.
abbrev pub held : Remote → ℕ → ℕ
held v k = occurs v.next k + occurs v.current k + occurs v.previous k

abbrev count : Noise → ℕ → ℕ
count s k = (s.keypairs k).refcnt

-- Every slot counts as a reference.
abbrev pub IsCounted : Noise → ℕ → Type 0
IsCounted s r = (k : ℕ) → held (s.remotes r) k ≤ (s.keypairs k).refcnt

-- A change of the slots: each keypair loses as many references as slots, but for the keypair `kp`, whose
-- first reference the slot takes over.
abbrev pub IsBalanced : Noise → Noise → ℕ → Option ℕ → Type 0
IsBalanced s s' r kp =
    (k : ℕ)
    → (s'.keypairs k).refcnt + held (s.remotes r) k + occurs kp k
      ≡ (s.keypairs k).refcnt + held (s'.remotes r) k

drop2 :
    (s : Noise) (a b : Option ℕ) (k : ℕ)
    → count (keypair_drop (keypair_drop s a) b) k ≡ count s k - occurs a k - occurs b k
drop2 s a b k =
    keypair_drop-refcnt (keypair_drop s a) b k
    ∙ ap (λ x. x - occurs b k) (keypair_drop-refcnt s a k)

slots_after :
    (s : Noise) (r : ℕ) (n c p : Option ℕ) (t : Noise) (k : ℕ)
    → t.remotes ≡ (set_slots s r n c p).remotes
    → held (t.remotes r) k ≡ occurs n k + occurs c k + occurs p k
slots_after s r n c p t k e =
    ap (λ f. held (f r) k) e
    ∙ ap (λ v. held v k)
        (store_here s.remotes r (record (s.remotes r) { next = n; current = c; previous = p }))

clear_sum :
    (x y z n c p w : ℕ)
    → x ≡ z - p
    → z ≡ y - n - c
    → w ≡ 0
    → n + c + p ≤ y
    → x + (n + c + p) + 0 ≡ y + w
clear_sum x y z n c p w e e' e'' h = omega arith

move_sum :
    (x y n c p m w : ℕ)
    → x ≡ y - p
    → w ≡ 0 + m + c
    → n ≡ m
    → n + c + p ≤ y
    → x + (n + c + p) + 0 ≡ y + w
move_sum x y n c p m w e e' e'' h = omega arith

-- Clearing the slots of a remote releases each keypair once for every slot that held it, if the slots are
-- counted as references.
pub keypairs_clear-IsBalanced :
    (s : Noise) (r : ℕ) → IsCounted s r → IsBalanced s (keypairs_clear s r) r none
unfolding keypairs_clear
keypairs_clear-IsBalanced s r h k =
    let v = s.remotes r in
    let s0 = set_slots s r none none none in
    let s1 = keypair_drop s0 v.next in
    let s2 = keypair_drop s1 v.current in
    let now = slots_after s r none none none (keypair_drop s2 v.previous) k (
      keypair_drop-remotes s2 v.previous
      ∙ keypair_drop-remotes s1 v.current
      ∙ keypair_drop-remotes s0 v.next) in
    clear_sum _ (count s k) (count s2 k) (occurs v.next k) (occurs v.current k)
      (occurs v.previous k) _ (keypair_drop-refcnt s2 v.previous k) (drop2 s0 v.next v.current k)
      now (h k)

slot_same : (o : Option ℕ) (kp k : ℕ) → is_slot o kp ≡ true → occurs o k ≡ occurs (some kp) k
slot_same none kp k h = cc
slot_same (some k') kp k h = ap (λ j. occurs (some j) k) ((==_iff k' kp).0 h)

-- When a packet comes with a keypair, then whether that is the next keypair of its remote, and the
-- slots move up, or not: each keypair loses as many references as slots, if the slots are counted as
-- references.
pub received_with-IsBalanced :
    (s : Noise) (kp : ℕ)
    → IsCounted s (s.keypairs kp).remote
    → IsBalanced s (received_with s kp).1 (s.keypairs kp).remote none
unfolding received_with
received_with-IsBalanced s kp h k = elim (Bool-cases (is_slot v.next kp)) [
  | inr other ↦ rw (received_with, other) (omega arith)
  | inl moved ↦
      let s0 = set_slots s r none (some kp) v.current in
      let t = keypair_drop s0 v.previous in
      let now = slots_after s r none (some kp) v.current t k (keypair_drop-remotes s0 v.previous) in
      let same = slot_same v.next kp k moved in
      let one = keypair_drop-refcnt s0 v.previous k in
      rw (received_with, moved)
        (move_sum _ (count s k) (occurs v.next k) (occurs v.current k) (occurs v.previous k)
          (occurs (some kp) k) _ one now same (h k))
]
  where
    r : ℕ
    r = (s.keypairs kp).remote

    v : Remote
    v = s.remotes r

slot_empty : (o : Option ℕ) (k : ℕ) → is_some o ≡ false → occurs o k ≡ 0
slot_empty none k h = refl
slot_empty (some k') k h = cc

one_sum :
    (x y n c p m w : ℕ)
    → x ≡ y - p
    → w ≡ 0 + m + c
    → n ≡ 0
    → n + c + p ≤ y
    → x + (n + c + p) + m ≡ y + w
one_sum x y n c p m w e e' e'' h = omega arith

next_sum :
    (x y n c p m w : ℕ)
    → x ≡ y - c - p
    → w ≡ 0 + m + n
    → n + c + p ≤ y
    → x + (n + c + p) + m ≡ y + w
next_sum x y n c p m w e e' h = omega arith

respond_sum :
    (x y n c p m w : ℕ)
    → x ≡ y - n - p
    → w ≡ m + c + 0
    → n + c + p ≤ y
    → x + (n + c + p) + m ≡ y + w
respond_sum x y n c p m w e e' h = omega arith

-- A new keypair takes its slot over with the one reference it is made with, on either side of the
-- handshake, and every keypair that loses a slot loses one reference for it, if the slots are counted as
-- references.
pub put_in_slots-IsBalanced :
    (s : Noise) (r kp : ℕ) → IsCounted s r → IsBalanced s (put_in_slots s r kp) r (some kp)
unfolding put_in_slots
put_in_slots-IsBalanced s r kp h k = elim (Bool-cases (s.keypairs kp).is_initiator) [
  | inr responding ↦
      let s0 = set_slots s r (some kp) v.current none in
      let s1 = keypair_drop s0 v.next in
      let t = keypair_drop s1 v.previous in
      rw (put_in_slots, responding)
        (respond_sum _ (count s k) (occurs v.next k) (occurs v.current k) (occurs v.previous k)
          (occurs (some kp) k) _ (drop2 s0 v.next v.previous k)
          (slots_after s r (some kp) v.current none t k
            (keypair_drop-remotes s1 v.previous ∙ keypair_drop-remotes s0 v.next))
          (h k))
  | inl initiating ↦ elim (Bool-cases (is_some v.next)) [
    | inl pending ↦
        let s0 = set_slots s r none (some kp) v.next in
        let s1 = keypair_drop s0 v.current in
        let t = keypair_drop s1 v.previous in
        rw (put_in_slots, initiating, pending)
          (next_sum _ (count s k) (occurs v.next k) (occurs v.current k) (occurs v.previous k)
            (occurs (some kp) k) _ (drop2 s0 v.current v.previous k)
            (slots_after s r none (some kp) v.next t k
              (keypair_drop-remotes s1 v.previous ∙ keypair_drop-remotes s0 v.current))
            (h k))
    | inr idle ↦
        let s0 = set_slots s r none (some kp) v.current in
        let t = keypair_drop s0 v.previous in
        rw (put_in_slots, initiating, idle)
          (one_sum _ (count s k) (occurs v.next k) (occurs v.current k) (occurs v.previous k)
            (occurs (some kp) k) _ (keypair_drop-refcnt s0 v.previous k)
            (slots_after s r none (some kp) v.current t k (keypair_drop-remotes s0 v.previous))
            (slot_empty v.next k idle) (h k))
  ]
]
  where
    v : Remote
    v = s.remotes r
