-- ===== src/Noise/Index/Frame.antt =====
-- What the operations on the index table and the reference counts leave as it is: when each remote was last
-- heard, and with which timestamp.
use wireguard_freebsd.Prelude.{
  arith, ==_iff, ℕ, ◌+◌, ◌-◌, subst, ◌==◌, List, Option, none, some, ◌≡◌, refl, sym, ap, ◌∙◌, inl,
  inr, Bool-cases, if◌then◌else◌,
}
use wireguard_freebsd.Noise.State.{
  Noise, Keypair, store, Remote, dead, is_dead, store_same, set_remote,
}
use wireguard_freebsd.Noise.Index.{
  remote_index_remove, insert_at, remote_index_insert, remote_acquire, remote_ref, remote_put,
  assign_id, keypair_drop, keypair_put,
}

-- The timestamp and the time of the last initiation, of every remote.
pub record SameClock (s s' : Noise) : Type 0 where
  pub timestamps : (r : ℕ) → (s'.remotes r).timestamp ≡ (s.remotes r).timestamp
  pub times : (r : ℕ) → (s'.remotes r).last_init_recv ≡ (s.remotes r).last_init_recv

pub same_clock : (s : Noise) → SameClock s s
same_clock s = record { timestamps = λ r. refl; times = λ r. refl }

pub SameClock-trans : (a b c : Noise) → SameClock a b → SameClock b c → SameClock a c
SameClock-trans a b c h k = record {
  timestamps = λ r. k.timestamps r ∙ h.timestamps r;
  times = λ r. k.times r ∙ h.times r;
}

pub set_remote-SameClock :
    (s : Noise) (r : ℕ) (v : Remote)
    → v.timestamp ≡ (s.remotes r).timestamp
    → v.last_init_recv ≡ (s.remotes r).last_init_recv
    → SameClock s (set_remote s r v)
set_remote-SameClock s r v t l = record {
  timestamps = store_same (λ (x : Remote). x.timestamp) s.remotes r v t;
  times = store_same (λ (x : Remote). x.last_init_recv) s.remotes r v l;
}

pub remote_index_remove-SameClock : (s : Noise) (r : ℕ) → SameClock s (remote_index_remove s r).1
unfolding remote_index_remove
remote_index_remove-SameClock s r = elim (Bool-cases (is_dead (s.remotes r).handshake_state)) [
  | inl idle ↦ rw idle (same_clock s)
  | inr busy ↦
      let h =
        set_remote-SameClock s r (record (s.remotes r) { handshake_state = dead }) refl refl in
      rw busy (record { timestamps = h.timestamps; times = h.times })
]

insert_at-SameClock : (s : Noise) (r i : ℕ) → SameClock s (insert_at s r i)
unfolding insert_at
insert_at-SameClock s r i =
    let v = s.remotes r in
    let h =
      set_remote-SameClock s r (record v { index = record v.index { local_index = i } }) refl
        refl in
    record { timestamps = h.timestamps; times = h.times }

abbrev inserted : Noise → ℕ → Option ℕ → Option Noise
inserted s r o = elim o [ none ↦ none | some i ↦ some (insert_at s r i) ]

inserted-SameClock :
    (s s' : Noise) (r : ℕ) (o : Option ℕ) → inserted s r o ≡ some s' → SameClock s s'
inserted-SameClock s s' r none e = cc
inserted-SameClock s s' r (some i) e =
    let e' : insert_at s r i ≡ s' = cc in subst (SameClock s) e' (insert_at-SameClock s r i)

pub remote_index_insert-SameClock :
    (s s' : Noise) (r : ℕ) (rands : List ℕ)
    → remote_index_insert s r rands ≡ some s'
    → SameClock s s'
unfolding remote_index_insert
remote_index_insert-SameClock s s' r rands e =
    SameClock-trans s (remote_index_remove s r).1 s' (remote_index_remove-SameClock s r) (
      inserted-SameClock (remote_index_remove s r).1 s' r
        (assign_id (remote_index_remove s r).1 rands) e)

pub remote_acquire-SameClock : (s : Noise) (r : ℕ) → SameClock s (remote_acquire s r).1
unfolding remote_acquire
remote_acquire-SameClock s r = elim (Bool-cases ((s.remotes r).refcnt == 0)) [
  | inl gone ↦ rw gone (same_clock s)
  | inr live ↦ rw live (
      set_remote-SameClock s r (record (s.remotes r) { refcnt = (s.remotes r).refcnt + 1 }) refl
        refl)
]

pub remote_ref-SameClock : (s : Noise) (r : ℕ) → SameClock s (remote_ref s r)
unfolding remote_ref
remote_ref-SameClock s r = set_remote-SameClock s r _ refl refl

pub remote_put-SameClock : (s : Noise) (r : ℕ) → SameClock s (remote_put s r)
unfolding remote_put
remote_put-SameClock s r =
    let h =
      set_remote-SameClock s r (record (s.remotes r) { refcnt = (s.remotes r).refcnt - 1 }) refl
        refl in
    elim (Bool-cases ((s.remotes r).refcnt == 1)) [
      | inl last ↦ rw last (record { timestamps = h.timestamps; times = h.times })
      | inr more ↦ rw more h
    ]

-- Whether a pointer is the keypair `k`, as a number.
abbrev pub occurs : Option ℕ → ℕ → ℕ
occurs none k = 0
occurs (some k') k = if k == k' then 1 else 0

less_one :
    (f : ℕ → Keypair) (k' k : ℕ)
    → (store f k' (record (f k') { refcnt = (f k').refcnt - 1 }) k).refcnt
      ≡ (f k).refcnt - (if k == k' then 1 else 0)
less_one f k' k = elim (Bool-cases (k == k')) [
  | inl same ↦ rw same (ap (λ j. (f j).refcnt - 1) (sym ((==_iff k k').0 same)))
  | inr other ↦ rw other (omega arith)
]

-- A drop releases one reference, of the keypair it is called on.
pub keypair_drop-refcnt :
    (s : Noise) (o : Option ℕ) (k : ℕ)
    → ((keypair_drop s o).keypairs k).refcnt ≡ (s.keypairs k).refcnt - occurs o k
unfolding keypair_drop keypair_put
keypair_drop-refcnt s none k = omega arith
keypair_drop-refcnt s (some k') k = elim (Bool-cases ((s.keypairs k').refcnt == 1)) [
  | inl last ↦ rw last (less_one s.keypairs k' k)
  | inr more ↦ rw more (less_one s.keypairs k' k)
]

pub keypair_drop-remotes : (s : Noise) (o : Option ℕ) → (keypair_drop s o).remotes ≡ s.remotes
unfolding keypair_drop keypair_put
keypair_drop-remotes s none = refl
keypair_drop-remotes s (some k) = elim (Bool-cases ((s.keypairs k).refcnt == 1)) [
  | inl last ↦ rw last
  | inr more ↦ rw more
]
