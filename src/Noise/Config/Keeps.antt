-- ===== src/Noise/Config/Keeps.antt =====
-- A remote of the table stays found by its public key while remotes with other keys are enabled.
use wireguard_freebsd.Prelude.{
  ℕ, ◌+◌, ◌%◌, ◌==◌, ◌≡◌, ◌≢◌, refl, sym, ap, ap₂, subst, ◌∙◌, ◌⊎◌, success, enospc, Bool, true,
  false, List, [], ◌∷◌, some, list_eq, list_eq_iff, if◌then◌else◌, ltb, Bool-cases, inl, inr, Errno,
  Bytes, All, ==_iff,
}
use wireguard_freebsd.Noise.State.{Noise, Remote, store, store_same}
use wireguard_freebsd.Noise.Handshake.{find_remote, ht_remote_size}
use wireguard_freebsd.Noise.Config.{max_remote_per_local, remote_enable}

-- What enabling a remote leaves of the others: all but whether they stand in the table.
pub record IsSame (s t : Noise) : Type 0 where
  pub public : (k : ℕ) → (t.remotes k).public ≡ (s.remotes k).public
  pub refcnt : (k : ℕ) → (t.remotes k).refcnt ≡ (s.remotes k).refcnt
  pub key : t.hash_key ≡ s.hash_key

find_remote-IsSame :
    (s t : Noise) (key : Bytes) (rs : List ℕ)
    → IsSame s t
    → find_remote t key rs ≡ find_remote s key rs
unfolding find_remote
find_remote-IsSame s t key [] h = refl
find_remote-IsSame s t key (r ∷ rs) h = rw (h.public r, find_remote-IsSame s t key rs h) refl

find_other :
    (s : Noise) (key : Bytes) (q : ℕ) (rs : List ℕ)
    → (s.remotes q).public ≢ key
    → find_remote s key (q ∷ rs) ≡ find_remote s key rs
unfolding find_remote
find_other s key q rs other = elim (Bool-cases (list_eq (s.remotes q).public key)) [
  | inl e ↦ absurd (other ((list_eq_iff (s.remotes q).public key).0 e))
  | inr e ↦ rw e refl
]

-- The state that enabling a new remote leaves.
abbrev pub added : (Bytes → Bytes → ℕ) → Noise → ℕ → Noise
added siphash24 s r =
    let v = s.remotes r in
    let i = siphash24 s.hash_key v.public % ht_remote_size in
    record s {
      remotes = store s.remotes r (record v { entry_inserted = true });
      remote_num = s.remote_num + 1;
      remote_hash = store s.remote_hash i (r ∷ s.remote_hash i);
    }

module _ (siphash24 : Bytes → Bytes → ℕ) where
  -- The bucket of a key finds the remote.
  abbrev pub IsFound : Noise → Bytes → ℕ → Type 0
  IsFound s key r =
      (find_remote s key (s.remote_hash (siphash24 s.hash_key key % ht_remote_size)) ≡ some r)
      × (((s.remotes r).refcnt == 0) ≡ false)

  pub added-IsSame : (s : Noise) (q : ℕ) → IsSame s (added siphash24 s q)
  added-IsSame s q =
      let v : Remote = record (s.remotes q) { entry_inserted = true } in
      record {
        public = store_same (λ (x : Remote). x.public) s.remotes q v refl;
        refcnt = store_same (λ (x : Remote). x.refcnt) s.remotes q v refl;
        key = refl;
      }

  added-IsFound :
      (s : Noise) (key : Bytes) (r q : ℕ)
      → IsFound s key r
      → (s.remotes q).public ≢ key
      → IsFound (added siphash24 s q) key r
  added-IsFound s key r q h other =
      let t = added siphash24 s q in
      let i = siphash24 s.hash_key (s.remotes q).public % ht_remote_size in
      let j = siphash24 s.hash_key key % ht_remote_size in
      let bucket : find_remote s key (t.remote_hash j) ≡ find_remote s key (s.remote_hash j) =
        elim (Bool-cases (j == i)) [
          | inl e ↦ rw e (
              find_other s key q (s.remote_hash i) other
              ∙ ap (λ k. find_remote s key (s.remote_hash k)) (sym ((==_iff j i).0 e)))
          | inr e ↦ rw e refl
        ] in
      (
        find_remote-IsSame s t key (t.remote_hash j) (added-IsSame s q) ∙ bucket ∙ h.0,
        ap (λ n. n == 0) ((added-IsSame s q).refcnt r) ∙ h.1,
      )

  enable_cases :
      (s : Noise) (q : ℕ)
      → ((remote_enable siphash24 s q).1 ≡ s)
        ⊎ ((remote_enable siphash24 s q).1 ≡ added siphash24 s q)
  unfolding remote_enable
  enable_cases s q = elim (Bool-cases (s.remotes q).entry_inserted) [
    | inl e ↦ inl (ap (λ b. (out b (ltb s.remote_num max_remote_per_local)).1) e)
    | inr e ↦ elim (Bool-cases (ltb s.remote_num max_remote_per_local)) [
      | inl f ↦ inr (ap₂ (λ b b'. (out b b').1) e f)
      | inr f ↦ inl (ap₂ (λ b b'. (out b b').1) e f)
    ]
  ]
    where
      out : Bool → Bool → Errno × Noise
      out b b' =
          if b then (success, s) else (if b' then (success, added siphash24 s q) else (enospc, s))

  -- noise_remote_enable of some remotes, one after the other.
  pub enable_all : Noise → List ℕ → Noise
  enable_all s [] = s
  enable_all s (q ∷ qs) = enable_all (remote_enable siphash24 s q).1 qs

  enable-IsSame : (s : Noise) (q : ℕ) → IsSame s (remote_enable siphash24 s q).1
  enable-IsSame s q = elim (enable_cases s q) [
    | inl e ↦
        subst (IsSame s) (sym e) (record { public = λ k. refl; refcnt = λ k. refl; key = refl })
    | inr e ↦ subst (IsSame s) (sym e) (added-IsSame s q)
  ]

  enable-IsFound :
      (s : Noise) (key : Bytes) (r q : ℕ)
      → IsFound s key r
      → (s.remotes q).public ≢ key
      → IsFound (remote_enable siphash24 s q).1 key r
  enable-IsFound s key r q h other = elim (enable_cases s q) [
    | inl e ↦ subst (λ t. IsFound t key r) (sym e) h
    | inr e ↦ subst (λ t. IsFound t key r) (sym e) (added-IsFound s key r q h other)
  ]

  -- A remote that is found stays found while others with other public keys are enabled.
  pub enable_all-IsFound :
      (s t : Noise) (key : Bytes) (r : ℕ) (qs : List ℕ)
      → IsSame s t
      → IsFound t key r
      → All (λ q. (s.remotes q).public ≢ key) qs
      → IsFound (enable_all t qs) key r
  unfolding enable_all
  enable_all-IsFound s t key r [] same h others = h
  enable_all-IsFound s t key r (q ∷ qs) same h others =
      let next = enable-IsSame t q in
      enable_all-IsFound s (remote_enable siphash24 t q).1 key r qs
        (record {
          public = λ k. next.public k ∙ same.public k;
          refcnt = λ k. next.refcnt k ∙ same.refcnt k;
          key = next.key ∙ same.key;
        })
        (enable-IsFound t key r q h (λ e. others.0 (sym (same.public q) ∙ e))) others.1
