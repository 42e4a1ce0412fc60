-- ===== src/Noise/Config/Lookup.antt =====
-- The table of remotes: what noise_remote_enable puts in is found, and noise_remote_disable takes it out.
use wireguard_freebsd.Prelude.{
  ℕ, ◌+◌, ◌-◌, ◌%◌, ◌==◌, ==_iff, ◌<◌, ◌≡◌, ◌≢◌, All, refl, sym, ap, ◌∙◌, Bool, true, false, List,
  [], ◌∷◌, Option, none, some, member, list_eq_iff, if◌then◌else◌, ltb, lt→ltb, Bool-cases, inl,
  inr, Errno, enospc, success, Bytes, arith,
}
use wireguard_freebsd.Noise.State.{Noise, Remote, set_remote, store, store_here}
use wireguard_freebsd.Noise.Index.{remote_acquire}
use wireguard_freebsd.Noise.Handshake.{remote_lookup, find_remote, ht_remote_size}
use wireguard_freebsd.Noise.Config.Keeps.{
  added, added-IsSame, IsFound, enable_all, enable_all-IsFound,
}
use wireguard_freebsd.Noise.Config.{
  max_remote_per_local, erase_remote, remote_enable, remote_disable,
}

remote_enable_new :
    (siphash24 : Bytes → Bytes → ℕ) (s : Noise) (r : ℕ)
    → (s.remotes r).entry_inserted ≡ false
    → s.remote_num < max_remote_per_local
    → remote_enable siphash24 s r ≡ (success, added siphash24 s r)
unfolding remote_enable
remote_enable_new siphash24 s r new room =
    ap
      (λ b.
        if b
        then (success, s)
        else (if ltb s.remote_num max_remote_per_local
            then (success, added siphash24 s r)
            else (enospc, s)))
      new
    ∙ ap (λ b. if b then (success, added siphash24 s r) else (enospc, s)) (lt→ltb _ _ room)

find_first :
    (s : Noise) (key : Bytes) (r : ℕ) (rs : List ℕ)
    → (s.remotes r).public ≡ key
    → find_remote s key (r ∷ rs) ≡ some r
unfolding find_remote
find_first s key r rs e = rw (find_remote, (list_eq_iff (s.remotes r).public key).1 e)

acquired :
    (s : Noise) (r : ℕ) → ((s.remotes r).refcnt == 0) ≡ false → (remote_acquire s r).0 ≡ some r
unfolding remote_acquire
acquired s r live =
    let out : Bool → Option ℕ × Noise = λ b.
      (if b then (none, s) else (
        some r,
        set_remote s r (record (s.remotes r) { refcnt = (s.remotes r).refcnt + 1 }),
      )) in
    ap (λ b. (out b).0) live

-- A remote that is enabled while there is room for it, and while it is referenced, is found by its public
-- key afterwards, before any other remote with the same key that the table held, and still is after any
-- number of remotes with other public keys were enabled behind it.
pub remote_lookup-remote_enable :
    (siphash24 : Bytes → Bytes → ℕ) (s : Noise) (r : ℕ) (qs : List ℕ)
    → (s.remotes r).entry_inserted ≡ false
    → s.remote_num < max_remote_per_local
    → ((s.remotes r).refcnt == 0) ≡ false
    → All (λ q. (s.remotes q).public ≢ (s.remotes r).public) qs
    → let (e, t) = remote_enable siphash24 s r in
      (e ≡ success)
      × ((remote_lookup siphash24 (enable_all siphash24 t qs) (s.remotes r).public).0 ≡ some r)
unfolding remote_lookup
remote_lookup-remote_enable siphash24 s r qs new room live others =
    let v = s.remotes r in
    let t = added siphash24 s r in
    let i = siphash24 s.hash_key v.public % ht_remote_size in
    let here = store_here s.remotes r (record v { entry_inserted = true }) in
    let e = remote_enable_new siphash24 s r new room in
    let found : IsFound siphash24 t v.public r = (
      ap (find_remote t v.public) (store_here s.remote_hash i (r ∷ s.remote_hash i))
          ∙ find_first t v.public r (s.remote_hash i) (ap (λ (x : Remote). x.public) here),
      ap (λ (x : Remote). x.refcnt == 0) here ∙ live,
    ) in
    let last = enable_all siphash24 t qs in
    let still =
      enable_all-IsFound siphash24 s t v.public r qs (added-IsSame siphash24 s r) found others in
    let look : Option ℕ → Option ℕ = λ o.
      (elim o as (λ x. Option ℕ × Noise) [
        | none ↦ (none, last)
        | some k ↦ remote_acquire last k
      ]).0 in
    (
      ap (λ (q : Errno × Noise). q.0) e,
      ap (λ (q : Errno × Noise). (remote_lookup siphash24 (enable_all siphash24 q.1 qs) v.public).0)
            e
          ∙ ap look still.0
          ∙ acquired last r still.1,
    )

erase_remote_absent : (r : ℕ) (rs : List ℕ) → member r rs ≡ false → erase_remote r rs ≡ rs
unfolding erase_remote
erase_remote_absent r [] h = refl
erase_remote_absent r (x ∷ rs) h = ground (arith, erase_remote_absent r rs)

erase_remote_head : (r : ℕ) (rs : List ℕ) → erase_remote r (r ∷ rs) ≡ erase_remote r rs
unfolding erase_remote
erase_remote_head r rs = rw ((==_iff r r).1 refl)

list_back :
    (s : Noise) (r i j : ℕ)
    → ((k : ℕ) → member r (s.remote_hash k) ≡ false)
    → erase_remote r (store s.remote_hash i (r ∷ s.remote_hash i) j) ≡ s.remote_hash j
list_back s r i j h = elim (Bool-cases (j == i)) [
  | inr other ↦ rw other (erase_remote_absent r (s.remote_hash j) (h j))
  | inl same ↦ rw same (
      erase_remote_head r (s.remote_hash i)
      ∙ erase_remote_absent r (s.remote_hash i) (h i)
      ∙ ap s.remote_hash (sym ((==_iff j i).0 same)))
]

remote_disable_in :
    (s : Noise) (r : ℕ)
    → (s.remotes r).entry_inserted ≡ true
    → ((remote_disable s r).remote_num ≡ s.remote_num - 1)
      × ((i : ℕ) → (remote_disable s r).remote_hash i ≡ erase_remote r (s.remote_hash i))
unfolding remote_disable
remote_disable_in s r there =
    let out : Bool → Noise = λ b.
      (if b
        then record (set_remote s r (record (s.remotes r) { entry_inserted = false })) {
          remote_num = s.remote_num - 1;
          remote_hash = λ i. erase_remote r (s.remote_hash i);
        }
        else s) in
    (ap (λ b. (out b).remote_num) there, λ i. ap (λ b. (out b).remote_hash i) there)

-- Disabling a remote that was just enabled, while there was room and it stood in no list, leaves the count
-- and every list of the table as they were.
pub remote_disable-remote_enable :
    (siphash24 : Bytes → Bytes → ℕ) (s : Noise) (r : ℕ)
    → (s.remotes r).entry_inserted ≡ false
    → s.remote_num < max_remote_per_local
    → ((i : ℕ) → member r (s.remote_hash i) ≡ false)
    → ((remote_disable (remote_enable siphash24 s r).1 r).remote_num ≡ s.remote_num)
      × ((i : ℕ)
          → (remote_disable (remote_enable siphash24 s r).1 r).remote_hash i ≡ s.remote_hash i)
remote_disable-remote_enable siphash24 s r new room absent =
    let v = s.remotes r in
    let t = added siphash24 s r in
    let i = siphash24 s.hash_key v.public % ht_remote_size in
    let e = remote_enable_new siphash24 s r new room in
    let there : (t.remotes r).entry_inserted ≡ true =
      ap (λ (x : Remote). x.entry_inserted)
        (store_here s.remotes r (record v { entry_inserted = true })) in
    let out = remote_disable_in t r there in
    (
      ap (λ (q : Errno × Noise). (remote_disable q.1 r).remote_num) e ∙ out.0 ∙ back s.remote_num,
      λ j.
          ap (λ (q : Errno × Noise). (remote_disable q.1 r).remote_hash j) e
          ∙ out.1 j
          ∙ list_back s r i j absent,
    )
  where
    back : (n : ℕ) → n + 1 - 1 ≡ n
    back n = omega arith
