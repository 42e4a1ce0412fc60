-- ===== src/Noise/Index.antt =====
-- The index table of wg_noise.c: `l_index_hash`, which finds a remote or a keypair by the index that this
-- side chose for it.
pub mod Frame
use wireguard_freebsd.Prelude.{
  ℕ, ◌%◌, ◌==◌, ltb, leb, ◌+◌, ◌-◌, Bool, true, false, not, ◌&&◌, List, [], ◌∷◌, Option, none, some,
  if◌then◌else◌,
}
use wireguard_freebsd.Noise.State.{
  Entry, of_remote, of_keypair, same_entry, Index, Keypair, Remote, HandshakeState, dead, is_dead,
  Noise, set_remote, set_keypair, store,
}
use wireguard_freebsd.Noise.Symmetric.{no_handshake}
use wireguard_freebsd.Noise.State.{timer_reset}

-- HT_INDEX_SIZE; the mask HT_INDEX_MASK is the remainder by it.
abbrev pub ht_index_size : ℕ
ht_index_size = 8192

-- CK_LIST_REMOVE: an entry stands in one list, which its address does not tell.
pub erase : Entry → List Entry → List Entry
erase e [] = []
erase e (x ∷ xs) = let rest = erase e xs in if same_entry e x then rest else x ∷ rest

-- CK_LIST_INSERT_BEFORE and then CK_LIST_REMOVE of the old entry.
pub replace : Entry → Entry → List Entry → List Entry
replace old new [] = []
replace old new (x ∷ xs) =
    let rest = replace old new xs in if same_entry old x then new ∷ rest else x ∷ rest

abbrev pub local_index_of : Noise → Entry → ℕ
local_index_of s (of_remote r) = (s.remotes r).index.local_index
local_index_of s (of_keypair k) = (s.keypairs k).index.local_index

-- The first entry with a local index.
pub find_index : Noise → ℕ → List Entry → Option Entry
find_index s idx [] = none
find_index s idx (e ∷ es) =
    let rest = find_index s idx es in if local_index_of s e == idx then some e else rest

abbrev pub bucket : Noise → ℕ → List Entry
bucket s idx = s.index_hash (idx % ht_index_size)

abbrev pub unlink : Noise → Entry → Noise
unlink s e = record s { index_hash = λ b. erase e (s.index_hash b) }

-- noise_remote_index_remove, with whether there was a handshake.
pub remote_index_remove : Noise → ℕ → Bool × Noise
remote_index_remove s r = if is_dead (s.remotes r).handshake_state then (false, s) else (
  true,
  unlink (set_remote s r (record (s.remotes r) { handshake_state = dead })) (of_remote r),
)

-- The loop at assign_id, on the numbers that arc4random yields: the first that no entry has.
pub assign_id : Noise → List ℕ → Option ℕ
assign_id s [] = none
assign_id s (x ∷ xs) =
    let rest = assign_id s xs in
    elim (find_index s x (bucket s x)) [ none ↦ some x | some e ↦ rest ]

-- noise_remote_index_insert; `none` means that every number of `rands` is taken.
pub insert_at : Noise → ℕ → ℕ → Noise
insert_at s r i =
    let v = s.remotes r in
    let s' = set_remote s r (record v { index = record v.index { local_index = i } }) in
    record s' { index_hash = store s'.index_hash (i % ht_index_size) (of_remote r ∷ bucket s' i) }

pub remote_index_insert : Noise → ℕ → List ℕ → Option Noise
remote_index_insert s r rands =
    let s' = (remote_index_remove s r).1 in
    elim (assign_id s' rands) [ none ↦ none | some i ↦ some (insert_at s' r i) ]

-- refcount_acquire_if_not_zero, of a remote and of a keypair.
unfoldable pub remote_acquire : Noise → ℕ → Option ℕ × Noise
remote_acquire s r =
    if (s.remotes r).refcnt == 0
    then (none, s)
    else (some r, set_remote s r (record (s.remotes r) { refcnt = (s.remotes r).refcnt + 1 }))

pub keypair_acquire : Noise → ℕ → Option ℕ × Noise
keypair_acquire s k =
    if (s.keypairs k).refcnt == 0
    then (none, s)
    else (some k, set_keypair s k (record (s.keypairs k) { refcnt = (s.keypairs k).refcnt + 1 }))

-- noise_remote_index_lookup
unfoldable pub remote_index_lookup : Noise → ℕ → Bool → Option ℕ × Noise
remote_index_lookup s idx lookup_keypair = elim (find_index s idx (bucket s idx)) [
  | none ↦ (none, s)
  | some (of_remote r) ↦ remote_acquire s r
  | some (of_keypair k) ↦
      if lookup_keypair then remote_acquire s (s.keypairs k).remote else (none, s)
]

-- noise_keypair_lookup. Its loop skips the remotes with the index.
pub find_keypair : Noise → ℕ → List Entry → Option ℕ
find_keypair s idx [] = none
find_keypair s idx (of_remote r ∷ es) = find_keypair s idx es
find_keypair s idx (of_keypair k ∷ es) =
    let rest = find_keypair s idx es in
    if (s.keypairs k).index.local_index == idx then some k else rest

pub keypair_lookup : Noise → ℕ → Option ℕ × Noise
keypair_lookup s idx = elim (find_keypair s idx (bucket s idx)) [
  | none ↦ (none, s)
  | some k ↦ keypair_acquire s k
]

-- noise_remote_ref and noise_remote_put
pub remote_ref : Noise → ℕ → Noise
remote_ref s r = set_remote s r (record (s.remotes r) { refcnt = (s.remotes r).refcnt + 1 })

pub remote_put : Noise → ℕ → Noise
remote_put s r =
    let s' = set_remote s r (record (s.remotes r) { refcnt = (s.remotes r).refcnt - 1 }) in
    if (s.remotes r).refcnt == 1 then record s' { deferred = of_remote r ∷ s'.deferred } else s'

-- noise_keypair_put and noise_keypair_drop
pub keypair_put : Noise → ℕ → Noise
keypair_put s k =
    let s' = set_keypair s k (record (s.keypairs k) { refcnt = (s.keypairs k).refcnt - 1 }) in
    if (s.keypairs k).refcnt == 1 then record s' { deferred = of_keypair k ∷ s'.deferred } else s'

pub keypair_drop : Noise → Option ℕ → Noise
keypair_drop s none = s
keypair_drop s (some k) = keypair_put (unlink s (of_keypair k)) k

-- noise_remote_handshake_clear
pub handshake_clear : Noise → ℕ → Noise
handshake_clear s r =
    let p = remote_index_remove s r in
    let v = p.1.remotes r in
    set_remote p.1 r
      (record v { handshake = if p.0 then no_handshake else v.handshake; last_sent = timer_reset })
