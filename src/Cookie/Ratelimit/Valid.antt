-- ===== src/Cookie/Ratelimit/Valid.antt =====
-- The table of the rate limiter stays well formed: its counter counts the entries, it never grows
-- beyond RATELIMIT_SIZE_MAX, and while it holds an entry a collection is pending.
use wireguard_freebsd.Prelude.{
  ℕ, zero, suc, ◌+◌, ◌-◌, ◌^◌, ◌≤◌, ◌<◌, ◌≡◌, refl, ◌⊎◌, inl, Bool, true, ◌||◌, List, [], ◌∷◌, map,
  ap₂, length, length-replicate, replicate, sub64, ltb, if◌then◌else◌, All, arith,
}
use wireguard_freebsd.Cookie.Ratelimit.{
  sbt_1s, ratelimit_size, ratelimit_size_max, token_max, Entry, Ratelimit, ratelimit_init,
  gc_bucket, gc_table,
}

-- The number of entries in some buckets.
unfoldable pub total : List (List Entry) → ℕ
total [] = 0
total (b ∷ bs) = length b + total bs

-- An entry as `ratelimit_allow` leaves it, seen at time `now`.
abbrev pub IsEntry : ℕ → Entry → Type 0
IsEntry now r = (r.last_time ≤ now) × (r.tokens ≤ token_max)

pub record IsValid (now : ℕ) (rl : Ratelimit) : Type 0 where
  pub buckets : length rl.table ≡ ratelimit_size
  pub counted : rl.table_num ≡ total rl.table
  pub room : rl.table_num ≤ ratelimit_size_max
  pub entries : All (All (IsEntry now)) rl.table
  pub collected : (rl.table_num ≡ 0) ⊎ (rl.gc_pending ≡ true)

total-replicate : (n : ℕ) → total (replicate n []) ≡ 0
unfolding total
total-replicate zero = refl
total-replicate (suc n) = omega (arith, total-replicate n)

All-replicate : (now n : ℕ) → All (All (IsEntry now)) (replicate n [])
All-replicate now zero = tt
All-replicate now (suc n) = (tt, All-replicate now n)

-- A new table is well formed.
pub ratelimit_init-IsValid : (secret : List ℕ) (now : ℕ) → IsValid now (ratelimit_init secret)
unfolding ratelimit_init
ratelimit_init-IsValid secret now = record {
  buckets = length-replicate {A = List Entry} ratelimit_size [];
  counted = omega (arith, total-replicate ratelimit_size);
  room = omega arith;
  entries = All-replicate now ratelimit_size;
  collected = inl refl;
}

-- The entries that a collection leaves in a bucket.
unfoldable pub survivors : Bool → ℕ → List Entry → List Entry
survivors force now [] = []
survivors force now (r ∷ rs) =
    if ltb (r.last_time + sbt_1s) now || force
    then survivors force now rs
    else r ∷ survivors force now rs

length-survivors :
    (force : Bool) (now : ℕ) (b : List Entry) → length (survivors force now b) ≤ length b
unfolding survivors
length-survivors force now [] = omega arith
length-survivors force now (r ∷ rs) = ground (arith, length-survivors force now rs)

pub survivors-All :
    (force : Bool) (now : ℕ) (b : List Entry)
    → All (IsEntry now) b
    → All (IsEntry now) (survivors force now b)
unfolding survivors
survivors-All force now [] h = tt
survivors-All force now (r ∷ rs) h = ground (arith, survivors-All force now rs h.1)

pub gc_bucket_lem :
    (force : Bool) (now : ℕ) (b : List Entry) (num : ℕ)
    → length b ≤ num
    → num < 2 ^ 64
    → (gc_bucket force now b num).0 ≡ survivors force now b
      × ((gc_bucket force now b num).1 ≡ num - length b + length (survivors force now b))
unfolding gc_bucket survivors
gc_bucket_lem force now [] num p q = (refl, omega arith)
gc_bucket_lem force now (r ∷ rs) num p q = ground (
  arith,
  length-survivors force now rs,
  gc_bucket_lem force now rs num,
  gc_bucket_lem force now rs (sub64 num 1),
)

pub total-survivors :
    (force : Bool) (now : ℕ) (bs : List (List Entry))
    → total (map (survivors force now) bs) ≤ total bs
unfolding total
total-survivors force now [] = omega arith
total-survivors force now (b ∷ bs) =
    omega (arith, length-survivors force now b, total-survivors force now bs)

-- The loops of `ratelimit_gc` keep the survivors of each bucket in order and take the number of the
-- others off the count, if the count is at least the number of entries and below 2 ^ 64.
pub gc_table_lem :
    (force : Bool) (now : ℕ) (bs : List (List Entry)) (num : ℕ)
    → total bs ≤ num
    → num < 2 ^ 64
    → ((gc_table force now bs num).0 ≡ map (survivors force now) bs)
      × ((gc_table force now bs num).1 ≡ num - total bs + total (map (survivors force now) bs))
unfolding gc_table total
gc_table_lem force now [] num p q = (refl, omega arith)
gc_table_lem force now (b ∷ bs) num p q =
    let here = gc_bucket_lem force now b num (omega arith) q in
    let there =
      gc_table_lem force now bs (gc_bucket force now b num).1 (omega (arith, here.1))
        (omega (arith, here.1, length-survivors force now b)) in
    (ap₂ ◌∷◌ here.0 there.0, omega (arith, here.1, there.1, length-survivors force now b))
