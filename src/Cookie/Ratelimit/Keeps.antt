-- ===== src/Cookie/Ratelimit/Keeps.antt =====
-- Every operation of the rate limiter keeps its table well formed.
use wireguard_freebsd.Prelude.{
  ℕ, zero, suc, ◌+◌, ◌-◌, ◌%◌, ◌≤◌, ◌<◌, ◌≡◌, refl, ◌∙◌, ap, ◌⊎◌, inl, inr, Bool, ◌&&◌, ◌||◌, not,
  List, [], ◌∷◌, map, Option, none, some, Bool-cases, length, get_or, set, length-set, length-map,
  All-get_or, All-set, All-mono, ltb, leb, ◌==◌, ==_iff, list_eq, Errno, All, arith,
}
use wireguard_freebsd.Cookie.Ratelimit.{
  ratelimit_size, ratelimit_size_max, initiation_cost, token_max, Sockaddr, inet, inet6,
  other_family, Key, key_bytes, Entry, Ratelimit, gc_schedule, ratelimit_gc, refill, spend,
  put_back, visit, store_visit, add_entry, bucket_of, allow_key, ratelimit_allow,
}
use wireguard_freebsd.Cookie.Ratelimit.Valid.{
  total, IsEntry, IsValid, survivors, survivors-All, gc_table_lem, total-survivors,
}

map-survivors-All :
    (force : Bool) (now : ℕ) (bs : List (List Entry))
    → All (All (IsEntry now)) bs
    → All (All (IsEntry now)) (map (survivors force now) bs)
map-survivors-All force now [] h = tt
map-survivors-All force now (b ∷ bs) h =
    (survivors-All force now b h.0, map-survivors-All force now bs h.1)

-- `ratelimit_gc_schedule` leaves a collection pending, unless the table is empty.
gc_schedule-IsValid :
    (now : ℕ) (rl : Ratelimit)
    → length rl.table ≡ ratelimit_size
    → rl.table_num ≡ total rl.table
    → rl.table_num ≤ ratelimit_size_max
    → All (All (IsEntry now)) rl.table
    → IsValid now (gc_schedule rl)
unfolding gc_schedule
gc_schedule-IsValid now rl b c r e = elim (Bool-cases (ltb 0 rl.table_num && not rl.gc_pending)) [
  | inl h ↦ rw h (record { buckets = b; counted = c; room = r; entries = e; collected = inr refl })
  | inr h ↦
      rw h (record { buckets = b; counted = c; room = r; entries = e; collected = ground arith })
]

pub gc_schedule_fields :
    (rl : Ratelimit) → ((gc_schedule rl).secret ≡ rl.secret) × ((gc_schedule rl).table ≡ rl.table)
unfolding gc_schedule
gc_schedule_fields rl = ground arith

-- The table after a collection.
pub ratelimit_gc_fields :
    (rl : Ratelimit) (pending force : Bool) (now : ℕ)
    → IsValid now rl
    → let rl' = ratelimit_gc (record rl { gc_pending = pending }) force now in
      (rl'.secret ≡ rl.secret)
      × ((rl'.table ≡ rl.table) ⊎ (rl'.table ≡ map (survivors force now) rl.table))
unfolding ratelimit_gc
ratelimit_gc_fields rl pending force now v = elim (Bool-cases (rl.table_num == 0)) [
  | inl empty ↦ rw empty (refl, inl refl)
  | inr some_left ↦
      let swept =
        gc_table_lem force now rl.table rl.table_num (omega (arith, v.counted))
          (omega (arith, v.room)) in
      rw (some_left, swept.0, swept.1) ((gc_schedule_fields _).0, inr (gc_schedule_fields _).1)
]

-- A collection at time `now`, forced or not, keeps a well-formed table well formed, whether or not one
-- was pending.
pub ratelimit_gc-IsValid :
    (rl : Ratelimit) (pending force : Bool) (now : ℕ)
    → IsValid now rl
    → IsValid now (ratelimit_gc (record rl { gc_pending = pending }) force now)
unfolding ratelimit_gc
ratelimit_gc-IsValid rl pending force now v = elim (Bool-cases (rl.table_num == 0)) [
  | inl empty ↦ rw empty (record {
    buckets = v.buckets;
    counted = v.counted;
    room = v.room;
    entries = v.entries;
    collected = inl ((==_iff _ _).0 empty);
  })
  | inr some_left ↦
      let swept =
        gc_table_lem force now rl.table rl.table_num (omega (arith, v.counted))
          (omega (arith, v.room)) in
      rw (some_left, swept.0, swept.1)
        (gc_schedule-IsValid now _ (length-map (survivors force now) rl.table ∙ v.buckets)
          (omega (arith, v.counted))
          (omega (arith, v.counted, v.room, total-survivors force now rl.table))
          (map-survivors-All force now rl.table v.entries))
]

module _ (now : ℕ) (r : Entry) (h : IsEntry now r) where
  refill-le : refill r now ≤ token_max
  unfolding refill
  refill-le = ground arith

  spend-IsEntry : IsEntry now (spend r now).1
  unfolding spend
  spend-IsEntry = ground (arith, refill-le)

-- The bucket that a visit of `b` returns has as many entries, all well formed.
abbrev Keeps : ℕ → List Entry → Option (Errno × List Entry) → Type 0
Keeps now b none = Unit
Keeps now b (some (e, b')) = (length b' ≡ length b) × All (IsEntry now) b'

put_back-Keeps :
    (now : ℕ) (r : Entry) (rs : List Entry) (o : Option (Errno × List Entry))
    → IsEntry now r
    → Keeps now rs o
    → Keeps now (r ∷ rs) (put_back r o)
unfolding put_back
put_back-Keeps now r rs none h k = tt
put_back-Keeps now r rs (some (e, rs')) h k = (ap suc k.0, (h, k.1))

visit-Keeps :
    (bytes : List ℕ) (n now : ℕ) (b : List Entry)
    → All (IsEntry now) b
    → Keeps now b (visit bytes n now b)
unfolding visit
visit-Keeps bytes n now [] h = tt
visit-Keeps bytes n now (r ∷ rs) h = elim (Bool-cases (list_eq (key_bytes r.key n) bytes)) [
  | inl hit ↦ rw hit (refl, (spend-IsEntry now r h.0, h.1))
  | inr miss ↦ rw miss (put_back-Keeps now r rs _ h.0 (visit-Keeps bytes n now rs h.1))
]

total-set :
    (bs : List (List Entry)) (i : ℕ) (b : List Entry)
    → i < length bs
    → total (set bs i b) + length (get_or bs i []) ≡ total bs + length b
unfolding total
total-set [] i b h = elim h [ ]
total-set (x ∷ bs) zero b h = omega arith
total-set (x ∷ bs) (suc i) b h = omega (arith, total-set bs i b (omega arith))

module _ (siphash13 : List ℕ → List ℕ → ℕ) (rl : Ratelimit) (now : ℕ) (v : IsValid now rl) where
  add_entry-IsValid :
      (i : ℕ) (key : Key) (memory : Bool)
      → i < ratelimit_size
      → IsValid now (add_entry rl i key now memory).1
  unfolding add_entry
  add_entry-IsValid i key memory h =
      elim (Bool-cases (leb ratelimit_size_max rl.table_num || not memory)) [
        | inl full ↦ rw full v
        | inr ok ↦ rw ok (
            gc_schedule-IsValid now _ (length-set rl.table i _ ∙ v.buckets)
              (omega (
                arith,
                v.room,
                v.counted,
                total-set rl.table i
                    (record { key = key; last_time = now; tokens = token_max - initiation_cost }
                      ∷ get_or rl.table i [])
                    (omega (arith, v.buckets)),
              ))
              (ground (arith, v.room))
              (All-set (All (IsEntry now)) rl.table i _
                ((omega arith), All-get_or (All (IsEntry now)) rl.table i [] tt v.entries)
                v.entries))
      ]

  put-IsValid :
      (i : ℕ) (b : List Entry)
      → i < ratelimit_size
      → length b ≡ length (get_or rl.table i [])
      → All (IsEntry now) b
      → IsValid now (record rl { table = set rl.table i b })
  put-IsValid i b h l e = record {
    buckets = length-set rl.table i b ∙ v.buckets;
    counted = omega (arith, v.counted, total-set rl.table i b (omega (arith, v.buckets)));
    room = v.room;
    entries = All-set (All (IsEntry now)) rl.table i b e v.entries;
    collected = v.collected;
  }

  store_visit-IsValid :
      (i : ℕ) (key : Key) (memory : Bool) (o : Option (Errno × List Entry))
      → i < ratelimit_size
      → Keeps now (get_or rl.table i []) o
      → IsValid now (store_visit rl i key now memory o).1
  unfolding store_visit
  store_visit-IsValid i key memory none h k = add_entry-IsValid i key memory h
  store_visit-IsValid i key memory (some (e, b)) h k = put-IsValid i b h k.0 k.1

  pub allow_key-IsValid :
      (key : Key) (n : ℕ) (memory : Bool) → IsValid now (allow_key siphash13 rl key n now memory).1
  unfolding allow_key bucket_of
  allow_key-IsValid key n memory =
      let bucket = siphash13 rl.secret (key_bytes key n) % ratelimit_size in
      store_visit-IsValid bucket key memory _ (omega arith) (
        visit-Keeps (key_bytes key n) n now _
          (All-get_or (All (IsEntry now)) rl.table bucket [] tt v.entries))

  -- A request of any family, granted or not, keeps a well-formed table well formed.
  pub ratelimit_allow-IsValid :
      (sa : Sockaddr) (vnet : ℕ) (memory : Bool)
      → IsValid now (ratelimit_allow siphash13 rl sa vnet now memory).1
  unfolding ratelimit_allow
  ratelimit_allow-IsValid (inet addr port) vnet memory = allow_key-IsValid _ 4 memory
  ratelimit_allow-IsValid (inet6 addr port) vnet memory = allow_key-IsValid _ 8 memory
  ratelimit_allow-IsValid other_family vnet memory = v

-- Time passes.
pub IsValid-later :
    (now later : ℕ) (rl : Ratelimit) → now ≤ later → IsValid now rl → IsValid later rl
IsValid-later now later rl h v = record {
  buckets = v.buckets;
  counted = v.counted;
  room = v.room;
  entries =
      All-mono (All (IsEntry now)) (All (IsEntry later))
        (λ b. All-mono (IsEntry now) (IsEntry later) (λ r e. omega arith) b) rl.table v.entries;
  collected = v.collected;
}
