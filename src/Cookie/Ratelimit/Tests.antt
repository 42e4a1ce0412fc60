-- ===== src/Cookie/Ratelimit/Tests.antt =====
-- The theorems on the rate limiter at concrete tables.
use wireguard_freebsd.Prelude.{
  ℕ, zero, suc, ◌+◌, ◌-◌, ◌*◌, ◌≤◌, ◌≡◌, true, false, List, [], ◌∷◌, map, All, replicate, arith,
}
use wireguard_freebsd.Cookie.Ratelimit.{
  Entry, Key, Ratelimit, inet, ratelimit_init, ratelimit_gc, gc_callout, ratelimit_allow, allow_key,
  gc_table, initiation_cost, token_max, ratelimit_size, sbt_1s,
}
use wireguard_freebsd.Cookie.Ratelimit.Valid.{
  total, IsValid, ratelimit_init-IsValid, survivors, gc_table_lem,
}
use wireguard_freebsd.Cookie.Ratelimit.Keeps.{
  allow_key-IsValid, IsValid-later, ratelimit_gc-IsValid, ratelimit_allow-IsValid,
}
use wireguard_freebsd.Cookie.Ratelimit.Credit.{IsDistinct}
use wireguard_freebsd.Cookie.Ratelimit.Charge.{Charges, credit_in, allow_key-Charges}
use wireguard_freebsd.Cookie.Ratelimit.Rate.{
  request, collect, granted, granted_rate, gc_callout-credit_in,
}

abbrev hash : List ℕ → List ℕ → ℕ
hash secret bytes = 5

abbrev table0 : Ratelimit
table0 = ratelimit_init (1 ∷ 2 ∷ [])

abbrev key0 : Key
key0 = record { vnet = 1; ip = 10 ∷ 0 ∷ 0 ∷ 1 ∷ [] }

abbrev entry0 : Entry
entry0 = record { key = key0; last_time = 3; tokens = 8 }

empty-IsDistinct : (n : ℕ) → All (IsDistinct 4) (replicate n [])
empty-IsDistinct zero = tt
empty-IsDistinct (suc n) = (tt, empty-IsDistinct n)

table0-IsDistinct : All (IsDistinct 4) table0.table
unfolding ratelimit_init
table0-IsDistinct = empty-IsDistinct ratelimit_size

granted_rate_example :
    initiation_cost
      * granted hash 4
          (1 ∷ 10 ∷ 0 ∷ 0 ∷ 1 ∷ [])
          table0
          ((20, request key0 true) ∷ (21, request key0 true) ∷ (sbt_1s, collect) ∷ [])
    ≤ token_max + (2 * sbt_1s - 20)
granted_rate_example =
    granted_rate hash 4 (1 ∷ 10 ∷ 0 ∷ 0 ∷ 1 ∷ []) table0 20 (2 * sbt_1s)
      ((20, request key0 true) ∷ (21, request key0 true) ∷ (sbt_1s, collect) ∷ [])
      (record { valid = ratelimit_init-IsValid (1 ∷ 2 ∷ []) 20; distinct = table0-IsDistinct })
      (omega arith, (omega arith, (omega arith, omega arith))) (omega arith)

allow_key-Charges_example : Charges hash 4 table0 key0 20 (allow_key hash table0 key0 4 20 true)
allow_key-Charges_example =
    allow_key-Charges hash 4 20 table0 key0 (ratelimit_init-IsValid (1 ∷ 2 ∷ []) 20)
      table0-IsDistinct (omega arith) true

ratelimit_allow-IsValid_example :
    IsValid 20 (ratelimit_allow hash table0 (inet (10 ∷ 0 ∷ 0 ∷ 1 ∷ []) 80) 1 20 true).1
ratelimit_allow-IsValid_example =
    ratelimit_allow-IsValid hash table0 20 (ratelimit_init-IsValid (1 ∷ 2 ∷ []) 20)
      (inet (10 ∷ 0 ∷ 0 ∷ 1 ∷ []) 80) 1 true

after_one : IsValid 20 (allow_key hash table0 key0 4 20 true).1
after_one = allow_key-IsValid hash table0 20 (ratelimit_init-IsValid (1 ∷ 2 ∷ []) 20) key0 4 true

ratelimit_gc-IsValid_example :
    IsValid 20 (
      ratelimit_gc
        (record (allow_key hash table0 key0 4 20 true).1 { gc_pending = false })
        false
        20)
ratelimit_gc-IsValid_example =
    ratelimit_gc-IsValid (allow_key hash table0 key0 4 20 true).1 false false 20 after_one

gc_table_lem_example :
    ((gc_table false (2 * sbt_1s) ((entry0 ∷ []) ∷ [] ∷ []) 1).0
      ≡ map (survivors false (2 * sbt_1s)) ((entry0 ∷ []) ∷ [] ∷ []))
    × ((gc_table false (2 * sbt_1s) ((entry0 ∷ []) ∷ [] ∷ []) 1).1
        ≡ 1
          - total ((entry0 ∷ []) ∷ [] ∷ [])
          + total (map (survivors false (2 * sbt_1s)) ((entry0 ∷ []) ∷ [] ∷ [])))
unfolding total
gc_table_lem_example =
    gc_table_lem false (2 * sbt_1s) ((entry0 ∷ []) ∷ [] ∷ []) 1 (omega arith) (omega arith)

abbrev one_entry : Ratelimit
one_entry = (allow_key hash table0 key0 4 20 true).1

gc_callout-credit_in_example :
    credit_in hash 4 (gc_callout one_entry (2 * sbt_1s)) (1 ∷ 10 ∷ 0 ∷ 0 ∷ 1 ∷ []) (3 * sbt_1s)
    ≡ credit_in hash 4 one_entry (1 ∷ 10 ∷ 0 ∷ 0 ∷ 1 ∷ []) (3 * sbt_1s)
gc_callout-credit_in_example =
    gc_callout-credit_in hash 4 one_entry (1 ∷ 10 ∷ 0 ∷ 0 ∷ 1 ∷ []) (2 * sbt_1s) (3 * sbt_1s)
      (record {
        valid = IsValid-later 20 (2 * sbt_1s) one_entry (omega arith) after_one;
        distinct =
            (allow_key-Charges hash 4 20 table0 key0 (ratelimit_init-IsValid (1 ∷ 2 ∷ []) 20)
              table0-IsDistinct (omega arith) true).distinct;
      })
      (omega arith)
