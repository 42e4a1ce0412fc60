-- ===== src/Cookie/Ratelimit.antt =====
-- The rate limiter of handshake initiations (wg_cookie.c, `struct ratelimit` and the functions
-- `ratelimit_*`): a hash table of token buckets, one for each source address.
-- Times are readings of getsbinuptime() (32.32 fixed point, never negative), which a caller passes in;
-- SipHash, the memory of uma_zalloc and the bytes of arc4random_buf are arguments.
pub mod Valid
pub mod Keeps
pub mod Credit
pub mod Charge
pub mod Rate
pub mod Answers
mod Tests
use wireguard_freebsd.Prelude.{
  ℕ, ◌+◌, ◌-◌, ◌*◌, ◌/◌, ◌%◌, ◌^◌, Bool, true, false, ◌&&◌, ◌||◌, not, List, [], ◌∷◌, ◌++◌, Option,
  none, some, get_or, set, replicate, take, sub64, add64, ltb, leb, ◌==◌, list_eq, if◌then◌else◌,
  Errno, success, econnrefused,
}

-- SBT_1S of sys/time.h.
abbrev pub sbt_1s : ℕ
sbt_1s = 2 ^ 32

abbrev pub ratelimit_size : ℕ
ratelimit_size = 2 ^ 13

abbrev pub ratelimit_size_max : ℕ
ratelimit_size_max = ratelimit_size * 8

abbrev pub initiations_per_second : ℕ
initiations_per_second = 20

abbrev pub initiations_burstable : ℕ
initiations_burstable = 5

abbrev pub initiation_cost : ℕ
initiation_cost = sbt_1s / initiations_per_second

abbrev pub token_max : ℕ
token_max = initiation_cost * initiations_burstable

abbrev pub element_timeout : ℕ
element_timeout = 1

-- The families of a `struct sockaddr`, with the address in network order.
pub data Sockaddr : Type 0 where
  inet : List ℕ → ℕ → Sockaddr
  inet6 : List ℕ → ℕ → Sockaddr
  other_family : Sockaddr

pub record Key : Type 0 where
  pub vnet : ℕ
  pub ip : List ℕ

-- The first bytes of a key: the pointer to the vnet, and `n` bytes of the address.
abbrev pub key_bytes : Key → ℕ → List ℕ
key_bytes k n = k.vnet ∷ take n k.ip

pub record Entry : Type 0 where
  pub key : Key
  pub last_time : ℕ
  pub tokens : ℕ

pub record Ratelimit : Type 0 where
  pub secret : List ℕ
  pub table : List (List Entry)
  pub table_num : ℕ
  -- callout_pending(&rl->rl_gc)
  pub gc_pending : Bool

pub ratelimit_init : List ℕ → Ratelimit
ratelimit_init secret = record {
  secret = secret;
  table = replicate ratelimit_size [];
  table_num = 0;
  gc_pending = false;
}

pub gc_schedule : Ratelimit → Ratelimit
gc_schedule rl =
    if ltb 0 rl.table_num && not rl.gc_pending then record rl { gc_pending = true } else rl

-- LIST_FOREACH_SAFE over one bucket, with the count of entries in the table. The source compares with
-- `now - ELEMENT_TIMEOUT * SBT_1S`, which is negative in the first second.
pub gc_bucket : Bool → ℕ → List Entry → ℕ → List Entry × ℕ
gc_bucket force now [] num = ([], num)
gc_bucket force now (r ∷ rs) num =
    let gone = ltb (r.last_time + element_timeout * sbt_1s) now || force in
    let (rs', num') = gc_bucket force now rs (if gone then sub64 num 1 else num) in
    if gone then (rs', num') else (r ∷ rs', num')

-- The loop over the buckets.
pub gc_table : Bool → ℕ → List (List Entry) → ℕ → List (List Entry) × ℕ
gc_table force now [] num = ([], num)
gc_table force now (b ∷ bs) num =
    let (b', num') = gc_bucket force now b num in
    let (bs', num'') = gc_table force now bs num' in (b' ∷ bs', num'')

pub ratelimit_gc : Ratelimit → Bool → ℕ → Ratelimit
ratelimit_gc rl force now =
    if rl.table_num == 0
    then rl
    else (let (table, num) = gc_table force now rl.table rl.table_num in
        gc_schedule (record rl { table = table; table_num = num }))

-- A callout is no longer pending when its function runs.
pub gc_callout : Ratelimit → ℕ → Ratelimit
gc_callout rl now = ratelimit_gc (record rl { gc_pending = false }) false now

-- callout_stop, then a forced collection.
pub ratelimit_deinit : Ratelimit → ℕ → Ratelimit
ratelimit_deinit rl now = ratelimit_gc (record rl { gc_pending = false }) true now

-- The tokens of an entry at time `now`: `r_tokens + diff` on uint64_t, at most TOKEN_MAX.
pub refill : Entry → ℕ → ℕ
refill r now =
    let tokens = add64 r.tokens (sub64 now r.last_time) in
    if ltb token_max tokens then token_max else tokens

pub spend : Entry → ℕ → Errno × Entry
spend r now =
    if leb initiation_cost (refill r now)
    then (success, record r { last_time = now; tokens = refill r now - initiation_cost })
    else (econnrefused, record r { last_time = now; tokens = refill r now })

put_back : Entry → Option (Errno × List Entry) → Option (Errno × List Entry)
put_back r none = none
put_back r (some (e, rs)) = some (e, r ∷ rs)

-- LIST_FOREACH over one bucket up to the entry whose first key bytes are `bytes`.
pub visit : List ℕ → ℕ → ℕ → List Entry → Option (Errno × List Entry)
unfolding put_back
visit bytes n now [] = none
visit bytes n now (r ∷ rs) =
    let rest = visit bytes n now rs in
    if list_eq (key_bytes r.key n) bytes
    then (let (e, r') = spend r now in some (e, r' ∷ rs))
    else put_back r rest

-- A new entry, if there is space and memory.
pub add_entry : Ratelimit → ℕ → Key → ℕ → Bool → Errno × Ratelimit
add_entry rl bucket key now memory =
    if leb ratelimit_size_max rl.table_num || not memory then (econnrefused, rl) else (
      success,
      gc_schedule (record rl {
        table_num = add64 rl.table_num 1;
        table = set rl.table bucket (
            record { key = key; last_time = now; tokens = token_max - initiation_cost }
            ∷ get_or rl.table bucket []);
      }),
    )

-- What becomes of the visited bucket: it is stored, or a new entry is added.
pub store_visit : Ratelimit → ℕ → Key → ℕ → Bool → Option (Errno × List Entry) → Errno × Ratelimit
unfolding add_entry
store_visit rl bucket key now memory none = add_entry rl bucket key now memory
store_visit rl bucket key now memory (some (e, b)) =
    (e, record rl { table = set rl.table bucket b })

module _ (siphash13 : List ℕ → List ℕ → ℕ) where
  pub bucket_of : Ratelimit → List ℕ → ℕ
  bucket_of rl bytes = siphash13 rl.secret bytes % ratelimit_size

  pub allow_key : Ratelimit → Key → ℕ → ℕ → Bool → Errno × Ratelimit
  unfolding store_visit
  allow_key rl key n now memory =
      store_visit rl (bucket_of rl (key_bytes key n)) key now memory
        (visit (key_bytes key n) n now (get_or rl.table (bucket_of rl (key_bytes key n)) []))

  -- All four bytes of an IPv4 address, the first eight of an IPv6 one; the rest of `ip` is zero.
  pub ratelimit_allow : Ratelimit → Sockaddr → ℕ → ℕ → Bool → Errno × Ratelimit
  ratelimit_allow rl (inet addr port) vnet now memory =
      allow_key rl (record { vnet = vnet; ip = take 4 addr ++ replicate 4 0 }) 4 now memory
  ratelimit_allow rl (inet6 addr port) vnet now memory =
      allow_key rl (record { vnet = vnet; ip = take 8 addr }) 8 now memory
  ratelimit_allow rl other_family vnet now memory = (econnrefused, rl)
