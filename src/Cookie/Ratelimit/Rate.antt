-- ===== src/Cookie/Ratelimit/Rate.antt =====
-- The rate that `ratelimit_allow` grants to one address: a burst of INITIATIONS_BURSTABLE, and
-- INITIATIONS_PER_SECOND from then on, whatever other addresses do and whenever the table is collected.
use wireguard_freebsd.Prelude.{
  ℕ, ◌+◌, ◌-◌, ◌*◌, ◌^◌, ◌≤◌, ◌<◌, ◌≡◌, inl, inr, Bool, false, List, [], ◌∷◌, map, Bool-cases,
  get_or, get_or-map, All-get_or, All-map, list_eq, list_eq_iff, if◌then◌else◌, Errno, success, All,
  arith,
}
use wireguard_freebsd.Cookie.Ratelimit.{
  initiation_cost, token_max, Key, key_bytes, Entry, Ratelimit, gc_callout, bucket_of, allow_key,
}
use wireguard_freebsd.Cookie.Ratelimit.Valid.{IsValid, survivors}
use wireguard_freebsd.Cookie.Ratelimit.Keeps.{
  allow_key-IsValid, ratelimit_gc-IsValid, ratelimit_gc_fields, IsValid-later,
}
use wireguard_freebsd.Cookie.Ratelimit.Credit.{
  find, credit_grows, credit-le, IsDistinct, credit-survivors, survivors-IsDistinct, cost_of,
}
use wireguard_freebsd.Cookie.Ratelimit.Charge.{credit_in, allow_key-Charges}

-- What happens to a table: a request for a key, with whether the allocator has memory, or the callout.
pub data Event : Type 0 where
  request : Key → Bool → Event
  collect : Event

-- Times do not go back, from `start` to `stop`.
abbrev pub IsOrdered : ℕ → List (ℕ × Event) → ℕ → Type 0
IsOrdered start [] stop = start ≤ stop
IsOrdered start ((t, e) ∷ es) stop = (start ≤ t) × IsOrdered t es stop

abbrev count_of : Errno → ℕ
count_of success = 1
count_of e = 0

count_of-cost_of : (e : Errno) → initiation_cost * count_of e ≡ cost_of e
count_of-cost_of success = omega arith
count_of-cost_of _ = omega arith

get_or-map-survivors :
    (t : ℕ) (bs : List (List Entry)) (i : ℕ)
    → get_or (map (survivors false t) bs) i [] ≡ survivors false t (get_or bs i [])
unfolding survivors
get_or-map-survivors t bs i = get_or-map (survivors false t) bs i []

module _ (siphash13 : List ℕ → List ℕ → ℕ) (n : ℕ) where
  -- The requests of one address that are granted.
  pub granted : List ℕ → Ratelimit → List (ℕ × Event) → ℕ
  granted bytes rl [] = 0
  granted bytes rl ((t, collect) ∷ es) = granted bytes (gc_callout rl t) es
  granted bytes rl ((t, request key memory) ∷ es) =
      let (e, rl') = allow_key siphash13 rl key n t memory in
      (if list_eq bytes (key_bytes key n) then count_of e else 0) + granted bytes rl' es

  -- A table between two events.
  pub record IsReady (t : ℕ) (rl : Ratelimit) : Type 0 where
    pub valid : IsValid t rl
    pub distinct : All (IsDistinct n) rl.table

  -- `ratelimit_gc_callout` at time `now`, on a well-formed table in which no address has two entries,
  -- changes no address's credit at any later time. The credit is the tokens that the address could spend
  -- then, which is a full bucket for an address with no entry.
  pub gc_callout-credit_in :
      (rl : Ratelimit) (bytes : List ℕ) (now later : ℕ)
      → IsReady now rl
      → now ≤ later
      → credit_in siphash13 n (gc_callout rl now) bytes later ≡ credit_in siphash13 n rl bytes later
  unfolding gc_callout credit_in bucket_of
  gc_callout-credit_in rl bytes now later r h =
      let fields = ratelimit_gc_fields rl false false now r.valid in
      elim fields.1 [
        | inl same ↦ rw (fields.0, same)
        | inr swept ↦
            rw (fields.0, swept, get_or-map-survivors now rl.table)
              (credit-survivors bytes n now later _ h
                (All-get_or (IsDistinct n) rl.table _ [] tt r.distinct))
      ]

  module _ (t : ℕ) (rl : Ratelimit) (r : IsReady t rl) (early : t < 2 ^ 63) where
    allow_key-IsReady :
        (key : Key) (memory : Bool) → IsReady t (allow_key siphash13 rl key n t memory).1
    allow_key-IsReady key memory = record {
      valid = allow_key-IsValid siphash13 rl t r.valid key n memory;
      distinct = (allow_key-Charges siphash13 n t rl key r.valid r.distinct early memory).distinct;
    }

    request_cost :
        (bytes : List ℕ) (key : Key) (memory : Bool)
        → let (e, rl') = allow_key siphash13 rl key n t memory in
          initiation_cost * (if list_eq bytes (key_bytes key n) then count_of e else 0)
            + credit_in siphash13 n rl' bytes t
          ≤ credit_in siphash13 n rl bytes t
    request_cost bytes key memory =
        let c = allow_key-Charges siphash13 n t rl key r.valid r.distinct early memory in
        elim (Bool-cases (list_eq bytes (key_bytes key n))) [
          | inl own ↦
              rw (own, (list_eq_iff bytes (key_bytes key n)).0 own)
                (omega
                  (arith, c.charged, count_of-cost_of (allow_key siphash13 rl key n t memory).0))
          | inr away ↦
              rw (away, c.others bytes (λ e. cc (away, (list_eq_iff bytes (key_bytes key n)).1 e)))
                (omega arith)
        ]

    gc_callout-IsReady : IsReady t (gc_callout rl t)
    unfolding gc_callout
    gc_callout-IsReady = record {
      valid = ratelimit_gc-IsValid rl false false t r.valid;
      distinct = elim (ratelimit_gc_fields rl false false t r.valid).1 [
        | inl same ↦ rw same r.distinct
        | inr swept ↦ rw swept (
            All-map (IsDistinct n) (IsDistinct n) (survivors false t)
              (survivors-IsDistinct n t false) rl.table r.distinct)
      ];
    }

  credit_in_grows :
      (rl : Ratelimit) (bytes : List ℕ) (now later : ℕ)
      → now ≤ later
      → credit_in siphash13 n rl bytes later ≤ credit_in siphash13 n rl bytes now + (later - now)
  unfolding credit_in
  credit_in_grows rl bytes now later h = credit_grows _ now later h

  IsOrdered-le : (start stop : ℕ) (es : List (ℕ × Event)) → IsOrdered start es stop → start ≤ stop
  IsOrdered-le start stop [] o = o
  IsOrdered-le start stop ((t, e) ∷ es) o = omega (arith, o.0, IsOrdered-le t stop es o.1)

  IsReady-later : (t t' : ℕ) (rl : Ratelimit) → t ≤ t' → IsReady t rl → IsReady t' rl
  IsReady-later t t' rl h r = record {
    valid = IsValid-later t t' rl h r.valid;
    distinct = r.distinct;
  }

  granted_le_credit :
      (bytes : List ℕ) (rl : Ratelimit) (start stop : ℕ) (es : List (ℕ × Event))
      → IsReady start rl
      → IsOrdered start es stop
      → stop < 2 ^ 63
      → initiation_cost * granted bytes rl es
        ≤ credit_in siphash13 n rl bytes start + (stop - start)
  unfolding granted
  granted_le_credit bytes rl start stop [] r o b = omega arith
  granted_le_credit bytes rl start stop ((t, collect) ∷ es) r o b =
      let now = IsReady-later start t rl o.0 r in
      let early : t < 2 ^ 63 = omega (arith, IsOrdered-le t stop es o.1) in
      omega (
        arith,
        granted_le_credit bytes (gc_callout rl t) t stop es (gc_callout-IsReady t rl now early) o.1
            b,
        gc_callout-credit_in rl bytes t t now (omega arith),
        credit_in_grows rl bytes start t o.0,
        IsOrdered-le t stop es o.1,
      )
  granted_le_credit bytes rl start stop ((t, request key memory) ∷ es) r o b =
      let now = IsReady-later start t rl o.0 r in
      let early : t < 2 ^ 63 = omega (arith, IsOrdered-le t stop es o.1) in
      omega (
        arith,
        granted_le_credit bytes (allow_key siphash13 rl key n t memory).1 t stop es
            (allow_key-IsReady t rl now early key memory) o.1 b,
        request_cost t rl now early bytes key memory,
        credit_in_grows rl bytes start t o.0,
        IsOrdered-le t stop es o.1,
      )

-- Whatever requests and collections come between `start` and `stop`, the requests granted to one address
-- are at most INITIATIONS_BURSTABLE plus the time between them over INITIATION_COST: times
-- INITIATION_COST they are at most TOKEN_MAX and that time. The table is any well-formed one with no
-- address twice, the clock does not go back, and its readings are below 2 ^ 63.
pub granted_rate :
    (siphash13 : List ℕ → List ℕ → ℕ) (n : ℕ) (bytes : List ℕ) (rl : Ratelimit) (start stop : ℕ)
    (es : List (ℕ × Event))
    → IsReady siphash13 n start rl
    → IsOrdered start es stop
    → stop < 2 ^ 63
    → initiation_cost * granted siphash13 n bytes rl es ≤ token_max + (stop - start)
unfolding credit_in
granted_rate siphash13 n bytes rl start stop es r o b = omega (
  arith,
  granted_le_credit siphash13 n bytes rl start stop es r o b,
  credit-le (find bytes n (get_or rl.table (bucket_of siphash13 rl bytes) [])) start,
)
