-- ===== src/Cookie/Ratelimit/Charge.antt =====
-- What one request does to the credit of every address.
use wireguard_freebsd.Prelude.{
  ℕ, ◌+◌, ◌-◌, ◌%◌, ◌^◌, ◌≤◌, ◌<◌, ◌≡◌, ◌≢◌, refl, ap, inl, inr, Bool, true, ◌||◌, not, List, [],
  ◌∷◌, Option, none, some, Bool-cases, get_or, set, get_or-set_self, get_or-set_ne, All-get_or,
  All-set, leb, list_eq, list_eq_iff, list_eq_ne, Errno, success, econnrefused, All, arith,
}
use wireguard_freebsd.Cookie.Ratelimit.{
  ratelimit_size, ratelimit_size_max, initiation_cost, token_max, Key, key_bytes, Entry, Ratelimit,
  spend, add_entry, store_visit, bucket_of, allow_key,
}
use wireguard_freebsd.Cookie.Ratelimit.Valid.{IsEntry, IsValid}
use wireguard_freebsd.Cookie.Ratelimit.Keeps.{gc_schedule_fields}
use wireguard_freebsd.Cookie.Ratelimit.Credit.{
  find, credit, find-IsEntry, IsDistinct, Visited, visit-Visited, cost_of, credit-spend, find_hit,
  find_miss,
}
use native.Mathlib.Decide.{ℕ_discrete}

module _ (siphash13 : List ℕ → List ℕ → ℕ) (n : ℕ) where
  -- The credit of an address in the table.
  unfoldable pub credit_in : Ratelimit → List ℕ → ℕ → ℕ
  credit_in rl bytes now =
      credit (find bytes n (get_or rl.table (bucket_of siphash13 rl bytes) [])) now

  -- What a request for `key` may do to the credits of all addresses.
  pub record Charges (rl : Ratelimit) (key : Key) (now : ℕ) (out : Errno × Ratelimit) : Type 0 where
    pub same_secret : out.1.secret ≡ rl.secret
    pub distinct : All (IsDistinct n) out.1.table
    pub charged :
        credit_in out.1 (key_bytes key n) now + cost_of out.0 ≤ credit_in rl (key_bytes key n) now
    pub others :
        (other : List ℕ)
        → other ≢ key_bytes key n
        → credit_in out.1 other now ≡ credit_in rl other now

module _ (siphash13 : List ℕ → List ℕ → ℕ) (n now : ℕ) (rl : Ratelimit) (key : Key)
    (v : IsValid now rl) (d : All (IsDistinct n) rl.table) (early : now < 2 ^ 63) where
  abbrev own : List ℕ
  own = key_bytes key n

  abbrev home : ℕ
  home = siphash13 rl.secret own % ratelimit_size

  -- Another bucket in place of the address's own.
  put-Charges :
      (e : Errno) (b : List Entry) (rl' : Ratelimit)
      → rl'.secret ≡ rl.secret
      → rl'.table ≡ set rl.table home b
      → IsDistinct n b
      → credit (find own n b) now + cost_of e ≤ credit (find own n (get_or rl.table home [])) now
      → ((other : List ℕ) → other ≢ own → find other n b ≡ find other n (get_or rl.table home []))
      → Charges siphash13 n rl key now (e, rl')
  unfolding credit_in bucket_of
  put-Charges e b rl' sec tab dis chg oth = record {
    same_secret = sec;
    distinct = rw tab (All-set (IsDistinct n) rl.table home b dis d);
    charged = rw (sec, tab, get_or-set_self rl.table home b [] (omega (arith, v.buckets))) chg;
    others = λ other ne.
        rw (sec, tab)
          (elim (ℕ_discrete home (siphash13 rl.secret other % ratelimit_size)) [
            | yes e ↦
                rw (← e, get_or-set_self rl.table home b [] (omega (arith, v.buckets)))
                  (ap (λ o. credit o now) (oth other ne))
            | no away ↦ rw (get_or-set_ne rl.table home _ b [] away)
          ]);
  }

  stay-Charges : (e : Errno) → cost_of e ≡ 0 → Charges siphash13 n rl key now (e, rl)
  stay-Charges e h = record {
    same_secret = refl;
    distinct = d;
    charged = omega (arith, h);
    others = λ other ne. refl;
  }

  add_entry-Charges :
      (memory : Bool)
      → find own n (get_or rl.table home []) ≡ none
      → Charges siphash13 n rl key now (add_entry rl home key now memory)
  unfolding add_entry
  add_entry-Charges memory free =
      elim (Bool-cases (leb ratelimit_size_max rl.table_num || not memory)) [
        | inl full ↦ rw full (stay-Charges econnrefused refl)
        | inr ok ↦
            let self : list_eq own own ≡ true = (list_eq_iff own own).1 refl in
            rw ok (
              put-Charges success (newcomer ∷ get_or rl.table home []) _ (gc_schedule_fields _).0
                (gc_schedule_fields _).1 (free, All-get_or (IsDistinct n) rl.table home [] tt d)
                (rw (find_hit own n newcomer (get_or rl.table home []) self, free) (omega arith))
                (λ other ne.
                  find_miss other n newcomer (get_or rl.table home [])
                    (list_eq_ne own own other self ne)))
      ]
    where
      newcomer : Entry
      newcomer = record { key = key; last_time = now; tokens = token_max - initiation_cost }

  store_visit-Charges :
      (memory : Bool) (o : Option (Errno × List Entry)) (f : Option Entry)
      → find own n (get_or rl.table home []) ≡ f
      → Visited own n now (get_or rl.table home []) o f
      → Charges siphash13 n rl key now (store_visit rl home key now memory o)
  unfolding store_visit
  store_visit-Charges memory o none free vis = rw vis (add_entry-Charges memory free)
  store_visit-Charges memory o (some r) here vis = rw vis.1 (
      put-Charges (spend r now).0 vis.0 _ refl refl
        (vis.4 (All-get_or (IsDistinct n) rl.table home [] tt d))
        (rw (vis.2, here)
          (credit-spend r now
            (find-IsEntry own n now _ r
              (All-get_or (All (IsEntry now)) rl.table home [] tt v.entries) here)
            early))
        vis.3)

  -- A request before the time 2 ^ 63, on a well-formed table with no address twice, charges its own
  -- address: when granted at least INITIATION_COST, of at most its credit. No other address's credit
  -- changes, and no address comes in twice.
  pub allow_key-Charges :
      (memory : Bool) → Charges siphash13 n rl key now (allow_key siphash13 rl key n now memory)
  unfolding allow_key bucket_of
  allow_key-Charges memory =
      store_visit-Charges memory _ _ refl (visit-Visited own n now (get_or rl.table home []))
