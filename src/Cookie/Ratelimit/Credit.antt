-- ===== src/Cookie/Ratelimit/Credit.antt =====
-- The credit of a source address: the tokens that its entry would have if it were visited now. An
-- address with no entry has a full bucket. This file follows it through one bucket of the table.
use wireguard_freebsd.Prelude.{
  ℕ, ◌+◌, ◌-◌, ◌^◌, ◌≤◌, ◌<◌, min, ◌≡◌, ◌≢◌, refl, sym, ◌∙◌, ap, inl, inr, Bool, true, false, List,
  [], ◌∷◌, Option, none, some, Bool-cases, list_eq, list_eq_iff, list_eq_ne, if◌then◌else◌, Errno,
  success, All, arith,
}
use wireguard_freebsd.Cookie.Ratelimit.{
  initiation_cost, token_max, key_bytes, Entry, refill, spend, put_back, visit,
}
use wireguard_freebsd.Cookie.Ratelimit.Valid.{IsEntry, survivors}

-- The entry of an address in a bucket.
unfoldable pub find : List ℕ → ℕ → List Entry → Option Entry
find bytes n [] = none
find bytes n (r ∷ rs) = if list_eq (key_bytes r.key n) bytes then some r else find bytes n rs

abbrev pub credit : Option Entry → ℕ → ℕ
credit none now = token_max
credit (some r) now = min token_max (r.tokens + (now - r.last_time))

-- No address has two entries.
abbrev pub IsDistinct : ℕ → List Entry → Type 0
IsDistinct n [] = Unit {0}
IsDistinct n (r ∷ rs) = (find (key_bytes r.key n) n rs ≡ none) × IsDistinct n rs

pub credit_grows :
    (o : Option Entry) (now later : ℕ) → now ≤ later → credit o later ≤ credit o now + (later - now)
credit_grows none now later h = omega arith
credit_grows (some r) now later h = omega arith

-- What a visit returns, by the entry that it finds: the answer and the entry of `spend`, with every
-- other address's entry as it was.
abbrev pub Visited :
    List ℕ → ℕ → ℕ → List Entry → Option (Errno × List Entry) → Option Entry → Type 0
Visited bytes n now b o none = o ≡ none
Visited bytes n now b o (some r) =
    (b' : List Entry) × (o ≡ some ((spend r now).0, b'))
    × (find bytes n b' ≡ some (spend r now).1)
    × ((other : List ℕ) → other ≢ bytes → find other n b' ≡ find other n b)
    × (IsDistinct n b → IsDistinct n b')

spend-key : (r : Entry) (now : ℕ) → (spend r now).1.key ≡ r.key
unfolding spend
spend-key r now = ground arith

pub find_hit :
    (bytes : List ℕ) (n : ℕ) (r : Entry) (rs : List Entry)
    → list_eq (key_bytes r.key n) bytes ≡ true
    → find bytes n (r ∷ rs) ≡ some r
unfolding find
find_hit bytes n r rs h = rw h

pub find_miss :
    (bytes : List ℕ) (n : ℕ) (r : Entry) (rs : List Entry)
    → list_eq (key_bytes r.key n) bytes ≡ false
    → find bytes n (r ∷ rs) ≡ find bytes n rs
unfolding find
find_miss bytes n r rs h = rw h

-- An entry that was spent from still belongs to the same address.
same_address :
    (bytes : List ℕ) (n now : ℕ) (r : Entry)
    → list_eq (key_bytes (spend r now).1.key n) bytes ≡ list_eq (key_bytes r.key n) bytes
same_address bytes n now r = ap (λ k. list_eq (key_bytes k n) bytes) (spend-key r now)

put_back-Visited :
    (bytes : List ℕ) (n now : ℕ) (r : Entry) (rs : List Entry) (o : Option (Errno × List Entry))
    (f : Option Entry)
    → list_eq (key_bytes r.key n) bytes ≡ false
    → Visited bytes n now rs o f
    → Visited bytes n now (r ∷ rs) (put_back r o) f
unfolding put_back find
put_back-Visited bytes n now r rs o none miss v = rw v
put_back-Visited bytes n now r rs o (some x) miss v = (
  r ∷ v.0,
  rw v.1,
  rw miss v.2,
  λ other ne. ground (arith, v.3 other ne),
  λ d. (
    v.3 (key_bytes r.key n) (λ e. cc (miss, (list_eq_iff (key_bytes r.key n) bytes).1 e)) ∙ d.0,
    v.4 d.1,
  ),
)

pub visit-Visited :
    (bytes : List ℕ) (n now : ℕ) (b : List Entry)
    → Visited bytes n now b (visit bytes n now b) (find bytes n b)
unfolding visit find
visit-Visited bytes n now [] = refl
visit-Visited bytes n now (r ∷ rs) = elim (Bool-cases (list_eq (key_bytes r.key n) bytes)) [
  | inl hit ↦ rw hit (
    (spend r now).1 ∷ rs,
    refl,
    find_hit bytes n (spend r now).1 rs (same_address bytes n now r ∙ hit),
    λ other ne.
        let away = list_eq_ne (key_bytes r.key n) bytes other hit ne in
        find_miss other n (spend r now).1 rs (same_address other n now r ∙ away)
        ∙ sym (find_miss other n r rs away),
    λ d. (ap (λ k. find (key_bytes k n) n rs) (spend-key r now) ∙ d.0, d.1),
  )
  | inr miss ↦ rw miss (put_back-Visited bytes n now r rs _ _ miss (visit-Visited bytes n now rs))
]

find-survivors-none :
    (bytes : List ℕ) (n now : ℕ) (force : Bool) (b : List Entry)
    → find bytes n b ≡ none
    → find bytes n (survivors force now b) ≡ none
unfolding find survivors
find-survivors-none bytes n now force [] h = refl
find-survivors-none bytes n now force (r ∷ rs) h =
    ground (arith, find-survivors-none bytes n now force rs)

-- A collection at time `now` of a bucket with no address twice changes no address's credit at any
-- later time: who loses an entry had a full bucket of tokens.
pub credit-survivors :
    (bytes : List ℕ) (n now later : ℕ) (b : List Entry)
    → now ≤ later
    → IsDistinct n b
    → credit (find bytes n (survivors false now b)) later ≡ credit (find bytes n b) later
unfolding find survivors
credit-survivors bytes n now later [] h d = refl
credit-survivors bytes n now later (r ∷ rs) h d =
    let mine : list_eq (key_bytes r.key n) bytes ≡ true
        → find bytes n (survivors false now rs) ≡ none =
      λ hit.
        rw (← (list_eq_iff (key_bytes r.key n) bytes).0 hit)
          (find-survivors-none (key_bytes r.key n) n now false rs d.0) in
    ground (arith, mine, credit-survivors bytes n now later rs h d.1)

pub survivors-IsDistinct :
    (n now : ℕ) (force : Bool) (b : List Entry)
    → IsDistinct n b
    → IsDistinct n (survivors force now b)
unfolding survivors
survivors-IsDistinct n now force [] d = tt
survivors-IsDistinct n now force (r ∷ rs) d = ground (
  arith,
  survivors-IsDistinct n now force rs d.1,
  find-survivors-none (key_bytes r.key n) n now force rs d.0,
)

abbrev pub cost_of : Errno → ℕ
cost_of success = initiation_cost
cost_of e = 0

-- A granted request costs INITIATION_COST, a refused one nothing.
pub credit-spend :
    (r : Entry) (now : ℕ)
    → IsEntry now r
    → now < 2 ^ 63
    → credit (some (spend r now).1) now + cost_of (spend r now).0 ≤ credit (some r) now
unfolding spend refill
credit-spend r now h t = ground arith

pub find-IsEntry :
    (bytes : List ℕ) (n now : ℕ) (b : List Entry) (r : Entry)
    → All (IsEntry now) b
    → find bytes n b ≡ some r
    → IsEntry now r
unfolding find
find-IsEntry bytes n now [] r h e = cc
find-IsEntry bytes n now (x ∷ rs) r h e = ground (arith, find-IsEntry bytes n now rs r h.1)

pub credit-le : (o : Option Entry) (now : ℕ) → credit o now ≤ token_max
credit-le none now = omega arith
credit-le (some r) now = omega arith
