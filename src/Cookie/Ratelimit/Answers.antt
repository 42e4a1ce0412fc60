-- ===== src/Cookie/Ratelimit/Answers.antt =====
-- What ratelimit_allow answers: 0 or ECONNREFUSED.
use wireguard_freebsd.Prelude.{
  ℕ, inl, inr, Bool, List, [], ◌∷◌, Option, none, some, Errno, Bool-cases, list_eq, ◌||◌, not, leb,
}
use wireguard_freebsd.Cookie.Ratelimit.{
  Entry, Ratelimit, Key, Sockaddr, inet, inet6, other_family, key_bytes, spend, visit, put_back,
  add_entry, store_visit, allow_key, ratelimit_allow, refill, initiation_cost, ratelimit_size_max,
}

abbrev pub IsAnswer : Errno → Type 0
IsAnswer Errno.success = Unit {0}
IsAnswer Errno.econnrefused = Unit {0}
IsAnswer _ = ⊥

abbrev Answers : Option (Errno × List Entry) → Type 0
Answers none = Unit {0}
Answers (some (e, b)) = IsAnswer e

spend-IsAnswer : (r : Entry) (now : ℕ) → IsAnswer (spend r now).0
unfolding spend
spend-IsAnswer r now = elim (Bool-cases (leb initiation_cost (refill r now))) [
  | inl enough ↦ rw enough tt
  | inr short ↦ rw short tt
]

put_back-Answers :
    (r : Entry) (o : Option (Errno × List Entry)) → Answers o → Answers (put_back r o)
unfolding put_back
put_back-Answers r none h = tt
put_back-Answers r (some (e, b)) h = h

visit-Answers : (bytes : List ℕ) (n now : ℕ) (b : List Entry) → Answers (visit bytes n now b)
unfolding visit
visit-Answers bytes n now [] = tt
visit-Answers bytes n now (r ∷ rs) = elim (Bool-cases (list_eq (key_bytes r.key n) bytes)) [
  | inl hit ↦ rw hit (spend-IsAnswer r now)
  | inr miss ↦ rw miss (put_back-Answers r (visit bytes n now rs) (visit-Answers bytes n now rs))
]

add_entry-IsAnswer :
    (rl : Ratelimit) (bucket : ℕ) (key : Key) (now : ℕ) (memory : Bool)
    → IsAnswer (add_entry rl bucket key now memory).0
unfolding add_entry
add_entry-IsAnswer rl bucket key now memory =
    elim (Bool-cases (leb ratelimit_size_max rl.table_num || not memory)) [
      | inl full ↦ rw full tt
      | inr room ↦ rw room tt
    ]

store_visit-IsAnswer :
    (rl : Ratelimit) (bucket : ℕ) (key : Key) (now : ℕ) (memory : Bool)
    (o : Option (Errno × List Entry))
    → Answers o
    → IsAnswer (store_visit rl bucket key now memory o).0
unfolding store_visit
store_visit-IsAnswer rl bucket key now memory none h = add_entry-IsAnswer rl bucket key now memory
store_visit-IsAnswer rl bucket key now memory (some (e, b)) h = h

module _ (siphash13 : List ℕ → List ℕ → ℕ) where
  allow_key-IsAnswer :
      (rl : Ratelimit) (key : Key) (n now : ℕ) (memory : Bool)
      → IsAnswer (allow_key siphash13 rl key n now memory).0
  unfolding allow_key
  allow_key-IsAnswer rl key n now memory =
      store_visit-IsAnswer rl _ key now memory _ (visit-Answers (key_bytes key n) n now _)

  pub ratelimit_allow-IsAnswer :
      (rl : Ratelimit) (sa : Sockaddr) (vnet now : ℕ) (memory : Bool)
      → IsAnswer (ratelimit_allow siphash13 rl sa vnet now memory).0
  unfolding ratelimit_allow
  ratelimit_allow-IsAnswer rl (inet addr port) vnet now memory =
      allow_key-IsAnswer rl _ 4 now memory
  ratelimit_allow-IsAnswer rl (inet6 addr port) vnet now memory =
      allow_key-IsAnswer rl _ 8 now memory
  ratelimit_allow-IsAnswer rl other_family vnet now memory = tt
