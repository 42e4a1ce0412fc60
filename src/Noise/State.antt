-- ===== src/Noise/State.antt =====
-- The structures of wg_noise.c: `struct noise_index`, `noise_keypair`, `noise_remote` and `noise_local`.
-- The memory of one `noise_local` is two functions from addresses to the structures there; the locks are
-- not modelled, since each operation runs as one step. Times are the numbers of getsbinuptime().
use wireguard_freebsd.Prelude.{
  ℕ, ◌+◌, ◌-◌, ◌*◌, ◌^◌, ◌==◌, Bool, true, false, List, Option, if◌then◌else◌, Bytes, ◌≡◌, refl, ap,
  sym, ◌∙◌, Bool-cases, inl, inr, ==_iff,
}
use wireguard_freebsd.Prelude.Int.{ℤ, pos, negsuc, ◌+ℤ◌, ltb_ℤ}
use wireguard_freebsd.Noise.Counter.{Counter}
use wireguard_freebsd.Noise.Symmetric.{Handshake}

-- SBT_1S, and the constants of wg_noise.h and wg_noise.c that are times.
abbrev pub sbt_1s : ℕ
sbt_1s = 2 ^ 32

abbrev pub reject_after_time : ℕ
reject_after_time = 180

abbrev pub rekey_timeout : ℕ
rekey_timeout = 5

abbrev pub keepalive_timeout : ℕ
keepalive_timeout = 10

abbrev pub rekey_after_time : ℕ
rekey_after_time = 120

abbrev pub reject_interval : ℕ
reject_interval = 20000000

-- SBT_1S * -(REKEY_TIMEOUT + 1)
abbrev pub timer_reset : ℤ
timer_reset = negsuc (sbt_1s * (rekey_timeout + 1) - 1)

-- noise_timer_expired at the time `now`; `interval` is the sum of the seconds and nanoseconds that have
-- to have passed.
abbrev pub timer_expired : ℤ → ℤ → ℕ → Bool
timer_expired now timer interval = ltb_ℤ (timer +ℤ pos interval) now

abbrev pub seconds : ℕ → ℕ
seconds n = n * sbt_1s

-- What a pointer to a `struct noise_index` points into: `i_is_keypair` tells the two apart.
pub data Entry : Type 0 where
  of_remote of_keypair : ℕ → Entry

abbrev pub same_entry : Entry → Entry → Bool
same_entry (of_remote a) (of_remote b) = a == b
same_entry (of_keypair a) (of_keypair b) = a == b
same_entry (of_remote a) (of_keypair b) = false
same_entry (of_keypair a) (of_remote b) = false

pub record Index : Type 0 where
  pub local_index : ℕ
  pub remote_index : ℕ

pub record Keypair : Type 0 where
  pub index : Index
  pub refcnt : ℕ
  pub can_send : Bool
  pub is_initiator : Bool
  pub birthdate : ℤ
  pub remote : ℕ
  pub send : Bytes
  pub recv : Bytes
  pub counter : Counter

pub data HandshakeState : Type 0 where
  dead initiator responder : HandshakeState

abbrev pub is_dead : HandshakeState → Bool
is_dead dead = true
is_dead _ = false

abbrev pub is_initiating : HandshakeState → Bool
is_initiating initiator = true
is_initiating _ = false

abbrev pub is_responding : HandshakeState → Bool
is_responding responder = true
is_responding _ = false

pub record Remote : Type 0 where
  pub index : Index
  pub entry_inserted : Bool
  pub public : Bytes
  pub handshake : Handshake
  pub handshake_state : HandshakeState
  pub last_sent : ℤ
  pub last_init_recv : ℤ
  pub timestamp : Bytes
  pub psk : Bytes
  pub ss : Bytes
  pub refcnt : ℕ
  pub next : Option ℕ
  pub current : Option ℕ
  pub previous : Option ℕ

-- `deferred` are the addresses that NET_EPOCH_CALL was called for.
pub record Noise : Type 0 where
  pub has_identity : Bool
  pub public : Bytes
  pub private : Bytes
  pub hash_key : Bytes
  pub remote_num : ℕ
  pub remote_hash : ℕ → List ℕ
  pub index_hash : ℕ → List Entry
  pub remotes : ℕ → Remote
  pub keypairs : ℕ → Keypair
  pub deferred : List Entry

-- A store to the structure at an address.
abbrev pub store {ℓ} : {A : Type ℓ} → (ℕ → A) → ℕ → A → ℕ → A
store f k v i = if i == k then v else f i

pub store_here {ℓ} : {A : Type ℓ} (f : ℕ → A) (k : ℕ) (v : A) → store f k v k ≡ v
store_here f k v = rw ((==_iff k k).1 refl)

-- A part of the structures that the stored one shares with the one before stays the same everywhere.
pub store_same {ℓ m} :
    {A : Type ℓ} {B : Type m} (part : A → B) (f : ℕ → A) (k : ℕ) (v : A)
    → part v ≡ part (f k)
    → (i : ℕ) → part (store f k v i) ≡ part (f i)
store_same part f k v e i = elim (Bool-cases (i == k)) [
  | inl same ↦ rw same (e ∙ ap (λ j. part (f j)) (sym ((==_iff i k).0 same)))
  | inr other ↦ rw other
]

abbrev pub set_remote : Noise → ℕ → Remote → Noise
set_remote s r v = record s { remotes = store s.remotes r v }

abbrev pub set_keypair : Noise → ℕ → Keypair → Noise
set_keypair s k v = record s { keypairs = store s.keypairs k v }
