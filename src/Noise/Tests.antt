-- ===== src/Noise/Tests.antt =====
-- Primitives to compute with in place of those of crypto.c, and the theorems on the handshake and on the
-- keypairs at concrete values.
use wireguard_freebsd.Prelude.{
  success, ℕ, ◌+◌, ◌*◌, ◌==◌, ==_iff, true, false, [], ◌∷◌, Option, none, some, ◌≡◌, refl, ap,
  arith, if◌then◌else◌, Bytes, Result, ok, err,
}
use wireguard_freebsd.Prelude.Int.{pos}
use wireguard_freebsd.Noise.Crypto.{Crypto, IsCrypto}
use wireguard_freebsd.Noise.Symmetric.{Handshake, no_handshake}
use wireguard_freebsd.Noise.Counter.{fresh}
use wireguard_freebsd.Noise.Script.{
  create_initiation_script, consume_static_script, consume_timestamp_script, create_response_script,
  consume_response_script,
}
use wireguard_freebsd.Noise.Script.Agree.{initiation_agrees, response_agrees}
use wireguard_freebsd.Noise.State.{
  Noise, Remote, Keypair, HandshakeState, dead, initiator, responder, timer_reset, store,
}
use wireguard_freebsd.Noise.Keypair.{new_keypair, put_in_slots, received_with, keypairs_clear}
use wireguard_freebsd.Noise.Keypair.Nonce.{nonces, IsRun, nonces-IsRun}
use wireguard_freebsd.Noise.Keypair.Slots.{
  IsCounted, IsBalanced, put_in_slots-IsBalanced, received_with-IsBalanced,
  keypairs_clear-IsBalanced,
}
use wireguard_freebsd.Noise.Handshake.{consume_initiation, remote_lookup}
use wireguard_freebsd.Noise.Config.{remote_enable, remote_disable}
use wireguard_freebsd.Noise.Config.Keeps.{enable_all}
use wireguard_freebsd.Noise.Config.Lookup.{
  remote_lookup-remote_enable, remote_disable-remote_enable,
}
use wireguard_freebsd.Noise.Handshake.Replay.{Outcome, consume_initiation-Outcome}
use wireguard_freebsd.Noise.Handshake.Session.{sessions_agree}

abbrev sum : Bytes → ℕ
sum [] = 0
sum (x ∷ xs) = x + sum xs

abbrev tag : Bytes → ℕ → Bytes → ℕ
tag ad nonce key = sum ad + nonce + 3 * sum key

abbrev open_box : Bytes → ℕ → Option Bytes
open_box [] t = none
open_box (x ∷ xs) t = if x == t then some xs else none

abbrev pub toy : Crypto
toy = record {
  curve25519 = λ secret point. some ((1 + sum secret + sum point) ∷ []);
  generate_public = λ secret. some secret;
  clamp_secret = λ secret. secret;
  blake2s = λ x. (1 + sum x) ∷ [];
  blake2s_hmac = λ x key. (2 + sum x + sum key) ∷ [];
  encrypt = λ plain ad nonce key. tag ad nonce key ∷ plain;
  decrypt = λ box ad nonce key. open_box box (tag ad nonce key);
}

open_same : (t : ℕ) (xs : Bytes) → open_box (t ∷ xs) t ≡ some xs
open_same t xs = rw ((==_iff t t).1 refl)

swapped :
    (a b pub_a pub_b : Bytes)
    → a ≡ pub_a
    → b ≡ pub_b
    → 1 + sum a + sum pub_b ≡ 1 + sum b + sum pub_a
swapped a b pub_a pub_b e e' = rw (e, e') (omega arith)

same : (a b : Bytes) → some a ≡ some b → a ≡ b
same a b e = cc

toy_law : IsCrypto toy
toy_law = record {
  decrypt-encrypt = λ plain ad nonce key. open_same (tag ad nonce key) plain;
  shared_secret = λ a b pub_a pub_b ga gb.
      ap (λ n. some (n ∷ [])) (swapped a b pub_a pub_b (same a pub_a ga) (same b pub_b gb));
}

abbrev hs0 : Handshake
hs0 = no_handshake

initiation_agrees_example :
    (es ets : Bytes) × (done mid : Handshake) × (create_initiation_script toy
        (1 ∷ [])
        (2 ∷ [])
        (9 ∷ [])
        (5 ∷ [])
        (7 ∷ [])
        hs0
      ≡ (ok (5 ∷ [], es, ets), done))
    × (consume_static_script toy (2 ∷ []) (2 ∷ []) (5 ∷ []) es hs0 ≡ (ok (1 ∷ []), mid))
    × (consume_timestamp_script toy (9 ∷ []) (5 ∷ []) ets mid
        ≡ (ok (7 ∷ []), record done { e = 5 ∷ [] }))
    × (done.e ≡ 5 ∷ [])
initiation_agrees_example =
    initiation_agrees toy toy_law (2 ∷ []) (1 ∷ []) (2 ∷ []) (9 ∷ []) (5 ∷ []) (7 ∷ []) (5 ∷ [])
      (8 ∷ []) hs0 hs0 refl refl refl refl

response_agrees_example :
    (en : Bytes) × (done done' : Handshake) × (create_response_script toy
        (1 ∷ [])
        (4 ∷ [])
        (6 ∷ [])
        (record { e = 5 ∷ []; hash = 3 ∷ []; ck = 2 ∷ [] })
      ≡ (ok (6 ∷ [], en), done))
    × (consume_response_script toy
          (1 ∷ [])
          (4 ∷ [])
          (6 ∷ [])
          en
          (record { e = 5 ∷ []; hash = 3 ∷ []; ck = 2 ∷ [] })
        ≡ (ok [], done'))
    × (done'.ck ≡ done.ck)
    × (done'.hash ≡ done.hash)
response_agrees_example =
    response_agrees toy toy_law (1 ∷ []) (1 ∷ []) (5 ∷ []) (5 ∷ []) (6 ∷ []) (6 ∷ []) (4 ∷ [])
      (12 ∷ []) (8 ∷ []) (3 ∷ []) (2 ∷ []) refl refl refl refl refl

-- One remote, at the address 0, with the keypairs 1, 2 and 3 in its slots.
abbrev remote0 : HandshakeState → Remote
remote0 state = record {
  index = record { local_index = 40; remote_index = 50 };
  entry_inserted = true;
  public = 1 ∷ [];
  handshake = record { e = 5 ∷ []; hash = 3 ∷ []; ck = 2 ∷ [] };
  handshake_state = state;
  last_sent = timer_reset;
  last_init_recv = timer_reset;
  timestamp = 0 ∷ [];
  psk = 4 ∷ [];
  ss = 9 ∷ [];
  refcnt = 4;
  next = some 1;
  current = some 2;
  previous = some 3;
}

abbrev keypair0 : Keypair
keypair0 = record {
  index = record { local_index = 60; remote_index = 70 };
  refcnt = 1;
  can_send = true;
  is_initiator = false;
  birthdate = pos 0;
  remote = 0;
  send = [];
  recv = [];
  counter = fresh;
}

abbrev pub noise0 : HandshakeState → Noise
noise0 state = record {
  has_identity = true;
  public = 2 ∷ [];
  private = 2 ∷ [];
  hash_key = [];
  remote_num = 1;
  remote_hash = λ b. 0 ∷ [];
  index_hash = λ b. [];
  remotes = λ r. remote0 state;
  keypairs = λ k. keypair0;
  deferred = [];
}

-- What the peer of `noise0` sends.
abbrev message : Result (Bytes × Bytes × Bytes) × Handshake → Bytes × Bytes × Bytes
message (ok m, hs) = m
message (err e, hs) = ([], [], [])

abbrev sent : Bytes × Bytes × Bytes
sent = message (create_initiation_script toy (1 ∷ []) (2 ∷ []) (9 ∷ []) (5 ∷ []) (7 ∷ []) hs0)

consume_initiation-Outcome_example : Outcome 86 (pos 1) (pos 2) (noise0 dead) (
    consume_initiation toy
      (λ key x. 0)
      (λ n. 86)
      (noise0 dead)
      50
      sent.0
      sent.1
      sent.2
      (11 ∷ [])
      (pos 1)
      (pos 2))
consume_initiation-Outcome_example =
    consume_initiation-Outcome toy (λ key x. 0) (λ n. 86) (noise0 dead) 50 sent.0 sent.1 sent.2
      (11 ∷ []) (pos 1) (pos 2)

sessions_agree_example :
    ((new_keypair toy (noise0 initiator) 0 (pos 1)).send
      ≡ (new_keypair toy (noise0 responder) 0 (pos 2)).recv)
    × ((new_keypair toy (noise0 initiator) 0 (pos 1)).recv
        ≡ (new_keypair toy (noise0 responder) 0 (pos 2)).send)
    × ((new_keypair toy (noise0 initiator) 0 (pos 1)).can_send ≡ true)
    × ((new_keypair toy (noise0 initiator) 0 (pos 1)).is_initiator ≡ true)
    × ((new_keypair toy (noise0 responder) 0 (pos 2)).is_initiator ≡ false)
sessions_agree_example =
    sessions_agree toy (noise0 initiator) (noise0 responder) 0 0 (pos 1) (pos 2) refl refl refl

nonces-IsRun_example : IsRun 0 (nonces 3 keypair0)
nonces-IsRun_example = nonces-IsRun 3 keypair0 (λ on. omega arith)

counted : IsCounted (noise0 initiator) 0
counted k = ground arith

put_in_slots-IsBalanced_example :
    IsBalanced (noise0 initiator) (put_in_slots (noise0 initiator) 0 8) 0 (some 8)
put_in_slots-IsBalanced_example = put_in_slots-IsBalanced (noise0 initiator) 0 8 counted

received_with-IsBalanced_example : IsBalanced (noise0 dead) (received_with (noise0 dead) 1).1 0 none
received_with-IsBalanced_example = received_with-IsBalanced (noise0 dead) 1 counted

keypairs_clear-IsBalanced_example : IsBalanced (noise0 dead) (keypairs_clear (noise0 dead) 0) 0 none
keypairs_clear-IsBalanced_example = keypairs_clear-IsBalanced (noise0 dead) 0 counted

-- The same side before it knows a remote.
abbrev empty0 : Noise
empty0 = record (noise0 dead) {
  remote_num = 0;
  remote_hash = λ i. [];
  remotes = λ r. record (remote0 dead) { entry_inserted = false };
}

-- A second remote with another key.
abbrev two_remotes : Noise
two_remotes = record empty0 {
  remotes = store empty0.remotes 1 (record (empty0.remotes 1) { public = 4 ∷ [] });
}

remote_lookup-remote_enable_example :
    let t = (remote_enable (λ key x. 3) two_remotes 0).1 in
    ((remote_enable (λ key x. 3) two_remotes 0).0 ≡ success)
    × ((remote_lookup (λ key x. 3) (enable_all (λ key x. 3) t (1 ∷ [])) (1 ∷ [])).0 ≡ some 0)
remote_lookup-remote_enable_example =
    remote_lookup-remote_enable (λ key x. 3) two_remotes 0 (1 ∷ []) refl (omega arith) refl
      ((λ e. absurd cc), tt)

remote_disable-remote_enable_example :
    ((remote_disable (remote_enable (λ key x. 3) empty0 0).1 0).remote_num ≡ 0)
    × ((i : ℕ) → (remote_disable (remote_enable (λ key x. 3) empty0 0).1 0).remote_hash i ≡ [])
remote_disable-remote_enable_example =
    remote_disable-remote_enable (λ key x. 3) empty0 0 refl (omega arith) (λ i. refl)
