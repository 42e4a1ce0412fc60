-- ===== src/Noise/Config.antt =====
-- The configuration of the noise layer (wg_noise.c): the identity of this side (noise_local_private,
-- noise_local_keys), and the remotes that it knows (noise_remote_alloc, noise_remote_enable,
-- noise_remote_disable, noise_remote_set_psk, noise_remote_keys, noise_remote_free).
pub mod Keeps
pub mod Lookup
use wireguard_freebsd.Prelude.{
  ℕ, ◌+◌, ◌-◌, ◌%◌, ◌^◌, ◌==◌, ltb, Bool, true, false, not, ◌&&◌, List, [], ◌∷◌, Option, none, some,
  replicate, list_eq, if◌then◌else◌, Errno, success, enospc, enoent, Bytes, Result, ok, err, enxio,
}
use wireguard_freebsd.Noise.Crypto.{Crypto}
use wireguard_freebsd.Noise.Symmetric.{no_handshake, noise_public_key_len, noise_symmetric_key_len}
use wireguard_freebsd.Noise.State.{Noise, Remote, dead, set_remote, store, timer_reset}
use wireguard_freebsd.Noise.Index.{handshake_clear, remote_put}
use wireguard_freebsd.Noise.Keypair.{keypairs_clear, expire_current}
use wireguard_freebsd.Noise.Handshake.{ht_remote_size}

abbrev pub max_remote_per_local : ℕ
max_remote_per_local = 2 ^ 20

-- CK_LIST_REMOVE of a remote: it stands in one list, which its address does not tell.
pub erase_remote : ℕ → List ℕ → List ℕ
erase_remote r [] = []
erase_remote r (x ∷ xs) = let rest = erase_remote r xs in if r == x then rest else x ∷ rest

abbrev pub key_or_zero : Option Bytes → ℕ → Bytes
key_or_zero none n = replicate n 0
key_or_zero (some k) n = k

module _ (c : Crypto) where
  -- noise_precompute_ss
  pub precompute_ss : Noise → ℕ → Noise
  precompute_ss s r =
      let v = s.remotes r in
      let shared = if s.has_identity then c.curve25519 s.private v.public else none in
      set_remote s r (record v { ss = key_or_zero shared noise_public_key_len })

  -- The loop over one list of remotes.
  pub refresh : Noise → List ℕ → Noise
  refresh s [] = s
  refresh s (r ∷ rs) = refresh (expire_current (precompute_ss s r) r) rs

  -- The loop over the lists: `n` of them are left, from the list `i` on. It does not change the lists.
  pub refresh_all : ℕ → ℕ → Noise → Noise
  refresh_all ℕ.zero i s = s
  refresh_all (ℕ.suc n) i s = refresh_all n (i + 1) (refresh s (s.remote_hash i))

  -- noise_local_private. What curve25519_generate_public leaves in `l_public` when it fails is `junk`.
  pub local_private : Noise → Bytes → Bytes → Noise
  local_private s private junk =
      let clamped = c.clamp_secret private in
      let made : Bool × Bytes = elim (c.generate_public clamped) [
        | none ↦ (false, junk)
        | some public ↦ (true, public)
      ] in
      refresh_all ht_remote_size 0
        (record s { private = clamped; has_identity = made.0; public = made.1 })

  -- noise_remote_alloc at the address `r`, where malloc returned it; the reference on the local is not
  -- counted.
  pub remote_alloc : Noise → ℕ → Bytes → Noise
  remote_alloc s r public =
      precompute_ss
        (set_remote s r (record {
          index = record { local_index = 0; remote_index = 0 };
          entry_inserted = false;
          public = public;
          handshake = no_handshake;
          handshake_state = dead;
          last_sent = timer_reset;
          last_init_recv = timer_reset;
          timestamp = replicate 12 0;
          psk = replicate noise_symmetric_key_len 0;
          ss = replicate noise_public_key_len 0;
          refcnt = 1;
          next = none;
          current = none;
          previous = none;
        }))
        r

-- noise_local_keys
pub local_keys : Noise → Result (Bytes × Bytes)
local_keys s = if s.has_identity then ok (s.public, s.private) else err enxio

-- noise_remote_enable
pub remote_enable : (Bytes → Bytes → ℕ) → Noise → ℕ → Errno × Noise
remote_enable siphash24 s r =
    let v = s.remotes r in
    let i = siphash24 s.hash_key v.public % ht_remote_size in
    let s' = set_remote s r (record v { entry_inserted = true }) in
    if v.entry_inserted
    then (success, s)
    else (if ltb s.remote_num max_remote_per_local
        then (
          success,
          record s' {
            remote_num = s.remote_num + 1;
            remote_hash = store s.remote_hash i (r ∷ s.remote_hash i);
          },
        )
        else (enospc, s))

-- noise_remote_disable
pub remote_disable : Noise → ℕ → Noise
remote_disable s r =
    let v = s.remotes r in
    let s' = set_remote s r (record v { entry_inserted = false }) in
    if v.entry_inserted
    then record s' {
      remote_num = s.remote_num - 1;
      remote_hash = λ i. erase_remote r (s.remote_hash i);
    }
    else s

-- noise_remote_free; the cleanup function is called when the reference is the last.
pub remote_free : Noise → ℕ → Noise
remote_free s r = remote_put (keypairs_clear (handshake_clear (remote_disable s r) r) r) r

-- noise_remote_set_psk; `none` is a null key.
pub set_psk : Noise → ℕ → Option Bytes → Noise
set_psk s r psk =
    set_remote s r (record (s.remotes r) { psk = key_or_zero psk noise_symmetric_key_len })

-- noise_remote_keys, whose result is ENOENT without a preshared key.
pub remote_keys : Noise → ℕ → Errno × Bytes × Bytes
remote_keys s r =
    let v = s.remotes r in
    (
      if list_eq v.psk (replicate noise_symmetric_key_len 0) then enoent else success,
      v.public,
      v.psk,
    )
