-- ===== src/Noise/Symmetric.antt =====
-- The handshake helpers of wg_noise.c: `noise_kdf`, the `noise_mix_*` and the `noise_msg_*` functions.
-- They write through pointers into a `struct noise_handshake`; here they are steps on that record, and
-- what they wrote before an error stays written.
use wireguard_freebsd.Prelude.{
  ◌≡◌, ap, ℕ, false, [], ◌∷◌, ◌++◌, Option, none, some, take, replicate, list_eq, ◌==◌,
  if◌then◌else◌, Errno, einval, enoent, Bytes, codes, Result, ok, err,
}
use wireguard_freebsd.Noise.Crypto.{Crypto}

-- NOISE_HASH_LEN, NOISE_PUBLIC_KEY_LEN and NOISE_SYMMETRIC_KEY_LEN.
abbrev pub noise_hash_len : ℕ
noise_hash_len = 32

abbrev pub noise_public_key_len : ℕ
noise_public_key_len = 32

abbrev pub noise_symmetric_key_len : ℕ
noise_symmetric_key_len = 32

abbrev pub noise_handshake_name : Bytes
noise_handshake_name = codes "Noise_IKpsk2_25519_ChaChaPoly_BLAKE2s"

abbrev pub noise_identifier_name : Bytes
noise_identifier_name = codes "WireGuard v1 zx2c4 Jason@zx2c4.com"

pub record Handshake : Type 0 where
  pub e : Bytes
  pub hash : Bytes
  pub ck : Bytes

abbrev pub no_handshake : Handshake
no_handshake = record { e = []; hash = []; ck = [] }

-- A step reads and writes a handshake, and returns a value or an error.
abbrev pub Run : Type 0 → Type 0
Run A = Handshake → Result A × Handshake

abbrev pub and_then : {A B : Type 0} → (A → Run B) → Result A × Handshake → Result B × Handshake
and_then f (ok a, hs) = f a hs
and_then f (err e, hs) = (err e, hs)

infixl 5 ◌>>=◌ ◌>>◌
abbrev pub ◌>>=◌ : {A B : Type 0} → Run A → (A → Run B) → Run B
◌>>=◌ m f hs = and_then f (m hs)

abbrev pub ◌>>◌ : {B : Type 0} → Run (Unit {0}) → Run B → Run B
m >> k = m >>= λ _. k

abbrev pub pure : {A : Type 0} → A → Run A
pure a hs = (ok a, hs)

-- A value that a call yields, or the error of the call.
abbrev pub or_fail : {A : Type 0} → Option A → Errno → Run A
or_fail none e hs = (err e, hs)
or_fail (some a) e hs = (ok a, hs)

pub bind_ok :
    {A B : Type 0} (m : Run A) (f : A → Run B) (hs hs' : Handshake) (a : A)
    → m hs ≡ (ok a, hs')
    → (m >>= f) hs ≡ f a hs'
bind_ok m f hs hs' a e = ap (and_then f) e

pub or_fail_ok :
    {A : Type 0} (o : Option A) (e : Errno) (hs : Handshake) (a : A)
    → o ≡ some a
    → or_fail o e hs ≡ (ok a, hs)
or_fail_ok o e hs a g = ap (λ t. or_fail t e hs) g

pub record Keys : Type 0 where
  pub first : Bytes
  pub second : Bytes
  pub third : Bytes

module _ (c : Crypto) where
  -- The outputs of `noise_kdf` by their lengths; a null pointer counts as the length 0.
  pub kdf : Bytes → ℕ → ℕ → ℕ → Bytes → Keys
  kdf x a_len b_len c_len ck =
      let sec = c.blake2s_hmac x ck in
      let out1 = c.blake2s_hmac (1 ∷ []) sec in
      let out2 = c.blake2s_hmac (out1 ++ 2 ∷ []) sec in
      let out3 = c.blake2s_hmac (out2 ++ 3 ∷ []) sec in
      if a_len == 0
      then record { first = []; second = []; third = [] }
      else (if b_len == 0
          then record { first = take a_len out1; second = []; third = [] }
          else (if c_len == 0
              then record { first = take a_len out1; second = take b_len out2; third = [] }
              else record {
                first = take a_len out1;
                second = take b_len out2;
                third = take c_len out3;
              }))

  pub mix_hash : Bytes → Run (Unit {0})
  mix_hash src hs = (ok tt, record hs { hash = c.blake2s (hs.hash ++ src) })

  -- The key of `noise_mix_dh`; a caller that passes NULL for it does not look at it.
  unfoldable pub mix_key : ℕ → Bytes → Run Bytes
  mix_key key_len x hs =
      let k = kdf x noise_hash_len key_len 0 hs.ck in (ok k.second, record hs { ck = k.first })

  unfoldable pub mix_dh : ℕ → Bytes → Bytes → Run Bytes
  unfolding mix_key
  mix_dh key_len private public = do
    dh ← or_fail (c.curve25519 private public) einval
    mix_key key_len dh

  unfoldable pub mix_ss : Bytes → Run Bytes
  unfolding mix_key
  mix_ss ss hs =
      if list_eq ss (replicate noise_public_key_len 0)
      then (err enoent, hs)
      else mix_key noise_symmetric_key_len ss hs

  unfoldable pub mix_psk : Bytes → Run Bytes
  mix_psk psk hs =
      let k = kdf psk noise_hash_len noise_hash_len noise_symmetric_key_len hs.ck in
      (ok k.third, record hs { ck = k.first; hash = c.blake2s (hs.hash ++ k.second) })

  -- The chaining key and the hash at the start; the ephemeral key is left alone.
  unfoldable pub param_init : Bytes → Run (Unit {0})
  param_init s hs =
      let ck = c.blake2s noise_handshake_name in
      let hash = c.blake2s (ck ++ noise_identifier_name) in
      (ok tt, record hs { ck = ck; hash = c.blake2s (hash ++ s) })

  -- The nonce is always zero for Noise_IK.
  unfoldable pub msg_encrypt : Bytes → Bytes → Run Bytes
  msg_encrypt src key hs =
      let dst = c.encrypt src hs.hash 0 key in
      (ok dst, record hs { hash = c.blake2s (hs.hash ++ dst) })

  unfoldable pub msg_decrypt : Bytes → Bytes → Run Bytes
  msg_decrypt src key hs = elim (c.decrypt src hs.hash 0 key) [
    | none ↦ (err einval, hs)
    | some dst ↦ (ok dst, record hs { hash = c.blake2s (hs.hash ++ src) })
  ]

  unfoldable pub msg_ephemeral : Bytes → Run (Unit {0})
  msg_ephemeral src hs = (
    ok tt,
    record hs { hash = c.blake2s (hs.hash ++ src); ck = (kdf src noise_hash_len 0 0 hs.ck).first },
  )

  -- The steps that can fail, when they do not.
  pub mix_dh_ok :
      (n : ℕ) (private public dh : Bytes) (hs : Handshake)
      → c.curve25519 private public ≡ some dh
      → mix_dh n private public hs ≡ (
        ok (kdf dh noise_hash_len n 0 hs.ck).second,
        record hs { ck = (kdf dh noise_hash_len n 0 hs.ck).first },
      )
  unfolding mix_dh
  mix_dh_ok n private public dh hs e = rw e

  pub mix_ss_ok :
      (ss : Bytes) (hs : Handshake)
      → list_eq ss (replicate noise_public_key_len 0) ≡ false
      → mix_ss ss hs ≡ (
        ok (kdf ss noise_hash_len noise_symmetric_key_len 0 hs.ck).second,
        record hs { ck = (kdf ss noise_hash_len noise_symmetric_key_len 0 hs.ck).first },
      )
  unfolding mix_ss
  mix_ss_ok ss hs e = rw e

  pub msg_decrypt_ok :
      (src key dst : Bytes) (hs : Handshake)
      → c.decrypt src hs.hash 0 key ≡ some dst
      → msg_decrypt src key hs ≡ (ok dst, record hs { hash = c.blake2s (hs.hash ++ src) })
  unfolding msg_decrypt
  msg_decrypt_ok src key dst hs e = rw (e, msg_decrypt)
