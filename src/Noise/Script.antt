-- ===== src/Noise/Script.antt =====
-- The cryptographic part of the four handshake functions of wg_noise.c, between the checks and updates
-- of the peer that stand in Noise/Handshake: each is a chain of steps that stops at the first error.
pub mod Agree
use wireguard_freebsd.Prelude.{
  ℕ, List, [], Option, none, some, Errno, einval, Bytes, Result, ok, err,
}
use wireguard_freebsd.Noise.Crypto.{Crypto}
use wireguard_freebsd.Noise.Symmetric.{
  Handshake, Run, ◌>>=◌, ◌>>◌, pure, or_fail, mix_dh, mix_ss, mix_psk, param_init, msg_encrypt,
  msg_decrypt, msg_ephemeral, noise_symmetric_key_len,
}

pub set_e : Bytes → Run (Unit {0})
set_e e hs = (ok tt, record hs { e = e })

pub get_e : Run Bytes
get_e hs = (ok hs.e, hs)

module _ (c : Crypto) where
  -- noise_create_initiation: the fields ue, es and ets of the message. `e` is what
  -- curve25519_generate_secret draws.
  pub create_initiation_script : Bytes → Bytes → Bytes → Bytes → Bytes → Run (Bytes × Bytes × Bytes)
  unfolding set_e
  create_initiation_script l_public r_public r_ss e timestamp = do
    param_init c r_public
    set_e e
    ue ← or_fail (c.generate_public e) einval
    msg_ephemeral c ue
    key ← mix_dh c noise_symmetric_key_len e r_public
    es ← msg_encrypt c l_public key
    key' ← mix_ss c r_ss
    ets ← msg_encrypt c timestamp key'
    pure (ue, es, ets)

  -- noise_consume_initiation up to the lookup: the sender's public key.
  pub consume_static_script : Bytes → Bytes → Bytes → Bytes → Run Bytes
  consume_static_script l_private l_public ue es = do
    param_init c l_public
    msg_ephemeral c ue
    key ← mix_dh c noise_symmetric_key_len l_private ue
    msg_decrypt c es key

  -- … and from the lookup on: the timestamp.
  pub consume_timestamp_script : Bytes → Bytes → Bytes → Run Bytes
  unfolding set_e
  consume_timestamp_script r_ss ue ets = do
    key ← mix_ss c r_ss
    timestamp ← msg_decrypt c ets key
    set_e ue
    pure timestamp

  -- noise_create_response: the fields ue and en.
  pub create_response_script : Bytes → Bytes → Bytes → Run (Bytes × Bytes)
  unfolding get_e
  create_response_script r_public r_psk e = do
    ue ← or_fail (c.generate_public e) einval
    msg_ephemeral c ue
    hs_e ← get_e
    _ ← mix_dh c 0 e hs_e
    _ ← mix_dh c 0 e r_public
    key ← mix_psk c r_psk
    en ← msg_encrypt c [] key
    pure (ue, en)

  -- noise_consume_response.
  pub consume_response_script : Bytes → Bytes → Bytes → Bytes → Run Bytes
  unfolding get_e
  consume_response_script l_private preshared_key ue en = do
    msg_ephemeral c ue
    hs_e ← get_e
    _ ← mix_dh c 0 hs_e ue
    _ ← mix_dh c 0 l_private ue
    key ← mix_psk c preshared_key
    msg_decrypt c en key
