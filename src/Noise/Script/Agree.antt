-- ===== src/Noise/Script/Agree.antt =====
-- Two devices that run the handshake with one another.
use wireguard_freebsd.Prelude.{
  ◌≡◌, refl, sym, ◌∙◌, [], ◌++◌, some, false, list_eq, replicate, Bytes, ok,
}
use wireguard_freebsd.Noise.Crypto.{Crypto, IsCrypto}
use wireguard_freebsd.Noise.Symmetric.{
  Handshake, mix_key, msg_ephemeral, mix_psk, Run, ◌>>=◌, ◌>>◌, pure, mix_dh, mix_ss, mix_psk,
  param_init, msg_encrypt, msg_decrypt, msg_ephemeral, noise_public_key_len, kdf, bind_ok,
  mix_dh_ok, mix_ss_ok, msg_decrypt_ok, noise_handshake_name, noise_identifier_name,
}
use wireguard_freebsd.Noise.Script.{
  set_e, create_initiation_script, consume_static_script, consume_timestamp_script,
  create_response_script, consume_response_script, get_e,
}

module _ (c : Crypto) (law : IsCrypto c) where
  -- Under the laws of the primitives, an initiation is made and is understood: whoever holds the private
  -- key of `pub_b` and the same non-zero static shared secret finds the sender's key and timestamp in it,
  -- and ends with the sender's chaining key and hash, and with the sender's ephemeral public key. The
  -- sender's secret has a public key, and its product with `pub_b` is a key.
  pub initiation_agrees :
      (b pub_a pub_b ss e timestamp ue dh : Bytes) (start start' : Handshake)
      → c.generate_public b ≡ some pub_b
      → c.generate_public e ≡ some ue
      → c.curve25519 e pub_b ≡ some dh
      → list_eq ss (replicate noise_public_key_len 0) ≡ false
      → (es ets : Bytes) × (done mid : Handshake) × (create_initiation_script c pub_a pub_b ss e
            timestamp start
          ≡ (ok (ue, es, ets), done))
        × (consume_static_script c b pub_b ue es start' ≡ (ok pub_a, mid))
        × (consume_timestamp_script c ss ue ets mid ≡ (ok timestamp, record done { e = ue }))
        × (done.e ≡ e)
  unfolding create_initiation_script consume_static_script consume_timestamp_script param_init
      msg_encrypt msg_ephemeral mix_dh mix_ss msg_decrypt set_e mix_key
  initiation_agrees b pub_a pub_b ss e timestamp ue dh start start' gb g d nz =
      let d' = sym (law.shared_secret e b ue pub_b g gb) ∙ d in
      let ck0 = c.blake2s noise_handshake_name in
      let h1 = c.blake2s (c.blake2s (c.blake2s (ck0 ++ noise_identifier_name) ++ pub_b) ++ ue) in
      let k2 = kdf c dh 32 32 0 (kdf c ue 32 0 0 ck0).first in
      let es = c.encrypt pub_a h1 0 k2.second in
      let h2 = c.blake2s (h1 ++ es) in
      let k3 = kdf c ss 32 32 0 k2.first in
      let ets = c.encrypt timestamp h2 0 k3.second in
      let done : Handshake = record { e = e; hash = c.blake2s (h2 ++ ets); ck = k3.first } in
      let mid : Handshake = record { e = start'.e; hash = h2; ck = k2.first } in
      let k1 = kdf c ue 32 0 0 ck0 in
      let hs1' : Handshake = record { e = start'.e; hash = h1; ck = k1.first } in
      let mid' : Handshake = record { e = start'.e; hash = h1; ck = k2.first } in
      let done' : Handshake = record { e = start'.e; hash = h2; ck = k3.first } in
      let done'' : Handshake = record {
        e = start'.e;
        hash = c.blake2s (h2 ++ ets);
        ck = k3.first;
      } in
      (
        es,
        ets,
        done,
        mid,
        rw (g, d, nz),
        bind_ok (mix_dh c 32 b ue) (msg_decrypt c es) hs1' mid' k2.second
              (mix_dh_ok c 32 b ue dh hs1' d')
            ∙ msg_decrypt_ok c es k2.second pub_a mid' (law.decrypt-encrypt pub_a h1 0 k2.second),
        bind_ok (mix_ss c ss) (λ key. msg_decrypt c ets key >>= λ t. set_e ue >> pure t) mid done'
              k3.second (mix_ss_ok c ss mid nz)
            ∙ bind_ok (msg_decrypt c ets k3.second) (λ t. set_e ue >> pure t) done' done'' timestamp
                (msg_decrypt_ok c ets k3.second timestamp done'
                  (law.decrypt-encrypt timestamp h2 0 k3.second)),
        refl,
      )

  -- Under the laws of the primitives, a response is made and is understood by the sender of the
  -- initiation, who has the same chaining key, hash and preshared key, and the two handshakes end with the
  -- same chaining key and the same hash. The three secrets have public keys, and the two products are
  -- keys.
  pub response_agrees :
      (a pub_a ea ue_a e ue psk ee se hash ck : Bytes)
      → c.generate_public a ≡ some pub_a
      → c.generate_public ea ≡ some ue_a
      → c.generate_public e ≡ some ue
      → c.curve25519 e ue_a ≡ some ee
      → c.curve25519 e pub_a ≡ some se
      → (en : Bytes) × (done done' : Handshake) × (create_response_script c pub_a psk e
            (record { e = ue_a; hash = hash; ck = ck })
          ≡ (ok (ue, en), done))
        × (consume_response_script c a psk ue en (record { e = ea; hash = hash; ck = ck })
            ≡ (ok [], done'))
        × (done'.ck ≡ done.ck)
        × (done'.hash ≡ done.hash)
  unfolding create_response_script consume_response_script msg_ephemeral msg_encrypt mix_psk mix_dh
      get_e mix_key
  response_agrees a pub_a ea ue_a e ue psk ee se hash ck ga gea g d d2 =
      let d' = law.shared_secret ea e ue_a ue gea g ∙ d in
      let d2' = law.shared_secret a e pub_a ue ga g ∙ d2 in
      let h1 = c.blake2s (hash ++ ue) in
      let k1 = kdf c ue 32 0 0 ck in
      let k2 = kdf c ee 32 0 0 k1.first in
      let k3 = kdf c se 32 0 0 k2.first in
      let k4 = kdf c psk 32 32 32 k3.first in
      let h2 = c.blake2s (h1 ++ k4.second) in
      let en = c.encrypt [] h2 0 k4.third in
      let h3 = c.blake2s (h2 ++ en) in
      let last : Run Bytes = λ hs. (mix_psk c psk >>= λ key. msg_decrypt c en key) hs in
      let s0 : Handshake = record { e = ea; hash = h1; ck = k1.first } in
      let s1 : Handshake = record { e = ea; hash = h1; ck = k2.first } in
      let s2 : Handshake = record { e = ea; hash = h1; ck = k3.first } in
      let s3 : Handshake = record { e = ea; hash = h2; ck = k4.first } in
      (
        en,
        record { e = ue_a; hash = h3; ck = k4.first },
        record { e = ea; hash = h3; ck = k4.first },
        rw (g, d, d2),
        bind_ok (mix_dh c 0 ea ue) (λ _. mix_dh c 0 a ue >>= λ _. last) s0 s1 k2.second
              (mix_dh_ok c 0 ea ue ee s0 d')
            ∙ bind_ok (mix_dh c 0 a ue) (λ _. last) s1 s2 k3.second (mix_dh_ok c 0 a ue se s1 d2')
            ∙ msg_decrypt_ok c en k4.third [] s3 (law.decrypt-encrypt [] h2 0 k4.third),
        refl,
        refl,
      )
