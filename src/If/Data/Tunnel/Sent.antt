-- ===== src/If/Data/Tunnel/Sent.antt =====
-- What wg_encrypt has put into the packets it marks CRYPTED.
use mathlib.Core.Option.{some-injective}
use mathlib.Core.List.{append-nil}
use wireguard_freebsd.Prelude.{
  ℕ, ◌+◌, ◌^◌, ◌<◌, ◌≡◌, ◌≢◌, sym, ap, ◌∙◌, inl, inr, [], ◌++◌, Bytes, Bool, true, false, Option,
  none, some, ltb, Option-cases, Bool-cases, flatten, length, replicate, ◌==◌, if◌then◌else◌, arith,
  length-append,
}
use wireguard_freebsd.Crypto.Word.{get_unaligned_le32, get_unaligned_le64}
use wireguard_freebsd.Crypto.Aead.{chacha20poly1305_encrypt}
use wireguard_freebsd.Crypto.Aead.Mbuf.{Mbuf, chacha20poly1305_encrypt_mbuf}
use wireguard_freebsd.Crypto.Aead.Mbuf.Flat.{IsMbuf, encrypt_mbuf_lem}
use wireguard_freebsd.Noise.State.{Keypair}
use wireguard_freebsd.Noise.Keypair.Transport.{keypair_encrypt}
use wireguard_freebsd.If.Queue.{crypted, dead}
use wireguard_freebsd.If.Data.{
  PacketApi, Crypted, data_header, prepended, sealed, seal, wg_encrypt, calculate_padding,
  wg_pkt_padding,
}
use wireguard_freebsd.If.Data.Tunnel.Packet.{IsPacketApi}

-- wg_decrypt reads the nonce that wg_encrypt wrote.
pub wire_nonce :
    (idx nonce : ℕ) (rest : Bytes)
    → nonce < 2 ^ 64
    → get_unaligned_le64 (data_header idx nonce ++ rest) 8 ≡ nonce
unfolding get_unaligned_le64 get_unaligned_le32
wire_nonce idx nonce rest h = omega arith

crypted_ne_dead : crypted ≢ dead
crypted_ne_dead e = absurd cc

module _ (api : PacketApi) (law : IsPacketApi api) where
  -- What is in a packet that wg_encrypt has marked CRYPTED, from its text on.
  seal_lem :
      (kp : Keypair) (nonce : ℕ) (m m' : Mbuf)
      → IsMbuf m
      → seal api kp nonce m ≡ record { state = crypted; mbuf = some m' }
      → (flatten m'.segments
          ≡ data_header kp.index.remote_index nonce
            ++ chacha20poly1305_encrypt (flatten m.segments) [] nonce kp.send)
        × IsMbuf m'
  unfolding keypair_encrypt
  seal_lem kp nonce m m' ok e =
      let header : Bytes = data_header kp.index.remote_index nonce in
      let out = chacha20poly1305_encrypt_mbuf api.chains m nonce kp.send in
      elim (encrypt_mbuf_lem api.chains law.chains_law m nonce kp.send ok) [
        | inl bad ↦ absurd (
            crypted_ne_dead (
              ap (λ (c : Crypted). c.state) (sym e)
              ∙ ap (λ c. (sealed api header c out.1).state) bad))
        | inr good ↦
            let step : prepended (api.m_prepend out.1 header)
                ≡ record { state = crypted; mbuf = some m' } =
              ap (λ c. sealed api header c out.1) (sym good.0) ∙ e in
            elim (Option-cases (api.m_prepend out.1 header)) [
              | inl n ↦ absurd (
                  crypted_ne_dead
                    (ap (λ (c : Crypted). c.state) (sym step) ∙ ap (λ o. (prepended o).state) n))
              | inr s ↦
                  let same : s.0 ≡ m' =
                    some-injective s.0 m'
                      (ap (λ (c : Crypted). c.mbuf) (ap prepended (sym s.1) ∙ step)) in
                  let put =
                    law.m_prepend_lem out.1 m' header good.2
                      (s.1 ∙ ap (λ (t : Mbuf). let o : Option Mbuf = some t in o) same) in
                  (put.0 ∙ ap (λ (t : Bytes). header ++ t) good.1, put.1)
            ]
      ]

  -- Behind the test for a read behind the padding.
  in_bounds :
      (over : Bool) (out out' : Crypted)
      → (let o : Option Crypted = if over then none else some out in o) ≡ some out'
      → out ≡ out'
  in_bounds true out out' e = cc
  in_bounds false out out' e = some-injective out out' e

  pub wg_encrypt_lem :
      (kp : Keypair) (nonce mtu : ℕ) (m m' : Mbuf)
      → IsMbuf m
      → wg_encrypt api kp nonce mtu m ≡ some (record { state = crypted; mbuf = some m' })
      → (n : ℕ) × (flatten m'.segments
          ≡ data_header kp.index.remote_index nonce
            ++ chacha20poly1305_encrypt (flatten m.segments ++ replicate n 0) [] nonce kp.send)
        × IsMbuf m'
  unfolding wg_encrypt
  wg_encrypt_lem kp nonce mtu m m' ok whole =
      let pad : ℕ = calculate_padding m.pkthdr_len mtu in
      let zeros : Bytes = replicate pad 0 in
      let padded = api.chains.m_append m zeros in
      let a : Crypted = seal api kp nonce m in
      let b : Crypted = seal api kp nonce padded.1 in
      let c : Crypted = record { state = dead; mbuf = some padded.1 } in
      let pick : Bool → Bool → Crypted = λ x y. if x then a else if y then b else c in
      let seen : Bytes → Bytes = λ t.
        data_header kp.index.remote_index nonce ++ chacha20poly1305_encrypt t [] nonce kp.send in
      let e : pick (pad == 0) padded.0 ≡ record { state = crypted; mbuf = some m' } =
        in_bounds (ltb wg_pkt_padding pad) (pick (pad == 0) padded.0)
          (record { state = crypted; mbuf = some m' }) whole in
      elim (Bool-cases (pad == 0)) [
        | inl z ↦
            let done = seal_lem kp nonce m m' ok (ap (λ x. pick x padded.0) (sym z) ∙ e) in
            (0, done.0 ∙ ap seen (sym (append-nil (flatten m.segments))), done.1)
        | inr z ↦
            let some_pad = ap (λ x. pick x padded.0) (sym z) ∙ e in
            elim (Bool-cases padded.0) [
              | inl y ↦
                  let added = law.chains_law.m_append_lem m zeros ok y in
                  let still : IsMbuf padded.1 =
                    ap length added.0
                    ∙ length-append (flatten m.segments) zeros
                    ∙ ap (λ n. n + length zeros) ok
                    ∙ sym added.1 in
                  let done =
                    seal_lem kp nonce padded.1 m' still (ap (pick false) (sym y) ∙ some_pad) in
                  (pad, done.0 ∙ ap seen added.0, done.1)
              | inr y ↦ absurd (
                  crypted_ne_dead
                    (ap (λ (c : Crypted). c.state) (sym (ap (pick false) (sym y) ∙ some_pad))))
            ]
      ]
