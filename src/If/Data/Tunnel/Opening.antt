-- ===== src/If/Data/Tunnel/Opening.antt =====
-- The steps of wg_decrypt on a padded packet.
use mathlib.Core.Option.{some-injective}
use mathlib.Core.List.{append-nil}
use wireguard_freebsd.Prelude.{
  ℕ, ◌+◌, ◌-◌, ◌≤◌, ◌≡◌, sym, ap, ap₂, subst, ◌∙◌, ◌⊎◌, inl, inr, [], ◌++◌, Bytes, Bool, true,
  false, Option, none, some, Option-cases, Bool-cases, flatten, length, take, ltb, leb,
  if◌then◌else◌, Errno, success, einval, nil_of_length, arith, length-append, take-append, leb→le,
  ltb→lt, ltb-false,
}
use wireguard_freebsd.Prelude.Int.{ℤ}
use wireguard_freebsd.Crypto.Aead.{chacha20poly1305_encrypt, chacha20poly1305_decrypt}
use wireguard_freebsd.Crypto.Aead.Open.{decrypt-encrypt}
use wireguard_freebsd.Crypto.Aead.Mbuf.{Mbuf, chacha20poly1305_decrypt_mbuf}
use wireguard_freebsd.Crypto.Aead.Mbuf.Flat.{IsMbuf, decrypt_mbuf_lem, decrypt_mbuf-IsMbuf}
use wireguard_freebsd.Noise.State.{Keypair}
use wireguard_freebsd.Noise.Keypair.Transport.{keypair_decrypt, expired}
use wireguard_freebsd.If.Data.{
  PacketApi, Family, ip_len, cuts, Pulled, pulled_up, determine_af_and_pullup, cut,
}
use wireguard_freebsd.If.Data.Tunnel.Packet.{
  IsPacketApi, IsPacket, ip_len-padded, version-padded, at_least,
}

module _ (api : PacketApi) (law : IsPacketApi api) where
  -- determine_af_and_pullup on a padded packet: m_pullup has no memory, or its family.
  pub pulled_lem :
      (f : Family) (m m1 : Mbuf) (zeros : Bytes)
      → IsMbuf m
      → IsPacket f m
      → IsMbuf m1
      → flatten m1.segments ≡ flatten m.segments ++ zeros
      → let p = determine_af_and_pullup api m1 in
        ((p.mbuf ≡ none) × ((size : ℕ) × (size ≤ m1.pkthdr_len) × (api.m_pullup m1 size ≡ none)))
        ⊎ ((m2 : Mbuf) × (p.mbuf ≡ some m2)
            × (p.family ≡ some f)
            × (flatten m2.segments ≡ flatten m.segments ++ zeros)
            × IsMbuf m2)
  unfolding determine_af_and_pullup
  pulled_lem f m m1 zeros ok packet ok1 same =
      let size : ℕ = if leb 40 m1.pkthdr_len then 40 else 20 in
      let long : m1.pkthdr_len ≡ m.pkthdr_len + length zeros =
        sym ok1
        ∙ ap length same
        ∙ length-append (flatten m.segments) zeros
        ∙ ap (λ n. n + length zeros) ok in
      let least = at_least f m packet in
      let enough : size ≤ m1.pkthdr_len = elim (Bool-cases (leb 40 m1.pkthdr_len)) [
        | inl h ↦
            subst (λ b. (if b then 40 else 20) ≤ m1.pkthdr_len) (sym h) (leb→le 40 m1.pkthdr_len h)
        | inr h ↦ subst (λ b. (if b then 40 else 20) ≤ m1.pkthdr_len) (sym h) (omega arith)
      ] in
      let start : Pulled = record { mbuf = some m1; family = none } in
      let not_short : ltb m1.pkthdr_len 20 ≡ false = ground arith in
      let up = api.m_pullup m1 size in
      let path : determine_af_and_pullup api m1 ≡ pulled_up up =
        ap (λ b. if b then start else pulled_up up) not_short in
      elim (Option-cases up) [
        | inl n ↦ inl (ap (λ (p : Pulled). p.mbuf) (path ∙ ap pulled_up n), (size, enough, n))
        | inr s ↦
            let m2 : Mbuf = s.0 in
            let kept = law.m_pullup_lem m1 m2 size ok1 enough s.1 in
            let same2 = kept.0 ∙ same in
            let whole : determine_af_and_pullup api m1 ≡ pulled_up (some m2) =
              path ∙ ap pulled_up s.1 in
            inr (
              m2,
              ap (λ (p : Pulled). p.mbuf) whole,
              ap (λ (p : Pulled). p.family) whole
                  ∙ version-padded f m m2 zeros ok packet (omega (arith, kept.1)) same2,
              same2,
              ap length kept.0 ∙ ok1 ∙ sym kept.1,
            )
      ]

  -- The packet with its padding cut off.
  pub cut_lem :
      (lookup : Family → Bytes → Option ℕ) (f : Family) (m m2 : Mbuf) (zeros : Bytes)
      → IsMbuf m
      → IsPacket f m
      → IsMbuf m2
      → flatten m2.segments ≡ flatten m.segments ++ zeros
      → flatten (cut api lookup f m2).segments ≡ flatten m.segments
  cut_lem lookup f m m2 zeros ok packet ok2 same =
      let stated : ip_len f m2 ≡ m.pkthdr_len =
        ip_len-padded m m2 zeros same f ok packet ∙ states f m packet in
      let long : m2.pkthdr_len ≡ m.pkthdr_len + length zeros =
        sym ok2
        ∙ ap length same
        ∙ length-append (flatten m.segments) zeros
        ∙ ap (λ n. n + length zeros) ok in
      let least = at_least f m packet in
      let shorter : Mbuf = api.chains.m_adj m2 (m2.pkthdr_len - ip_len f m2) in
      let pick : Bool → Bytes = λ b. flatten (if b then shorter else m2).segments in
      elim (Bool-cases (ltb (ip_len f m2) m2.pkthdr_len)) [
        | inl h ↦
            let less = ltb→lt (ip_len f m2) m2.pkthdr_len h in
            let rest : m2.pkthdr_len - (m2.pkthdr_len - ip_len f m2) ≡ m.pkthdr_len = omega arith in
            ap pick (cuts_less f m2 h (omega arith))
            ∙ (law.chains_law.m_adj_lem m2 (m2.pkthdr_len - ip_len f m2) ok2 (omega arith)).0
            ∙ ap₂ take rest same
            ∙ take-append (flatten m.segments) zeros m.pkthdr_len ok
        | inr h ↦
            let more = ltb-false (ip_len f m2) m2.pkthdr_len h in
            let none_left : length zeros ≡ 0 = omega arith in
            ap pick (cuts_more f m2 h)
            ∙ same
            ∙ ap (λ (t : Bytes). flatten m.segments ++ t) (nil_of_length zeros none_left)
            ∙ append-nil (flatten m.segments)
      ]
    where
      states : (f : Family) (m : Mbuf) → IsPacket f m → ip_len f m ≡ m.pkthdr_len
      states Family.inet m p = p.2
      states Family.inet6 m p = p.2

      cuts_less :
          (f : Family) (m : Mbuf)
          → ltb (ip_len f m) m.pkthdr_len ≡ true
          → 20 ≤ ip_len f m
          → cuts f m ≡ true
      cuts_less Family.inet m h k = ground arith
      cuts_less Family.inet6 m h k = h

      cuts_more : (f : Family) (m : Mbuf) → ltb (ip_len f m) m.pkthdr_len ≡ false → cuts f m ≡ false
      cuts_more Family.inet m h = ground arith
      cuts_more Family.inet6 m h = h

  -- noise_keypair_decrypt at the other end of noise_keypair_encrypt.
  pub keypair_decrypt_lem :
      (kp' : Keypair) (now : ℤ) (nonce : ℕ) (m1 : Mbuf) (text key : Bytes)
      → IsMbuf m1
      → kp'.recv ≡ key
      → expired kp' now ≡ false
      → flatten m1.segments ≡ chacha20poly1305_encrypt text [] nonce key
      → let out = keypair_decrypt api.chains kp' now nonce m1 in
        (out.0 ≡ success) × (flatten out.1.segments ≡ text) × IsMbuf out.1
  unfolding keypair_decrypt
  keypair_decrypt_lem kp' now nonce m1 text key ok k fresh same =
      let out = chacha20poly1305_decrypt_mbuf api.chains m1 nonce kp'.recv in
      let refused : Errno × Mbuf = (einval, m1) in
      let path : (if expired kp' now then refused else out) ≡ out =
        ap (λ b. if b then refused else out) fresh in
      let Good : Errno × Mbuf → Type 0 =
        λ o. (o.0 ≡ success) × (flatten o.1.segments ≡ text) × IsMbuf o.1 in
      let flat : chacha20poly1305_decrypt (flatten m1.segments) [] nonce kp'.recv ≡ some text =
        ap₂ (λ (t u : Bytes). chacha20poly1305_decrypt t [] nonce u) same k
        ∙ decrypt-encrypt text [] nonce key in
      let keeps = decrypt_mbuf-IsMbuf api.chains law.chains_law m1 nonce kp'.recv ok in
      subst Good (sym path)
        (elim (decrypt_mbuf_lem api.chains law.chains_law m1 nonce kp'.recv ok) [
          | inl short ↦ let no = sym short.2 ∙ flat in absurd cc
          | inr rest ↦ elim rest [
            | inl bad ↦ let no = sym bad.2 ∙ flat in absurd cc
            | inr good ↦
                (good.1, some-injective (flatten out.1.segments) text (sym good.2 ∙ flat), keeps)
          ]
        ])
