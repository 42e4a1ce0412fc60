-- ===== src/If/Data/Tunnel/Packet.antt =====
-- Packets of IP in chains of mbufs: what mbuf(9) documents, and a packet that stands before zeros.
use wireguard_freebsd.Prelude.{
  ℕ, ◌+◌, ◌*◌, ◌/◌, ◌≤◌, ◌<◌, ◌≡◌, ap, ap₂, ◌∙◌, ◌++◌, Bytes, some, flatten, length, take, drop,
  get_or, arith, get_or-append, slice-append,
}
use wireguard_freebsd.Crypto.Aead.Mbuf.{Mbuf}
use wireguard_freebsd.Crypto.Aead.Mbuf.Flat.{IsMbuf, IsMbufApi}
use wireguard_freebsd.If.Data.{PacketApi, Family, byte, ip_len, ip_src, version}

-- What mbuf(9) documents of the functions, on chains whose header has their length.
pub record IsPacketApi (api : PacketApi) : Type 0 where
  pub chains_law : IsMbufApi api.chains
  pub m_prepend_lem :
      (m m' : Mbuf) (header : Bytes)
      → IsMbuf m
      → api.m_prepend m header ≡ some m'
      → (flatten m'.segments ≡ header ++ flatten m.segments) × IsMbuf m'
  pub m_adj_head_lem :
      (m : Mbuf) (n : ℕ)
      → IsMbuf m
      → n ≤ m.pkthdr_len
      → (flatten (api.m_adj_head m n).segments ≡ drop n (flatten m.segments))
        × IsMbuf (api.m_adj_head m n)
  pub m_pullup_lem :
      (m m' : Mbuf) (n : ℕ)
      → IsMbuf m
      → n ≤ m.pkthdr_len
      → api.m_pullup m n ≡ some m'
      → (flatten m'.segments ≡ flatten m.segments) × (m'.pkthdr_len ≡ m.pkthdr_len)

-- A whole IP packet, which states its own length.
abbrev pub IsPacket : Family → Mbuf → Type 0
IsPacket Family.inet m =
    (20 ≤ m.pkthdr_len) × (byte m 0 / 16 ≡ 4) × (ip_len Family.inet m ≡ m.pkthdr_len)
IsPacket Family.inet6 m =
    (40 ≤ m.pkthdr_len) × (byte m 0 / 16 ≡ 6) × (ip_len Family.inet6 m ≡ m.pkthdr_len)

-- The fields of an IP header do not see what stands behind the packet.
module _ (m m' : Mbuf) (zeros : Bytes)
    (same : flatten m'.segments ≡ flatten m.segments ++ zeros) where
  byte-padded : (i : ℕ) → i < length (flatten m.segments) → byte m' i ≡ byte m i
  byte-padded i h =
      ap (λ (t : Bytes). get_or t i 0) same ∙ get_or-append (flatten m.segments) zeros i 0 h

  pub ip_len-padded : (f : Family) → IsMbuf m → IsPacket f m → ip_len f m' ≡ ip_len f m
  ip_len-padded Family.inet ok p =
      ap₂ (λ x y. 256 * x + y) (byte-padded 2 (omega arith)) (byte-padded 3 (omega arith))
  ip_len-padded Family.inet6 ok p =
      ap₂ (λ x y. 256 * x + y + 40) (byte-padded 4 (omega arith)) (byte-padded 5 (omega arith))

  pub ip_src-padded : (f : Family) → IsMbuf m → IsPacket f m → ip_src f m' ≡ ip_src f m
  ip_src-padded Family.inet ok p =
      ap (λ (t : Bytes). take 4 (drop 12 t)) same
      ∙ slice-append (flatten m.segments) zeros 12 4 (omega arith)
  ip_src-padded Family.inet6 ok p =
      ap (λ (t : Bytes). take 16 (drop 8 t)) same
      ∙ slice-append (flatten m.segments) zeros 8 16 (omega arith)

pub version-padded :
    (f : Family) (m m' : Mbuf) (zeros : Bytes)
    → IsMbuf m
    → IsPacket f m
    → m.pkthdr_len ≤ m'.pkthdr_len
    → flatten m'.segments ≡ flatten m.segments ++ zeros
    → version m' ≡ some f
version-padded Family.inet m m' zeros ok p h same =
    let e : byte m' 0 ≡ byte m 0 = byte-padded m m' zeros same 0 (omega arith) in ground arith
version-padded Family.inet6 m m' zeros ok p h same =
    let e : byte m' 0 ≡ byte m 0 = byte-padded m m' zeros same 0 (omega arith) in ground arith

pub at_least : (f : Family) (m : Mbuf) → IsPacket f m → 20 ≤ m.pkthdr_len
at_least Family.inet m p = p.0
at_least Family.inet6 m p = omega (arith, p.0)
