-- ===== src/If/Data.antt =====
-- The packets of data of if_wg.c on their way through a worker: calculate_padding, wg_encrypt,
-- determine_af_and_pullup and wg_decrypt. The packet is its chain of mbufs, as in Crypto/Aead/Mbuf.
pub mod Padding
pub mod Tunnel
mod Tests
use wireguard_freebsd.Prelude.{
  ℕ, ◌+◌, ◌-◌, ◌*◌, ◌/◌, ◌%◌, ◌==◌, List, [], ◌∷◌, ◌++◌, Option, none, some, Bool, true, false,
  ◌&&◌, Bytes, ltb, leb, flatten, length, replicate, get_or, take, drop, if◌then◌else◌, Errno,
  success,
}
use wireguard_freebsd.Prelude.Int.{ℤ}
use wireguard_freebsd.Crypto.Word.{put_unaligned_le32, le64_bytes, get_unaligned_le64}
use wireguard_freebsd.Crypto.Aead.Mbuf.{Mbuf, MbufApi}
use wireguard_freebsd.Noise.State.{Keypair}
use wireguard_freebsd.Noise.Keypair.Transport.{keypair_encrypt, keypair_decrypt}
use wireguard_freebsd.If.Queue.{RingState, uncrypted, crypted, dead}

abbrev pub wg_pkt_padding : ℕ
wg_pkt_padding = 16

-- `(n + 15) & ~15`
abbrev pub round_up : ℕ → ℕ
round_up n = (n + (wg_pkt_padding - 1)) / 16 * 16

-- The bytes of padding for a packet of `len` bytes and the MTU `mtu`, where 0 is none.
pub calculate_padding : ℕ → ℕ → ℕ
calculate_padding len mtu =
    let last_unit = if ltb mtu len then len % mtu else len in
    let padded_size = round_up last_unit in
    if mtu == 0
    then round_up len
    else (if ltb mtu padded_size then mtu else padded_size) - last_unit

-- sizeof(struct wg_pkt_data)
abbrev pub wg_pkt_data_size : ℕ
wg_pkt_data_size = 16

-- The header: t, r_idx and nonce, as a little-endian machine stores them.
abbrev pub data_header : ℕ → ℕ → Bytes
data_header idx nonce = put_unaligned_le32 4 ++ put_unaligned_le32 idx ++ le64_bytes nonce

-- More functions of mbuf(9).
pub record PacketApi : Type 0 where
  pub chains : MbufApi
  -- M_PREPEND(m, …), and what is written to the room: `none` is m == NULL.
  pub m_prepend : Mbuf → Bytes → Option Mbuf
  -- m_adj(m, len)
  pub m_adj_head : Mbuf → ℕ → Mbuf
  -- m_pullup(m, len)
  pub m_pullup : Mbuf → ℕ → Option Mbuf

-- p_state and p_mbuf after the worker, of which NULL is `none`.
pub record Crypted : Type 0 where
  pub state : RingState
  pub mbuf : Option Mbuf

-- After M_PREPEND, and after noise_keypair_encrypt.
abbrev pub prepended : Option Mbuf → Crypted
prepended none = record { state = dead; mbuf = none }
prepended (some m) = record { state = crypted; mbuf = some m }

abbrev pub sealed : PacketApi → Bytes → Errno → Mbuf → Crypted
sealed api header Errno.success m = prepended (api.m_prepend m header)
sealed api header _ m = record { state = dead; mbuf = some m }

-- Behind the padding: encryption and header.
abbrev pub seal : PacketApi → Keypair → ℕ → Mbuf → Crypted
seal api kp nonce m =
    let out = keypair_encrypt api.chains kp nonce m in
    sealed api (data_header kp.index.remote_index nonce) out.0 out.1

-- `none` is a read behind the 16 bytes of the static `padding`, which C leaves undefined: m_append copies
-- `padlen` bytes from it.
pub wg_encrypt : PacketApi → Keypair → ℕ → ℕ → Mbuf → Option Crypted
wg_encrypt api kp nonce mtu m =
    let padlen = calculate_padding m.pkthdr_len mtu in
    let padded = api.chains.m_append m (replicate padlen 0) in
    if ltb wg_pkt_padding padlen
    then none
    else some (
        if padlen == 0
        then seal api kp nonce m
        else if padded.0
        then seal api kp nonce padded.1
        else record { state = dead; mbuf = some padded.1 })

-- AF_INET and AF_INET6
pub data Family : Type 0 where
  inet inet6 : Family

-- What determine_af_and_pullup leaves: the error, or the family; m is NULL after a failed pullup.
pub record Pulled : Type 0 where
  pub mbuf : Option Mbuf
  pub family : Option Family

abbrev pub byte : Mbuf → ℕ → ℕ
byte m i = get_or (flatten m.segments) i 0

-- ip_v
abbrev pub version : Mbuf → Option Family
version m =
    if byte m 0 / 16 == 4
    then some Family.inet
    else if byte m 0 / 16 == 6 && leb 40 m.pkthdr_len
    then some Family.inet6
    else none

abbrev pub pulled_up : Option Mbuf → Pulled
pulled_up none = record { mbuf = none; family = none }
pulled_up (some m) = record { mbuf = some m; family = version m }

pub determine_af_and_pullup : PacketApi → Mbuf → Pulled
determine_af_and_pullup api m =
    let size = if leb 40 m.pkthdr_len then 40 else 20 in
    if ltb m.pkthdr_len 20
    then record { mbuf = some m; family = none }
    else pulled_up (api.m_pullup m size)

-- ntohs of the two bytes from i on
abbrev be16 : Mbuf → ℕ → ℕ
be16 m i = 256 * byte m i + byte m (i + 1)

-- The length that the IP header states, and the source address.
abbrev pub ip_len : Family → Mbuf → ℕ
ip_len Family.inet m = be16 m 2
ip_len Family.inet6 m = be16 m 4 + 40

abbrev pub ip_src : Family → Mbuf → Bytes
ip_src Family.inet m = take 4 (drop 12 (flatten m.segments))
ip_src Family.inet6 m = take 16 (drop 8 (flatten m.segments))

-- Whether the length of the header is used to cut the padding off.
abbrev pub cuts : Family → Mbuf → Bool
cuts Family.inet m = leb 20 (ip_len Family.inet m) && ltb (ip_len Family.inet m) m.pkthdr_len
cuts Family.inet6 m = ltb (ip_len Family.inet6 m) m.pkthdr_len

-- What wg_decrypt leaves in the packet. `lookup` is wg_aip_lookup, on peers by number.
pub record Opened : Type 0 where
  pub state : RingState
  pub nonce : ℕ
  pub mbuf : Option Mbuf
  pub family : Option Family

module _ (api : PacketApi) (lookup : Family → Bytes → Option ℕ) where
  abbrev pub same_peer : ℕ → Option ℕ → Bool
  same_peer peer none = false
  same_peer peer (some p) = p == peer

  abbrev pub cut : Family → Mbuf → Mbuf
  cut f m = if cuts f m then api.chains.m_adj m (m.pkthdr_len - ip_len f m) else m

  -- What is left of a packet after determine_af_and_pullup.
  abbrev pub route : ℕ → ℕ → Option Mbuf → Option Family → Opened
  route peer nonce none f = record { state = dead; nonce = nonce; mbuf = none; family = none }
  route peer nonce (some m) none = record {
    state = dead;
    nonce = nonce;
    mbuf = some m;
    family = none;
  }
  route peer nonce (some m) (some f) = record {
    state = if same_peer peer (lookup f (ip_src f m)) then crypted else dead;
    nonce = nonce;
    mbuf = some (cut f m);
    family = some f;
  }

  -- After noise_keypair_decrypt: a packet of length 0 is a keepalive.
  abbrev pub decrypted : ℕ → ℕ → Errno → Mbuf → Opened
  decrypted peer nonce Errno.success m =
      if m.pkthdr_len == 0
      then record { state = crypted; nonce = nonce; mbuf = some m; family = none }
      else (let p = determine_af_and_pullup api m in route peer nonce p.mbuf p.family)
  decrypted peer nonce _ m = record { state = dead; nonce = nonce; mbuf = some m; family = none }

  pub wg_decrypt : Keypair → ℤ → ℕ → Mbuf → Opened
  wg_decrypt kp now peer m0 =
      let nonce = get_unaligned_le64 (flatten m0.segments) 8 in
      let m = api.m_adj_head m0 wg_pkt_data_size in
      let out = keypair_decrypt api.chains kp now nonce m in decrypted peer nonce out.0 out.1
