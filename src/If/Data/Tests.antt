-- ===== src/If/Data/Tests.antt =====
-- A packet of 20 bytes that is sealed and opened, with chains of mbufs as lists, and a packet to pad.
use wireguard_freebsd.Prelude.{
  ◌+◌, ◌-◌, ◌%◌, ◌≤◌, ◌<◌, ◌≡◌, ◌⊎◌, [], ◌∷◌, some, true, flatten, length, replicate, drop, arith,
}
use wireguard_freebsd.Prelude.Int.{pos}
use wireguard_freebsd.Crypto.Tests.{list_mbufs}
use wireguard_freebsd.Crypto.Aead.Mbuf.{Mbuf}
use wireguard_freebsd.Noise.State.{Keypair}
use wireguard_freebsd.Noise.Counter.{fresh}
use wireguard_freebsd.Noise.Keypair.Transport.{keypair_encrypt}
use wireguard_freebsd.If.Data.{PacketApi, data_header, calculate_padding}
use wireguard_freebsd.If.Data.Padding.{last_unit, calculate_padding_lem}

abbrev packets : PacketApi
packets = record {
  chains = list_mbufs;
  m_prepend = λ m header.
      some (record { segments = header ∷ m.segments; pkthdr_len = m.pkthdr_len + length header });
  m_adj_head =
      λ m n. record { segments = drop n (flatten m.segments) ∷ []; pkthdr_len = m.pkthdr_len - n };
  m_pullup = λ m n. some m;
}

abbrev packet : Mbuf
packet = record { segments = (69 ∷ 0 ∷ 0 ∷ 20 ∷ []) ∷ replicate 16 0 ∷ []; pkthdr_len = 20 }

abbrev keypair : Keypair
keypair = record {
  index = record { local_index = 1; remote_index = 2 };
  refcnt = 1;
  can_send = true;
  is_initiator = true;
  birthdate = pos 1;
  remote = 0;
  send = replicate 32 3;
  recv = replicate 32 3;
  counter = fresh;
}

abbrev encrypted : Mbuf
encrypted = (keypair_encrypt list_mbufs keypair 5 (list_mbufs.m_append packet (replicate 12 0)).1).1

abbrev sent : Mbuf
sent = record {
  segments = data_header 2 5 ∷ encrypted.segments;
  pkthdr_len = encrypted.pkthdr_len + 16;
}

calculate_padding_lem_example :
    let pad = calculate_padding 1500 1420 in
    (pad < 16)
    × (last_unit 1500 1420 + pad ≤ 1420)
    × (((last_unit 1500 1420 + pad) % 16 ≡ 0) ⊎ (last_unit 1500 1420 + pad ≡ 1420))
calculate_padding_lem_example = calculate_padding_lem 1500 1420 (omega arith)
