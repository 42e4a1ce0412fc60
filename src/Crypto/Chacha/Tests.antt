-- ===== src/Crypto/Chacha/Tests.antt =====
-- ChaCha20 on the key 0 and the nonce 0 (RFC 8439, appendix A.1).
use wireguard_freebsd.Prelude.{◌≡◌, refl, [], ◌∷◌, take, replicate}
use wireguard_freebsd.Crypto.Chacha.{
  chacha20_init, chacha20_block, twenty_rounds, double_round, quarter_round,
}
use wireguard_freebsd.Crypto.Word.{get_unaligned_le32, rol32}

zero_block :
    take 4 (chacha20_block (chacha20_init (replicate 32 0) 0)).1 ≡ 118 ∷ 184 ∷ 224 ∷ 173 ∷ []
unfolding chacha20_init chacha20_block twenty_rounds double_round quarter_round get_unaligned_le32
    rol32
zero_block = refl
