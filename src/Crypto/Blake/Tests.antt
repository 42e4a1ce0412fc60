-- ===== src/Crypto/Blake/Tests.antt =====
-- BLAKE2s on the message of RFC 7693, appendix B.
use wireguard_freebsd.Prelude.{◌≡◌, refl, [], ◌∷◌, take}
use wireguard_freebsd.Crypto.Blake.{
  blake2s, blake2s_init, blake2s_init_param, blake2s_update, update_rest, blake2s_final,
  blake2s_compress, compress_block, blake2s_increment_counter, blake2s_set_lastblock, rounds, round,
  mix, half_mix,
}
use wireguard_freebsd.Crypto.Word.{get_unaligned_le32, ror32}

-- "abc"
abc_digest : take 4 (blake2s (97 ∷ 98 ∷ 99 ∷ []) [] 32) ≡ 80 ∷ 140 ∷ 94 ∷ 140 ∷ []
unfolding blake2s blake2s_init blake2s_init_param blake2s_update update_rest blake2s_final
    blake2s_compress compress_block blake2s_increment_counter blake2s_set_lastblock rounds round mix
    half_mix get_unaligned_le32 ror32
abc_digest = refl
