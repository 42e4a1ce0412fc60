-- ===== src/Lib.antt =====
-- WireGuard for FreeBSD: a model of the kernel module's own logic.
--
-- The module has three layers. wg_noise.c keeps the peers' handshakes and keypairs; wg_cookie.c protects
-- the handshake against floods; if_wg.c moves packets through queues between the network stack and the
-- workers, and drives the handshakes with timers. A handshake message that if_wg.c takes from its
-- handshake queue is checked by wg_cookie.c and then handled by wg_noise.c; a data packet is numbered or
-- checked by a keypair of wg_noise.c while it stands in two of the queues of if_wg.c.
--
-- Files, and the source that each models (paths from the repository's root):
--   Noise/Counter    src/wg_noise.c, noise_keypair_nonce_check: the window of the last 8128 nonces as a
--                    bitmap of 128 words of 64 bits (LP64). Children: the bitmap, the window as the set of
--                    the accepted nonces, the refinement, and what it means for replays.
--   Noise/Crypto     the operations of src/crypto.c that wg_noise.c calls, as an interface with two laws.
--   Noise/Symmetric  noise_kdf, noise_mix_* and noise_msg_*: steps on struct noise_handshake.
--   Noise/Script     the cryptographic part of the four handshake functions; Script/Agree: two devices.
--   Noise/State      struct noise_local, noise_remote, noise_keypair, noise_index; noise_timer_expired.
--   Noise/Index      the index table (noise_remote_index_*, noise_keypair_lookup), reference counts.
--   Noise/Keypair    the slots of a remote (noise_add_new_keypair, noise_keypair_received_with,
--                    noise_remote_keypairs_clear), noise_begin_session, noise_keypair_nonce_next and the
--                    tests for a new handshake. Children: the numbers given out, the slots.
--                    Transport: noise_keypair_encrypt and noise_keypair_decrypt.
--   Noise/Handshake  noise_create_initiation, noise_consume_initiation, noise_create_response and
--                    noise_consume_response. Children: replays and floods, the keys of a session.
--   Noise/Config     noise_local_private, noise_local_keys and the noise_remote_* functions that set remotes up.
--                    Child: what the table of remotes finds.
--   Cookie/Ratelimit src/wg_cookie.c, ratelimit_*: a token bucket for each source address. Children: the
--                    table, what the operations keep, credit, charges, the rate, the answers.
--   Cookie/Macs      src/wg_cookie.c, cookie_maker_*, cookie_checker_*, macs_*, make_cookie. Children: what a
--                    message has shown, the answers, and the cookie reply.
--   Crypto/Word      src/crypto.c, words of 32 bits in byte buffers.
--   Crypto/Chacha    src/crypto.c, ChaCha20 and HChaCha20. Children: a block generator as a stream of key
--                    bytes, and the block-wise code against it.
--   Crypto/Poly      src/crypto.c, poly1305_*. Children: a message taken byte by byte (Absorb), the
--                    buffered update against it, the tag, the arithmetic of one block (Field), of many
--                    (Horner), and of the tag (Emit).
--   Crypto/Aead      src/crypto.c, chacha20poly1305_* and xchacha20poly1305_*. Children: sealing and
--                    opening, and Mbuf, the versions on chains of mbufs.
--   Crypto/Blake     src/crypto.c, blake2s_*. Children: a message taken byte by byte, the update, the
--                    digests.
--   Crypto/Primitives src/crypto.h and src/crypto.c as the functions that wg_noise.c and wg_cookie.c call;
--                    Laws: they fill the interfaces of these two.
--   If/Queue         src/if_wg.c, wg_queue_*. Children: the staged queue, and the serial and parallel
--                    queues with several workers as a step relation.
--   If/Data          src/if_wg.c, calculate_padding, wg_encrypt, determine_af_and_pullup and wg_decrypt.
--                    Children: the padding, and a packet from one end of a session to the other, by its sender
--                    (Sent) and its receiver (Opening).
--   If/Handshake     src/if_wg.c, wg_handshake, wg_send_response, wg_send_cookie: the
--                    test for load, the macs, and what each type of message does. Children: what a message
--                    under load has shown, and when it panics.
--   If/Timers        src/if_wg.c, wg_timers_* and wg_send_initiation. Children: retries, and what a
--                    disabled peer has left.
--   Prelude          shared words, lists, tests and signed times.
--   Tests files hold concrete runs.
--
-- A pointer is a natural number, and the memory of one noise_local is a function from addresses to
-- structures. A function of the source is a function here that returns the new state with the result; its
-- name is that of the source without the prefix. Locks are left out: an operation runs as one step, and
-- interleavings are sequences of steps. The clock, random numbers, SipHash, nstosbt and the allocators are
-- arguments. The 64-bit counters wrap around as in the source. NET_EPOCH_CALL records the address, so that
-- the deferred release is not run.
--
-- No loop of the model has fuel but one: the search for an unused index (assign_id) reads a list of random
-- numbers, and returns `none` when all of them are in use; the source would draw again.
--
-- The functions of mbuf(9) on chains are an interface with their documented laws; explicit_bzero of local
-- variables is left out. A loop over blocks is a recursion on their number. chacha20 takes its length as a
-- uint32_t, so buffers are shorter than 2^32 bytes. wg_encrypt returns `none` where the source would read
-- behind its static array of 16 bytes of padding.
--
-- Not modelled: curve25519 of src/crypto.c, which fiat-crypto generates, the ends of the data path
-- (wg_input, wg_xmit, wg_peer_send_staged, wg_deliver_in, wg_deliver_out), the peers' addresses and
-- allowed addresses, sockets, ioctl and module set-up.
pub mod Prelude
pub mod Noise
pub mod Cookie
pub mod If
pub mod Crypto
