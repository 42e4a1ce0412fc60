-- ===== src/Noise/Counter.antt =====
-- The nonce counters of a keypair (wg_noise.c, `kp_nonce_send`, `kp_nonce_recv`, `kp_backtrack`) and
-- the replay window of `noise_keypair_nonce_check`, on an LP64 machine: words of 64 bits. Masks by
-- 2 ^ k - 1 are written as remainders, shifts to the right by 6 as quotients.
pub mod Bitmap
pub mod Window
pub mod Refine
pub mod Replay
mod Tests
use wireguard_freebsd.Prelude.{
  ℕ, zero, suc, ◌+◌, ◌-◌, ◌/◌, ◌%◌, ◌^◌, min, bit_and, bit_or, Bool, true, false, ◌||◌, List, ltb,
  leb, ◌==◌, if◌then◌else◌, set, get_or, replicate, add64, sub64, shl64, Errno, success, eexist,
}

abbrev pub counter_bits_total : ℕ
counter_bits_total = 8192

abbrev pub counter_bits : ℕ
counter_bits = 64

abbrev pub counter_words : ℕ
counter_words = counter_bits_total / counter_bits

abbrev pub counter_window_size : ℕ
counter_window_size = counter_bits_total - counter_bits

-- UINT64_MAX - COUNTER_WINDOW_SIZE - 1
abbrev pub reject_after_messages : ℕ
reject_after_messages = 2 ^ 64 - 1 - counter_window_size - 1

pub record Counter : Type 0 where
  pub nonce_send : ℕ
  pub nonce_recv : ℕ
  pub backtrack : List ℕ

-- The counters of a keypair that malloc zeroed.
abbrev pub fresh : Counter
fresh = record { nonce_send = 0; nonce_recv = 0; backtrack = replicate counter_words 0 }

-- The loop `for (i = 1; i <= top; i++)`: `n` rounds are left, from `i` on.
pub clear_words : ℕ → ℕ → ℕ → List ℕ → List ℕ
clear_words zero i index_current words = words
clear_words (suc n) i index_current words =
    clear_words n (i + 1) index_current (set words (add64 i index_current % counter_words) 0)

-- The window moves forward when `recv` is the largest counter so far.
pub advance : Counter → ℕ → Counter
advance kp recv =
    if ltb kp.nonce_recv recv
    then record kp { nonce_recv = recv; backtrack = clear_words top 1 index_current kp.backtrack }
    else kp
  where
    index_current : ℕ
    index_current = kp.nonce_recv / 64

    top : ℕ
    top = min (sub64 (recv / 64) index_current) counter_words

-- The test of the bit of `recv`, and its setting.
pub mark : Counter → ℕ → Errno × Counter
mark kp recv =
    if bit_and word mask == 0
    then (success, record kp { backtrack = set kp.backtrack index (bit_or word mask) })
    else (eexist, kp)
  where
    index : ℕ
    index = recv / 64 % counter_words

    mask : ℕ
    mask = shl64 1 (recv % counter_bits)

    word : ℕ
    word = get_or kp.backtrack index 0

-- `recv` is the nonce of a packet; inside it is counted from 1.
pub nonce_check : Counter → ℕ → Errno × Counter
nonce_check kp recv =
    if leb (reject_after_messages + 1) kp.nonce_recv || leb reject_after_messages recv
    then (eexist, kp)
    else (if ltb (add64 (add64 recv 1) counter_window_size) kp.nonce_recv
        then (eexist, kp)
        else mark (advance kp (add64 recv 1)) (add64 recv 1))

-- The answers to a sequence of packets.
pub run : Counter → List ℕ → List Errno
run kp List.[] = List.[]
run kp (List.◌∷◌ n ns) = let (e, kp') = nonce_check kp n in List.◌∷◌ e (run kp' ns)
