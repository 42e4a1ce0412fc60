-- ===== src/Noise/Counter/Replay.antt =====
-- What `noise_keypair_nonce_check` means for the receiver of packets: no replay gets through, and no
-- packet inside the window is lost.
use wireguard_freebsd.Prelude.{
  member, ℕ, ◌+◌, ◌≤◌, ◌<◌, ◌≡◌, refl, ◌∙◌, true, false, List, [], ◌∷◌, ◌==◌, success, eexist,
  arith,
}
use wireguard_freebsd.Noise.Counter.{
  Counter, counter_window_size, reject_after_messages, nonce_check, fresh,
}
use wireguard_freebsd.Noise.Counter.Window.{Memory, IsWindow, forgotten, fresh-IsWindow}
use wireguard_freebsd.Noise.Counter.Refine.{remember, nonce_check-Agrees}

-- The keypair after the packets `ns`.
unfoldable pub after : Counter → List ℕ → Counter
after kp [] = kp
after kp (n ∷ ns) = after (nonce_check kp n).1 ns

memory_after : Memory → List ℕ → Memory
memory_after s [] = s
memory_after s (n ∷ ns) = memory_after (remember s n).1 ns

after-IsWindow :
    (kp : Counter) (s : Memory) (ns : List ℕ)
    → IsWindow kp s
    → IsWindow (after kp ns) (memory_after s ns)
unfolding after memory_after
after-IsWindow kp s [] w = w
after-IsWindow kp s (n ∷ ns) w =
    after-IsWindow (nonce_check kp n).1 (remember s n).1 ns (nonce_check-Agrees kp s n w).window

remember_accepted :
    (s : Memory) (n : ℕ) → (remember s n).0 ≡ success → member n (remember s n).1.accepted ≡ true
unfolding remember
remember_accepted s n h = ground arith

remember_keeps :
    (s : Memory) (m n : ℕ) → member m s.accepted ≡ true → member m (remember s n).1.accepted ≡ true
unfolding remember
remember_keeps s m n h = ground arith

memory_after_keeps :
    (s : Memory) (m : ℕ) (ns : List ℕ)
    → member m s.accepted ≡ true
    → member m (memory_after s ns).accepted ≡ true
unfolding memory_after
memory_after_keeps s m [] h = h
memory_after_keeps s m (n ∷ ns) h =
    memory_after_keeps (remember s n).1 m ns (remember_keeps s m n h)

remember-member : (s : Memory) (n : ℕ) → member n s.accepted ≡ true → (remember s n).0 ≡ eexist
unfolding remember
remember-member s n h = ground arith

-- A nonce that `noise_keypair_nonce_check` accepts after any packets `before` from a new keypair on is
-- refused with EEXIST ever after, whatever packets `between` come first.
pub nonce_check_no_replay :
    (before between : List ℕ) (n : ℕ)
    → (nonce_check (after fresh before) n).0 ≡ success
    → (nonce_check (after (nonce_check (after fresh before) n).1 between) n).0 ≡ eexist
nonce_check_no_replay before between n h =
    let w = after-IsWindow fresh forgotten before fresh-IsWindow in
    let step = nonce_check-Agrees (after fresh before) _ n w in
    let later = after-IsWindow _ _ between step.window in
    (nonce_check-Agrees _ _ n later).answer
    ∙ remember-member _ n
        (memory_after_keeps _ n between (remember_accepted _ n (cc (step.answer))))

-- `n` is none of `ns`, and at most `counter_window_size` behind each of them.
abbrev pub IsTimely : ℕ → List ℕ → Type 0
IsTimely n [] = Unit {0}
IsTimely n (m ∷ ms) = ((m == n) ≡ false) × (m ≤ n + counter_window_size) × IsTimely n ms

-- The memory holds nothing that makes it refuse `n`.
record IsOpen (n : ℕ) (s : Memory) : Type 0 where
  absent : member n s.accepted ≡ false
  near : s.top ≤ n + 1 + counter_window_size

remember-IsOpen :
    (n m : ℕ) (s : Memory)
    → (m == n) ≡ false
    → m ≤ n + counter_window_size
    → IsOpen n s
    → IsOpen n (remember s m).1
unfolding remember
remember-IsOpen n m s ne le v = ground arith

memory_after-IsOpen :
    (n : ℕ) (s : Memory) (ms : List ℕ) → IsTimely n ms → IsOpen n s → IsOpen n (memory_after s ms)
unfolding memory_after
memory_after-IsOpen n s [] t v = v
memory_after-IsOpen n s (m ∷ ms) t v =
    memory_after-IsOpen n (remember s m).1 ms t.2 (remember-IsOpen n m s t.0 t.1 v)

remember_open :
    (n : ℕ) (s : Memory) → n < reject_after_messages → IsOpen n s → (remember s n).0 ≡ success
unfolding remember
remember_open n s r v = ground arith

-- A nonce below REJECT_AFTER_MESSAGES that was not presented before, and is at most
-- COUNTER_WINDOW_SIZE behind every nonce that was, is accepted, in whatever order they came.
pub nonce_check_in_window :
    (before : List ℕ) (n : ℕ)
    → n < reject_after_messages
    → IsTimely n before
    → (nonce_check (after fresh before) n).0 ≡ success
nonce_check_in_window before n r t =
    let w = after-IsWindow fresh forgotten before fresh-IsWindow in
    (nonce_check-Agrees (after fresh before) _ n w).answer
    ∙ remember_open n _ r
        (memory_after-IsOpen n forgotten before t (record { absent = refl; near = omega arith }))
