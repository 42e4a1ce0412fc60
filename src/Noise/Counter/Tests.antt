-- ===== src/Noise/Counter/Tests.antt =====
-- The first lines of selftest/counter.c, and the theorems at concrete packets.
use wireguard_freebsd.Prelude.{◌≡◌, refl, List, [], ◌∷◌, ℕ, success, eexist, arith}
use wireguard_freebsd.Noise.Counter.{
  run, fresh, nonce_check, mark, advance, clear_words, reject_after_messages,
}
use wireguard_freebsd.Noise.Counter.Window.{forgotten, fresh-IsWindow}
use wireguard_freebsd.Noise.Counter.Refine.{
  Agrees, remember, run_spec, nonce_check-Agrees, run-eq-run_spec,
}
use wireguard_freebsd.Noise.Counter.Replay.{after, nonce_check_no_replay, nonce_check_in_window}

abbrev packets : List ℕ
packets = 0 ∷ 1 ∷ 1 ∷ 9 ∷ 8 ∷ 7 ∷ 7 ∷ 8129 ∷ 8128 ∷ 8128 ∷ 8127 ∷ 2 ∷ 2 ∷ 8145 ∷ 3 ∷ []

selftest_start :
    run fresh packets
    ≡ success ∷ success ∷ eexist ∷ success ∷ success ∷ success ∷ eexist ∷ success ∷ success ∷ eexist
      ∷ success ∷ success ∷ eexist ∷ success ∷ eexist ∷ []
unfolding run nonce_check mark advance clear_words
selftest_start = refl

selftest_limits :
    run fresh (
      reject_after_messages ∷ 18446744073709543485 ∷ reject_after_messages ∷ 18446744073709543485
      ∷ 18446744073709543484 ∷ 0 ∷ [])
    ≡ eexist ∷ success ∷ eexist ∷ eexist ∷ success ∷ eexist ∷ []
unfolding run nonce_check mark advance clear_words
selftest_limits = refl

nonce_check-Agrees_example : Agrees (nonce_check fresh 5) (remember forgotten 5)
nonce_check-Agrees_example = nonce_check-Agrees fresh forgotten 5 fresh-IsWindow

run-eq-run_spec_example : run fresh packets ≡ run_spec forgotten packets
run-eq-run_spec_example = run-eq-run_spec fresh forgotten packets fresh-IsWindow

nonce_check_no_replay_example :
    (nonce_check (after (nonce_check (after fresh (0 ∷ 9 ∷ [])) 7).1 (8 ∷ 3 ∷ [])) 7).0 ≡ eexist
unfolding nonce_check mark advance clear_words after
nonce_check_no_replay_example = nonce_check_no_replay (0 ∷ 9 ∷ []) (8 ∷ 3 ∷ []) 7 refl

nonce_check_in_window_example : (nonce_check (after fresh (9000 ∷ 9001 ∷ [])) 1000).0 ≡ success
nonce_check_in_window_example =
    nonce_check_in_window (9000 ∷ 9001 ∷ []) 1000 (omega arith)
      (refl, omega arith, (refl, omega arith, tt))
