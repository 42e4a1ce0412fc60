-- ===== src/If/Timers/Tests.antt =====
-- The theorems on the timers at concrete peers.
use wireguard_freebsd.Prelude.{◌+◌, ◌≤◌, true, false, refl, List, [], ◌∷◌, arith}
use wireguard_freebsd.If.Timers.{
  Timers, Answer, timers_init, enable, disable, event_data_sent, max_timer_handshakes,
}
use wireguard_freebsd.If.Timers.Quiet.{
  start, next, enabling, disabling, data_sent, IsQuiet, Reach-IsQuiet,
}
use wireguard_freebsd.If.Timers.Retry.{retry_run, initiations, retry_run-IsBounded}

abbrev busy : Timers
busy = event_data_sent (enable timers_init).0 7

Reach-IsQuiet_example : IsQuiet (disable busy)
unfolding disable
Reach-IsQuiet_example =
    Reach-IsQuiet (disable busy)
      (next (next (next start (enabling timers_init)) (data_sent (enable timers_init).0 7))
        (disabling busy))
      refl

abbrev silence : List Answer
silence =
    record { expired = true; created = true; jitter = 5 }
    ∷ record { expired = true; created = false; jitter = 6 }
    ∷ record { expired = true; created = true; jitter = 7 }
    ∷ []

retry_run-IsBounded_example :
    (initiations (retry_run silence timers_init).1 + 0 ≤ max_timer_handshakes + 1)
    × ((retry_run silence timers_init).0.retries ≤ max_timer_handshakes + 1)
retry_run-IsBounded_example = retry_run-IsBounded silence timers_init (omega arith)
