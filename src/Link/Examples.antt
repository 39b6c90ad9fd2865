-- ===== src/Link/Examples.antt =====
-- The ladder's theorems at concrete ticks.
use open_skyhawk.Base.{ℕ, ◌≡◌, refl, Bool, true, false, List, [], ◌∷◌}
use open_skyhawk.Link.{
  none, detach, attach, reboot, phase_healthy, phase_wait, phase_detached, LinkRecovery,
  link_recovery_step, run, after,
}
use open_skyhawk.Link.Ladder.{pull_up_after, mentions_reboot, run-pull_up, run-backoff}

-- a link that stays down
abbrev down : List (ℕ × Bool)
down = (10, false) ∷ (5010, false) ∷ (5110, false) ∷ (10110, false) ∷ []

abbrev first_boot : LinkRecovery
first_boot = record { phase = phase_healthy; backoff = false; since_ms = 0 }

abbrev second_boot : LinkRecovery
second_boot = record { phase = phase_healthy; backoff = true; since_ms = 0 }

down_reboots : run first_boot down ≡ none ∷ detach ∷ attach ∷ reboot ∷ []
unfolding run link_recovery_step
down_reboots = refl

run-pull_up_example : pull_up_after true (run first_boot ((10, false) ∷ (5010, false) ∷ [])) ≡ false
unfolding after link_recovery_step
run-pull_up_example = run-pull_up first_boot ((10, false) ∷ (5010, false) ∷ [])

abbrev pulled : LinkRecovery
pulled = record { phase = phase_detached; backoff = false; since_ms = 5010 }

run-backoff_example : mentions_reboot (run second_boot down) ≡ false
run-backoff_example = run-backoff second_boot down refl refl

abbrev waiting : LinkRecovery
waiting = record { phase = phase_wait; backoff = false; since_ms = 10 }
