-- ===== src/Link/Ladder.antt =====
-- What the ladder promises (LinkRecovery.h).
use open_skyhawk.Base.{
  ap, ◌∙◌, ℕ, ◌≤◌, ◌<◌, ◌≡◌, ◌≢◌, ◌⊎◌, refl, Bool, true, false, not, List, [], ◌∷◌, arith,
  if◌then◌else◌, ◌||◌,
}
use open_skyhawk.Link.{
  LinkAction, none, detach, attach, reboot, LinkPhase, phase_wait, phase_detached, phase_reattached,
  LinkRecovery, elapsed, link_recovery_step, run, after, link_backoff_ms, link_bad_ms,
  link_reattach_gap_ms,
}

abbrev pub is_detached : LinkPhase → Bool
is_detached phase_detached = true
is_detached _ = false

-- The D+ pull-up as an action leaves it.
unfoldable pub pull_up : Bool → LinkAction → Bool
pull_up on none = on
pull_up on detach = false
pull_up on attach = true
pull_up on reboot = true

-- the pull-up after a run of actions
unfoldable pub pull_up_after : Bool → List LinkAction → Bool
pull_up_after on [] = on
pull_up_after on (a ∷ acts) = pull_up_after (pull_up on a) acts

step-pull_up :
    (s : LinkRecovery) (now : ℕ) (healthy : Bool)
    → pull_up (not (is_detached s.phase)) (link_recovery_step s now healthy).0
      ≡ not (is_detached (link_recovery_step s now healthy).1.phase)
unfolding link_recovery_step pull_up
step-pull_up s now healthy = ground arith

-- From a pull-up that is off exactly if the ladder is in its detached phase, the same holds after any
-- ticks.
pub run-pull_up :
    (s : LinkRecovery) (ts : List (ℕ × Bool))
    → pull_up_after (not (is_detached s.phase)) (run s ts) ≡ not (is_detached (after s ts).phase)
unfolding pull_up_after run after
run-pull_up s [] = refl
run-pull_up s ((now, healthy) ∷ ts) =
    ap (λ on. pull_up_after on (run (link_recovery_step s now healthy).1 ts))
      (step-pull_up s now healthy)
    ∙ run-pull_up (link_recovery_step s now healthy).1 ts

-- the ticks within the gap after a detach
abbrev pub Early : ℕ → List (ℕ × Bool) → Type 0
Early since [] = Unit
Early since ((now, healthy) ∷ ts) = (elapsed now since < link_reattach_gap_ms) × Early since ts

abbrev pub mentions_reboot : List LinkAction → Bool
mentions_reboot [] = false
mentions_reboot (reboot ∷ acts) = true
mentions_reboot (a ∷ acts) = mentions_reboot acts

abbrev pub any_healthy : List (ℕ × Bool) → Bool
any_healthy [] = false
any_healthy ((now, healthy) ∷ ts) = healthy || any_healthy ts

step_backoff :
    (s : LinkRecovery) (now : ℕ)
    → s.backoff ≡ true
    → ((link_recovery_step s now false).0 ≢ reboot)
      × ((link_recovery_step s now false).1.backoff ≡ true)
unfolding link_recovery_step
step_backoff s now b = (ground arith, ground arith)

cons-mentions_reboot :
    (a : LinkAction) (acts : List LinkAction)
    → a ≢ reboot
    → mentions_reboot acts ≡ false
    → mentions_reboot (a ∷ acts) ≡ false
cons-mentions_reboot none acts h e = e
cons-mentions_reboot detach acts h e = e
cons-mentions_reboot attach acts h e = e
cons-mentions_reboot reboot acts h e = absurd (h refl)

-- After a recovery reboot the ladder asks for no second one until a tick has been healthy.
pub run-backoff :
    (s : LinkRecovery) (ts : List (ℕ × Bool))
    → s.backoff ≡ true
    → any_healthy ts ≡ false
    → mentions_reboot (run s ts) ≡ false
unfolding run
run-backoff s [] b h = refl
run-backoff s ((now, true) ∷ ts) b h = cc
run-backoff s ((now, false) ∷ ts) b h =
    let (quiet, still) = step_backoff s now b in
    cons-mentions_reboot _ _ quiet (run-backoff (link_recovery_step s now false).1 ts still h)

-- A tick detaches only on an unhealthy link that has been waiting for the bad time, or for the
-- backoff time after a recovery reboot; it reboots only on one that is still unhealthy 5 s after it
-- was attached again, and never in backoff.
pub step_escalates :
    (s : LinkRecovery) (now : ℕ) (healthy : Bool) {a : LinkAction} {s' : LinkRecovery}
    → link_recovery_step s now healthy ≡ (a, s')
    → ((a ≢ detach) × (a ≢ reboot))
      ⊎ ((a ≡ detach)
          × (healthy ≡ false)
          × (s.phase ≡ phase_wait)
          × ((if s.backoff then link_backoff_ms else link_bad_ms) ≤ elapsed now s.since_ms))
      ⊎ ((a ≡ reboot)
          × (healthy ≡ false)
          × (s.phase ≡ phase_reattached)
          × (5000 ≤ elapsed now s.since_ms)
          × (s.backoff ≡ false))
unfolding link_recovery_step
step_escalates s now healthy h = ground arith
