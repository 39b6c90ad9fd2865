-- ===== src/Link.antt =====
-- The Gateway's USB recovery ladder: Firmware/Libraries/SimGateway/LinkRecovery.h and .cpp.
pub mod Ladder
mod Examples
use open_skyhawk.Base.{ℕ, ◌+◌, ◌-◌, ◌%◌, ◌^◌, Bool, true, false, List, [], ◌∷◌, ltb, if◌then◌else◌}

-- `enum class LinkAction`
pub data LinkAction : Type 0 where
  none detach attach reboot : LinkAction

-- `enum LinkPhase`; the code stores no other value, so the `default` of its switch has no case here.
pub data LinkPhase : Type 0 where
  phase_healthy phase_wait phase_detached phase_reattached : LinkPhase

pub record LinkRecovery : Type 0 where
  pub phase : LinkPhase
  pub backoff : Bool
  pub since_ms : ℕ

abbrev pub link_bad_ms : ℕ
link_bad_ms = 5000

abbrev pub link_reattach_gap_ms : ℕ
link_reattach_gap_ms = 100

abbrev pub link_reboot_after_ms : ℕ
link_reboot_after_ms = 5000

abbrev pub link_backoff_ms : ℕ
link_backoff_ms = 60000

-- `(uint32_t)(now - since)`
abbrev pub elapsed : ℕ → ℕ → ℕ
elapsed now since = (now + 2 ^ 32 - since) % 2 ^ 32

unfoldable pub link_recovery_begin : Bool → LinkRecovery
link_recovery_begin after_recovery_reboot = record {
  phase = phase_healthy;
  backoff = after_recovery_reboot;
  since_ms = 0;
}

-- the `switch` on an unhealthy tick, of a phase other than PHASE_DETACHED
unfoldable pub unhealthy_step : LinkPhase → LinkRecovery → ℕ → LinkAction × LinkRecovery
unhealthy_step phase_healthy s now = (none, record s { phase = phase_wait; since_ms = now })
unhealthy_step phase_wait s now =
    if ltb (elapsed now s.since_ms) (if s.backoff then link_backoff_ms else link_bad_ms)
    then (none, s)
    else (detach, record s { phase = phase_detached; since_ms = now })
unhealthy_step phase_reattached s now =
    if ltb (elapsed now s.since_ms) link_reboot_after_ms
    then (none, s)
    else if s.backoff
    then (none, record s { phase = phase_wait; since_ms = now })
    else (reboot, s)
unhealthy_step phase_detached s now = (none, s)

-- the phases of `linkRecoveryStep`
unfoldable pub phase_step : LinkPhase → LinkRecovery → ℕ → Bool → LinkAction × LinkRecovery
unfolding unhealthy_step
phase_step phase_detached s now healthy =
    if ltb (elapsed now s.since_ms) link_reattach_gap_ms
    then (none, s)
    else (attach, record s { phase = phase_reattached; since_ms = now })
phase_step p s now healthy =
    if healthy
    then (none, record s { phase = phase_healthy; backoff = false })
    else unhealthy_step p s now

-- `linkRecoveryStep(s, now, healthy)`
unfoldable pub link_recovery_step : LinkRecovery → ℕ → Bool → LinkAction × LinkRecovery
unfolding phase_step
link_recovery_step s now healthy = phase_step s.phase s now healthy

-- the ladder over the ticks of the caller, each with its time and the health sampled
unfoldable pub run : LinkRecovery → List (ℕ × Bool) → List LinkAction
run s [] = []
run s ((now, healthy) ∷ ts) = let (a, s') = link_recovery_step s now healthy in a ∷ run s' ts

-- the ladder after those ticks
unfoldable pub after : LinkRecovery → List (ℕ × Bool) → LinkRecovery
after s [] = s
after s ((now, healthy) ∷ ts) = after (link_recovery_step s now healthy).1 ts
