-- ===== src/Commands.antt =====
-- The confirmation state of an actuator command (frontend/src/lib/command-status.ts). Times are whole
-- milliseconds since the epoch; `issued` is `new Date(c.issued_at).getTime()`.
mod Tests
use iot_saas.Prelude.{
  ℕ, suc, ◌+◌, ◌-◌, ◌*◌, ◌≤◌, ◌<◌, String, Bool, true, false, ◌≡◌, refl, Option, none, some, ltb,
  if◌then◌else◌, arith, Option-cases, inl, inr,
}

pub data CommandStatus : Type 0 where
  confirmed pending no_response : CommandStatus

pub data StatusTone : Type 0 where
  online waiting offline : StatusTone

-- The fields of CommandResponse that are read.
pub record Command : Type 0 where
  pub acked_at : Option String
  pub issued : ℕ
  pub ttl_seconds : ℕ

unfoldable pub deadline : Command → ℕ
deadline c = c.issued + c.ttl_seconds * 1000

abbrev status_of : Option String → ℕ → ℕ → CommandStatus
status_of (some acked) end now = confirmed
status_of none end now = if ltb end now then no_response else pending

unfoldable pub command_status : Command → ℕ → CommandStatus
command_status c now = status_of c.acked_at (deadline c) now

abbrev remaining_of : Option String → ℕ → ℕ → Option ℕ
remaining_of (some acked) end now = none
remaining_of none end now = if ltb now end then some (end - now) else none

unfoldable pub ms_until_command_deadline : Command → ℕ → Option ℕ
ms_until_command_deadline c now = remaining_of c.acked_at (deadline c) now

unfoldable pub command_status_label : CommandStatus → String
command_status_label confirmed = "Acknowledged"
command_status_label pending = "Pending"
command_status_label no_response = "No response"

unfoldable pub command_status_tone : CommandStatus → StatusTone
command_status_tone confirmed = online
command_status_tone pending = waiting
command_status_tone no_response = offline

-- A command that has a wait left is pending, is still pending when exactly that wait is over, and has no
-- response from one millisecond later on.
pub ms_until-command_status :
    (c : Command) (now r later : ℕ)
    → ms_until_command_deadline c now ≡ some r
    → now + r < later
    → (command_status c now ≡ pending)
      × (command_status c (now + r) ≡ pending)
      × (command_status c later ≡ no_response)
unfolding ms_until_command_deadline command_status
ms_until-command_status c now r later h k = elim (Option-cases c.acked_at) [
  | inl e ↦ rw e (ground (arith, rw e at h))
  | inr (t, e) ↦ ground (arith, rw e at h)
]

-- A command that has no response yet has none at any later time, until it is acknowledged.
pub command_status_stays :
    (c : Command) (now later : ℕ)
    → command_status c now ≡ no_response
    → now ≤ later
    → command_status c later ≡ no_response
unfolding command_status
command_status_stays c now later h k = elim (Option-cases c.acked_at) [
  | inl e ↦ rw e (ground (arith, rw e at h))
  | inr (t, e) ↦ ground (arith, rw e at h)
]
