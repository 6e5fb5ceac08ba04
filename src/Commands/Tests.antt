-- ===== src/Commands/Tests.antt =====
-- The state of concrete commands.
use iot_saas.Prelude.{◌≡◌, refl, none, arith}
use iot_saas.Commands.{
  Command, pending, no_response, command_status, deadline, ms_until_command_deadline,
  ms_until-command_status,
}

abbrev sent : Command
sent = record { acked_at = none; issued = 5000; ttl_seconds = 30 }

ms_until-command_status_example :
    (command_status sent 10000 ≡ pending)
    × (command_status sent 35000 ≡ pending)
    × (command_status sent 35001 ≡ no_response)
unfolding ms_until_command_deadline deadline
ms_until-command_status_example = ms_until-command_status sent 10000 25000 35001 refl (omega arith)
