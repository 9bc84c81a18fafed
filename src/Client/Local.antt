-- ===== src/Client/Local.antt =====
-- internal/client/attempt.go: failures of the host itself, which say nothing about the path.
use censor_pulse_cli.Common.{String, detail_at, if◌then◌else◌, not, str_eq}
use censor_pulse_cli.Client.Merge.{Runtime, Attempt}

abbrev pub local_no_route : String
local_no_route = "no_route"

module _ (g : Runtime) where
  -- `LocalFailure`
  unfoldable pub local_failure : Attempt g → String
  local_failure a =
      if str_eq a.outcome "ok"
      then ""
      else if not (str_eq (detail_at a.detail "local_error") "")
      then detail_at a.detail "local_error"
      else if g.contains a.error_text "software caused connection abort"
      then "econnaborted"
      else if g.contains a.error_text "operation not permitted"
      then "eperm"
      else if g.contains (detail_at a.detail "system_error") "resNetworkResult failed: ECONNREFUSED"
      then "resolver_blocked"
      else ""
