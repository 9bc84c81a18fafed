-- ===== src/Client/Remerge/Failing.antt =====
-- internal/client/merge.go: which failures a new reading may turn into a success.
use censor_pulse_cli.Common.{◌≡◌, ◌⊎◌}
use censor_pulse_cli.Client.Merge.{Runtime, Attempt}

module _ (g : Runtime) where
  abbrev IsRead : Attempt g → Attempt g → Type 0
  IsRead a b = (b.test_id ≡ a.test_id) × ((b.outcome ≡ a.outcome) ⊎ (b.outcome ≡ "server_error"))
