-- ===== src/Client/Merge/Blame.antt =====
-- internal/client/merge.go: when the merged verdict is server_error or server_silent.
use censor_pulse_cli.Common.{Bool, detail_at, false, some, str_eq, true, ◌&&◌, ◌==◌, ◌≡◌}
use censor_pulse_cli.Model.{Observation}
use censor_pulse_cli.Client.Merge.{
  Runtime, Merged, Attempt, one_of, past_deadline, server_error, server_silent, waited_for_client,
}
use censor_pulse_cli.Client.Merge.Verdict.{mac_invalid, has_replied}
use censor_pulse_cli.Client.Merge.Table.{timeouts}

-- The verdicts on the server itself: its error, and its silence.
abbrev pub is_server_verdict : Merged → Bool
is_server_verdict server_error = true
is_server_verdict server_silent = true
is_server_verdict m = false

module _ (g : Runtime) where
  -- What the server's observation shows where a timed-out attempt gets a verdict on the server.
  pub record Blame (a : Attempt g) (o : Observation) : Type 0 where
    pub timed_out : one_of a.outcome timeouts ≡ true
    pub observed : a.server ≡ some o
    pub connected : (str_eq a.outcome "connect_timeout" && str_eq a.transport "tcp") ≡ false
    pub same_cookie : str_eq (detail_at o.detail "cookie") "invalid" ≡ false
    pub in_time : past_deadline g a ≡ false
    pub intact : mac_invalid o ≡ false
    pub no_reply : has_replied o ≡ false
    pub some_input : (str_eq a.transport "tcp" && o.bytes_in == 0 && str_eq o.parse "empty") ≡ false
    pub own_fault : str_eq o.server_error "" ≡ false → waited_for_client g o ≡ false
