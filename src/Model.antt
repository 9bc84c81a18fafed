-- ===== src/Model.antt =====
-- internal/model/model.go: the server's half of the evidence. A time is a number of nanoseconds; 0 is
-- the zero time.
use censor_pulse_cli.Common.{Bool, Details, Option, String, ℕ}

-- `Observation`
pub record Observation : Type 0 where
  pub id : String
  pub session_id : String
  pub attempt_id : String
  pub test_id : String
  pub nonce : String
  pub seq : ℕ
  pub transport : String
  pub dst_port : ℕ
  pub src_port : ℕ
  pub first_seen_at : ℕ
  pub replied_at : Option ℕ
  pub closed_at : Option ℕ
  pub bytes_in : ℕ
  pub bytes_out : ℕ
  pub payload_sha : String
  pub parse : String
  pub detail : Details
  pub response : String
  pub close : String
  pub server_error : String
  pub unmatched : Bool
