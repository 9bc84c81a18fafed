-- ===== src/Server/Store.antt =====
-- internal/server/store.go: sessions, reservations, observations, rate limits and bulk quotas. Every
-- method holds the store's mutex from its first access to its last, so that an operation is a function
-- from the store before to the store after. A time is a number of nanoseconds, and a
-- time `t - w` that the code computes is written on the other side, `t + w`. An address is a
-- number, as a netip.Addr is a comparable value; 0 is the zero Addr.
pub mod Rates
pub mod Bulk
pub mod Sessions
pub mod Reservations
pub mod Gc
pub mod History
use censor_pulse_cli.Common.{
  Bool, Bytes, List, Option, String, [], if◌then◌else◌, none, some, ℕ, ◌+◌, ◌≡◌,
}
use censor_pulse_cli.Model.{Observation}

-- What the store uses of net/netip.
pub record NetIp : Type 0 where
  pub unmap : ℕ → ℕ
  pub is_6 : ℕ → Bool
  -- `ip.Prefix(64)`, masked, as an address.
  pub prefix_64 : ℕ → Option ℕ

-- encoding/hex, between 16-byte session ids and texts.
pub record Hex : Type 0 where
  pub encode : Bytes → String
  pub decode : String → Option Bytes
  pub decode-encode : (b : Bytes) → decode (encode b) ≡ some b

-- `session`
pub record Session : Type 0 where
  pub id : Bytes
  pub key : Bytes
  pub expires : ℕ
  pub created : ℕ
  pub client_ip : ℕ
  pub tests : List (String × Bool)
  pub obs : List Observation

-- `reservation`
pub record Reservation : Type 0 where
  pub id : String
  pub session_id : Bytes
  pub expires : ℕ
  pub client_ip : ℕ
  pub dst_port : ℕ
  pub transport : String
  pub kind : String
  pub test_id : String
  pub variant : String
  pub used : Bool

-- `bulkUse`
pub record BulkUse : Type 0 where
  pub day : ℕ
  pub bytes : ℕ

-- `obsDrops`
pub record Drops : Type 0 where
  pub no_session : ℕ
  pub session_cap : ℕ
  pub global_cap : ℕ

-- `obsDrops.total`
unfoldable pub total_drops : Drops → ℕ
total_drops d = d.no_session + d.session_cap + d.global_cap

-- `store`
pub record Store : Type 0 where
  pub sessions : List (Bytes × Session)
  pub reservations : List Reservation
  pub obs_count : ℕ
  pub obs_max : ℕ
  pub retention : ℕ
  pub drops : Drops
  pub sess_rate : List (ℕ × List ℕ)
  pub attempt_rate : List (ℕ × List ℕ)
  pub sess_per_min : ℕ
  pub att_per_10_min : ℕ
  pub bulk_used : List (ℕ × BulkUse)
  pub bulk_per_day : ℕ

abbrev pub minute : ℕ
minute = 60000000000

abbrev pub max_live_sessions : ℕ
max_live_sessions = 4096

abbrev pub bulk_global_per_day : ℕ
bulk_global_per_day = 4294967296

abbrev pub max_session_observations : ℕ
max_session_observations = 8192

abbrev pub no_drops : Drops
no_drops = record { no_session = 0; session_cap = 0; global_cap = 0 }

-- `newStore`
unfoldable pub new_store : ℕ → ℕ → ℕ → ℕ → Store
new_store max_obs retention sess_per_min att_per_10_min = record {
  sessions = [];
  reservations = [];
  obs_count = 0;
  obs_max = max_obs;
  retention = retention;
  drops = no_drops;
  sess_rate = [];
  attempt_rate = [];
  sess_per_min = sess_per_min;
  att_per_10_min = att_per_10_min;
  bulk_used = [];
  bulk_per_day = 67108864;
}

abbrev pub or_else : Option ℕ → ℕ → ℕ
or_else none d = d
or_else (some a) d = a

-- `rateKey`
unfoldable pub rate_key : NetIp → ℕ → ℕ
rate_key net ip =
    let plain = net.unmap ip in
    if net.is_6 plain then or_else (net.prefix_64 plain) plain else plain
