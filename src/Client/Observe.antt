-- ===== src/Client/Observe.antt =====
-- internal/client/merge.go: `mergeObservations`, as far as it chooses the observation of an attempt.
pub mod Complete
pub mod Counts
pub mod Matching
use Prim.Native.String.{◌++◌ as text_append}
use censor_pulse_cli.Common.{
  string_key, Bool, List, Option, String, [], detail_at, find, if◌then◌else◌, none, not, put, some,
  str_eq, true, ℕ, ◌&&◌, ◌++◌, ◌+◌, ◌==◌, ◌||◌, ◌∷◌,
}
use censor_pulse_cli.Model.{Observation}
use censor_pulse_cli.Client.Merge.{Runtime, Attempt}

-- The maps that the first loop fills.
pub record Index : Type 0 where
  pub by_nonce : List (String × Observation)
  pub by_attempt : List (String × Observation)
  pub data_seen : List (String × ℕ)
  pub ctl_seen : List (String × ℕ)
  pub dns_obs : List Observation

abbrev pub empty_index : Index
empty_index = record { by_nonce = []; by_attempt = []; data_seen = []; ctl_seen = []; dns_obs = [] }

-- The key of `byNonce`.
unfoldable pub nonce_key : String → String → String
nonce_key test_id nonce = text_append test_id (text_append "/" nonce)

-- The richer record is preferred when both the handshake and the inner echo exist.
abbrev pub is_richer : Option Observation → Observation → Bool
is_richer none o = true
is_richer (some prev) o =
    str_eq prev.response "quic_forwarded" && not (str_eq o.response "quic_forwarded")

unfoldable pub index_nonce : Index → Observation → Index
index_nonce x o =
    let key = nonce_key o.test_id o.nonce in
    if not (str_eq o.nonce "") && is_richer (find key x.by_nonce) o
    then record x { by_nonce = put key o x.by_nonce }
    else x

-- A packet after the handshake of a session test.
unfoldable pub is_follow_up : Observation → Bool
is_follow_up o =
    let stage = detail_at o.detail "stage" in
    (str_eq stage "transport" || str_eq stage "control") && str_eq o.transport "udp"

unfoldable pub is_accepted : Observation → Bool
is_accepted o =
    not (str_eq (detail_at o.detail "auth") "failed")
    && not (str_eq (detail_at o.detail "parse") "bad_control")
    && not (str_eq (detail_at o.detail "mac") "invalid")

abbrev pub count_of : Option ℕ → ℕ
count_of none = 0
count_of (some n) = n

-- m[key]++
abbrev pub count_up : String → List (String × ℕ) → List (String × ℕ)
count_up key m = put key (count_of (find key m) + 1) m

-- An empty flow, or one that was only forwarded, gives way to the flow that carried the handshake.
abbrev pub gives_way : Option Observation → Observation → Bool
gives_way none o = true
gives_way (some prev) o =
    str_eq prev.response "quic_forwarded"
    || (str_eq prev.parse "empty" && not (str_eq o.parse "empty"))

unfoldable pub index_attempt : Index → Observation → Index
index_attempt x o =
    if str_eq o.attempt_id ""
    then x
    else if is_follow_up o
    then if is_accepted o
      then if str_eq (detail_at o.detail "stage") "control"
        then record x { ctl_seen = count_up o.attempt_id x.ctl_seen }
        else record x { data_seen = count_up o.attempt_id x.data_seen }
      else x
    else if gives_way (find o.attempt_id x.by_attempt) o
    then record x { by_attempt = put o.attempt_id o x.by_attempt }
    else x

unfoldable pub index_dns : Index → Observation → Index
index_dns x o =
    if str_eq o.parse "dns_query" then record x { dns_obs = x.dns_obs ++ (o ∷ []) } else x

-- The first loop of `mergeObservations`.
unfoldable pub index_from : Index → List Observation → Index
index_from x [] = x
index_from x (o ∷ obs) = index_from (index_dns (index_attempt (index_nonce x o) o) o) obs

-- A search loop: the first observation that passes.
unfoldable pub first : (Observation → Bool) → List Observation → Option Observation
first test [] = none
first test (o ∷ obs) = if test o then some o else first test obs

abbrev pub or_else_try : Option Observation → Option Observation → Option Observation
or_else_try none next = next
or_else_try (some o) next = some o

module _ (g : Runtime) (a : Attempt g) where
  -- The DNS query of an attempt.
  unfoldable pub is_query : Observation → Bool
  is_query o = g.has_prefix (detail_at o.detail "qname") (text_append a.nonce ".")

  -- The flow of an attempt, of which the server has only a part.
  unfoldable pub is_flow : Observation → Bool
  is_flow o =
      str_eq o.transport "tcp"
      && o.dst_port == a.dst_port
      && o.src_port == a.src_port
      && str_eq o.test_id a.test_id
      && str_eq (detail_at o.detail "partial") "true"

  unfoldable pub by_own_nonce : Index → Option Observation
  by_own_nonce x = if str_eq a.nonce "" then none else find (nonce_key a.test_id a.nonce) x.by_nonce

  unfoldable pub by_reservation : Index → Option Observation
  by_reservation x = if str_eq a.attempt_id "" then none else find a.attempt_id x.by_attempt

  unfoldable pub by_last_resort : Index → List Observation → Option Observation
  by_last_resort x obs =
      if g.has_prefix a.test_id "dns." && not (str_eq a.nonce "")
      then first is_query x.dns_obs
      else if str_eq a.transport "tcp" && not (a.src_port == 0)
      then first is_flow obs
      else none

  -- `attach`: the observation that it finds.
  unfoldable pub find_server : List Observation → Option Observation
  find_server obs =
      let x = index_from empty_index obs in
      or_else_try (by_own_nonce x) (or_else_try (by_reservation x) (by_last_resort x obs))
