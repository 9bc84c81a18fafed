-- ===== src/Server/Store/Sessions.antt =====
-- internal/server/store.go: sessions and the observations that they hold.
pub mod Rows
pub mod Isolation
pub mod Reading
use censor_pulse_cli.Common.{
  bytes_key, Bool, Bytes, List, Option, String, [], false, find, if◌then◌else◌, leb, length, ltb,
  none, put, some, str_eq, true, ℕ, ◌++◌, ◌+◌, ◌==◌, ◌∷◌,
}
use censor_pulse_cli.Model.{Observation}
use censor_pulse_cli.Server.Store.{Hex, Session, Store, Drops, max_session_observations, no_drops}

abbrev pub adopt : Option Session → Session → Session
adopt none sess = sess
adopt (some old) sess = record sess { obs = old.obs }

-- `putSession`: an id that is already known is the same session stored again.
unfoldable pub put_session : Store → Session → Store
put_session s sess = record s {
  sessions = put sess.id (adopt (find sess.id s.sessions) sess) s.sessions;
}

abbrev pub live : ℕ → Option Session → Option Session
live now none = none
live now (some sess) = if ltb sess.expires now then none else some sess

-- `getSession`
unfoldable pub get_session : Store → Bytes → ℕ → Option Session
get_session s id now = live now (find id s.sessions)

abbrev pub key_of : Option Session → Option Bytes
key_of none = none
key_of (some sess) = some sess.key

-- `keyFor`, at the time of the call.
unfoldable pub key_for : Store → ℕ → Bytes → Option Bytes
key_for s now id = key_of (get_session s id now)

abbrev pub sized : Option Bytes → Option Bytes
sized none = none
sized (some b) = if length b == 16 then some b else none

-- `proto.ParseSessionID`
unfoldable pub parse_session_id : Hex → String → Option Bytes
parse_session_id hex sid = sized (hex.decode sid)

abbrev pub get_by_id : Store → ℕ → Option Bytes → Option Session
get_by_id s now none = none
get_by_id s now (some id) = get_session s id now

-- `sessionByHex`, at the time of the call.
unfoldable pub session_by_hex : Hex → Store → String → ℕ → Option Session
session_by_hex hex s sid now = get_by_id s now (parse_session_id hex sid)

abbrev pub spelled : Hex → String → Option Bytes → Option Bytes
spelled hex sid none = none
spelled hex sid (some id) = if str_eq (hex.encode id) sid then some id else none

abbrev pub find_session : Store → Option Bytes → Option Session
find_session s none = none
find_session s (some id) = find id s.sessions

abbrev pub under : Bytes → Option Session → Option (Bytes × Session)
under id none = none
under id (some sess) = some (id, sess)

abbrev pub find_entry : Store → Option Bytes → Option (Bytes × Session)
find_entry s none = none
find_entry s (some id) = under id (find id s.sessions)

-- The session that a row names: its id must be spelled as the store spells it.
unfoldable pub named_session : Hex → Store → String → Option (Bytes × Session)
named_session hex s sid = find_entry s (spelled hex sid (parse_session_id hex sid))

-- `addObservationAt`, once the session is looked up.
unfoldable pub record_row : Store → Option (Bytes × Session) → Observation → ℕ → Store × Bool
record_row s none o now = (record s { drops = record d { no_session = d.no_session + 1 } }, false)
  where
    open s use {drops as d}
record_row s (some (id, sess)) o now =
    if ltb sess.expires now
    then (record s { drops = record d { no_session = d.no_session + 1 } }, false)
    else if leb max_session_observations (length sess.obs)
    then (record s { drops = record d { session_cap = d.session_cap + 1 } }, false)
    else if leb s.obs_max s.obs_count
    then (record s { drops = record d { global_cap = d.global_cap + 1 } }, false)
    else (
      record s {
        sessions = put id (record sess { obs = sess.obs ++ (o ∷ []) }) s.sessions;
        obs_count = s.obs_count + 1;
      },
      true,
    )
  where
    open s use {drops as d}

-- `fresh` is the id that the code draws for a row without one.
abbrev pub with_id : String → Observation → Observation
with_id fresh o = if str_eq o.id "" then record o { id = fresh } else o

-- `addObservationAt`
unfoldable pub add_observation : Hex → String → Store → Observation → ℕ → Store × Bool
add_observation hex fresh s o now =
    record_row s (named_session hex s o.session_id) (with_id fresh o) now

-- One step of a stable insertion sort by the time a row's flow began.
unfoldable pub insert_row : Observation → List Observation → List Observation
insert_row o [] = o ∷ []
insert_row o (p ∷ rows) =
    if ltb p.first_seen_at o.first_seen_at then p ∷ insert_row o rows else o ∷ p ∷ rows

-- `sort.SliceStable` by `FirstSeenAt`.
unfoldable pub sort_rows : List Observation → List Observation
sort_rows [] = []
sort_rows (o ∷ rows) = insert_row o (sort_rows rows)

abbrev pub rows_of : Option Session → List Observation
rows_of none = []
rows_of (some sess) = sess.obs

-- `observationsFor`
unfoldable pub observations_for : Hex → Store → String → List Observation
observations_for hex s sid = sort_rows (rows_of (find_session s (parse_session_id hex sid)))

-- `takeDrops`
unfoldable pub take_drops : Store → Store × Drops × ℕ
take_drops s = (record s { drops = no_drops }, s.drops, s.obs_count)
