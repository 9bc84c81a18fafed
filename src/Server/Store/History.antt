-- ===== src/Server/Store/History.antt =====
-- internal/server/store.go: a store under any sequence of calls.
use censor_pulse_cli.Common.{List, String, [], ap, arith, refl, true, ℕ, ◌∷◌, ◌≡◌}
use censor_pulse_cli.Model.{Observation}
use censor_pulse_cli.Server.Store.{NetIp, Hex, Session, Reservation, Store, new_store}
use censor_pulse_cli.Server.Store.Sessions.{put_session, add_observation, take_drops}
use censor_pulse_cli.Server.Store.Sessions.Rows.{IsConsistent, put_session-IsConsistent, total_rows}
use censor_pulse_cli.Server.Store.Sessions.Isolation.{add_observation-IsConsistent}
use censor_pulse_cli.Server.Store.Reservations.{reserve, match_reservation}
use censor_pulse_cli.Server.Store.Reservations.Matching.{nothing, given, find_reservation-Answer}
use censor_pulse_cli.Server.Store.Rates.{allow_session, allow_attempt}
use censor_pulse_cli.Server.Store.Bulk.{consume_bulk}
use censor_pulse_cli.Server.Store.Gc.{gc}
use censor_pulse_cli.Server.Store.Gc.Keeps.{gc-IsConsistent}

-- The calls that can change a store, with their arguments.
pub data Event : Type 0 where
  session_put : (sess : Session) → sess.obs ≡ [] → Event
  session_asked : ℕ → ℕ → Event
  attempt_asked : ℕ → ℕ → Event
  row_offered : String → Observation → ℕ → Event
  window_reserved : String → Reservation → Event
  flow_matched : ℕ → String → ℕ → String → ℕ → Event
  bulk_asked : ℕ → ℕ → ℕ → Event
  drops_taken : Event
  collected : ℕ → ℕ → Event

module _ (net : NetIp) (hex : Hex) where
  -- The store after a call.
  unfoldable pub step : Store → Event → Store
  step s (session_put sess fresh) = put_session s sess
  step s (session_asked ip now) = (allow_session net s ip now).0
  step s (attempt_asked ip now) = (allow_attempt net s ip now).0
  step s (row_offered fresh o now) = (add_observation hex fresh s o now).0
  step s (window_reserved fresh r) = (reserve s fresh r).0
  step s (flow_matched ip transport dst_port kind now) =
      (match_reservation net s ip transport dst_port kind now).0
  step s (bulk_asked ip n day) = (consume_bulk net s ip n day).0
  step s drops_taken = (take_drops s).0
  step s (collected now day) = gc s now day

  unfoldable pub run : Store → List Event → Store
  run s [] = s
  run s (e ∷ es) = run (step s e) es

  -- Two stores with the same rows.
  SameRows : Store → Store → Type 0
  SameRows s t = (t.sessions ≡ s.sessions) × (t.obs_count ≡ s.obs_count) × (t.obs_max ≡ s.obs_max)

  SameRows-IsConsistent : (s t : Store) → SameRows s t → IsConsistent hex s → IsConsistent hex t
  unfolding SameRows
  SameRows-IsConsistent s t e c = record {
    counted = omega (arith, e.1, c.counted, ap total_rows e.0);
    bounded = omega (arith, e.1, e.2, c.bounded);
    held = rw e.0 c.held;
  }

  allow_session-SameRows : (s : Store) (ip now : ℕ) → SameRows s (allow_session net s ip now).0
  unfolding SameRows allow_session
  allow_session-SameRows s ip now = ground arith

  match_reservation-SameRows :
      (s : Store) (ip : ℕ) (transport : String) (dst_port : ℕ) (kind : String) (now : ℕ)
      → SameRows s (match_reservation net s ip transport dst_port kind now).0
  unfolding SameRows match_reservation
  match_reservation-SameRows s ip transport dst_port kind now =
      elim (find_reservation-Answer net s ip transport dst_port kind now true) [
        | nothing h e ↦ rw e (refl, refl, refl)
        | given i r at hit best e ↦ rw e (refl, refl, refl)
      ]

  consume_bulk-SameRows : (s : Store) (ip n day : ℕ) → SameRows s (consume_bulk net s ip n day).0
  unfolding SameRows consume_bulk
  consume_bulk-SameRows s ip n day = ground arith

  step-IsConsistent : (s : Store) (e : Event) → IsConsistent hex s → IsConsistent hex (step s e)
  unfolding step SameRows reserve take_drops allow_attempt
  step-IsConsistent s (session_put sess fresh) c = put_session-IsConsistent hex s sess fresh c
  step-IsConsistent s (session_asked ip now) c =
      SameRows-IsConsistent s _ (allow_session-SameRows s ip now) c
  step-IsConsistent s (attempt_asked ip now) c = SameRows-IsConsistent s _ (refl, refl, refl) c
  step-IsConsistent s (row_offered fresh o now) c = add_observation-IsConsistent hex fresh s o now c
  step-IsConsistent s (window_reserved fresh r) c = SameRows-IsConsistent s _ (refl, refl, refl) c
  step-IsConsistent s (flow_matched ip transport dst_port kind now) c =
      SameRows-IsConsistent s _ (match_reservation-SameRows s ip transport dst_port kind now) c
  step-IsConsistent s (bulk_asked ip n day) c =
      SameRows-IsConsistent s _ (consume_bulk-SameRows s ip n day) c
  step-IsConsistent s drops_taken c = SameRows-IsConsistent s _ (refl, refl, refl) c
  step-IsConsistent s (collected now day) c = gc-IsConsistent hex s now day c

  run-IsConsistent :
      (s : Store) (es : List Event) → IsConsistent hex s → IsConsistent hex (run s es)
  unfolding run
  run-IsConsistent s [] c = c
  run-IsConsistent s (e ∷ es) c = run-IsConsistent (step s e) es (step-IsConsistent s e c)

  -- After any sequence of calls on a new store, the count of rows is the number of rows held and
  -- is at most the store's maximum, no session holds more than 8192 of them, every session stands
  -- under its own id, and every row stands under the session that it names.
  pub run-new_store :
      (max_obs retention sess_per_min att_per_10_min : ℕ) (es : List Event)
      → IsConsistent hex (run (new_store max_obs retention sess_per_min att_per_10_min) es)
  unfolding new_store total_rows
  run-new_store max_obs retention sess_per_min att_per_10_min es =
      run-IsConsistent _ es (record { counted = refl; bounded = omega arith; held = tt })
