-- ===== src/Listener/Handler.antt =====
-- internal/listener/listener.go: the handler ProcessEvent. The text of a response is not modelled.
use icinga_notifications.Prelude.{
  Bool, true, false, Option, none, some, Result, ok, err, if◌then◌else◌,
}
use icinga_notifications.Prelude.Int.{ℤ}
use icinga_notifications.Prelude.Bytes.{Bytes}
use icinga_notifications.Event.Incoming.{
  Event, EventType, untyped, state, mute, unmute, set_mute, validate,
}
use icinga_notifications.Runtime.Elements.{Source}
use icinga_notifications.Runtime.State.{Runtime}
use icinga_notifications.Runtime.Credentials.{get_source_from_credentials}
use icinga_notifications.Incident.Exec.{
  Error, superfluous_state_change, superfluous_mute_unmute, panic,
}
use icinga_notifications.Incident.Current.{Store, Outside, process_event}

pub record Request : Type 0 where
  pub is_post : Bool
  -- req.BasicAuth()
  pub auth : Option (Bytes × Bytes)
  pub body : Bytes

-- The status code; a panic ends the connection without one.
pub data Status : Type 0 where
  status_ok method_not_allowed unauthorized bad_request not_acceptable internal_server_error
        aborted :
      Status

-- `decode` is json.Decoder.Decode, and `now` time.Now().
pub record Listener : Type 0 where
  pub outside : Outside
  pub runtime : Runtime
  pub compare : Bytes → Bytes → Bool
  pub decode : Bytes → Option Event
  pub now : ℤ

-- The type and the mute flag where the event has none.
unfoldable pub with_defaults : EventType → Option Bool → Event → Event
unfolding set_mute
with_defaults untyped m e = record e { kind = state }
with_defaults mute none e = set_mute true e.mute_reason e
with_defaults unmute none e = set_mute false e.mute_reason e
with_defaults _ _ e = e

-- What the handler sets in the decoded event.
unfoldable pub stamped : ℤ → Source → Event → Event
unfolding with_defaults
stamped now source ev =
    with_defaults ev.kind ev.mute (record ev { time = now; source_id = source.id })

unfoldable pub status_of : Result Error (Unit {0}) → Status
status_of (ok _) = status_ok
status_of (err superfluous_state_change) = not_acceptable
status_of (err superfluous_mute_unmute) = not_acceptable
status_of (err panic) = aborted
status_of (err _) = internal_server_error

unfoldable pub handle_event : Listener → Event → Store → Status × Store
unfolding validate process_event status_of
handle_event l ev s = elim (validate ev) [
  | err _ ↦ (bad_request, s)
  | ok _ ↦ let (r, s') = process_event l.outside ev s in (status_of r, s')
]

unfoldable pub authenticate : Listener → Option (Bytes × Bytes) → Option Source
unfolding get_source_from_credentials
authenticate l none = none
authenticate l (some (user, pass)) = get_source_from_credentials l.compare l.runtime user pass

-- Listener.ProcessEvent
unfoldable pub handle : Listener → Request → Store → Status × Store
unfolding authenticate handle_event stamped
handle l req s =
    if req.is_post
    then elim (authenticate l req.auth) [
      | none ↦ (unauthorized, s)
      | some source ↦ elim (l.decode req.body) [
        | none ↦ (bad_request, s)
        | some ev ↦ handle_event l (stamped l.now source ev) s
      ]
    ]
    else (method_not_allowed, s)
