-- ===== src/Tests/Handlers.antt =====
-- The theorems on the handlers of events, at the sample incident.
use icinga_notifications.Prelude.{ℕ, ◌≡◌, refl, false, none, some, [], ◌∷◌, ◌&&◌, if◌then◌else◌}
use icinga_notifications.Prelude.Int
use icinga_notifications.Event.Severity.{severity_ok, rank}
use icinga_notifications.Event.Incoming.{Event, acknowledgement_set, state}
use icinga_notifications.Object.Objects.{is_muted}
use icinga_notifications.Recipient.Recipients.{key_eq, to_key}
use icinga_notifications.Incident.History.{state_pending}
use icinga_notifications.Incident.Role.{role_recipient}
use icinga_notifications.Incident.State.{NotificationEntry, find_role, contact_named}
use icinga_notifications.Incident.Exec
use icinga_notifications.Incident.Exec.{sync_history, insert_fetch}
use icinga_notifications.Incident.Contacts.{process_acknowledgement_event}
use icinga_notifications.Incident.Notifications.{generate_notifications}
use icinga_notifications.Incident.Process
use icinga_notifications.Incident.Process.{process_severity_changed_event}
use icinga_notifications.Incident.Generated.{summary, all_pending, generate_notifications_lem}
use icinga_notifications.Incident.Severities.{
  view, process_acknowledgement_event_known, process_severity_changed_event_closes,
}
use icinga_notifications.Tests.Samples.{event_of, alice, env_failing_at, incident, world}

abbrev entry : ℕ → ℕ → NotificationEntry
entry row channel = record {
  history_row_id = row;
  contact_id = 1;
  channel_id = channel;
  state = state_pending;
}

generate_notifications_lem_example : summary (entry 0 1 ∷ entry 1 2 ∷ []) ≡ (
    if incident.is_muted && is_muted incident.object
    then []
    else all_pending ((alice, 1 ∷ 2 ∷ []) ∷ []))
unfolding generate_notifications Exec.◌>>=◌ Exec.pure sync_history insert_fetch Exec.operation
    Exec.time_now
generate_notifications_lem_example =
    generate_notifications_lem (env_failing_at 50) (event_of state) ((alice, 1 ∷ 2 ∷ []) ∷ []) world
      (entry 0 1 ∷ entry 1 2 ∷ []) refl

process_acknowledgement_event_known_example :
    (process_acknowledgement_event
      (env_failing_at 50)
      (event_of acknowledgement_set)
      world).1.incident
    ≡ incident
unfolding contact_named find_role key_eq to_key
process_acknowledgement_event_known_example =
    process_acknowledgement_event_known (env_failing_at 50) (event_of acknowledgement_set) world
      alice role_recipient refl refl

abbrev recovery : Event
recovery = record (event_of state) { severity = severity_ok }

process_severity_changed_event_closes_example :
    view (process_severity_changed_event (env_failing_at 50) recovery world).1
    ≡ (severity_ok, some (Int.pos 6000), none, false)
unfolding process_severity_changed_event Exec.◌>>=◌ Exec.◌>>◌ Exec.modify Exec.pure sync_history
    insert_fetch Exec.operation Exec.time_now rank Process.sync_incident Exec.execute
process_severity_changed_event_closes_example =
    process_severity_changed_event_closes (env_failing_at 50) recovery world refl refl
