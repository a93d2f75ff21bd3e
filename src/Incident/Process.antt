-- ===== src/Incident/Process.antt =====
-- internal/incident/incident.go: the processing of an event, and the timed reevaluation.
use icinga_notifications.Prelude.{
  Bool, true, false, not, ◌&&◌, Option, none, some, List, [], ◌∷◌, Result, ok, err, ◌==◌,
  if◌then◌else◌,
}
use icinga_notifications.Prelude.Int.{ℤ, ltb_ℤ}
use icinga_notifications.Event.Severity.{Severity, rank}
use icinga_notifications.Event.Incoming.{
  Event, EventType, acknowledgement_set, state, is_mute, is_unmute, new_event_row, to_db_int,
  to_db_string,
}
use icinga_notifications.Object.Objects.{is_muted}
use icinga_notifications.Rule.Escalation.{Escalation, ContactChannels, load_from_escalation}
use icinga_notifications.Incident.History.{
  opened, muted, unmuted, incident_severity_changed, closed,
}
use icinga_notifications.Incident.State.{
  Incident, Config, NotificationEntry, insert_event, insert_incident, upsert_incident,
  insert_incident_event,
}
use icinga_notifications.Incident.Exec.{
  Env, Error, superfluous_mute_unmute, superfluous_state_change, superfluous_ack, World, Exec, pure,
  raise, lift, modify, insert_fetch, execute, sync_history, begin, commit, rollback, time_now,
  ◌>>=◌, ◌>>◌,
}
use icinga_notifications.Incident.Contacts.{
  history_row, incident, is_some, is_recipient_notifiable, process_acknowledgement_event,
}
use icinga_notifications.Incident.Escalations.{
  evaluate_rules, evaluate_escalations, trigger_escalations,
}
use icinga_notifications.Incident.Notifications.{
  get_recipients_channel, generate_notifications, notify_contacts,
}

-- Event.Sync: the event with its id.
unfoldable pub sync_event : Env → Event → Exec Event
sync_event env ev w =
    if not (ev.id == 0)
    then (ok ev, w)
    else (insert_fetch env (insert_event (new_event_row ev w.incident.object.id)) >>= λ id.
          pure (record ev { id = id }))
        w

-- Incident.Sync
unfoldable pub sync_incident : Env → Exec (Unit {0})
sync_incident env w =
    if not (w.incident.id == 0)
    then execute env (upsert_incident w.incident.id w.incident.severity w.incident.recovered_at) w
    else (insert_fetch env (insert_incident w.incident.severity w.incident.started_at) >>= λ id.
          modify (λ i. record i { id = id }))
        w

unfoldable pub add_event : Env → Event → Exec (Unit {0})
add_event env ev = do i ← incident; execute env (insert_incident_event i.id ev.id)

-- The incident leaves the map of current incidents.
unfoldable pub remove_current : Exec (Unit {0})
remove_current w = (ok tt, record w { registered = false })

unfoldable pub process_incident_opened_event : Env → Event → Exec (Unit {0})
process_incident_opened_event env ev = do
  modify (λ i. record i { started_at = some ev.time; severity = ev.severity })
  sync_incident env
  i ← incident
  row ← sync_history env (record (history_row i (to_db_int ev.id) ev.time opened) {
    new_severity = some i.severity;
    message = to_db_string ev.message;
  })
  pure tt

-- The closing of an incident whose new severity is OK.
unfoldable pub close_incident : Env → Event → Exec (Unit {0})
unfolding remove_current
close_incident env ev = do
  now ← time_now env
  modify (λ i. record i { recovered_at = some now })
  remove_current
  i ← incident
  row ← sync_history env (history_row i (to_db_int ev.id) now closed)
  modify (λ i. record i { timer = none })

abbrev pub same_severity : Severity → Severity → Bool
same_severity a b = rank a == rank b

unfoldable pub process_severity_changed_event : Env → Event → Exec (Unit {0})
unfolding close_incident
process_severity_changed_event env ev = do
  i ← incident
  if same_severity i.severity ev.severity then raise superfluous_state_change else do
    now ← time_now env
    row ← sync_history env (record (history_row i (to_db_int ev.id) now incident_severity_changed) {
      new_severity = some ev.severity;
      old_severity = some i.severity;
      message = to_db_string ev.message;
    })
    if rank ev.severity == 1 then close_incident env ev else pure tt
    modify (λ i. record i { severity = ev.severity })
    sync_incident env

abbrev pub same_bool : Bool → Bool → Bool
same_bool true b = b
same_bool false b = not b

unfoldable pub handle_mute_unmute : Env → Event → Exec (Unit {0})
handle_mute_unmute env ev = do
  i ← incident
  if same_bool i.is_muted (is_muted i.object) then pure tt else do
    now ← time_now env
    row ←
        sync_history env
          (record (history_row i (to_db_int ev.id) now
            (if is_muted i.object then muted else unmuted)) {
              message =
                  if is_muted i.object then i.object.mute_reason else to_db_string ev.mute_reason;
            })
    pure tt

-- The `case event.TypeState` of ProcessEvent.
unfoldable pub process_state : Env → Event → Bool → Exec (Unit {0})
process_state env ev is_new = do
  if is_new then pure tt else process_severity_changed_event env ev
  evaluate_rules env ev.id
  escalations ← evaluate_escalations env ev.time
  trigger_escalations env ev escalations

-- The `switch ev.Type` of ProcessEvent.
unfoldable pub process_type : Env → Event → Bool → EventType → Exec (Unit {0})
unfolding process_state
process_type env ev is_new state = process_state env ev is_new
process_type env ev is_new acknowledgement_set = process_acknowledgement_event env ev
process_type env ev is_new _ = pure tt

-- What follows the switch: the notifications are written, the transaction is committed, and the
-- notifications are sent.
unfoldable pub conclude : Env → Event → Exec (List NotificationEntry)
conclude env ev = do
  i ← incident
  channels ← lift (get_recipients_channel env.config i ev.time)
  entries ← generate_notifications env ev channels
  commit env
  modify (λ i. record i { is_muted = is_muted i.object })
  pure entries

-- The transaction of ProcessEvent. `none` is the return without a commit after an acknowledgement by a
-- contact that is a manager already.
unfoldable pub unless_superfluous_ack :
    Result Error (List NotificationEntry)
    → World
    → Result Error (Option (List NotificationEntry)) × World
unless_superfluous_ack (ok entries) w = (ok (some entries), w)
unless_superfluous_ack (err superfluous_ack) w = (ok none, w)
unless_superfluous_ack (err e) w = (err e, w)

unfoldable pub or_superfluous_ack :
    Exec (List NotificationEntry) → Exec (Option (List NotificationEntry))
unfolding unless_superfluous_ack
or_superfluous_ack m w = let (r, w') = m w in unless_superfluous_ack r w'

unfoldable pub transaction : Env → Event → Exec (List NotificationEntry)
unfolding process_type conclude
transaction env ev = do
  begin env
  ev' ← sync_event env ev
  i ← incident
  let is_new = not (is_some i.started_at)
  if is_new then process_incident_opened_event env ev' else pure tt
  add_event env ev'
  handle_mute_unmute env ev'
  process_type env ev' is_new ev'.kind
  conclude env ev'

unfoldable pub send_all : Env → Option (List NotificationEntry) → Exec (Unit {0})
send_all env none = pure tt
send_all env (some entries) = notify_contacts env entries

-- Incident.ProcessEvent
unfoldable pub process_event : Env → Event → Exec (Unit {0})
unfolding transaction or_superfluous_ack send_all
process_event env ev w =
    if w.incident.is_muted && is_mute ev.kind
    then (err superfluous_mute_unmute, w)
    else if not w.incident.is_muted && is_unmute ev.kind
    then (err superfluous_mute_unmute, w)
    else (rollback (or_superfluous_ack (transaction env ev)) >>= send_all env) w

-- The channels of the escalations that the reevaluation triggered.
unfoldable pub load_each :
    Config → Incident → ℤ → List Escalation → ContactChannels → Option ContactChannels
load_each c i t [] chs = some chs
load_each c i t (e ∷ es) chs = elim (load_from_escalation (is_recipient_notifiable c i) t e chs) [
  | none ↦ none
  | some chs' ↦ load_each c i t es chs'
]

unfoldable pub retrigger_transaction : Env → Event → List Escalation → Exec (List NotificationEntry)
unfolding load_each
retrigger_transaction env ev escalations = do
  begin env
  ev' ← sync_event env ev
  add_event env ev'
  trigger_escalations env ev' escalations
  i ← incident
  channels ← lift (load_each env.config i ev'.time escalations [])
  entries ← generate_notifications env ev' channels
  commit env
  pure entries

abbrev is_nil {ℓ} : {A : Type ℓ} → List A → Bool
is_nil [] = true
is_nil (_ ∷ _) = false

-- An error is logged and goes no further.
abbrev pub ignore_error : Exec (Unit {0}) → World → World
ignore_error m w = (m w).1

-- RetriggerEscalations
unfoldable pub retrigger_escalations : Env → Event → World → World
unfolding retrigger_transaction
retrigger_escalations env ev w =
    if is_some w.incident.recovered_at
    then w
    else if not (ltb_ℤ ev.time (env.clock w.operations))
    then w
    else ignore_error
        (evaluate_escalations env ev.time >>= λ escalations.
          if is_nil escalations
          then pure tt
          else rollback (retrigger_transaction env ev escalations) >>= notify_contacts env)
        w
