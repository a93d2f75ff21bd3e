-- ===== src/Incident/Current.antt =====
-- internal/incident/incidents.go: the current incidents, and ProcessEvent on them.
use icinga_notifications.Prelude.{
  ℕ, Bool, true, false, not, ◌&&◌, Option, none, some, List, [], ◌∷◌, ◌++◌, Result, ok, err, ◌==◌,
  if◌then◌else◌,
}
use icinga_notifications.Prelude.Bytes.{Bytes, bytes_eq}
use icinga_notifications.Event.Severity.{rank, severity_none}
use icinga_notifications.Event.Incoming.{Event, Tags, is_mute, is_unmute, new_event_row}
use icinga_notifications.Object.Objects.{Object, is_muted}
use icinga_notifications.Object.Cache.{ObjectStore, attempt, get_from_cache, from_event}
use icinga_notifications.Runtime.Maps.{lookup, put, delete}
use icinga_notifications.Incident.State.{
  Incident, Recipients, Statement, insert_event, store, set_role,
}
use icinga_notifications.Incident.Role.{ContactRole}
use icinga_notifications.Recipient.Recipients.{Key}
use icinga_notifications.Incident.Exec.{
  Env, Error, superfluous_mute_unmute, superfluous_state_change, database_error, panic, World,
}
use icinga_notifications.Incident.Process
use icinga_notifications.Incident.Contacts.{is_some}

-- The objects with their cache, and the incident of each object that has one, by the object's id: an id
-- has one object in the cache. The statements are those of incidents and events.
pub record Store : Type 0 where
  pub objects : ObjectStore
  pub current : List (Bytes × Incident)
  pub committed : List Statement

-- `id_of` is object.ID; `contact_rows n id` is what the n-th operation selects from the contacts of an incident.
pub record Outside : Type 0 where
  pub env : Env
  pub id_of : ℕ → Tags → Bytes
  pub contact_rows : ℕ → ℕ → List (Key × ContactRole)

-- NewIncident
unfoldable pub new_incident : Object → Incident
new_incident o = record {
  id = 0;
  object = o;
  started_at = none;
  recovered_at = none;
  severity = severity_none;
  escalation_state = [];
  rules = [];
  recipients = [];
  timer = none;
  is_muted = false;
}

-- The loop of restoreRecipients.
unfoldable pub recipients_of : List (Key × ContactRole) → Recipients → Recipients
unfolding set_role
recipients_of [] m = m
recipients_of ((k, role) ∷ rows) m = recipients_of rows (set_role k role m)

unfoldable pub set_operations : ℕ → Store → Store
set_operations n s = record s { objects = record s.objects { operations = n } }

unfoldable pub set_current : Bytes → Incident → Store → Store
unfolding put
set_current id i s = record s { current = put bytes_eq id i s.current }

-- restoreRecipients, on a current incident.
unfoldable pub restore_recipients : Outside → Incident → Store → Result Error Incident × Store
unfolding recipients_of set_operations set_current attempt
restore_recipients out i s =
    let (success, n) = attempt out.env.fails 1 s.objects.operations in
    let restored : Incident = record i {
      recipients = recipients_of (out.contact_rows s.objects.operations i.id) [];
    } in
    if success
    then (ok restored, set_current i.object.id restored (set_operations n s))
    else (err database_error, set_operations n s)

-- currentIncidents[obj]; the incident sees the present state of its object.
unfoldable pub current_incident : Store → Object → Option Incident
unfolding lookup
current_incident s o = elim (lookup bytes_eq s.current o.id) [
  | none ↦ none
  | some i ↦ some (record i { object = o })
]

-- What GetCurrent does once it has the incident.
unfoldable pub restored : Outside → Incident → Store → Result Error (Option Incident) × Store
unfolding restore_recipients
restored out i s =
    let (r, s') = restore_recipients out i s in
    if is_some i.started_at
    then (elim r [ ok i' ↦ ok (some i') | err e ↦ err e ], s')
    else (ok (some i), s)

-- GetCurrent
unfoldable pub get_current :
    Outside → Object → Bool → Store → Result Error (Option Incident) × Store
unfolding current_incident restored new_incident set_current
get_current out o create s = elim (current_incident s o) [
  | some i ↦ restored out i s
  | none ↦
      if create
      then restored out (new_incident o) (set_current o.id (new_incident o) s)
      else (ok none, s)
]

-- RemoveCurrent
unfoldable pub remove_current : Object → Store → Store
unfolding delete
remove_current o s = record s { current = delete bytes_eq o.id s.current }

-- GetCurrentIncidents
unfoldable pub get_current_incidents :
    List (Bytes × Incident) → List (ℕ × Incident) → List (ℕ × Incident)
unfolding store
get_current_incidents [] m = m
get_current_incidents ((id, i) ∷ rest) m = get_current_incidents rest (store i.id i m)

-- RunInTx with Event.Sync.
unfoldable pub sync_in_tx : Outside → Event → Object → Store → Result Error (Unit {0}) × Store
unfolding attempt set_operations
sync_in_tx out ev o s =
    let (success, n) = attempt out.env.fails (if ev.id == 0 then 3 else 2) s.objects.operations in
    let s' = set_operations n s in
    if success
    then (
      ok tt,
      record s' {
        committed =
            s'.committed ++ (if ev.id == 0 then insert_event (new_event_row ev o.id) ∷ [] else []);
      },
    )
    else (err database_error, s')

-- The incident of an object as Incident.ProcessEvent has it.
abbrev pub world_of : Incident → Store → World
world_of i s = record {
  incident = i;
  pending = [];
  committed = s.committed;
  operations = s.objects.operations;
  registered = true;
}

-- The store after Incident.ProcessEvent, which may have removed the incident of its object.
unfoldable pub written : Object → World → Store → Store
unfolding set_operations set_current remove_current
written o w s =
    let s' : Store = record (set_operations w.operations s) { committed = w.committed } in
    if w.registered then set_current o.id w.incident s' else remove_current o s'

-- ProcessEvent without a current incident.
unfoldable pub without_incident :
    Outside → Event → Bool → Object → Store → Result Error (Unit {0}) × Store
unfolding sync_in_tx
without_incident out ev was_muted o s =
    if rank ev.severity == 0
    then (if was_muted && is_mute ev.kind
        then (err superfluous_mute_unmute, s)
        else if not was_muted && is_unmute ev.kind
        then (err superfluous_mute_unmute, s)
        else sync_in_tx out ev o s)
    else if not (rank ev.severity == 1)
    then (err panic, s)
    else (err superfluous_state_change, s)

unfoldable pub with_incident : Outside → Event → Incident → Store → Result Error (Unit {0}) × Store
unfolding written
with_incident out ev i s =
    let (r, w) = Process.process_event out.env ev (world_of i s) in (r, written i.object w s)

-- What follows GetCurrent.
unfoldable pub dispatch :
    Outside
    → Event
    → Bool
    → Object
    → Result Error (Option Incident) × Store
    → Result Error (Unit {0}) × Store
unfolding without_incident with_incident
dispatch out ev was_muted o (err e, s) = (err e, s)
dispatch out ev was_muted o (ok none, s) = without_incident out ev was_muted o s
dispatch out ev was_muted o (ok (some i), s) = with_incident out ev i s

unfoldable pub was_object_muted : Outside → Event → Store → Bool
unfolding get_from_cache is_muted
was_object_muted out ev s = elim (get_from_cache s.objects (out.id_of ev.source_id ev.tags)) [
  | none ↦ false
  | some o ↦ is_muted o
]

-- ProcessEvent after FromEvent.
unfoldable pub process_object :
    Outside → Event → Bool → Store → Option Object × ObjectStore → Result Error (Unit {0}) × Store
unfolding get_current dispatch
process_object out ev was_muted s (none, objects) =
    (err database_error, record s { objects = objects })
process_object out ev was_muted s (some o, objects) =
    let create = not (rank ev.severity == 0) && not (rank ev.severity == 1) in
    dispatch out ev was_muted o (get_current out o create (record s { objects = objects }))

-- ProcessEvent
unfoldable pub process_event : Outside → Event → Store → Result Error (Unit {0}) × Store
unfolding process_object was_object_muted from_event
process_event out ev s =
    process_object out ev (was_object_muted out ev s) s
      (from_event out.env.fails out.id_of ev s.objects)
