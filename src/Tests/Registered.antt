-- ===== src/Tests/Registered.antt =====
-- The theorems on the current incidents and the cached objects, at the sample incident.
use icinga_notifications.Prelude.{
  ℕ, ◌≡◌, ◌≢◌, refl, Bool-cases, true, false, inl, inr, ◌⊎◌, none, some, [], ◌∷◌, err, arith,
}
use icinga_notifications.Prelude.Bytes.{Bytes, codes, bytes_eq, eq_of_bytes_eq}
use icinga_notifications.Event.Severity.{severity_none, severity_ok, rank}
use icinga_notifications.Event.Incoming.{Event, state, mute, validate, validate_type}
use icinga_notifications.Object.Objects.{Object, is_muted}
use icinga_notifications.Object.Cache
use icinga_notifications.Object.Cache.{
  ObjectStore, get_from_cache, from_event, changed, statements_of,
}
use icinga_notifications.Object.Synced.{muted_after, from_event_muted}
use icinga_notifications.Runtime.Maps.{lookup, put}
use icinga_notifications.Incident.State.{Incident, has_id}
use icinga_notifications.Incident.Process
use icinga_notifications.Incident.Exec
use icinga_notifications.Incident.Exec.{database_error, panic}
use icinga_notifications.Incident.Current
use icinga_notifications.Incident.Current.{Store, Outside, with_incident, process_event}
use icinga_notifications.Incident.Isolated.{WellFormed}
use icinga_notifications.Incident.Registry.{process_event_other, process_event-WellFormed}
use icinga_notifications.Incident.Reached.{process_event_reaches, process_event_keeps_triggered}
use icinga_notifications.Incident.Committed.{process_event_failed}
use icinga_notifications.Incident.Absent.{process_event_creates_none}
use icinga_notifications.Incident.Role.{role_recipient}
use icinga_notifications.Tests.Samples.{event_of, object, incident, alice_key, env_failing_at}

-- The sample object and its incident.
abbrev pub sample : Store
sample = record {
  objects = record { cache = (codes "id", object) ∷ []; statements = []; operations = 0 };
  current = (codes "id", incident) ∷ [];
  committed = [];
}

abbrev pub outside_failing_at : ℕ → Outside
outside_failing_at n = record {
  env = env_failing_at n;
  id_of = λ source tags. codes "id";
  contact_rows = λ operation id. (alice_key, role_recipient) ∷ [];
}

entry_at :
    {V : Type 0} (k q : Bytes) (v w : V)
    → lookup bytes_eq ((k, v) ∷ []) q ≡ some w
    → (k ≡ q) × (v ≡ w)
unfolding lookup
entry_at k q v w h = elim (Bool-cases (bytes_eq k q)) [
  | inl e ↦ let is : some v ≡ some w = rw (e) at h in (eq_of_bytes_eq k q e, cc)
  | inr e ↦ let bad = rw (e) at h in cc
]

pub sample-WellFormed : WellFormed sample
unfolding get_from_cache bytes_eq
sample-WellFormed = record {
  cached = λ q o h. let (at, is) = entry_at (codes "id") q object o h in rw (← is) at;
  known = λ q i h. let (at, is) = entry_at (codes "id") q incident i h in (object, rw (← at) refl);
}

-- The same without an incident.
abbrev quiet : Store
quiet = record sample { current = [] }

quiet-WellFormed : WellFormed quiet
unfolding get_from_cache lookup
quiet-WellFormed = record {
  cached = λ q o h. let (at, is) = entry_at (codes "id") q object o h in rw (← is) at;
  known = λ q i h. cc;
}

process_event_other_example :
    (lookup bytes_eq
        (process_event (outside_failing_at 50) (event_of state) sample).1.current
        (codes "other")
      ≡ none)
    × (get_from_cache
          (process_event (outside_failing_at 50) (event_of state) sample).1.objects
          (codes "other")
        ≡ none)
unfolding get_from_cache lookup bytes_eq
process_event_other_example =
    process_event_other (outside_failing_at 50) (event_of state) sample (codes "other")
      sample-WellFormed refl

process_event-WellFormed_example :
    WellFormed (process_event (outside_failing_at 50) (event_of state) sample).1
process_event-WellFormed_example =
    process_event-WellFormed (outside_failing_at 50) (event_of state) sample sample-WellFormed

process_event_reaches_example :
    ((process_event (outside_failing_at 50) (event_of state) quiet).0 ≡ err database_error)
    ⊎ ((i : Incident) × (t : Store) × (process_event (outside_failing_at 50) (event_of state) quiet
          ≡ with_incident (outside_failing_at 50) (event_of state) i t)
        × (i.object.id ≡ codes "id"))
unfolding rank
process_event_reaches_example =
    process_event_reaches (outside_failing_at 50) (event_of state) quiet quiet-WellFormed
      (omega arith)

abbrev recovery : Event
recovery = record (event_of state) { severity = severity_ok }

process_event_creates_none_example :
    ((process_event (outside_failing_at 50) recovery quiet).0 ≢ err panic)
    × ((process_event (outside_failing_at 50) recovery quiet).1.current ≡ [])
unfolding rank lookup
process_event_creates_none_example =
    process_event_creates_none (outside_failing_at 50) recovery quiet quiet-WellFormed (omega arith)
      refl

-- The recipients of the incident cannot be restored.
process_event_keeps_triggered_example : has_id incident.escalation_state 8 ≡ true
unfolding process_event Current.process_object Current.dispatch Current.get_current
    Current.current_incident Current.restored Current.restore_recipients Current.set_operations
    from_event Cache.attempt lookup put has_id bytes_eq
process_event_keeps_triggered_example =
    process_event_keeps_triggered (outside_failing_at 5) (event_of state) sample (codes "id")
      incident incident 8 sample-WellFormed refl refl refl

abbrev muting : Event
muting = record (event_of mute) {
  severity = severity_none;
  mute = some true;
  mute_reason = codes "downtime";
}

abbrev muted_object : Object
muted_object = record object { mute_reason = some (codes "downtime") }

from_event_muted_example : is_muted muted_object ≡ true
unfolding validate validate_type rank from_event Cache.attempt Cache.object_of get_from_cache lookup
    bytes_eq changed muted_after
from_event_muted_example =
    from_event_muted (λ n. false) (λ source tags. codes "id") muting sample.objects muted_object
      refl refl

-- The synchronisation of the object takes five operations.
process_event_failed_example :
    ((process_event (outside_failing_at 7) (event_of state) sample).1.committed ≡ [])
    × (((process_event (outside_failing_at 7) (event_of state) sample).1.objects.statements ≡ [])
        ⊎ ((o : Object) × ((from_event
                (outside_failing_at 7).env.fails
                (outside_failing_at 7).id_of
                (event_of state)
                sample.objects).0
              ≡ some o)
            × ((process_event (outside_failing_at 7) (event_of state) sample).1.objects.statements
                ≡ statements_of o (event_of state))))
unfolding process_event bytes_eq Process.process_event Exec.◌>>=◌ Exec.rollback Exec.◌>>◌ Exec.begin
    Process.sync_event Exec.insert_fetch
process_event_failed_example =
    process_event_failed (outside_failing_at 7) (event_of state) sample database_error refl
      (λ e. cc)
