-- ===== src/Incident/Absent.antt =====
-- internal/incident/incidents.go: events for objects that have no incident.
use icinga_notifications.Prelude.{
  ◌≡◌, ◌≢◌, ◌≤◌, refl, Bool, Bool-cases, false, inl, inr, not, ◌&&◌, none, Result, ok, err, ◌==◌,
  if◌then◌else◌, ◌∙◌, ap, arith,
}
use icinga_notifications.Prelude.Bytes.{bytes_eq}
use icinga_notifications.Event.Severity.{rank}
use icinga_notifications.Event.Incoming.{Event, is_mute, is_unmute}
use icinga_notifications.Object.Objects.{Object}
use icinga_notifications.Object.Cache.{from_event, attempt}
use icinga_notifications.Runtime.Maps.{lookup}
use icinga_notifications.Incident.Exec.{Error, panic}
use icinga_notifications.Incident.Current.{
  Store, Outside, set_operations, current_incident, get_current, sync_in_tx, without_incident,
  dispatch, was_object_muted, process_event,
}
use icinga_notifications.Incident.Isolated.{synced, WellFormed, from_event_lem, from_event-id}
use icinga_notifications.Incident.Reached.{creates, dispatched, failed_event}

-- No panic, and the current incidents as they were.
abbrev Harmless : Store → Result Error (Unit {0}) × Store → Type 0
Harmless s r = (r.0 ≢ err panic) × (r.1.current ≡ s.current)

sync_in_tx-Harmless :
    (out : Outside) (ev : Event) (o : Object) (s : Store) → Harmless s (sync_in_tx out ev o s)
unfolding sync_in_tx set_operations
sync_in_tx-Harmless out ev o s =
    elim (Bool-cases (attempt out.env.fails (if ev.id == 0 then 3 else 2) s.objects.operations).0) [
      | inl e ↦ rw (e) ((λ h. cc), refl)
      | inr e ↦ rw (e) ((λ h. cc), refl)
    ]

without_incident-Harmless :
    (out : Outside) (ev : Event) (b : Bool) (o : Object) (s : Store)
    → creates ev ≡ false
    → Harmless s (without_incident out ev b o s)
unfolding without_incident
without_incident-Harmless out ev b o s c = elim (Bool-cases (rank ev.severity == 0)) [
  | inl e ↦ elim (Bool-cases (b && is_mute ev.kind)) [
    | inl f ↦ rw (e, f) ((λ h. cc), refl)
    | inr f ↦ elim (Bool-cases (not b && is_unmute ev.kind)) [
      | inl g ↦ rw (e, f, g) ((λ h. cc), refl)
      | inr g ↦ rw (e, f, g) (sync_in_tx-Harmless out ev o s)
    ]
  ]
  | inr e ↦ elim (Bool-cases (not (rank ev.severity == 1))) [
    | inl f ↦ let bad = rw (e, f) at c in cc
    | inr f ↦ rw (e, f) ((λ h. cc), refl)
  ]
]

get_current-none :
    (out : Outside) (o : Object) (s : Store)
    → lookup bytes_eq s.current o.id ≡ none
    → get_current out o false s ≡ (ok none, s)
unfolding current_incident get_current
get_current-none out o s h = rw (h, get_current) refl

-- An event with the severity none or OK for an object without a current incident neither panics nor
-- changes the current incidents.
pub process_event_creates_none :
    (out : Outside) (ev : Event) (s : Store)
    → WellFormed s
    → rank ev.severity ≤ 1
    → lookup bytes_eq s.current (out.id_of ev.source_id ev.tags) ≡ none
    → ((process_event out ev s).0 ≢ err panic) × ((process_event out ev s).1.current ≡ s.current)
unfolding dispatch
process_event_creates_none out ev s w low h =
    elim (from_event_lem out.env.fails out.id_of ev s.objects) [
      | inl (failed, _, _) ↦ rw (failed_event out ev s failed) ((λ h. cc), refl)
      | inr (o, _, is, _, _) ↦
          let t = synced s (from_event out.env.fails out.id_of ev s.objects).1 in
          let b = was_object_muted out ev s in
          let create : creates ev ≡ false = ground arith in
          let no_incident : lookup bytes_eq s.current o.id ≡ none =
            rw (from_event-id out ev s o w is) h in
          let start =
            dispatched out ev s o is
            ∙ ap (λ c. dispatch out ev b o (get_current out o c t)) create
            ∙ ap (dispatch out ev b o) (get_current-none out o t no_incident) in
          rw (start) (without_incident-Harmless out ev b o t create)
    ]
