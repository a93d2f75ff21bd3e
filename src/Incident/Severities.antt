-- ===== src/Incident/Severities.antt =====
-- internal/incident/incident.go, processSeverityChangedEvent and processAcknowledgementEvent: the
-- incident after the handler.
use icinga_notifications.Prelude.{
  ◌+◌, ◌≡◌, refl, Bool, Bool-cases, false, inl, inr, not, Option, none, some, ok, ◌==◌,
}
use icinga_notifications.Event.Severity.{Severity, rank}
use icinga_notifications.Event.Incoming.{Event}
use icinga_notifications.Recipient.Rotations.{Contact}
use icinga_notifications.Recipient.Recipients.{Key, of_contact, to_key}
use icinga_notifications.Incident.Role.{ContactRole}
use icinga_notifications.Incident.State.{contact_named, find_role}
use icinga_notifications.Incident.Exec
use icinga_notifications.Incident.Exec.{
  Env, Error, World, Exec, pure, insert_fetch, execute, sync_history,
}
use icinga_notifications.Incident.Contacts.{is_manager, acknowledge, process_acknowledgement_event}
use icinga_notifications.Prelude.Int.{ℤ}
use icinga_notifications.Incident.Process
use icinga_notifications.Incident.Process.{
  same_severity, close_incident, process_severity_changed_event, sync_incident,
}

-- The acknowledgement of a contact that has a role, but is no manager.
acknowledge_known :
    (env : Env) (ev : Event) (k : Key) (r : ContactRole) (w : World)
    → (acknowledge env ev k (some r) w).1.incident ≡ w.incident
unfolding acknowledge Exec.◌>>=◌ Exec.◌>>◌ Exec.raise Exec.pure Exec.time_now sync_history execute
    insert_fetch Exec.operation
acknowledge_known env ev k r w = elim (Bool-cases (is_manager r)) [
  | inl m ↦ rw (m) refl
  | inr m ↦ elim (Bool-cases (env.fails w.operations)) [
    | inl e ↦ rw (m, e) refl
    | inr e ↦ elim (Bool-cases (env.fails (w.operations + 1))) [
      | inl f ↦ rw (m, e, f) refl
      | inr f ↦ rw (m, e, f) refl
    ]
  ]
]

-- An acknowledgement by a contact that has a role in the incident leaves the incident in memory as it
-- is: the contact does not become a manager there.
pub process_acknowledgement_event_known :
    (env : Env) (ev : Event) (w : World) (c : Contact) (r : ContactRole)
    → contact_named env.equal_fold env.config.contacts ev.username ≡ some c
    → find_role w.incident.recipients (to_key (of_contact c)) ≡ some r
    → (process_acknowledgement_event env ev w).1.incident ≡ w.incident
unfolding process_acknowledgement_event Exec.◌>>=◌
process_acknowledgement_event_known env ev w c r h k =
    rw (h, k, process_acknowledgement_event) (acknowledge_known env ev (to_key (of_contact c)) r w)

-- What closing an incident sets.
abbrev pub View : Type 0
View = Severity × Option ℤ × Option ℤ × Bool

abbrev pub view : World → View
view w = (w.incident.severity, w.incident.recovered_at, w.incident.timer, w.registered)

-- Incident.Sync sets the id only.
view-sync_incident : (env : Env) (w : World) → view (sync_incident env w).1 ≡ view w
unfolding sync_incident Exec.◌>>=◌ Exec.modify Exec.pure execute insert_fetch Exec.operation
view-sync_incident env w = elim (Bool-cases (not (w.incident.id == 0))) [
  | inl e ↦ elim (Bool-cases (env.fails w.operations)) [
    | inl f ↦ rw (e, f) refl
    | inr f ↦ rw (e, f) refl
  ]
  | inr e ↦ elim (Bool-cases (env.fails w.operations)) [
    | inl f ↦ rw (e, f) refl
    | inr f ↦ rw (e, f) refl
  ]
]

-- If processSeverityChangedEvent returns no error for a change to the severity OK, then right after it the
-- incident has this severity, is recovered, has no timer, and is no current incident any more. The time of
-- the recovery is that of the clock after the history of the change is written. What ProcessEvent does
-- afterwards is not part of it: evaluateEscalations can set a timer again.
pub process_severity_changed_event_closes :
    (env : Env) (ev : Event) (w : World)
    → rank ev.severity ≡ 1
    → (process_severity_changed_event env ev w).0 ≡ ok tt
    → view (process_severity_changed_event env ev w).1
      ≡ (ev.severity, some (env.clock (w.operations + 1)), none, false)
unfolding process_severity_changed_event close_incident Process.remove_current Exec.◌>>=◌ Exec.◌>>◌
    Exec.raise Exec.modify Exec.pure Exec.time_now sync_history insert_fetch Exec.operation
process_severity_changed_event_closes env ev w to_ok h =
    elim (Bool-cases (same_severity w.incident.severity ev.severity)) [
      | inl s ↦ let bad = rw (s) at h in cc
      | inr s ↦ elim (Bool-cases (env.fails w.operations)) [
        | inl e ↦ let bad = rw (s, e) at h in cc
        | inr e ↦ elim (Bool-cases (env.fails (w.operations + 1))) [
          | inl f ↦ let bad = rw (s, e, to_ok, f) at h in cc
          | inr f ↦ rw (s, e, to_ok, f) (view-sync_incident env _)
        ]
      ]
    ]
