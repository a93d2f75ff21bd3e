-- ===== src/Incident/Handlers.antt =====
-- internal/incident/incident.go: the handlers of ProcessEvent move the incident by the assignments of
-- Incident/Moves only.
use icinga_notifications.Prelude.{ℕ, refl, Bool, Bool-cases, inl, inr, not, List, [], ◌∷◌, ◌==◌}
use icinga_notifications.Event.Severity.{rank}
use icinga_notifications.Event.Incoming.{Event, EventType, acknowledgement_set, state}
use icinga_notifications.Object.Objects.{is_muted}
use icinga_notifications.Recipient.Rotations.{Contact}
use icinga_notifications.Rule.Escalation.{ContactChannels}
use icinga_notifications.Incident.Exec.{Env, World, superfluous_state_change}
use icinga_notifications.Incident.Notifications.{
  generate_one, generate_channels, generate_contacts, generate_notifications,
}
use icinga_notifications.Incident.Process.{
  sync_event, sync_incident, add_event, remove_current, process_incident_opened_event,
  close_incident, same_severity, process_severity_changed_event, same_bool, handle_mute_unmute,
  process_state, process_type,
}
use icinga_notifications.Incident.Moves
use icinga_notifications.Incident.Moves.{IsStable}
use icinga_notifications.Incident.Steps

module _ (R : World → World → Type 0) (s : IsStable R) (env : Env) where
  pub sync_event-Moves : (ev : Event) → Moves.Moves R (sync_event env ev)
  unfolding sync_event
  sync_event-Moves ev w = elim (Bool-cases (not (ev.id == 0))) [
    | inl e ↦ rw (e) (s.rfl w)
    | inr e ↦ rw (e) (
        Moves.bind-Moves R s _ _ (Moves.insert_fetch-Moves R s env _) (λ id. Moves.pure-Moves R s _)
          w)
  ]

  sync_incident-Moves : Moves.Moves R (sync_incident env)
  unfolding sync_incident
  sync_incident-Moves w = elim (Bool-cases (not (w.incident.id == 0))) [
    | inl e ↦ rw (e) (Moves.execute-Moves R s env _ w)
    | inr e ↦ rw (e) (
        Moves.bind-Moves R s _ _ (Moves.insert_fetch-Moves R s env _)
          (λ id. Moves.modify-Moves R s _ (λ _. refl) (λ _. refl) (λ _. refl)) w)
  ]

  pub add_event-Moves : (ev : Event) → Moves.Moves R (add_event env ev)
  unfolding add_event
  add_event-Moves ev = Moves.incident-Moves R s _ (λ w. Moves.execute-Moves R s env _ w)

  pub process_incident_opened_event-Moves :
      (ev : Event) → Moves.Moves R (process_incident_opened_event env ev)
  unfolding process_incident_opened_event
  process_incident_opened_event-Moves ev =
      Moves.then-Moves R s _ _ (Moves.modify-Moves R s _ (λ _. refl) (λ _. refl) (λ _. refl)) (
        Moves.then-Moves R s _ _ sync_incident-Moves (
          Moves.incident-Moves R s _ (λ w.
            Moves.bind_at R s w _ _ (Moves.sync_history-Moves R s env _ w)
              (λ _. Moves.skip-Moves R s))))

  close_incident-Moves : (ev : Event) → Moves.Moves R (close_incident env ev)
  unfolding close_incident remove_current
  close_incident-Moves ev = Moves.bind-Moves R s _ _ (Moves.time_now-Moves R s env) (λ t.
      Moves.then-Moves R s _ _ (Moves.modify-Moves R s _ (λ _. refl) (λ _. refl) (λ _. refl)) (
        Moves.then-Moves R s _ _ s.unregister (
          Moves.incident-Moves R s _ (λ w.
            Moves.bind_at R s w _ _ (Moves.sync_history-Moves R s env _ w)
              (λ _. Moves.modify-Moves R s _ (λ _. refl) (λ _. refl) (λ _. refl))))))

  process_severity_changed_event-Moves :
      (ev : Event) → Moves.Moves R (process_severity_changed_event env ev)
  unfolding process_severity_changed_event
  process_severity_changed_event-Moves ev = Moves.incident-Moves R s _ (λ w.
      Moves.if-Moves R s (same_severity w.incident.severity ev.severity) _ _
        (Moves.raise-Moves R s _ superfluous_state_change)
        (Moves.bind-Moves R s _ _ (Moves.time_now-Moves R s env) (λ t.
          Moves.bind-Moves R s _ _ (Moves.sync_history-Moves R s env _) (λ _.
            Moves.then-Moves R s _ _
              (Moves.if-Moves R s (rank ev.severity == 1) _ _ (close_incident-Moves ev)
                (Moves.skip-Moves R s))
              (Moves.then-Moves R s _ _
                (Moves.modify-Moves R s _ (λ _. refl) (λ _. refl) (λ _. refl))
                sync_incident-Moves))))
        w)

  pub handle_mute_unmute-Moves : (ev : Event) → Moves.Moves R (handle_mute_unmute env ev)
  unfolding handle_mute_unmute
  handle_mute_unmute-Moves ev = Moves.incident-Moves R s _ (λ w.
      Moves.if-Moves R s (same_bool w.incident.is_muted (is_muted w.incident.object)) _ _
        (Moves.skip-Moves R s)
        (Moves.bind-Moves R s _ _ (Moves.time_now-Moves R s env) (λ t.
          Moves.bind-Moves R s _ _ (Moves.sync_history-Moves R s env _)
            (λ _. Moves.skip-Moves R s)))
        w)

  process_state-Moves : (ev : Event) (is_new : Bool) → Moves.Moves R (process_state env ev is_new)
  unfolding process_state
  process_state-Moves ev is_new =
      Moves.then-Moves R s _ _
        (Moves.if-Moves R s is_new _ _ (Moves.skip-Moves R s)
          (process_severity_changed_event-Moves ev))
        (Moves.then-Moves R s _ _ (Steps.evaluate_rules-Moves R s env ev.id) (
          Moves.bind-Moves R s _ _ (Steps.evaluate_escalations-Moves R s env ev.time)
            (λ es. Steps.trigger_escalations-Moves R s env ev es)))

  pub process_type-Moves :
      (ev : Event) (is_new : Bool) (type : EventType)
      → Moves.Moves R (process_type env ev is_new type)
  unfolding process_type
  process_type-Moves ev is_new state = process_state-Moves ev is_new
  process_type-Moves ev is_new acknowledgement_set =
      Steps.process_acknowledgement_event-Moves R s env ev
  process_type-Moves ev is_new _ = Moves.skip-Moves R s

  generate_one-Moves :
      (ev : Event) (b : Bool) (c : Contact) (n : ℕ) → Moves.Moves R (generate_one env ev b c n)
  unfolding generate_one
  generate_one-Moves ev b c n = Moves.incident-Moves R s _ (λ w.
      Moves.bind_at R s w _ _ (Moves.time_now-Moves R s env w) (λ t.
        Moves.bind-Moves R s _ _ (Moves.sync_history-Moves R s env _)
          (λ _. Moves.pure-Moves R s _)))

  generate_channels-Moves :
      (ev : Event) (b : Bool) (c : Contact) (ns : List ℕ)
      → Moves.Moves R (generate_channels env ev b c ns)
  unfolding generate_channels
  generate_channels-Moves ev b c [] = Moves.pure-Moves R s []
  generate_channels-Moves ev b c (n ∷ ns) =
      Moves.bind-Moves R s _ _ (generate_one-Moves ev b c n) (λ es.
        Moves.bind-Moves R s _ _ (generate_channels-Moves ev b c ns)
          (λ more. Moves.pure-Moves R s _))

  generate_contacts-Moves :
      (ev : Event) (b : Bool) (chs : ContactChannels)
      → Moves.Moves R (generate_contacts env ev b chs)
  unfolding generate_contacts
  generate_contacts-Moves ev b [] = Moves.pure-Moves R s []
  generate_contacts-Moves ev b ((c, ns) ∷ chs) =
      Moves.bind-Moves R s _ _ (generate_channels-Moves ev b c ns) (λ es.
        Moves.bind-Moves R s _ _ (generate_contacts-Moves ev b chs)
          (λ more. Moves.pure-Moves R s _))

  pub generate_notifications-Moves :
      (ev : Event) (chs : ContactChannels) → Moves.Moves R (generate_notifications env ev chs)
  unfolding generate_notifications
  generate_notifications-Moves ev chs w = generate_contacts-Moves ev _ chs w
