-- ===== src/Incident/Steps.antt =====
-- internal/incident/incident.go and sync.go: every method moves the incident by the assignments of
-- Incident/Moves only.
use icinga_notifications.Prelude.{
  ℕ, ◌≡◌, refl, subst, Bool-cases, Option-cases, true, inl, inr, Option, none, some, List, ◌≤◌, ltb,
  arith, if◌then◌else◌,
}
use icinga_notifications.Prelude.Int.{ℤ}
use icinga_notifications.Event.Incoming.{Event}
use icinga_notifications.Recipient.Recipients.{Key, of_contact, to_key}
use icinga_notifications.Rule.Escalation.{Rule, Escalation, EscalationRecipient}
use icinga_notifications.Incident.Role.{
  ContactRole, role_none, role_recipient, role_subscriber, role_manager, role_rank,
}
use icinga_notifications.Incident.State.{find, find_role, contact_named, has_id}
use icinga_notifications.Incident.Exec.{
  Env, World, Exec, superfluous_ack, unknown_author, Exec, for_each, pure, modify,
}
use icinga_notifications.Incident.Contacts.{
  has_manager, assign_role, raise_role, add_one_recipient, add_recipient, acknowledge,
  process_acknowledgement_event,
}
use icinga_notifications.Incident.Escalations.{
  rule_matches, add_rule, evaluate_rule, evaluate_rules, evaluate_escalations, trigger, trigger_one,
  trigger_escalations,
}
use icinga_notifications.Incident.Moves
use icinga_notifications.Incident.Moves.{IsStable}

raised : (q r : ContactRole) → ltb (role_rank q) (role_rank r) ≡ true → role_rank q ≤ role_rank r
raised q r l = ground arith

-- RoleManager is the highest role.
manager_is_highest : (q : ContactRole) → role_rank q ≤ role_rank role_manager
unfolding role_rank
manager_is_highest role_none = omega arith
manager_is_highest role_recipient = omega arith
manager_is_highest role_subscriber = omega arith
manager_is_highest role_manager = omega arith

module _ (R : World → World → Type 0) (s : IsStable R) (env : Env) where
  assign-Moves :
      (w : World) (k : Key) (r : ContactRole)
      → ((q : ContactRole) → find_role w.incident.recipients k ≡ some q → role_rank q ≤ role_rank r)
      → R w (assign_role k r w).1
  unfolding assign_role modify
  assign-Moves w k r h = s.role w k r h

  raise_role-Moves :
      (w : World) (n : ℕ) (r : ContactRole) (k : Key) (old : Option ContactRole)
      → find_role w.incident.recipients k ≡ old
      → R w (raise_role env n r k old w).1
  unfolding raise_role
  raise_role-Moves w n r k none e =
      Moves.then_at R s w _ _ (assign-Moves w k r (λ q h. cc)) (Moves.pure-Moves R s r)
  raise_role-Moves w n r k (some q) e = elim (Bool-cases (ltb (role_rank q) (role_rank r))) [
    | inl l ↦ rw (l) (
        Moves.then_at R s w _ _
          (assign-Moves w k r (λ q2 h.
            let same : q ≡ q2 = cc in subst (λ x. role_rank x ≤ role_rank r) same (raised q r l)))
          (Moves.incident-Moves R s _ (λ w'.
            Moves.bind_at R s w' _ _ (Moves.time_now-Moves R s env w') (λ t.
              Moves.bind-Moves R s _ _ (Moves.sync_history-Moves R s env _)
                (λ _. Moves.pure-Moves R s r)))))
    | inr l ↦ rw (l) (Moves.pure-Moves R s q w)
  ]

  add_one_recipient-Moves :
      (n : ℕ) (r : ContactRole) (er : EscalationRecipient)
      → Moves.Moves R (add_one_recipient env n r er)
  unfolding add_one_recipient
  add_one_recipient-Moves n r er = Moves.incident-Moves R s _ (λ w.
      Moves.bind_at R s w _ _ (raise_role-Moves w n r (to_key er.recipient) _ refl)
        (λ role. Moves.execute-Moves R s env _))

  pub add_recipient-Moves : (e : Escalation) (n : ℕ) → Moves.Moves R (add_recipient env e n)
  unfolding add_recipient
  add_recipient-Moves e n =
      Moves.incident-Moves R s
        (λ i.
          let role = if has_manager env.config i then role_subscriber else role_recipient in
          for_each e.recipients (add_one_recipient env n role))
        (λ w. Moves.for_each-Moves R s e.recipients _ (λ er. add_one_recipient-Moves n _ er) w)

  assign_if_new :
      (w : World) (k : Key) (old : Option ContactRole)
      → R w
          ((elim old as (λ _. Exec (Unit {0})) [
            | none ↦ assign_role k role_manager
            | some _ ↦ pure tt
          ])
            w).1
  assign_if_new w k none = assign-Moves w k role_manager (λ q h. manager_is_highest q)
  assign_if_new w k (some q) = Moves.skip-Moves R s w

  acknowledge-Moves :
      (ev : Event) (k : Key) (old : Option ContactRole) → Moves.Moves R (acknowledge env ev k old)
  unfolding acknowledge
  acknowledge-Moves ev k old = Moves.if-Moves R s _ _ _ (Moves.raise-Moves R s _ superfluous_ack) (
      Moves.then-Moves R s _ _ (λ w. assign_if_new w k old)
        (Moves.incident-Moves R s _ (λ w.
          Moves.bind_at R s w _ _ (Moves.time_now-Moves R s env w) (λ t.
            Moves.bind-Moves R s _ _ (Moves.sync_history-Moves R s env _)
              (λ _. Moves.execute-Moves R s env _)))))

  pub process_acknowledgement_event-Moves :
      (ev : Event) → Moves.Moves R (process_acknowledgement_event env ev)
  unfolding process_acknowledgement_event
  process_acknowledgement_event-Moves ev =
      elim (Option-cases (contact_named env.equal_fold env.config.contacts ev.username)) [
        | inl e ↦ rw (e, process_acknowledgement_event) (Moves.raise-Moves R s _ unknown_author)
        | inr (contact, e) ↦
            rw (e, process_acknowledgement_event)
              (Moves.incident-Moves R s _
                (λ w. acknowledge-Moves ev (to_key (of_contact contact)) _ w))
      ]

  add_rule-Moves : (n : ℕ) (r : Rule) → Moves.Moves R (add_rule env n r)
  unfolding add_rule modify
  add_rule-Moves n r =
      Moves.then-Moves R s _ _ (λ w. s.rule w r.id)
        (Moves.incident-Moves R s _ (λ w.
          Moves.then_at R s w _ _ (Moves.execute-Moves R s env _ w) (
            Moves.bind-Moves R s _ _ (Moves.time_now-Moves R s env) (λ t.
              Moves.bind-Moves R s _ _ (Moves.sync_history-Moves R s env _)
                (λ _. Moves.skip-Moves R s)))))

  evaluate_rule-Moves : (n : ℕ) (r : ℕ × Rule) → Moves.Moves R (evaluate_rule env n r)
  unfolding evaluate_rule
  evaluate_rule-Moves n (id, r) w = elim (Bool-cases (has_id w.incident.rules r.id)) [
    | inl e ↦ rw (e) (s.rfl w)
    | inr e ↦ elim (Bool-cases (rule_matches r w.incident)) [
      | inl m ↦ rw (e, m) (add_rule-Moves n r w)
      | inr m ↦ rw (e, m) (s.rfl w)
    ]
  ]

  pub evaluate_rules-Moves : (n : ℕ) → Moves.Moves R (evaluate_rules env n)
  unfolding evaluate_rules
  evaluate_rules-Moves n =
      Moves.for_each-Moves R s env.config.rules (evaluate_rule env n) (evaluate_rule-Moves n)

  pub evaluate_escalations-Moves : (t : ℤ) → Moves.Moves R (evaluate_escalations env t)
  unfolding evaluate_escalations
  evaluate_escalations-Moves t w = s.plain w _ refl refl refl

  trigger-Moves : (ev : Event) (e : Escalation) (r : Rule) → Moves.Moves R (trigger env ev e r)
  unfolding trigger modify
  trigger-Moves ev e r = Moves.bind-Moves R s _ _ (Moves.time_now-Moves R s env) (λ t.
      Moves.then-Moves R s _ _ (λ w. s.escalation w e.id)
        (Moves.incident-Moves R s _ (λ w.
          Moves.then_at R s w _ _ (Moves.execute-Moves R s env _ w) (
            Moves.bind-Moves R s _ _ (Moves.sync_history-Moves R s env _)
              (λ _. add_recipient-Moves e ev.id)))))

  trigger_one-Moves : (ev : Event) (e : Escalation) → Moves.Moves R (trigger_one env ev e)
  unfolding trigger_one
  trigger_one-Moves ev e = elim (Option-cases (find env.config.rules e.rule_id)) [
    | inl h ↦ rw (h, trigger_one) (Moves.skip-Moves R s)
    | inr (r, h) ↦ rw (h, trigger_one) (trigger-Moves ev e r)
  ]

  pub trigger_escalations-Moves :
      (ev : Event) (es : List Escalation) → Moves.Moves R (trigger_escalations env ev es)
  unfolding trigger_escalations
  trigger_escalations-Moves ev es =
      Moves.for_each-Moves R s es (trigger_one env ev) (trigger_one-Moves ev)
