-- ===== src/Incident/Escalations.antt =====
-- internal/incident/incident.go: the rules and escalations of an incident.
use icinga_notifications.Prelude.{
  ℕ, Bool, true, false, none, some, List, [], ◌∷◌, ◌++◌, Result, ok, err, if◌then◌else◌,
}
use icinga_notifications.Prelude.Int.{ℤ, ◌+ℤ◌, ◌-ℤ◌, ltb_ℤ, eqb_ℤ, min_ℤ}
use icinga_notifications.Event.Incoming.{Event, to_db_int}
use icinga_notifications.Filter.Types.{EvalError}
use icinga_notifications.TimePeriod.Entries.{zero_time}
use icinga_notifications.Object.Objects.{as_filterable}
use icinga_notifications.Rule.Condition.{
  EscalationFilter, retry_never, max_int64, min_int64, reevaluate_after,
}
use icinga_notifications.Rule.Escalation.{Rule, Escalation, add_id, eval_rule, eval_escalation}
use icinga_notifications.Incident.History.{rule_matched, escalation_triggered}
use icinga_notifications.Incident.State.{
  Incident, find, has_id, upsert_rule, upsert_escalation_state,
}
use icinga_notifications.Incident.Exec.{
  Env, Exec, pure, modify, execute, sync_history, time_now, for_each, ◌>>=◌, ◌>>◌,
}
use icinga_notifications.Incident.Contacts.{history_row, incident, add_recipient}

-- Whether the rule is evaluated to true; an error is logged and counts as false.
unfoldable pub rule_matches : Rule → Incident → Bool
rule_matches r i = elim (eval_rule r (as_filterable i.object)) [ ok b ↦ b | err _ ↦ false ]

-- The body of evaluateRules' loop, for a rule that is not in effect yet.
unfoldable pub add_rule : Env → ℕ → Rule → Exec (Unit {0})
add_rule env event_id r = do
  modify (λ i. record i { rules = add_id r.id i.rules })
  i ← incident
  execute env (upsert_rule i.id r.id)
  now ← time_now env
  row ←
      sync_history env
        (record (history_row i (to_db_int event_id) now rule_matched) { rule_id = to_db_int r.id })
  pure tt

unfoldable pub evaluate_rule : Env → ℕ → ℕ × Rule → Exec (Unit {0})
unfolding add_rule
evaluate_rule env event_id (id, r) w =
    if has_id w.incident.rules r.id
    then (ok tt, w)
    else if rule_matches r w.incident
    then add_rule env event_id r w
    else (ok tt, w)

unfoldable pub evaluate_rules : Env → ℕ → Exec (Unit {0})
unfolding evaluate_rule for_each
evaluate_rules env event_id = for_each env.config.rules (evaluate_rule env event_id)

-- t.Sub(u), which stays in the range of a time.Duration
unfoldable pub time_sub : ℤ → ℤ → ℤ
time_sub t u =
    let d = t -ℤ u in
    if ltb_ℤ max_int64 d then max_int64 else if ltb_ℤ d min_int64 then min_int64 else d

-- The escalations that are reached, and the least time after which another one could be.
pub record Evaluation : Type 0 where
  pub escalations : List Escalation
  pub retry_after : ℤ

-- An escalation by the result of its condition; an error is logged.
unfoldable pub weigh :
    Env → EscalationFilter → Escalation → Evaluation → Result EvalError Bool → Evaluation
weigh env filter e acc (err _) = acc
weigh env filter e acc (ok true) = record acc { escalations = acc.escalations ++ e ∷ [] }
weigh env filter e acc (ok false) = elim e.condition [
  | none ↦ acc
  | some cond ↦ record acc {
    retry_after = min_ℤ acc.retry_after (reevaluate_after env.parse_duration filter cond);
  }
]

-- The loop's body; an escalation that was triggered before is passed over.
unfoldable pub evaluate_one :
    Env → Incident → EscalationFilter → Escalation → Evaluation → Evaluation
evaluate_one env i filter e acc =
    if has_id i.escalation_state e.id
    then acc
    else weigh env filter e acc (eval_escalation env.parse_duration e filter)

-- The loop over the escalations of a rule.
unfoldable pub evaluate_each :
    Env → Incident → EscalationFilter → List (ℕ × Escalation) → Evaluation → Evaluation
evaluate_each env i filter [] acc = acc
evaluate_each env i filter ((n, e) ∷ es) acc =
    evaluate_each env i filter es (evaluate_one env i filter e acc)

-- The loop over the rules of the incident; a rule that is not configured any more is passed over.
unfoldable pub evaluate_of_rules :
    Env → Incident → EscalationFilter → List ℕ → Evaluation → Evaluation
unfolding evaluate_each
evaluate_of_rules env i filter [] acc = acc
evaluate_of_rules env i filter (id ∷ ids) acc =
    evaluate_of_rules env i filter ids (elim (find env.config.rules id) [
      | none ↦ acc
      | some r ↦ evaluate_each env i filter r.escalations acc
    ])

abbrev pub escalation_filter : Incident → ℤ → EscalationFilter
escalation_filter i event_time = record {
  incident_age = time_sub event_time (elim i.started_at [ none ↦ zero_time | some t ↦ t ]);
  incident_severity = i.severity;
}

unfoldable pub evaluation_at : Env → Incident → ℤ → Evaluation
unfolding evaluate_of_rules
evaluation_at env i event_time =
    evaluate_of_rules env i (escalation_filter i event_time) i.rules
      (record { escalations = []; retry_after = retry_never })

-- A timer that was set is stopped, and a new one is set if a further escalation can be reached. It
-- stands for the time of the event that it will cause.
unfoldable pub evaluate_escalations : Env → ℤ → Exec (List Escalation)
unfolding evaluation_at
evaluate_escalations env event_time w =
    let result = evaluation_at env w.incident event_time in
    (
      ok result.escalations,
      record w {
        incident = record w.incident {
          timer =
              if eqb_ℤ result.retry_after retry_never
              then none
              else some (event_time +ℤ result.retry_after);
        };
      },
    )

-- The body of triggerEscalations' loop, for an escalation of a rule that is configured.
unfoldable pub trigger : Env → Event → Escalation → Rule → Exec (Unit {0})
trigger env ev e r = do
  now ← time_now env
  modify (λ i. record i { escalation_state = add_id e.id i.escalation_state })
  i ← incident
  execute env (upsert_escalation_state i.id e.id now)
  row ← sync_history env (record (history_row i (to_db_int ev.id) now escalation_triggered) {
    rule_escalation_id = to_db_int e.id;
    rule_id = to_db_int r.id;
  })
  add_recipient env e ev.id

unfoldable pub trigger_one : Env → Event → Escalation → Exec (Unit {0})
unfolding find
trigger_one env ev e = elim (find env.config.rules e.rule_id) [
  | none ↦ pure tt
  | some r ↦ trigger env ev e r
]

unfoldable pub trigger_escalations : Env → Event → List Escalation → Exec (Unit {0})
unfolding trigger_one for_each
trigger_escalations env ev escalations = for_each escalations (trigger_one env ev)
