-- ===== src/Tests/Incidents.antt =====
-- The theorems on incidents, at the sample incident.
use icinga_notifications.Prelude.{
  ℕ, ◌≡◌, refl, true, false, some, List, [], ok, All, Member, here, ◌≤◌, arith, subst, inr,
}
use icinga_notifications.Prelude.Int
use icinga_notifications.Prelude.Int.{ℤ, ◌≤ℤ◌, ◌<ℤ◌, ◌+ℤ◌}
use icinga_notifications.Prelude.Bytes.{codes, bytes_eq}
use icinga_notifications.Filter.Types.{eval, extract_conditions}
use icinga_notifications.Event.Severity.{severity_crit}
use icinga_notifications.Event.Incoming.{state}
use icinga_notifications.Rule.Condition.{reevaluate_after, retry_never, as_filterable, max_int64}
use icinga_notifications.Rule.Reevaluation.{reevaluate_after_guarantee}
use icinga_notifications.Rule.SameAge.{older_than, older_than_missed}
use icinga_notifications.Rule.Escalation.{eval_escalation}
use icinga_notifications.Incident.Role.{
  ContactRole, role_rank, role_value, scan_role, role_manager, role_recipient,
}
use icinga_notifications.Incident.State.{find_role, has_id, find}
use icinga_notifications.Incident.Exec.{World, database_error}
use icinga_notifications.Incident.Exec
use icinga_notifications.Incident.Process
use icinga_notifications.Incident.Escalations
use icinga_notifications.Filter.Types
use icinga_notifications.Rule.Condition
use icinga_notifications.Recipient.Recipients.{key_eq}
use icinga_notifications.Incident.Process.{process_event}
use icinga_notifications.Incident.Escalations.{
  evaluation_at, evaluate_escalations, escalation_filter,
}
use icinga_notifications.Incident.Atomic.{process_event-Atomic}
use icinga_notifications.Incident.Monotone.{
  process_event_keeps_role, process_event_keeps_rule, process_event_keeps_escalation,
}
use icinga_notifications.Incident.Evaluation.{
  IsReached, evaluation_at-IsReached, evaluation_at_complete, evaluate_escalations_in_time,
}
use icinga_notifications.Conversions.{scan_role-value}
use icinga_notifications.Tests.Samples.{
  event_of, incident, escalation, rule, alice_key, after_an_hour, env_failing_at, an_hour, world,
}

process_event-Atomic_example :
    (process_event (env_failing_at 2) (event_of state) world).1.committed ≡ []
unfolding process_event Exec.◌>>=◌ Exec.rollback Exec.◌>>◌ Exec.begin Process.sync_event
    Exec.insert_fetch Process.add_event Exec.execute
process_event-Atomic_example =
    process_event-Atomic (env_failing_at 2) (event_of state) world database_error refl (λ e. cc)

process_event_keeps_role_example :
    (q : ContactRole) × (find_role
        (process_event (env_failing_at 50) (event_of state) world).1.incident.recipients
        alice_key
      ≡ some q)
    × (role_rank role_recipient ≤ role_rank q)
unfolding find_role key_eq
process_event_keeps_role_example =
    process_event_keeps_role (env_failing_at 50) (event_of state) world alice_key role_recipient
      refl

process_event_keeps_rule_example :
    has_id (process_event (env_failing_at 50) (event_of state) world).1.incident.rules 4 ≡ true
unfolding has_id
process_event_keeps_rule_example =
    process_event_keeps_rule (env_failing_at 50) (event_of state) world 4 refl

process_event_keeps_escalation_example :
    has_id (process_event (env_failing_at 50) (event_of state) world).1.incident.escalation_state 8
    ≡ true
unfolding has_id
process_event_keeps_escalation_example =
    process_event_keeps_escalation (env_failing_at 50) (event_of state) world 8 refl

evaluation_at-IsReached_example :
    All
      (IsReached (env_failing_at 50) incident (escalation_filter incident (Int.pos 5000)))
      (evaluation_at (env_failing_at 50) incident (Int.pos 5000)).escalations
evaluation_at-IsReached_example =
    evaluation_at-IsReached (env_failing_at 50) incident (Int.pos 5000)

evaluation_at_complete_example :
    Member escalation (evaluation_at (env_failing_at 50) incident (Int.pos 5000)).escalations
unfolding find has_id eval_escalation eval Types.eval_condition Condition.eval_exists bytes_eq
    Condition.eval_less Escalations.time_sub Int.◌-ℤ◌
evaluation_at_complete_example =
    evaluation_at_complete (env_failing_at 50) incident (Int.pos 5000) 4 rule 9 escalation refl
      (here refl) (here refl) (refl, refl)

evaluate_escalations_in_time_example :
    (at : ℤ) × ((evaluate_escalations (env_failing_at 50) (Int.pos 2000) world).1.incident.timer
      ≡ some at)
    × (at ≤ℤ Int.pos 4600)
unfolding find has_id eval_escalation eval Types.eval_condition Condition.eval_exists bytes_eq
    Condition.eval_less Escalations.time_sub Int.◌-ℤ◌ reevaluate_after extract_conditions
    Condition.sub_int64 Int.◌+ℤ◌
evaluate_escalations_in_time_example =
    evaluate_escalations_in_time (env_failing_at 50) world (Int.pos 2000) 4 rule 9 escalation
      after_an_hour refl (here refl) (here refl) refl refl refl (omega arith)

an_hour_in_range : (t : List ℕ) (v : ℤ) → an_hour t ≡ some v → v ≤ℤ max_int64
an_hour_in_range t v h =
    let same : Int.pos 3600 ≡ v = cc in subst (λ x. x ≤ℤ max_int64) same (omega arith)

scan_role-value_example : scan_role (role_value role_manager) ≡ ok role_manager
unfolding role_rank
scan_role-value_example = scan_role-value role_manager

-- The first age is at the start, and the second one before the hour.
reevaluate_after_guarantee_example :
    eval after_an_hour (
      as_filterable an_hour
        (record { incident_age = Int.pos 3000; incident_severity = severity_crit }))
    ≡ eval after_an_hour (
        as_filterable an_hour
          (record { incident_age = Int.pos 0; incident_severity = severity_crit }))
unfolding extract_conditions Condition.reevaluate_after Condition.sub_int64 Int.◌-ℤ◌ Int.◌+ℤ◌
    bytes_eq Condition.reevaluate_step
reevaluate_after_guarantee_example =
    reevaluate_after_guarantee an_hour after_an_hour (Int.pos 0) (Int.pos 3000) severity_crit
      an_hour_in_range (omega arith) (omega arith) (omega arith) (inr (inr refl), tt)

older_than_missed_example :
    (eval (older_than (codes "1h")) (
        as_filterable an_hour
          (record { incident_age = Int.pos 3600; incident_severity = severity_crit }))
      ≡ ok false)
    × (reevaluate_after an_hour
          (record { incident_age = Int.pos 3600; incident_severity = severity_crit })
          (older_than (codes "1h"))
        ≡ retry_never)
    × (eval (older_than (codes "1h")) (
          as_filterable an_hour
            (record { incident_age = Int.pos 4000; incident_severity = severity_crit }))
        ≡ ok true)
older_than_missed_example =
    older_than_missed an_hour (codes "1h") (Int.pos 3600) (Int.pos 4000) severity_crit refl
      (omega arith)
