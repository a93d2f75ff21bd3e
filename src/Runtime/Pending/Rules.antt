-- ===== src/Runtime/Pending/Rules.antt =====
-- internal/config/rule.go: the callbacks of the synchronisation.
use icinga_notifications.Prelude.{
  ℕ, Bool, true, false, Option, none, some, [], ◌∷◌, ◌++◌, Result, ok, err, ◌==◌, if◌then◌else◌,
}
use icinga_notifications.Runtime.Maps.{put, delete}
use icinga_notifications.Runtime.Tables.{Pointer}
use icinga_notifications.Runtime.Apply.{
  Callbacks, UpdateError, remove_and_add_instead, callback_failed,
}
use icinga_notifications.Runtime.State.{
  Runtime, by_id, in_time_periods, in_rules, in_rule_escalations, in_rule_escalation_recipients,
  pointer, read, assign, apply_table, delete_where, recipient_pointer, escalation_pointer,
}

-- The pointer to a time period, which must be there if the id is valid.
unfoldable pub resolve_period : Runtime → Option ℕ → Option (Option Pointer)
unfolding pointer
resolve_period r none = some none
resolve_period r (some id) = elim (pointer by_id in_time_periods r id) [
  | none ↦ none
  | some p ↦ some (some p)
]

unfoldable pub create_rule : Pointer → Runtime → Bool × Runtime
unfolding read assign resolve_period
create_rule p r = elim (read in_rules r p) [
  | none ↦ (false, r)
  | some rule ↦ elim (resolve_period r rule.time_period_id) [
    | none ↦ (false, r)
    | some period ↦
        (true, assign in_rules p (λ x. record x { time_period = period; escalations = [] }) r)
  ]
]

-- The name and the id of the time period are set also where the time period is unknown.
unfoldable pub update_rule : Pointer → Pointer → Runtime → Result UpdateError (Unit {0}) × Runtime
unfolding read assign resolve_period
update_rule old new r = elim (read in_rules r new) [
  | none ↦ (err callback_failed, r)
  | some u ↦
      let r' =
        assign in_rules old
          (λ x. record x {
            changed_at = u.changed_at;
            name = u.name;
            time_period_id = u.time_period_id;
          })
          r in
      elim (resolve_period r u.time_period_id) [
        | none ↦ (err callback_failed, r')
        | some period ↦ (
          ok tt,
          assign in_rules old
              (λ x. record x {
                time_period = period;
                object_filter = u.object_filter;
                object_filter_expr = u.object_filter_expr;
              })
              r',
        )
      ]
]

unfoldable pub rule_callbacks : Callbacks Runtime
unfolding create_rule update_rule
rule_callbacks = record { create = some create_rule; update = some update_rule; remove = none }

unfoldable pub create_escalation : Pointer → Runtime → Bool × Runtime
unfolding read pointer assign put
create_escalation p r = elim (read in_rule_escalations r p) [
  | none ↦ (false, r)
  | some e ↦ elim (pointer by_id in_rules r e.rule_id) [
    | none ↦ (false, r)
    | some rule ↦ (
      true,
      assign in_rules rule (λ x. record x { escalations = put by_id e.id p x.escalations }) r,
    )
  ]
]

unfoldable pub update_escalation :
    Pointer → Pointer → Runtime → Result UpdateError (Unit {0}) × Runtime
unfolding read assign
update_escalation old new r = elim (read in_rule_escalations r old) [
  | none ↦ (err callback_failed, r)
  | some current ↦ elim (read in_rule_escalations r new) [
    | none ↦ (err callback_failed, r)
    | some u ↦
        if current.rule_id == u.rule_id
        then (
          ok tt,
          assign in_rule_escalations old
              (λ x. record x {
                changed_at = u.changed_at;
                name = u.name;
                condition = u.condition;
                condition_expr = u.condition_expr;
              })
              r,
        )
        else (err remove_and_add_instead, r)
  ]
]

unfoldable pub remove_escalation : Pointer → Runtime → Bool × Runtime
unfolding read pointer assign delete
remove_escalation p r = elim (read in_rule_escalations r p) [
  | none ↦ (false, r)
  | some e ↦ elim (pointer by_id in_rules r e.rule_id) [
    | none ↦ (true, r)
    | some rule ↦ (
      true,
      assign in_rules rule (λ x. record x { escalations = delete by_id e.id x.escalations }) r,
    )
  ]
]

unfoldable pub escalation_callbacks : Callbacks Runtime
unfolding create_escalation update_escalation remove_escalation
escalation_callbacks = record {
  create = some create_escalation;
  update = some update_escalation;
  remove = some remove_escalation;
}

-- The recipient is resolved first, and then the escalation.
unfoldable pub create_recipient : Pointer → Runtime → Bool × Runtime
unfolding read assign recipient_pointer escalation_pointer
create_recipient p r = elim (read in_rule_escalation_recipients r p) [
  | none ↦ (false, r)
  | some er ↦
      let r' =
        assign in_rule_escalation_recipients p
          (λ x. record x { recipient = recipient_pointer r er.key }) r in
      elim (recipient_pointer r er.key) [
        | none ↦ (false, r')
        | some recipient ↦ elim (escalation_pointer r' er.escalation_id) [
          | none ↦ (false, r')
          | some e ↦ (
            true,
            assign in_rule_escalations e (λ x. record x { recipients = x.recipients ++ p ∷ [] }) r',
          )
        ]
      ]
]

-- The recipients of the escalation are compared with its id, not with their own.
unfoldable pub remove_recipient : Pointer → Runtime → Bool × Runtime
unfolding read assign escalation_pointer delete_where
remove_recipient p r = elim (read in_rule_escalation_recipients r p) [
  | none ↦ (false, r)
  | some er ↦ elim (escalation_pointer r er.escalation_id) [
    | none ↦ (true, r)
    | some e ↦ (
      true,
      assign in_rule_escalations e
          (λ x. record x {
            recipients =
                delete_where r.rule_escalation_recipients (λ y. y.escalation_id == er.escalation_id)
                  x.recipients;
          })
          r,
    )
  ]
]

unfoldable pub recipient_callbacks : Callbacks Runtime
unfolding create_recipient remove_recipient
recipient_callbacks = record {
  create = some create_recipient;
  update = none;
  remove = some remove_recipient;
}

unfoldable pub apply_pending_rules : Runtime → Runtime
unfolding apply_table rule_callbacks escalation_callbacks recipient_callbacks
apply_pending_rules r = apply_table by_id in_rule_escalation_recipients recipient_callbacks (
    apply_table by_id in_rule_escalations escalation_callbacks
      (apply_table by_id in_rules rule_callbacks r))
