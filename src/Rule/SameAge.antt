-- ===== src/Rule/SameAge.antt =====
-- internal/rule/condition.go: a condition `incident_age>t` at the very age `t`.
use icinga_notifications.Prelude.{
  ◌≡◌, Bool, true, false, Option, some, Result, ok, arith, if◌then◌else◌, not,
}
use icinga_notifications.Prelude.Int.{ℤ, ◌<ℤ◌, ltb_ℤ, leb_ℤ, min_ℤ}
use icinga_notifications.Prelude.Bytes.{Bytes, codes, bytes_eq}
use icinga_notifications.Filter.Types
use icinga_notifications.Filter.Types.{
  Filter, Condition, CompOperator, Filterable, EvalError, extract_conditions, eval, eval_condition,
  eval_op, equal, un_equal, like, un_like, less_than, less_than_equal, greater_than,
  greater_than_equal, other, invalid_duration,
}
use icinga_notifications.Event.Severity.{Severity}
use icinga_notifications.Rule.Condition.{
  sub_int64, retry_never, reevaluate_step, reevaluate_after, compare_age, eval_less_or_equal,
  eval_exists, as_filterable,
}

-- A condition `incident_age>t`, and its value at two ages.
abbrev pub older_than : Bytes → Filter
older_than t =
    Types.condition (record { op = greater_than; column = codes "incident_age"; value = t })

-- An escalation with the condition `incident_age>t` is not retried once it was evaluated at the very age
-- `t`: there it does not match and no further evaluation is asked for, although it matches at
-- every greater age.
pub older_than_missed :
    (parse_duration : Bytes → Option ℤ) (t : Bytes) (v b : ℤ) (s : Severity)
    → parse_duration t ≡ some v
    → v <ℤ b
    → (eval
          (older_than t)
          (as_filterable parse_duration (record { incident_age = v; incident_severity = s }))
        ≡ ok false)
      × (reevaluate_after parse_duration
            (record { incident_age = v; incident_severity = s })
            (older_than t)
          ≡ retry_never)
      × (eval
            (older_than t)
            (as_filterable parse_duration (record { incident_age = b; incident_severity = s }))
          ≡ ok true)
unfolding eval eval_condition eval_op eval_exists eval_less_or_equal reevaluate_after bytes_eq
    extract_conditions
older_than_missed parse_duration t v b s e h = (
  rw (e, compare_age) (not_above v),
  rw (e, reevaluate_step) (not_later v),
  rw (e, compare_age) (above v b h),
)
  where
    not_above : (v : ℤ) → ◌≡◌ {A = Result EvalError Bool} (ok (not (leb_ℤ v v))) (ok false)
    not_above v = ground arith

    not_later :
        (v : ℤ)
        → (if ltb_ℤ v v then min_ℤ retry_never (sub_int64 v v) else retry_never) ≡ retry_never
    not_later v = ground arith

    above : (v b : ℤ) → v <ℤ b → ◌≡◌ {A = Result EvalError Bool} (ok (not (leb_ℤ b v))) (ok true)
    above v b h = ground arith
