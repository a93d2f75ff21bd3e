-- ===== src/Rule/Condition.antt =====
-- internal/rule/condition.go: escalation conditions over an incident's age and severity.
use icinga_notifications.Prelude.{
  ℕ, ◌-◌, ◌^◌, Bool, true, false, Option, none, some, List, [], ◌∷◌, Result, ok, err, ltb, leb,
  ◌==◌, if◌then◌else◌,
}
use icinga_notifications.Prelude.Int
use icinga_notifications.Prelude.Int.{ℤ, ◌+ℤ◌, ◌-ℤ◌, ltb_ℤ, leb_ℤ, eqb_ℤ, min_ℤ}
use icinga_notifications.Prelude.Bytes.{Bytes, codes, bytes_eq}
use icinga_notifications.Filter.Types.{
  Filter, Condition, Filterable, EvalError, wildcard_unsupported, invalid_duration,
  unknown_severity, extract_conditions,
}
use icinga_notifications.Event.Severity.{Severity, rank, get_severity_by_name}

-- math.MaxInt64 and math.MinInt64
abbrev pub max_int64 : ℤ
max_int64 = Int.pos (2 ^ 63 - 1)

abbrev pub min_int64 : ℤ
min_int64 = Int.negsuc (2 ^ 63 - 1)

-- a - b on int64: the difference of two such numbers leaves the range by less than 2^64.
unfoldable pub sub_int64 : ℤ → ℤ → ℤ
sub_int64 a b =
    let d = a -ℤ b in
    if ltb_ℤ max_int64 d
    then d -ℤ Int.pos (2 ^ 64)
    else if ltb_ℤ d min_int64
    then d +ℤ Int.pos (2 ^ 64)
    else d

-- A time.Duration is its number of nanoseconds.
abbrev pub retry_never : ℤ
retry_never = max_int64

pub record EscalationFilter : Type 0 where
  pub incident_age : ℤ
  pub incident_severity : Severity

abbrev pub is_age : Bytes → Bool
is_age key = bytes_eq key (codes "incident_age")

abbrev pub is_severity : Bytes → Bool
is_severity key = bytes_eq key (codes "incident_severity")

unfoldable pub eval_exists : Bytes → Bool
eval_exists key = if is_age key then true else is_severity key

-- `parse_duration` is time.ParseDuration: nothing for a text that is no duration.
module _ (parse_duration : Bytes → Option ℤ) where
  -- The body of ReevaluateAfter's loop.
  unfoldable pub reevaluate_step : EscalationFilter → ℤ → Condition → ℤ
  reevaluate_step e retry_after condition =
      if is_age condition.column
      then elim (parse_duration condition.value) [
        | none ↦ retry_after
        | some v ↦
            if ltb_ℤ e.incident_age v
            then min_ℤ retry_after (sub_int64 v e.incident_age)
            else retry_after
      ]
      else retry_after

  unfoldable pub reevaluate_from : EscalationFilter → ℤ → List Condition → ℤ
  reevaluate_from e retry_after [] = retry_after
  reevaluate_from e retry_after (c ∷ cs) = reevaluate_from e (reevaluate_step e retry_after c) cs

  unfoldable pub reevaluate_after : EscalationFilter → Filter → ℤ
  unfolding reevaluate_from reevaluate_step
  reevaluate_after e escalation_cond =
      reevaluate_from e retry_never (extract_conditions escalation_cond)

  -- A comparison of the age, or of the severity, with the value of a condition.
  unfoldable pub compare_age : (ℤ → ℤ → Bool) → EscalationFilter → Bytes → Result EvalError Bool
  compare_age test e value = elim (parse_duration value) [
    | none ↦ err (invalid_duration value)
    | some age ↦ ok (test e.incident_age age)
  ]

  unfoldable pub compare_severity :
      (ℕ → ℕ → Bool) → EscalationFilter → Bytes → Result EvalError Bool
  compare_severity test e value = elim (get_severity_by_name value) [
    | err _ ↦ err (unknown_severity value)
    | ok severity ↦ ok (test (rank e.incident_severity) (rank severity))
  ]

  unfoldable pub eval_equal : EscalationFilter → Bytes → Bytes → Result EvalError Bool
  unfolding compare_age compare_severity
  eval_equal e key value =
      if is_age key
      then compare_age eqb_ℤ e value
      else if is_severity key
      then compare_severity ◌==◌ e value
      else ok false

  unfoldable pub eval_less : EscalationFilter → Bytes → Bytes → Result EvalError Bool
  unfolding compare_age compare_severity
  eval_less e key value =
      if is_age key
      then compare_age ltb_ℤ e value
      else if is_severity key
      then compare_severity ltb e value
      else ok false

  unfoldable pub eval_less_or_equal : EscalationFilter → Bytes → Bytes → Result EvalError Bool
  unfolding compare_age compare_severity
  eval_less_or_equal e key value =
      if is_age key
      then compare_age leb_ℤ e value
      else if is_severity key
      then compare_severity leb e value
      else ok false

  unfoldable pub eval_like : EscalationFilter → Bytes → Bytes → Result EvalError Bool
  eval_like e key value = err wildcard_unsupported

  -- *EscalationFilter as a filter.Filterable
  abbrev pub as_filterable : EscalationFilter → Filterable
  as_filterable e = record {
    eval_equal = eval_equal e;
    eval_less = eval_less e;
    eval_like = eval_like e;
    eval_less_or_equal = eval_less_or_equal e;
    eval_exists = eval_exists;
  }
