-- ===== src/Runtime/Validated.antt =====
-- The methods IncrementalInitAndValidate: internal/channel/channel.go and plugin.go,
-- internal/timeperiod/timeperiod.go, internal/rule/rule.go and escalation.go. `none` is an error, which
-- the caller only logs.
use icinga_notifications.Prelude.{
  ℕ, zero, suc, ◌+◌, ◌/◌, ◌%◌, Bool, true, false, not, ◌&&◌, ◌||◌, Option, none, some, [], ◌∷◌,
  ◌++◌, ok, err, ltb, leb, if◌then◌else◌, length,
}
use icinga_notifications.Prelude.Int.{ℤ}
use icinga_notifications.Prelude.Bytes.{Bytes, codes}
use icinga_notifications.Filter.Parser.Loop.{parse}
use icinga_notifications.TimePeriod.Entries
use icinga_notifications.TimePeriod.Entries.{Entry, RRule}
use icinga_notifications.Runtime.Elements.{Channel, TimePeriod, RuleElement, EscalationElement}

-- The class [a-zA-Z0-9] of pluginTypeValidateRegex.
abbrev pub is_alphanumeric : ℕ → Bool
is_alphanumeric c =
    (leb b'a' c && leb c b'z') || (leb b'A' c && leb c b'Z') || (leb b'0' c && leb c b'9')

unfoldable pub all_alphanumeric : Bytes → Bool
all_alphanumeric [] = true
all_alphanumeric (c ∷ cs) = is_alphanumeric c && all_alphanumeric cs

-- ValidateType: whether it returns nil. The expression needs one character at least.
unfoldable pub validate_type : Bytes → Bool
unfolding all_alphanumeric
validate_type [] = false
validate_type (c ∷ cs) = all_alphanumeric (c ∷ cs) && not (ltb 255 (length (c ∷ cs)))

unfoldable pub init_channel : Channel → Option Channel
unfolding validate_type
init_channel c = if validate_type c.kind then some c else none

-- The decimal digits of a number, which has at most one more of them than its value.
unfoldable pub digits : ℕ → ℕ → Bytes
digits zero n = (b'0' + n % 10) ∷ []
digits (suc fuel) n = elim (ltb n 10) [
  | true ↦ (b'0' + n) ∷ []
  | false ↦ digits fuel (n / 10) ++ ((b'0' + n % 10) ∷ [])
]

abbrev pub default_name : ℕ → Bytes
default_name id = codes "Time Period #" ++ digits id id

unfoldable pub init_period : TimePeriod → Option TimePeriod
unfolding digits
init_period p = elim p.name [ [] ↦ some (record p { name = default_name p.id }) | _ ∷ _ ↦ some p ]

-- Entry.Init, with the time zones and the recurrence rules of the libraries.
unfoldable pub init_entry :
    (Bytes → Bool) → (Bytes → Bytes → ℤ → Option RRule) → Entry → Option Entry
unfolding Entries.init
init_entry is_location parse_rrule e = elim (Entries.init is_location parse_rrule e) [
  | ok e' ↦ some e'
  | err _ ↦ none
]

unfoldable pub init_rule : RuleElement → Option RuleElement
unfolding parse
init_rule r = elim r.object_filter_expr [
  | none ↦ some r
  | some text ↦ elim (parse text) [
    | err _ ↦ none
    | ok f ↦ some (record r { object_filter = some f })
  ]
]

unfoldable pub with_condition : EscalationElement → Option EscalationElement
unfolding parse
with_condition e = elim e.condition_expr [
  | none ↦ some e
  | some text ↦ elim (parse text) [
    | err _ ↦ none
    | ok cond ↦ some (record e { condition = some cond })
  ]
]

unfoldable pub init_escalation : EscalationElement → Option EscalationElement
unfolding with_condition
init_escalation e = elim (with_condition e) [
  | none ↦ none
  | some e' ↦ elim e'.fallback_for_id [ none ↦ some e' | some _ ↦ none ]
]
