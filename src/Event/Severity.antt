-- ===== src/Event/Severity.antt =====
-- internal/event/severity.go
use icinga_notifications.Prelude.{
  ℕ, Option, none, some, List, [], ◌∷◌, Result, ok, err, ◌==◌, if◌then◌else◌,
}
use icinga_notifications.Prelude.Bytes.{Bytes, codes}
use icinga_notifications.Named.{
  DbValue, null, NameError, unknown_name, bad_json, value_of, name_of, scan_text, text_of,
}

pub data Severity : Type 0 where
  severity_none severity_ok severity_debug severity_info severity_notice : Severity
  severity_warning severity_err severity_crit severity_alert severity_emerg : Severity

-- The constant's value, by `iota`.
unfoldable pub rank : Severity → ℕ
rank severity_none = 0
rank severity_ok = 1
rank severity_debug = 2
rank severity_info = 3
rank severity_notice = 4
rank severity_warning = 5
rank severity_err = 6
rank severity_crit = 7
rank severity_alert = 8
rank severity_emerg = 9

unfoldable pub severity_by_name : List (Bytes × Severity)
severity_by_name =
    (codes "ok", severity_ok)
    ∷ (codes "debug", severity_debug)
    ∷ (codes "info", severity_info)
    ∷ (codes "notice", severity_notice)
    ∷ (codes "warning", severity_warning)
    ∷ (codes "err", severity_err)
    ∷ (codes "crit", severity_crit)
    ∷ (codes "alert", severity_alert)
    ∷ (codes "emerg", severity_emerg)
    ∷ []

unfoldable pub severity_to_name : Severity → Option Bytes
unfolding severity_by_name rank name_of
severity_to_name s = name_of rank severity_by_name (rank s)

unfoldable pub get_severity_by_name : Bytes → Result NameError Severity
unfolding severity_by_name value_of
get_severity_by_name sev = elim (value_of severity_by_name sev) [
  | none ↦ err (unknown_name sev)
  | some s ↦ ok s
]

-- A JSON text, as far as a severity looks at it: null, a string, or anything else.
pub data Json : Type 0 where
  json_null : Json
  json_string : Bytes → Json
  json_other : Json

unfoldable pub marshal_json : Severity → Json
unfolding severity_to_name
marshal_json s = elim (severity_to_name s) [ some name ↦ json_string name | none ↦ json_null ]

unfoldable pub unmarshal_json : Json → Result NameError Severity
unfolding severity_by_name value_of
unmarshal_json json_null = ok severity_none
unmarshal_json (json_string name) = elim (value_of severity_by_name name) [
  | none ↦ err (unknown_name name)
  | some s ↦ ok s
]
unmarshal_json json_other = err bad_json

unfoldable pub scan : DbValue → Result NameError Severity
unfolding severity_by_name scan_text value_of
scan null = ok severity_none
scan src = scan_text severity_by_name src

unfoldable pub value : Severity → DbValue
unfolding severity_to_name
value s = if rank s == 0 then null else text_of (severity_to_name s)
