-- ===== src/Conversions.antt =====
-- The database and JSON conversions of the enumerations (severity.go, contact_role.go,
-- history_event_type.go, notification_state.go) give back what went in.
use icinga_notifications.Prelude.{◌≡◌, refl, ok, err, ◌==◌, if◌then◌else◌}
use icinga_notifications.Prelude.Bytes.{bytes_eq}
use icinga_notifications.Named.{unable_to_scan}
use icinga_notifications.Event.Severity
use icinga_notifications.Event.Severity.{
  Severity, severity_none, severity_ok, marshal_json, unmarshal_json,
}
use icinga_notifications.Incident.Role.{
  ContactRole, role_rank, role_none, role_recipient, role_value, scan_role,
}
use icinga_notifications.Incident.History.{
  HistoryEventType, NotificationState, opened, state_null, history_type_value, scan_history_type,
  state_value, scan_state,
}

scan-value : (s : Severity) → Severity.scan (Severity.value s) ≡ ok s
unfolding Severity.scan Severity.value bytes_eq Severity.rank
scan-value severity_none = refl
scan-value _ = refl

unmarshal_json-marshal_json : (s : Severity) → unmarshal_json (marshal_json s) ≡ ok s
unfolding unmarshal_json marshal_json bytes_eq
unmarshal_json-marshal_json severity_none = refl
unmarshal_json-marshal_json _ = refl

scan_history_type-value : (h : HistoryEventType) → scan_history_type (history_type_value h) ≡ ok h
unfolding scan_history_type history_type_value bytes_eq
scan_history_type-value opened = refl
scan_history_type-value _ = refl

scan_state-value : (s : NotificationState) → scan_state (state_value s) ≡ ok s
unfolding scan_state state_value bytes_eq
scan_state-value state_null = refl
scan_state-value _ = refl

-- Every severity survives a write to and a read from the database and JSON, and every history event
-- type and every notification state a write to and a read from the database.
pub conversions :
    ((s : Severity) → Severity.scan (Severity.value s) ≡ ok s)
    × ((s : Severity) → unmarshal_json (marshal_json s) ≡ ok s)
    × ((h : HistoryEventType) → scan_history_type (history_type_value h) ≡ ok h)
    × ((s : NotificationState) → scan_state (state_value s) ≡ ok s)
conversions = (scan-value, unmarshal_json-marshal_json, scan_history_type-value, scan_state-value)

-- A role survives a write to and a read from the database unless it is RoleNone, whose value is
-- NULL: reading it is an error.
pub scan_role-value :
    (r : ContactRole)
    → scan_role (role_value r) ≡ (if role_rank r == 0 then err unable_to_scan else ok r)
unfolding scan_role role_value bytes_eq role_rank
scan_role-value role_none = refl
scan_role-value role_recipient = refl
scan_role-value _ = refl
