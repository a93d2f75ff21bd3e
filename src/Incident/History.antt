-- ===== src/Incident/History.antt =====
-- internal/incident/history_event_type.go and notification_state.go
use icinga_notifications.Prelude.{ℕ, Option, List, [], ◌∷◌, Result, ok, ◌==◌, if◌then◌else◌}
use icinga_notifications.Prelude.Bytes.{Bytes, codes}
use icinga_notifications.Named.{DbValue, null, NameError, value_of, name_of, scan_text, text_of}

pub data HistoryEventType : Type 0 where
  history_event_type_null opened muted unmuted incident_severity_changed : HistoryEventType
  rule_matched escalation_triggered recipient_role_changed closed notified : HistoryEventType

unfoldable pub history_rank : HistoryEventType → ℕ
history_rank history_event_type_null = 0
history_rank opened = 1
history_rank muted = 2
history_rank unmuted = 3
history_rank incident_severity_changed = 4
history_rank rule_matched = 5
history_rank escalation_triggered = 6
history_rank recipient_role_changed = 7
history_rank closed = 8
history_rank notified = 9

unfoldable pub history_type_by_name : List (Bytes × HistoryEventType)
history_type_by_name =
    (codes "opened", opened)
    ∷ (codes "muted", muted)
    ∷ (codes "unmuted", unmuted)
    ∷ (codes "incident_severity_changed", incident_severity_changed)
    ∷ (codes "rule_matched", rule_matched)
    ∷ (codes "escalation_triggered", escalation_triggered)
    ∷ (codes "recipient_role_changed", recipient_role_changed)
    ∷ (codes "closed", closed)
    ∷ (codes "notified", notified)
    ∷ []

unfoldable pub history_type_to_name : HistoryEventType → Option Bytes
unfolding history_type_by_name history_rank name_of
history_type_to_name h = name_of history_rank history_type_by_name (history_rank h)

unfoldable pub scan_history_type : DbValue → Result NameError HistoryEventType
unfolding history_type_by_name scan_text value_of
scan_history_type null = ok history_event_type_null
scan_history_type src = scan_text history_type_by_name src

unfoldable pub history_type_value : HistoryEventType → DbValue
unfolding history_type_to_name
history_type_value h = if history_rank h == 0 then null else text_of (history_type_to_name h)

pub data NotificationState : Type 0 where
  state_null state_suppressed state_pending state_sent state_failed : NotificationState

unfoldable pub state_rank : NotificationState → ℕ
state_rank state_null = 0
state_rank state_suppressed = 1
state_rank state_pending = 2
state_rank state_sent = 3
state_rank state_failed = 4

unfoldable pub state_by_name : List (Bytes × NotificationState)
state_by_name =
    (codes "suppressed", state_suppressed)
    ∷ (codes "pending", state_pending)
    ∷ (codes "sent", state_sent)
    ∷ (codes "failed", state_failed)
    ∷ []

unfoldable pub state_to_name : NotificationState → Option Bytes
unfolding state_by_name state_rank name_of
state_to_name s = name_of state_rank state_by_name (state_rank s)

unfoldable pub scan_state : DbValue → Result NameError NotificationState
unfolding state_by_name scan_text value_of
scan_state null = ok state_null
scan_state src = scan_text state_by_name src

unfoldable pub state_value : NotificationState → DbValue
unfolding state_to_name
state_value s = if state_rank s == 0 then null else text_of (state_to_name s)
