-- ===== src/Incident/State.antt =====
-- internal/incident/incident.go and db_types.go: the state of an incident, the configuration that it
-- reads, and the statements that it sends to the database.
use icinga_notifications.Prelude.{
  ℕ, Bool, true, false, Option, none, some, List, [], ◌∷◌, ◌==◌, if◌then◌else◌,
}
use icinga_notifications.Prelude.Int.{ℤ}
use icinga_notifications.Prelude.Bytes.{Bytes}
use icinga_notifications.Event.Severity.{Severity}
use icinga_notifications.Event.Incoming.{EventRow}
use icinga_notifications.Object.Objects.{Object}
use icinga_notifications.Recipient.Rotations.{Contact, Group}
use icinga_notifications.Recipient.Recipients.{
  Recipient, of_contact, of_group, of_schedule, Schedule, Key, key_eq,
}
use icinga_notifications.Rule.Escalation.{Rule, Escalation}
use icinga_notifications.Incident.Role.{ContactRole}
use icinga_notifications.Incident.History.{HistoryEventType, NotificationState}

-- Go maps by a number, in the order of the iteration.
module _ {A : Type 0} where
  -- m[id]
  unfoldable pub find : List (ℕ × A) → ℕ → Option A
  find [] id = none
  find ((n, a) ∷ m) id = if n == id then some a else find m id

  -- m[id] = a
  unfoldable pub store : ℕ → A → List (ℕ × A) → List (ℕ × A)
  store id a [] = (id, a) ∷ []
  store id a ((n, b) ∷ m) = if n == id then (n, a) ∷ m else (n, b) ∷ store id a m

unfoldable pub has_id : List ℕ → ℕ → Bool
has_id [] id = false
has_id (n ∷ ns) id = if n == id then true else has_id ns id

-- map[recipient.Key]*RecipientState
abbrev pub Recipients : Type 0
Recipients = List (Key × ContactRole)

unfoldable pub find_role : Recipients → Key → Option ContactRole
find_role [] k = none
find_role ((j, r) ∷ m) k = if key_eq j k then some r else find_role m k

unfoldable pub set_role : Key → ContactRole → Recipients → Recipients
set_role k r [] = (k, r) ∷ []
set_role k r ((j, q) ∷ m) = if key_eq j k then (j, r) ∷ m else (j, q) ∷ set_role k r m

-- The part of config.ConfigSet that incidents read.
pub record Config : Type 0 where
  pub contacts : List (ℕ × Contact)
  pub groups : List (ℕ × Group)
  pub schedules : List (ℕ × Schedule)
  pub rules : List (ℕ × Rule)
  pub channels : List ℕ

-- RuntimeConfig.GetRecipient
unfoldable pub get_recipient : Config → Key → Option Recipient
unfolding find
get_recipient c k = elim k.contact_id [
  | some id ↦ elim (find c.contacts id) [ some x ↦ some (of_contact x) | none ↦ none ]
  | none ↦ elim k.group_id [
    | some id ↦ elim (find c.groups id) [ some x ↦ some (of_group x) | none ↦ none ]
    | none ↦ elim k.schedule_id [
      | some id ↦ elim (find c.schedules id) [ some x ↦ some (of_schedule x) | none ↦ none ]
      | none ↦ none
    ]
  ]
]

unfoldable pub escalation_in : List (ℕ × Rule) → ℕ → Option Escalation
unfolding find
escalation_in [] id = none
escalation_in ((n, r) ∷ rs) id = elim (find r.escalations id) [
  | some e ↦ some e
  | none ↦ escalation_in rs id
]

-- RuntimeConfig.GetRuleEscalation
abbrev pub get_rule_escalation : Config → ℕ → Option Escalation
get_rule_escalation c id = escalation_in c.rules id

-- RuntimeConfig.GetContact; `equal_fold` is strings.EqualFold, and a NULL name is "".
unfoldable pub contact_named : (Bytes → Bytes → Bool) → List (ℕ × Contact) → Bytes → Option Contact
contact_named equal_fold [] username = none
contact_named equal_fold ((n, c) ∷ cs) username =
    if equal_fold (elim c.username [ none ↦ [] | some u ↦ u ]) username
    then some c
    else contact_named equal_fold cs username

pub record Incident : Type 0 where
  pub id : ℕ
  pub object : Object
  -- the zero time is `none`
  pub started_at : Option ℤ
  pub recovered_at : Option ℤ
  pub severity : Severity
  -- the keys of the map; the time of each is in the database row
  pub escalation_state : List ℕ
  pub rules : List ℕ
  pub recipients : Recipients
  -- the time of the reevaluation that is scheduled
  pub timer : Option ℤ
  pub is_muted : Bool

pub record HistoryRow : Type 0 where
  pub incident_id : ℕ
  pub rule_escalation_id : Option ℕ
  pub event_id : Option ℕ
  pub key : Option Key
  pub rule_id : Option ℕ
  pub time : ℤ
  pub kind : HistoryEventType
  pub channel_id : Option ℕ
  pub new_severity : Option Severity
  pub old_severity : Option Severity
  pub new_recipient_role : Option ContactRole
  pub old_recipient_role : Option ContactRole
  pub message : Option Bytes
  pub notification_state : Option NotificationState

pub record NotificationEntry : Type 0 where
  pub history_row_id : ℕ
  pub contact_id : ℕ
  pub channel_id : ℕ
  pub state : NotificationState

-- The statements, one for each place of the code that executes one.
pub data Statement : Type 0 where
  insert_event : EventRow → Statement
  -- the severity, the start and the recovery of the incident
  insert_incident : Severity → Option ℤ → Statement
  upsert_incident : ℕ → Severity → Option ℤ → Statement
  insert_incident_event : ℕ → ℕ → Statement
  upsert_contact : ℕ → Key → ContactRole → Statement
  upsert_rule : ℕ → ℕ → Statement
  upsert_escalation_state : ℕ → ℕ → ℤ → Statement
  insert_history : HistoryRow → Statement
  update_notification : ℕ → NotificationState → Statement
