-- ===== src/Runtime/State.antt =====
-- internal/config/runtime.go: RuntimeConfig with its tables, and the lookups in the live configuration.
use icinga_notifications.Prelude.{
  ℕ, Bool, true, false, Option, none, some, List, [], ◌∷◌, ◌==◌, if◌then◌else◌, Result, ok,
}
use icinga_notifications.Recipient.Recipients.{Key}
use icinga_notifications.TimePeriod.Entries.{Entry}
use icinga_notifications.Runtime.Maps.{lookup}
use icinga_notifications.Runtime.Tables.{Pointer, Table, load, modify, empty_table}
use icinga_notifications.Runtime.Apply.{Place, Callbacks, UpdateError, incremental_apply_pending}
use icinga_notifications.Runtime.Elements.{
  Channel, Contact, Address, Group, MemberKey, GroupMember, TimePeriod, Schedule, ScheduleRotation,
  Member, RuleElement, EscalationElement, RecipientPointer, to_contact, to_group, to_schedule,
  RecipientElement, Source,
}

pub record Runtime : Type 0 where
  pub channels : Table ℕ Channel
  pub contacts : Table ℕ Contact
  pub contact_addresses : Table ℕ Address
  pub groups : Table ℕ Group
  pub group_members : Table MemberKey GroupMember
  pub time_periods : Table ℕ TimePeriod
  pub time_period_entries : Table ℕ Entry
  pub schedules : Table ℕ Schedule
  pub schedule_rotations : Table ℕ ScheduleRotation
  pub schedule_rotation_members : Table ℕ Member
  pub rules : Table ℕ RuleElement
  pub rule_escalations : Table ℕ EscalationElement
  pub rule_escalation_recipients : Table ℕ RecipientElement
  pub sources : Table ℕ Source
  -- the schedules to refresh, which applyPendingSchedules collects
  pub updated_schedule_ids : List ℕ
  pub change_available : Bool

abbrev pub by_id : ℕ → ℕ → Bool
by_id a b = a == b

abbrev pub in_channels : Place Runtime ℕ Channel
in_channels = record { table = λ r. r.channels; with_table = λ t r. record r { channels = t } }

abbrev pub in_contacts : Place Runtime ℕ Contact
in_contacts = record { table = λ r. r.contacts; with_table = λ t r. record r { contacts = t } }

abbrev pub in_contact_addresses : Place Runtime ℕ Address
in_contact_addresses = record {
  table = λ r. r.contact_addresses;
  with_table = λ t r. record r { contact_addresses = t };
}

abbrev pub in_groups : Place Runtime ℕ Group
in_groups = record { table = λ r. r.groups; with_table = λ t r. record r { groups = t } }

abbrev pub in_group_members : Place Runtime MemberKey GroupMember
in_group_members = record {
  table = λ r. r.group_members;
  with_table = λ t r. record r { group_members = t };
}

abbrev pub in_time_periods : Place Runtime ℕ TimePeriod
in_time_periods = record {
  table = λ r. r.time_periods;
  with_table = λ t r. record r { time_periods = t };
}

abbrev pub in_time_period_entries : Place Runtime ℕ Entry
in_time_period_entries = record {
  table = λ r. r.time_period_entries;
  with_table = λ t r. record r { time_period_entries = t };
}

abbrev pub in_schedules : Place Runtime ℕ Schedule
in_schedules = record { table = λ r. r.schedules; with_table = λ t r. record r { schedules = t } }

abbrev pub in_schedule_rotations : Place Runtime ℕ ScheduleRotation
in_schedule_rotations = record {
  table = λ r. r.schedule_rotations;
  with_table = λ t r. record r { schedule_rotations = t };
}

abbrev pub in_schedule_rotation_members : Place Runtime ℕ Member
in_schedule_rotation_members = record {
  table = λ r. r.schedule_rotation_members;
  with_table = λ t r. record r { schedule_rotation_members = t };
}

abbrev pub in_rules : Place Runtime ℕ RuleElement
in_rules = record { table = λ r. r.rules; with_table = λ t r. record r { rules = t } }

abbrev pub in_rule_escalations : Place Runtime ℕ EscalationElement
in_rule_escalations = record {
  table = λ r. r.rule_escalations;
  with_table = λ t r. record r { rule_escalations = t };
}

abbrev pub in_rule_escalation_recipients : Place Runtime ℕ RecipientElement
in_rule_escalation_recipients = record {
  table = λ r. r.rule_escalation_recipients;
  with_table = λ t r. record r { rule_escalation_recipients = t };
}

abbrev pub in_sources : Place Runtime ℕ Source
in_sources = record { table = λ r. r.sources; with_table = λ t r. record r { sources = t } }

module _ {K A : Type 0} (same : K → K → Bool) (place : Place Runtime K A) where
  -- The pointer of a key in the live map.
  unfoldable pub pointer : Runtime → K → Option Pointer
  unfolding lookup
  pointer r k = lookup same (place.table r).entries k

module _ {K A : Type 0} (place : Place Runtime K A) where
  -- What a pointer leads to.
  unfoldable pub read : Runtime → Pointer → Option A
  unfolding load
  read r p = load (place.table r) p

  -- An assignment through a pointer.
  unfoldable pub assign : Pointer → (A → A) → Runtime → Runtime
  unfolding modify
  assign p f r = place.with_table (modify p f (place.table r)) r

-- GetRecipient, with the pointer that it returns.
unfoldable pub recipient_pointer : Runtime → Key → Option RecipientPointer
unfolding pointer
recipient_pointer r k = elim k.contact_id [
  | some id ↦ elim (pointer by_id in_contacts r id) [ none ↦ none | some p ↦ some (to_contact p) ]
  | none ↦ elim k.group_id [
    | some id ↦ elim (pointer by_id in_groups r id) [ none ↦ none | some p ↦ some (to_group p) ]
    | none ↦ elim k.schedule_id [
      | some id ↦ elim (pointer by_id in_schedules r id) [
        | none ↦ none
        | some p ↦ some (to_schedule p)
      ]
      | none ↦ none
    ]
  ]
]

-- The loop of GetRuleEscalation.
unfoldable pub escalation_of_rules : Runtime → List (ℕ × Pointer) → ℕ → Option Pointer
unfolding read lookup
escalation_of_rules r [] id = none
escalation_of_rules r ((n, p) ∷ rules) id =
    let rest = escalation_of_rules r rules id in
    elim (read in_rules r p) [
      | none ↦ rest
      | some rule ↦ elim (lookup by_id rule.escalations id) [ none ↦ rest | some e ↦ some e ]
    ]

unfoldable pub escalation_pointer : Runtime → ℕ → Option Pointer
unfolding escalation_of_rules
escalation_pointer r id = escalation_of_rules r r.rules.entries id

-- NewRuntimeConfig
unfoldable pub new_runtime : Runtime
unfolding empty_table
new_runtime = record {
  channels = empty_table;
  contacts = empty_table;
  contact_addresses = empty_table;
  groups = empty_table;
  group_members = empty_table;
  time_periods = empty_table;
  time_period_entries = empty_table;
  schedules = empty_table;
  schedule_rotations = empty_table;
  schedule_rotation_members = empty_table;
  rules = empty_table;
  rule_escalations = empty_table;
  rule_escalation_recipients = empty_table;
  sources = empty_table;
  updated_schedule_ids = [];
  change_available = false;
}

-- incrementalApplyPending on a table of the configuration.
unfoldable pub apply_table :
    {K A : Type 0} → (K → K → Bool) → Place Runtime K A → Callbacks Runtime → Runtime → Runtime
apply_table same place callbacks r =
    let (applied, r') = incremental_apply_pending same place callbacks r in
    record r' { change_available = if applied then true else r'.change_available }

-- slices.DeleteFunc on pointers, by what they lead to.
unfoldable pub delete_where : {K A : Type 0} → Table K A → (A → Bool) → List Pointer → List Pointer
unfolding load
delete_where t test [] = []
delete_where t test (p ∷ ps) =
    let rest = delete_where t test ps in
    elim (load t p) [ none ↦ p ∷ rest | some a ↦ if test a then rest else p ∷ rest ]

-- A callback that copies fields of the changed element into the live one, and does not fail.
unfoldable pub copy_fields :
    {K A : Type 0}
    → Place Runtime K A
    → (A → A → A)
    → Pointer
    → Pointer
    → Runtime
    → Result UpdateError (Unit {0}) × Runtime
unfolding read assign
copy_fields place copy old new r = elim (read place r new) [
  | none ↦ (ok tt, r)
  | some changed ↦ (ok tt, assign place old (copy changed) r)
]

-- The callbacks of an element that nothing else points to: an update copies its fields.
unfoldable pub copying : {K A : Type 0} → Place Runtime K A → (A → A → A) → Callbacks Runtime
unfolding copy_fields
copying place copy = record { create = none; update = some (copy_fields place copy); remove = none }
