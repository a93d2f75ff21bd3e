-- ===== src/Runtime/Pending/Update.antt =====
-- internal/config/runtime.go: UpdateFromDatabase.
use icinga_notifications.Prelude.{
  ℕ, Bool, true, false, Option, none, some, List, [], ◌∷◌, if◌then◌else◌,
}
use icinga_notifications.Prelude.Int.{ℤ}
use icinga_notifications.TimePeriod.Entries.{Entry, RRule}
use icinga_notifications.Runtime.Tables.{Table, Row, incremental_fetch}
use icinga_notifications.Prelude.Bytes.{Bytes}
use icinga_notifications.Runtime.Apply.{Place}
use icinga_notifications.Runtime.Validated.{
  init_channel, init_period, init_entry, init_rule, init_escalation,
}
use icinga_notifications.Runtime.Elements.{
  Channel, Contact, Address, Group, MemberKey, same_member, GroupMember, TimePeriod, Schedule,
  ScheduleRotation, Member, RuleElement, EscalationElement, RecipientElement, Source,
}
use icinga_notifications.Runtime.State.{
  Runtime, by_id, in_channels, in_contacts, in_contact_addresses, in_groups, in_group_members,
  in_time_periods, in_time_period_entries, in_schedules, in_schedule_rotations,
  in_schedule_rotation_members, in_rules, in_rule_escalations, in_rule_escalation_recipients,
  in_sources,
}
use icinga_notifications.Runtime.Pending.Contacts.{
  apply_pending_channels, apply_pending_contacts, apply_pending_groups,
}
use icinga_notifications.Runtime.Pending.Periods.{apply_pending_time_periods, apply_pending_sources}
use icinga_notifications.Runtime.Pending.Schedules.{apply_pending_schedules}
use icinga_notifications.Runtime.Pending.Rules.{apply_pending_rules}

-- The query of a table, as `incremental_fetch` takes it.
abbrev pub Query : Type 0 → Type 0 → Type 0
Query K A = Option ℤ → Option (List (Row K A))

-- The state of the database in the transaction, and what Entry.Init calls: whether time.LoadLocation knows
-- a time zone, and the recurrence rule of a text.
pub record Database : Type 0 where
  pub begins : Bool
  pub channels : Query ℕ Channel
  pub contacts : Query ℕ Contact
  pub contact_addresses : Query ℕ Address
  pub groups : Query ℕ Group
  pub group_members : Query MemberKey GroupMember
  pub schedules : Query ℕ Schedule
  pub schedule_rotations : Query ℕ ScheduleRotation
  pub schedule_rotation_members : Query ℕ Member
  pub time_periods : Query ℕ TimePeriod
  pub time_period_entries : Query ℕ Entry
  pub rules : Query ℕ RuleElement
  pub rule_escalations : Query ℕ EscalationElement
  pub rule_escalation_recipients : Query ℕ RecipientElement
  pub sources : Query ℕ Source
  pub is_location : Bytes → Bool
  pub parse_rrule : Bytes → Bytes → ℤ → Option RRule

unfoldable pub fetch_table :
    {K A : Type 0}
    → (K → K → Bool)
    → (A → Option A)
    → Place Runtime K A
    → Query K A
    → Runtime
    → Bool × Runtime
unfolding incremental_fetch
fetch_table same init place select r =
    let (fetched, t) = incremental_fetch same init select (place.table r) in
    (fetched, place.with_table t r)

-- The functions are called until one fails.
unfoldable pub until_failure : List (Runtime → Bool × Runtime) → Runtime → Bool × Runtime
until_failure [] r = (true, r)
until_failure (f ∷ fs) r =
    let (success, r') = f r in
    let rest = until_failure fs r' in if success then rest else (false, r')

unfoldable pub fetch_functions : Database → List (Runtime → Bool × Runtime)
unfolding fetch_table init_channel init_period init_entry init_rule init_escalation
fetch_functions db =
    fetch_table by_id init_channel in_channels db.channels
    ∷ fetch_table by_id some in_contacts db.contacts
    ∷ fetch_table by_id some in_contact_addresses db.contact_addresses
    ∷ fetch_table by_id some in_groups db.groups
    ∷ fetch_table same_member some in_group_members db.group_members
    ∷ fetch_table by_id some in_schedules db.schedules
    ∷ fetch_table by_id some in_schedule_rotations db.schedule_rotations
    ∷ fetch_table by_id some in_schedule_rotation_members db.schedule_rotation_members
    ∷ fetch_table by_id init_period in_time_periods db.time_periods
    ∷ fetch_table by_id (init_entry db.is_location db.parse_rrule) in_time_period_entries
        db.time_period_entries
    ∷ fetch_table by_id init_rule in_rules db.rules
    ∷ fetch_table by_id init_escalation in_rule_escalations db.rule_escalations
    ∷ fetch_table by_id some in_rule_escalation_recipients db.rule_escalation_recipients
    ∷ fetch_table by_id some in_sources db.sources
    ∷ []

unfoldable pub fetch_from_database : Database → Runtime → Bool × Runtime
unfolding until_failure fetch_functions
fetch_from_database db r = if db.begins then until_failure (fetch_functions db) r else (false, r)

abbrev pub drop_table : {K A : Type 0} → Table K A → Table K A
drop_table t = record t { changes = [] }

-- r.configChange = &ConfigSet{}, and nil at the end.
unfoldable pub drop_changes : Runtime → Runtime
drop_changes r = record r {
  channels = drop_table r.channels;
  contacts = drop_table r.contacts;
  contact_addresses = drop_table r.contact_addresses;
  groups = drop_table r.groups;
  group_members = drop_table r.group_members;
  time_periods = drop_table r.time_periods;
  time_period_entries = drop_table r.time_period_entries;
  schedules = drop_table r.schedules;
  schedule_rotations = drop_table r.schedule_rotations;
  schedule_rotation_members = drop_table r.schedule_rotation_members;
  rules = drop_table r.rules;
  rule_escalations = drop_table r.rule_escalations;
  rule_escalation_recipients = drop_table r.rule_escalation_recipients;
  sources = drop_table r.sources;
}

unfoldable pub apply_pending : Runtime → Runtime
unfolding apply_pending_channels apply_pending_contacts apply_pending_groups apply_pending_schedules
    apply_pending_time_periods apply_pending_rules apply_pending_sources
apply_pending r = apply_pending_sources (
    apply_pending_rules (
      apply_pending_time_periods (
        apply_pending_schedules
          (apply_pending_groups (apply_pending_contacts (apply_pending_channels r))))))

-- The verification of what was applied. `verify` is debugVerify; where it fails the program ends, which
-- is nothing here.
unfoldable pub verified : (Runtime → Bool) → Runtime → Option (Bool × Runtime)
unfolding drop_changes
verified verify r =
    if r.change_available
    then (if verify r then some (true, drop_changes r) else none)
    else some (true, drop_changes r)

unfoldable pub apply_fetched : (Runtime → Bool) → Bool × Runtime → Option (Bool × Runtime)
unfolding apply_pending drop_changes verified
apply_fetched verify (false, r) = some (false, drop_changes r)
apply_fetched verify (true, r) = verified verify (apply_pending r)

-- UpdateFromDatabase: whether it returns no error, and the configuration.
unfoldable pub update_from_database :
    Database → (Runtime → Bool) → Runtime → Option (Bool × Runtime)
unfolding fetch_from_database apply_fetched drop_changes
update_from_database db verify r =
    apply_fetched verify
      (fetch_from_database db (drop_changes (record r { change_available = false })))
