-- ===== src/Tests/Configuration.antt =====
-- The theorems on the synchronisation of the configuration, at a configuration with one contact that one
-- escalation notifies.
use icinga_notifications.Prelude.{ℕ, ◌≡◌, refl, true, false, none, some, List, [], ◌∷◌, here}
use icinga_notifications.Prelude.Int
use icinga_notifications.Prelude.Int.{ℤ}
use icinga_notifications.Prelude.Bytes.{codes}
use icinga_notifications.Runtime.Maps.{eq_IsKey, lookup, put, delete}
use icinga_notifications.Runtime.Tables.{Pointer, Table, Row, load, modify}
use icinga_notifications.Runtime.Apply.{entries, apply_changes, incremental_apply_pending}
use icinga_notifications.Runtime.Elements.{
  Channel, not_started, Contact, Address, RuleElement, EscalationElement, RecipientElement,
  to_contact,
}
use icinga_notifications.Runtime.State.{
  Runtime, by_id, in_contacts, in_contact_addresses, assign, in_channels, in_rule_escalations,
  pointer, read, apply_table, escalation_pointer, escalation_of_rules,
}
use icinga_notifications.Runtime.Merge.{has}
use icinga_notifications.Runtime.Refine.{
  merged, incremental_apply_pending-merged, incremental_apply_pending_keeps,
  incremental_apply_pending_deletes,
}
use icinga_notifications.Runtime.Fetched.{wanted, decides, last_changed}
use icinga_notifications.Runtime.Synchronised.{contacts_synchronised, copying-KeepsEntries}
use icinga_notifications.Runtime.Pending.Contacts.{contact_callbacks, address_callbacks}
use icinga_notifications.Runtime.Addresses.{address_callbacks-KeepsEntries}
use icinga_notifications.Runtime.Pending.Rules.{remove_recipient}
use icinga_notifications.Runtime.Pending.Update
use icinga_notifications.Runtime.Pending.Update.{Database, Query, fetch_table, update_from_database}
use icinga_notifications.Runtime.Failing.{live, update_from_database_failed}
use icinga_notifications.Runtime.Lost.{update_from_database_loses}
use icinga_notifications.Runtime.Overdeleted.{remove_recipient_removes_every}
use icinga_notifications.Runtime.Verify
use icinga_notifications.Runtime.Verify.{debug_verify}
use icinga_notifications.Runtime.Consistent.{debug_verify_contact}

abbrev no_table : {K A : Type 0} → Table K A
no_table = record { elements = []; entries = []; changes = []; changed_at = none }

abbrev pub one : {A : Type 0} → ℕ → A → Table ℕ A
one id a = record {
  elements = a ∷ [];
  entries = (id, 0) ∷ [];
  changes = [];
  changed_at = some (Int.pos 10);
}

abbrev channel : Channel
channel = record {
  id = 1;
  changed_at = Int.pos 10;
  name = codes "mail";
  kind = codes "email";
  config = [];
  plugin = not_started;
  restarts = 0;
}

abbrev alice : ℕ → Contact
alice id = record {
  id = id;
  changed_at = Int.pos 10;
  full_name = codes "Alice";
  username = none;
  default_channel_id = 1;
  addresses = [];
}

abbrev rule : RuleElement
rule = record {
  id = 4;
  changed_at = Int.pos 10;
  name = codes "rule";
  time_period_id = none;
  time_period = none;
  object_filter = none;
  object_filter_expr = none;
  escalations = (9, 0) ∷ [];
}

abbrev escalation : EscalationElement
escalation = record {
  id = 9;
  changed_at = Int.pos 10;
  rule_id = 4;
  name = none;
  condition = none;
  condition_expr = none;
  fallback_for_id = none;
  recipients = 0 ∷ [];
}

abbrev recipient : RecipientElement
recipient = record {
  id = 3;
  escalation_id = 9;
  channel_id = none;
  key = record { contact_id = some 1; group_id = none; schedule_id = none };
  recipient = some (to_contact 0);
}

abbrev pub runtime : Runtime
runtime = record {
  channels = one 1 channel;
  contacts = one 1 (alice 1);
  contact_addresses = no_table;
  groups = no_table;
  group_members = no_table;
  time_periods = no_table;
  time_period_entries = no_table;
  schedules = no_table;
  schedule_rotations = no_table;
  schedule_rotation_members = no_table;
  rules = one 4 rule;
  rule_escalations = one 9 escalation;
  rule_escalation_recipients = one 3 recipient;
  sources = no_table;
  updated_schedule_ids = [];
  change_available = false;
}

-- A new contact 2, the deletion of the contact 1, and the contact 3, which has no change.
abbrev changing : Runtime
changing = record runtime {
  contacts = record (one 1 (alice 1)) {
    elements = alice 1 ∷ alice 2 ∷ alice 3 ∷ [];
    entries = (1, 0) ∷ (3, 2) ∷ [];
    changes = (2, some 1) ∷ (1, none) ∷ [];
  };
}

-- The address 7 of the contact 1 is one of the contact 3 now: it is removed and added again.
abbrev address : ℕ → Address
address contact_id = record {
  id = 7;
  changed_at = Int.pos 10;
  contact_id = contact_id;
  kind = codes "email";
  address = [];
}

abbrev moving : Runtime
moving = record changing {
  contact_addresses = record (one 7 (address 1)) {
    elements = address 1 ∷ address 3 ∷ [];
    changes = (7, some 1) ∷ [];
  };
}

incremental_apply_pending-merged_example :
    has (
      lookup by_id
        (entries in_contact_addresses
          (incremental_apply_pending by_id in_contact_addresses address_callbacks moving).1)
        7)
    ≡ true
unfolding lookup merged apply_changes put delete address_callbacks pointer read load assign modify
incremental_apply_pending-merged_example =
    incremental_apply_pending-merged by_id in_contact_addresses address_callbacks eq_IsKey
      (record { table-with_table = λ t s. refl }) address_callbacks-KeepsEntries moving 7 (refl, tt)
      refl

incremental_apply_pending_keeps_example :
    lookup by_id
      (entries in_contacts
        (incremental_apply_pending by_id in_contacts contact_callbacks changing).1)
      3
    ≡ some 2
unfolding lookup contact_callbacks
incremental_apply_pending_keeps_example =
    incremental_apply_pending_keeps by_id in_contacts contact_callbacks eq_IsKey
      (record { table-with_table = λ t s. refl })
      (copying-KeepsEntries in_contacts _ (record { table-with_table = λ t s. refl })) changing 3
      refl

incremental_apply_pending_deletes_example :
    lookup by_id
      (entries in_contacts
        (incremental_apply_pending by_id in_contacts contact_callbacks changing).1)
      1
    ≡ none
unfolding lookup contact_callbacks
incremental_apply_pending_deletes_example =
    incremental_apply_pending_deletes by_id in_contacts contact_callbacks eq_IsKey
      (record { table-with_table = λ t s. refl })
      (copying-KeepsEntries in_contacts _ (record { table-with_table = λ t s. refl })) changing 1
      (refl, (refl, tt)) refl

-- Contact 1 was deleted since the last synchronisation, and contact 2 is new.
abbrev rows : List (Row ℕ Contact)
rows =
    record { key = 2; element = alice 2; changed_at = Int.pos 11; deleted = false }
    ∷ record { key = 1; element = alice 1; changed_at = Int.pos 12; deleted = true }
    ∷ []

contacts_synchronised_example :
    has (
      pointer by_id in_contacts
        (apply_table by_id in_contacts contact_callbacks
          (fetch_table by_id some in_contacts (λ t. some rows) runtime).1)
        1)
    ≡ false
unfolding wanted decides pointer lookup
contacts_synchronised_example = contacts_synchronised (λ t. some rows) rows runtime 1 refl

abbrev channel_rows : List (Row ℕ Channel)
channel_rows = record { key = 1; element = channel; changed_at = Int.pos 20; deleted = false } ∷ []

abbrev nothing : {K A : Type 0} → Query K A
nothing t = some []

-- The query for the contacts fails.
abbrev database : Database
database = record {
  begins = true;
  channels = λ t. some channel_rows;
  contacts = λ t. none;
  contact_addresses = nothing;
  groups = nothing;
  group_members = nothing;
  schedules = nothing;
  schedule_rotations = nothing;
  schedule_rotation_members = nothing;
  time_periods = nothing;
  time_period_entries = nothing;
  rules = nothing;
  rule_escalations = nothing;
  rule_escalation_recipients = nothing;
  sources = nothing;
  is_location = λ zone. true;
  parse_rrule = λ text zone start. none;
}

update_from_database_loses_example :
    (r : Runtime) × (update_from_database database debug_verify runtime ≡ some (false, r))
    × (live r ≡ live runtime)
    × (r.channels.changed_at ≡ some (Int.pos 20))
unfolding last_changed
update_from_database_loses_example =
    update_from_database_loses database debug_verify runtime channel_rows refl refl refl

abbrev broken : Database
broken = record database { begins = false }

-- The configuration after the database could not be reached.
abbrev unreached : Runtime
unreached = Update.drop_changes (Update.drop_changes (record changing { change_available = false }))

update_from_database_failed_example : live unreached ≡ live changing
unfolding update_from_database Update.fetch_from_database Update.apply_fetched Update.drop_changes
update_from_database_failed_example =
    update_from_database_failed broken debug_verify changing unreached refl

-- The same with a second recipient of the escalation.
abbrev recipients : Runtime
recipients = record runtime {
  rule_escalations = one 9 (record escalation { recipients = 0 ∷ 1 ∷ [] });
  rule_escalation_recipients = record (one 3 recipient) {
    elements = recipient ∷ record recipient { id = 5 } ∷ [];
    entries = (3, 0) ∷ (5, 1) ∷ [];
  };
}

remove_recipient_removes_every_example :
    ((remove_recipient 0 recipients).0 ≡ true)
    × (read in_rule_escalations (remove_recipient 0 recipients).1 0
        ≡ some (record escalation { recipients = [] }))
unfolding read load escalation_pointer escalation_of_rules lookup
remove_recipient_removes_every_example =
    remove_recipient_removes_every recipients 0 0 recipient
      (record escalation { recipients = 0 ∷ 1 ∷ [] }) refl refl refl
      ((recipient, refl, refl), ((record recipient { id = 5 }, refl, refl), tt))

debug_verify_contact_example :
    (escalation.rule_id ≡ 4)
    × (recipient.escalation_id ≡ 9)
    × (contact : Contact) × (read in_contacts runtime 0 ≡ some contact)
    × (contact.id ≡ 1)
    × (pointer by_id in_contacts runtime contact.id ≡ some 0)
    × (channel : Pointer) × (pointer by_id in_channels runtime contact.default_channel_id
        ≡ some channel)
unfolding read load pointer lookup debug_verify Verify.verify_channel Verify.verify_contact
    Verify.verify_rule Verify.verify_escalation Verify.verify_recipient Verify.verify_target
    Verify.verify_address_of
debug_verify_contact_example =
    debug_verify_contact runtime 4 9 0 0 0 rule escalation recipient 0 refl (here refl) refl
      (here refl) refl (here refl) refl refl
