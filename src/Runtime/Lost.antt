-- ===== src/Runtime/Lost.antt =====
-- internal/config/runtime.go, UpdateFromDatabase: what a synchronisation that fails has fetched.
use icinga_notifications.Prelude.{
  ℕ, ◌≡◌, refl, ap, Bool, true, false, Option, none, some, List, [], ◌∷◌, ◌∙◌,
}
use icinga_notifications.Runtime.Tables.{Row, has_time, fetch_rows, incremental_fetch}
use icinga_notifications.Runtime.Apply.{Place}
use icinga_notifications.Runtime.Elements.{same_member, Channel}
use icinga_notifications.Runtime.Fetched.{last_changed, changed_at-fetch_rows}
use icinga_notifications.Runtime.State.{
  Runtime, by_id, in_channels, in_contacts, in_contact_addresses, in_groups, in_group_members,
  in_schedules, in_schedule_rotations, in_schedule_rotation_members, in_time_periods,
  in_time_period_entries, in_rules, in_rule_escalations, in_rule_escalation_recipients, in_sources,
}
use icinga_notifications.Runtime.Validated.{
  init_channel, init_period, init_entry, init_rule, init_escalation,
}
use icinga_notifications.Runtime.Pending.Update.{
  Database, Query, fetch_table, until_failure, fetch_functions, fetch_from_database, drop_table,
  drop_changes, apply_fetched, update_from_database,
}
use icinga_notifications.Runtime.Failing.{live, start, update_from_database_failed}

fetch_table-some :
    {K A : Type 0} (same : K → K → Bool) (init : A → Option A) (place : Place Runtime K A)
    (select : Query K A) (r : Runtime) (rows : List (Row K A))
    → select (place.table r).changed_at ≡ some rows
    → fetch_table same init place select r ≡ (
      true,
      place.with_table
          (fetch_rows same init
            (has_time (place.table r).changed_at)
            rows
            (record (place.table r) { changes = [] }))
          r,
    )
unfolding fetch_table
fetch_table-some same init place select r rows h = rw (h, incremental_fetch) refl

fetch_table-none :
    {K A : Type 0} (same : K → K → Bool) (init : A → Option A) (place : Place Runtime K A)
    (select : Query K A) (r : Runtime)
    → select (place.table r).changed_at ≡ none
    → fetch_table same init place select r ≡ (false, place.with_table (place.table r) r)
unfolding fetch_table
fetch_table-none same init place select r h = rw (h, incremental_fetch) refl

until_failure_second :
    (f g : Runtime → Bool × Runtime) (fs : List (Runtime → Bool × Runtime)) (r r1 r2 : Runtime)
    → f r ≡ (true, r1)
    → g r1 ≡ (false, r2)
    → until_failure (f ∷ g ∷ fs) r ≡ (false, r2)
unfolding until_failure
until_failure_second f g fs r r1 r2 first second = rw (first, second) refl

-- The functions after the first two.
abbrev fetch_rest : Database → List (Runtime → Bool × Runtime)
fetch_rest db =
    fetch_table by_id some in_contact_addresses db.contact_addresses
    ∷ fetch_table by_id some in_groups db.groups
    ∷ fetch_table same_member some in_group_members db.group_members
    ∷ fetch_table by_id some in_schedules db.schedules
    ∷ fetch_table by_id some in_schedule_rotations db.schedule_rotations
    ∷ fetch_table by_id some in_schedule_rotation_members db.schedule_rotation_members
    ∷ fetch_table by_id init_period in_time_periods db.time_periods
    ∷ fetch_table by_id (init_entry db.is_location db.parse_rrule) in_time_period_entries
        db.time_period_entries
    ∷ fetch_table by_id init_rule in_rules db.rules
    ∷ fetch_table by_id init_escalation in_rule_escalations db.rule_escalations
    ∷ fetch_table by_id some in_rule_escalation_recipients db.rule_escalation_recipients
    ∷ fetch_table by_id some in_sources db.sources
    ∷ []

fetch_from_database_second :
    (db : Database) (r : Runtime) (rows : List (Row ℕ Channel))
    → db.begins ≡ true
    → db.channels r.channels.changed_at ≡ some rows
    → db.contacts r.contacts.changed_at ≡ none
    → (r' : Runtime) × (fetch_from_database db r ≡ (false, r'))
      × (r'.channels
          ≡ fetch_rows by_id init_channel
              (has_time r.channels.changed_at)
              rows
              (drop_table r.channels))
unfolding fetch_from_database fetch_functions
fetch_from_database_second db r rows begins channels contacts =
    let r1 =
      in_channels.with_table
        (fetch_rows by_id init_channel (has_time r.channels.changed_at) rows
          (drop_table r.channels))
        r in
    let r2 = in_contacts.with_table r.contacts r1 in
    (
      r2,
      rw (begins) (
          until_failure_second (fetch_table by_id init_channel in_channels db.channels)
            (fetch_table by_id some in_contacts db.contacts) (fetch_rest db) r r1 r2
            (fetch_table-some by_id init_channel in_channels db.channels r rows channels)
            (fetch_table-none by_id some in_contacts db.contacts r1 contacts)),
      refl,
    )

-- The changes of a synchronisation that fails are lost: if the channels were fetched, and the query for
-- the contacts then fails, the live configuration is as before, but the next synchronisation
-- asks for channels that changed after the last of the fetched ones.
pub update_from_database_loses :
    (db : Database) (verify : Runtime → Bool) (r : Runtime) (rows : List (Row ℕ Channel))
    → db.begins ≡ true
    → db.channels r.channels.changed_at ≡ some rows
    → db.contacts r.contacts.changed_at ≡ none
    → (r' : Runtime) × (update_from_database db verify r ≡ some (false, r'))
      × (live r' ≡ live r)
      × (r'.channels.changed_at ≡ last_changed rows r.channels.changed_at)
unfolding update_from_database apply_fetched drop_changes
update_from_database_loses db verify r rows begins channels contacts =
    let (r', failed, is) = fetch_from_database_second db (start r) rows begins channels contacts in
    let result : update_from_database db verify r ≡ some (false, drop_changes r') =
      rw (failed) refl in
    (
      drop_changes r',
      result,
      update_from_database_failed db verify r (drop_changes r') result,
      ap (λ t. t.changed_at) is
          ∙ changed_at-fetch_rows by_id init_channel (has_time r.channels.changed_at) rows
              (record r.channels { changes = [] }),
    )
