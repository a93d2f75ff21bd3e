-- ===== src/Runtime/Failing.antt =====
-- internal/config/runtime.go, UpdateFromDatabase: a synchronisation that fails.
use icinga_notifications.Prelude.{
  ℕ, ◌≡◌, refl, Bool, Bool-cases, Option-cases, true, false, inl, inr, Option, none, some, List, [],
  ◌∷◌, ◌∙◌, All, if◌then◌else◌,
}
use icinga_notifications.Runtime.Tables.{Pointer, Table, has_time, incremental_fetch}
use icinga_notifications.Runtime.Elements.{MemberKey, same_member}
use icinga_notifications.Runtime.Fetched.{entries-fetch_rows}
use icinga_notifications.Runtime.State.{Runtime, by_id}
use icinga_notifications.Runtime.Validated.{
  init_channel, init_period, init_entry, init_rule, init_escalation,
}
use icinga_notifications.Runtime.Pending.Update.{
  Database, Query, fetch_table, until_failure, fetch_functions, fetch_from_database, drop_changes,
  apply_pending, verified, apply_fetched, update_from_database,
}

-- The maps of the live configuration.
abbrev pub Live : Type 0
Live = List (List (ℕ × Pointer)) × List (MemberKey × Pointer)

abbrev pub live : Runtime → Live
live r = (
  r.channels.entries ∷ r.contacts.entries ∷ r.contact_addresses.entries ∷ r.groups.entries
      ∷ r.time_periods.entries ∷ r.time_period_entries.entries ∷ r.schedules.entries
      ∷ r.schedule_rotations.entries ∷ r.schedule_rotation_members.entries ∷ r.rules.entries
      ∷ r.rule_escalations.entries ∷ r.rule_escalation_recipients.entries ∷ r.sources.entries ∷ [],
  r.group_members.entries,
)

entries-incremental_fetch :
    {K A : Type 0} (same : K → K → Bool) (init : A → Option A) (select : Query K A) (t : Table K A)
    → (incremental_fetch same init select t).1.entries ≡ t.entries
unfolding incremental_fetch
entries-incremental_fetch same init select t = elim (Option-cases (select t.changed_at)) [
  | inl e ↦ rw (e, incremental_fetch) refl
  | inr (rows, e) ↦
      rw (e, incremental_fetch)
        (entries-fetch_rows same init (has_time t.changed_at) rows (record t { changes = [] }))
]

KeepsLive : (Runtime → Bool × Runtime) → Type 0
KeepsLive f = (r : Runtime) → live (f r).1 ≡ live r

until_failure-live :
    (fs : List (Runtime → Bool × Runtime)) → All KeepsLive fs → KeepsLive (until_failure fs)
unfolding until_failure KeepsLive
until_failure-live [] k r = refl
until_failure-live (f ∷ fs) k r = elim (Bool-cases (f r).0) [
  | inl e ↦ rw (e) (until_failure-live fs k.1 (f r).1 ∙ k.0 r)
  | inr e ↦ rw (e) (k.0 r)
]

fetch_functions-live : (db : Database) → All KeepsLive (fetch_functions db)
unfolding fetch_functions KeepsLive fetch_table
fetch_functions-live db = (
  (λ r. rw (entries-incremental_fetch by_id init_channel db.channels r.channels) refl),
  (
    (λ r. rw (entries-incremental_fetch by_id some db.contacts r.contacts) refl),
    (
      (λ r.
          rw (entries-incremental_fetch by_id some db.contact_addresses r.contact_addresses) refl),
      (
        (λ r. rw (entries-incremental_fetch by_id some db.groups r.groups) refl),
        (
          (λ r.
              rw (entries-incremental_fetch same_member some db.group_members r.group_members)
                refl),
          (
            (λ r. rw (entries-incremental_fetch by_id some db.schedules r.schedules) refl),
            (
              (λ r.
                  rw
                    (entries-incremental_fetch by_id some db.schedule_rotations
                      r.schedule_rotations)
                    refl),
              (
                (λ r.
                    rw
                      (entries-incremental_fetch by_id some db.schedule_rotation_members
                        r.schedule_rotation_members)
                      refl),
                (
                  (λ r.
                      rw
                        (entries-incremental_fetch by_id init_period db.time_periods r.time_periods)
                        refl),
                  (
                    (λ r.
                        rw
                          (entries-incremental_fetch by_id
                            (init_entry db.is_location db.parse_rrule) db.time_period_entries
                            r.time_period_entries)
                          refl),
                    (
                      (λ r. rw (entries-incremental_fetch by_id init_rule db.rules r.rules) refl),
                      (
                        (λ r.
                            rw
                              (entries-incremental_fetch by_id init_escalation db.rule_escalations
                                r.rule_escalations)
                              refl),
                        (
                          (λ r.
                              rw
                                (entries-incremental_fetch by_id some db.rule_escalation_recipients
                                  r.rule_escalation_recipients)
                                refl),
                          (
                            (λ r.
                                rw (entries-incremental_fetch by_id some db.sources r.sources)
                                  refl),
                            tt,
                          ),
                        ),
                      ),
                    ),
                  ),
                ),
              ),
            ),
          ),
        ),
      ),
    ),
  ),
)

fetch_from_database-live :
    (db : Database) (r : Runtime) → live (fetch_from_database db r).1 ≡ live r
unfolding fetch_from_database KeepsLive
fetch_from_database-live db r = elim (Bool-cases db.begins) [
  | inl e ↦ rw (e) (until_failure-live (fetch_functions db) (fetch_functions-live db) r)
  | inr e ↦ rw (e) refl
]

-- The configuration before a synchronisation.
abbrev pub start : Runtime → Runtime
start r = drop_changes (record r { change_available = false })

not_failed :
    (available ok : Bool) (r r' : Runtime)
    → if◌then◌else◌ {A = Option (Bool × Runtime)} available
        (if◌then◌else◌ {A = Option (Bool × Runtime)} ok (some (true, r)) none)
        (some (true, r))
      ≡ some (false, r')
    → ⊥
not_failed true true r r' h = cc
not_failed true false r r' h = cc
not_failed false ok r r' h = cc

verified_true :
    (verify : Runtime → Bool) (r r' : Runtime) → verified verify r ≡ some (false, r') → ⊥
unfolding verified
verified_true verify r r' h = not_failed r.change_available (verify r) (drop_changes r) r' h

apply_fetched-live :
    (verify : Runtime → Bool) (fetched : Bool × Runtime) (r r' : Runtime)
    → live fetched.1 ≡ live r
    → apply_fetched verify fetched ≡ some (false, r')
    → live r' ≡ live r
unfolding apply_fetched drop_changes
apply_fetched-live verify (false, f) r r' l h = let same : drop_changes f ≡ r' = cc in rw (← same) l
apply_fetched-live verify (true, f) r r' l h = absurd (verified_true verify (apply_pending f) r' h)

-- A synchronisation that returns an error leaves the maps of the live configuration as they were.
pub update_from_database_failed :
    (db : Database) (verify : Runtime → Bool) (r r' : Runtime)
    → update_from_database db verify r ≡ some (false, r')
    → live r' ≡ live r
unfolding update_from_database drop_changes
update_from_database_failed db verify r r' h =
    apply_fetched-live verify (fetch_from_database db (start r)) r r'
      (fetch_from_database-live db (start r)) h
