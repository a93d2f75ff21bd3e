-- ===== src/Runtime/Pending/Periods.antt =====
-- internal/config/timeperiod.go and source.go: the callbacks of the synchronisation.
use icinga_notifications.Prelude.{
  ℕ, Bool, true, false, Option, none, some, List, [], ◌∷◌, ◌++◌, ◌==◌, if◌then◌else◌,
}
use icinga_notifications.TimePeriod.Entries.{Entry}
use icinga_notifications.Runtime.Maps.{put, delete}
use icinga_notifications.Runtime.Tables.{Pointer}
use icinga_notifications.Runtime.Apply.{Callbacks}
use icinga_notifications.Runtime.Elements.{icinga2, SourceType}
use icinga_notifications.Runtime.State.{
  Runtime, by_id, in_time_periods, in_time_period_entries, in_schedule_rotation_members, in_sources,
  pointer, read, assign, apply_table, delete_where, copying,
}

unfoldable pub time_period_callbacks : Callbacks Runtime
unfolding copying
time_period_callbacks =
    copying in_time_periods (λ u t. record t { changed_at = u.changed_at; name = u.name })

-- member.TimePeriodEntries[id] = p; an assignment to a nil map panics, which is the failure here.
unfoldable pub set_entry : ℕ → Pointer → Pointer → Runtime → Bool × Runtime
unfolding read assign put
set_entry id p member r = elim (read in_schedule_rotation_members r member) [
  | none ↦ (false, r)
  | some m ↦ elim m.entries [
    | none ↦ (false, r)
    | some entries ↦ (
      true,
      assign in_schedule_rotation_members member
          (λ m. record m { entries = some (put by_id id p entries) }) r,
    )
  ]
]

-- The entry stays in its time period where the rotation member is unknown.
unfoldable pub create_entry : Pointer → Runtime → Bool × Runtime
unfolding read pointer assign set_entry
create_entry p r = elim (read in_time_period_entries r p) [
  | none ↦ (false, r)
  | some entry ↦ elim (pointer by_id in_time_periods r entry.time_period_id) [
    | none ↦ (false, r)
    | some period ↦
        let r' =
          assign in_time_periods period (λ t. record t { entries = t.entries ++ p ∷ [] }) r in
        elim entry.rotation_member_id [
          | none ↦ (true, r')
          | some id ↦ elim (pointer by_id in_schedule_rotation_members r' id) [
            | none ↦ (false, r')
            | some member ↦ set_entry entry.id p member r'
          ]
        ]
  ]
]

unfoldable pub remove_from_period : Entry → Runtime → Runtime
unfolding pointer assign delete_where
remove_from_period entry r = elim (pointer by_id in_time_periods r entry.time_period_id) [
  | none ↦ r
  | some period ↦
      assign in_time_periods period
        (λ t. record t {
          entries = delete_where r.time_period_entries (λ e. e.id == entry.id) t.entries;
        })
        r
]

abbrev pub delete_id : ℕ → Option (List (ℕ × Pointer)) → Option (List (ℕ × Pointer))
delete_id id none = none
delete_id id (some entries) = some (delete by_id id entries)

unfoldable pub remove_from_member : Entry → Runtime → Runtime
unfolding pointer assign delete
remove_from_member entry r = elim entry.rotation_member_id [
  | none ↦ r
  | some id ↦ elim (pointer by_id in_schedule_rotation_members r id) [
    | none ↦ r
    | some member ↦
        assign in_schedule_rotation_members member
          (λ m. record m { entries = delete_id entry.id m.entries }) r
  ]
]

unfoldable pub remove_entry : Pointer → Runtime → Bool × Runtime
unfolding read remove_from_period remove_from_member
remove_entry p r = elim (read in_time_period_entries r p) [
  | none ↦ (false, r)
  | some entry ↦ (true, remove_from_member entry (remove_from_period entry r))
]

unfoldable pub entry_callbacks : Callbacks Runtime
unfolding create_entry remove_entry
entry_callbacks = record { create = some create_entry; update = none; remove = some remove_entry }

unfoldable pub apply_pending_time_periods : Runtime → Runtime
unfolding apply_table time_period_callbacks entry_callbacks
apply_pending_time_periods r =
    apply_table by_id in_time_period_entries entry_callbacks
      (apply_table by_id in_time_periods time_period_callbacks r)

abbrev pub is_icinga2 : SourceType → Bool
is_icinga2 icinga2 = true
is_icinga2 _ = false

-- EventStreamLaunchFunc starts a client, which can be cancelled.
unfoldable pub source_callbacks : Callbacks Runtime
unfolding assign
source_callbacks = record {
  create = some (λ p r. (
    true,
    assign in_sources p (λ s. record s { cancel = if is_icinga2 s.kind then true else s.cancel }) r,
  ));
  update = none;
  remove = some (λ p r. (
    true,
    assign in_sources p (λ s. record s { cancel = if is_icinga2 s.kind then false else s.cancel })
        r,
  ));
}

unfoldable pub apply_pending_sources : Runtime → Runtime
unfolding apply_table source_callbacks
apply_pending_sources = apply_table by_id in_sources source_callbacks
