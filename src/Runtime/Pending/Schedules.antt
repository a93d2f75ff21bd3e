-- ===== src/Runtime/Pending/Schedules.antt =====
-- internal/config/schedule.go: the callbacks of the synchronisation.
use icinga_notifications.Prelude.{
  ℕ, Bool, true, false, Option, none, some, List, [], ◌∷◌, ◌++◌, Result, ok, err, ◌==◌,
  if◌then◌else◌,
}
use icinga_notifications.Recipient.Rotations.{Rotation, update}
use icinga_notifications.Rule.Escalation.{add_id}
use icinga_notifications.Runtime.Tables.{Pointer}
use icinga_notifications.Runtime.Apply.{
  Callbacks, UpdateError, remove_and_add_instead, callback_failed,
}
use icinga_notifications.Runtime.State.{
  Runtime, by_id, in_contacts, in_groups, in_schedules, in_schedule_rotations,
  in_schedule_rotation_members, pointer, read, assign, apply_table, delete_where, copying,
}

-- updatedScheduleIds[id] = struct{}{}
unfoldable pub mark_updated : ℕ → Runtime → Runtime
unfolding add_id
mark_updated id r = record r { updated_schedule_ids = add_id id r.updated_schedule_ids }

unfoldable pub schedule_callbacks : Callbacks Runtime
unfolding copying
schedule_callbacks =
    copying in_schedules (λ u s. record s { changed_at = u.changed_at; name = u.name })

unfoldable pub create_rotation : Pointer → Runtime → Bool × Runtime
unfolding read pointer assign mark_updated
create_rotation p r = elim (read in_schedule_rotations r p) [
  | none ↦ (false, r)
  | some rotation ↦ elim (pointer by_id in_schedules r rotation.schedule_id) [
    | none ↦ (false, r)
    | some schedule ↦ (
      true,
      mark_updated rotation.schedule_id
          (assign in_schedules schedule (λ s. record s { rotations = s.rotations ++ p ∷ [] }) r),
    )
  ]
]

unfoldable pub update_rotation :
    Pointer → Pointer → Runtime → Result UpdateError (Unit {0}) × Runtime
unfolding read assign mark_updated
update_rotation old new r = elim (read in_schedule_rotations r old) [
  | none ↦ (err callback_failed, r)
  | some current ↦ elim (read in_schedule_rotations r new) [
    | none ↦ (err callback_failed, r)
    | some changed ↦
        if current.schedule_id == changed.schedule_id
        then (
          ok tt,
          mark_updated current.schedule_id (
              assign in_schedule_rotations old
                (λ c. record c {
                  changed_at = changed.changed_at;
                  actual_handoff = changed.actual_handoff;
                  priority = changed.priority;
                  name = changed.name;
                })
                r),
        )
        else (err remove_and_add_instead, r)
  ]
]

unfoldable pub remove_rotation : Pointer → Runtime → Bool × Runtime
unfolding read pointer assign mark_updated delete_where
remove_rotation p r = elim (read in_schedule_rotations r p) [
  | none ↦ (false, r)
  | some rotation ↦ elim (pointer by_id in_schedules r rotation.schedule_id) [
    | none ↦ (true, r)
    | some schedule ↦ (
      true,
      mark_updated rotation.schedule_id (
          assign in_schedules schedule
            (λ s. record s {
              rotations = delete_where r.schedule_rotations (λ x. x.id == rotation.id) s.rotations;
            })
            r),
    )
  ]
]

unfoldable pub rotation_callbacks : Callbacks Runtime
unfolding create_rotation update_rotation remove_rotation
rotation_callbacks = record {
  create = some create_rotation;
  update = some update_rotation;
  remove = some remove_rotation;
}

-- newElement.Contact = r.Contacts[id], which must be there if the id is valid.
unfoldable pub resolve_contact : Pointer → Option ℕ → Runtime → Bool × Runtime
unfolding pointer assign
resolve_contact p none r = (true, r)
resolve_contact p (some id) r = elim (pointer by_id in_contacts r id) [
  | none ↦ (false, r)
  | some contact ↦
      (true, assign in_schedule_rotation_members p (λ m. record m { contact = some contact }) r)
]

unfoldable pub resolve_group : Pointer → Option ℕ → Runtime → Bool × Runtime
unfolding pointer assign
resolve_group p none r = (true, r)
resolve_group p (some id) r = elim (pointer by_id in_groups r id) [
  | none ↦ (false, r)
  | some group ↦
      (true, assign in_schedule_rotation_members p (λ m. record m { contact_group = some group }) r)
]

abbrev pub and_then : Bool × Runtime → (Runtime → Bool × Runtime) → Bool × Runtime
and_then (false, r) f = (false, r)
and_then (true, r) f = f r

-- The member stays in its rotation where its contact or group is unknown.
unfoldable pub create_member : Pointer → Runtime → Bool × Runtime
unfolding read pointer assign mark_updated resolve_contact resolve_group
create_member p r = elim (read in_schedule_rotation_members r p) [
  | none ↦ (false, r)
  | some member ↦ elim (pointer by_id in_schedule_rotations r member.rotation_id) [
    | none ↦ (false, r)
    | some at ↦ elim (read in_schedule_rotations r at) [
      | none ↦ (false, r)
      | some rotation ↦
          and_then
            (and_then
              (resolve_contact p member.contact_id (
                mark_updated rotation.schedule_id (
                  assign in_schedule_rotations at (λ x. record x { members = x.members ++ p ∷ [] })
                    r)))
              (resolve_group p member.contact_group_id))
            (λ r'. (
              true,
              assign in_schedule_rotation_members p (λ m. record m { entries = some [] }) r',
            ))
    ]
  ]
]

unfoldable pub remove_member : Pointer → Runtime → Bool × Runtime
unfolding read pointer assign mark_updated delete_where
remove_member p r = elim (read in_schedule_rotation_members r p) [
  | none ↦ (false, r)
  | some member ↦ elim (pointer by_id in_schedule_rotations r member.rotation_id) [
    | none ↦ (true, r)
    | some at ↦ elim (read in_schedule_rotations r at) [
      | none ↦ (true, r)
      | some rotation ↦ (
        true,
        mark_updated rotation.schedule_id (
            assign in_schedule_rotations at
              (λ x. record x {
                members =
                    delete_where r.schedule_rotation_members (λ m. m.id == member.id) x.members;
              })
              r),
      )
    ]
  ]
]

unfoldable pub member_callbacks : Callbacks Runtime
unfolding create_member remove_member
member_callbacks = record {
  create = some create_member;
  update = none;
  remove = some remove_member;
}

-- The rotations of a schedule as values.
unfoldable pub rotation_values : Runtime → List Pointer → List Rotation
unfolding read
rotation_values r [] = []
rotation_values r (p ∷ ps) =
    let rest = rotation_values r ps in
    elim (read in_schedule_rotations r p) [
      | none ↦ rest
      | some x ↦
          record {
            id = x.id;
            schedule_id = x.schedule_id;
            actual_handoff = x.actual_handoff;
            priority = x.priority;
            name = x.name;
            members = [];
          }
          ∷ rest
    ]

-- RefreshRotations of a schedule of the live configuration. One that is not there is a nil pointer, which the
-- code dereferences: that panic is not modelled, and the schedule is passed over.
unfoldable pub refresh_schedule : ℕ → Runtime → Runtime
unfolding pointer assign rotation_values
refresh_schedule id r = elim (pointer by_id in_schedules r id) [
  | none ↦ r
  | some p ↦
      assign in_schedules p (λ s. record s { resolver = update (rotation_values r s.rotations) }) r
]

unfoldable pub refresh_schedules : List ℕ → Runtime → Runtime
unfolding refresh_schedule
refresh_schedules [] r = r
refresh_schedules (id ∷ ids) r = refresh_schedules ids (refresh_schedule id r)

unfoldable pub apply_pending_schedules : Runtime → Runtime
unfolding apply_table schedule_callbacks rotation_callbacks member_callbacks refresh_schedules
apply_pending_schedules r =
    let r1 =
      apply_table by_id in_schedules schedule_callbacks (record r { updated_schedule_ids = [] }) in
    let r2 = apply_table by_id in_schedule_rotations rotation_callbacks r1 in
    let r3 = apply_table by_id in_schedule_rotation_members member_callbacks r2 in
    refresh_schedules r3.updated_schedule_ids r3
