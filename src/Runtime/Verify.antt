-- ===== src/Runtime/Verify.antt =====
-- internal/config/verify.go: debugVerify. True is a nil error. A table's map is never nil here, and a
-- pointer that leads nowhere stands for a nil pointer.
use icinga_notifications.Prelude.{ℕ, Bool, true, false, ◌&&◌, Option, none, some, ◌==◌, all}
use icinga_notifications.Runtime.Tables.{Pointer}
use icinga_notifications.Runtime.Elements.{RecipientElement, to_contact, to_group, to_schedule}
use icinga_notifications.Runtime.State.{
  Runtime, by_id, in_channels, in_contacts, in_contact_addresses, in_groups, in_time_periods,
  in_time_period_entries, in_schedules, in_schedule_rotations, in_schedule_rotation_members,
  in_rules, in_rule_escalations, in_rule_escalation_recipients, pointer, read,
}

-- other == x
abbrev pub points_to : Option Pointer → Pointer → Bool
points_to none p = false
points_to (some q) p = q == p

abbrev pub is_some : {A : Type 0} → Option A → Bool
is_some none = false
is_some (some _) = true

-- Valid implies non-nil.
abbrev pub present : {A B : Type 0} → Option A → Option B → Bool
present none y = true
present (some _) y = is_some y

-- The Int64 of a types.Int.
abbrev pub int_of : Option ℕ → ℕ
int_of none = 0
int_of (some n) = n

unfoldable pub verify_channel : Runtime → ℕ → Pointer → Bool
unfolding read pointer
verify_channel r id p = elim (read in_channels r p) [
  | none ↦ false
  | some channel ↦ channel.id == id && points_to (pointer by_id in_channels r id) p
]

unfoldable pub verify_contact_address : Runtime → ℕ → Pointer → Bool
unfolding read pointer
verify_contact_address r id p = elim (read in_contact_addresses r p) [
  | none ↦ false
  | some address ↦ address.id == id && points_to (pointer by_id in_contact_addresses r id) p
]

-- The loop's body over the addresses of a contact.
unfoldable pub verify_address_of : Runtime → ℕ → Pointer → Bool
unfolding read verify_contact_address
verify_address_of r id p = elim (read in_contact_addresses r p) [
  | none ↦ false
  | some address ↦ address.contact_id == id && verify_contact_address r address.id p
]

unfoldable pub verify_contact : Runtime → ℕ → Pointer → Bool
unfolding read pointer verify_address_of
verify_contact r id p = elim (read in_contacts r p) [
  | none ↦ false
  | some contact ↦
      contact.id == id
      && (points_to (pointer by_id in_contacts r id) p
          && (is_some (pointer by_id in_channels r contact.default_channel_id)
              && all (λ a. verify_address_of r id a) contact.addresses))
]

-- The loop's body over the members of a group.
unfoldable pub verify_member_of : Runtime → Pointer → Bool
unfolding read verify_contact
verify_member_of r p = elim (read in_contacts r p) [
  | none ↦ false
  | some member ↦ verify_contact r member.id p
]

unfoldable pub verify_group : Runtime → ℕ → Pointer → Bool
unfolding read pointer verify_member_of
verify_group r id p = elim (read in_groups r p) [
  | none ↦ false
  | some group ↦
      group.id == id
      && (points_to (pointer by_id in_groups r id) p
          && all (λ m. verify_member_of r m) group.members)
]

unfoldable pub verify_time_period : Runtime → ℕ → Pointer → Bool
unfolding read pointer
verify_time_period r id p = elim (read in_time_periods r p) [
  | none ↦ false
  | some period ↦
      period.id == id
      && (points_to (pointer by_id in_time_periods r id) p
          && all (λ e. is_some (read in_time_period_entries r e)) period.entries)
]

-- A check of what a pointer leads to, if it is not nil.
abbrev pub if_present : Option Pointer → (Pointer → Bool) → Bool
if_present none check = true
if_present (some p) check = check p

unfoldable pub verify_rotation_member : Runtime → Pointer → Bool
unfolding read verify_contact verify_group
verify_rotation_member r p = elim (read in_schedule_rotation_members r p) [
  | none ↦ false
  | some member ↦
      if_present member.contact (verify_contact r (int_of member.contact_id))
      && if_present member.contact_group (verify_group r (int_of member.contact_group_id))
]

unfoldable pub verify_rotation : Runtime → Pointer → Bool
unfolding read verify_rotation_member
verify_rotation r p = elim (read in_schedule_rotations r p) [
  | none ↦ false
  | some rotation ↦ all (λ m. verify_rotation_member r m) rotation.members
]

unfoldable pub verify_schedule : Runtime → ℕ → Pointer → Bool
unfolding read pointer verify_rotation
verify_schedule r id p = elim (read in_schedules r p) [
  | none ↦ false
  | some schedule ↦
      schedule.id == id
      && (points_to (pointer by_id in_schedules r id) p
          && all (λ x. verify_rotation r x) schedule.rotations)
]

-- The switch on the type of the recipient.
unfoldable pub verify_target : Runtime → RecipientElement → Bool
unfolding verify_contact verify_group verify_schedule
verify_target r er = elim er.recipient [
  | some (to_contact p) ↦ verify_contact r (int_of er.key.contact_id) p
  | some (to_group p) ↦ verify_group r (int_of er.key.group_id) p
  | some (to_schedule p) ↦ verify_schedule r (int_of er.key.schedule_id) p
  | none ↦ false
]

unfoldable pub verify_recipient : Runtime → ℕ → Pointer → Bool
unfolding read verify_target
verify_recipient r escalation p = elim (read in_rule_escalation_recipients r p) [
  | none ↦ false
  | some er ↦ er.escalation_id == escalation && verify_target r er
]

-- The loop's body over the escalations of a rule.
unfoldable pub verify_escalation : Runtime → ℕ → ℕ × Pointer → Bool
unfolding read verify_recipient
verify_escalation r rule (id, p) = elim (read in_rule_escalations r p) [
  | none ↦ false
  | some escalation ↦
      escalation.id == id
      && (escalation.rule_id == rule
          && (present escalation.condition_expr escalation.condition
              && all (λ x. verify_recipient r escalation.id x) escalation.recipients))
]

unfoldable pub verify_rule : Runtime → ℕ → Pointer → Bool
unfolding read pointer verify_time_period verify_escalation
verify_rule r id p = elim (read in_rules r p) [
  | none ↦ false
  | some rule ↦
      rule.id == id
      && (points_to (pointer by_id in_rules r id) p
          && (present rule.time_period_id rule.time_period
              && (if_present rule.time_period (verify_time_period r (int_of rule.time_period_id))
                  && (present rule.object_filter_expr rule.object_filter
                      && all (λ e. verify_escalation r rule.id e) rule.escalations))))
]

unfoldable pub debug_verify : Runtime → Bool
unfolding verify_channel verify_contact verify_contact_address verify_group verify_time_period
    verify_schedule verify_rule
debug_verify r =
    all {A = ℕ × Pointer} (λ e. verify_channel r e.0 e.1) r.channels.entries
    && (all {A = ℕ × Pointer} (λ e. verify_contact r e.0 e.1) r.contacts.entries
        && (all {A = ℕ × Pointer} (λ e. verify_contact_address r e.0 e.1)
              r.contact_addresses.entries
            && (all {A = ℕ × Pointer} (λ e. verify_group r e.0 e.1) r.groups.entries
                && (all {A = ℕ × Pointer} (λ e. verify_time_period r e.0 e.1) r.time_periods.entries
                    && (all {A = ℕ × Pointer} (λ e. verify_schedule r e.0 e.1) r.schedules.entries
                        && all {A = ℕ × Pointer} (λ e. verify_rule r e.0 e.1) r.rules.entries)))))
