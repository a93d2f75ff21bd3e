-- ===== src/Recipient/Recipients.antt =====
-- internal/recipient/recipient.go and schedule.go: recipients and the keys that stand for them.
use icinga_notifications.Prelude.{
  ℕ, Bool, true, false, ◌&&◌, Option, none, some, List, [], ◌∷◌, ◌==◌, if◌then◌else◌,
}
use icinga_notifications.Prelude.Int.{ℤ}
use icinga_notifications.Prelude.Bytes.{Bytes}
use icinga_notifications.Recipient.Rotations.{
  Contact, Group, Rotation, Resolver, update, get_contacts_at,
}

pub record Schedule : Type 0 where
  pub id : ℕ
  pub name : Bytes
  pub rotations : List Rotation
  pub rotation_resolver : Resolver

unfoldable pub refresh_rotations : Schedule → Schedule
refresh_rotations s = record s { rotation_resolver = update s.rotations }

pub data Recipient : Type 0 where
  of_contact : Contact → Recipient
  of_group : Group → Recipient
  of_schedule : Schedule → Recipient

-- GetContactsAt of the three implementations.
unfoldable pub contacts_at : Recipient → ℤ → Option (List Contact)
contacts_at (of_contact c) t = some (c ∷ [])
contacts_at (of_group g) t = some g.members
contacts_at (of_schedule s) t = get_contacts_at s.rotation_resolver t

pub record Key : Type 0 where
  pub contact_id : Option ℕ
  pub group_id : Option ℕ
  pub schedule_id : Option ℕ

abbrev nonzero : ℕ → Option ℕ
nonzero n = if n == 0 then none else some n

unfoldable pub to_key : Recipient → Key
to_key (of_contact c) = record { contact_id = nonzero c.id; group_id = none; schedule_id = none }
to_key (of_group g) = record { contact_id = none; group_id = nonzero g.id; schedule_id = none }
to_key (of_schedule s) = record { contact_id = none; group_id = none; schedule_id = nonzero s.id }

abbrev same_id : Option ℕ → Option ℕ → Bool
same_id none none = true
same_id (some a) (some b) = a == b
same_id _ _ = false

-- a == b on keys
unfoldable pub key_eq : Key → Key → Bool
key_eq a b =
    same_id a.contact_id b.contact_id
    && same_id a.group_id b.group_id
    && same_id a.schedule_id b.schedule_id
