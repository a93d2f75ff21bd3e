-- ===== src/Runtime/Pending/Contacts.antt =====
-- internal/config/channel.go, contact.go and group.go: the callbacks of the synchronisation.
use icinga_notifications.Prelude.{
  ◌+◌, Bool, true, false, none, some, [], ◌∷◌, ◌++◌, Result, ok, err, ◌==◌, if◌then◌else◌,
}
use icinga_notifications.Runtime.Tables.{Pointer}
use icinga_notifications.Runtime.Apply.{
  Callbacks, UpdateError, remove_and_add_instead, callback_failed,
}
use icinga_notifications.Runtime.Elements.{running, stopped, same_member}
use icinga_notifications.Runtime.State.{
  Runtime, by_id, in_channels, in_contacts, in_contact_addresses, in_groups, in_group_members,
  pointer, read, assign, apply_table, delete_where, copying, copy_fields,
}

-- Channel.Start, Restart and Stop, as far as the configuration is concerned.
unfoldable pub channel_callbacks : Callbacks Runtime
unfolding copy_fields assign
channel_callbacks = record {
  create = some (λ p r. (true, assign in_channels p (λ c. record c { plugin = running }) r));
  update = some (
      copy_fields in_channels (λ u c. record c {
        changed_at = u.changed_at;
        name = u.name;
        kind = u.kind;
        config = u.config;
        restarts = c.restarts + 1;
      }));
  remove = some (λ p r. (true, assign in_channels p (λ c. record c { plugin = stopped }) r));
}

unfoldable pub apply_pending_channels : Runtime → Runtime
unfolding apply_table channel_callbacks
apply_pending_channels = apply_table by_id in_channels channel_callbacks

unfoldable pub contact_callbacks : Callbacks Runtime
unfolding copying
contact_callbacks = copying in_contacts (λ u c. record c {
  changed_at = u.changed_at;
  full_name = u.full_name;
  username = u.username;
  default_channel_id = u.default_channel_id;
})

unfoldable pub create_address : Pointer → Runtime → Bool × Runtime
unfolding read pointer assign
create_address p r = elim (read in_contact_addresses r p) [
  | none ↦ (false, r)
  | some address ↦ elim (pointer by_id in_contacts r address.contact_id) [
    | none ↦ (false, r)
    | some contact ↦
        (true, assign in_contacts contact (λ c. record c { addresses = c.addresses ++ p ∷ [] }) r)
  ]
]

unfoldable pub update_address :
    Pointer → Pointer → Runtime → Result UpdateError (Unit {0}) × Runtime
unfolding read assign
update_address old new r = elim (read in_contact_addresses r old) [
  | none ↦ (err callback_failed, r)
  | some current ↦ elim (read in_contact_addresses r new) [
    | none ↦ (err callback_failed, r)
    | some changed ↦
        if current.contact_id == changed.contact_id
        then (
          ok tt,
          assign in_contact_addresses old
              (λ a. record a {
                changed_at = changed.changed_at;
                kind = changed.kind;
                address = changed.address;
              })
              r,
        )
        else (err remove_and_add_instead, r)
  ]
]

unfoldable pub remove_address : Pointer → Runtime → Bool × Runtime
unfolding read pointer assign delete_where
remove_address p r = elim (read in_contact_addresses r p) [
  | none ↦ (false, r)
  | some address ↦ elim (pointer by_id in_contacts r address.contact_id) [
    | none ↦ (true, r)
    | some contact ↦ (
      true,
      assign in_contacts contact
          (λ c. record c {
            addresses = delete_where r.contact_addresses (λ a. a.id == address.id) c.addresses;
          })
          r,
    )
  ]
]

unfoldable pub address_callbacks : Callbacks Runtime
unfolding create_address update_address remove_address
address_callbacks = record {
  create = some create_address;
  update = some update_address;
  remove = some remove_address;
}

unfoldable pub apply_pending_contacts : Runtime → Runtime
unfolding apply_table contact_callbacks address_callbacks
apply_pending_contacts r =
    apply_table by_id in_contact_addresses address_callbacks
      (apply_table by_id in_contacts contact_callbacks r)

unfoldable pub group_callbacks : Callbacks Runtime
unfolding copying
group_callbacks = copying in_groups (λ u g. record g { changed_at = u.changed_at; name = u.name })

unfoldable pub create_group_member : Pointer → Runtime → Bool × Runtime
unfolding read pointer assign
create_group_member p r = elim (read in_group_members r p) [
  | none ↦ (false, r)
  | some member ↦ elim (pointer by_id in_groups r member.group_id) [
    | none ↦ (false, r)
    | some group ↦ elim (pointer by_id in_contacts r member.contact_id) [
      | none ↦ (false, r)
      | some contact ↦
          (true, assign in_groups group (λ g. record g { members = g.members ++ contact ∷ [] }) r)
    ]
  ]
]

unfoldable pub remove_group_member : Pointer → Runtime → Bool × Runtime
unfolding read pointer assign delete_where
remove_group_member p r = elim (read in_group_members r p) [
  | none ↦ (false, r)
  | some member ↦ elim (pointer by_id in_groups r member.group_id) [
    | none ↦ (true, r)
    | some group ↦ (
      true,
      assign in_groups group
          (λ g. record g {
            members = delete_where r.contacts (λ c. c.id == member.contact_id) g.members;
          })
          r,
    )
  ]
]

-- A membership cannot change, since all of it is its key.
unfoldable pub group_member_callbacks : Callbacks Runtime
unfolding create_group_member remove_group_member
group_member_callbacks = record {
  create = some create_group_member;
  update = some (λ old new r. (err callback_failed, r));
  remove = some remove_group_member;
}

unfoldable pub apply_pending_groups : Runtime → Runtime
unfolding apply_table group_callbacks group_member_callbacks
apply_pending_groups r =
    apply_table same_member in_group_members group_member_callbacks
      (apply_table by_id in_groups group_callbacks r)
