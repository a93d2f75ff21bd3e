-- ===== src/Runtime/Addresses.antt =====
-- internal/config/contact.go: the callbacks of contact addresses, which can fail, leave the map of the live
-- addresses alone.
use icinga_notifications.Prelude.{◌≡◌, refl, subst, Bool-cases, Option-cases, inl, inr, ◌==◌}
use icinga_notifications.Runtime.Tables.{Pointer, modify}
use icinga_notifications.Runtime.Apply.{entries, call}
use icinga_notifications.Runtime.Merge.{KeepsEntries}
use icinga_notifications.Runtime.State.{
  Runtime, by_id, in_contacts, in_contact_addresses, pointer, read, assign,
}
use icinga_notifications.Runtime.Pending.Contacts.{
  create_address, update_address, remove_address, address_callbacks,
}

entries-create_address :
    (p : Pointer) (r : Runtime)
    → entries in_contact_addresses (create_address p r).1 ≡ entries in_contact_addresses r
unfolding create_address assign modify
entries-create_address p r = elim (Option-cases (read in_contact_addresses r p)) [
  | inl e ↦ rw (e, create_address) refl
  | inr (a, e) ↦ elim (Option-cases (pointer by_id in_contacts r a.contact_id)) [
    | inl f ↦ rw (e, f, create_address) refl
    | inr (c, f) ↦ rw (e, f, create_address) refl
  ]
]

entries-remove_address :
    (p : Pointer) (r : Runtime)
    → entries in_contact_addresses (remove_address p r).1 ≡ entries in_contact_addresses r
unfolding remove_address assign modify
entries-remove_address p r = elim (Option-cases (read in_contact_addresses r p)) [
  | inl e ↦ rw (e, remove_address) refl
  | inr (a, e) ↦ elim (Option-cases (pointer by_id in_contacts r a.contact_id)) [
    | inl f ↦ rw (e, f, remove_address) refl
    | inr (c, f) ↦ rw (e, f, remove_address) refl
  ]
]

entries-update_address :
    (old new : Pointer) (r : Runtime)
    → entries in_contact_addresses (update_address old new r).1 ≡ entries in_contact_addresses r
unfolding update_address assign modify
entries-update_address old new r = elim (Option-cases (read in_contact_addresses r old)) [
  | inl e ↦ rw (e, update_address) refl
  | inr (a, e) ↦ elim (Option-cases (read in_contact_addresses r new)) [
    | inl f ↦ rw (e, f, update_address) refl
    | inr (b, f) ↦ elim (Bool-cases (a.contact_id == b.contact_id)) [
      | inl g ↦ rw (e, f, g, update_address) refl
      | inr g ↦ rw (e, f, g, update_address) refl
    ]
  ]
]

pub address_callbacks-KeepsEntries : KeepsEntries in_contact_addresses address_callbacks
unfolding address_callbacks call
address_callbacks-KeepsEntries = record {
  create = entries-create_address;
  remove = entries-remove_address;
  update = λ f old new s h.
      let is : update_address ≡ f = cc in
      subst (λ g. entries in_contact_addresses (g old new s).1 ≡ entries in_contact_addresses s) is
        (entries-update_address old new s);
}
