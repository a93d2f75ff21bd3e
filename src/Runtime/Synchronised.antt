-- ===== src/Runtime/Synchronised.antt =====
-- internal/config: the elements of a table after its changes were fetched and applied.
use icinga_notifications.Prelude.{
  ℕ, ◌≡◌, refl, ap, subst, Option-cases, Bool, true, inl, inr, Option, some, List, [], err, ◌∙◌,
  ◌≢◌,
}
use icinga_notifications.Runtime.Maps.{IsKey, eq_IsKey, lookup}
use icinga_notifications.Runtime.Tables.{
  Pointer, Table, Row, modify, has_time, fetch_rows, incremental_fetch,
}
use icinga_notifications.Runtime.Apply.{
  Place, Callbacks, call, callback_failed, entries, incremental_apply_pending, no_counts,
}
use icinga_notifications.Runtime.Merge.{IsPlace, KeepsEntries, has}
use icinga_notifications.Runtime.Faulty
use icinga_notifications.Runtime.Faulty.{Succeeds}
use icinga_notifications.Runtime.Refine.{Distinct, merged, incremental_apply_pending-merged}
use icinga_notifications.Runtime.Fetched.{wanted, fetched, entries-fetch_rows, Distinct-fetch_rows}
use icinga_notifications.Runtime.Elements.{Contact}
use icinga_notifications.Runtime.State.{
  Runtime, by_id, in_contacts, pointer, read, assign, apply_table, copying, copy_fields,
}
use icinga_notifications.Runtime.Pending.Contacts.{contact_callbacks}
use icinga_notifications.Runtime.Pending.Update.{Query, fetch_table}

module _ {K A : Type 0} (same : K → K → Bool) (init : A → Option A) (place : Place Runtime K A)
    (callbacks : Callbacks Runtime) (key : IsKey same) (lens : IsPlace place)
    (keeps : KeepsEntries place callbacks) (succeeds : Succeeds callbacks)
    (flag : (r : Runtime) (b : Bool)
      → place.table (record r { change_available = b }) ≡ place.table r) where
  applied :
      (r : Runtime) (q : K)
      → Distinct same (place.table r).changes
      → has (pointer same place (apply_table same place callbacks r) q)
        ≡ merged (lookup same (place.table r).changes q) (has (pointer same place r q))
  unfolding apply_table pointer
  applied r q d =
      ap (λ t. has (lookup same t.entries q))
        (flag (incremental_apply_pending same place callbacks r).1 _)
      ∙ incremental_apply_pending-merged same place callbacks key lens keeps r q d (
          Faulty.apply_changes_kept same place callbacks succeeds (place.table r).changes r
            no_counts)

  table-fetch_table :
      (select : Query K A) (rows : List (Row K A)) (r : Runtime)
      → select (place.table r).changed_at ≡ some rows
      → place.table (fetch_table same init place select r).1
        ≡ fetch_rows same init
            (has_time (place.table r).changed_at)
            rows
            (record (place.table r) { changes = [] })
  unfolding fetch_table incremental_fetch
  table-fetch_table select rows r h =
      ap {A = Bool × Runtime} (λ x. place.table x.1)
        (ap {A = Bool × Table K A} (λ x. (x.0, place.with_table x.1 r)) (fetch_some h))
      ∙ lens.table-with_table _ r
    where
      fetch_some :
          select (place.table r).changed_at ≡ some rows
          → incremental_fetch same init select (place.table r) ≡ (
            true,
            fetch_rows same init
                (has_time (place.table r).changed_at)
                rows
                (record (place.table r) { changes = [] }),
          )
      fetch_some h = rw (h, incremental_fetch) refl

  pub synchronised :
      (select : Query K A) (rows : List (Row K A)) (r : Runtime) (q : K)
      → select (place.table r).changed_at ≡ some rows
      → has (
          pointer same place
            (apply_table same place callbacks (fetch_table same init place select r).1)
            q)
        ≡ wanted same init
            (has_time (place.table r).changed_at)
            rows
            q
            (has (pointer same place r q))
  unfolding pointer merged
  synchronised select rows r q h =
      let t = record (place.table r) { changes = [] } in
      let time = has_time (place.table r).changed_at in
      let r' = (fetch_table same init place select r).1 in
      let is : place.table r' ≡ fetch_rows same init time rows t =
        table-fetch_table select rows r h in
      applied r' q (rw (is) (Distinct-fetch_rows same init key time rows t tt))
      ∙ ap (λ x. merged (lookup same x.changes q) (has (lookup same x.entries q))) is
      ∙ ap
          (λ m.
            merged (lookup same (fetch_rows same init time rows t).changes q)
              (has (lookup same m q)))
          (entries-fetch_rows same init time rows t)
      ∙ fetched same init key time rows t q (has (lookup same (place.table r).entries q))

-- The tables whose updates copy fields.
module _ {K A : Type 0} (place : Place Runtime K A) (copy : A → A → A) (lens : IsPlace place) where
  entries-copy_fields :
      (old new : Pointer) (r : Runtime)
      → entries place (copy_fields place copy old new r).1 ≡ entries place r
  unfolding copy_fields assign modify
  entries-copy_fields old new r = elim (Option-cases (read place r new)) [
    | inl e ↦ rw (e, copy_fields) refl
    | inr (a, e) ↦ rw (e, copy_fields) (ap (λ t. t.entries) (lens.table-with_table _ r))
  ]

  copy_fields_succeeds :
      (old new : Pointer) (r : Runtime) → (copy_fields place copy old new r).0 ≢ err callback_failed
  unfolding copy_fields
  copy_fields_succeeds old new r h = elim (Option-cases (read place r new)) [
    | inl e ↦ let bad = rw (e, copy_fields) at h in cc
    | inr (a, e) ↦ let bad = rw (e, copy_fields) at h in cc
  ]

  pub copying-KeepsEntries : KeepsEntries place (copying place copy)
  unfolding copying call
  copying-KeepsEntries = record {
    create = λ p s. refl;
    remove = λ p s. refl;
    update = λ f old new s h.
        let is : copy_fields place copy ≡ f = cc in
        subst (λ g. entries place (g old new s).1 ≡ entries place s) is
          (entries-copy_fields old new s);
  }

  pub copying-Succeeds : Succeeds (copying place copy)
  unfolding copying call
  copying-Succeeds = record {
    create = λ p s. refl;
    remove = λ p s. refl;
    update = λ f old new s h.
        let is : copy_fields place copy ≡ f = cc in
        subst (λ g. (g old new s).0 ≢ err callback_failed) is (copy_fields_succeeds old new s);
  }

-- After the contacts were fetched and applied, a contact is in the live configuration if and only if the
-- last valid row that was fetched for it is not deleted, or none was fetched and it was there before. In
-- the first synchronisation a deleted row counts as none.
pub contacts_synchronised :
    (select : Query ℕ Contact) (rows : List (Row ℕ Contact)) (r : Runtime) (id : ℕ)
    → select r.contacts.changed_at ≡ some rows
    → has (
        pointer by_id in_contacts
          (apply_table by_id in_contacts contact_callbacks
            (fetch_table by_id some in_contacts select r).1)
          id)
      ≡ wanted by_id some
          (has_time r.contacts.changed_at)
          rows
          id
          (has (pointer by_id in_contacts r id))
unfolding contact_callbacks
contacts_synchronised select rows r id h =
    synchronised by_id some in_contacts contact_callbacks eq_IsKey
      (record { table-with_table = λ t s. refl })
      (copying-KeepsEntries in_contacts _ (record { table-with_table = λ t s. refl }))
      (copying-Succeeds in_contacts _ (record { table-with_table = λ t s. refl })) (λ r b. refl)
      select rows r id h
