-- ===== src/Incident/Isolated.antt =====
-- internal/incident/incidents.go: the current incidents of other objects, and the cached objects.
use icinga_notifications.Prelude.{
  ℕ, ◌+◌, ◌≡◌, refl, sym, Bool, Bool-cases, Option-cases, false, inl, inr, ◌⊎◌, not, ◌&&◌, Option,
  none, some, [], ◌++◌, Result, ok, err, ◌==◌, if◌then◌else◌, ◌∙◌, ap, length,
}
use icinga_notifications.Prelude.Bytes.{Bytes, bytes_eq, bytes_eq_self, eq_of_bytes_eq}
use icinga_notifications.Event.Severity.{rank}
use icinga_notifications.Event.Incoming.{Event, Tags, is_mute, is_unmute}
use icinga_notifications.Object.Objects.{Object, new}
use icinga_notifications.Object.Cache.{
  ObjectStore, get_from_cache, from_event, object_of, statements_of, attempt, changed,
}
use icinga_notifications.Runtime.Maps.{IsKey, lookup, put, lookup-put_ne, lookup-delete_ne}
use icinga_notifications.Incident.State.{Incident}
use icinga_notifications.Incident.Exec.{Error, World}
use icinga_notifications.Incident.Contacts.{is_some}
use icinga_notifications.Incident.Process
use icinga_notifications.Incident.Current.{
  Store, Outside, recipients_of, new_incident, set_operations, set_current, restore_recipients,
  current_incident, restored, get_current, remove_current, sync_in_tx, world_of, written,
  without_incident, with_incident, dispatch, was_object_muted, process_object, process_event,
}

pub bytes_eq-IsKey : IsKey bytes_eq
bytes_eq-IsKey = record { self = bytes_eq_self; sound = eq_of_bytes_eq }

-- The incident of an object, and the cached objects, are as before.
abbrev pub Same : Bytes → Store → Store → Type 0
Same q s s' =
    (lookup bytes_eq s'.current q ≡ lookup bytes_eq s.current q)
    × (s'.objects.cache ≡ s.objects.cache)

Same-trans : (q : Bytes) (s t u : Store) → Same q s t → Same q t u → Same q s u
Same-trans q s t u h k = (k.0 ∙ h.0, k.1 ∙ h.1)

restore_recipients-Same :
    (out : Outside) (i : Incident) (s : Store) (q : Bytes)
    → bytes_eq i.object.id q ≡ false
    → Same q s (restore_recipients out i s).1
unfolding restore_recipients set_operations set_current
restore_recipients-Same out i s q h =
    elim (Bool-cases (attempt out.env.fails 1 s.objects.operations).0) [
      | inl e ↦ rw (e) (lookup-put_ne bytes_eq bytes_eq-IsKey i.object.id _ s.current q h, refl)
      | inr e ↦ rw (e) (refl, refl)
    ]

restored-Same :
    (out : Outside) (i : Incident) (s : Store) (q : Bytes)
    → bytes_eq i.object.id q ≡ false
    → Same q s (restored out i s).1
unfolding restored
restored-Same out i s q h = elim (Bool-cases (is_some i.started_at)) [
  | inl e ↦ rw (e) (restore_recipients-Same out i s q h)
  | inr e ↦ rw (e) (refl, refl)
]

get_current-Same :
    (out : Outside) (o : Object) (create : Bool) (s : Store) (q : Bytes)
    → bytes_eq o.id q ≡ false
    → Same q s (get_current out o create s).1
unfolding get_current current_incident set_current new_incident
get_current-Same out o create s q h = elim (Option-cases (lookup bytes_eq s.current o.id)) [
  | inr (i, e) ↦ rw (e, get_current) (restored-Same out (record i { object = o }) s q h)
  | inl e ↦ elim (Bool-cases create) [
    | inl c ↦
        rw (e, c, get_current)
          (Same-trans q s (set_current o.id (new_incident o) s)
            (restored out (new_incident o) (set_current o.id (new_incident o) s)).1
            (lookup-put_ne bytes_eq bytes_eq-IsKey o.id (new_incident o) s.current q h, refl)
            (restored-Same out (new_incident o) (set_current o.id (new_incident o) s) q h))
    | inr c ↦ rw (e, c, get_current) (refl, refl)
  ]
]

sync_in_tx-Same :
    (out : Outside) (ev : Event) (o : Object) (s : Store) (q : Bytes)
    → Same q s (sync_in_tx out ev o s).1
unfolding sync_in_tx set_operations
sync_in_tx-Same out ev o s q =
    elim (Bool-cases (attempt out.env.fails (if ev.id == 0 then 3 else 2) s.objects.operations).0) [
      | inl e ↦ rw (e) (refl, refl)
      | inr e ↦ rw (e) (refl, refl)
    ]

without_incident-Same :
    (out : Outside) (ev : Event) (b : Bool) (o : Object) (s : Store) (q : Bytes)
    → Same q s (without_incident out ev b o s).1
unfolding without_incident
without_incident-Same out ev b o s q = elim (Bool-cases (rank ev.severity == 0)) [
  | inl e ↦ elim (Bool-cases (b && is_mute ev.kind)) [
    | inl f ↦ rw (e, f) (refl, refl)
    | inr f ↦ elim (Bool-cases (not b && is_unmute ev.kind)) [
      | inl g ↦ rw (e, f, g) (refl, refl)
      | inr g ↦ rw (e, f, g) (sync_in_tx-Same out ev o s q)
    ]
  ]
  | inr e ↦ elim (Bool-cases (not (rank ev.severity == 1))) [
    | inl f ↦ rw (e, f) (refl, refl)
    | inr f ↦ rw (e, f) (refl, refl)
  ]
]

written-Same :
    (o : Object) (w : World) (s : Store) (q : Bytes)
    → bytes_eq o.id q ≡ false
    → Same q s (written o w s)
unfolding written set_operations set_current remove_current
written-Same o w s q h = elim (Bool-cases w.registered) [
  | inl e ↦ rw (e) (lookup-put_ne bytes_eq bytes_eq-IsKey o.id w.incident s.current q h, refl)
  | inr e ↦ rw (e) (lookup-delete_ne bytes_eq bytes_eq-IsKey o.id s.current q h, refl)
]

-- The incident that GetCurrent returns is that of the object.
restored-object :
    (out : Outside) (i j : Incident) (s : Store)
    → (restored out i s).0 ≡ ok (some j)
    → j.object ≡ i.object
unfolding restored restore_recipients
restored-object out i j s h = elim (Bool-cases (is_some i.started_at)) [
  | inr e ↦
      let is : ◌≡◌ {A = Result Error (Option Incident)} (ok (some i)) (ok (some j)) = rw (e) at h in
      let same : i ≡ j = cc in rw (same) refl
  | inl e ↦ elim (Bool-cases (attempt out.env.fails 1 s.objects.operations).0) [
    | inl f ↦
        let is = rw (e, f) at h in
        let same : record i {
          recipients = recipients_of (out.contact_rows s.objects.operations i.id) [];
        }
            ≡ j =
          cc in
        sym (ap {A = Incident} (λ x. x.object) same)
    | inr f ↦ let bad = rw (e, f) at h in cc
  ]
]

pub get_current-object :
    (out : Outside) (o : Object) (create : Bool) (s : Store) (i : Incident)
    → (get_current out o create s).0 ≡ ok (some i)
    → i.object ≡ o
unfolding get_current current_incident new_incident
get_current-object out o create s i h = elim (Option-cases (lookup bytes_eq s.current o.id)) [
  | inr (j, e) ↦ restored-object out (record j { object = o }) i s (rw (e, get_current) at h)
  | inl e ↦ elim (Bool-cases create) [
    | inl c ↦
        restored-object out (new_incident o) i (set_current o.id (new_incident o) s)
          (rw (e, c, get_current) at h)
    | inr c ↦ let bad = rw (e, c, get_current) at h in cc
  ]
]

dispatch-Same :
    (out : Outside) (ev : Event) (b : Bool) (o : Object) (r : Result Error (Option Incident))
    (s : Store) (q : Bytes)
    → ((i : Incident) → r ≡ ok (some i) → i.object ≡ o)
    → bytes_eq o.id q ≡ false
    → Same q s (dispatch out ev b o (r, s)).1
unfolding dispatch with_incident
dispatch-Same out ev b o (err e) s q of h = (refl, refl)
dispatch-Same out ev b o (ok none) s q of h = without_incident-Same out ev b o s q
dispatch-Same out ev b o (ok (some i)) s q of h =
    let same : i.object ≡ o = of i refl in
    written-Same i.object (Process.process_event out.env ev (world_of i s)).1 s q (rw (same) h)

-- What FromEvent does to the cache.
pub from_event_lem :
    (fails : ℕ → Bool) (id_of : ℕ → Tags → Bytes) (ev : Event) (s : ObjectStore)
    → (((from_event fails id_of ev s).0 ≡ none)
        × ((from_event fails id_of ev s).1.cache ≡ s.cache)
        × ((from_event fails id_of ev s).1.statements ≡ s.statements))
      ⊎ ((o : Object) × (o
            ≡ object_of
                (id_of ev.source_id ev.tags)
                ev
                (get_from_cache s (id_of ev.source_id ev.tags)))
          × ((from_event fails id_of ev s).0 ≡ some o)
          × ((from_event fails id_of ev s).1.cache
              ≡ put bytes_eq (id_of ev.source_id ev.tags) o s.cache)
          × ((from_event fails id_of ev s).1.statements ≡ s.statements ++ statements_of o ev))
unfolding from_event
from_event_lem fails id_of ev s =
    let o =
      object_of (id_of ev.source_id ev.tags) ev (get_from_cache s (id_of ev.source_id ev.tags)) in
    elim (Bool-cases (attempt fails (2 + length (statements_of o ev)) s.operations).0) [
      | inr e ↦ inl (rw (e, from_event) refl, rw (e, from_event) refl, rw (e, from_event) refl)
      | inl e ↦
          inr (o, refl, rw (e, from_event) refl, rw (e, from_event) refl, rw (e, from_event) refl)
    ]

-- Every cached object is cached under its id, and every current incident is that of a cached object.
pub record WellFormed (s : Store) : Type 0 where
  pub cached : (q : Bytes) (o : Object) → get_from_cache s.objects q ≡ some o → o.id ≡ q
  pub known :
      (q : Bytes) (i : Incident)
      → lookup bytes_eq s.current q ≡ some i
      → (o : Object) × (get_from_cache s.objects q ≡ some o)

pub object_of-id :
    (id : Bytes) (ev : Event) (old : Option Object)
    → ((o : Object) → old ≡ some o → o.id ≡ id)
    → (object_of id ev old).id ≡ id
unfolding object_of new changed
object_of-id id ev none h = refl
object_of-id id ev (some o) h = h o refl

-- The store that GetCurrent and the rest start with.
abbrev pub synced : Store → ObjectStore → Store
synced s objects = record s { objects = objects }

process_object-Same :
    (out : Outside) (ev : Event) (b : Bool) (s : Store) (r : Option Object × ObjectStore)
    (q : Bytes)
    → ((o : Object) → r.0 ≡ some o → bytes_eq o.id q ≡ false)
    → Same q (synced s r.1) (process_object out ev b s r).1
unfolding process_object
process_object-Same out ev b s (none, objects) q h = (refl, refl)
process_object-Same out ev b s (some o, objects) q h =
    let create = not (rank ev.severity == 0) && not (rank ev.severity == 1) in
    let found = get_current out o create (synced s objects) in
    Same-trans q (synced s objects) found.1 (dispatch out ev b o found).1
      (get_current-Same out o create (synced s objects) q (h o refl))
      (dispatch-Same out ev b o found.0 found.1 q
        (get_current-object out o create (synced s objects)) (h o refl))

-- The object that FromEvent returns has the id of the event.
pub from_event-id :
    (out : Outside) (ev : Event) (s : Store) (o : Object)
    → WellFormed s
    → (from_event out.env.fails out.id_of ev s.objects).0 ≡ some o
    → o.id ≡ out.id_of ev.source_id ev.tags
from_event-id out ev s o w h = elim (from_event_lem out.env.fails out.id_of ev s.objects) [
  | inl (failed, _, _) ↦ cc
  | inr (p, is, returned, _, _) ↦
      let same : p ≡ o = cc in
      let id = out.id_of ev.source_id ev.tags in
      ap (λ x. x.id) (sym same ∙ is)
      ∙ object_of-id id ev (get_from_cache s.objects id) (w.cached id)
]

pub process_event-Same :
    (out : Outside) (ev : Event) (s : Store) (q : Bytes)
    → WellFormed s
    → bytes_eq (out.id_of ev.source_id ev.tags) q ≡ false
    → Same q
        (synced s (from_event out.env.fails out.id_of ev s.objects).1)
        (process_event out ev s).1
unfolding process_event
process_event-Same out ev s q w h =
    process_object-Same out ev (was_object_muted out ev s) s
      (from_event out.env.fails out.id_of ev s.objects) q
      (λ o e. rw (from_event-id out ev s o w e) h)
