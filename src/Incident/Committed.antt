-- ===== src/Incident/Committed.antt =====
-- internal/incident/incidents.go and internal/object/object.go: the two transactions of an event that fails.
use icinga_notifications.Prelude.{
  ◌≡◌, ◌≢◌, refl, Bool, Bool-cases, Option-cases, inl, inr, ◌⊎◌, not, ◌&&◌, Option, none, some,
  ◌++◌, Result, ok, err, ◌==◌, ◌∙◌, if◌then◌else◌,
}
use icinga_notifications.Event.Severity.{rank}
use icinga_notifications.Event.Incoming.{Event, is_mute, is_unmute}
use icinga_notifications.Object.Objects.{Object}
use icinga_notifications.Object.Cache.{ObjectStore, attempt, statements_of, from_event}
use icinga_notifications.Incident.State.{Incident}
use icinga_notifications.Incident.Exec.{Error, context_cancelled, World}
use icinga_notifications.Incident.Contacts.{is_some}
use icinga_notifications.Incident.Process
use icinga_notifications.Incident.Atomic
use icinga_notifications.Incident.Current.{
  Store, Outside, new_incident, set_operations, set_current, remove_current, restore_recipients,
  current_incident, restored, get_current, sync_in_tx, world_of, written, without_incident,
  with_incident, dispatch, was_object_muted, process_object, process_event,
}
use icinga_notifications.Incident.Isolated.{from_event_lem}

-- No statement took effect in between.
abbrev Untouched : Store → Store → Type 0
Untouched s t = (t.committed ≡ s.committed) × (t.objects.statements ≡ s.objects.statements)

Untouched-trans : (r s t : Store) → Untouched r s → Untouched s t → Untouched r t
Untouched-trans r s t (a, b) (c, d) = (c ∙ a, d ∙ b)

-- As far as errors go, but for the cancellation of the context.
abbrev UntouchedAt : Store → Result Error (Unit {0}) × Store → Type 0
UntouchedAt s r = (e : Error) → r.0 ≡ err e → e ≢ context_cancelled → Untouched s r.1

module _ (out : Outside) where
  restored-Untouched : (i : Incident) (s : Store) → Untouched s (restored out i s).1
  unfolding restored restore_recipients set_current set_operations
  restored-Untouched i s = elim (Bool-cases (is_some i.started_at)) [
    | inr e ↦ rw (e) (refl, refl)
    | inl e ↦ elim (Bool-cases (attempt out.env.fails 1 s.objects.operations).0) [
      | inl f ↦ rw (e, f) (refl, refl)
      | inr f ↦ rw (e, f) (refl, refl)
    ]
  ]

  get_current-Untouched :
      (o : Object) (create : Bool) (s : Store) → Untouched s (get_current out o create s).1
  unfolding get_current set_current
  get_current-Untouched o create s = elim (Option-cases (current_incident s o)) [
    | inr (i, e) ↦ rw (e, get_current) (restored-Untouched i s)
    | inl e ↦ elim (Bool-cases create) [
      | inl c ↦
          rw (e, c, get_current)
            (restored-Untouched (new_incident o) (set_current o.id (new_incident o) s))
      | inr c ↦ rw (e, c, get_current) (refl, refl)
    ]
  ]

  sync_in_tx-Untouched :
      (ev : Event) (o : Object) (s : Store) → UntouchedAt s (sync_in_tx out ev o s)
  unfolding sync_in_tx set_operations
  sync_in_tx-Untouched ev o s e h sent =
      elim (Bool-cases
        (attempt out.env.fails (if ev.id == 0 then 3 else 2) s.objects.operations).0) [
          | inl f ↦ let bad = rw (f) at h in cc
          | inr f ↦ rw (f) (refl, refl)
        ]

  without_incident-Untouched :
      (ev : Event) (b : Bool) (o : Object) (s : Store)
      → UntouchedAt s (without_incident out ev b o s)
  unfolding without_incident
  without_incident-Untouched ev b o s e h sent = elim (Bool-cases (rank ev.severity == 0)) [
    | inr f ↦ elim (Bool-cases (rank ev.severity == 1)) [
      | inl g ↦ rw (f, g) (refl, refl)
      | inr g ↦ rw (f, g) (refl, refl)
    ]
    | inl f ↦ elim (Bool-cases (b && is_mute ev.kind)) [
      | inl g ↦ rw (f, g) (refl, refl)
      | inr g ↦ elim (Bool-cases (not b && is_unmute ev.kind)) [
        | inl k ↦ rw (f, g, k) (refl, refl)
        | inr k ↦ rw (f, g, k) (sync_in_tx-Untouched ev o s e (rw (f, g, k) at h) sent)
      ]
    ]
  ]

  written-statements :
      (o : Object) (w : World) (s : Store)
      → ((written o w s).committed ≡ w.committed)
        × ((written o w s).objects.statements ≡ s.objects.statements)
  unfolding written set_operations set_current remove_current
  written-statements o w s = elim (Bool-cases w.registered) [
    | inl r ↦ rw (r) (refl, refl)
    | inr r ↦ rw (r) (refl, refl)
  ]

  with_incident-Untouched :
      (ev : Event) (i : Incident) (s : Store) → UntouchedAt s (with_incident out ev i s)
  unfolding with_incident
  with_incident-Untouched ev i s e h sent =
      let (committed, statements) =
        written-statements i.object (Process.process_event out.env ev (world_of i s)).1 s in
      (committed ∙ Atomic.process_event-Atomic out.env ev (world_of i s) e h sent, statements)

  dispatch-Untouched :
      (ev : Event) (b : Bool) (o : Object) (r : Result Error (Option Incident) × Store)
      → UntouchedAt r.1 (dispatch out ev b o r)
  unfolding dispatch
  dispatch-Untouched ev b o (err d, s) e h sent = (refl, refl)
  dispatch-Untouched ev b o (ok none, s) e h sent = without_incident-Untouched ev b o s e h sent
  dispatch-Untouched ev b o (ok (some i), s) e h sent = with_incident-Untouched ev i s e h sent

  -- What follows FromEvent.
  process_object-Untouched :
      (ev : Event) (b : Bool) (s : Store) (r : Option Object × ObjectStore)
      → UntouchedAt (record s { objects = r.1 }) (process_object out ev b s r)
  unfolding process_object
  process_object-Untouched ev b s (none, objects) e h sent = (refl, refl)
  process_object-Untouched ev b s (some o, objects) e h sent =
      let create = not (rank ev.severity == 0) && not (rank ev.severity == 1) in
      let s' : Store = record s { objects = objects } in
      let got = get_current out o create s' in
      Untouched-trans s' got.1 (process_object out ev b s (some o, objects)).1
        (get_current-Untouched o create s') (dispatch-Untouched ev b o got e h sent)

-- If ProcessEvent fails, no statement on incidents, their histories and events took effect, unless the failure
-- is the cancellation of the context while the notifications are sent. Of the statements of FromEvent, which
-- has a transaction of its own before, all took effect or none.
pub process_event_failed :
    (out : Outside) (ev : Event) (s : Store) (e : Error)
    → (process_event out ev s).0 ≡ err e
    → e ≢ context_cancelled
    → ((process_event out ev s).1.committed ≡ s.committed)
      × (((process_event out ev s).1.objects.statements ≡ s.objects.statements)
          ⊎ ((o : Object) × ((from_event out.env.fails out.id_of ev s.objects).0 ≡ some o)
              × ((process_event out ev s).1.objects.statements
                  ≡ s.objects.statements ++ statements_of o ev)))
unfolding process_event
process_event_failed out ev s e h sent =
    let (committed, statements) =
      process_object-Untouched out ev (was_object_muted out ev s) s
        (from_event out.env.fails out.id_of ev s.objects) e h sent in
    (
      committed,
      elim (from_event_lem out.env.fails out.id_of ev s.objects) [
        | inl (_, _, kept) ↦ inl (statements ∙ kept)
        | inr (o, _, returned, _, added) ↦ inr (o, returned, statements ∙ added)
      ],
    )
