-- ===== src/Incident/Reached.antt =====
-- internal/incident/incidents.go: which events reach an incident, and what becomes of it.
use icinga_notifications.Prelude.{
  ℕ, ◌≡◌, ◌≤◌, refl, sym, Bool, Bool-cases, Option-cases, true, inl, inr, ◌⊎◌, not, ◌&&◌, Option,
  none, some, [], Result, ok, err, ◌==◌, ◌∙◌, ap, subst, arith,
}
use icinga_notifications.Prelude.Bytes.{Bytes, bytes_eq, eq_of_bytes_eq}
use icinga_notifications.Event.Severity.{rank}
use icinga_notifications.Event.Incoming.{Event}
use icinga_notifications.Object.Objects.{Object}
use icinga_notifications.Object.Cache.{from_event, attempt}
use icinga_notifications.Runtime.Maps.{lookup, put, delete, lookup-put_self, lookup-delete_self}
use icinga_notifications.Incident.State.{Incident, has_id}
use icinga_notifications.Incident.Exec.{Error, database_error, World}
use icinga_notifications.Incident.Contacts.{is_some}
use icinga_notifications.Incident.Process
use icinga_notifications.Incident.Monotone.{process_event_keeps_escalation}
use icinga_notifications.Incident.Current.{
  Store, Outside, recipients_of, new_incident, set_operations, set_current, remove_current,
  restore_recipients, current_incident, restored, get_current, world_of, written, with_incident,
  dispatch, was_object_muted, process_object, process_event,
}
use icinga_notifications.Incident.Isolated.{
  bytes_eq-IsKey, synced, WellFormed, from_event_lem, from_event-id, process_event-Same,
}

-- The ways GetCurrent can end for an incident that it has.
restored_cases :
    (out : Outside) (i : Incident) (s : Store)
    → ((restored out i s).0 ≡ err database_error)
      ⊎ ((j : Incident) × ((restored out i s).0 ≡ ok (some j))
          × (j.escalation_state ≡ i.escalation_state)
          × (j.object ≡ i.object))
unfolding restored restore_recipients
restored_cases out i s = elim (Bool-cases (is_some i.started_at)) [
  | inr e ↦ inr (i, rw (e) refl, refl, refl)
  | inl e ↦ elim (Bool-cases (attempt out.env.fails 1 s.objects.operations).0) [
    | inl f ↦ inr (
      record i { recipients = recipients_of (out.contact_rows s.objects.operations i.id) [] },
      rw (e, f) refl,
      refl,
      refl,
    )
    | inr f ↦ inl (rw (e, f) refl)
  ]
]

created_cases :
    (out : Outside) (o : Object) (s : Store)
    → ((get_current out o true s).0 ≡ err database_error)
      ⊎ ((j : Incident) × ((get_current out o true s).0 ≡ ok (some j)) × (j.object ≡ o))
unfolding get_current current_incident new_incident
created_cases out o s = elim (Option-cases (lookup bytes_eq s.current o.id)) [
  | inr (i, e) ↦ elim (restored_cases out (record i { object = o }) s) [
    | inl f ↦ inl (rw (e, get_current) f)
    | inr (j, f, _, g) ↦ inr (j, rw (e, get_current) f, g)
  ]
  | inl e ↦ elim (restored_cases out (new_incident o) (set_current o.id (new_incident o) s)) [
    | inl f ↦ inl (rw (e, get_current) f)
    | inr (j, f, _, g) ↦ inr (j, rw (e, get_current) f, g)
  ]
]

dispatch_err :
    (out : Outside) (ev : Event) (b : Bool) (o : Object) (e : Error)
    (r : Result Error (Option Incident) × Store)
    → r.0 ≡ err e
    → dispatch out ev b o r ≡ (err e, r.1)
unfolding dispatch
dispatch_err out ev b o e (err f, s) h = let same : f ≡ e = cc in rw same refl
dispatch_err out ev b o e (ok i, s) h = cc

dispatch-some :
    (out : Outside) (ev : Event) (b : Bool) (o : Object) (i : Incident)
    (r : Result Error (Option Incident) × Store)
    → r.0 ≡ ok (some i)
    → dispatch out ev b o r ≡ with_incident out ev i r.1
unfolding dispatch
dispatch-some out ev b o i (err f, s) h = cc
dispatch-some out ev b o i (ok none, s) h = cc
dispatch-some out ev b o i (ok (some j), s) h = let same : j ≡ i = cc in rw same refl

-- Whether ProcessEvent creates an incident.
abbrev pub creates : Event → Bool
creates ev = not (rank ev.severity == 0) && not (rank ev.severity == 1)

-- ProcessEvent where FromEvent succeeds.
pub dispatched :
    (out : Outside) (ev : Event) (s : Store) (o : Object)
    → (from_event out.env.fails out.id_of ev s.objects).0 ≡ some o
    → process_event out ev s
      ≡ dispatch out ev (was_object_muted out ev s) o (
          get_current out o
            (creates ev)
            (synced s (from_event out.env.fails out.id_of ev s.objects).1))
unfolding process_event
dispatched out ev s o is = rw (is, process_object) refl

pub failed_event :
    (out : Outside) (ev : Event) (s : Store)
    → (from_event out.env.fails out.id_of ev s.objects).0 ≡ none
    → process_event out ev s
      ≡ (err database_error, synced s (from_event out.env.fails out.id_of ev s.objects).1)
unfolding process_event
failed_event out ev s is = rw (is, process_object) refl

-- An event with a severity other than none and OK fails at the database, or Incident.ProcessEvent
-- processes it for an incident of the object of the event: it never ends for want of an incident.
pub process_event_reaches :
    (out : Outside) (ev : Event) (s : Store)
    → WellFormed s
    → 2 ≤ rank ev.severity
    → ((process_event out ev s).0 ≡ err database_error)
      ⊎ ((i : Incident) × (t : Store) × (process_event out ev s ≡ with_incident out ev i t)
          × (i.object.id ≡ out.id_of ev.source_id ev.tags))
process_event_reaches out ev s w h = elim (from_event_lem out.env.fails out.id_of ev s.objects) [
  | inl (failed, _, _) ↦ inl (ap (λ x. x.0) (failed_event out ev s failed))
  | inr (o, _, is, _, _) ↦
      let t = synced s (from_event out.env.fails out.id_of ev s.objects).1 in
      let b = was_object_muted out ev s in
      let create : creates ev ≡ true = ground arith in
      let start =
        dispatched out ev s o is ∙ ap (λ c. dispatch out ev b o (get_current out o c t)) create in
      elim (created_cases out o t) [
        | inl f ↦ inl (
            ap (λ x. x.0)
              (start ∙ dispatch_err out ev b o database_error (get_current out o true t) f))
        | inr (i, f, g) ↦ inr (
          i,
          (get_current out o true t).1,
          start ∙ dispatch-some out ev b o i (get_current out o true t) f,
          ap (λ x. x.id) g ∙ from_event-id out ev s o w is,
        )
      ]
]

-- The incident is kept with an escalation, or it is gone.
abbrev pub Keeps : Bytes → ℕ → Store → Type 0
Keeps q e s =
    (i : Incident) → lookup bytes_eq s.current q ≡ some i → has_id i.escalation_state e ≡ true

written-Keeps :
    (o : Object) (w : World) (s : Store) (e : ℕ)
    → has_id w.incident.escalation_state e ≡ true
    → Keeps o.id e (written o w s)
unfolding written set_operations set_current remove_current
written-Keeps o w s e h i is = elim (Bool-cases w.registered) [
  | inl r ↦
      let there : lookup bytes_eq (put bytes_eq o.id w.incident s.current) o.id ≡ some i =
        rw (r) at is in
      let here = lookup-put_self bytes_eq bytes_eq-IsKey o.id w.incident s.current in
      let same : w.incident ≡ i = cc in rw (← same) h
  | inr r ↦
      let there : lookup bytes_eq (delete bytes_eq o.id s.current) o.id ≡ some i = rw (r) at is in
      let here = lookup-delete_self {V = Incident} bytes_eq bytes_eq-IsKey o.id s.current in cc
]

with_incident-Keeps :
    (out : Outside) (ev : Event) (i : Incident) (s : Store) (e : ℕ)
    → has_id i.escalation_state e ≡ true
    → Keeps i.object.id e (with_incident out ev i s).1
unfolding with_incident
with_incident-Keeps out ev i s e h =
    written-Keeps i.object (Process.process_event out.env ev (world_of i s)).1 s e
      (process_event_keeps_escalation out.env ev (world_of i s) e h)

-- GetCurrent for an object that has an incident.
get_current_known :
    (out : Outside) (o : Object) (c : Bool) (s : Store) (i : Incident)
    → lookup bytes_eq s.current o.id ≡ some i
    → get_current out o c s ≡ restored out (record i { object = o }) s
unfolding current_incident get_current restored
get_current_known out o c s i h = rw (h, get_current) refl

-- What is left of the incident where it cannot be restored.
restored_failed :
    (out : Outside) (i : Incident) (s : Store)
    → (restored out i s).0 ≡ err database_error
    → (restored out i s).1.current ≡ s.current
unfolding restored restore_recipients set_operations
restored_failed out i s h = elim (Bool-cases (is_some i.started_at)) [
  | inr e ↦ let bad = rw (e) at h in cc
  | inl e ↦ elim (Bool-cases (attempt out.env.fails 1 s.objects.operations).0) [
    | inl f ↦ let bad = rw (e, f) at h in cc
    | inr f ↦ rw (e, f) refl
  ]
]

-- ProcessEvent on the object of a current incident.
dispatched-Keeps :
    (out : Outside) (ev : Event) (s : Store) (o : Object) (i : Incident) (e : ℕ)
    → (from_event out.env.fails out.id_of ev s.objects).0 ≡ some o
    → lookup bytes_eq s.current o.id ≡ some i
    → has_id i.escalation_state e ≡ true
    → Keeps o.id e (process_event out ev s).1
dispatched-Keeps out ev s o i e is h k =
    let t = synced s (from_event out.env.fails out.id_of ev s.objects).1 in
    let b = was_object_muted out ev s in
    let found = get_current_known out o (creates ev) t i h in
    let start = dispatched out ev s o is ∙ ap (dispatch out ev b o) found in
    let r = restored out (record i { object = o }) t in
    elim (restored_cases out (record i { object = o }) t) [
      | inl f ↦
          let current = restored_failed out (record i { object = o }) t f in
          subst {A = Result Error (Unit {0}) × Store} (λ x. Keeps o.id e x.1)
            (sym (start ∙ dispatch_err out ev b o database_error r f))
            (λ j there.
              let was : lookup bytes_eq s.current o.id ≡ some j =
                ap (λ c. lookup bytes_eq c o.id) (sym current) ∙ there in
              let same : i ≡ j = cc in rw (← same) k)
      | inr (j, f, g, q) ↦
          subst {A = Result Error (Unit {0}) × Store} (λ x. Keeps o.id e x.1)
            (sym (start ∙ dispatch-some out ev b o j r f))
            (subst {A = Object} (λ x. Keeps x.id e (with_incident out ev j r.1).1) q
              (with_incident-Keeps out ev j r.1 e (ap (λ x. has_id x e) g ∙ k)))
    ]

-- An escalation that was triggered for a current incident stays triggered as long as the incident is
-- current, whatever event for whatever object is processed, and also where the processing fails.
pub process_event_keeps_triggered :
    (out : Outside) (ev : Event) (s : Store) (q : Bytes) (i j : Incident) (e : ℕ)
    → WellFormed s
    → lookup bytes_eq s.current q ≡ some i
    → has_id i.escalation_state e ≡ true
    → lookup bytes_eq (process_event out ev s).1.current q ≡ some j
    → has_id j.escalation_state e ≡ true
process_event_keeps_triggered out ev s q i j e w h k after =
    let id = out.id_of ev.source_id ev.tags in
    elim (Bool-cases (bytes_eq id q)) [
      | inr apart ↦
          let was : lookup bytes_eq s.current q ≡ some j =
            sym (process_event-Same out ev s q w apart).0 ∙ after in
          let same : i ≡ j = cc in rw (← same) k
      | inl at ↦
          let is_q : id ≡ q = eq_of_bytes_eq id q at in
          elim (from_event_lem out.env.fails out.id_of ev s.objects) [
            | inl (failed, _, _) ↦
                let was : lookup bytes_eq s.current q ≡ some j =
                  ap {A = Result Error (Unit {0}) × Store} (λ x. lookup bytes_eq x.1.current q)
                    (sym (failed_event out ev s failed))
                  ∙ after in
                let same : i ≡ j = cc in rw (← same) k
            | inr (o, _, is, _, _) ↦
                let o_is : o.id ≡ q = from_event-id out ev s o w is ∙ is_q in
                dispatched-Keeps out ev s o i e is (rw (o_is) h) k j (rw (o_is) after)
          ]
    ]
