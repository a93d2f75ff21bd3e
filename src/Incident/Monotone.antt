-- ===== src/Incident/Monotone.antt =====
-- internal/incident/incident.go: what an event can only add to an incident: its rules, its triggered
-- escalations, and its recipients with their roles.
use icinga_notifications.Prelude.{
  ℕ, ◌≡◌, refl, subst, Bool-cases, Option-cases, true, inl, inr, not, ◌&&◌, Option, none, some,
  List, [], ◌∷◌, ◌++◌, Result, ok, err, ◌==◌, ◌≤◌, arith,
}
use icinga_notifications.Event.Incoming.{Event, is_mute, is_unmute}
use icinga_notifications.Recipient.Recipients.{Key, key_eq}
use icinga_notifications.Rule.Escalation.{add_id}
use icinga_notifications.Incident.Role.{ContactRole, role_rank}
use icinga_notifications.Incident.State.{
  NotificationEntry, Recipients, find_role, set_role, has_id, find,
}
use icinga_notifications.Incident.Exec.{
  Env, Error, superfluous_ack, World, operation, commit, rollback,
}
use icinga_notifications.Incident.Contacts.{is_some}
use icinga_notifications.Incident.Notifications.{update_entry, notify_one, notify_contacts}
use icinga_notifications.Incident.Process.{
  conclude, unless_superfluous_ack, or_superfluous_ack, transaction, send_all, process_event,
}
use icinga_notifications.Incident.Moves
use icinga_notifications.Incident.Moves.{IsStable}
use icinga_notifications.Incident.Handlers

-- A recipient keeps its place, with a role that is at least as high.
abbrev pub HigherRoles : Recipients → Recipients → Type 0
HigherRoles m n =
    (k : Key) (r : ContactRole)
    → find_role m k ≡ some r
    → (q : ContactRole) × (find_role n k ≡ some q) × (role_rank r ≤ role_rank q)

abbrev pub MoreIds : List ℕ → List ℕ → Type 0
MoreIds ms ns = (id : ℕ) → has_id ms id ≡ true → has_id ns id ≡ true

-- What an incident does not lose.
abbrev pub Grows : World → World → Type 0
Grows v w =
    HigherRoles v.incident.recipients w.incident.recipients
    × MoreIds v.incident.rules w.incident.rules
    × MoreIds v.incident.escalation_state w.incident.escalation_state

add_id-MoreIds : (n : ℕ) (ms : List ℕ) → MoreIds ms (add_id n ms)
unfolding add_id has_id
add_id-MoreIds n [] id h = cc
add_id-MoreIds n (m ∷ ms) id h = elim (Bool-cases (m == n)) [
  | inl e ↦ rw (e) h
  | inr e ↦ elim (Bool-cases (m == id)) [
    | inl f ↦ rw (e, f) refl
    | inr f ↦ rw (e, f) (add_id-MoreIds n ms id (rw (f) at h))
  ]
]

set_role-HigherRoles :
    (k : Key) (r : ContactRole) (m : Recipients)
    → ((q : ContactRole) → find_role m k ≡ some q → role_rank q ≤ role_rank r)
    → HigherRoles m (set_role k r m)
unfolding find_role set_role
set_role-HigherRoles k r [] higher l q h = cc
set_role-HigherRoles k r ((j, p) ∷ m) higher l q h = elim (Bool-cases (key_eq j k)) [
  | inl e ↦ elim (Bool-cases (key_eq j l)) [
    | inl f ↦
        let both = rw (f) at h in
        let same : p ≡ q = cc in
        let le = higher p (rw (e) refl) in
        rw (e, f) (r, refl, subst (λ x. role_rank x ≤ role_rank r) same le)
    | inr f ↦ rw (e, f) (q, rw (f) at h, omega arith)
  ]
  | inr e ↦ elim (Bool-cases (key_eq j l)) [
    | inl f ↦ rw (e, f) (q, rw (f) at h, omega arith)
    | inr f ↦
        rw (e, f) (set_role-HigherRoles k r m (λ p2 g. higher p2 (rw (e) g)) l q (rw (f) at h))
  ]
]

HigherRoles-refl : (m : Recipients) → HigherRoles m m
HigherRoles-refl m k r h = (r, h, omega arith)

HigherRoles-trans : (l m n : Recipients) → HigherRoles l m → HigherRoles m n → HigherRoles l n
HigherRoles-trans l m n f g k r h =
    let (q, hq, le) = f k r h in let (p, hp, le') = g k q hq in (p, hp, omega arith)

Grows-refl : (w : World) → Grows w w
Grows-refl w = (HigherRoles-refl w.incident.recipients, (λ id h. h), λ id h. h)

Grows-trans : (u v w : World) → Grows u v → Grows v w → Grows u w
Grows-trans u v w (a, b, c) (d, e, f) = (
  HigherRoles-trans u.incident.recipients v.incident.recipients w.incident.recipients a d,
  (λ id h. e id (b id h)),
  λ id h. f id (c id h),
)

same_incident :
    (v w : World)
    → w.incident.rules ≡ v.incident.rules
    → w.incident.escalation_state ≡ v.incident.escalation_state
    → w.incident.recipients ≡ v.incident.recipients
    → Grows v w
same_incident v w a b c =
    (rw (c) (HigherRoles-refl v.incident.recipients), rw (a) (λ id h. h), rw (b) (λ id h. h))

Grows-IsStable : IsStable Grows
Grows-IsStable = record {
  rfl = Grows-refl;
  trans = Grows-trans;
  database = λ w n p. Grows-refl w;
  unregister = Grows-refl;
  plain = λ w i a b c. same_incident w (record w { incident = i }) a b c;
  rule = λ w id.
      (HigherRoles-refl w.incident.recipients, add_id-MoreIds id w.incident.rules, λ n h. h);
  escalation = λ w id. (
    HigherRoles-refl w.incident.recipients,
    (λ n h. h),
    add_id-MoreIds id w.incident.escalation_state,
  );
  role = λ w k r h. (set_role-HigherRoles k r w.incident.recipients h, (λ n h. h), λ n h. h);
}

module _ (env : Env) where
  commit_operation-Grows :
      Moves.Moves Grows
        (operation env (λ w. record w { committed = w.committed ++ w.pending; pending = [] }))
  unfolding operation
  commit_operation-Grows w = elim (Bool-cases (env.fails w.operations)) [
    | inl e ↦ rw (e) (Grows-refl w)
    | inr e ↦ rw (e) (Grows-refl w)
  ]

  commit-Grows : Moves.Moves Grows (commit env)
  unfolding commit
  commit-Grows =
      Moves.bind-Moves Grows Grows-IsStable _ _ commit_operation-Grows
        (λ _. Moves.skip-Moves Grows Grows-IsStable)

  conclude-Grows : (ev : Event) → Moves.Moves Grows (conclude env ev)
  unfolding conclude
  conclude-Grows ev = Moves.incident-Moves Grows Grows-IsStable _ (λ w.
      Moves.bind_at Grows Grows-IsStable w _ _ (Moves.lift-Moves Grows Grows-IsStable _ w) (λ chs.
        Moves.bind-Moves Grows Grows-IsStable _ _
          (Handlers.generate_notifications-Moves Grows Grows-IsStable env ev chs)
          (λ es. Moves.then-Moves Grows Grows-IsStable _ _ commit-Grows (
            Moves.then-Moves Grows Grows-IsStable _ _
              (Moves.modify-Moves Grows Grows-IsStable _ (λ _. refl) (λ _. refl) (λ _. refl))
              (Moves.pure-Moves Grows Grows-IsStable es)))))

  transaction-Grows : (ev : Event) → Moves.Moves Grows (transaction env ev)
  unfolding transaction
  transaction-Grows ev =
      Moves.then-Moves Grows Grows-IsStable _ _ (Moves.begin-Moves Grows Grows-IsStable env) (
        Moves.bind-Moves Grows Grows-IsStable _ _
          (Handlers.sync_event-Moves Grows Grows-IsStable env ev)
          (λ ev2. Moves.incident-Moves Grows Grows-IsStable _ (λ w.
            let is_new = not (is_some w.incident.started_at) in
            Moves.then-Moves Grows Grows-IsStable _ _
              (Moves.if-Moves Grows Grows-IsStable is_new _ _
                (Handlers.process_incident_opened_event-Moves Grows Grows-IsStable env ev2)
                (Moves.skip-Moves Grows Grows-IsStable))
              (Moves.then-Moves Grows Grows-IsStable _ _
                (Handlers.add_event-Moves Grows Grows-IsStable env ev2)
                (Moves.then-Moves Grows Grows-IsStable _ _
                  (Handlers.handle_mute_unmute-Moves Grows Grows-IsStable env ev2)
                  (Moves.then-Moves Grows Grows-IsStable _ _
                    (Handlers.process_type-Moves Grows Grows-IsStable env ev2 is_new ev2.kind)
                    (conclude-Grows ev2))))
              w)))

  unless_superfluous_ack-Grows :
      (v w : World) (r : Result Error (List NotificationEntry))
      → Grows v w
      → Grows v (unless_superfluous_ack r w).1
  unfolding unless_superfluous_ack
  unless_superfluous_ack-Grows v w (ok es) h = h
  unless_superfluous_ack-Grows v w (err superfluous_ack) h = h
  unless_superfluous_ack-Grows v w (err _) h = h

  notify_one-Grows : (entry : NotificationEntry) → Moves.Moves Grows (notify_one env entry)
  unfolding notify_one update_entry
  notify_one-Grows entry w = elim (Option-cases (find env.config.contacts entry.contact_id)) [
    | inl e ↦ rw (e, notify_one) (Grows-refl w)
    | inr (c, e) ↦ rw (e, notify_one) (Grows-refl w)
  ]

  notify_contacts-Grows : (es : List NotificationEntry) → Moves.Moves Grows (notify_contacts env es)
  unfolding notify_contacts
  notify_contacts-Grows es =
      Moves.for_each-Moves Grows Grows-IsStable es (notify_one env) notify_one-Grows

  send_all-Grows : (es : Option (List NotificationEntry)) → Moves.Moves Grows (send_all env es)
  unfolding send_all
  send_all-Grows none = Moves.skip-Moves Grows Grows-IsStable
  send_all-Grows (some es) = notify_contacts-Grows es

  attempt-Grows :
      (ev : Event) → Moves.Moves Grows (rollback (or_superfluous_ack (transaction env ev)))
  unfolding rollback or_superfluous_ack
  attempt-Grows ev w =
      unless_superfluous_ack-Grows w (transaction env ev w).1 (transaction env ev w).0
        (transaction-Grows ev w)

process_event-Grows : (env : Env) (ev : Event) (w : World) → Grows w (process_event env ev w).1
unfolding process_event
process_event-Grows env ev w = elim (Bool-cases (w.incident.is_muted && is_mute ev.kind)) [
  | inl e ↦ rw (e) (Grows-refl w)
  | inr e ↦ elim (Bool-cases (not w.incident.is_muted && is_unmute ev.kind)) [
    | inl f ↦ rw (e, f) (Grows-refl w)
    | inr f ↦
        rw (e, f)
          (Moves.bind-Moves Grows Grows-IsStable _ _ (attempt-Grows env ev) (send_all-Grows env) w)
  ]
]

-- Incident.ProcessEvent keeps every recipient of the incident, with a role that is at least as high, whatever
-- the event is, and also where it fails half-way. It says nothing of restoreRecipients, which GetCurrent
-- calls before, and which replaces the recipients by those in the database.
pub process_event_keeps_role :
    (env : Env) (ev : Event) (w : World) (k : Key) (r : ContactRole)
    → find_role w.incident.recipients k ≡ some r
    → (q : ContactRole) × (find_role (process_event env ev w).1.incident.recipients k ≡ some q)
      × (role_rank r ≤ role_rank q)
process_event_keeps_role env ev w k r h = (process_event-Grows env ev w).0 k r h

-- A rule that is in effect for an incident stays in effect through Incident.ProcessEvent, whatever the event
-- is, and also where it fails half-way.
pub process_event_keeps_rule :
    (env : Env) (ev : Event) (w : World) (id : ℕ)
    → has_id w.incident.rules id ≡ true
    → has_id (process_event env ev w).1.incident.rules id ≡ true
process_event_keeps_rule env ev w id h = (process_event-Grows env ev w).1 id h

-- An escalation that was triggered stays triggered through Incident.ProcessEvent, whatever the event is, and
-- also where it fails half-way.
pub process_event_keeps_escalation :
    (env : Env) (ev : Event) (w : World) (id : ℕ)
    → has_id w.incident.escalation_state id ≡ true
    → has_id (process_event env ev w).1.incident.escalation_state id ≡ true
process_event_keeps_escalation env ev w id h = (process_event-Grows env ev w).2 id h
