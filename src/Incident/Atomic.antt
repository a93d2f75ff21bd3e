-- ===== src/Incident/Atomic.antt =====
-- internal/incident/incident.go: the database transaction of ProcessEvent.
use icinga_notifications.Prelude.{
  ◌≡◌, ◌≢◌, refl, Bool, Bool-cases, Option-cases, true, false, inl, inr, not, ◌&&◌, Option, none,
  some, List, [], ◌∷◌, Result, ok, err, if◌then◌else◌,
}
use icinga_notifications.Event.Incoming.{Event, is_mute, is_unmute}
use icinga_notifications.Incident.State.{Incident, NotificationEntry, find}
use icinga_notifications.Incident.Exec.{
  Env, Error, superfluous_ack, context_cancelled, World, Exec, pure, modify, continue, operation,
  commit, rollback, for_each, ◌>>=◌, ◌>>◌,
}
use icinga_notifications.Incident.Contacts.{incident, is_some}
use icinga_notifications.Incident.Notifications.{notify_one, notify_contacts}
use icinga_notifications.Incident.Process.{
  conclude, unless_superfluous_ack, or_superfluous_ack, transaction, send_all, process_event,
}
use icinga_notifications.Incident.Moves
use icinga_notifications.Incident.Moves.{IsStable}
use icinga_notifications.Incident.Handlers

-- Nothing was committed in between.
abbrev pub Kept : World → World → Type 0
Kept v w = w.committed ≡ v.committed

Kept-trans : (u v w : World) → Kept u v → Kept v w → Kept u w
Kept-trans u v w a b = cc

Kept-IsStable : IsStable Kept
Kept-IsStable = record {
  rfl = λ w. refl;
  trans = Kept-trans;
  database = λ w n p. refl;
  unregister = λ w. refl;
  plain = λ w i a b c. refl;
  rule = λ w id. refl;
  escalation = λ w id. refl;
  role = λ w k r h. refl;
}

-- From a world on: where the run ends with an error, nothing was committed.
abbrev AtomicAt {ℓ} : {A : Type ℓ} → World → Exec A → Type ℓ
AtomicAt w m = (e : Error) → (m w).0 ≡ err e → Kept w (m w).1

continue-Atomic {ℓ κ} :
    {A : Type ℓ} {B : Type κ} (u w : World) (r : Result Error A) (f : A → Exec B)
    → Kept u w
    → ((a : A) → AtomicAt w (f a))
    → (e : Error) → (continue r f w).0 ≡ err e
    → Kept u (continue r f w).1
continue-Atomic u w (ok a) f h k e g = Kept-trans u w (f a w).1 h (k a e g)
continue-Atomic u w (err d) f h k e g = h

bind-Atomic {ℓ κ} :
    {A : Type ℓ} {B : Type κ} (m : Exec A) (f : A → Exec B) (w : World)
    → Kept w (m w).1
    → ((a : A) (v : World) → AtomicAt v (f a))
    → AtomicAt w (m >>= f)
unfolding ◌>>=◌
bind-Atomic m f w h k = continue-Atomic w (m w).1 (m w).0 f h (λ a. k a (m w).1)

then-Atomic {κ} :
    {B : Type κ} (m : Exec Unit) (n : Exec B) (w : World)
    → Kept w (m w).1
    → ((v : World) → AtomicAt v n)
    → AtomicAt w (m >> n)
unfolding ◌>>◌
then-Atomic m n w h k = bind-Atomic m (λ _. n) w h (λ _. k)

incident-Atomic {κ} :
    {B : Type κ} (f : Incident → Exec B) (w : World)
    → AtomicAt w (f w.incident)
    → AtomicAt w (incident >>= f)
unfolding ◌>>=◌
incident-Atomic f w h = h

cancelled :
    (b : Bool) (e : Error)
    → ◌≡◌ {A = Result Error (Unit {0})} (if b then err context_cancelled else ok tt) (err e)
    → e ≡ context_cancelled
cancelled true e h = cc
cancelled false e h = cc

after :
    (r : Result Error (Unit {0})) (w : World) (n : Exec (Unit {0})) (e : Error)
    → (r ≡ err e → e ≡ context_cancelled)
    → ((v : World) → (n v).0 ≡ err e → e ≡ context_cancelled)
    → (continue r (λ _. n) w).0 ≡ err e
    → e ≡ context_cancelled
after (ok _) w n e k l h = l w h
after (err d) w n e k l h = k cc

continue_unless_sent {ℓ} :
    {A : Type ℓ} (u w : World) (r : Result Error A) (f : A → Exec (Unit {0})) (e : Error)
    → ((a : A) (v : World) → (f a v).0 ≢ err e)
    → (r ≡ err e → Kept u w)
    → (continue r f w).0 ≡ err e
    → Kept u (continue r f w).1
continue_unless_sent u w (ok a) f e k l h = absurd (k a w h)
continue_unless_sent u w (err d) f e k l h = l cc

bind_unless_sent {ℓ} :
    {A : Type ℓ} (m : Exec A) (f : A → Exec (Unit {0})) (w : World) (e : Error)
    → ((a : A) (v : World) → (f a v).0 ≢ err e)
    → ((m w).0 ≡ err e → Kept w (m w).1)
    → ((m >>= f) w).0 ≡ err e
    → Kept w ((m >>= f) w).1
unfolding ◌>>=◌
bind_unless_sent m f w e k l h = continue_unless_sent w (m w).1 (m w).0 f e k l h

module _ (env : Env) where
  commit-modify-Atomic :
      {A : Type 0} (f : Incident → Incident) (a : A) (w : World)
      → AtomicAt w (commit env >> (modify f >> pure a))
  unfolding commit operation ◌>>=◌ ◌>>◌ pure modify
  commit-modify-Atomic f a w e h = elim (Bool-cases (env.fails w.operations)) [
    | inl g ↦ rw (g) refl
    | inr g ↦ let bad = rw (g) at h in cc
  ]

  conclude-Atomic : (ev : Event) (w : World) → AtomicAt w (conclude env ev)
  unfolding conclude
  conclude-Atomic ev w = incident-Atomic _ w (
      bind-Atomic _ _ w (Moves.lift-Moves Kept Kept-IsStable _ w) (λ chs v.
        bind-Atomic _ _ v (Handlers.generate_notifications-Moves Kept Kept-IsStable env ev chs v)
          (λ es u. commit-modify-Atomic _ es u)))

  transaction-Atomic : (ev : Event) (w : World) → AtomicAt w (transaction env ev)
  unfolding transaction
  transaction-Atomic ev w = then-Atomic _ _ w (Moves.begin-Moves Kept Kept-IsStable env w) (λ w1.
      bind-Atomic _ _ w1 (Handlers.sync_event-Moves Kept Kept-IsStable env ev w1) (λ ev2 w2.
        incident-Atomic _ w2 (
          let is_new = not (is_some w2.incident.started_at) in
          then-Atomic _ _ w2
            (Moves.if-Moves Kept Kept-IsStable is_new _ _
              (Handlers.process_incident_opened_event-Moves Kept Kept-IsStable env ev2)
              (Moves.skip-Moves Kept Kept-IsStable) w2)
            (λ w3.
              then-Atomic _ _ w3 (Handlers.add_event-Moves Kept Kept-IsStable env ev2 w3) (λ w4.
                then-Atomic _ _ w4 (Handlers.handle_mute_unmute-Moves Kept Kept-IsStable env ev2 w4)
                  (λ w5.
                    then-Atomic _ _ w5
                      (Handlers.process_type-Moves Kept Kept-IsStable env ev2 is_new ev2.kind w5)
                      (conclude-Atomic ev2)))))))

  unless_superfluous_ack-Kept :
      (v w : World) (r : Result Error (List NotificationEntry)) (e : Error)
      → ((d : Error) → r ≡ err d → Kept v w)
      → (unless_superfluous_ack r w).0 ≡ err e
      → Kept v (unless_superfluous_ack r w).1
  unfolding unless_superfluous_ack
  unless_superfluous_ack-Kept v w (ok es) e h g = cc
  unless_superfluous_ack-Kept v w (err superfluous_ack) e h g = cc
  unless_superfluous_ack-Kept v w (err _) e h g = h _ refl

  attempt-Atomic :
      (ev : Event) (w : World) → AtomicAt w (rollback (or_superfluous_ack (transaction env ev)))
  unfolding rollback or_superfluous_ack
  attempt-Atomic ev w e h =
      unless_superfluous_ack-Kept w (transaction env ev w).1 (transaction env ev w).0 e
        (transaction-Atomic ev w) h

  notify_one_error :
      (entry : NotificationEntry) (w : World) (e : Error)
      → (notify_one env entry w).0 ≡ err e
      → e ≡ context_cancelled
  unfolding notify_one
  notify_one_error entry w e h = elim (Option-cases (find env.config.contacts entry.contact_id)) [
    | inl g ↦ let bad = rw (g, notify_one) at h in cc
    | inr (c, g) ↦ let at_contact = rw (g, notify_one) at h in cancelled _ e at_contact
  ]

  for_each_error :
      {A : Type 0} (xs : List A) (body : A → Exec (Unit {0})) (w : World) (e : Error)
      → ((a : A) (v : World) (d : Error) → (body a v).0 ≡ err d → d ≡ context_cancelled)
      → (for_each xs body w).0 ≡ err e
      → e ≡ context_cancelled
  unfolding for_each ◌>>◌ ◌>>=◌ pure
  for_each_error [] body w e k h = cc
  for_each_error (a ∷ rest) body w e k h =
      after (body a w).0 (body a w).1 (for_each rest body) e (k a w e)
        (λ v. for_each_error rest body v e k) h

  send_all_error :
      (es : Option (List NotificationEntry)) (w : World) (e : Error)
      → (send_all env es w).0 ≡ err e
      → e ≡ context_cancelled
  unfolding send_all notify_contacts pure
  send_all_error none w e h = cc
  send_all_error (some es) w e h = for_each_error es (notify_one env) w e notify_one_error h

-- If Incident.ProcessEvent fails, none of its statements took effect, unless the failure is the
-- cancellation of the context while the notifications are sent.
pub process_event-Atomic :
    (env : Env) (ev : Event) (w : World) (e : Error)
    → (process_event env ev w).0 ≡ err e
    → e ≢ context_cancelled
    → (process_event env ev w).1.committed ≡ w.committed
unfolding process_event
process_event-Atomic env ev w e h sent =
    elim (Bool-cases (w.incident.is_muted && is_mute ev.kind)) [
      | inl m ↦ rw (m) refl
      | inr m ↦ elim (Bool-cases (not w.incident.is_muted && is_unmute ev.kind)) [
        | inl f ↦ rw (m, f) refl
        | inr f ↦
            rw (m, f)
              (bind_unless_sent _ _ w e (λ a v g. absurd (sent (send_all_error env a v e g)))
                (attempt-Atomic env ev w e) (rw (m, f) at h))
      ]
    ]
