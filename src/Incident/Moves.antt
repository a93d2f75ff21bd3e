-- ===== src/Incident/Moves.antt =====
-- How the methods of an incident (incident.go, sync.go) change its state: a relation between the state
-- before and after, which holds of every assignment, holds of every method.
use icinga_notifications.Prelude.{
  ℕ, ◌+◌, ◌≡◌, Bool, Bool-cases, true, false, inl, inr, Option, none, some, List, [], ◌∷◌, ◌++◌,
  Result, ok, err, ◌≤◌, if◌then◌else◌,
}
use icinga_notifications.Incident.Role.{ContactRole, role_rank}
use icinga_notifications.Incident.State.{
  Incident, HistoryRow, Statement, insert_history, find_role, set_role,
}
use icinga_notifications.Incident.Exec.{
  Env, Error, World, Exec, pure, raise, lift, continue, ◌>>=◌, ◌>>◌, modify, operation,
  insert_fetch, execute, sync_history, begin, time_now, for_each,
}
use icinga_notifications.Incident.Contacts.{incident}
use icinga_notifications.Rule.Escalation.{add_id}
use icinga_notifications.Recipient.Recipients.{Key}

pub record IsStable (R : World → World → Type 0) : Type 0 where
  pub rfl : (w : World) → R w w
  pub trans : (u v w : World) → R u v → R v w → R u w
  pub database :
      (w : World) (n : ℕ) (p : List Statement) → R w (record w { operations = n; pending = p })
  pub unregister : (w : World) → R w (record w { registered = false })
  -- an assignment that leaves the rules, the escalations and the recipients
  pub plain :
      (w : World) (i : Incident)
      → i.rules ≡ w.incident.rules
      → i.escalation_state ≡ w.incident.escalation_state
      → i.recipients ≡ w.incident.recipients
      → R w (record w { incident = i })
  pub rule :
      (w : World) (id : ℕ)
      → R w (record w { incident = record w.incident { rules = add_id id w.incident.rules } })
  pub escalation :
      (w : World) (id : ℕ)
      → R w (record w {
        incident = record w.incident { escalation_state = add_id id w.incident.escalation_state };
      })
  pub role :
      (w : World) (k : Key) (r : ContactRole)
      → ((q : ContactRole) → find_role w.incident.recipients k ≡ some q → role_rank q ≤ role_rank r)
      → R w (record w {
        incident = record w.incident { recipients = set_role k r w.incident.recipients };
      })

abbrev pub Moves {ℓ} : {A : Type ℓ} (R : World → World → Type 0) → Exec A → Type 0
Moves R m = (w : World) → R w (m w).1

module _ (R : World → World → Type 0) (s : IsStable R) where
  pub pure-Moves {ℓ} : {A : Type ℓ} (a : A) → Moves R (pure a)
  unfolding pure
  pure-Moves a w = s.rfl w

  pub skip-Moves : Moves R (pure {0} tt)
  unfolding pure
  skip-Moves w = s.rfl w

  pub raise-Moves {ℓ} : (A : Type ℓ) (e : Error) → Moves R (raise {A = A} e)
  unfolding raise
  raise-Moves A e w = s.rfl w

  pub lift-Moves {ℓ} : {A : Type ℓ} (a : Option A) → Moves R (lift a)
  unfolding lift
  lift-Moves none w = s.rfl w
  lift-Moves (some a) w = s.rfl w

  pub continue-Moves {ℓ κ} :
      {A : Type ℓ} {B : Type κ} (u w : World) (r : Result Error A) (f : A → Exec B)
      → R u w
      → ((a : A) → R w (f a w).1)
      → R u (continue r f w).1
  continue-Moves u w (ok a) f h k = s.trans u w _ h (k a)
  continue-Moves u w (err e) f h k = h

  -- a bind, from one world on
  pub bind_at {ℓ κ} :
      {A : Type ℓ} {B : Type κ} (w : World) (m : Exec A) (f : A → Exec B)
      → R w (m w).1
      → ((a : A) → Moves R (f a))
      → R w ((m >>= f) w).1
  unfolding ◌>>=◌
  bind_at w m f h k = continue-Moves w (m w).1 (m w).0 f h (λ a. k a (m w).1)

  pub bind-Moves {ℓ κ} :
      {A : Type ℓ} {B : Type κ} (m : Exec A) (f : A → Exec B)
      → Moves R m
      → ((a : A) → Moves R (f a))
      → Moves R (m >>= f)
  bind-Moves m f h k w = bind_at w m f (h w) k

  pub then-Moves {κ} :
      {B : Type κ} (m : Exec Unit) (n : Exec B) → Moves R m → Moves R n → Moves R (m >> n)
  unfolding ◌>>◌
  then-Moves m n h k = bind-Moves m (λ _. n) h (λ _. k)

  pub then_at {κ} :
      {B : Type κ} (w : World) (m : Exec Unit) (n : Exec B)
      → R w (m w).1
      → Moves R n
      → R w ((m >> n) w).1
  unfolding ◌>>◌
  then_at w m n h k = bind_at w m (λ _. n) h (λ _. k)

  -- a bind of the incident, which the rest can use as the current one
  pub incident-Moves {κ} :
      {B : Type κ} (f : Incident → Exec B)
      → ((w : World) → R w (f w.incident w).1)
      → Moves R (incident >>= f)
  unfolding ◌>>=◌
  incident-Moves f h w = h w

  pub for_each-Moves {ℓ} :
      {A : Type ℓ} (xs : List A) (body : A → Exec Unit)
      → ((a : A) → Moves R (body a))
      → Moves R (for_each xs body)
  unfolding for_each
  for_each-Moves [] body h = skip-Moves
  for_each-Moves (a ∷ rest) body h =
      then-Moves (body a) (for_each rest body) (h a) (for_each-Moves rest body h)

  pub if-Moves {ℓ} :
      {A : Type ℓ} (b : Bool) (m n : Exec A) → Moves R m → Moves R n → Moves R (if b then m else n)
  if-Moves true m n h k = h
  if-Moves false m n h k = k

  pub time_now-Moves : (env : Env) → Moves R (time_now env)
  unfolding time_now
  time_now-Moves env w = s.rfl w

  pub insert_fetch-Moves : (env : Env) (x : Statement) → Moves R (insert_fetch env x)
  unfolding insert_fetch operation
  insert_fetch-Moves env x w = elim (Bool-cases (env.fails w.operations)) [
    | inl e ↦ rw (e) (s.database w (w.operations + 1) w.pending)
    | inr e ↦ rw (e) (s.database w (w.operations + 1) (w.pending ++ x ∷ []))
  ]

  pub execute-Moves : (env : Env) (x : Statement) → Moves R (execute env x)
  unfolding execute
  execute-Moves env x =
      bind-Moves (insert_fetch env x) (λ _. pure tt) (insert_fetch-Moves env x) (λ _. skip-Moves)

  pub sync_history-Moves : (env : Env) (row : HistoryRow) → Moves R (sync_history env row)
  unfolding sync_history
  sync_history-Moves env row = insert_fetch-Moves env (insert_history row)

  pub begin_operation-Moves : (env : Env) → Moves R (operation env (λ w. record w { pending = [] }))
  unfolding operation
  begin_operation-Moves env w = elim (Bool-cases (env.fails w.operations)) [
    | inl e ↦ rw (e) (s.database w (w.operations + 1) w.pending)
    | inr e ↦ rw (e) (s.database w (w.operations + 1) [])
  ]

  pub begin-Moves : (env : Env) → Moves R (begin env)
  unfolding begin
  begin-Moves env = bind-Moves _ (λ _. pure tt) (begin_operation-Moves env) (λ _. skip-Moves)

  -- A change of the incident that leaves the rules, the escalations and the recipients.
  pub modify-Moves :
      (f : Incident → Incident)
      → ((i : Incident) → (f i).rules ≡ i.rules)
      → ((i : Incident) → (f i).escalation_state ≡ i.escalation_state)
      → ((i : Incident) → (f i).recipients ≡ i.recipients)
      → Moves R (modify f)
  unfolding modify
  modify-Moves f a b c w = s.plain w (f w.incident) (a w.incident) (b w.incident) (c w.incident)
