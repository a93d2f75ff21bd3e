-- ===== src/Incident/Exec.antt =====
-- The methods of *Incident as functions on the incident, the open transaction and the committed
-- statements, with an error as the result of an early return. What was changed in memory before an
-- error stays changed.
use icinga_notifications.Prelude.{
  ℕ, ◌+◌, Bool, Option, none, some, List, [], ◌∷◌, ◌++◌, Result, ok, err, if◌then◌else◌,
}
use icinga_notifications.Prelude.Int.{ℤ}
use icinga_notifications.Prelude.Bytes.{Bytes}
use icinga_notifications.Incident.State.{Incident, Config, Statement, HistoryRow, insert_history}

-- What the program does not decide. The n-th operation on the database fails if `fails n`, and an
-- insert that is the n-th yields the id `new_id n`; `clock n` is time.Now() after n operations,
-- and `cancelled n` says that the context is cancelled then. `notify` is Channel.Notify: whether
-- the plugin accepts a notification for a contact on a channel.
pub record Env : Type 0 where
  pub config : Config
  pub fails : ℕ → Bool
  pub new_id : ℕ → ℕ
  pub clock : ℕ → ℤ
  pub cancelled : ℕ → Bool
  pub parse_duration : Bytes → Option ℤ
  pub equal_fold : Bytes → Bytes → Bool
  pub notify : ℕ → ℕ → Bool

pub data Error : Type 0 where
  superfluous_mute_unmute superfluous_state_change superfluous_ack unknown_author : Error
  database_error context_cancelled panic : Error

pub record World : Type 0 where
  pub incident : Incident
  -- the statements of the open transaction, and those that took effect
  pub pending : List Statement
  pub committed : List Statement
  pub operations : ℕ
  -- whether the map of current incidents holds the incident for its object
  pub registered : Bool

abbrev pub Exec {ℓ} : Type ℓ → Type ℓ
Exec A = World → Result Error A × World

module _ {ℓ} {A : Type ℓ} where
  unfoldable pub pure : A → Exec A
  pure a w = (ok a, w)

  unfoldable pub raise : Error → Exec A
  raise e w = (err e, w)

  unfoldable pub gets : (World → A) → Exec A
  gets f w = (ok (f w), w)

  unfoldable pub lift : Option A → Exec A
  lift none w = (err panic, w)
  lift (some a) w = (ok a, w)

module _ {ℓ κ} {A : Type ℓ} {B : Type κ} where
  abbrev pub continue :
      Result Error A → (A → World → Result Error B × World) → World → Result Error B × World
  continue (ok a) f w = f a w
  continue (err e) f w = (err e, w)

  infixl 10 ◌>>=◌
  unfoldable pub ◌>>=◌ : Exec A → (A → Exec B) → Exec B
  ◌>>=◌ m f w = let (r, w') = m w in continue r f w'

module _ {κ} {B : Type κ} where
  infixl 10 ◌>>◌
  unfoldable pub ◌>>◌ : Exec (Unit {0}) → Exec B → Exec B
  unfolding ◌>>=◌
  m >> n = m >>= λ _. n

unfoldable pub modify : (Incident → Incident) → Exec (Unit {0})
modify f w = (ok tt, record w { incident = f w.incident })

-- An operation on the database, and what it does where it does not fail.
unfoldable pub operation : Env → (World → World) → Exec ℕ
operation env f w =
    let w' : World = record w { operations = w.operations + 1 } in
    if env.fails w.operations
    then (err database_error, w')
    else (ok (env.new_id w.operations), f w')

abbrev pub add_pending : Statement → World → World
add_pending s w = record w { pending = w.pending ++ s ∷ [] }

-- InsertAndFetchId and NamedExecContext in the transaction.
unfoldable pub insert_fetch : Env → Statement → Exec ℕ
unfolding operation
insert_fetch env s = operation env (add_pending s)

unfoldable pub execute : Env → Statement → Exec (Unit {0})
unfolding insert_fetch ◌>>=◌ pure
execute env s = insert_fetch env s >>= λ _. pure tt

-- HistoryRow.Sync
unfoldable pub sync_history : Env → HistoryRow → Exec ℕ
unfolding insert_fetch
sync_history env row = insert_fetch env (insert_history row)

-- BeginTxx, Commit, and the deferred Rollback, which does nothing after a commit.
unfoldable pub begin : Env → Exec (Unit {0})
unfolding operation ◌>>=◌ pure
begin env = operation env (λ w. record w { pending = [] }) >>= λ _. pure tt

unfoldable pub commit : Env → Exec (Unit {0})
unfolding operation ◌>>=◌ pure
commit env =
    operation env (λ w. record w { committed = w.committed ++ w.pending; pending = [] }) >>= λ _.
    pure tt

unfoldable pub rollback {ℓ} : {A : Type ℓ} → Exec A → Exec A
rollback m w = let (r, w') = m w in (r, record w' { pending = [] })

unfoldable pub time_now : Env → Exec ℤ
time_now env w = (ok (env.clock w.operations), w)

-- for _, a := range as { body(a) }, left at the first error
unfoldable pub for_each {ℓ} : {A : Type ℓ} → List A → (A → Exec (Unit {0})) → Exec (Unit {0})
unfolding pure ◌>>◌
for_each [] body = pure tt
for_each (a ∷ rest) body = body a >> for_each rest body
