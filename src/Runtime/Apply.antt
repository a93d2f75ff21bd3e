-- ===== src/Runtime/Apply.antt =====
-- internal/config/incremental_sync.go, incrementalApplyPending.
use icinga_notifications.Prelude.{
  ℕ, ◌+◌, Bool, true, false, ◌||◌, Option, none, some, List, [], ◌∷◌, Result, ok, err, ltb,
  if◌then◌else◌,
}
use icinga_notifications.Runtime.Maps.{lookup, put, delete}
use icinga_notifications.Runtime.Tables.{Pointer, Table}

pub data UpdateError : Type 0 where
  remove_and_add_instead callback_failed : UpdateError

-- Where a table stands in the whole configuration.
pub record Place (S K A : Type 0) : Type 0 where
  pub table : S → Table K A
  pub with_table : Table K A → S → S

-- The three callbacks; each may change the configuration, also where it fails. `none` is nil.
pub record Callbacks (S : Type 0) : Type 0 where
  pub create : Option (Pointer → S → Bool × S)
  pub update : Option (Pointer → Pointer → S → Result UpdateError (Unit {0}) × S)
  pub remove : Option (Pointer → S → Bool × S)

pub record Counts : Type 0 where
  pub faulty : ℕ
  pub deleted_unknown : ℕ
  pub deleted : ℕ
  pub updated : ℕ
  pub created : ℕ

abbrev pub no_counts : Counts
no_counts = record { faulty = 0; deleted_unknown = 0; deleted = 0; updated = 0; created = 0 }

module _ {S K A : Type 0} (place : Place S K A) where
  abbrev pub entries : S → List (K × Pointer)
  entries s = (place.table s).entries

  unfoldable pub with_entries : List (K × Pointer) → S → S
  with_entries m s = place.with_table (record (place.table s) { entries = m }) s

  unfoldable pub clear_changes : S → S
  clear_changes s = place.with_table (record (place.table s) { changes = [] }) s

-- A callback that is nil does nothing.
unfoldable pub call : {S : Type 0} → Option (Pointer → S → Bool × S) → Pointer → S → Bool × S
call none p s = (true, s)
call (some f) p s = f p s

abbrev pub with_counts : {S : Type 0} → Bool × S × Counts → S × Counts
with_counts (_, s, n) = (s, n)

abbrev pub add_updated : {S : Type 0} → Bool × S × Counts → S × Counts
add_updated (false, s, n) = (s, n)
add_updated (true, s, n) = (s, record n { updated = n.updated + 1 })

abbrev pub any_count : Counts → Bool
any_count n =
    ltb 0 n.faulty
    || ltb 0 n.deleted_unknown
    || ltb 0 n.deleted
    || ltb 0 n.updated
    || ltb 0 n.created

module _ {S K A : Type 0} (same : K → K → Bool) (place : Place S K A)
    (callbacks : Callbacks S) where
  -- What follows the callback in createAction: the result, the configuration and the counts.
  unfoldable pub created_or_not : K → Pointer → Bool × S → Counts → Bool × S × Counts
  unfolding with_entries
  created_or_not id p (false, s) n = (false, s, record n { faulty = n.faulty + 1 })
  created_or_not id p (true, s) n = (
    true,
    with_entries place (put same id p (entries place s)) s,
    record n { created = n.created + 1 },
  )

  unfoldable pub create_action : K → Pointer → S × Counts → Bool × S × Counts
  unfolding created_or_not call
  create_action id p (s, n) = created_or_not id p (call callbacks.create p s) n

  -- The entry is deleted whatever the callback returns.
  unfoldable pub deleted_or_not : K → Bool × S → Counts → Bool × S × Counts
  unfolding with_entries
  deleted_or_not id (success, s) n = (
    success,
    with_entries place (delete same id (entries place s)) s,
    (if success then n else record n { faulty = n.faulty + 1 }),
  )

  unfoldable pub delete_action : K → Pointer → S × Counts → Bool × S × Counts
  unfolding deleted_or_not call
  delete_action id p (s, n) =
      deleted_or_not id (call callbacks.remove p s) (record n { deleted = n.deleted + 1 })

  unfoldable pub create_after : K → Pointer → Bool × S × Counts → S × Counts
  unfolding create_action
  create_after id p (false, s, n) = (s, n)
  create_after id p (true, s, n) = add_updated (create_action id p (s, n))

  unfoldable pub re_add : K → Pointer → Pointer → S × Counts → S × Counts
  unfolding create_after delete_action
  re_add id old new sn = create_after id new (delete_action id old sn)

  unfoldable pub updated_or_not :
      K → Pointer → Pointer → Result UpdateError (Unit {0}) × S → Counts → S × Counts
  unfolding re_add
  updated_or_not id old new (ok _, s) n = (s, record n { updated = n.updated + 1 })
  updated_or_not id old new (err remove_and_add_instead, s) n = re_add id old new (s, n)
  updated_or_not id old new (err callback_failed, s) n = (s, record n { faulty = n.faulty + 1 })

  -- The body of the loop: the pending change of `id`, and what the live configuration has for it.
  unfoldable pub apply_change : K → Option Pointer → Option Pointer → S × Counts → S × Counts
  unfolding delete_action create_action updated_or_not re_add
  apply_change id none none (s, n) = (s, record n { deleted_unknown = n.deleted_unknown + 1 })
  apply_change id none (some old) sn = with_counts (delete_action id old sn)
  apply_change id (some new) none sn = with_counts (create_action id new sn)
  apply_change id (some new) (some old) (s, n) = elim callbacks.update [
    | none ↦ re_add id old new (s, n)
    | some update ↦ updated_or_not id old new (update old new s) n
  ]

  unfoldable pub apply_changes : List (K × Option Pointer) → S × Counts → S × Counts
  unfolding apply_change
  apply_changes [] sn = sn
  apply_changes ((id, change) ∷ rest) sn =
      apply_changes rest (apply_change id change (lookup same (entries place sn.0) id) sn)

  -- The configuration, and whether something was applied.
  unfoldable pub incremental_apply_pending : S → Bool × S
  unfolding apply_changes clear_changes
  incremental_apply_pending s =
      let (s', n) = apply_changes (place.table s).changes (s, no_counts) in
      (any_count n, clear_changes place s')
