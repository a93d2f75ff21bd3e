-- ===== src/Runtime/Tables.antt =====
-- internal/config/incremental_sync.go: the elements of one table of the configuration, and the fetch of
-- their changes.
use icinga_notifications.Prelude.{
  ℕ, zero, suc, Bool, true, false, not, Option, none, some, List, [], ◌∷◌, ◌++◌, if◌then◌else◌,
  length, get_elem?,
}
use icinga_notifications.Prelude.Int.{ℤ}
use icinga_notifications.Runtime.Maps.{put}

-- A pointer is the place of an element in the order of their allocation.
abbrev pub Pointer : Type 0
Pointer = ℕ

-- A table of the configuration: every element that was allocated, by its pointer, the map of the
-- live configuration, that of the pending changes, where a nil pointer marks a deletion, and the
-- last known `changed_at`.
pub record Table (K A : Type 0) : Type 0 where
  pub elements : List A
  pub entries : List (K × Pointer)
  pub changes : List (K × Option Pointer)
  pub changed_at : Option ℤ

-- A row of the table in the database.
pub record Row (K A : Type 0) : Type 0 where
  pub key : K
  pub element : A
  pub changed_at : ℤ
  pub deleted : Bool

unfoldable pub empty_table : {K A : Type 0} → Table K A
empty_table = record { elements = []; entries = []; changes = []; changed_at = none }

unfoldable pub modify_at : {A : Type 0} → (A → A) → List A → Pointer → List A
modify_at f [] p = []
modify_at f (a ∷ rest) zero = f a ∷ rest
modify_at f (a ∷ rest) (suc p) = a ∷ modify_at f rest p

module _ {K A : Type 0} where
  unfoldable pub load : Table K A → Pointer → Option A
  load t p = get_elem? t.elements p

  -- An assignment through a pointer.
  unfoldable pub modify : Pointer → (A → A) → Table K A → Table K A
  unfolding modify_at
  modify p f t = record t { elements = modify_at f t.elements p }

  -- An element that is not in a map yet.
  unfoldable pub allocate : A → Table K A → Pointer × Table K A
  allocate a t = (length t.elements, record t { elements = t.elements ++ a ∷ [] })

abbrev pub has_time : Option ℤ → Bool
has_time none = false
has_time (some _) = true

-- incrementalFetch. `init` is IncrementalInitAndValidate, with the element that it has initialized.
module _ {K A : Type 0} (same : K → K → Bool) (init : A → Option A) where
  unfoldable pub mark_deleted : K → Table K A → Table K A
  mark_deleted k t = record t { changes = put same k none t.changes }

  unfoldable pub mark_changed : K → Option A → Table K A → Table K A
  unfolding allocate
  mark_changed k none t = t
  mark_changed k (some a) t =
      let (p, t') = allocate a t in record t' { changes = put same k (some p) t'.changes }

  -- The body of the loop over the fetched rows.
  unfoldable pub fetch_row : Bool → Row K A → Table K A → Table K A
  unfolding mark_deleted mark_changed
  fetch_row has_changed_at row t =
      let t' : Table K A = record t { changed_at = some row.changed_at } in
      if row.deleted
      then (if not has_changed_at then t' else mark_deleted row.key t')
      else mark_changed row.key (init row.element) t'

  unfoldable pub fetch_rows : Bool → List (Row K A) → Table K A → Table K A
  unfolding fetch_row
  fetch_rows has_changed_at [] t = t
  fetch_rows has_changed_at (row ∷ rows) t =
      fetch_rows has_changed_at rows (fetch_row has_changed_at row t)

  -- `select` is the query: the rows in the order of `changed_at`, only those after the given time
  -- if there is one, or nothing if it fails.
  unfoldable pub incremental_fetch :
      (Option ℤ → Option (List (Row K A))) → Table K A → Bool × Table K A
  unfolding fetch_rows
  incremental_fetch select t = elim (select t.changed_at) [
    | none ↦ (false, t)
    | some rows ↦ (true, fetch_rows (has_time t.changed_at) rows (record t { changes = [] }))
  ]
