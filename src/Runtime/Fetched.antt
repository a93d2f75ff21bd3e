-- ===== src/Runtime/Fetched.antt =====
-- internal/config/incremental_sync.go, incrementalFetch: the pending changes of the fetched rows.
use icinga_notifications.Prelude.{
  ◌≡◌, refl, sym, ap, Bool, Bool-cases, Option-cases, true, false, not, inl, inr, Option, none,
  some, List, [], ◌∷◌, ◌∙◌, if◌then◌else◌, length,
}
use icinga_notifications.Prelude.Int.{ℤ}
use icinga_notifications.Runtime.Maps
use icinga_notifications.Runtime.Maps.{IsKey, lookup, put}
use icinga_notifications.Runtime.Tables.{
  Pointer, Table, Row, allocate, mark_deleted, mark_changed, fetch_row, fetch_rows,
}
use icinga_notifications.Runtime.Merge.{has}
use icinga_notifications.Runtime.Refine.{Distinct, merged}

module _ {K V : Type 0} (same : K → K → Bool) (key : IsKey same) where
  Distinct-put :
      (k : K) (v : V) (m : List (K × V)) → Distinct same m → Distinct same (put same k v m)
  unfolding put lookup
  Distinct-put k v [] d = (refl, tt)
  Distinct-put k v ((j, w) ∷ m) d = elim (Bool-cases (same j k)) [
    | inl e ↦ rw (e) (d.0, d.1)
    | inr e ↦ rw (e) (
      (Maps.lookup-put_ne same key k v m j (Maps.apart same key j k j e (key.self j)) ∙ d.0),
      Distinct-put k v m d.1,
    )
  ]

if_same : {A : Type 0} (b : Bool) (a : A) → (if b then a else a) ≡ a
if_same true a = refl
if_same false a = refl

-- The time of the last row.
unfoldable pub last_changed : {K A : Type 0} → List (Row K A) → Option ℤ → Option ℤ
last_changed [] t = t
last_changed (row ∷ rows) t = last_changed rows (some row.changed_at)

module _ {K A : Type 0} (same : K → K → Bool) (init : A → Option A) where
  -- A row decides whether its element is to be there: an element that is not valid is passed over, and
  -- so is a deletion in the first synchronisation.
  unfoldable pub decides : Bool → Row K A → Bool → Bool
  decides has_changed_at row before =
      if row.deleted
      then (if not has_changed_at then before else false)
      else (if has (init row.element) then true else before)

  -- The specification of a fetch: the rows of the element, one after the other.
  unfoldable pub wanted : Bool → List (Row K A) → K → Bool → Bool
  unfolding decides
  wanted has_changed_at [] q before = before
  wanted has_changed_at (row ∷ rows) q before =
      wanted has_changed_at rows q
        (if same row.key q then decides has_changed_at row before else before)

module _ {K A : Type 0} (same : K → K → Bool) (init : A → Option A) where
  entries-fetch_row :
      (h : Bool) (row : Row K A) (t : Table K A) → (fetch_row same init h row t).entries ≡ t.entries
  unfolding fetch_row mark_deleted mark_changed allocate
  entries-fetch_row h row t = elim (Bool-cases row.deleted) [
    | inl d ↦ elim (Bool-cases h) [ inl g ↦ rw (d, g) refl | inr g ↦ rw (d, g) refl ]
    | inr d ↦ elim (Option-cases (init row.element)) [
      | inl g ↦ rw (d, g) refl
      | inr (a, g) ↦ rw (d, g) refl
    ]
  ]

  pub entries-fetch_rows :
      (h : Bool) (rows : List (Row K A)) (t : Table K A)
      → (fetch_rows same init h rows t).entries ≡ t.entries
  unfolding fetch_rows
  entries-fetch_rows h [] t = refl
  entries-fetch_rows h (row ∷ rows) t =
      entries-fetch_rows h rows (fetch_row same init h row t) ∙ entries-fetch_row h row t

  changed_at-fetch_row :
      (h : Bool) (row : Row K A) (t : Table K A)
      → (fetch_row same init h row t).changed_at ≡ some row.changed_at
  unfolding fetch_row mark_deleted mark_changed allocate
  changed_at-fetch_row h row t = elim (Bool-cases row.deleted) [
    | inl d ↦ elim (Bool-cases h) [ inl g ↦ rw (d, g) refl | inr g ↦ rw (d, g) refl ]
    | inr d ↦ elim (Option-cases (init row.element)) [
      | inl g ↦ rw (d, g) refl
      | inr (a, g) ↦ rw (d, g) refl
    ]
  ]

  pub changed_at-fetch_rows :
      (h : Bool) (rows : List (Row K A)) (t : Table K A)
      → (fetch_rows same init h rows t).changed_at ≡ last_changed rows t.changed_at
  unfolding fetch_rows last_changed
  changed_at-fetch_rows h [] t = refl
  changed_at-fetch_rows h (row ∷ rows) t =
      changed_at-fetch_rows h rows (fetch_row same init h row t)
      ∙ ap (last_changed rows) (changed_at-fetch_row h row t)

module _ {K A : Type 0} (same : K → K → Bool) (init : A → Option A) (key : IsKey same) where
  merged-put :
      (k q : K) (v : Option Pointer) (m : List (K × Option Pointer)) (before : Bool)
      → merged (lookup same (put same k v m) q) before
        ≡ (if same k q then merged (some v) before else merged (lookup same m q) before)
  merged-put k q v m before = elim (Bool-cases (same k q)) [
    | inl e ↦ ap (λ o. merged o before) (Maps.lookup-put same key k v m q) ∙ rw (e) refl
    | inr e ↦ ap (λ o. merged o before) (Maps.lookup-put same key k v m q) ∙ rw (e) refl
  ]

  fetched_row :
      (h : Bool) (row : Row K A) (t : Table K A) (q : K) (before : Bool)
      → merged (lookup same (fetch_row same init h row t).changes q) before ≡ (
          if same row.key q
          then decides same init h row (merged (lookup same t.changes q) before)
          else merged (lookup same t.changes q) before)
  unfolding fetch_row mark_deleted decides merged mark_changed allocate
  fetched_row h row t q before = elim (Bool-cases row.deleted) [
    | inl d ↦ elim (Bool-cases h) [
      | inl g ↦ rw (d, g) (merged-put row.key q none t.changes before)
      | inr g ↦ rw (d, g) (sym (if_same (same row.key q) (merged (lookup same t.changes q) before)))
    ]
    | inr d ↦ elim (Option-cases (init row.element)) [
      | inl g ↦ rw (d, g) (sym (if_same (same row.key q) (merged (lookup same t.changes q) before)))
      | inr (a, g) ↦ rw (d, g) (merged-put row.key q (some (length t.elements)) t.changes before)
    ]
  ]

  pub fetched :
      (h : Bool) (rows : List (Row K A)) (t : Table K A) (q : K) (before : Bool)
      → merged (lookup same (fetch_rows same init h rows t).changes q) before
        ≡ wanted same init h rows q (merged (lookup same t.changes q) before)
  unfolding fetch_rows wanted
  fetched h [] t q before = refl
  fetched h (row ∷ rows) t q before =
      fetched h rows (fetch_row same init h row t) q before
      ∙ ap (wanted same init h rows q) (fetched_row h row t q before)

  Distinct-fetch_row :
      (h : Bool) (row : Row K A) (t : Table K A)
      → Distinct same t.changes
      → Distinct same (fetch_row same init h row t).changes
  unfolding fetch_row mark_deleted mark_changed allocate
  Distinct-fetch_row h row t u = elim (Bool-cases row.deleted) [
    | inl d ↦ elim (Bool-cases h) [
      | inl g ↦ rw (d, g) (Distinct-put same key row.key none t.changes u)
      | inr g ↦ rw (d, g) u
    ]
    | inr d ↦ elim (Option-cases (init row.element)) [
      | inl g ↦ rw (d, g) u
      | inr (a, g) ↦
          rw (d, g) (Distinct-put same key row.key (some (length t.elements)) t.changes u)
    ]
  ]

  pub Distinct-fetch_rows :
      (h : Bool) (rows : List (Row K A)) (t : Table K A)
      → Distinct same t.changes
      → Distinct same (fetch_rows same init h rows t).changes
  unfolding fetch_rows
  Distinct-fetch_rows h [] t u = u
  Distinct-fetch_rows h (row ∷ rows) t u =
      Distinct-fetch_rows h rows (fetch_row same init h row t) (Distinct-fetch_row h row t u)
