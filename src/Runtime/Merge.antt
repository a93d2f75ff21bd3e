-- ===== src/Runtime/Merge.antt =====
-- internal/config/incremental_sync.go, incrementalApplyPending: which elements the live configuration has
-- afterwards, against a specification by the pending changes alone.
use icinga_notifications.Prelude.{
  ◌+◌, sym, arith, ◌≡◌, refl, ap, Bool, Bool-cases, Option-cases, true, false, inl, inr, Option,
  none, some, List, Result, ok, err, ◌∙◌, if◌then◌else◌,
}
use icinga_notifications.Runtime.Maps
use icinga_notifications.Runtime.Maps.{IsKey, lookup, put, delete}
use icinga_notifications.Runtime.Tables.{Pointer, Table}
use icinga_notifications.Runtime.Apply.{
  Place, Callbacks, Counts, UpdateError, remove_and_add_instead, callback_failed, entries,
  with_entries, call, created_or_not, create_action, deleted_or_not, delete_action, create_after,
  re_add, updated_or_not, apply_change, add_updated,
}
use icinga_notifications.Runtime.Faulty
use icinga_notifications.Runtime.Faulty.{failures, add_updated-faulty}

-- What is written through a place is read from it.
pub record IsPlace {S K A : Type 0} (place : Place S K A) : Type 0 where
  pub table-with_table : (t : Table K A) (s : S) → place.table (place.with_table t s) ≡ t

-- The callbacks leave the live map to the caller, as the code expects of them.
pub record KeepsEntries {S K A : Type 0} (place : Place S K A) (callbacks : Callbacks S)
    : Type 0 where
  pub create : (p : Pointer) (s : S) → entries place (call callbacks.create p s).1 ≡ entries place s
  pub remove : (p : Pointer) (s : S) → entries place (call callbacks.remove p s).1 ≡ entries place s
  pub update :
      (f : Pointer → Pointer → S → Result UpdateError (Unit {0}) × S) (old new : Pointer) (s : S)
      → callbacks.update ≡ some f
      → entries place (f old new s).1 ≡ entries place s

add_updated-state : {S : Type 0} (r : Bool × S × Counts) → (add_updated r).0 ≡ r.1
add_updated-state (false, s, n) = refl
add_updated-state (true, s, n) = refl

-- A map with edits of one key.
pub data Edits {K : Type 0} (same : K → K → Bool) (id : K) (m : List (K × Pointer))
    : List (K × Pointer) → Type 0 where
  unchanged : Edits same id m m
  deleted : {m' : List (K × Pointer)} → Edits same id m m' → Edits same id m (delete same id m')
  placed :
      {m' : List (K × Pointer)} (p : Pointer)
      → Edits same id m m'
      → Edits same id m (put same id p m')

abbrev pub has : {V : Type 0} → Option V → Bool
has none = false
has (some _) = true

module _ {K : Type 0} (same : K → K → Bool) (key : IsKey same) where
  pub Edits-other :
      {id : K} {m m' : List (K × Pointer)} (q : K)
      → same id q ≡ false
      → Edits same id m m'
      → lookup same m' q ≡ lookup same m q
  Edits-other q h unchanged = refl
  Edits-other {id = id} q h (deleted {m' = m'} e) =
      Maps.lookup-delete_ne same key id m' q h ∙ Edits-other q h e
  Edits-other {id = id} q h (placed {m' = m'} p e) =
      Maps.lookup-put_ne same key id p m' q h ∙ Edits-other q h e

  has-put :
      (id : K) (p : Pointer) (m : List (K × Pointer))
      → has (lookup same (put same id p m) id) ≡ true
  has-put id p m = ap has (Maps.lookup-put_self same key id p m)

module _ {S K A : Type 0} (same : K → K → Bool) (place : Place S K A) (callbacks : Callbacks S)
    (key : IsKey same) (lens : IsPlace place) (keeps : KeepsEntries place callbacks) where
  entries-with_entries :
      (m : List (K × Pointer)) (s : S) → entries place (with_entries place m s) ≡ m
  unfolding with_entries
  entries-with_entries m s =
      ap (λ t. t.entries) (lens.table-with_table (record (place.table s) { entries = m }) s)

  created :
      (id : K) (p : Pointer) (r : Bool × S) (n : Counts)
      → entries place (created_or_not same place callbacks id p r n).1
        ≡ (if r.0 then put same id p (entries place r.1) else entries place r.1)
  unfolding created_or_not
  created id p (false, s) n = refl
  created id p (true, s) n = entries-with_entries (put same id p (entries place s)) s

  create_action_entries :
      (id : K) (p : Pointer) (s : S) (n : Counts)
      → entries place (create_action same place callbacks id p (s, n)).1 ≡ (
          if (call callbacks.create p s).0
          then put same id p (entries place s)
          else entries place s)
  unfolding create_action
  create_action_entries id p s n =
      created id p (call callbacks.create p s) n ∙ rw (keeps.create p s) refl

  delete_action_entries :
      (id : K) (p : Pointer) (s : S) (n : Counts)
      → entries place (delete_action same place callbacks id p (s, n)).1
        ≡ delete same id (entries place s)
  unfolding delete_action deleted_or_not
  delete_action_entries id p s n =
      entries-with_entries (delete same id (entries place (call callbacks.remove p s).1))
        (call callbacks.remove p s).1
      ∙ rw (keeps.remove p s) refl

  create_action-Edits :
      (id : K) (p : Pointer) (s : S) (n : Counts) (m : List (K × Pointer))
      → Edits same id m (entries place s)
      → Edits same id m (entries place (create_action same place callbacks id p (s, n)).1)
  create_action-Edits id p s n m e =
      rw (create_action_entries id p s n) (elim (Bool-cases (call callbacks.create p s).0) [
        | inl h ↦ rw (h) (placed p e)
        | inr h ↦ rw (h) e
      ])

  delete_action-Edits :
      (id : K) (p : Pointer) (s : S) (n : Counts)
      → Edits same id
          (entries place s)
          (entries place (delete_action same place callbacks id p (s, n)).1)
  delete_action-Edits id p s n = rw (delete_action_entries id p s n) (deleted unchanged)

  create_after-Edits :
      (id : K) (p : Pointer) (r : Bool × S × Counts) (m : List (K × Pointer))
      → Edits same id m (entries place r.1)
      → Edits same id m (entries place (create_after same place callbacks id p r).0)
  unfolding create_after
  create_after-Edits id p (false, s, n) m e = e
  create_after-Edits id p (true, s, n) m e =
      rw (add_updated-state (create_action same place callbacks id p (s, n)))
        (create_action-Edits id p s n m e)

  re_add-Edits :
      (id : K) (old new : Pointer) (s : S) (n : Counts)
      → Edits same id
          (entries place s)
          (entries place (re_add same place callbacks id old new (s, n)).0)
  unfolding re_add
  re_add-Edits id old new s n =
      create_after-Edits id new (delete_action same place callbacks id old (s, n)) (entries place s)
        (delete_action-Edits id old s n)

  updated-Edits :
      (id : K) (old new : Pointer) (r : Result UpdateError (Unit {0}) × S) (n : Counts)
      (m : List (K × Pointer))
      → entries place r.1 ≡ m
      → Edits same id m (entries place (updated_or_not same place callbacks id old new r n).0)
  unfolding updated_or_not
  updated-Edits id old new (ok _, s) n m e = rw e unchanged
  updated-Edits id old new (err remove_and_add_instead, s) n m e =
      rw e at (re_add-Edits id old new s n)
  updated-Edits id old new (err callback_failed, s) n m e = rw e unchanged

  pub apply_change-Edits :
      (id : K) (change old : Option Pointer) (s : S) (n : Counts)
      → Edits same id
          (entries place s)
          (entries place (apply_change same place callbacks id change old (s, n)).0)
  unfolding apply_change
  apply_change-Edits id none none s n = unchanged
  apply_change-Edits id none (some old) s n = delete_action-Edits id old s n
  apply_change-Edits id (some new) none s n =
      create_action-Edits id new s n (entries place s) unchanged
  apply_change-Edits id (some new) (some old) s n = elim (Option-cases callbacks.update) [
    | inl e ↦ rw (e, apply_change) (re_add-Edits id old new s n)
    | inr (f, e) ↦
        rw (e, apply_change)
          (updated-Edits id old new (f old new s) n (entries place s) (keeps.update f old new s e))
  ]

  -- A deleted element is gone, whatever its callback returned.
  pub apply_change_deleted :
      (id : K) (s : S) (n : Counts)
      → lookup same
          (entries place
            (apply_change same place callbacks id none (lookup same (entries place s) id) (s, n)).0)
          id
        ≡ none
  unfolding apply_change
  apply_change_deleted id s n = elim (Option-cases (lookup same (entries place s) id)) [
    | inl e ↦ rw (e, apply_change) e
    | inr (old, e) ↦
        rw (e, apply_change)
          (rw (delete_action_entries id old s n)
            (Maps.lookup-delete_self same key id (entries place s)))
  ]

  -- Where no failure is counted, the callback for the new element succeeded.
  create_action-has :
      (id : K) (p : Pointer) (s : S) (n : Counts)
      → (create_action same place callbacks id p (s, n)).2.faulty ≡ n.faulty
      → has (lookup same (entries place (create_action same place callbacks id p (s, n)).1) id)
        ≡ true
  create_action-has id p s n h = elim (Bool-cases (call callbacks.create p s).0) [
    | inl e ↦ rw (create_action_entries id p s n, e) (has-put same key id p (entries place s))
    | inr e ↦
        let counted = rw (e) at (Faulty.create_action_faulty same place callbacks id p s n) in
        absurd (omega arith)
  ]

  create_after-has :
      (id : K) (p : Pointer) (r : Bool × S × Counts) (n : Counts)
      → r.2.faulty ≡ n.faulty + failures r.0
      → (create_after same place callbacks id p r).1.faulty ≡ n.faulty
      → has (lookup same (entries place (create_after same place callbacks id p r).0) id) ≡ true
  unfolding create_after
  create_after-has id p (false, s, m) n k h = absurd (omega arith)
  create_after-has id p (true, s, m) n k h =
      rw (add_updated-state (create_action same place callbacks id p (s, m))) (
        create_action-has id p s m (
          sym (add_updated-faulty (create_action same place callbacks id p (s, m)))
          ∙ h
          ∙ omega arith))

  re_add-has :
      (id : K) (old new : Pointer) (s : S) (n : Counts)
      → (re_add same place callbacks id old new (s, n)).1.faulty ≡ n.faulty
      → has (lookup same (entries place (re_add same place callbacks id old new (s, n)).0) id)
        ≡ true
  unfolding re_add
  re_add-has id old new s n h =
      create_after-has id new (delete_action same place callbacks id old (s, n)) n
        (Faulty.delete_action_faulty same place callbacks id old s n) h

  updated_has :
      (id : K) (old new : Pointer) (r : Result UpdateError (Unit {0}) × S) (n : Counts)
      → has (lookup same (entries place r.1) id) ≡ true
      → (updated_or_not same place callbacks id old new r n).1.faulty ≡ n.faulty
      → has (lookup same (entries place (updated_or_not same place callbacks id old new r n).0) id)
        ≡ true
  unfolding updated_or_not
  updated_has id old new (ok _, s) n h g = h
  updated_has id old new (err remove_and_add_instead, s) n h g = re_add-has id old new s n g
  updated_has id old new (err callback_failed, s) n h g = absurd (omega arith)

  pub apply_change_present :
      (id : K) (new : Pointer) (s : S) (n : Counts)
      → (apply_change same place callbacks id
          (some new)
          (lookup same (entries place s) id)
          (s, n)).1.faulty
        ≡ n.faulty
      → has (
          lookup same
            (entries place
              (apply_change same place callbacks id
                (some new)
                (lookup same (entries place s) id)
                (s, n)).0)
            id)
        ≡ true
  unfolding apply_change
  apply_change_present id new s n h = elim (Option-cases (lookup same (entries place s) id)) [
    | inl e ↦ rw (e, apply_change) (create_action-has id new s n (rw (e, apply_change) at h))
    | inr (old, e) ↦ elim (Option-cases callbacks.update) [
      | inl u ↦ rw (e, u, apply_change) (re_add-has id old new s n (rw (e, u, apply_change) at h))
      | inr (f, u) ↦
          rw (e, u, apply_change)
            (updated_has id old new (f old new s) n (rw (keeps.update f old new s u, e) refl)
              (rw (e, u, apply_change) at h))
    ]
  ]
