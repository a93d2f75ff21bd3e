-- ===== src/Runtime/Faulty.antt =====
-- internal/config/incremental_sync.go, incrementalApplyPending: what `countErr` counts.
use icinga_notifications.Prelude.{
  ℕ, ◌+◌, ◌≤◌, ◌≡◌, refl, ◌≢◌, Bool, Option-cases, true, false, inl, inr, Option, none, some, List,
  [], ◌∷◌, Result, ok, err, ◌∙◌, arith,
}
use icinga_notifications.Runtime.Maps.{lookup}
use icinga_notifications.Runtime.Tables.{Pointer}
use icinga_notifications.Runtime.Apply.{
  Place, Callbacks, Counts, UpdateError, remove_and_add_instead, callback_failed, entries, call,
  created_or_not, create_action, deleted_or_not, delete_action, create_after, re_add,
  updated_or_not, apply_change, apply_changes, add_updated,
}

-- No callback fails: creating and deleting succeed, and an update succeeds or asks for a re-adding.
pub record Succeeds {S : Type 0} (callbacks : Callbacks S) : Type 0 where
  pub create : (p : Pointer) (s : S) → (call callbacks.create p s).0 ≡ true
  pub remove : (p : Pointer) (s : S) → (call callbacks.remove p s).0 ≡ true
  pub update :
      (f : Pointer → Pointer → S → Result UpdateError (Unit {0}) × S) (old new : Pointer) (s : S)
      → callbacks.update ≡ some f
      → (f old new s).0 ≢ err callback_failed

-- How many failures the result of a callback is.
abbrev pub failures : Bool → ℕ
failures true = 0
failures false = 1

pub add_updated-faulty :
    {S : Type 0} (r : Bool × S × Counts) → (add_updated r).1.faulty ≡ r.2.faulty
add_updated-faulty (false, s, n) = refl
add_updated-faulty (true, s, n) = refl

module _ {S K A : Type 0} (same : K → K → Bool) (place : Place S K A)
    (callbacks : Callbacks S) where
  created_faulty :
      (id : K) (p : Pointer) (r : Bool × S) (n : Counts)
      → (created_or_not same place callbacks id p r n).2.faulty ≡ n.faulty + failures r.0
  unfolding created_or_not
  created_faulty id p (false, s) n = omega arith
  created_faulty id p (true, s) n = omega arith

  pub create_action_faulty :
      (id : K) (p : Pointer) (s : S) (n : Counts)
      → (create_action same place callbacks id p (s, n)).2.faulty
        ≡ n.faulty + failures (call callbacks.create p s).0
  unfolding create_action
  create_action_faulty id p s n = created_faulty id p (call callbacks.create p s) n

  deleted_faulty :
      (id : K) (r : Bool × S) (n : Counts)
      → (deleted_or_not same place callbacks id r n).2.faulty ≡ n.faulty + failures r.0
  unfolding deleted_or_not
  deleted_faulty id (false, s) n = omega arith
  deleted_faulty id (true, s) n = omega arith

  pub delete_action_faulty :
      (id : K) (p : Pointer) (s : S) (n : Counts)
      → (delete_action same place callbacks id p (s, n)).2.faulty
        ≡ n.faulty + failures (delete_action same place callbacks id p (s, n)).0
  unfolding delete_action deleted_or_not
  delete_action_faulty id p s n = deleted_faulty id (call callbacks.remove p s) _

  pub create_after_faulty :
      (id : K) (p : Pointer) (s : S) (n : Counts)
      → (create_after same place callbacks id p (true, s, n)).1.faulty
        ≡ n.faulty + failures (call callbacks.create p s).0
  unfolding create_after
  create_after_faulty id p s n =
      add_updated-faulty (create_action same place callbacks id p (s, n))
      ∙ create_action_faulty id p s n

  pub create_after_mono :
      (id : K) (p : Pointer) (r : Bool × S × Counts)
      → r.2.faulty ≤ (create_after same place callbacks id p r).1.faulty
  unfolding create_after
  create_after_mono id p (false, s, n) = omega arith
  create_after_mono id p (true, s, n) = omega (arith, create_after_faulty id p s n)

  re_add_mono :
      (id : K) (old new : Pointer) (s : S) (n : Counts)
      → n.faulty ≤ (re_add same place callbacks id old new (s, n)).1.faulty
  unfolding re_add
  re_add_mono id old new s n = omega (
    arith,
    delete_action_faulty id old s n,
    create_after_mono id new (delete_action same place callbacks id old (s, n)),
  )

  updated_mono :
      (id : K) (old new : Pointer) (r : Result UpdateError (Unit {0}) × S) (n : Counts)
      → n.faulty ≤ (updated_or_not same place callbacks id old new r n).1.faulty
  unfolding updated_or_not
  updated_mono id old new (ok _, s) n = omega arith
  updated_mono id old new (err remove_and_add_instead, s) n = re_add_mono id old new s n
  updated_mono id old new (err callback_failed, s) n = omega arith

  pub apply_change_mono :
      (id : K) (change old : Option Pointer) (s : S) (n : Counts)
      → n.faulty ≤ (apply_change same place callbacks id change old (s, n)).1.faulty
  unfolding apply_change
  apply_change_mono id none none s n = omega arith
  apply_change_mono id none (some old) s n = omega (arith, delete_action_faulty id old s n)
  apply_change_mono id (some new) none s n = omega (arith, create_action_faulty id new s n)
  apply_change_mono id (some new) (some old) s n = elim (Option-cases callbacks.update) [
    | inl e ↦ rw (e, apply_change) (re_add_mono id old new s n)
    | inr (f, e) ↦ rw (e, apply_change) (updated_mono id old new (f old new s) n)
  ]

  pub apply_changes_mono :
      (changes : List (K × Option Pointer)) (s : S) (n : Counts)
      → n.faulty ≤ (apply_changes same place callbacks changes (s, n)).1.faulty
  unfolding apply_changes
  apply_changes_mono [] s n = omega arith
  apply_changes_mono ((id, change) ∷ rest) s n =
      let old = lookup same (entries place s) id in
      let next = apply_change same place callbacks id change old (s, n) in
      omega (arith, apply_change_mono id change old s n, apply_changes_mono rest next.0 next.1)

  module _ (succeeds : Succeeds callbacks) where
    delete_action_success :
        (id : K) (p : Pointer) (s : S) (n : Counts)
        → (delete_action same place callbacks id p (s, n)).0 ≡ true
    unfolding delete_action deleted_or_not
    delete_action_success id p s n = succeeds.remove p s

    created_kept :
        (id : K) (p : Pointer) (s : S) (n : Counts)
        → (create_action same place callbacks id p (s, n)).2.faulty ≡ n.faulty
    created_kept id p s n = create_action_faulty id p s n ∙ rw (succeeds.create p s) (omega arith)

    deleted_kept :
        (id : K) (p : Pointer) (s : S) (n : Counts)
        → (delete_action same place callbacks id p (s, n)).2.faulty ≡ n.faulty
    deleted_kept id p s n =
        delete_action_faulty id p s n ∙ rw (delete_action_success id p s n) (omega arith)

    create_after_kept :
        (id : K) (p : Pointer) (r : Bool × S × Counts)
        → (create_after same place callbacks id p r).1.faulty ≡ r.2.faulty
    unfolding create_after
    create_after_kept id p (false, s, n) = refl
    create_after_kept id p (true, s, n) =
        add_updated-faulty (create_action same place callbacks id p (s, n)) ∙ created_kept id p s n

    re_add_kept :
        (id : K) (old new : Pointer) (s : S) (n : Counts)
        → (re_add same place callbacks id old new (s, n)).1.faulty ≡ n.faulty
    unfolding re_add
    re_add_kept id old new s n =
        create_after_kept id new (delete_action same place callbacks id old (s, n))
        ∙ deleted_kept id old s n

    updated_kept :
        (id : K) (old new : Pointer) (r : Result UpdateError (Unit {0}) × S) (n : Counts)
        → r.0 ≢ err callback_failed
        → (updated_or_not same place callbacks id old new r n).1.faulty ≡ n.faulty
    unfolding updated_or_not
    updated_kept id old new (ok _, s) n g = refl
    updated_kept id old new (err remove_and_add_instead, s) n g = re_add_kept id old new s n
    updated_kept id old new (err callback_failed, s) n g = absurd (g refl)

    apply_change_kept :
        (id : K) (change old : Option Pointer) (s : S) (n : Counts)
        → (apply_change same place callbacks id change old (s, n)).1.faulty ≡ n.faulty
    unfolding apply_change
    apply_change_kept id none none s n = refl
    apply_change_kept id none (some old) s n = deleted_kept id old s n
    apply_change_kept id (some new) none s n = created_kept id new s n
    apply_change_kept id (some new) (some old) s n = elim (Option-cases callbacks.update) [
      | inl e ↦ rw (e, apply_change) (re_add_kept id old new s n)
      | inr (f, e) ↦
          rw (e, apply_change)
            (updated_kept id old new (f old new s) n (succeeds.update f old new s e))
    ]

    -- If no callback can fail, none is counted.
    pub apply_changes_kept :
        (changes : List (K × Option Pointer)) (s : S) (n : Counts)
        → (apply_changes same place callbacks changes (s, n)).1.faulty ≡ n.faulty
    unfolding apply_changes
    apply_changes_kept [] s n = refl
    apply_changes_kept ((id, change) ∷ rest) s n =
        let old = lookup same (entries place s) id in
        let next = apply_change same place callbacks id change old (s, n) in
        apply_changes_kept rest next.0 next.1 ∙ apply_change_kept id change old s n
