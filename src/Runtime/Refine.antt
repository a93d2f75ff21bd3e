-- ===== src/Runtime/Refine.antt =====
-- internal/config/incremental_sync.go: the pending changes of a table, merged into the live configuration.
use icinga_notifications.Prelude.{
  arith, ◌≡◌, refl, sym, ap, Bool, Bool-cases, true, false, inl, inr, Option, none, some, List, [],
  ◌∷◌, ◌∙◌,
}
use icinga_notifications.Runtime.Maps.{IsKey, lookup}
use icinga_notifications.Runtime.Tables.{Pointer}
use icinga_notifications.Runtime.Apply.{
  Place, Callbacks, Counts, entries, apply_change, apply_changes, clear_changes,
  incremental_apply_pending, no_counts,
}
use icinga_notifications.Runtime.Faulty
use icinga_notifications.Runtime.Merge
use icinga_notifications.Runtime.Merge.{IsPlace, KeepsEntries, has}

-- A Go map has every key once.
abbrev pub Distinct : {K V : Type 0} → (K → K → Bool) → List (K × V) → Type 0
Distinct same [] = Unit
Distinct same ((k, v) ∷ m) = (lookup same m k ≡ none) × Distinct same m

-- The specification: an element is there if its pending change is not a deletion, or if it has none and
-- was there before.
unfoldable pub merged : Option (Option Pointer) → Bool → Bool
merged none before = before
merged (some none) before = false
merged (some (some _)) before = true

module _ {S K A : Type 0} (same : K → K → Bool) (place : Place S K A) (callbacks : Callbacks S)
    (key : IsKey same) (lens : IsPlace place) (keeps : KeepsEntries place callbacks) where
  after_change :
      (id q : K) (change old : Option Pointer) (s : S) (n : Counts)
      → same id q ≡ false
      → lookup same (entries place (apply_change same place callbacks id change old (s, n)).0) q
        ≡ lookup same (entries place s) q
  after_change id q change old s n h =
      Merge.Edits-other same key q h
        (Merge.apply_change-Edits same place callbacks key lens keeps id change old s n)

  untouched :
      (changes : List (K × Option Pointer)) (q : K) (s : S) (n : Counts)
      → lookup same changes q ≡ none
      → lookup same (entries place (apply_changes same place callbacks changes (s, n)).0) q
        ≡ lookup same (entries place s) q
  unfolding apply_changes lookup
  untouched [] q s n h = refl
  untouched ((id, change) ∷ rest) q s n h = elim (Bool-cases (same id q)) [
    | inl e ↦ let bad = rw (e) at h in cc
    | inr e ↦
        let next =
          apply_change same place callbacks id change (lookup same (entries place s) id) (s, n) in
        untouched rest q next.0 next.1 (rw (e) at h)
        ∙ after_change id q change (lookup same (entries place s) id) s n e
  ]

  -- The rest of a map that has a key first does not have it again.
  rest_without :
      (id q : K) (rest : List (K × Option Pointer))
      → same id q ≡ true
      → lookup same rest id ≡ none
      → lookup same rest q ≡ none
  rest_without id q rest e h = rw (key.sound id q e) at h

  at_key :
      (id q : K) → same id q ≡ true → (m : List (K × Pointer)) → lookup same m q ≡ lookup same m id
  at_key id q e m = ap (lookup same m) (sym (key.sound id q e))

  deleted_at :
      (id q : K) (change : Option Pointer) (s : S) (n : Counts)
      → same id q ≡ true
      → change ≡ none
      → lookup same
          (entries place
            (apply_change same place callbacks id change
              (lookup same (entries place s) id)
              (s, n)).0)
          q
        ≡ none
  deleted_at id q change s n e deletion = rw (deletion) (
      at_key id q e (
        entries place
          (apply_change same place callbacks id none (lookup same (entries place s) id) (s, n)).0)
      ∙ Merge.apply_change_deleted same place callbacks key lens keeps id s n)

  gone :
      (changes : List (K × Option Pointer)) (q : K) (s : S) (n : Counts)
      → Distinct same changes
      → lookup same changes q ≡ some none
      → lookup same (entries place (apply_changes same place callbacks changes (s, n)).0) q ≡ none
  unfolding apply_changes lookup
  gone [] q s n d h = cc
  gone ((id, change) ∷ rest) q s n d h =
      let next =
        apply_change same place callbacks id change (lookup same (entries place s) id) (s, n) in
      elim (Bool-cases (same id q)) [
        | inl e ↦
            let deletion : change ≡ none = (let at_id = rw (e) at h in cc) in
            untouched rest q next.0 next.1 (rest_without id q rest e d.0)
            ∙ deleted_at id q change s n e deletion
        | inr e ↦ gone rest q next.0 next.1 d.1 (rw (e) at h)
      ]

  placed_at :
      (id q : K) (change : Option Pointer) (s : S) (n : Counts)
      → same id q ≡ true
      → (apply_change same place callbacks id change
          (lookup same (entries place s) id)
          (s, n)).1.faulty
        ≡ n.faulty
      → has (
          lookup same
            (entries place
              (apply_change same place callbacks id change
                (lookup same (entries place s) id)
                (s, n)).0)
            q)
        ≡ merged (some change) (has (lookup same (entries place s) q))
  unfolding merged
  placed_at id q none s n e h = ap has (deleted_at id q none s n e refl)
  placed_at id q (some new) s n e h =
      ap has (
        at_key id q e (
          entries place
            (apply_change same place callbacks id (some new) (lookup same (entries place s) id)
              (s, n)).0))
      ∙ Merge.apply_change_present same place callbacks key lens keeps id new s n h

  present :
      (changes : List (K × Option Pointer)) (q : K) (s : S) (n : Counts)
      → Distinct same changes
      → (apply_changes same place callbacks changes (s, n)).1.faulty ≡ n.faulty
      → has (lookup same (entries place (apply_changes same place callbacks changes (s, n)).0) q)
        ≡ merged (lookup same changes q) (has (lookup same (entries place s) q))
  unfolding apply_changes lookup merged
  present [] q s n d h = refl
  present ((id, change) ∷ rest) q s n d h =
      let old = lookup same (entries place s) id in
      let next = apply_change same place callbacks id change old (s, n) in
      let first = Faulty.apply_change_mono same place callbacks id change old s n in
      let later = Faulty.apply_changes_mono same place callbacks rest next.0 next.1 in
      let kept : next.1.faulty ≡ n.faulty = omega (arith, first, later, h) in
      elim (Bool-cases (same id q)) [
        | inl e ↦ rw (e) (
            ap has (untouched rest q next.0 next.1 (rest_without id q rest e d.0))
            ∙ placed_at id q change s n e kept)
        | inr e ↦ rw (e) (
            present rest q next.0 next.1 d.1 (h ∙ sym kept)
            ∙ ap (λ o. merged (lookup same rest q) (has o)) (after_change id q change old s n e))
      ]

  entries-clear_changes : (s : S) → entries place (clear_changes place s) ≡ entries place s
  unfolding clear_changes
  entries-clear_changes s =
      ap (λ t. t.entries) (lens.table-with_table (record (place.table s) { changes = [] }) s)

-- If no callback fails in a run of incrementalApplyPending (none of those that the run calls returns an
-- error other than errRemoveAndAddInstead), the run implements the specification: the live map then has an
-- element exactly if its pending change is not a deletion, or if it has none and was there before, in
-- whatever order the changes are taken. No callback may write the table's own live map.
pub incremental_apply_pending-merged :
    {S K A : Type 0} (same : K → K → Bool) (place : Place S K A) (callbacks : Callbacks S)
    → IsKey same
    → IsPlace place
    → KeepsEntries place callbacks
    → (s : S) (q : K) → Distinct same (place.table s).changes
    → (apply_changes same place callbacks (place.table s).changes (s, no_counts)).1.faulty ≡ 0
    → has (lookup same (entries place (incremental_apply_pending same place callbacks s).1) q)
      ≡ merged (lookup same (place.table s).changes q) (has (lookup same (entries place s) q))
unfolding incremental_apply_pending
incremental_apply_pending-merged same place callbacks key lens keeps s q d h =
    ap (λ m. has (lookup same m q))
      (entries-clear_changes same place callbacks key lens keeps
        (apply_changes same place callbacks (place.table s).changes (s, no_counts)).0)
    ∙ present same place callbacks key lens keeps (place.table s).changes q s no_counts d h

-- An element without a pending change keeps its pointer in the live map, and one that is not in the map
-- stays out of it, also where callbacks fail. No callback may write the table's own live map.
pub incremental_apply_pending_keeps :
    {S K A : Type 0} (same : K → K → Bool) (place : Place S K A) (callbacks : Callbacks S)
    → IsKey same
    → IsPlace place
    → KeepsEntries place callbacks
    → (s : S) (q : K) → lookup same (place.table s).changes q ≡ none
    → lookup same (entries place (incremental_apply_pending same place callbacks s).1) q
      ≡ lookup same (entries place s) q
unfolding incremental_apply_pending
incremental_apply_pending_keeps same place callbacks key lens keeps s q h =
    ap (λ m. lookup same m q)
      (entries-clear_changes same place callbacks key lens keeps
        (apply_changes same place callbacks (place.table s).changes (s, no_counts)).0)
    ∙ untouched same place callbacks key lens keeps (place.table s).changes q s no_counts h

-- Also where callbacks fail, an element whose pending change is a deletion is gone. No callback may write
-- the table's own live map.
pub incremental_apply_pending_deletes :
    {S K A : Type 0} (same : K → K → Bool) (place : Place S K A) (callbacks : Callbacks S)
    → IsKey same
    → IsPlace place
    → KeepsEntries place callbacks
    → (s : S) (q : K) → Distinct same (place.table s).changes
    → lookup same (place.table s).changes q ≡ some none
    → lookup same (entries place (incremental_apply_pending same place callbacks s).1) q ≡ none
unfolding incremental_apply_pending
incremental_apply_pending_deletes same place callbacks key lens keeps s q d h =
    ap (λ m. lookup same m q)
      (entries-clear_changes same place callbacks key lens keeps
        (apply_changes same place callbacks (place.table s).changes (s, no_counts)).0)
    ∙ gone same place callbacks key lens keeps (place.table s).changes q s no_counts d h
