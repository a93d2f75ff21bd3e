-- ===== src/Tests/Rotations.antt =====
-- The theorem on rotations, at three versions of a rotation.
use icinga_notifications.Prelude.{ℕ, ◌≡◌, refl, none, some, [], ◌∷◌, here, there, arith}
use icinga_notifications.Prelude.Int
use icinga_notifications.Prelude.Int.{ℤ, ◌≤ℤ◌}
use icinga_notifications.Recipient.Rotations.{Rotation, sort, active_version}
use icinga_notifications.Recipient.Active.{active_version-sort}

abbrev version : ℕ → ℕ → Rotation
version id handoff = record {
  id = id;
  schedule_id = 1;
  actual_handoff = Int.pos handoff;
  priority = some (Int.pos 0);
  name = [];
  members = [];
}

active_version-sort_example :
    (r : Rotation) × (active_version
        (sort (λ v. v.actual_handoff) (version 1 300 ∷ version 2 100 ∷ version 3 200 ∷ []))
        (Int.pos 250)
        none
      ≡ some r)
    × (Int.pos 100 ≤ℤ r.actual_handoff)
    × (r.actual_handoff ≤ℤ Int.pos 250)
active_version-sort_example =
    active_version-sort (version 1 300 ∷ version 2 100 ∷ version 3 200 ∷ []) (Int.pos 250)
      (version 2 100) (there (here refl)) (omega arith)
