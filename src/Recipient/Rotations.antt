-- ===== src/Recipient/Rotations.antt =====
-- internal/recipient/contact.go, group.go, rotations.go and the data of schedule.go.
use icinga_notifications.Prelude.{
  ℕ, Bool, true, false, Option, none, some, List, [], ◌∷◌, ◌++◌, if◌then◌else◌,
}
use icinga_notifications.Prelude.Int.{ℤ, ltb_ℤ, eqb_ℤ}
use icinga_notifications.Prelude.Bytes.{Bytes}
use icinga_notifications.TimePeriod.Entries.{Entry, contains}

pub record Contact : Type 0 where
  pub id : ℕ
  pub full_name : Bytes
  pub username : Option Bytes
  pub default_channel_id : ℕ

pub record Group : Type 0 where
  pub id : ℕ
  pub name : Bytes
  pub members : List Contact

pub record RotationMember : Type 0 where
  pub id : ℕ
  pub rotation_id : ℕ
  pub contact : Option Contact
  pub contact_group : Option Group
  -- map[int64]*timeperiod.Entry, in the order of the iteration
  pub time_period_entries : List (ℕ × Entry)

pub record Rotation : Type 0 where
  pub id : ℕ
  pub schedule_id : ℕ
  pub actual_handoff : ℤ
  pub priority : Option ℤ
  pub name : Bytes
  pub members : List RotationMember

pub record RotationsWithPriority : Type 0 where
  pub priority : ℤ
  pub sorted_by_handoff : List Rotation

abbrev pub Resolver : Type 0
Resolver = List RotationsWithPriority

-- The rotation is appended to the group of its priority, in the temporary map of `update`.
unfoldable pub add_by_priority :
    ℤ → Rotation → List RotationsWithPriority → List RotationsWithPriority
add_by_priority p r [] = record { priority = p; sorted_by_handoff = r ∷ [] } ∷ []
add_by_priority p r (w ∷ ws) =
    if eqb_ℤ w.priority p
    then record w { sorted_by_handoff = w.sorted_by_handoff ++ r ∷ [] } ∷ ws
    else w ∷ add_by_priority p r ws

unfoldable pub group_by_priority :
    List Rotation → List RotationsWithPriority → List RotationsWithPriority
unfolding add_by_priority
group_by_priority [] ws = ws
group_by_priority (r ∷ rs) ws =
    group_by_priority rs (elim r.priority [ none ↦ ws | some p ↦ add_by_priority p r ws ])

-- slices.SortFunc by a number.
module _ {A : Type 0} (by : A → ℤ) where
  unfoldable pub insert : A → List A → List A
  insert a [] = a ∷ []
  insert a (x ∷ xs) = if ltb_ℤ (by x) (by a) then x ∷ insert a xs else a ∷ x ∷ xs

  unfoldable pub sort : List A → List A
  unfolding insert
  sort [] = []
  sort (x ∷ xs) = insert x (sort xs)

unfoldable pub sort_each : List RotationsWithPriority → List RotationsWithPriority
unfolding sort
sort_each [] = []
sort_each (w ∷ ws) =
    record w { sorted_by_handoff = sort (λ r. r.actual_handoff) w.sorted_by_handoff } ∷ sort_each ws

unfoldable pub update : List Rotation → Resolver
unfolding group_by_priority sort sort_each
update rotations = sort_each (sort (λ w. w.priority) (group_by_priority rotations []))

-- slices.BinarySearchFunc by the handoff, in a sorted slice: the index of the first version that is not
-- before `t` is where the versions before it end, and it is found if its handoff is `t`. The
-- active version is that one if it is found, and the one before it if not.
unfoldable pub active_version : List Rotation → ℤ → Option Rotation → Option Rotation
active_version [] t previous = previous
active_version (r ∷ rs) t previous =
    let later = active_version rs t (some r) in
    if ltb_ℤ r.actual_handoff t
    then later
    else if eqb_ℤ r.actual_handoff t
    then some r
    else previous

unfoldable pub get_rotations_at : Resolver → ℤ → List Rotation
unfolding active_version
get_rotations_at [] t = []
get_rotations_at (w ∷ ws) t = elim (active_version w.sorted_by_handoff t none) [
  | none ↦ get_rotations_at ws t
  | some r ↦ r ∷ get_rotations_at ws t
]

-- Whether an entry contains the time; nothing is the panic of an entry that is not initialized.
unfoldable pub entries_contain : List (ℕ × Entry) → ℤ → Option Bool
entries_contain [] t = some false
entries_contain ((i, e) ∷ es) t =
    let rest = entries_contain es t in
    elim (contains e t) [ none ↦ none | some true ↦ some true | some false ↦ rest ]

abbrev pub member_contacts : RotationMember → List Contact
member_contacts m =
    elim m.contact [ none ↦ [] | some c ↦ c ∷ [] ]
    ++ elim m.contact_group [ none ↦ [] | some g ↦ g.members ]

-- The contacts of the first member with an entry for the time, if there is one.
unfoldable pub first_on_duty : List RotationMember → ℤ → Option (Option (List Contact))
unfolding entries_contain
first_on_duty [] t = some none
first_on_duty (m ∷ ms) t =
    let rest = first_on_duty ms t in
    elim (entries_contain m.time_period_entries t) [
      | none ↦ none
      | some true ↦ some (some (member_contacts m))
      | some false ↦ rest
    ]

unfoldable pub contacts_of : List Rotation → ℤ → Option (List Contact)
unfolding first_on_duty
contacts_of [] t = some []
contacts_of (r ∷ rs) t =
    let rest = contacts_of rs t in
    elim (first_on_duty r.members t) [
      | none ↦ none
      | some (some contacts) ↦ some contacts
      | some none ↦ rest
    ]

unfoldable pub get_contacts_at : Resolver → ℤ → Option (List Contact)
unfolding contacts_of get_rotations_at
get_contacts_at resolver t = contacts_of (get_rotations_at resolver t) t
