-- ===== src/Recipient/Active.antt =====
-- internal/recipient/rotations.go: the version of a rotation that is active at a time.
use icinga_notifications.Prelude.{
  ◌≡◌, refl, sym, subst, Bool-cases, true, false, inl, inr, Option, none, some, List, [], ◌∷◌, All,
  All-Member, Member, here, there, arith,
}
use icinga_notifications.Prelude.Int.{ℤ, ◌≤ℤ◌, ltb_ℤ, eqb_ℤ}
use icinga_notifications.Recipient.Rotations.{Rotation, insert, sort, active_version}

lt_le : (a b : ℤ) → ltb_ℤ a b ≡ true → a ≤ℤ b
lt_le a b h = ground arith

not_lt_le : (a b : ℤ) → ltb_ℤ a b ≡ false → b ≤ℤ a
not_lt_le a b h = ground arith

eq_le : (a b : ℤ) → eqb_ℤ a b ≡ true → b ≤ℤ a
eq_le a b h = ground arith

eq_ge : (a b : ℤ) → eqb_ℤ a b ≡ true → a ≤ℤ b
eq_ge a b h = ground arith

le_refl : (a : ℤ) → a ≤ℤ a
le_refl a = ground arith

le_trans : (a b c : ℤ) → a ≤ℤ b → b ≤ℤ c → a ≤ℤ c
le_trans a b c h k = ground arith

-- A number above `t` is not at most `t`.
above : (a t : ℤ) → ltb_ℤ a t ≡ false → eqb_ℤ a t ≡ false → a ≤ℤ t → ⊥
above a t h k l = ground arith

module _ {A : Type 0} (by : A → ℤ) where
  abbrev Sorted : List A → Type 0
  Sorted [] = Unit
  Sorted (x ∷ xs) = All (λ y. by x ≤ℤ by y) xs × Sorted xs

  All-insert : (P : A → Type 0) (a : A) (xs : List A) → P a → All P xs → All P (insert by a xs)
  unfolding insert
  All-insert P a [] p h = (p, tt)
  All-insert P a (x ∷ xs) p h = elim (Bool-cases (ltb_ℤ (by x) (by a))) [
    | inl e ↦ rw (e) (h.0, All-insert P a xs p h.1)
    | inr e ↦ rw (e) (p, h)
  ]

  All-weaken : (u v : ℤ) (xs : List A) → u ≤ℤ v → All (λ y. v ≤ℤ by y) xs → All (λ y. u ≤ℤ by y) xs
  All-weaken u v [] l h = tt
  All-weaken u v (x ∷ xs) l h = (le_trans u v (by x) l h.0, All-weaken u v xs l h.1)

  insert-Sorted : (a : A) (xs : List A) → Sorted xs → Sorted (insert by a xs)
  unfolding insert
  insert-Sorted a [] h = (tt, tt)
  insert-Sorted a (x ∷ xs) h = elim (Bool-cases (ltb_ℤ (by x) (by a))) [
    | inl e ↦
        rw (e)
          (All-insert (λ y. by x ≤ℤ by y) a xs (lt_le (by x) (by a) e) h.0, insert-Sorted a xs h.1)
    | inr e ↦
        let l = not_lt_le (by x) (by a) e in rw (e) ((l, All-weaken (by a) (by x) xs l h.0), h)
  ]

  sort-Sorted : (xs : List A) → Sorted (sort by xs)
  unfolding sort
  sort-Sorted [] = tt
  sort-Sorted (x ∷ xs) = insert-Sorted x (sort by xs) (sort-Sorted xs)

  Member-insert : (q a : A) (xs : List A) → Member q (a ∷ xs) → Member q (insert by a xs)
  unfolding insert
  Member-insert q a [] m = m
  Member-insert q a (x ∷ xs) m = elim (Bool-cases (ltb_ℤ (by x) (by a))) [
    | inl e ↦ rw (e) (beyond (λ n. Member-insert q a xs n) m)
    | inr e ↦ rw (e) m
  ]
    where
      beyond :
          (Member q (a ∷ xs) → Member q (insert by a xs))
          → Member q (a ∷ x ∷ xs)
          → Member q (x ∷ insert by a xs)
      beyond inserted (here h) = there (inserted (here h))
      beyond inserted (there (here h)) = here h
      beyond inserted (there (there n)) = there (inserted (there n))

  Member-sort : (q : A) (xs : List A) → Member q xs → Member q (sort by xs)
  unfolding sort
  Member-sort q (x ∷ xs) (here h) = Member-insert q x (sort by xs) (here h)
  Member-sort q (x ∷ xs) (there m) = Member-insert q x (sort by xs) (there (Member-sort q xs m))
  Member-sort q [] m = elim m [ ]

-- The active version of a list: it is not after `t`, and not before `u`.
abbrev IsActive : ℤ → ℤ → Option Rotation → Type 0
IsActive u t v = (r : Rotation) × (v ≡ some r) × (u ≤ℤ r.actual_handoff) × (r.actual_handoff ≤ℤ t)

module _ (t : ℤ) where
  after_one :
      (x : Rotation) (rs : List Rotation)
      → x.actual_handoff ≤ℤ t
      → All (λ y. x.actual_handoff ≤ℤ y.actual_handoff) rs
      → Sorted (λ r. r.actual_handoff) rs
      → IsActive x.actual_handoff t (active_version rs t (some x))
  unfolding active_version
  after_one x [] l h s = (x, refl, le_refl x.actual_handoff, l)
  after_one x (y ∷ ys) l h s = elim (Bool-cases (ltb_ℤ y.actual_handoff t)) [
    | inl e ↦
        let (r, hr, a, b) = after_one y ys (lt_le y.actual_handoff t e) s.0 s.1 in
        rw (e) (r, hr, le_trans x.actual_handoff y.actual_handoff r.actual_handoff h.0 a, b)
    | inr e ↦ elim (Bool-cases (eqb_ℤ y.actual_handoff t)) [
      | inl f ↦ rw (e, f) (y, refl, h.0, eq_ge y.actual_handoff t f)
      | inr f ↦ rw (e, f) (x, refl, le_refl x.actual_handoff, l)
    ]
  ]

  active_lem :
      (rs : List Rotation) (previous : Option Rotation) (q : Rotation)
      → Sorted (λ r. r.actual_handoff) rs
      → Member q rs
      → q.actual_handoff ≤ℤ t
      → IsActive q.actual_handoff t (active_version rs t previous)
  unfolding active_version
  active_lem [] previous q s m l = elim m [ ]
  active_lem (x ∷ xs) previous q s m l = elim (Bool-cases (ltb_ℤ x.actual_handoff t)) [
    | inl e ↦ rw (e) (before (λ n. active_lem xs (some x) q s.1 n l) e m)
    | inr e ↦ elim (Bool-cases (eqb_ℤ x.actual_handoff t)) [
      | inl f ↦
          rw (e, f)
            (
              x,
              refl,
              le_trans q.actual_handoff t x.actual_handoff l (eq_le x.actual_handoff t f),
              eq_ge x.actual_handoff t f,
            )
      | inr f ↦ absurd (beyond e f m)
    ]
  ]
    where
      before :
          (Member q xs → IsActive q.actual_handoff t (active_version xs t (some x)))
          → ltb_ℤ x.actual_handoff t ≡ true
          → Member q (x ∷ xs)
          → IsActive q.actual_handoff t (active_version xs t (some x))
      before rest e (here h) =
          subst (λ z. IsActive z.actual_handoff t (active_version xs t (some x))) h
            (after_one x xs (lt_le x.actual_handoff t e) s.0 s.1)
      before rest e (there n) = rest n

      beyond :
          ltb_ℤ x.actual_handoff t ≡ false
          → eqb_ℤ x.actual_handoff t ≡ false
          → Member q (x ∷ xs)
          → ⊥
      beyond e f (here h) =
          above x.actual_handoff t e f (subst (λ z. z.actual_handoff ≤ℤ t) (sym h) l)
      beyond e f (there n) = above x.actual_handoff t e f (
          le_trans x.actual_handoff q.actual_handoff t
            (All-Member (λ y. x.actual_handoff ≤ℤ y.actual_handoff) n s.0) l)

-- If one of the versions of a rotation, in any order, has a handoff that is not after `t`, then the
-- search of getRotationsAt in the sorted versions finds one whose handoff is neither before that one
-- nor after `t`.
pub active_version-sort :
    (versions : List Rotation) (t : ℤ) (q : Rotation)
    → Member q versions
    → q.actual_handoff ≤ℤ t
    → (r : Rotation) × (active_version (sort (λ v. v.actual_handoff) versions) t none ≡ some r)
      × (q.actual_handoff ≤ℤ r.actual_handoff)
      × (r.actual_handoff ≤ℤ t)
active_version-sort versions t q m l =
    active_lem t (sort (λ v. v.actual_handoff) versions) none q
      (sort-Sorted (λ v. v.actual_handoff) versions)
      (Member-sort (λ v. v.actual_handoff) q versions m) l
