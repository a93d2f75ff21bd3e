-- ===== src/Runtime/Maps.antt =====
-- Go maps of the configuration, in the order of an iteration over them.
use icinga_notifications.Prelude.{
  ℕ, ◌≡◌, refl, Bool, true, false, Option, none, some, List, [], ◌∷◌, ◌==◌, if◌then◌else◌, arith,
  Bool-cases, inl, inr, ◌∙◌,
}

-- A key with its comparison.
pub record IsKey {K : Type 0} (same : K → K → Bool) : Type 0 where
  pub self : (k : K) → same k k ≡ true
  pub sound : (j k : K) → same j k ≡ true → j ≡ k

pub eq_IsKey : IsKey (λ (j : ℕ) (k : ℕ). j == k)
eq_IsKey = record { self = λ k. ground arith; sound = λ j k h. ground arith }

module _ {K V : Type 0} (same : K → K → Bool) where
  -- m[k]
  unfoldable pub lookup : List (K × V) → K → Option V
  lookup [] k = none
  lookup ((j, v) ∷ m) k = if same j k then some v else lookup m k

  -- m[k] = v
  unfoldable pub put : K → V → List (K × V) → List (K × V)
  put k v [] = (k, v) ∷ []
  put k v ((j, w) ∷ m) = if same j k then (j, v) ∷ m else (j, w) ∷ put k v m

  -- delete(m, k)
  unfoldable pub delete : K → List (K × V) → List (K × V)
  delete k [] = []
  delete k ((j, w) ∷ m) = let rest = delete k m in if same j k then rest else (j, w) ∷ rest

module _ {K : Type 0} (same : K → K → Bool) (key : IsKey same) where
  pub apart : (j k q : K) → same j k ≡ false → same j q ≡ true → same k q ≡ false
  apart j k q h e = elim (Bool-cases (same k q)) [
    | inl f ↦
        let jq = key.sound j q e in
        let kq = key.sound k q f in
        let jk : j ≡ k = cc in
        let self = key.self k in let bad : same j k ≡ true = (rw jk self) in cc
    | inr f ↦ f
  ]

module _ {K V : Type 0} (same : K → K → Bool) (key : IsKey same) where
  pub lookup-put :
      (k : K) (v : V) (m : List (K × V)) (q : K)
      → lookup same (put same k v m) q ≡ (if same k q then some v else lookup same m q)
  unfolding lookup put
  lookup-put k v [] q = refl
  lookup-put k v ((j, w) ∷ m) q = elim (Bool-cases (same j k)) [
    | inl e ↦ elim (Bool-cases (same k q)) [
      | inl f ↦ rw (e, key.sound j k e, f) refl
      | inr f ↦ rw (e, key.sound j k e, f) refl
    ]
    | inr e ↦ elim (Bool-cases (same j q)) [
      | inl f ↦ rw (e, f, apart same key j k q e f) refl
      | inr f ↦ rw (e, f) (lookup-put k v m q)
    ]
  ]

  pub lookup-delete :
      (k : K) (m : List (K × V)) (q : K)
      → lookup same (delete same k m) q ≡ (if same k q then none else lookup same m q)
  unfolding lookup delete
  lookup-delete k [] q = elim (Bool-cases (same k q)) [ inl f ↦ rw f refl | inr f ↦ rw f refl ]
  lookup-delete k ((j, w) ∷ m) q = elim (Bool-cases (same j k)) [
    | inl e ↦ elim (Bool-cases (same k q)) [
      | inl f ↦ rw (e, lookup-delete k m q, f) refl
      | inr f ↦ rw (e, lookup-delete k m q, key.sound j k e, f) refl
    ]
    | inr e ↦ elim (Bool-cases (same j q)) [
      | inl f ↦ rw (e, f, apart same key j k q e f) refl
      | inr f ↦ rw (e, f) (lookup-delete k m q)
    ]
  ]

  pub lookup-put_self : (k : K) (v : V) (m : List (K × V)) → lookup same (put same k v m) k ≡ some v
  lookup-put_self k v m = lookup-put k v m k ∙ rw (key.self k) refl

  pub lookup-delete_self : (k : K) (m : List (K × V)) → lookup same (delete same k m) k ≡ none
  lookup-delete_self k m = lookup-delete k m k ∙ rw (key.self k) refl

  pub lookup-put_ne :
      (k : K) (v : V) (m : List (K × V)) (q : K)
      → same k q ≡ false
      → lookup same (put same k v m) q ≡ lookup same m q
  lookup-put_ne k v m q h = lookup-put k v m q ∙ rw h refl

  pub lookup-delete_ne :
      (k : K) (m : List (K × V)) (q : K)
      → same k q ≡ false
      → lookup same (delete same k m) q ≡ lookup same m q
  lookup-delete_ne k m q h = lookup-delete k m q ∙ rw h refl
