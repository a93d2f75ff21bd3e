-- ===== src/Rule/Reevaluation.antt =====
-- What ReevaluateAfter (internal/rule/condition.go) guarantees.
use icinga_notifications.Prelude.{
  ◌≡◌, ◌≢◌, ◌⊎◌, inl, inr, refl, sym, ap, ◌∙◌, true, false, Option, none, some, List, [], ◌∷◌, ok,
  err, All, arith, Bool-cases, Option-cases, if◌then◌else◌, not,
}
use icinga_notifications.Prelude.Int
use icinga_notifications.Prelude.Int.{
  ℤ, ◌+ℤ◌, ◌-ℤ◌, ◌≤ℤ◌, ◌<ℤ◌, ltb_ℤ, leb_ℤ, eqb_ℤ, min_ℤ, int_laws, +ℤ_parts, -ℤ_parts, eq_of_parts,
}
use icinga_notifications.Prelude.Bytes.{Bytes}
use icinga_notifications.Filter.Types.{
  Filter, Condition, CompOperator, Filterable, extract_conditions, eval, eval_condition, eval_op,
  equal, un_equal, like, un_like, less_than, less_than_equal, greater_than, greater_than_equal,
  other, invalid_duration,
}
use icinga_notifications.Filter.Congruence.{SameOn, eval_congruence}
use icinga_notifications.Event.Severity.{Severity}
use icinga_notifications.Rule.Condition.{
  max_int64, sub_int64, retry_never, EscalationFilter, is_age, reevaluate_step, reevaluate_from,
  reevaluate_after, compare_age, eval_equal, eval_less, eval_less_or_equal, eval_like, eval_exists,
  as_filterable,
}

-- On times of an incident that is not older than an int64 says, the subtraction does not wrap.
sub_int64_exact : (a b : ℤ) → Int.pos 0 ≤ℤ b → b ≤ℤ a → a ≤ℤ max_int64 → sub_int64 a b ≡ a -ℤ b
unfolding sub_int64 ◌-ℤ◌ ◌+ℤ◌
sub_int64_exact a b h k l = ground arith

module _ (parse_duration : Bytes → Option ℤ) where
  step-le :
      (e : EscalationFilter) (r : ℤ) (c : Condition) → reevaluate_step parse_duration e r c ≤ℤ r
  unfolding reevaluate_step
  step-le e r c = ground arith

  from-le :
      (e : EscalationFilter) (r : ℤ) (cs : List Condition)
      → reevaluate_from parse_duration e r cs ≤ℤ r
  unfolding reevaluate_from
  from-le e r [] = omega arith
  from-le e r (c ∷ cs) =
      omega (arith, step-le e r c, from-le e (reevaluate_step parse_duration e r c) cs)

  -- `t` is not after the time at which the age reaches the value of the condition.
  abbrev InTime : EscalationFilter → ℤ → Condition → Type 0
  InTime e t c =
      (v : ℤ)
      → is_age c.column ≡ true
      → parse_duration c.value ≡ some v
      → e.incident_age <ℤ v
      → t ≤ℤ sub_int64 v e.incident_age

  step-InTime :
      (e : EscalationFilter) (r : ℤ) (c : Condition)
      → InTime e (reevaluate_step parse_duration e r c) c
  unfolding reevaluate_step
  step-InTime e r c v h k l = rw (h, k) (min_right (sub_int64 v e.incident_age) l)
    where
      min_right :
          (u : ℤ) → e.incident_age <ℤ v → (if ltb_ℤ e.incident_age v then min_ℤ r u else r) ≤ℤ u
      min_right u l = ground arith

  from-InTime :
      (e : EscalationFilter) (r : ℤ) (cs : List Condition)
      → All (InTime e (reevaluate_from parse_duration e r cs)) cs
  unfolding reevaluate_from
  from-InTime e r [] = tt
  from-InTime e r (c ∷ cs) = (
    λ v h k l.
        omega
          (arith, step-InTime e r c v h k l, from-le e (reevaluate_step parse_duration e r c) cs),
    from-InTime e (reevaluate_step parse_duration e r c) cs,
  )

  -- At the age `a` the condition does not compare the age with itself, or does so by `<` or `>=`, for
  -- which the value of the comparison changes when the age is reached and not just after.
  abbrev pub IsStable : ℤ → Condition → Type 0
  IsStable a c =
      (parse_duration c.value ≢ some a) ⊎ (c.op ≡ less_than) ⊎ (c.op ≡ greater_than_equal)

  module _ (a b : ℤ) (s : Severity)
      (in_range : (t : Bytes) (v : ℤ) → parse_duration t ≡ some v → v ≤ℤ max_int64)
      (started : Int.pos 0 ≤ℤ a) (later : a ≤ℤ b) where
    abbrev at : ℤ → EscalationFilter
    at age = record { incident_age = age; incident_severity = s }

    same_less : (v : ℤ) → (a <ℤ v → b <ℤ v) → ltb_ℤ b v ≡ ltb_ℤ a v
    same_less v h = elim (Bool-cases (ltb_ℤ a v)) [
      | inl e ↦ let k : b <ℤ v = h (ground arith) in ground arith
      | inr e ↦ ground arith
    ]

    same_equal : (v : ℤ) → (a <ℤ v → b <ℤ v) → v ≢ a → eqb_ℤ b v ≡ eqb_ℤ a v
    same_equal v h n =
        let apart : eqb_ℤ a v ≡ true → ⊥ = λ e. n (eq_of_parts v a (ground arith)) in
        elim (Bool-cases (ltb_ℤ a v)) [
          | inl e ↦ let k : b <ℤ v = h (ground arith) in ground arith
          | inr e ↦ elim (Bool-cases (eqb_ℤ a v)) [
            | inl f ↦ absurd (apart f)
            | inr f ↦ ground arith
          ]
        ]

    same_less_or_equal : (v : ℤ) → (a <ℤ v → b <ℤ v) → v ≢ a → leb_ℤ b v ≡ leb_ℤ a v
    same_less_or_equal v h n =
        let apart : eqb_ℤ a v ≡ true → ⊥ = λ e. n (eq_of_parts v a (ground arith)) in
        elim (Bool-cases (ltb_ℤ a v)) [
          | inl e ↦ let k : b <ℤ v = h (ground arith) in ground arith
          | inr e ↦ elim (Bool-cases (eqb_ℤ a v)) [
            | inl f ↦ absurd (apart f)
            | inr f ↦ ground arith
          ]
        ]

    seen_by : ℤ → Filterable
    seen_by x = as_filterable parse_duration (at x)

    -- The tests of a condition on the age, where the value is a duration and where it is none.
    tests_some :
        (x : ℤ) (column value : Bytes) (v : ℤ)
        → is_age column ≡ true
        → parse_duration value ≡ some v
        → ((seen_by x).eval_equal column value ≡ ok (eqb_ℤ x v))
          × ((seen_by x).eval_less column value ≡ ok (ltb_ℤ x v))
          × ((seen_by x).eval_less_or_equal column value ≡ ok (leb_ℤ x v))
    unfolding seen_by eval_equal eval_less eval_less_or_equal
    tests_some x column value v k e =
        (rw (k, e, compare_age) refl, rw (k, e, compare_age) refl, rw (k, e, compare_age) refl)

    tests_none :
        (x : ℤ) (column value : Bytes)
        → is_age column ≡ true
        → parse_duration value ≡ none
        → ((seen_by x).eval_equal column value ≡ err (invalid_duration value))
          × ((seen_by x).eval_less column value ≡ err (invalid_duration value))
          × ((seen_by x).eval_less_or_equal column value ≡ err (invalid_duration value))
    unfolding seen_by eval_equal eval_less eval_less_or_equal
    tests_none x column value k e =
        (rw (k, e, compare_age) refl, rw (k, e, compare_age) refl, rw (k, e, compare_age) refl)

    -- Two filterables whose tests agree evaluate an operator alike.
    op_agrees :
        (f g : Filterable) (op : CompOperator) (column value : Bytes)
        → f.eval_like column value ≡ g.eval_like column value
        → f.eval_less column value ≡ g.eval_less column value
        → ((op ≡ less_than)
            ⊎ (op ≡ greater_than_equal)
            ⊎ ((f.eval_equal column value ≡ g.eval_equal column value)
                × (f.eval_less_or_equal column value ≡ g.eval_less_or_equal column value)))
        → eval_op op f column value ≡ eval_op op g column value
    unfolding eval_op
    op_agrees f g equal column value l m (inr (inr o)) = o.0
    op_agrees f g un_equal column value l m (inr (inr o)) = rw o.0 refl
    op_agrees f g less_than_equal column value l m (inr (inr o)) = o.1
    op_agrees f g greater_than column value l m (inr (inr o)) = rw o.1 refl
    op_agrees f g less_than column value l m o = m
    op_agrees f g greater_than_equal column value l m o = rw m refl
    op_agrees f g like column value l m o = l
    op_agrees f g un_like column value l m o = rw l refl
    op_agrees f g (other _) column value l m o = refl
    op_agrees f g _ column value l m (inl o) = cc
    op_agrees f g _ column value l m (inr (inl o)) = cc

    same_op :
        (op : CompOperator) (column value : Bytes)
        → is_age column ≡ true
        → ((v : ℤ) → parse_duration value ≡ some v → a <ℤ v → b <ℤ v)
        → (parse_duration value ≢ some a) ⊎ (op ≡ less_than) ⊎ (op ≡ greater_than_equal)
        → eval_op op (seen_by b) column value ≡ eval_op op (seen_by a) column value
    unfolding seen_by eval_like
    same_op op column value k h stable = elim (Option-cases (parse_duration value)) [
      | inl e ↦
          let (p, q, r) = tests_none a column value k e in
          let (p', q', r') = tests_none b column value k e in
          op_agrees (seen_by b) (seen_by a) op column value refl (q' ∙ sym q)
            (inr (inr (p' ∙ sym p, r' ∙ sym r)))
      | inr (v, e) ↦
          let (p, q, r) = tests_some a column value v k e in
          let (p', q', r') = tests_some b column value v k e in
          let less = q' ∙ ap ok (same_less v (h v e)) ∙ sym q in
          op_agrees (seen_by b) (seen_by a) op column value refl less (elim stable [
            | inl n ↦
                let apart : v ≢ a = λ z. n (e ∙ ap some z) in
                inr (
                  inr (
                    p' ∙ ap ok (same_equal v (h v e) apart) ∙ sym p,
                    r' ∙ ap ok (same_less_or_equal v (h v e) apart) ∙ sym r,
                  ))
            | inr (inl z) ↦ inl z
            | inr (inr z) ↦ inr (inl z)
          ])
    ]

    other_column :
        (op : CompOperator) (column value : Bytes)
        → is_age column ≡ false
        → eval_op op (seen_by b) column value ≡ eval_op op (seen_by a) column value
    unfolding seen_by eval_equal eval_less eval_less_or_equal eval_like
    other_column op column value k =
        op_agrees (seen_by b) (seen_by a) op column value refl (rw k refl)
          (inr (inr (rw k refl, rw k refl)))

    -- Within the time that is left, a condition keeps its value.
    same_condition :
        (t : ℤ) (c : Condition)
        → b <ℤ a +ℤ t
        → InTime (at a) t c
        → IsStable a c
        → SameOn (seen_by b) (seen_by a) c
    unfolding eval_condition seen_by
    same_condition t c h in_time stable =
        ap (λ r. if not (eval_exists c.column) then ok false else r)
          (elim (Bool-cases (is_age c.column)) [
            | inl k ↦
                same_op c.op c.column c.value k (λ v e l. before v e l (in_time v k e l)) stable
            | inr k ↦ other_column c.op c.column c.value k
          ])
      where
        before : (v : ℤ) → parse_duration c.value ≡ some v → a <ℤ v → t ≤ℤ sub_int64 v a → b <ℤ v
        before v e l m =
            let exact = sub_int64_exact v a started (omega arith) (in_range c.value v e) in
            let n : t ≤ℤ v -ℤ a = rw exact at m in omega int_laws

    same_conditions :
        (t : ℤ) (cs : List Condition)
        → b <ℤ a +ℤ t
        → All (InTime (at a) t) cs
        → All (IsStable a) cs
        → All (SameOn (seen_by b) (seen_by a)) cs
    same_conditions t [] h i j = tt
    same_conditions t (c ∷ cs) h i j =
        (same_condition t c h i.0 j.0, same_conditions t cs h i.1 j.1)

-- The escalation does not change its mind within the returned duration: for an incident that started
-- in the past (age `a`), at every later age `b` before `a + ReevaluateAfter`, with the same severity, the
-- condition evaluates to the same result, or to the same error. Durations are int64 values, and
-- no condition on the age has the very value `a`, unless its operator is `<` or `>=`.
pub reevaluate_after_guarantee :
    (parse_duration : Bytes → Option ℤ) (cond : Filter) (a b : ℤ) (s : Severity)
    → ((t : Bytes) (v : ℤ) → parse_duration t ≡ some v → v ≤ℤ max_int64)
    → Int.pos 0 ≤ℤ a
    → a ≤ℤ b
    → b
      <ℤ a
        +ℤ reevaluate_after parse_duration (record { incident_age = a; incident_severity = s }) cond
    → All (IsStable parse_duration a) (extract_conditions cond)
    → eval cond (as_filterable parse_duration (record { incident_age = b; incident_severity = s }))
      ≡ eval cond
          (as_filterable parse_duration (record { incident_age = a; incident_severity = s }))
unfolding reevaluate_after seen_by
reevaluate_after_guarantee parse_duration cond a b s in_range started later h stable =
    eval_congruence _ _ cond (λ column. refl)
      (same_conditions parse_duration a b s in_range started later _ (extract_conditions cond) h
        (from-InTime parse_duration (record { incident_age = a; incident_severity = s }) retry_never
          (extract_conditions cond))
        stable)
