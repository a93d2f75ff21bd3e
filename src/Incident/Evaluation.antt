-- ===== src/Incident/Evaluation.antt =====
-- internal/incident/incident.go, evaluateEscalations: which escalations an evaluation returns.
use icinga_notifications.Prelude.{
  ℕ, ◌≡◌, refl, ap, Bool, Bool-cases, Option-cases, true, false, inl, inr, some, List, [], ◌∷◌,
  ◌++◌, Result, ok, err, All, Member, here, there, arith,
}
use icinga_notifications.Prelude.Int.{ℤ, ◌≤ℤ◌, ◌<ℤ◌, ◌+ℤ◌, eqb_ℤ, +ℤ_parts, min_ℤ}
use icinga_notifications.Filter.Types.{EvalError, Filter}
use icinga_notifications.Rule.Condition.{EscalationFilter, retry_never, reevaluate_after}
use icinga_notifications.Rule.Escalation.{Rule, Escalation, eval_escalation}
use icinga_notifications.Incident.State.{Incident, has_id, find}
use icinga_notifications.Incident.Exec.{Env, World}
use icinga_notifications.Incident.Escalations.{
  Evaluation, weigh, evaluate_one, evaluate_each, evaluate_of_rules, evaluation_at,
  evaluate_escalations, escalation_filter,
}

-- An escalation that was not triggered before, and whose condition holds.
abbrev pub IsReached : Env → Incident → EscalationFilter → Escalation → Type 0
IsReached env i filter e =
    (has_id i.escalation_state e.id ≡ false)
    × (eval_escalation env.parse_duration e filter ≡ ok true)

All-snoc :
    {A : Type 0} (P : A → Type 0) (xs : List A) (x : A) → All P xs → P x → All P (xs ++ x ∷ [])
All-snoc P [] x h p = (p, tt)
All-snoc P (y ∷ ys) x h p = (h.0, All-snoc P ys x h.1 p)

Member-snoc : {A : Type 0} (a : A) (xs : List A) (x : A) → Member a xs → Member a (xs ++ x ∷ [])
Member-snoc a [] x m = elim m [ ]
Member-snoc a (y ∷ ys) x (here e) = here e
Member-snoc a (y ∷ ys) x (there m) = there (Member-snoc a ys x m)

last-Member : {A : Type 0} (xs : List A) (x : A) → Member x (xs ++ x ∷ [])
last-Member [] x = here refl
last-Member (y ∷ ys) x = there (last-Member ys x)

min_left : (a b : ℤ) → min_ℤ a b ≤ℤ a
min_left a b = ground arith

min_right : (a b : ℤ) → min_ℤ a b ≤ℤ b
min_right a b = ground arith

le_refl : (a : ℤ) → a ≤ℤ a
le_refl a = ground arith

le_trans : (a b c : ℤ) → a ≤ℤ b → b ≤ℤ c → a ≤ℤ c
le_trans a b c h k = ground arith

module _ (env : Env) (i : Incident) (filter : EscalationFilter) where
  weigh-IsReached :
      (e : Escalation) (acc : Evaluation) (r : Result EvalError Bool)
      → has_id i.escalation_state e.id ≡ false
      → eval_escalation env.parse_duration e filter ≡ r
      → All (IsReached env i filter) acc.escalations
      → All (IsReached env i filter) (weigh env filter e acc r).escalations
  unfolding weigh
  weigh-IsReached e acc (err _) t h k = k
  weigh-IsReached e acc (ok true) t h k =
      All-snoc (IsReached env i filter) acc.escalations e k (t, h)
  weigh-IsReached e acc (ok false) t h k = elim (Option-cases e.condition) [
    | inl c ↦ rw (c) k
    | inr (cond, c) ↦ rw (c) k
  ]

  one-IsReached :
      (e : Escalation) (acc : Evaluation)
      → All (IsReached env i filter) acc.escalations
      → All (IsReached env i filter) (evaluate_one env i filter e acc).escalations
  unfolding evaluate_one
  one-IsReached e acc k = elim (Bool-cases (has_id i.escalation_state e.id)) [
    | inl t ↦ rw (t) k
    | inr t ↦ rw (t) (weigh-IsReached e acc (eval_escalation env.parse_duration e filter) t refl k)
  ]

  each-IsReached :
      (es : List (ℕ × Escalation)) (acc : Evaluation)
      → All (IsReached env i filter) acc.escalations
      → All (IsReached env i filter) (evaluate_each env i filter es acc).escalations
  unfolding evaluate_each
  each-IsReached [] acc k = k
  each-IsReached ((n, e) ∷ es) acc k =
      each-IsReached es (evaluate_one env i filter e acc) (one-IsReached e acc k)

  rules-IsReached :
      (ids : List ℕ) (acc : Evaluation)
      → All (IsReached env i filter) acc.escalations
      → All (IsReached env i filter) (evaluate_of_rules env i filter ids acc).escalations
  unfolding evaluate_of_rules
  rules-IsReached [] acc k = k
  rules-IsReached (id ∷ ids) acc k = elim (Option-cases (find env.config.rules id)) [
    | inl e ↦ rw (e, evaluate_of_rules) (rules-IsReached ids acc k)
    | inr (r, e) ↦
        rw (e, evaluate_of_rules) (rules-IsReached ids _ (each-IsReached r.escalations acc k))
  ]

  -- Nothing is taken back: no escalation, and no earlier time of a reevaluation.
  abbrev Extends : Evaluation → Evaluation → Type 0
  Extends a b =
      ((e : Escalation) → Member e a.escalations → Member e b.escalations)
      × (b.retry_after ≤ℤ a.retry_after)

  Extends-refl : (a : Evaluation) → Extends a a
  Extends-refl a = ((λ e m. m), le_refl a.retry_after)

  Extends-trans : (a b c : Evaluation) → Extends a b → Extends b c → Extends a c
  Extends-trans a b c (h, k) (m, n) =
      ((λ e x. m e (h e x)), le_trans c.retry_after b.retry_after a.retry_after n k)

  weigh-Extends :
      (e : Escalation) (acc : Evaluation) (r : Result EvalError Bool)
      → Extends acc (weigh env filter e acc r)
  unfolding weigh
  weigh-Extends e acc (err _) = Extends-refl acc
  weigh-Extends e acc (ok true) =
      ((λ d m. Member-snoc d acc.escalations e m), le_refl acc.retry_after)
  weigh-Extends e acc (ok false) = elim (Option-cases e.condition) [
    | inl c ↦ rw (c) (Extends-refl acc)
    | inr (cond, c) ↦
        rw (c)
          ((λ d m. m), min_left acc.retry_after (reevaluate_after env.parse_duration filter cond))
  ]

  one-Extends : (e : Escalation) (acc : Evaluation) → Extends acc (evaluate_one env i filter e acc)
  unfolding evaluate_one
  one-Extends e acc = elim (Bool-cases (has_id i.escalation_state e.id)) [
    | inl t ↦ rw (t) (Extends-refl acc)
    | inr t ↦ rw (t) (weigh-Extends e acc (eval_escalation env.parse_duration e filter))
  ]

  each-Extends :
      (es : List (ℕ × Escalation)) (acc : Evaluation)
      → Extends acc (evaluate_each env i filter es acc)
  unfolding evaluate_each
  each-Extends [] acc = Extends-refl acc
  each-Extends ((n, e) ∷ es) acc =
      Extends-trans acc (evaluate_one env i filter e acc)
        (evaluate_each env i filter es (evaluate_one env i filter e acc)) (one-Extends e acc)
        (each-Extends es (evaluate_one env i filter e acc))

  rules-Extends :
      (ids : List ℕ) (acc : Evaluation) → Extends acc (evaluate_of_rules env i filter ids acc)
  unfolding evaluate_of_rules
  rules-Extends [] acc = Extends-refl acc
  rules-Extends (id ∷ ids) acc = elim (Option-cases (find env.config.rules id)) [
    | inl e ↦ rw (e, evaluate_of_rules) (rules-Extends ids acc)
    | inr (r, e) ↦
        rw (e, evaluate_of_rules)
          (Extends-trans acc (evaluate_each env i filter r.escalations acc) _
            (each-Extends r.escalations acc)
            (rules-Extends ids (evaluate_each env i filter r.escalations acc)))
  ]

  -- What an evaluation owes to an escalation that was not triggered before: it is returned if its
  -- condition holds, and the incident is reevaluated in time if it does not.
  abbrev Considered : Escalation → Evaluation → Type 0
  Considered e a =
      (eval_escalation env.parse_duration e filter ≡ ok true → Member e a.escalations)
      × ((cond : Filter)
          → eval_escalation env.parse_duration e filter ≡ ok false
          → e.condition ≡ some cond
          → a.retry_after ≤ℤ reevaluate_after env.parse_duration filter cond)

  Considered-Extends :
      (e : Escalation) (a b : Evaluation) → Considered e a → Extends a b → Considered e b
  Considered-Extends e a b (h, k) (m, n) =
      ((λ t. m e (h t)), λ cond f c. le_trans b.retry_after a.retry_after _ n (k cond f c))

  one-Considered :
      (e : Escalation) (acc : Evaluation)
      → has_id i.escalation_state e.id ≡ false
      → Considered e (evaluate_one env i filter e acc)
  unfolding evaluate_one weigh
  one-Considered e acc t = (
    (λ h. rw (t, h) (last-Member acc.escalations e)),
    λ cond h c.
        rw (t, h, c) (min_right acc.retry_after (reevaluate_after env.parse_duration filter cond)),
  )

  each-Considered :
      (es : List (ℕ × Escalation)) (acc : Evaluation) (n : ℕ) (e : Escalation)
      → has_id i.escalation_state e.id ≡ false
      → Member (n, e) es
      → Considered e (evaluate_each env i filter es acc)
  unfolding evaluate_each
  each-Considered ((m, d) ∷ es) acc n e t (here h) =
      let same : d ≡ e = ap (λ x. x.1) h in
      Considered-Extends e (evaluate_one env i filter d acc)
        (evaluate_each env i filter es (evaluate_one env i filter d acc))
        (rw same (one-Considered e acc t)) (each-Extends es (evaluate_one env i filter d acc))
  each-Considered ((m, d) ∷ es) acc n e t (there h) =
      each-Considered es (evaluate_one env i filter d acc) n e t h
  each-Considered [] acc n e t h = elim h [ ]

  rules-Considered :
      (ids : List ℕ) (acc : Evaluation) (id : ℕ) (r : Rule) (n : ℕ) (e : Escalation)
      → find env.config.rules id ≡ some r
      → Member id ids
      → Member (n, e) r.escalations
      → has_id i.escalation_state e.id ≡ false
      → Considered e (evaluate_of_rules env i filter ids acc)
  unfolding evaluate_of_rules
  rules-Considered [] acc id r n e f h m t = elim h [ ]
  rules-Considered (j ∷ ids) acc id r n e f (here h) m t =
      rw (h, f, evaluate_of_rules)
        (Considered-Extends e (evaluate_each env i filter r.escalations acc) _
          (each-Considered r.escalations acc n e t m)
          (rules-Extends ids (evaluate_each env i filter r.escalations acc)))
  rules-Considered (j ∷ ids) acc id r n e f (there h) m t =
      elim (Option-cases (find env.config.rules j)) [
        | inl g ↦ rw (g, evaluate_of_rules) (rules-Considered ids acc id r n e f h m t)
        | inr (q, g) ↦
            rw (g, evaluate_of_rules)
              (rules-Considered ids (evaluate_each env i filter q.escalations acc) id r n e f h m t)
      ]

-- Every escalation that evaluateEscalations returns was not triggered before, and its condition holds.
pub evaluation_at-IsReached :
    (env : Env) (i : Incident) (t : ℤ)
    → All (IsReached env i (escalation_filter i t)) (evaluation_at env i t).escalations
unfolding evaluation_at
evaluation_at-IsReached env i t = rules-IsReached env i (escalation_filter i t) i.rules _ tt

-- Every escalation of a rule in effect that was not triggered before, and whose condition holds, is
-- returned by evaluateEscalations.
pub evaluation_at_complete :
    (env : Env) (i : Incident) (t : ℤ) (id : ℕ) (r : Rule) (n : ℕ) (e : Escalation)
    → find env.config.rules id ≡ some r
    → Member id i.rules
    → Member (n, e) r.escalations
    → IsReached env i (escalation_filter i t) e
    → Member e (evaluation_at env i t).escalations
unfolding evaluation_at
evaluation_at_complete env i t id r n e f h m reached =
    (rules-Considered env i (escalation_filter i t) i.rules _ id r n e f h m reached.0).0 reached.1

evaluation_at_in_time :
    (env : Env) (i : Incident) (t : ℤ) (id : ℕ) (r : Rule) (n : ℕ) (e : Escalation) (cond : Filter)
    → find env.config.rules id ≡ some r
    → Member id i.rules
    → Member (n, e) r.escalations
    → has_id i.escalation_state e.id ≡ false
    → eval_escalation env.parse_duration e (escalation_filter i t) ≡ ok false
    → e.condition ≡ some cond
    → (evaluation_at env i t).retry_after
      ≤ℤ reevaluate_after env.parse_duration (escalation_filter i t) cond
unfolding evaluation_at
evaluation_at_in_time env i t id r n e cond f h m new holds c =
    (rules-Considered env i (escalation_filter i t) i.rules _ id r n e f h m new).1 cond holds c

below_never : (a b c : ℤ) → a ≤ℤ b → b <ℤ c → eqb_ℤ a c ≡ false
below_never a b c h k = ground arith

add_mono : (t a b : ℤ) → a ≤ℤ b → (t +ℤ a) ≤ℤ (t +ℤ b)
add_mono t a b h = omega (arith, +ℤ_parts t a, +ℤ_parts t b, h)

-- If the condition of an escalation of a rule in effect that was not triggered before evaluates to false,
-- and ReevaluateAfter does not return RetryNever for it, then evaluateEscalations leaves the incident with
-- a timer, and the event of the timer is not later than the time of the evaluation and what
-- ReevaluateAfter returns for the condition.
pub evaluate_escalations_in_time :
    (env : Env) (w : World) (t : ℤ) (id : ℕ) (r : Rule) (n : ℕ) (e : Escalation) (cond : Filter)
    → find env.config.rules id ≡ some r
    → Member id w.incident.rules
    → Member (n, e) r.escalations
    → has_id w.incident.escalation_state e.id ≡ false
    → eval_escalation env.parse_duration e (escalation_filter w.incident t) ≡ ok false
    → e.condition ≡ some cond
    → reevaluate_after env.parse_duration (escalation_filter w.incident t) cond <ℤ retry_never
    → (at : ℤ) × ((evaluate_escalations env t w).1.incident.timer ≡ some at)
      × (at ≤ℤ t +ℤ reevaluate_after env.parse_duration (escalation_filter w.incident t) cond)
unfolding evaluate_escalations
evaluate_escalations_in_time env w t id r n e cond f h m new holds c some_time =
    let after = reevaluate_after env.parse_duration (escalation_filter w.incident t) cond in
    let retry_after = (evaluation_at env w.incident t).retry_after in
    let in_time = evaluation_at_in_time env w.incident t id r n e cond f h m new holds c in
    (
      t +ℤ retry_after,
      rw (below_never retry_after after retry_never in_time some_time) refl,
      add_mono t retry_after after in_time,
    )
