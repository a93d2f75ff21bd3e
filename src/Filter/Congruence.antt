-- ===== src/Filter/Congruence.antt =====
-- The evaluation of a filter depends on the filterable through the filter's conditions alone.
use icinga_notifications.Prelude.{◌≡◌, refl, ap, List, [], ◌∷◌, ◌++◌, ok, All}
use icinga_notifications.Prelude.Bytes.{Bytes}
use icinga_notifications.Filter.Types.{
  Filter, Filters, Filterable, Condition, chain, condition, exists, nil, cons, none_of, all_of,
  any_of, other, eval_condition, eval, eval_none, eval_all, eval_any, extract_conditions,
  extract_all,
}

-- A condition that two filterables evaluate alike.
abbrev pub SameOn : Filterable → Filterable → Condition → Type 0
SameOn f g c = eval_condition c f ≡ eval_condition c g

All-append_left {ℓ κ} : {A : Type ℓ} (P : A → Type κ) (xs ys : List A) → All P (xs ++ ys) → All P xs
All-append_left P [] ys h = tt
All-append_left P (x ∷ xs) ys h = (h.0, All-append_left P xs ys h.1)

All-append_right {ℓ κ} :
    {A : Type ℓ} (P : A → Type κ) (xs ys : List A) → All P (xs ++ ys) → All P ys
All-append_right P [] ys h = h
All-append_right P (x ∷ xs) ys h = All-append_right P xs ys h.1

module _ (f g : Filterable)
    (same_columns : (column : Bytes) → f.eval_exists column ≡ g.eval_exists column) where
  mutual
    unfolding eval extract_conditions

    eval_same : (t : Filter) → All (SameOn f g) (extract_conditions t) → eval t f ≡ eval t g
    eval_same (chain none_of rules) h = no_rule_same rules h
    eval_same (chain all_of rules) h = every_rule_same rules h
    eval_same (chain any_of rules) h = some_rule_same rules h
    eval_same (chain (other op) rules) h = refl
    eval_same (condition c) h = h.0
    eval_same (exists column) h = ap ok (same_columns column)

    no_rule_same :
        (ts : Filters) → All (SameOn f g) (extract_all ts) → eval_none ts f ≡ eval_none ts g
    no_rule_same nil h = refl
    no_rule_same (cons t ts) h =
        rw
          (
            eval_same t (All-append_left (SameOn f g) _ _ h),
            no_rule_same ts (All-append_right (SameOn f g) (extract_conditions t) _ h),
          )
          refl

    every_rule_same :
        (ts : Filters) → All (SameOn f g) (extract_all ts) → eval_all ts f ≡ eval_all ts g
    every_rule_same nil h = refl
    every_rule_same (cons t ts) h =
        rw
          (
            eval_same t (All-append_left (SameOn f g) _ _ h),
            every_rule_same ts (All-append_right (SameOn f g) (extract_conditions t) _ h),
          )
          refl

    some_rule_same :
        (ts : Filters) → All (SameOn f g) (extract_all ts) → eval_any ts f ≡ eval_any ts g
    some_rule_same nil h = refl
    some_rule_same (cons t ts) h =
        rw
          (
            eval_same t (All-append_left (SameOn f g) _ _ h),
            some_rule_same ts (All-append_right (SameOn f g) (extract_conditions t) _ h),
          )
          refl

-- Two filterables that have the same columns, and that evaluate every extracted condition alike,
-- give the same result, or the same error, for the whole filter.
pub eval_congruence :
    (f g : Filterable) (t : Filter)
    → ((column : Bytes) → f.eval_exists column ≡ g.eval_exists column)
    → All (SameOn f g) (extract_conditions t)
    → eval t f ≡ eval t g
eval_congruence f g t same h = eval_same f g same t h
