-- ===== src/Filter/Negation.antt =====
-- internal/filter/types.go: a chain with the operator None.
use icinga_notifications.Prelude.{
  ◌≡◌, refl, Bool, true, false, not, ok, err, ◌>>=◌, map_ok, Result, if◌then◌else◌,
}
use icinga_notifications.Filter.Types.{
  Filters, Filterable, EvalError, chain, nil, cons, none_of, any_of, eval, eval_none, eval_any,
}

-- One rule of the chain, before rules for which it is known.
decided :
    (r : Result EvalError Bool) (a b : Result EvalError Bool)
    → a ≡ map_ok not b
    → (r >>= λ m. if m then ok false else a) ≡ map_ok not (r >>= λ m. if m then ok true else b)
decided (ok true) a b h = refl
decided (ok false) a b h = h
decided (err e) a b h = refl

loops : (rules : Filters) (f : Filterable) → eval_none rules f ≡ map_ok not (eval_any rules f)
unfolding eval
loops nil f = refl
loops (cons rule rules) f = decided (eval rule f) _ _ (loops rules f)

-- A chain with the operator None evaluates to the negation of the same chain with the operator Any,
-- with the same errors.
pub eval-none_of :
    (rules : Filters) (f : Filterable)
    → eval (chain none_of rules) f ≡ map_ok not (eval (chain any_of rules) f)
unfolding eval
eval-none_of rules f = loops rules f
