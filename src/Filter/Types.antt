-- ===== src/Filter/Types.antt =====
-- internal/filter/types.go and contracts.go: filter trees, their evaluation against a filterable,
-- and the conditions in a tree.
use icinga_notifications.Prelude.{
  Bool, true, false, not, List, [], ◌∷◌, ◌++◌, Result, ok, err, ◌>>=◌, if◌then◌else◌,
}
use icinga_notifications.Prelude.Bytes.{Bytes}

-- The Go type is a string; `other` is any value that is none of the constants.
pub data LogicalOp : Type 0 where
  none_of all_of any_of : LogicalOp
  other : Bytes → LogicalOp

pub data CompOperator : Type 0 where
  equal un_equal like un_like less_than less_than_equal greater_than greater_than_equal :
      CompOperator
  other : Bytes → CompOperator

pub record Condition : Type 0 where
  pub op : CompOperator
  pub column : Bytes
  pub value : Bytes

mutual
  pub data Filter : Type 0 where
    chain : LogicalOp → Filters → Filter
    condition : Condition → Filter
    exists : Bytes → Filter

  -- []Filter
  pub data Filters : Type 0 where
    nil : Filters
    cons : Filter → Filters → Filters

-- append(rules, rule)
unfoldable pub snoc : Filters → Filter → Filters
snoc nil g = cons g nil
snoc (cons f fs) g = cons f (snoc fs g)

pub data EvalError : Type 0 where
  invalid_logical_operator : EvalError
  invalid_comparison_operator : EvalError
  -- an error that the filterable returned
  wildcard_unsupported : EvalError
  invalid_duration : Bytes → EvalError
  unknown_severity : Bytes → EvalError

-- The interface Filterable of contracts.go.
pub record Filterable : Type 0 where
  pub eval_equal : Bytes → Bytes → Result EvalError Bool
  pub eval_less : Bytes → Bytes → Result EvalError Bool
  pub eval_like : Bytes → Bytes → Result EvalError Bool
  pub eval_less_or_equal : Bytes → Bytes → Result EvalError Bool
  pub eval_exists : Bytes → Bool

-- The `switch c.op` of Condition.Eval.
unfoldable pub eval_op : CompOperator → Filterable → Bytes → Bytes → Result EvalError Bool
eval_op equal f column value = f.eval_equal column value
eval_op un_equal f column value = do match ← f.eval_equal column value; ok (not match)
eval_op like f column value = f.eval_like column value
eval_op un_like f column value = do match ← f.eval_like column value; ok (not match)
eval_op less_than f column value = f.eval_less column value
eval_op less_than_equal f column value = f.eval_less_or_equal column value
eval_op greater_than f column value = do match ← f.eval_less_or_equal column value; ok (not match)
eval_op greater_than_equal f column value = do match ← f.eval_less column value; ok (not match)
eval_op (other _) f column value = err invalid_comparison_operator

unfoldable pub eval_condition : Condition → Filterable → Result EvalError Bool
unfolding eval_op
eval_condition c f =
    if not (f.eval_exists c.column) then ok false else eval_op c.op f c.column c.value

-- Chain.Eval, Condition.Eval and Exists.Eval. The rules after the one that decides are not
-- evaluated, and an error ends the evaluation.
unfoldable mutual
  pub eval : Filter → Filterable → Result EvalError Bool
  eval (chain none_of rules) f = eval_none rules f
  eval (chain all_of rules) f = eval_all rules f
  eval (chain any_of rules) f = eval_any rules f
  eval (chain (other _) rules) f = err invalid_logical_operator
  eval (condition c) f = eval_condition c f
  eval (exists column) f = ok (f.eval_exists column)

  pub eval_none : Filters → Filterable → Result EvalError Bool
  eval_none nil f = ok true
  eval_none (cons rule rules) f =
      let rest = eval_none rules f in eval rule f >>= λ matched. if matched then ok false else rest

  pub eval_all : Filters → Filterable → Result EvalError Bool
  eval_all nil f = ok true
  eval_all (cons rule rules) f =
      let rest = eval_all rules f in
      eval rule f >>= λ matched. if not matched then ok false else rest

  pub eval_any : Filters → Filterable → Result EvalError Bool
  eval_any nil f = ok false
  eval_any (cons rule rules) f =
      let rest = eval_any rules f in eval rule f >>= λ matched. if matched then ok true else rest

unfoldable mutual
  pub extract_conditions : Filter → List Condition
  extract_conditions (chain op rules) = extract_all rules
  extract_conditions (condition c) = c ∷ []
  extract_conditions (exists column) = []

  -- the loop of Chain.ExtractConditions
  pub extract_all : Filters → List Condition
  extract_all nil = []
  extract_all (cons rule rules) = extract_conditions rule ++ extract_all rules
