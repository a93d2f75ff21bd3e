-- ===== src/Filter/Parser/Iteration.antt =====
-- One iteration of readFilter's loop: readCondition, and the branch for what it returned.
use icinga_notifications.Prelude.{ℕ, refl, Option, none, some, [], ◌∷◌, Result, ok, err, ◌>>=◌}
use native.Mathlib.Nat.{le_refl}
use icinga_notifications.Prelude.Int.{ℤ}
use icinga_notifications.Prelude.Bytes.{Bytes}
use icinga_notifications.Filter.Types.{Filter}
use icinga_notifications.Filter.Parser.Chars.{Parser, ParseError, read_condition}
use icinga_notifications.Filter.Parser.Reads.{Kept, read_condition-Kept}
use icinga_notifications.Filter.Parser.Loop.{
  Loop, is_nil, is_none, without_condition, with_condition, dispatch, iteration, append_condition,
}
use icinga_notifications.Filter.Parser.Balance.{
  IsReady, Outcome, snoc-ne-nil, from_Reads, Outcome-trans, Balanced-refl, IsReady-append,
  no_operator,
}
use icinga_notifications.Filter.Parser.Step.{with_condition_lem, without_condition_lem}

-- At the end of the text both branches leave the loop.
dispatch_end :
    (tag : Bytes) (i : ℕ) (o : ℤ) (f : Option Filter) (l : Loop)
    → let p : Parser = record { tag = tag; pos = i; rest = []; open_parenthesis = o } in
      Outcome l.nesting_level p (dispatch (f, p) l)
unfolding dispatch with_condition without_condition
dispatch_end tag i o (some f) l = (Balanced-refl _, le_refl _, refl)
dispatch_end tag i o none l =
    rw (no_operator (is_none l.operator) (is_nil l.rules)) (Balanced-refl _, le_refl _, refl)

dispatch_lem :
    (p : Parser) (f : Option Filter) (l : Loop)
    → IsReady l
    → Outcome l.nesting_level p (dispatch (f, p) l)
unfolding dispatch
dispatch_lem p f l r = go p.tag p.pos p.rest p.open_parenthesis f
  where
    go :
        (tag : Bytes) (i : ℕ) (t : Bytes) (o : ℤ) (f : Option Filter)
        → let p : Parser = record { tag = tag; pos = i; rest = t; open_parenthesis = o } in
          Outcome l.nesting_level p (dispatch (f, p) l)
    go tag i [] o f = dispatch_end tag i o f l
    go tag i (c ∷ s) o none = without_condition_lem tag i c s o l r
    go tag i (c ∷ s) o (some f) =
        with_condition_lem tag i c s o (append_condition f l) (IsReady-append l f r)
          (snoc-ne-nil l.rules _)

-- Every iteration has a regular outcome.
pub iteration_lem : (l : Loop) → IsReady l → Outcome l.nesting_level l.parser (iteration l)
unfolding iteration
iteration_lem l r = go (read_condition l.parser) (read_condition-Kept l.parser)
  where
    go :
        (m : Result ParseError (Option Filter × Parser))
        → Kept l.parser m
        → Outcome l.nesting_level l.parser (m >>= λ r. dispatch r l)
    go (err e) k = k
    go (ok (f, q)) k =
        Outcome-trans l.nesting_level l.parser q (dispatch (f, q) l) (from_Reads l.parser q k)
          k.shorter (dispatch_lem q f l r)
