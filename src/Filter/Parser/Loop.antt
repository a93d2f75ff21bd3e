-- ===== src/Filter/Parser/Loop.antt =====
-- parser.go: Parse and readFilter.
use icinga_notifications.Prelude.{
  ℕ, zero, suc, ◌+◌, Bool, true, false, not, ◌&&◌, ◌||◌, Option, none, some, [], ◌∷◌, Result, ok,
  err, ◌>>=◌, ltb, ◌==◌, if◌then◌else◌, length,
}
use icinga_notifications.Prelude.Int
use icinga_notifications.Prelude.Int.{ℤ, ◌+ℤ◌, ◌-ℤ◌, ltb_ℤ}
use icinga_notifications.Prelude.Bytes.{Bytes}
use icinga_notifications.Filter.Types.{
  Filter, chain, Filters, nil, cons, snoc, none_of, all_of, any_of,
}
use icinga_notifications.Filter.Parser.Chars.{
  Parser, ParseError, missing_closing, unexpected_closing, panic, out_of_fuel, no_hint,
  expected_logical_operator, did_not_read_full_filter, operator_level, parse_error, next_char,
  advance, read_char, read_condition,
}

-- The local variables of readFilter, with the parser that all its calls share.
pub record Loop : Type 0 where
  pub nesting_level : ℕ
  pub operator : Option ℕ
  pub rules : Filters
  pub negate : Bool
  pub parser : Parser

-- How an iteration ends: `continue`, `break`, or a call of readFilter with the given operator and
-- rules, whose result is appended to the rules of the loop.
pub data Action : Type 0 where
  again stop : Loop → Action
  nested : Option ℕ → Filters → Loop → Action

-- s == "c", and s == t, for strings of at most one character
abbrev pub is : ℕ → Option ℕ → Bool
is c none = false
is c (some d) = d == c

abbrev pub same : Option ℕ → Option ℕ → Bool
same none none = true
same none (some d) = false
same (some c) o = is c o

abbrev pub is_logical : Option ℕ → Bool
is_logical o = is b'&' o || is b'|' o

abbrev pub is_none : Option ℕ → Bool
is_none none = true
is_none (some _) = false

abbrev pub is_nil : Filters → Bool
is_nil nil = true
is_nil (cons _ _) = false

-- len(rules) > 1
abbrev pub more_than_one : Filters → Bool
more_than_one (cons _ (cons _ _)) = true
more_than_one _ = false

abbrev pub single : Filter → Filters
single f = cons f nil

-- The last rule, and the rules before it.
unfoldable pub split_last : Filters → Option (Filters × Filter)
split_last nil = none
split_last (cons f nil) = some (nil, f)
split_last (cons f (cons g gs)) = elim (split_last (cons g gs)) [
  | none ↦ none
  | some (init, last) ↦ some (cons f init, last)
]

-- The call of readFilter that takes the last rule over.
unfoldable pub take_last_over : Option ℕ → Loop → Result ParseError Action
unfolding split_last
take_last_over next s = elim (split_last s.rules) [
  | none ↦ err panic
  | some (init, last) ↦ ok (nested next (single last) (record s { rules = init }))
]

-- `if next == ")"`
unfoldable pub close_group : Loop → Result ParseError Action
close_group s =
    let p : Parser = record s.parser {
      open_parenthesis = s.parser.open_parenthesis -ℤ Int.pos 1;
    } in
    let next : Option ℕ = next_char p in
    if ltb 0 s.nesting_level
    then (if not (is_none next) && not (is b'&' next) && not (is b'|' next) && not (is b')' next)
        then err (parse_error (record p { pos = p.pos + 1 }) next expected_logical_operator)
        else ok (stop (record s { parser = p })))
    else err (parse_error p (some b')') no_hint)

-- `if next == "("`
unfoldable pub open_group : Loop → Result ParseError Action
open_group s =
    if is_logical (next_char s.parser)
    then err (parse_error (advance s.parser) (next_char s.parser) no_hint)
    else ok (
        nested (if s.negate then some b'!' else none) nil (record s {
          negate = false;
          parser = record s.parser { open_parenthesis = s.parser.open_parenthesis +ℤ Int.pos 1 };
        }))

-- rules = []Filter{&Chain{op: All, rules: rules}} if there is more than one
abbrev pub collapse : Filters → Filters
collapse rules = if more_than_one rules then single (chain all_of rules) else rules

-- `if condition == nil`, with `next` read
unfoldable pub without_condition : Option ℕ → Loop → Result ParseError Action
without_condition next s =
    if is b'!' next
    then ok (again (record s { negate = true }))
    else if is_none s.operator && not (is_nil s.rules) && is_logical next
    then ok (again (record s { operator = next }))
    else if is_none next
    then ok (stop s)
    else if is b')' next
    then close_group s
    else if is b'(' next
    then open_group s
    else if same next s.operator
    then ok (again s)
    else if not (is b'!' s.operator) && is_logical next
    then (if is b'&' s.operator
        then ok (again (record s { rules = collapse s.rules; operator = next }))
        else if is b'|' s.operator || (is b'!' s.operator && is b'&' next)
        then take_last_over next s
        else ok (again s))
    else err (parse_error s.parser next (operator_level s.nesting_level))

-- The branch for a condition that was read, after it was appended to the rules.
unfoldable pub with_condition : Option ℕ → Loop → Result ParseError Action
with_condition next s =
    if is_none next
    then ok (stop s)
    else if is b')' next
    then close_group s
    else if same next s.operator
    then ok (again s)
    else if is_logical next
    then (if is_none s.operator || is b'&' s.operator
        then ok (
            again (record s {
              rules = if is b'&' s.operator then collapse s.rules else s.rules;
              operator = next;
            }))
        else if is_none s.operator || (is b'!' s.operator && is b'&' next)
        then take_last_over next s
        else ok (again s))
    else err (parse_error s.parser next no_hint)

-- if negate { rules = append(rules, None(condition)) } else { rules = append(rules, condition) }
abbrev pub append_condition : Filter → Loop → Loop
append_condition f s = record s {
  rules = snoc s.rules (if s.negate then chain none_of (single f) else f);
  negate = false;
}

unfoldable pub dispatch : Option Filter × Parser → Loop → Result ParseError Action
dispatch (none, p) s =
    let (next, p') = read_char p in without_condition next (record s { parser = p' })
dispatch (some f, p) s =
    let (next, p') = read_char p in
    with_condition next (append_condition f (record s { parser = p' }))

-- The loop's body.
unfoldable pub iteration : Loop → Result ParseError Action
unfolding dispatch with_condition without_condition close_group open_group take_last_over
iteration s = read_condition s.parser >>= λ r. dispatch r s

-- What follows the loop. At level 0 `rules != nil` says that a rule was appended: a slice that is empty but
-- not nil is left only by take_last_over, which appends right after or returns. So `rules[0]` is the first
-- of a list that is not empty, and its panic is not modelled.
unfoldable pub chain_of : Loop → Result ParseError Filter
chain_of s =
    if is b'&' s.operator
    then ok (chain all_of s.rules)
    else if is b'|' s.operator
    then ok (chain any_of s.rules)
    else if is b'!' s.operator
    then ok (chain none_of s.rules)
    else if is_none s.operator
    then (if s.nesting_level == 0
        then elim s.rules [ nil ↦ ok (chain all_of nil) | cons f _ ↦ ok f ]
        else ok (chain all_of s.rules))
    else err (parse_error s.parser s.operator no_hint)

abbrev pub at_end : Parser → Bool
at_end p = elim p.rest [ [] ↦ true | _ ∷ _ ↦ false ]

unfoldable pub finish : Loop → Result ParseError (Filter × Parser)
finish s =
    if s.nesting_level == 0 && not (at_end s.parser)
    then err (parse_error s.parser s.operator did_not_read_full_filter)
    else if s.nesting_level == 0 && ltb_ℤ (Int.pos 0) s.parser.open_parenthesis
    then err (missing_closing s.parser.tag s.parser.open_parenthesis s.parser.pos)
    else if s.nesting_level == 0 && ltb_ℤ s.parser.open_parenthesis (Int.pos 0)
    then err (unexpected_closing s.parser.tag s.parser.pos)
    else chain_of s >>= λ f. ok (f, s.parser)

abbrev pub child : Option ℕ → Filters → Loop → Loop
child operator rules s = record {
  nesting_level = s.nesting_level + 1;
  operator = operator;
  rules = rules;
  negate = false;
  parser = s.parser;
}

-- readFilter, from the state `s` of its loop on.
unfoldable pub read_filter : ℕ → Loop → Result ParseError (Filter × Parser)
unfolding iteration finish chain_of
read_filter zero s = err out_of_fuel
read_filter (suc fuel) s = elim (at_end s.parser) [
  | true ↦ finish s
  | false ↦ elim (iteration s) [
    | err e ↦ err e
    | ok (stop s') ↦ finish s'
    | ok (again s') ↦ read_filter fuel s'
    | ok (nested operator rules s') ↦ elim (read_filter fuel (child operator rules s')) [
      | err e ↦ err e
      | ok (rule, p) ↦ read_filter fuel (record s' { rules = snoc s'.rules rule; parser = p })
    ]
  ]
]

abbrev pub start : Bytes → Loop
start expression = record {
  nesting_level = 0;
  operator = none;
  rules = nil;
  negate = false;
  parser = record { tag = expression; pos = 0; rest = expression; open_parenthesis = Int.pos 0 };
}

-- Parse. Every iteration and every call consumes a character, so `length + 1` is fuel enough.
unfoldable pub parse : Bytes → Result ParseError Filter
unfolding read_filter
parse [] = ok (chain all_of nil)
parse (c ∷ cs) = read_filter (length (c ∷ cs) + 1) (start (c ∷ cs)) >>= λ r. ok r.0
