-- ===== src/Tests/Filters.antt =====
-- Expressions that the parser reads, and the theorems on filters at small filters.
use icinga_notifications.Prelude.{
  ℕ, ◌≡◌, ◌≢◌, refl, Bool, true, false, not, Option, none, some, List, [], ◌∷◌, Result, ok, err,
  All, map_ok, inl, inr, ◌≤◌,
}
use icinga_notifications.Prelude.Bytes.{Bytes, codes, count_byte}
use icinga_notifications.Filter.Query.{trim_space, query_unescape}
use icinga_notifications.Filter.Types
use icinga_notifications.Filter.Types.{
  Filter, Filters, Filterable, EvalError, chain, exists, nil, cons, all_of, any_of, none_of, eval,
  extract_conditions,
}
use icinga_notifications.Filter.Parser.Chars
use icinga_notifications.Filter.Parser.Chars.{ParseError, out_of_fuel, panic}
use icinga_notifications.Filter.Parser.Loop.{parse}
use icinga_notifications.Filter.Parser.Correct.{parse_terminates, parse-ne-panic, parse_balanced}
use icinga_notifications.Filter.Congruence.{eval_congruence}
use icinga_notifications.Filter.Negation.{eval-none_of}
use icinga_notifications.Object.Objects.{as_filterable, matches, regex_of, split_star}
use icinga_notifications.Prelude.Int.{pos}
use icinga_notifications.Event.Severity.{severity_crit}
use icinga_notifications.Rule.Condition as Rule
use icinga_notifications.Tests.Samples.{object, after_an_hour, an_hour}

parse_of : Bytes → Result ParseError Filter
unfolding parse Chars.read_condition icinga_notifications.Filter.Query.query_unescape
    icinga_notifications.Prelude.Bytes.has_byte icinga_notifications.Filter.Query.char_string
    Types.snoc Chars.parse_error
parse_of e = parse e

abbrev word : Bytes → Filter
word b = exists b

abbrev words : Filter
words =
    chain any_of (cons (word (codes "a")) (cons (word (codes "b")) (cons (word (codes "c")) nil)))

-- The second operator is read as the first one.
parse_mixed : parse_of (codes "a|b&c") ≡ ok words
unfolding parse_of
parse_mixed = refl

-- The parenthesis of the group ends the operator's level too early.
parse_not_group :
    parse_of (codes "!(a&b)|c")
    ≡ err (Chars.unexpected (codes "!(a&b)|c") (codes "|") 7 (Chars.operator_level 1))
unfolding parse_of
parse_not_group = refl

parse_bad_group :
    parse_of (codes "(a=b|c=d)e=f")
    ≡ err (Chars.unexpected (codes "(a=b|c=d)e=f") (codes "e") 10 Chars.expected_logical_operator)
unfolding parse_of
parse_bad_group = refl

like_prefix : matches (regex_of (split_star [] (codes "web*"))) (codes "web01") ≡ true
unfolding matches regex_of split_star
like_prefix = refl

-- A star between two characters is dropped.
like_inner : matches (regex_of (split_star [] (codes "a*b"))) (codes "axb") ≡ false
unfolding matches regex_of split_star
like_inner = refl

trim_space_runs : trim_space (codes "  a b ") ≡ codes "a b"
unfolding trim_space
trim_space_runs = refl

query_unescape_runs : query_unescape (codes "col%3Cu+n") ≡ ok (codes "col<u n")
unfolding query_unescape
query_unescape_runs = refl

parse_terminates_example : parse (codes "a|(b&!c)") ≢ err out_of_fuel
parse_terminates_example = parse_terminates (codes "a|(b&!c)")

parse-ne-panic_example : parse (codes "!(a|(b&c))") ≢ err panic
parse-ne-panic_example = parse-ne-panic (codes "!(a|(b&c))")

parse_balanced_example : count_byte b'(' (codes "(a|b|c)") ≡ count_byte b')' (codes "(a|b|c)")
unfolding parse_of icinga_notifications.Prelude.Int.◌-ℤ◌ icinga_notifications.Prelude.Int.◌+ℤ◌
parse_balanced_example = parse_balanced (codes "(a|b|c)") words refl

-- The age of an incident, in seconds.
abbrev aged : ℕ → Filterable
aged n =
    Rule.as_filterable an_hour (record { incident_age = pos n; incident_severity = severity_crit })

eval_congruence_example : eval after_an_hour (aged 10) ≡ eval after_an_hour (aged 20)
unfolding extract_conditions icinga_notifications.Filter.Types.eval_condition
    icinga_notifications.Rule.Condition.eval_exists icinga_notifications.Prelude.Bytes.bytes_eq
    icinga_notifications.Rule.Condition.eval_less
eval_congruence_example =
    eval_congruence (aged 10) (aged 20) after_an_hour (λ column. refl) (refl, tt)

eval-none_of_example :
    eval (chain none_of (cons words nil)) (as_filterable object)
    ≡ map_ok not (eval (chain any_of (cons words nil)) (as_filterable object))
eval-none_of_example = eval-none_of (cons words nil) (as_filterable object)
