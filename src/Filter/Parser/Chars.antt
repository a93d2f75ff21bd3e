-- ===== src/Filter/Parser/Chars.antt =====
-- parser.go: the parser's state, its errors, and the reading of characters and conditions.
use icinga_notifications.Prelude.{
  ℕ, ◌+◌, ◌-◌, ◌&&◌, Option, none, some, [], ◌∷◌, ◌++◌, Result, ok, err, ◌>>=◌, ◌==◌, if◌then◌else◌,
  get_elem?,
}
use icinga_notifications.Prelude.Int.{ℤ}
use icinga_notifications.Prelude.Bytes.{Bytes, codes, has_byte}
use icinga_notifications.Filter.Types
use icinga_notifications.Filter.Types.{Filter, Condition, CompOperator}
use icinga_notifications.Filter.Query.{char_string, query_unescape, trim_space}

pub record Parser : Type 0 where
  pub tag : Bytes
  pub pos : ℕ
  pub rest : Bytes
  pub open_parenthesis : ℤ

-- The hint at the end of an "unexpected character" message.
pub data Hint : Type 0 where
  no_hint expected_logical_operator did_not_read_full_filter : Hint
  operator_level : ℕ → Hint

pub data ParseError : Type 0 where
  -- parseError: the tag, the character, the position and the hint
  unexpected : Bytes → Bytes → ℕ → Hint → ParseError
  missing_closing : Bytes → ℤ → ℕ → ParseError
  unexpected_closing : Bytes → ℕ → ParseError
  invalid_operator : Bytes → ParseError
  bad_escape : ParseError
  -- a slice index out of range, which panics
  panic : ParseError
  -- the fuel of the model ran out
  out_of_fuel : ParseError

-- parseError; without a character it takes p.tag[pos], which panics where `pos` is out of range.
unfoldable pub parse_error : Parser → Option ℕ → Hint → ParseError
parse_error p (some c) hint = unexpected p.tag (char_string c) p.pos hint
parse_error p none hint =
    let at : ℕ = elim p.rest [ [] ↦ p.pos - 1 | _ ∷ _ ↦ p.pos ] in
    elim (get_elem? p.tag at) [
      | none ↦ panic
      | some c ↦ unexpected p.tag (char_string c) p.pos hint
    ]

-- nextChar
abbrev pub next_char : Parser → Option ℕ
next_char p = elim p.rest [ [] ↦ none | c ∷ _ ↦ some c ]

-- The parser after a readChar.
abbrev pub advance : Parser → Parser
advance p = elim p.rest [ [] ↦ p | _ ∷ rest ↦ record p { pos = p.pos + 1; rest = rest } ]

-- readChar
abbrev pub read_char : Parser → Option ℕ × Parser
read_char p = (next_char p, advance p)

-- The text up to the first of `chars`, how many bytes it takes, and what follows.
unfoldable pub read_until_from : Bytes → Bytes → Bytes × ℕ × Bytes
read_until_from chars [] = ([], 0, [])
read_until_from chars (c ∷ s) =
    let (buffer, n, rest) = read_until_from chars s in
    if has_byte c chars then ([], 0, c ∷ s) else (char_string c ++ buffer, n + 1, rest)

unfoldable pub read_until : Bytes → Parser → Bytes × Parser
unfolding read_until_from
read_until chars p =
    let (buffer, n, rest) = read_until_from chars p.rest in
    (buffer, record p { pos = p.pos + n; rest = rest })

-- url.QueryUnescape, its error as one of the parser's
unfoldable pub unescape : Bytes → Result ParseError Bytes
unescape s = elim (query_unescape s) [ ok t ↦ ok t | err _ ↦ err bad_escape ]

unfoldable pub read_column : Parser → Result ParseError (Bytes × Parser)
unfolding unescape
read_column p =
    let (raw, p') = read_until (codes "=()&|><!") p in do column ← unescape raw; ok (column, p')

unfoldable pub read_value : Parser → Result ParseError (Bytes × Parser)
unfolding unescape
read_value p =
    let (value, p') = read_until (codes "()&|><") p in
    elim value [ [] ↦ ok ([], p') | c ∷ cs ↦ do v ← unescape (c ∷ cs); ok (v, p') ]

abbrev compare_with : CompOperator → Bytes → Bytes → Filter
compare_with op column value = Types.condition (record { op = op; column = column; value = value })

unfoldable pub create_condition : Bytes → Bytes → Bytes → Result ParseError Filter
create_condition raw (b ∷ []) value =
    let column = trim_space raw in
    if b == b'='
    then ok (compare_with (if has_byte b'*' value then Types.like else Types.equal) column value)
    else if b == b'>'
    then ok (compare_with Types.greater_than column value)
    else if b == b'<'
    then ok (compare_with Types.less_than column value)
    else err (invalid_operator (b ∷ []))
create_condition raw (b ∷ c ∷ []) value =
    let column = trim_space raw in
    if c == b'='
    then (if b == b'!'
        then ok (
            compare_with (if has_byte b'*' value then Types.un_like else Types.un_equal) column
              value)
        else if b == b'>'
        then ok (compare_with Types.greater_than_equal column value)
        else if b == b'<'
        then ok (compare_with Types.less_than_equal column value)
        else err (invalid_operator (b ∷ c ∷ [])))
    else err (invalid_operator (b ∷ c ∷ []))
create_condition raw operator value = err (invalid_operator operator)

-- The operator between a column and its value: one of `=><!`, the last three with an optional `=`.
-- strings.Contains holds of "" too, and then the operator is "".
unfoldable pub operator_at : Bytes → Parser → Bytes × Parser
operator_at [] p = ([], p)
operator_at (c ∷ []) p = if has_byte c (codes "=><!") then (c ∷ [], advance p) else ([], p)
operator_at (c ∷ d ∷ _) p =
    if has_byte c (codes "=><!")
    then (if has_byte c (codes "><!") && d == b'='
        then (c ∷ d ∷ [], advance (advance p))
        else (c ∷ [], advance p))
    else ([], p)

abbrev pub read_operator : Parser → Bytes × Parser
read_operator p = operator_at p.rest p

-- readCondition after a column that is not empty
unfoldable pub read_comparison : Bytes → Bytes × Parser → Result ParseError (Option Filter × Parser)
read_comparison column ([], p) = ok (some (Types.exists column), p)
read_comparison column (c ∷ cs, p) =
    read_value p >>= λ r. create_condition column (c ∷ cs) r.0 >>= λ f. ok (some f, r.1)

unfoldable pub condition_after : Bytes × Parser → Result ParseError (Option Filter × Parser)
condition_after ([], p) = ok (none, p)
condition_after (c ∷ cs, p) = read_comparison (c ∷ cs) (read_operator p)

unfoldable pub read_condition : Parser → Result ParseError (Option Filter × Parser)
unfolding read_column read_until read_comparison operator_at read_value condition_after
    create_condition
read_condition p = read_column p >>= λ r. condition_after r
