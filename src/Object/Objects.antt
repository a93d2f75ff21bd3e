-- ===== src/Object/Objects.antt =====
-- internal/object/object.go: objects, and their tags as a filterable.
use icinga_notifications.Prelude.{
  ℕ, Bool, true, false, not, ◌&&◌, ◌||◌, Option, none, some, List, [], ◌∷◌, ◌++◌, Result, ok, ◌==◌,
  if◌then◌else◌,
}
use icinga_notifications.Prelude.Bytes.{Bytes, bytes_eq, bytes_lt}
use icinga_notifications.Filter.Types.{EvalError, Filterable}
use icinga_notifications.Event.Incoming.{Event, Tags, is_muting, to_db_string}

pub record Object : Type 0 where
  pub id : Bytes
  pub source_id : ℕ
  pub name : Bytes
  pub url : Option Bytes
  pub mute_reason : Option Bytes
  pub tags : Tags
  pub extra_tags : Tags

-- New; the id is set by the caller.
unfoldable pub new : Bytes → Event → Object
new id ev = record {
  id = id;
  source_id = ev.source_id;
  name = ev.name;
  url = to_db_string ev.url;
  mute_reason = if is_muting ev.mute then some ev.mute_reason else none;
  tags = ev.tags;
  extra_tags = ev.extra_tags;
}

unfoldable pub is_muted : Object → Bool
is_muted o = elim o.mute_reason [ none ↦ false | some _ ↦ true ]

-- tagVal, ok := tags[key]
unfoldable pub tag_of : Tags → Bytes → Option Bytes
tag_of [] key = none
tag_of ((k, v) ∷ m) key = if bytes_eq k key then some v else tag_of m key

-- ok && test(tagVal)
abbrev pub tag_satisfies : (Bytes → Bool) → Option Bytes → Bool
tag_satisfies test none = false
tag_satisfies test (some v) = test v

-- The two lookups of the Eval methods: an id tag, or an extra tag, that satisfies the test.
unfoldable pub either_tag : (Bytes → Bool) → Object → Bytes → Result EvalError Bool
unfolding tag_of
either_tag test o key =
    if tag_satisfies test (tag_of o.tags key)
    then ok true
    else if tag_satisfies test (tag_of o.extra_tags key)
    then ok true
    else ok false

unfoldable pub eval_equal : Object → Bytes → Bytes → Result EvalError Bool
unfolding either_tag
eval_equal o key value = either_tag (λ tag. bytes_eq tag value) o key

unfoldable pub eval_less : Object → Bytes → Bytes → Result EvalError Bool
unfolding either_tag
eval_less o key value = either_tag (λ tag. bytes_lt tag value) o key

unfoldable pub eval_less_or_equal : Object → Bytes → Bytes → Result EvalError Bool
unfolding either_tag
eval_less_or_equal o key value = either_tag (λ tag. bytes_lt tag value || bytes_eq tag value) o key

unfoldable pub eval_exists : Object → Bytes → Bool
unfolding tag_of
eval_exists o key = elim (tag_of o.tags key) [
  | some _ ↦ true
  | none ↦ elim (tag_of o.extra_tags key) [ some _ ↦ true | none ↦ false ]
]

-- strings.Split(value, "*"), with the segment that is being read.
unfoldable pub split_star : Bytes → Bytes → List Bytes
split_star segment [] = segment ∷ []
split_star segment (c ∷ cs) =
    let next = split_star [] cs in
    let same = split_star (segment ++ c ∷ []) cs in if c == b'*' then segment ∷ next else same

-- The pieces of the regular expression: `.*`, or a quoted character.
pub data Piece : Type 0 where
  any_text : Piece
  literal : ℕ → Piece

unfoldable pub quote_meta : Bytes → List Piece
quote_meta [] = []
quote_meta (c ∷ cs) = literal c ∷ quote_meta cs

-- An empty segment becomes `.*`.
unfoldable pub regex_of : List Bytes → List Piece
unfolding quote_meta
regex_of [] = []
regex_of ([] ∷ segments) = any_text ∷ regex_of segments
regex_of ((c ∷ cs) ∷ segments) = quote_meta (c ∷ cs) ++ regex_of segments

-- `^pieces$` on a text; `.` is every character but the newline.
unfoldable pub matches : List Piece → Bytes → Bool
matches [] [] = true
matches [] (c ∷ cs) = false
matches (literal d ∷ ps) [] = false
matches (literal d ∷ ps) (c ∷ cs) = let rest = matches ps cs in c == d && rest
matches (any_text ∷ ps) [] = matches ps []
matches (any_text ∷ ps) (c ∷ cs) =
    let skip = matches ps (c ∷ cs) in
    let more = matches (any_text ∷ ps) cs in skip || (not (c == b'\n') && more)

-- The pattern is taken as valid UTF-8, for which regexp.MustCompile does not panic.
unfoldable pub eval_like : Object → Bytes → Bytes → Result EvalError Bool
unfolding either_tag matches regex_of split_star
eval_like o key value = either_tag (λ tag. matches (regex_of (split_star [] value)) tag) o key

-- *Object as a filter.Filterable
abbrev pub as_filterable : Object → Filterable
as_filterable o = record {
  eval_equal = eval_equal o;
  eval_less = eval_less o;
  eval_like = eval_like o;
  eval_less_or_equal = eval_less_or_equal o;
  eval_exists = eval_exists o;
}
