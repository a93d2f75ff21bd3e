-- ===== src/Runtime/Credentials.antt =====
-- internal/config/runtime.go: GetSourceFromCredentials. Ids are natural numbers: no source has a negative
-- one.
use icinga_notifications.Prelude.{
  ℕ, ◌+◌, ◌-◌, ◌*◌, ◌^◌, Bool, ◌&&◌, Option, none, some, [], ◌∷◌, ◌==◌, ltb, leb, if◌then◌else◌,
}
use icinga_notifications.Prelude.Int
use icinga_notifications.Prelude.Int.{ℤ}
use icinga_notifications.Prelude.Bytes.{Bytes, codes}
use icinga_notifications.Runtime.Elements.{Source}
use icinga_notifications.Runtime.State.{Runtime, by_id, in_sources, pointer, read}

-- strings.CutPrefix, for a text that begins with the prefix.
unfoldable pub cut_prefix : Bytes → Bytes → Option Bytes
cut_prefix [] s = some s
cut_prefix (p ∷ ps) [] = none
cut_prefix (p ∷ ps) (c ∷ cs) = if p == c then cut_prefix ps cs else none

-- The decimal digits after those that were read.
unfoldable pub read_digits : ℕ → Bytes → Option ℕ
read_digits n [] = some n
read_digits n (c ∷ cs) =
    if leb b'0' c && leb c b'9' then read_digits (n * 10 + (c - b'0')) cs else none

unfoldable pub read_number : Bytes → Option ℕ
unfolding read_digits
read_number [] = none
read_number (c ∷ cs) = read_digits 0 (c ∷ cs)

-- strconv.ParseInt(s, 10, 64)
unfoldable pub parse_int : Bytes → Option ℤ
unfolding read_number
parse_int [] = none
parse_int (c ∷ cs) =
    if c == b'-'
    then elim (read_number cs) [
      | none ↦ none
      | some n ↦ if leb n (2 ^ 63) then some (Int.sub_ℕ 0 n) else none
    ]
    else elim (if c == b'+' then read_number cs else read_number (c ∷ cs)) [
      | none ↦ none
      | some n ↦ if ltb n (2 ^ 63) then some (Int.pos n) else none
    ]

-- r.Sources[id]
unfoldable pub source_of : Runtime → ℤ → Option Source
unfolding pointer read
source_of r (Int.negsuc n) = none
source_of r (Int.pos n) = elim (pointer by_id in_sources r n) [
  | none ↦ none
  | some p ↦ read in_sources r p
]

-- `compare` is whether bcrypt.CompareHashAndPassword returns no error.
unfoldable pub check_password : (Bytes → Bytes → Bool) → Bytes → Source → Option Source
check_password compare pass source = elim source.listener_password_hash [
  | none ↦ none
  | some hash ↦ if compare hash pass then some source else none
]

unfoldable pub get_source_from_credentials :
    (Bytes → Bytes → Bool) → Runtime → Bytes → Bytes → Option Source
unfolding cut_prefix parse_int source_of check_password
get_source_from_credentials compare r user pass = elim (cut_prefix (codes "source-") user) [
  | none ↦ none
  | some raw ↦ elim (parse_int raw) [
    | none ↦ none
    | some id ↦ elim (source_of r id) [
      | none ↦ none
      | some source ↦ check_password compare pass source
    ]
  ]
]
