-- ===== src/Filter/Query.antt =====
-- What parser.go uses of Go's standard library: url.QueryUnescape, strings.TrimSpace, and the
-- conversion of a byte to a string.
use icinga_notifications.Prelude.{
  ℕ, zero, suc, ◌+◌, ◌-◌, ◌*◌, ◌/◌, ◌%◌, Bool, ◌&&◌, ◌||◌, Option, none, some, List, [], ◌∷◌,
  Result, ok, err, ◌>>=◌, ltb, leb, ◌==◌, if◌then◌else◌, length,
}
use icinga_notifications.Prelude.Bytes.{Bytes}
use mathlib.Core.List.{reverse}

-- string(b) of a byte b: the UTF-8 encoding of the code point b.
unfoldable pub char_string : ℕ → Bytes
char_string b = if ltb b 128 then b ∷ [] else (192 + b / 64) ∷ (128 + b % 64) ∷ []

abbrev is_hex : ℕ → Bool
is_hex c = leb b'0' c && leb c b'9' || leb b'a' c && leb c b'f' || leb b'A' c && leb c b'F'

abbrev unhex : ℕ → ℕ
unhex c = if leb c b'9' then c - b'0' else if leb c b'F' then c - b'A' + 10 else c - b'a' + 10

-- In a query component `+` stands for a space.
abbrev unplus : ℕ → ℕ
unplus c = if c == b'+' then b' ' else c

pub data EscapeError : Type 0 where
  invalid_escape : EscapeError

-- url.QueryUnescape: `%XY` is the byte XY; a `%` without two hexadecimal digits is an error.
unfoldable pub query_unescape : Bytes → Result EscapeError Bytes
query_unescape [] = ok []
query_unescape (c ∷ []) = if c == b'%' then err invalid_escape else ok (unplus c ∷ [])
query_unescape (c ∷ a ∷ []) =
    let plain : Result EscapeError Bytes = (do
      rest ← query_unescape (a ∷ [])
      ok (unplus c ∷ rest)) in
    if c == b'%' then err invalid_escape else plain
query_unescape (c ∷ a ∷ b ∷ s) =
    let plain : Result EscapeError Bytes = (do
      rest ← query_unescape (a ∷ b ∷ s)
      ok (unplus c ∷ rest)) in
    let escaped : Result EscapeError Bytes = (do
      rest ← query_unescape s
      ok ((unhex a * 16 + unhex b) ∷ rest)) in
    if c == b'%' then (if is_hex a && is_hex b then escaped else err invalid_escape) else plain

-- The UTF-8 encodings of the code points for which unicode.IsSpace holds.
abbrev spaces : List Bytes
spaces =
    (0x09 ∷ [])
    ∷ (0x0a ∷ [])
    ∷ (0x0b ∷ [])
    ∷ (0x0c ∷ [])
    ∷ (0x0d ∷ [])
    ∷ (0x20 ∷ [])
    ∷ (0xc2 ∷ 0x85 ∷ [])
    ∷ (0xc2 ∷ 0xa0 ∷ [])
    ∷ (0xe1 ∷ 0x9a ∷ 0x80 ∷ [])
    ∷ (0xe2 ∷ 0x80 ∷ 0x80 ∷ [])
    ∷ (0xe2 ∷ 0x80 ∷ 0x81 ∷ [])
    ∷ (0xe2 ∷ 0x80 ∷ 0x82 ∷ [])
    ∷ (0xe2 ∷ 0x80 ∷ 0x83 ∷ [])
    ∷ (0xe2 ∷ 0x80 ∷ 0x84 ∷ [])
    ∷ (0xe2 ∷ 0x80 ∷ 0x85 ∷ [])
    ∷ (0xe2 ∷ 0x80 ∷ 0x86 ∷ [])
    ∷ (0xe2 ∷ 0x80 ∷ 0x87 ∷ [])
    ∷ (0xe2 ∷ 0x80 ∷ 0x88 ∷ [])
    ∷ (0xe2 ∷ 0x80 ∷ 0x89 ∷ [])
    ∷ (0xe2 ∷ 0x80 ∷ 0x8a ∷ [])
    ∷ (0xe2 ∷ 0x80 ∷ 0xa8 ∷ [])
    ∷ (0xe2 ∷ 0x80 ∷ 0xa9 ∷ [])
    ∷ (0xe2 ∷ 0x80 ∷ 0xaf ∷ [])
    ∷ (0xe2 ∷ 0x81 ∷ 0x9f ∷ [])
    ∷ (0xe3 ∷ 0x80 ∷ 0x80 ∷ [])
    ∷ []

cut_prefix : Bytes → Bytes → Option Bytes
cut_prefix [] s = some s
cut_prefix (x ∷ xs) [] = none
cut_prefix (x ∷ xs) (y ∷ ys) = let rest = cut_prefix xs ys in if x == y then rest else none

cut_first : List Bytes → Bytes → Option Bytes
cut_first [] s = none
cut_first (x ∷ xs) s =
    let rest = cut_first xs s in elim (cut_prefix x s) [ none ↦ rest | some r ↦ some r ]

-- Each round removes at least one byte, so `length s` rounds are enough.
trim_front : ℕ → List Bytes → Bytes → Bytes
trim_front zero marks s = s
trim_front (suc n) marks s = elim (cut_first marks s) [ none ↦ s | some r ↦ trim_front n marks r ]

reverse_each : List Bytes → List Bytes
reverse_each [] = []
reverse_each (x ∷ xs) = reverse x ∷ reverse_each xs

-- strings.TrimSpace
unfoldable pub trim_space : Bytes → Bytes
unfolding cut_prefix cut_first trim_front reverse_each
trim_space s =
    let front = trim_front (length s) spaces s in
    reverse (trim_front (length front) (reverse_each spaces) (reverse front))
