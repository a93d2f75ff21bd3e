-- ===== src/Named.antt =====
-- What the enumerations of the program share: a map from names to values, the map the other way
-- round that is built from it, and the conversions from and to a database column.
use icinga_notifications.Prelude.{
  ℕ, Option, none, some, List, [], ◌∷◌, Result, ok, err, ◌==◌, if◌then◌else◌,
}
use icinga_notifications.Prelude.Bytes.{Bytes, bytes_eq}

-- A value that the database driver hands to Scan or takes from Value.
pub data DbValue : Type 0 where
  null : DbValue
  -- a `string` or a `[]byte`
  text : Bytes → DbValue
  -- a value of another type
  other : DbValue

pub data NameError : Type 0 where
  unable_to_scan : NameError
  unknown_name : Bytes → NameError
  bad_json : NameError

module _ {A : Type 0} where
  -- value, ok := m[name]
  unfoldable pub value_of : List (Bytes × A) → Bytes → Option A
  value_of [] name = none
  value_of ((n, a) ∷ m) name = if bytes_eq n name then some a else value_of m name

  -- The name of the value with a given number, in the map the other way round.
  unfoldable pub name_of : (A → ℕ) → List (Bytes × A) → ℕ → Option Bytes
  name_of number [] k = none
  name_of number ((n, a) ∷ m) k = if number a == k then some n else name_of number m k

  -- The part of a Scan method for a value that is not NULL.
  unfoldable pub scan_text : List (Bytes × A) → DbValue → Result NameError A
  scan_text m (text name) = elim (value_of m name) [
    | none ↦ err (unknown_name name)
    | some a ↦ ok a
  ]
  scan_text m _ = err unable_to_scan

-- A database column of a name, NULL if there is none: String() of a value without a name is "".
abbrev pub text_of : Option Bytes → DbValue
text_of none = text []
text_of (some n) = text n
