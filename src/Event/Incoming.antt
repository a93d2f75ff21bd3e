-- ===== src/Event/Incoming.antt =====
-- internal/event/event.go: events, their validation and their database row.

use icinga_notifications.Prelude.{
  ℕ, Bool, true, false, not, ◌&&◌, Option, none, some, List, [], ◌∷◌, Result, ok, err, ltb, ◌==◌,
  if◌then◌else◌, length, any,
}
use icinga_notifications.Prelude.Int.{ℤ}
use icinga_notifications.Prelude.Bytes.{Bytes}
use icinga_notifications.Event.Severity.{Severity, rank}

-- A Go map from strings to strings; no key occurs twice.
abbrev pub Tags : Type 0
Tags = List (Bytes × Bytes)

-- The constants of the `type` string; `untyped` is "" and `unsupported` any other text.
pub data EventType : Type 0 where
  acknowledgement_cleared acknowledgement_set custom downtime_end downtime_removed : EventType
  downtime_start flapping_end flapping_start incident_age mute state unmute : EventType
  untyped : EventType
  unsupported : Bytes → EventType

-- `mute` is a types.Bool: NULL is `none`. Identifiers are database ids, and 0 is "not set".
pub record Event : Type 0 where
  pub time : ℤ
  pub source_id : ℕ
  pub name : Bytes
  pub url : Bytes
  pub tags : Tags
  pub extra_tags : Tags
  pub kind : EventType
  pub severity : Severity
  pub username : Bytes
  pub message : Bytes
  pub mute : Option Bool
  pub mute_reason : Bytes
  pub id : ℕ

pub data InvalidEvent : Type 0 where
  empty_tags tag_too_long extra_tag_too_long empty_source_id severity_without_state : InvalidEvent
  mute_not_true mute_not_false empty_mute_reason empty_type unsupported_type : InvalidEvent

abbrev pub is_mute : EventType → Bool
is_mute mute = true
is_mute _ = false

abbrev pub is_unmute : EventType → Bool
is_unmute unmute = true
is_unmute _ = false

abbrev pub is_state : EventType → Bool
is_state state = true
is_state _ = false

-- mute.Valid && mute.Bool, and !mute.Valid || mute.Bool
abbrev pub is_muting : Option Bool → Bool
is_muting none = false
is_muting (some b) = b

abbrev pub not_unmuting : Option Bool → Bool
not_unmuting none = true
not_unmuting (some b) = b

abbrev pub is_empty {ℓ} : {A : Type ℓ} → List A → Bool
is_empty [] = true
is_empty (_ ∷ _) = false

-- The `switch` at the end of Validate.
unfoldable pub validate_type : EventType → Result InvalidEvent (Unit {0})
validate_type untyped = err empty_type
validate_type (unsupported _) = err unsupported_type
validate_type _ = ok tt

unfoldable pub validate : Event → Result InvalidEvent (Unit {0})
unfolding validate_type rank
validate e =
    if is_empty e.tags
    then err empty_tags
    else if any (λ (t : Bytes × Bytes). ltb 255 (length t.0)) e.tags
    then err tag_too_long
    else if any (λ (t : Bytes × Bytes). ltb 255 (length t.0)) e.extra_tags
    then err extra_tag_too_long
    else if e.source_id == 0
    then err empty_source_id
    else if not (rank e.severity == 0) && not (is_state e.kind)
    then err severity_without_state
    else if is_mute e.kind && not (is_muting e.mute)
    then err mute_not_true
    else if is_unmute e.kind && not_unmuting e.mute
    then err mute_not_false
    else if is_muting e.mute && is_empty e.mute_reason
    then err empty_mute_reason
    else validate_type e.kind

unfoldable pub set_mute : Bool → Bytes → Event → Event
set_mute muted reason e = record e { mute = some muted; mute_reason = reason }

-- utils.ToDBString: "" is NULL.
abbrev pub to_db_string : Bytes → Option Bytes
to_db_string [] = none
to_db_string (c ∷ cs) = some (c ∷ cs)

-- utils.ToDBInt: 0 is NULL.
abbrev pub to_db_int : ℕ → Option ℕ
to_db_int n = if n == 0 then none else some n

pub record EventRow : Type 0 where
  pub time : ℤ
  pub object_id : Bytes
  pub kind : Option EventType
  pub severity : Severity
  pub username : Option Bytes
  pub message : Option Bytes
  pub mute : Option Bool
  pub mute_reason : Option Bytes

-- utils.ToDBString of the type.
abbrev pub type_to_db : EventType → Option EventType
type_to_db untyped = none
type_to_db kind = some kind

unfoldable pub new_event_row : Event → Bytes → EventRow
new_event_row e object_id = record {
  time = e.time;
  object_id = object_id;
  kind = type_to_db e.kind;
  severity = e.severity;
  username = to_db_string e.username;
  message = to_db_string e.message;
  mute = e.mute;
  mute_reason = to_db_string e.mute_reason;
}
