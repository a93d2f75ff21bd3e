-- ===== src/TimePeriod/Entries.antt =====
-- internal/timeperiod/timeperiod.go: entries and time periods. A time.Time is its number of
-- nanoseconds since 1970; the recurrence rules are those of the library rrule-go.
use icinga_notifications.Prelude.{
  ℕ, ◌+◌, ◌-◌, ◌*◌, ◌/◌, ◌%◌, ◌^◌, Bool, true, false, not, ◌&&◌, ◌||◌, Option, none, some, List, [],
  ◌∷◌, Result, ok, err, if◌then◌else◌,
}
use icinga_notifications.Prelude.Int
use icinga_notifications.Prelude.Int.{ℤ, ◌+ℤ◌, ◌-ℤ◌, ltb_ℤ, eqb_ℤ}
use icinga_notifications.Prelude.Bytes.{Bytes}

-- time.Time{}: the first of January of the year 1.
abbrev pub zero_time : ℤ
zero_time = Int.negsuc (62135596800 * 10 ^ 9 - 1)

-- A parsed rule of rrule-go: `before t inc` and `after t inc` are the last occurrence before and the
-- first one after `t`, `t` itself included if `inc`, or `zero_time` if there is none.
pub record RRule : Type 0 where
  pub before : ℤ → Bool → ℤ
  pub after : ℤ → Bool → ℤ

pub record Entry : Type 0 where
  pub id : ℕ
  pub time_period_id : ℕ
  pub start_time : ℤ
  pub end_time : ℤ
  pub timezone : Bytes
  pub rrule_expr : Option Bytes
  pub rotation_member_id : Option ℕ
  pub initialized : Bool
  pub rrule : Option RRule

pub data InitError : Type 0 where
  invalid_timezone invalid_rrule : InitError

-- t.Truncate(time.Second)
unfoldable pub truncate_second : ℤ → ℤ
truncate_second (Int.pos n) = Int.pos (n - n % 10 ^ 9)
truncate_second (Int.negsuc n) = Int.negsuc ((n / 10 ^ 9 + 1) * 10 ^ 9 - 1)

-- `is_location` says that time.LoadLocation knows a time zone, and `parse_rrule` is
-- StrToROptionInLocation and NewRRule, with the start that is used if the text has none.
module _ (is_location : Bytes → Bool) (parse_rrule : Bytes → Bytes → ℤ → Option RRule) where
  unfoldable pub init : Entry → Result InitError Entry
  unfolding truncate_second
  init e =
      if e.initialized
      then ok e
      else if not (is_location e.timezone)
      then err invalid_timezone
      else (let start = truncate_second e.start_time in
          let e' : Entry = record e { start_time = start; end_time = truncate_second e.end_time } in
          elim e.rrule_expr [
            | none ↦ ok (record e' { initialized = true })
            | some text ↦ elim (parse_rrule text e.timezone start) [
              | none ↦ err invalid_rrule
              | some r ↦ ok (record e' { rrule = some r; initialized = true })
            ]
          ])

-- The part of Contains and NextTransition for a time after the first occurrence: the last start, and
-- the end that belongs to it.
abbrev pub last_end : Entry → ℤ → ℤ
last_end e last_start = last_start +ℤ (e.end_time -ℤ e.start_time)

abbrev pub is_within : Entry → ℤ → ℤ → Bool
is_within e last_start t =
    (eqb_ℤ t last_start || ltb_ℤ last_start t) && ltb_ℤ t (last_end e last_start)

unfoldable pub recurs_at : Entry → Option RRule → ℤ → Bool
recurs_at e none t = false
recurs_at e (some r) t = is_within e (r.before t true) t

-- Contains; nothing is the panic of an entry that is not initialized.
unfoldable pub contains : Entry → ℤ → Option Bool
contains e t =
    if not e.initialized
    then none
    else if ltb_ℤ t e.start_time
    then some false
    else if ltb_ℤ t e.end_time
    then some true
    else some (recurs_at e e.rrule t)

unfoldable pub next_recurrence : Entry → Option RRule → ℤ → ℤ
next_recurrence e none t = zero_time
next_recurrence e (some r) t =
    if is_within e (r.before t true) t then last_end e (r.before t true) else r.after t false

-- Entry.NextTransition
unfoldable pub next_transition : Entry → ℤ → Option ℤ
next_transition e t =
    if not e.initialized
    then none
    else if ltb_ℤ t e.start_time
    then some e.start_time
    else if ltb_ℤ t e.end_time
    then some e.end_time
    else some (next_recurrence e e.rrule t)

pub record TimePeriod : Type 0 where
  pub id : ℕ
  pub name : Bytes
  pub entries : List Entry

-- TimePeriod.Contains
unfoldable pub any_contains : List Entry → ℤ → Option Bool
any_contains [] t = some false
any_contains (e ∷ es) t =
    let rest = any_contains es t in
    elim (contains e t) [ none ↦ none | some true ↦ some true | some false ↦ rest ]

-- The loop of TimePeriod.NextTransition.
unfoldable pub earliest : List Entry → ℤ → ℤ → Option ℤ
earliest [] base transition = some transition
earliest (e ∷ es) base transition = elim (next_transition e base) [
  | none ↦ none
  | some next ↦
      earliest es base
        (if ltb_ℤ next transition && not (eqb_ℤ next zero_time) then next else transition)
]

unfoldable pub period_contains : TimePeriod → ℤ → Option Bool
period_contains p t = any_contains p.entries t

-- The period's next transition is sought within a day.
unfoldable pub period_next_transition : TimePeriod → ℤ → Option ℤ
unfolding earliest
period_next_transition p base = earliest p.entries base (base +ℤ Int.pos (24 * 3600 * 10 ^ 9))
