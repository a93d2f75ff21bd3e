-- ===== src/Filter/Parser/Step.antt =====
-- The two branches of readFilter's loop, at a character: each consumes text, counts the parentheses that
-- it consumes, and never indexes an empty slice of rules.
use icinga_notifications.Prelude.{
  ℕ, suc, ◌≤◌, ◌<◌, ◌≡◌, refl, Bool, true, false, Option, none, some, ◌∷◌, arith, ok, err, length,
  inl, inr, Bool-cases, ◌==◌, if◌then◌else◌, not, ◌&&◌, ◌||◌,
}
use icinga_notifications.Prelude.Int.{ℤ, pos_part, neg_part, ◌+ℤ◌, ◌-ℤ◌, +ℤ_parts, -ℤ_parts}
use icinga_notifications.Prelude.Int
use icinga_notifications.Prelude.Bytes.{Bytes, count_byte}
use icinga_notifications.Filter.Types.{Filters, nil, cons}
use icinga_notifications.Filter.Parser.Chars
use icinga_notifications.Filter.Parser.Chars.{
  Parser, ParseError, parse_error, advance, next_char, read_condition,
}
use icinga_notifications.Filter.Parser.Loop.{
  Loop, again, is_logical, is_nil, take_last_over, close_group, same, is, collapse, is_none,
  open_group, without_condition, with_condition, child,
}
use icinga_notifications.Filter.Parser.Balance.{
  Balanced, IsReady, Outcome, parse_error-IsRegular, split_last-some,
}

-- The parser before a character.
abbrev at : Bytes → ℕ → ℕ → Bytes → ℤ → Parser
at tag i c s o = record { tag = tag; pos = i; rest = c ∷ s; open_parenthesis = o }

module _ (tag : Bytes) (i c : ℕ) (s : Bytes) (o : ℤ) where
  abbrev before : Parser
  before = at tag i c s o

  -- The loop after the character was read.
  abbrev after : Loop → Loop
  after l = record l { parser = advance before }

  Balanced-advance : (c == b'(') ≡ false → (c == b')') ≡ false → Balanced before (advance before)
  unfolding count_byte
  Balanced-advance h k = ground arith

  Balanced-close :
      (c == b')') ≡ true
      → Balanced before (record (advance before) { open_parenthesis = o -ℤ Int.pos 1 })
  unfolding count_byte
  Balanced-close h = ground (arith, -ℤ_parts o (Int.pos 1))

  Balanced-open :
      (c == b'(') ≡ true
      → Balanced before (record (advance before) { open_parenthesis = o +ℤ Int.pos 1 })
  unfolding count_byte
  Balanced-open h = ground (arith, +ℤ_parts o (Int.pos 1))

  shorter : length s ≤ suc (length s)
  shorter = omega arith

  consumed : length s < suc (length s)
  consumed = omega arith

  close_group_lem :
      (l : Loop) → (c == b')') ≡ true → Outcome l.nesting_level before (close_group (after l))
  unfolding close_group parse_error
  close_group_lem l h = ground (arith, Balanced-close h, shorter)

  open-IsReady : (l : Loop) (n : Bool) → IsReady (child (if n then some b'!' else none) nil l)
  open-IsReady l true = record { has_rules = λ e. cc; not_open = refl }
  open-IsReady l false = record { has_rules = λ e. cc; not_open = refl }

  open_group_lem :
      (l : Loop)
      → IsReady l
      → (c == b'(') ≡ true
      → Outcome l.nesting_level before (open_group (after l))
  unfolding open_group parse_error
  open_group_lem l r h = ground (arith, Balanced-open h, consumed, open-IsReady (after l) l.negate)

  take_last_over_lem :
      (l : Loop)
      → IsReady l
      → (c == b'(') ≡ false
      → (c == b')') ≡ false
      → is_nil l.rules ≡ false
      → Outcome l.nesting_level before (take_last_over (some c) (after l))
  unfolding take_last_over
  take_last_over_lem l q h k m =
      let (r, e) = split_last-some l.rules m in
      rw (e, take_last_over)
        (
          Balanced-advance h k,
          consumed,
          refl,
          q.not_open,
          record { has_rules = λ _. refl; not_open = h },
        )

  -- Neither `&`, nor `|`, nor an operator of the loop is a parenthesis.
  logical_shut : is_logical (some c) ≡ true → ((c == b'(') ≡ false) × ((c == b')') ≡ false)
  logical_shut h = ground arith

  same_shut : (l : Loop) → IsReady l → same (some c) l.operator ≡ true → (c == b'(') ≡ false
  same_shut l r h = operator_shut l.operator r.not_open h
    where
      operator_shut :
          (op : Option ℕ) → is b'(' op ≡ false → same (some c) op ≡ true → (c == b'(') ≡ false
      operator_shut none h k = cc
      operator_shut (some d) h k = ground arith

  collapsed :
      (b : Bool) (rules : Filters)
      → is_nil rules ≡ false
      → is_nil (if b then collapse rules else rules) ≡ false
  collapsed true nil h = h
  collapsed true (cons f nil) h = refl
  collapsed true (cons f (cons g gs)) h = refl
  collapsed false rules h = h

  with_logical :
      (l : Loop)
      → IsReady l
      → is_nil l.rules ≡ false
      → is_logical (some c) ≡ true
      → (b d e : Bool)
      → Outcome l.nesting_level before (
          if b
          then ok (
              again (record (after l) {
                rules = if e then collapse l.rules else l.rules;
                operator = some c;
              }))
          else if d
          then take_last_over (some c) (after l)
          else ok (again (after l)))
  with_logical l r k g true d e =
      let (h, h') = logical_shut g in
      (
        Balanced-advance h h',
        consumed,
        refl,
        record { has_rules = λ _. collapsed e l.rules k; not_open = h },
      )
  with_logical l r k g false true e = let (h, h') = logical_shut g in take_last_over_lem l r h h' k
  with_logical l r k g false false e =
      let (h, h') = logical_shut g in
      (
        Balanced-advance h h',
        consumed,
        refl,
        record { has_rules = r.has_rules; not_open = r.not_open },
      )

  pub with_condition_lem :
      (l : Loop)
      → IsReady l
      → is_nil l.rules ≡ false
      → Outcome l.nesting_level before (with_condition (some c) (after l))
  unfolding with_condition
  with_condition_lem l r k = elim (Bool-cases (c == b')')) [
    | inl e ↦ rw (e, with_condition) (close_group_lem l e)
    | inr e ↦
        rw (e, with_condition)
          (elim (Bool-cases (same (some c) l.operator)) [
            | inl f ↦ rw f (
              Balanced-advance (same_shut l r f) e,
              consumed,
              refl,
              record { has_rules = r.has_rules; not_open = r.not_open },
            )
            | inr f ↦ rw f (elim (Bool-cases (is_logical (some c))) [
              | inl g ↦ rw g (with_logical l r k g _ _ _)
              | inr g ↦ rw g (parse_error-IsRegular _ _ _)
            ])
          ])
  ]

  keeps_operator : (l : Loop) (n : Bool) → IsReady l → IsReady (record (after l) { negate = n })
  keeps_operator l n r = record { has_rules = r.has_rules; not_open = r.not_open }

  bang_shut : (c == b'!') ≡ true → ((c == b'(') ≡ false) × ((c == b')') ≡ false)
  bang_shut h = ground arith

  first_operator :
      (o' : Option ℕ) (rules : Filters)
      → is_none o' && not (is_nil rules) && is_logical (some c) ≡ true
      → (is_nil rules ≡ false) × (is_logical (some c) ≡ true)
  first_operator o' rules h = ground arith

  -- The operators are `&`, `|` or `!`: the last branches of a logical operator without a condition.
  and_rules : (l : Loop) → IsReady l → is b'&' l.operator ≡ true → is_nil l.rules ≡ false
  and_rules l r h = r.has_rules (rw h refl)

  or_rules :
      (l : Loop) (d : Bool)
      → IsReady l
      → not (is b'!' l.operator) && is_logical (some c) ≡ true
      → is b'|' l.operator || (is b'!' l.operator && d) ≡ true
      → is_nil l.rules ≡ false
  or_rules l d r h k = r.has_rules (ground arith)

  guarded :
      (l : Loop)
      → not (is b'!' l.operator) && is_logical (some c) ≡ true
      → is_logical (some c) ≡ true
  guarded l h = ground arith

  without_logical :
      (l : Loop)
      → IsReady l
      → not (is b'!' l.operator) && is_logical (some c) ≡ true
      → Outcome l.nesting_level before (
          if is b'&' l.operator
          then ok (again (record (after l) { rules = collapse l.rules; operator = some c }))
          else if is b'|' l.operator || (is b'!' l.operator && is b'&' (some c))
          then take_last_over (some c) (after l)
          else ok (again (after l)))
  without_logical l r h =
      let (g, g') = logical_shut (guarded l h) in
      elim (Bool-cases (is b'&' l.operator)) [
        | inl e ↦ rw e (
          Balanced-advance g g',
          consumed,
          refl,
          record { has_rules = λ _. collapsed true l.rules (and_rules l r e); not_open = g },
        )
        | inr e ↦
            rw e
              (elim (Bool-cases (is b'|' l.operator || (is b'!' l.operator && is b'&' (some c)))) [
                | inl f ↦ rw f (take_last_over_lem l r g g' (or_rules l (is b'&' (some c)) r h f))
                | inr f ↦ rw f (Balanced-advance g g', consumed, refl, keeps_operator l l.negate r)
              ])
      ]

  pub without_condition_lem :
      (l : Loop) → IsReady l → Outcome l.nesting_level before (without_condition (some c) (after l))
  unfolding without_condition
  without_condition_lem l r = elim (Bool-cases (c == b'!')) [
    | inl e ↦
        let (g, g') = bang_shut e in
        rw (e, without_condition) (Balanced-advance g g', consumed, refl, keeps_operator l true r)
    | inr e ↦
        rw (e, without_condition)
          (elim (Bool-cases (is_none l.operator && not (is_nil l.rules) && is_logical (some c))) [
            | inl f ↦
                let (n, m) = first_operator l.operator l.rules f in
                let (g, g') = logical_shut m in
                rw f (
                  Balanced-advance g g',
                  consumed,
                  refl,
                  record { has_rules = λ _. n; not_open = g },
                )
            | inr f ↦ rw f (not_first l r)
          ])
  ]
    where
      not_first :
          (l : Loop)
          → IsReady l
          → Outcome l.nesting_level before (
              if is b')' (some c)
              then close_group (after l)
              else if is b'(' (some c)
              then open_group (after l)
              else if same (some c) l.operator
              then ok (again (after l))
              else if not (is b'!' l.operator) && is_logical (some c)
              then (if is b'&' l.operator
                  then ok (again (record (after l) { rules = collapse l.rules; operator = some c }))
                  else if is b'|' l.operator || (is b'!' l.operator && is b'&' (some c))
                  then take_last_over (some c) (after l)
                  else ok (again (after l)))
              else err
                  (parse_error (advance before) (some c) (Chars.operator_level l.nesting_level)))
      not_first l r = elim (Bool-cases (c == b')')) [
        | inl e ↦ rw e (close_group_lem l e)
        | inr e ↦ rw e (elim (Bool-cases (c == b'(')) [
          | inl f ↦ rw f (open_group_lem l r f)
          | inr f ↦ rw f (elim (Bool-cases (same (some c) l.operator)) [
            | inl g ↦ rw g (Balanced-advance f e, consumed, refl, keeps_operator l l.negate r)
            | inr g ↦ rw g (elim (Bool-cases (not (is b'!' l.operator) && is_logical (some c))) [
              | inl h ↦ rw h (without_logical l r h)
              | inr h ↦ rw h (parse_error-IsRegular _ _ _)
            ])
          ])
        ])
      ]
