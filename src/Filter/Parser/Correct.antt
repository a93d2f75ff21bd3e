-- ===== src/Filter/Parser/Correct.antt =====
-- The whole parser: it ends, its indexes are in range, and it accepts no text with unequal numbers of
-- opening and closing parentheses.
use icinga_notifications.Prelude.{
  Option, Option-cases, ℕ, zero, suc, ◌+◌, ◌≤◌, ◌<◌, ◌≡◌, ◌≢◌, refl, true, false, ◌&&◌, not, [],
  ◌∷◌, arith, Result, ok, err, ◌>>=◌, length, inl, inr, Bool-cases, subst, ◌==◌,
}
use native.Mathlib.Nat.{le_refl}
use icinga_notifications.Prelude.Int
use icinga_notifications.Prelude.Int.{ℤ, pos_part, neg_part, ltb_ℤ}
use icinga_notifications.Prelude.Bytes.{Bytes, count_byte}
use icinga_notifications.Filter.Types.{Filter, snoc}
use icinga_notifications.Filter.Parser.Chars.{
  Parser, ParseError, panic, out_of_fuel, parse_error, did_not_read_full_filter,
}
use icinga_notifications.Filter.Parser.Reads.{IsRegular}
use icinga_notifications.Filter.Parser.Loop.{
  Loop, Action, again, stop, nested, at_end, is, chain_of, finish, iteration, child, read_filter,
  start, parse,
}
use icinga_notifications.Filter.Parser.Balance.{
  Balanced, Balanced-trans, Balanced-refl, IsReady, Outcome, snoc-ne-nil, InPlace, Balanced-InPlace,
  parse_error-InPlace,
}
use icinga_notifications.Filter.Parser.Iteration.{iteration_lem}

-- All text is read, and the parentheses are in balance.
abbrev IsClosed : Parser → Type 0
IsClosed p = (p.rest ≡ []) × (p.open_parenthesis ≡ Int.pos 0)

-- What holds of the result of a call of readFilter at level `n` from the parser `p` on.
abbrev Ended : ℕ → Parser → Result ParseError (Filter × Parser) → Type 0
Ended n p (err e) = IsRegular e
Ended n p (ok (f, q)) = Balanced p q × (length q.rest ≤ length p.rest) × (n ≡ 0 → IsClosed q)

Ended-trans :
    (n : ℕ) (p q : Parser) (r : Result ParseError (Filter × Parser))
    → Balanced p q
    → length q.rest ≤ length p.rest
    → Ended n q r
    → Ended n p r
Ended-trans n p q (err e) b h o = o
Ended-trans n p q (ok (f, u)) b h o = (Balanced-trans p q u b o.0, omega arith, o.2)

chain_of-IsRegular : (s : Loop) (e : ParseError) → chain_of s ≡ err e → IsRegular e
unfolding chain_of parse_error
chain_of-IsRegular s e h = elim (Option-cases s.operator) [
  | inl none_set ↦ let open_chain = rw (none_set) at h in ground arith
  | inr (c, set) ↦ let is_set = rw (set) at h in ground arith
]

closing :
    (s : Loop) (m : Result ParseError Filter)
    → ((e : ParseError) → m ≡ err e → IsRegular e)
    → (s.nesting_level ≡ 0 → IsClosed s.parser)
    → Ended s.nesting_level s.parser (m >>= λ f. ok (f, s.parser))
closing s (ok f) h k = (Balanced-refl s.parser, le_refl _, k)
closing s (err e) h k = h e refl

-- The three tests of a call at level 0.
IsClosed-by_tests :
    (n : ℕ) (p : Parser)
    → n == 0 && not (at_end p) ≡ false
    → n == 0 && ltb_ℤ (Int.pos 0) p.open_parenthesis ≡ false
    → n == 0 && ltb_ℤ p.open_parenthesis (Int.pos 0) ≡ false
    → n ≡ 0
    → IsClosed p
IsClosed-by_tests n p h k l z = ground arith

-- Text is left over.
left_over :
    (p : Parser) (operator : Option ℕ) (n : ℕ)
    → InPlace p
    → n == 0 && not (at_end p) ≡ true
    → IsRegular (parse_error p operator did_not_read_full_filter)
left_over p operator n h k = go p.tag p.pos p.rest p.open_parenthesis h k
  where
    go :
        (tag : Bytes) (i : ℕ) (t : Bytes) (o : ℤ)
        → let q : Parser = record { tag = tag; pos = i; rest = t; open_parenthesis = o } in
          InPlace q
          → n == 0 && not (at_end q) ≡ true
          → IsRegular (parse_error q operator did_not_read_full_filter)
    go tag i [] o h k = let bad : false ≡ true = ground arith in cc
    go tag i (d ∷ s) o h k = parse_error-InPlace tag i d s o operator did_not_read_full_filter h

finish-Ended : (s : Loop) → InPlace s.parser → Ended s.nesting_level s.parser (finish s)
unfolding finish
finish-Ended s h = elim (Bool-cases (s.nesting_level == 0 && not (at_end s.parser))) [
  | inl e ↦ rw (e, finish) (left_over s.parser s.operator s.nesting_level h e)
  | inr e ↦
      rw (e, finish)
        (elim (Bool-cases (s.nesting_level == 0 && ltb_ℤ (Int.pos 0) s.parser.open_parenthesis)) [
          | inl f ↦ rw f tt
          | inr f ↦
              rw f
                (elim (Bool-cases
                  (s.nesting_level == 0 && ltb_ℤ s.parser.open_parenthesis (Int.pos 0))) [
                    | inl g ↦ rw g tt
                    | inr g ↦ rw g (
                        closing s (chain_of s) (chain_of-IsRegular s)
                          (IsClosed-by_tests s.nesting_level s.parser e f g))
                  ])
        ])
]

-- What a call makes of an iteration, with the results of the calls that it goes on with.
module _ (n fuel : ℕ) (p : Parser)
    (ih : (s : Loop)
      → IsReady s
      → InPlace s.parser
      → length s.parser.rest < fuel
      → Ended s.nesting_level s.parser (read_filter fuel s))
    (in_place : InPlace p) where
  after_nested :
      (s : Loop) (m : Result ParseError (Filter × Parser))
      → Balanced p s.parser
      → length s.parser.rest < length p.rest
      → length p.rest ≤ fuel
      → s.nesting_level ≡ n
      → is b'(' s.operator ≡ false
      → Ended (s.nesting_level + 1) s.parser m
      → Ended n p (elim m [
        | err e ↦ err e
        | ok (rule, q) ↦ read_filter fuel (record s { rules = snoc s.rules rule; parser = q })
      ])
  after_nested s (err e) b h k l r o = o
  after_nested s (ok (f, q)) b h k l r o =
      Ended-trans n p q _ (Balanced-trans p s.parser q b o.0) (omega arith) (
        subst (λ (i : ℕ). Ended i q (read_filter fuel t)) l
          (ih t (record { has_rules = λ _. snoc-ne-nil s.rules f; not_open = r })
            (Balanced-InPlace p q (Balanced-trans p s.parser q b o.0) in_place) (omega arith)))
    where
      t : Loop
      t = record s { rules = snoc s.rules f; parser = q }

  after_iteration :
      (a : Result ParseError Action)
      → Outcome n p a
      → length p.rest ≤ fuel
      → Ended n p (elim a [
        | err e ↦ err e
        | ok (stop s') ↦ finish s'
        | ok (again s') ↦ read_filter fuel s'
        | ok (nested operator rules s') ↦ elim (read_filter fuel (child operator rules s')) [
          | err e ↦ err e
          | ok (rule, q) ↦ read_filter fuel (record s' { rules = snoc s'.rules rule; parser = q })
        ]
      ])
  after_iteration (err e) o h = o
  after_iteration (ok (stop s)) o h = Ended-trans n p s.parser _ o.0 o.1 (
      subst (λ (i : ℕ). Ended i s.parser (finish s)) o.2
        (finish-Ended s (Balanced-InPlace p s.parser o.0 in_place)))
  after_iteration (ok (again s)) o h = Ended-trans n p s.parser _ o.0 (omega (arith, o.1)) (
      subst (λ (i : ℕ). Ended i s.parser (read_filter fuel s)) o.2
        (ih s o.3 (Balanced-InPlace p s.parser o.0 in_place) (omega (arith, o.1))))
  after_iteration (ok (nested operator rules s)) o h =
      after_nested s (read_filter fuel (child operator rules s)) o.0 o.1 h o.2 o.3 (
        ih (child operator rules s) o.4 (Balanced-InPlace p s.parser o.0 in_place)
          (omega (arith, o.1)))

at_end_rest : (p : Parser) → at_end p ≡ true → Balanced p p × (length p.rest ≤ length p.rest)
at_end_rest p h = (Balanced-refl p, le_refl _)

read_filter-Ended :
    (fuel : ℕ) (s : Loop)
    → IsReady s
    → InPlace s.parser
    → length s.parser.rest < fuel
    → Ended s.nesting_level s.parser (read_filter fuel s)
unfolding read_filter
read_filter-Ended zero s r i h = absurd (omega arith)
read_filter-Ended (suc fuel) s r i h = elim (Bool-cases (at_end s.parser)) [
  | inl e ↦ rw (e, read_filter) (finish-Ended s i)
  | inr e ↦
      rw (e, read_filter)
        (after_iteration s.nesting_level fuel s.parser (read_filter-Ended fuel) i (iteration s)
          (iteration_lem s r) (omega arith))
]

start-IsReady : (expression : Bytes) → IsReady (start expression)
start-IsReady expression = record { has_rules = λ e. cc; not_open = refl }

-- What holds of a result of Parse.
abbrev Parsed : Bytes → Result ParseError Filter → Type 0
Parsed expression (ok f) = count_byte b'(' expression ≡ count_byte b')' expression
Parsed expression (err e) = IsRegular e

from_call :
    (expression : Bytes) (m : Result ParseError (Filter × Parser))
    → Ended 0 (start expression).parser m
    → Parsed expression (m >>= λ r. ok r.0)
unfolding count_byte
from_call expression (err e) o = o
from_call expression (ok (f, q)) o =
    let b = o.0.balance in let (e, z) = o.2 refl in let c = (rw (e, z) at b) in omega arith

parse-Parsed : (expression : Bytes) → Parsed expression (parse expression)
unfolding parse count_byte
parse-Parsed [] = refl
parse-Parsed (c ∷ cs) = from_call (c ∷ cs) _ (
    read_filter-Ended (length (c ∷ cs) + 1) (start (c ∷ cs)) (start-IsReady (c ∷ cs)) (omega arith)
      (omega arith))

-- Parse returns for every expression: the fuel of `length + 1` iterations never runs out.
pub parse_terminates : (expression : Bytes) → parse expression ≢ err out_of_fuel
parse_terminates expression h = subst (Parsed expression) h (parse-Parsed expression)

-- For no expression does Parse panic at the index of the text in parseError, which is in range wherever it is
-- used, or at that of the last rule in readFilter, which is never taken of a slice that has none. The index
-- rules[0] behind rules != nil is not covered.
pub parse-ne-panic : (expression : Bytes) → parse expression ≢ err panic
parse-ne-panic expression h = subst (Parsed expression) h (parse-Parsed expression)

-- An expression that Parse accepts has as many opening as closing parentheses.
pub parse_balanced :
    (expression : Bytes) (f : Filter)
    → parse expression ≡ ok f
    → count_byte b'(' expression ≡ count_byte b')' expression
parse_balanced expression f h = subst (Parsed expression) h (parse-Parsed expression)
