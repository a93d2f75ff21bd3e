-- ===== src/Filter/Parser/Reads.antt =====
-- What the reading functions of parser.go leave: a suffix of the text, with every parenthesis still
-- in it, and the count of open parentheses.
use icinga_notifications.Prelude.{
  ℕ, ◌+◌, ◌≤◌, ◌≡◌, refl, ◌∙◌, true, false, [], ◌∷◌, arith, Result, ok, err, ◌>>=◌, ◌==◌, length,
  Bool-cases, inl, inr, ==_iff,
}
use icinga_notifications.Prelude.Bytes.{Bytes, codes, has_byte, count_byte}
use icinga_notifications.Filter.Parser.Chars.{
  Parser, ParseError, panic, out_of_fuel, read_until_from, read_until, read_column, read_value,
  unescape, create_condition, operator_at, read_comparison, condition_after, read_condition,
  read_operator, advance,
}

pub record Reads (p q : Parser) : Type 0 where
  pub shorter : length q.rest ≤ length p.rest
  pub opens : count_byte b'(' q.rest ≡ count_byte b'(' p.rest
  pub closes : count_byte b')' q.rest ≡ count_byte b')' p.rest
  pub same_open : q.open_parenthesis ≡ p.open_parenthesis
  pub same_tag : q.tag ≡ p.tag
  pub position : q.pos + length q.rest ≡ p.pos + length p.rest

Reads-refl : (p : Parser) → Reads p p
Reads-refl p = ground arith

Reads-trans : (p q r : Parser) → Reads p q → Reads q r → Reads p r
Reads-trans p q r h k = record {
  shorter = omega (arith, h.shorter, k.shorter);
  opens = k.opens ∙ h.opens;
  closes = k.closes ∙ h.closes;
  same_open = k.same_open ∙ h.same_open;
  same_tag = k.same_tag ∙ h.same_tag;
  position = k.position ∙ h.position;
}

ne_of_has_byte :
    (b c : ℕ) (chars : Bytes)
    → has_byte b chars ≡ true
    → has_byte c chars ≡ false
    → (c == b) ≡ false
ne_of_has_byte b c chars h k = elim (Bool-cases (c == b)) [
  | inr e ↦ e
  | inl e ↦ let same : c ≡ b = (==_iff c b).0 e in cc
]

length-read_until_from : (chars s : Bytes) → length (read_until_from chars s).2 ≤ length s
unfolding read_until_from
length-read_until_from chars [] = omega arith
length-read_until_from chars (c ∷ s) = elim (Bool-cases (has_byte c chars)) [
  | inl e ↦ rw e (omega arith)
  | inr e ↦ rw e (omega (arith, length-read_until_from chars s))
]

count-read_until_from :
    (b : ℕ) (chars s : Bytes)
    → has_byte b chars ≡ true
    → count_byte b (read_until_from chars s).2 ≡ count_byte b s
unfolding read_until_from count_byte
count-read_until_from b chars [] h = refl
count-read_until_from b chars (c ∷ s) h = elim (Bool-cases (has_byte c chars)) [
  | inl e ↦ rw e refl
  | inr e ↦ rw (e, ne_of_has_byte b c chars h e) (omega (arith, count-read_until_from b chars s h))
]

read_until_from-position :
    (chars s : Bytes) → (read_until_from chars s).1 + length (read_until_from chars s).2 ≡ length s
unfolding read_until_from
read_until_from-position chars [] = refl
read_until_from-position chars (c ∷ s) = elim (Bool-cases (has_byte c chars)) [
  | inl e ↦ rw e (omega arith)
  | inr e ↦ rw e (omega (arith, read_until_from-position chars s))
]

read_until-Reads :
    (chars : Bytes) (p : Parser)
    → has_byte b'(' chars ≡ true
    → has_byte b')' chars ≡ true
    → Reads p (read_until chars p).1
unfolding read_until
read_until-Reads chars p h k = record {
  shorter = length-read_until_from chars p.rest;
  opens = count-read_until_from b'(' chars p.rest h;
  closes = count-read_until_from b')' chars p.rest k;
  same_open = refl;
  same_tag = refl;
  position = omega (arith, read_until_from-position chars p.rest);
}

-- Neither a slice index out of range nor the end of the fuel.
abbrev pub IsRegular : ParseError → Type 0
IsRegular panic = ⊥
IsRegular out_of_fuel = ⊥
IsRegular _ = Unit

abbrev Regular {ℓ} : {A : Type ℓ} → Result ParseError A → Type 0
Regular (ok a) = Unit
Regular (err e) = IsRegular e

-- A successful read that returns a parser keeps the parentheses, and a failing one is regular.
abbrev pub Kept {ℓ} : {A : Type ℓ} → Parser → Result ParseError (A × Parser) → Type 0
Kept p (ok (a, q)) = Reads p q
Kept p (err e) = IsRegular e

Kept-ok {ℓ} :
    {A : Type ℓ} (p q : Parser) (r : Result ParseError (A × Parser))
    → Reads p q
    → Kept q r
    → Kept p r
Kept-ok p q (ok (a, u)) h k = Reads-trans p q u h k
Kept-ok p q (err e) h k = k

Kept-bind {ℓ κ} :
    {A : Type ℓ} {B : Type κ} (p : Parser) (m : Result ParseError (A × Parser))
    (f : A × Parser → Result ParseError (B × Parser))
    → Kept p m
    → ((a : A) (q : Parser) → Kept q (f (a, q)))
    → Kept p (m >>= f)
Kept-bind p (ok (a, q)) f h k = Kept-ok p q (f (a, q)) h (k a q)
Kept-bind p (err e) f h k = h

Kept-lift {ℓ κ} :
    {A : Type ℓ} {B : Type κ} (p : Parser) (m : Result ParseError A)
    (f : A → Result ParseError (B × Parser))
    → Regular m
    → ((a : A) → Kept p (f a))
    → Kept p (m >>= f)
Kept-lift p (ok a) f h k = k a
Kept-lift p (err e) f h k = h

unescape-Regular : (s : Bytes) → Regular (unescape s)
unfolding unescape
unescape-Regular s = ground arith

create_condition-Regular :
    (column operator value : Bytes) → Regular (create_condition column operator value)
unfolding create_condition
create_condition-Regular column [] value = tt
create_condition-Regular column (b ∷ []) value = ground arith
create_condition-Regular column (b ∷ c ∷ []) value = ground arith
create_condition-Regular column (b ∷ c ∷ d ∷ ds) value = tt

read_column-Kept : (p : Parser) → Kept p (read_column p)
unfolding read_column has_byte
read_column-Kept p =
    Kept-lift {A = Bytes} {B = Bytes} p (unescape (read_until (codes "=()&|><!") p).0) _
      (unescape-Regular _) (λ column. read_until-Reads (codes "=()&|><!") p refl refl)

value_of-Kept :
    (p : Parser) (value : Bytes) (q : Parser)
    → Reads p q
    → Kept {A = Bytes} p
        (elim value [ [] ↦ ok ([], q) | c ∷ cs ↦ do v ← unescape (c ∷ cs); ok (v, q) ])
value_of-Kept p [] q h = h
value_of-Kept p (c ∷ cs) q h = Kept-lift p (unescape (c ∷ cs)) _ (unescape-Regular _) (λ v. h)

read_value-Kept : (p : Parser) → Kept p (read_value p)
unfolding read_value has_byte
read_value-Kept p =
    value_of-Kept p (read_until (codes "()&|><") p).0 _
      (read_until-Reads (codes "()&|><") p refl refl)

-- One character that is no parenthesis is read.
advance-Reads :
    (p : Parser) (c : ℕ) (s : Bytes)
    → p.rest ≡ c ∷ s
    → (c == b'(') ≡ false
    → (c == b')') ≡ false
    → Reads p (advance p)
unfolding count_byte
advance-Reads p c s e h k = ground arith

operator_at-Reads : (p : Parser) (s : Bytes) → p.rest ≡ s → Reads p (operator_at s p).1
unfolding operator_at has_byte
operator_at-Reads p [] e = Reads-refl p
operator_at-Reads p (c ∷ []) e = ground (arith, advance-Reads p c [], Reads-refl p)
operator_at-Reads p (c ∷ d ∷ s) e =
    ground (arith, advance-Reads p c (d ∷ s), advance-Reads (advance p) d s, Reads-refl p)

comparison-Kept :
    (column : Bytes) (operator : Bytes) (p : Parser) → Kept p (read_comparison column (operator, p))
unfolding read_comparison
comparison-Kept column [] p = Reads-refl p
comparison-Kept column (c ∷ cs) p = Kept-bind p (read_value p) _ (read_value-Kept p) (λ v q.
    Kept-lift q (create_condition column (c ∷ cs) v) _ (create_condition-Regular _ _ _)
      (λ f. Reads-refl q))

after-Kept : (column : Bytes) (p : Parser) → Kept p (condition_after (column, p))
unfolding condition_after
after-Kept [] p = Reads-refl p
after-Kept (c ∷ cs) p =
    Kept-ok p (read_operator p).1 _ (operator_at-Reads p p.rest refl)
      (comparison-Kept (c ∷ cs) (read_operator p).0 (read_operator p).1)

-- Reading a condition leaves every parenthesis in the text.
pub read_condition-Kept : (p : Parser) → Kept p (read_condition p)
unfolding read_condition
read_condition-Kept p = Kept-bind p (read_column p) condition_after (read_column-Kept p) after-Kept
