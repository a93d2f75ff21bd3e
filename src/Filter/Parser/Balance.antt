-- ===== src/Filter/Parser/Balance.antt =====
-- What an iteration of readFilter's loop keeps: the count of the parentheses, and that there are rules.
use icinga_notifications.Prelude.{
  ℕ, zero, suc, ap, sym, [], ◌∷◌, get_elem?, ◌∙◌, ◌+◌, ◌≤◌, ◌<◌, ◌≡◌, refl, Bool, true, false,
  Option, none, some, arith, Result, ok, err, length, not, ◌&&◌,
}
use icinga_notifications.Prelude.Int.{ℤ, pos_part, neg_part}
use icinga_notifications.Prelude.Bytes.{Bytes, count_byte}
use icinga_notifications.Filter.Types.{Filter, Filters, nil, cons, snoc}
use icinga_notifications.Filter.Parser.Chars
use icinga_notifications.Filter.Parser.Chars.{
  Parser, ParseError, parse_error, advance, next_char, read_condition,
}
use icinga_notifications.Filter.Parser.Reads.{Reads, IsRegular}
use icinga_notifications.Filter.Parser.Loop.{
  Loop, Action, again, stop, nested, is_logical, is_nil, split_last, is, append_condition, child,
}

-- The open parentheses and those in the rest of the text, with the closing ones on the other side.
pub record Balanced (p q : Parser) : Type 0 where
  pub balance :
      pos_part p.open_parenthesis
        + count_byte b'(' p.rest
        + (neg_part q.open_parenthesis + count_byte b')' q.rest)
      ≡ pos_part q.open_parenthesis
        + count_byte b'(' q.rest
        + (neg_part p.open_parenthesis + count_byte b')' p.rest)
  pub same_tag : q.tag ≡ p.tag
  pub position : q.pos + length q.rest ≡ p.pos + length p.rest

pub Balanced-trans : (p q r : Parser) → Balanced p q → Balanced q r → Balanced p r
Balanced-trans p q r h k = record {
  balance = omega (arith, h.balance, k.balance);
  same_tag = k.same_tag ∙ h.same_tag;
  position = k.position ∙ h.position;
}

-- The rest of the text stands at the parser's position.
abbrev pub InPlace : Parser → Type 0
InPlace p = p.pos + length p.rest ≡ length p.tag

pub Balanced-InPlace : (p q : Parser) → Balanced p q → InPlace p → InPlace q
Balanced-InPlace p q b h = b.position ∙ h ∙ ap length (sym b.same_tag)

-- The operator is one that the code sets, and `&` and `|` are set only when there are rules.
pub record IsReady (s : Loop) : Type 0 where
  pub has_rules : is_logical s.operator ≡ true → is_nil s.rules ≡ false
  pub not_open : is b'(' s.operator ≡ false

-- What holds of a result of an iteration that began at `p`, in a call at nesting level `n`.
abbrev pub Outcome : ℕ → Parser → Result ParseError Action → Type 0
Outcome n p (err e) = IsRegular e
Outcome n p (ok (stop s)) =
    Balanced p s.parser × (length s.parser.rest ≤ length p.rest) × (s.nesting_level ≡ n)
Outcome n p (ok (again s)) =
    Balanced p s.parser × (length s.parser.rest < length p.rest) × (s.nesting_level ≡ n) × IsReady s
Outcome n p (ok (nested operator rules s)) =
    Balanced p s.parser
    × (length s.parser.rest < length p.rest)
    × (s.nesting_level ≡ n)
    × (is b'(' s.operator ≡ false)
    × IsReady (child operator rules s)

pub parse_error-IsRegular :
    (p : Parser) (c : ℕ) (h : Chars.Hint) → IsRegular (parse_error p (some c) h)
unfolding parse_error
parse_error-IsRegular p c h = tt

character_at : (tag : Bytes) (i : ℕ) → i < length tag → (c : ℕ) × (get_elem? tag i ≡ some c)
character_at [] i h = absurd (omega arith)
character_at (c ∷ cs) zero h = (c, refl)
character_at (c ∷ cs) (suc i) h = character_at cs i (omega arith)

-- Before the end of the text there is a character to name.
pub parse_error-InPlace :
    (tag : Bytes) (i d : ℕ) (s : Bytes) (o : ℤ) (c : Option ℕ) (h : Chars.Hint)
    → let p : Parser = record { tag = tag; pos = i; rest = d ∷ s; open_parenthesis = o } in
      InPlace p → IsRegular (parse_error p c h)
unfolding parse_error
parse_error-InPlace tag i d s o (some c) h k = tt
parse_error-InPlace tag i d s o none h k =
    let (c, e) = character_at tag i (omega arith) in rw (e, IsRegular) tt

pub split_last-some :
    (rules : Filters) → is_nil rules ≡ false → (r : Filters × Filter) × (split_last rules ≡ some r)
unfolding split_last
split_last-some nil h = cc
split_last-some (cons f nil) h = ((nil, f), refl)
split_last-some (cons f (cons g gs)) h =
    let (r, e) = split_last-some (cons g gs) refl in ((cons f r.0, r.1), rw e refl)

pub snoc-ne-nil : (rules : Filters) (f : Filter) → is_nil (snoc rules f) ≡ false
unfolding snoc
snoc-ne-nil nil f = refl
snoc-ne-nil (cons g gs) f = refl

pub from_Reads : (p q : Parser) → Reads p q → Balanced p q
from_Reads p q h = record {
  balance = rw (h.opens, h.closes, h.same_open) refl;
  same_tag = h.same_tag;
  position = h.position;
}

pub Outcome-trans :
    (n : ℕ) (p q : Parser) (r : Result ParseError Action)
    → Balanced p q
    → length q.rest ≤ length p.rest
    → Outcome n q r
    → Outcome n p r
Outcome-trans n p q (err e) b h o = o
Outcome-trans n p q (ok (stop s)) b h o = (Balanced-trans p q s.parser b o.0, omega arith, o.2)
Outcome-trans n p q (ok (again s)) b h o =
    (Balanced-trans p q s.parser b o.0, omega arith, o.2, o.3)
Outcome-trans n p q (ok (nested operator rules s)) b h o =
    (Balanced-trans p q s.parser b o.0, omega arith, o.2, o.3, o.4)

pub Balanced-refl : (p : Parser) → Balanced p p
Balanced-refl p = record { balance = omega arith; same_tag = refl; position = refl }

pub IsReady-append : (l : Loop) (f : Filter) → IsReady l → IsReady (append_condition f l)
IsReady-append l f r = record { has_rules = λ _. snoc-ne-nil l.rules _; not_open = r.not_open }

pub no_operator : (a b : Bool) → (a && not b && false) ≡ false
no_operator a b = ground arith
