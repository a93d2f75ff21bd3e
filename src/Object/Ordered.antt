-- ===== src/Object/Ordered.antt =====
-- internal/object/object.go: ID and the order of an iteration over the tags.
use icinga_notifications.Prelude.{
  both, all-append, ℕ, ◌≡◌, refl, sym, ap, ◌∙◌, subst, Bool, true, false, not, ◌&&◌, inl, inr,
  Bool-cases, Option-cases, none, some, List, [], ◌∷◌, ◌++◌, all, All, if◌then◌else◌, arith,
}
use icinga_notifications.Prelude.Bytes.{Bytes, bytes_eq, bytes_lt, bytes_eq_self, eq_of_bytes_eq}
use icinga_notifications.Event.Incoming.{Tags, is_empty}
use icinga_notifications.Runtime.Maps.{lookup}
use icinga_notifications.Runtime.Refine.{Distinct}
use icinga_notifications.Object.Identity.{
  zero_tags, unsorted_tags, is_sorted, IsSort, id, put_uint64, written_tags,
}
use mathlib.Core.Bool.{Bool-set}
use mathlib.Core.Logic.{∥∥₁_elim}
use mathlib.Core.List.{Perm}
use mathlib.Core.List.Perm
use mathlib.Core.List.{Permᴰ}

bytes_lt_self : (a : Bytes) → bytes_lt a a ≡ false
unfolding bytes_lt
bytes_lt_self [] = refl
bytes_lt_self (x ∷ xs) = ground (arith, bytes_lt_self xs)

-- Of two different texts, one is less.
bytes_lt_trichotomy : (a b : Bytes) → bytes_lt a b ≡ false → bytes_lt b a ≡ false → a ≡ b
unfolding bytes_lt
bytes_lt_trichotomy [] [] h k = refl
bytes_lt_trichotomy [] (y ∷ ys) h k = cc
bytes_lt_trichotomy (x ∷ xs) [] h k = cc
bytes_lt_trichotomy (x ∷ xs) (y ∷ ys) h k = ground (arith, bytes_lt_trichotomy xs ys)

module _ {A : Type 0} (p : A → Bool) where
  all-Permᴰ : {l m : List A} → Permᴰ l m → all p l ≡ all p m
  all-Permᴰ Permᴰ.nil = refl
  all-Permᴰ (Permᴰ.cons e d) = rw (e, all-Permᴰ d) refl
  all-Permᴰ (Permᴰ.swap {a = a} {b = b} {l = l} e f) = rw (← e, ← f) (swapped (p a) (p b) (all p l))
    where
      swapped : (x y z : Bool) → (x && (y && z)) ≡ (y && (x && z))
      swapped true y z = refl
      swapped false true z = refl
      swapped false false z = refl
  all-Permᴰ (Permᴰ.trans d e) = all-Permᴰ d ∙ all-Permᴰ e

  pub all-Perm : {l m : List A} → Perm l m → all p l ≡ all p m
  all-Perm {l} {m} d = ∥∥₁_elim d (Bool-set (all p l) (all p m)) all-Permᴰ

-- Whether a pair is that of its key: the zero value for the empty key, and otherwise that of the tags.
unfoldable fits : Tags → Bytes × Bytes → Bool
unfolding lookup
fits tags (k, v) =
    if is_empty k
    then is_empty v
    else elim (lookup bytes_eq tags k) [ none ↦ false | some w ↦ bytes_eq v w ]

empty_eq : (a b : Bytes) → is_empty a ≡ true → is_empty b ≡ true → a ≡ b
empty_eq [] [] h k = refl
empty_eq [] (y ∷ b) h k = cc
empty_eq (x ∷ a) b h k = cc

fits_unique :
    (tags : Tags) (k v w : Bytes) → fits tags (k, v) ≡ true → fits tags (k, w) ≡ true → v ≡ w
unfolding fits
fits_unique tags k v w h g = elim (Bool-cases (is_empty k)) [
  | inl e ↦ empty_eq v w (rw (e) at h) (rw (e) at g)
  | inr e ↦ elim (Option-cases (lookup bytes_eq tags k)) [
    | inl f ↦ let bad = rw (e, f) at h in cc
    | inr (u, f) ↦
        let hu : bytes_eq v u ≡ true = rw (e, f) at h in
        let gu : bytes_eq w u ≡ true = rw (e, f) at g in
        eq_of_bytes_eq v u hu ∙ sym (eq_of_bytes_eq w u gu)
  ]
]

same_pair :
    (tags : Tags) (t u : Bytes × Bytes)
    → fits tags t ≡ true
    → fits tags u ≡ true
    → t.0 ≡ u.0
    → t ≡ u
same_pair tags (k, v) (l, w) h g e =
    let g' : fits tags (k, w) ≡ true = rw (e) g in
    let same = fits_unique tags k v w h g' in rw (e, same) refl

-- Nothing in a permutation of a sorted list is less than its head.
not_less :
    (t u : Bytes × Bytes) (ts us : Tags)
    → is_sorted (t ∷ ts) ≡ true
    → Perm (t ∷ ts) (u ∷ us)
    → bytes_lt u.0 t.0 ≡ false
unfolding is_sorted
not_less t u ts us h p =
    let below = λ (x : Bytes × Bytes). not (bytes_lt x.0 t.0) in
    let head : not (bytes_lt t.0 t.0) ≡ true = rw (bytes_lt_self t.0) refl in
    let rest = (both (all below ts) (is_sorted ts) h).0 in
    let here : all below (t ∷ ts) ≡ true = rw (head, rest) refl in
    let there = (both (below u) (all below us) (sym (all-Perm below p) ∙ here)).0 in
    negated (bytes_lt u.0 t.0) there
  where
    negated : (b : Bool) → not b ≡ true → b ≡ false
    negated true h = cc
    negated false h = refl

-- Two sorted orders of the same pairs are one list, if equal keys have equal values.
sorted_unique :
    (tags l m : Tags)
    → all (fits tags) l ≡ true
    → is_sorted l ≡ true
    → is_sorted m ≡ true
    → Perm l m
    → l ≡ m
unfolding is_sorted
sorted_unique tags [] m f h g p = Perm.nil-eq p
sorted_unique tags (t ∷ ts) [] f h g p = Perm.eq-nil p
sorted_unique tags (t ∷ ts) (u ∷ us) f h g p =
    let ft = both (fits tags t) (all (fits tags) ts) f in
    let fu = both (fits tags u) (all (fits tags) us) (sym (all-Perm (fits tags) p) ∙ f) in
    let keys =
      bytes_lt_trichotomy t.0 u.0 (not_less u t us ts g (Perm.symm p)) (not_less t u ts us h p) in
    let same = same_pair tags t u ft.0 fu.0 keys in
    let tails : Perm ts us = Perm.cons_inv (subst (λ x. Perm (t ∷ ts) (x ∷ us)) (sym same) p) in
    let rest =
      sorted_unique tags ts us ft.1 (both _ (is_sorted ts) h).1 (both _ (is_sorted us) g).1 tails in
    rw (same, rest) refl

bytes_ne_sym : (a b : Bytes) → bytes_eq a b ≡ false → bytes_eq b a ≡ false
bytes_ne_sym a b h = elim (Bool-cases (bytes_eq b a)) [
  | inr e ↦ e
  | inl e ↦
      let same = eq_of_bytes_eq b a e in
      let self = bytes_eq_self a in let bad : bytes_eq a b ≡ true = rw (same) self in cc
]

-- A further tag with another key makes no difference.
fits_more :
    (tags rest : Tags) (k v : Bytes)
    → lookup bytes_eq rest k ≡ none
    → all (fits tags) rest ≡ true
    → all (fits ((k, v) ∷ tags)) rest ≡ true
unfolding fits lookup
fits_more tags [] k v h f = refl
fits_more tags ((l, w) ∷ rest) k v h f = elim (Bool-cases (bytes_eq l k)) [
  | inl e ↦ let bad = rw (e) at h in cc
  | inr e ↦
      let none_left : lookup bytes_eq rest k ≡ none = rw (e) at h in
      let here : fits ((k, v) ∷ tags) (l, w) ≡ fits tags (l, w) = rw (bytes_ne_sym l k e) refl in
      let (head, tail) = both (fits tags (l, w)) (all (fits tags) rest) f in
      rw (here ∙ head, fits_more tags rest k v none_left tail) refl
]

-- No tag has the empty key.
abbrev pub Named : Bytes × Bytes → Type 0
Named t = is_empty t.0 ≡ false

every_fits : (tags : Tags) → Distinct bytes_eq tags → All Named tags → all (fits tags) tags ≡ true
unfolding fits lookup
every_fits [] d n = refl
every_fits ((k, v) ∷ rest) d n =
    let here : fits ((k, v) ∷ rest) (k, v) ≡ true =
      rw (n.0, bytes_eq_self k, bytes_eq_self v) refl in
    rw (here, fits_more rest rest k v d.0 (every_fits rest d.1 n.1)) refl

fits_zero : (tags some_tags : Tags) → all (fits tags) (zero_tags some_tags) ≡ true
unfolding zero_tags fits
fits_zero tags [] = refl
fits_zero tags (t ∷ rest) = fits_zero tags rest

unsorted_fits :
    (tags : Tags)
    → Distinct bytes_eq tags
    → All Named tags
    → all (fits tags) (unsorted_tags tags) ≡ true
unfolding unsorted_tags
unsorted_fits tags d n =
    all-append (fits tags) (zero_tags tags) tags (fits_zero tags tags) (every_fits tags d n)

unsorted_tags-Perm : (l m : Tags) → Perm l m → Perm (unsorted_tags l) (unsorted_tags m)
unfolding unsorted_tags zero_tags
unsorted_tags-Perm l m p = Perm.append (Perm.map (λ t. ([], [])) p) p

-- The ID of an object depends neither on the order in which its tags are iterated, nor on how
-- sort.Slice orders equal keys, if no tag has the empty key.
pub id_stable :
    (sort resort : Tags → Tags) (sum : Bytes → Bytes) (source : ℕ) (l m : Tags)
    → IsSort sort
    → IsSort resort
    → Distinct bytes_eq l
    → All Named l
    → Perm l m
    → id sort sum source l ≡ id resort sum source m
unfolding id
id_stable sort resort sum source l m s t d n p =
    let fit : all (fits l) (unsorted_tags l) ≡ true = unsorted_fits l d n in
    let sorted = sort (unsorted_tags l) in
    ap (λ x. sum (put_uint64 source ++ written_tags x))
      (sorted_unique l sorted (resort (unsorted_tags m))
        (all-Perm (fits l) (s.same (unsorted_tags l)) ∙ fit) (s.sorted (unsorted_tags l))
        (t.sorted (unsorted_tags m))
        (Perm.trans (s.same (unsorted_tags l))
          (Perm.trans (unsorted_tags-Perm l m p) (Perm.symm (t.same (unsorted_tags m))))))
