-- ===== src/Object/Injective.antt =====
-- internal/object/object.go: what ID hashes, against the source and the tags.
use icinga_notifications.Prelude.{
  both, all-append, ℕ, ◌/◌, ◌%◌, ◌^◌, ◌<◌, ◌≡◌, refl, sym, ap, ◌∙◌, subst, Bool, true, false, not,
  ◌&&◌, [], ◌∷◌, ◌++◌, ◌||◌, all, get_elem?, some, All, ◌==◌, arith,
}
use icinga_notifications.Prelude.Bytes.{Bytes, has_byte}
use icinga_notifications.Event.Incoming.{Tags, is_empty}
use icinga_notifications.Object.Identity.{
  put_uint64, written_tags, zero_tags, unsorted_tags, IsSort, id,
}
use icinga_notifications.Object.Ordered.{all-Perm, Named}
use mathlib.Core.List.{Perm}
use mathlib.Core.List.Perm
use mathlib.Core.List

-- Neither the key nor the value has a NUL byte.
abbrev pub clean : Bytes × Bytes → Bool
clean t = not (has_byte 0 t.0) && not (has_byte 0 t.1)

clean_parts : (k v : Bytes) → clean (k, v) ≡ true → (has_byte 0 k ≡ false) × (has_byte 0 v ≡ false)
clean_parts k v h = parts (has_byte 0 k) (has_byte 0 v) h
  where
    parts : (a b : Bool) → (not a && not b) ≡ true → (a ≡ false) × (b ≡ false)
    parts true b h = cc
    parts false true h = cc
    parts false false h = (refl, refl)

not_nul : (y : ℕ) (b : Bytes) → has_byte 0 (y ∷ b) ≡ false → 0 ≡ y → ⊥
unfolding has_byte
not_nul y b h e = let h' = rw (← e) at h in cc

later : (y : ℕ) (b : Bytes) → has_byte 0 (y ∷ b) ≡ false → has_byte 0 b ≡ false
unfolding has_byte
later y b h = second (y == 0) (has_byte 0 b) h
  where
    second : (p q : Bool) → (p || q) ≡ false → q ≡ false
    second true q h = cc
    second false q h = h

split_nul :
    (a b c d : Bytes)
    → has_byte 0 a ≡ false
    → has_byte 0 b ≡ false
    → a ++ 0 ∷ c ≡ b ++ 0 ∷ d
    → (a ≡ b) × (c ≡ d)
split_nul [] [] c d h k e = (refl, cc)
split_nul [] (y ∷ b) c d h k e = absurd (not_nul y b k (cc))
split_nul (x ∷ a) [] c d h k e = absurd (not_nul x a h (cc))
split_nul (x ∷ a) (y ∷ b) c d h k e =
    let heads : x ≡ y = cc in
    let (tails, rest) = split_nul a b c d (later x a h) (later y b k) (cc) in
    (rw (heads, tails) refl, rest)

not_empty : (a c : Bytes) → ◌≡◌ {A = Bytes} [] (a ++ 0 ∷ c) → ⊥
not_empty [] c e = cc
not_empty (x ∷ a) c e = cc

written_tags-injective :
    (l m : Tags) → all clean l ≡ true → all clean m ≡ true → written_tags l ≡ written_tags m → l ≡ m
unfolding written_tags
written_tags-injective [] [] h k e = refl
written_tags-injective [] ((i, w) ∷ m) h k e = absurd (not_empty i (w ++ 0 ∷ written_tags m) e)
written_tags-injective ((j, v) ∷ l) [] h k e =
    absurd (not_empty j (v ++ 0 ∷ written_tags l) (sym e))
written_tags-injective ((j, v) ∷ l) ((i, w) ∷ m) h k e =
    let (hh, ht) = both (clean (j, v)) (all clean l) h in
    let (kh, kt) = both (clean (i, w)) (all clean m) k in
    let (hj, hv) = clean_parts j v hh in
    let (ki, kw) = clean_parts i w kh in
    let (keys, e1) = split_nul j i (v ++ 0 ∷ written_tags l) (w ++ 0 ∷ written_tags m) hj ki e in
    let (values, e2) = split_nul v w (written_tags l) (written_tags m) hv kw e1 in
    rw (keys, values, written_tags-injective l m ht kt e2) refl

some_eq : {a b : ℕ} → some a ≡ some b → a ≡ b
some_eq h = cc

bytes_of :
    (n m : ℕ)
    → n < 2 ^ 64
    → m < 2 ^ 64
    → n / 2 ^ 56 % 256 ≡ m / 2 ^ 56 % 256
    → n / 2 ^ 48 % 256 ≡ m / 2 ^ 48 % 256
    → n / 2 ^ 40 % 256 ≡ m / 2 ^ 40 % 256
    → n / 2 ^ 32 % 256 ≡ m / 2 ^ 32 % 256
    → n / 2 ^ 24 % 256 ≡ m / 2 ^ 24 % 256
    → n / 2 ^ 16 % 256 ≡ m / 2 ^ 16 % 256
    → n / 2 ^ 8 % 256 ≡ m / 2 ^ 8 % 256
    → n % 256 ≡ m % 256
    → n ≡ m
bytes_of n m h k e7 e6 e5 e4 e3 e2 e1 e0 = omega arith

-- What is hashed, without the source.
rest_of : Bytes → Bytes
rest_of (a ∷ b ∷ c ∷ d ∷ e ∷ f ∷ g ∷ h ∷ rest) = rest
rest_of other = []

source_of :
    (n m : ℕ) (r s : Bytes)
    → n < 2 ^ 64
    → m < 2 ^ 64
    → put_uint64 n ++ r ≡ put_uint64 m ++ s
    → (n ≡ m) × (r ≡ s)
unfolding put_uint64 rest_of
source_of n m r s h k e =
    let at = λ (i : ℕ). ap (λ l. get_elem? l i) e in
    (
      bytes_of n m h k (some_eq (at 0)) (some_eq (at 1)) (some_eq (at 2)) (some_eq (at 3))
          (some_eq (at 4)) (some_eq (at 5)) (some_eq (at 6)) (some_eq (at 7)),
      ap rest_of e,
    )

zero_clean : (tags : Tags) → all clean (zero_tags tags) ≡ true
unfolding zero_tags has_byte
zero_clean [] = refl
zero_clean (t ∷ rest) = zero_clean rest

sorted_clean :
    (sort : Tags → Tags) (l : Tags)
    → IsSort sort
    → all clean l ≡ true
    → all clean (sort (unsorted_tags l)) ≡ true
unfolding unsorted_tags
sorted_clean sort l s h =
    all-Perm clean (s.same (unsorted_tags l)) ∙ all-append clean (zero_tags l) l (zero_clean l) h

has_key : (t : Bytes × Bytes) → Dec (is_empty t.0 ≡ false)
has_key ([], v) = no (λ h. cc)
has_key (c ∷ cs, v) = yes refl

-- The tags are what is left of the sorted pairs without those of the empty key.
filter_zero : (tags : Tags) → List.filter has_key (zero_tags tags) ≡ []
unfolding zero_tags has_key
filter_zero [] = refl
filter_zero (t ∷ rest) = filter_zero rest

filter-Named : (tags : Tags) → All Named tags → List.filter has_key tags ≡ tags
unfolding has_key
filter-Named [] n = refl
filter-Named (([], v) ∷ rest) n = cc
filter-Named ((c ∷ cs, v) ∷ rest) n = rw (filter-Named rest n.1) refl

filter_unsorted : (tags : Tags) → All Named tags → List.filter has_key (unsorted_tags tags) ≡ tags
unfolding unsorted_tags
filter_unsorted tags n =
    List.filter-append has_key (zero_tags tags) tags
    ∙ rw (filter_zero tags, filter-Named tags n) refl

-- What ID hashes determines the source and the tags, up to their order, if no key is empty, neither keys
-- nor values have a NUL byte, and the source is a 64-bit integer.
pub id_determines :
    (sort resort : Tags → Tags) (n m : ℕ) (l k : Tags)
    → IsSort sort
    → IsSort resort
    → n < 2 ^ 64
    → m < 2 ^ 64
    → all clean l ≡ true
    → all clean k ≡ true
    → All Named l
    → All Named k
    → id sort (λ b. b) n l ≡ id resort (λ b. b) m k
    → (n ≡ m) × Perm l k
unfolding id
id_determines sort resort n m l k s t hn hm hl hk nl nk e =
    let (source, rest) =
      source_of n m (written_tags (sort (unsorted_tags l)))
        (written_tags (resort (unsorted_tags k))) hn hm e in
    let same =
      written_tags-injective (sort (unsorted_tags l)) (resort (unsorted_tags k))
        (sorted_clean sort l s hl) (sorted_clean resort k t hk) rest in
    let pairs : Perm (unsorted_tags l) (unsorted_tags k) =
      Perm.trans (Perm.symm (s.same (unsorted_tags l)))
        (subst (λ x. Perm x (unsorted_tags k)) (sym same) (t.same (unsorted_tags k))) in
    let left : Perm l (List.filter has_key (unsorted_tags k)) =
      subst (λ x. Perm x (List.filter has_key (unsorted_tags k))) (filter_unsorted l nl)
        (Perm.filter has_key pairs) in
    (source, subst (λ x. Perm l x) (filter_unsorted k nk) left)
