-- ===== src/Tests/Identified.antt =====
-- The theorems on the ids of objects, with an insertion sort.
use icinga_notifications.Prelude.{
  both, ℕ, ◌≡◌, refl, Bool, Bool-cases, true, false, inl, inr, not, all, [], ◌∷◌, if◌then◌else◌,
  arith,
}
use icinga_notifications.Prelude.Bytes.{Bytes, codes, bytes_lt, has_byte, bytes_eq}
use icinga_notifications.Event.Incoming.{Tags}
use icinga_notifications.Runtime.Maps.{lookup}
use icinga_notifications.Object.Identity
use icinga_notifications.Object.Identity.{is_sorted, IsSort, id}
use icinga_notifications.Object.Ordered.{id_stable}
use icinga_notifications.Object.Injective.{id_determines}
use mathlib.Core.List.{Perm}
use mathlib.Core.List.Perm

unfoldable insert_tag : Bytes × Bytes → Tags → Tags
insert_tag t [] = t ∷ []
insert_tag t (u ∷ rest) =
    let more = insert_tag t rest in if bytes_lt u.0 t.0 then u ∷ more else t ∷ u ∷ rest

unfoldable sort_tags : Tags → Tags
unfolding insert_tag
sort_tags [] = []
sort_tags (t ∷ rest) = insert_tag t (sort_tags rest)

insert_tag-Perm : (t : Bytes × Bytes) (l : Tags) → Perm (insert_tag t l) (t ∷ l)
unfolding insert_tag
insert_tag-Perm t [] = Perm.refl (t ∷ [])
insert_tag-Perm t (u ∷ rest) = elim (Bool-cases (bytes_lt u.0 t.0)) [
  | inl e ↦ rw (e) (Perm.trans (Perm.cons u (insert_tag-Perm t rest)) (Perm.swap t u rest))
  | inr e ↦ rw (e) (Perm.refl (t ∷ u ∷ rest))
]

sort_tags-Perm : (l : Tags) → Perm (sort_tags l) l
unfolding sort_tags
sort_tags-Perm [] = Perm.refl []
sort_tags-Perm (t ∷ rest) =
    Perm.trans (insert_tag-Perm t (sort_tags rest)) (Perm.cons t (sort_tags-Perm rest))

bytes_lt_trans :
    (a b c : Bytes) → bytes_lt a b ≡ false → bytes_lt b c ≡ false → bytes_lt a c ≡ false
unfolding bytes_lt
bytes_lt_trans [] b [] h k = refl
bytes_lt_trans [] [] (z ∷ c) h k = cc
bytes_lt_trans [] (y ∷ b) c h k = cc
bytes_lt_trans (x ∷ a) b [] h k = refl
bytes_lt_trans (x ∷ a) [] (z ∷ c) h k = cc
bytes_lt_trans (x ∷ a) (y ∷ b) (z ∷ c) h k = ground (arith, bytes_lt_trans a b c)

bytes_lt_asym : (a b : Bytes) → bytes_lt a b ≡ true → bytes_lt b a ≡ false
unfolding bytes_lt
bytes_lt_asym [] [] h = cc
bytes_lt_asym [] (y ∷ b) h = refl
bytes_lt_asym (x ∷ a) [] h = cc
bytes_lt_asym (x ∷ a) (y ∷ b) h = ground (arith, bytes_lt_asym a b)

-- No key is less.
abbrev below : Bytes × Bytes → Tags → Bool
below t l = all (λ (u : Bytes × Bytes). not (bytes_lt u.0 t.0)) l

negated : (b : Bool) → not b ≡ true → b ≡ false
negated true h = cc
negated false h = refl

below_trans :
    (t u : Bytes × Bytes) (l : Tags)
    → bytes_lt u.0 t.0 ≡ false
    → below u l ≡ true
    → below t l ≡ true
below_trans t u [] h k = refl
below_trans t u (x ∷ l) h k =
    let (head, tail) = both (not (bytes_lt x.0 u.0)) (below u l) k in
    rw (bytes_lt_trans x.0 u.0 t.0 (negated (bytes_lt x.0 u.0) head) h, below_trans t u l h tail)
      refl

below-insert_tag :
    (t u : Bytes × Bytes) (l : Tags)
    → bytes_lt t.0 u.0 ≡ false
    → below u l ≡ true
    → below u (insert_tag t l) ≡ true
unfolding insert_tag
below-insert_tag t u [] h k = rw (h) refl
below-insert_tag t u (x ∷ l) h k =
    let (head, tail) = both (not (bytes_lt x.0 u.0)) (below u l) k in
    elim (Bool-cases (bytes_lt x.0 t.0)) [
      | inl e ↦ rw (e, head, below-insert_tag t u l h tail) refl
      | inr e ↦ rw (e, h, head, tail) refl
    ]

is_sorted-insert_tag :
    (t : Bytes × Bytes) (l : Tags) → is_sorted l ≡ true → is_sorted (insert_tag t l) ≡ true
unfolding insert_tag is_sorted
is_sorted-insert_tag t [] h = refl
is_sorted-insert_tag t (u ∷ l) h =
    let (head, tail) = both (below u l) (is_sorted l) h in
    elim (Bool-cases (bytes_lt u.0 t.0)) [
      | inl e ↦
          rw
            (
              e,
              below-insert_tag t u l (bytes_lt_asym u.0 t.0 e) head,
              is_sorted-insert_tag t l tail,
            )
            refl
      | inr e ↦
          let first : below t (u ∷ l) ≡ true = rw (e, below_trans t u l e head) refl in
          rw (e, first, head, tail) refl
    ]

sort_tags_sorted : (l : Tags) → is_sorted (sort_tags l) ≡ true
unfolding sort_tags is_sorted
sort_tags_sorted [] = refl
sort_tags_sorted (t ∷ rest) = is_sorted-insert_tag t (sort_tags rest) (sort_tags_sorted rest)

sort_tags-IsSort : IsSort sort_tags
sort_tags-IsSort = record { same = sort_tags-Perm; sorted = sort_tags_sorted }

abbrev host : Bytes × Bytes
host = (codes "host", codes "web01")

abbrev service : Bytes × Bytes
service = (codes "service", codes "http")

id_stable_example :
    id sort_tags (λ b. b) 1 (host ∷ service ∷ []) ≡ id sort_tags (λ b. b) 1 (service ∷ host ∷ [])
unfolding lookup bytes_eq
id_stable_example =
    id_stable sort_tags sort_tags (λ b. b) 1 (host ∷ service ∷ []) (service ∷ host ∷ [])
      sort_tags-IsSort sort_tags-IsSort (refl, (refl, tt)) (refl, (refl, tt))
      (Perm.swap service host [])

same_id :
    id sort_tags (λ b. b) 1 (host ∷ service ∷ []) ≡ id sort_tags (λ b. b) 1 (service ∷ host ∷ [])
unfolding id sort_tags insert_tag bytes_lt Identity.unsorted_tags Identity.zero_tags
    Identity.put_uint64 Identity.written_tags
same_id = refl

id_determines_example : (◌≡◌ {A = ℕ} 1 1) × Perm (host ∷ service ∷ []) (service ∷ host ∷ [])
unfolding has_byte
id_determines_example =
    id_determines sort_tags sort_tags 1 1 (host ∷ service ∷ []) (service ∷ host ∷ [])
      sort_tags-IsSort sort_tags-IsSort (omega arith) (omega arith) refl refl (refl, (refl, tt))
      (refl, (refl, tt)) same_id
