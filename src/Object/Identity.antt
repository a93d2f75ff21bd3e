-- ===== src/Object/Identity.antt =====
-- internal/object/object.go: ID, the hash of the source and the sorted tags of an object.
use icinga_notifications.Prelude.{
  true, ◌≡◌, ℕ, ◌/◌, ◌%◌, ◌^◌, Bool, [], ◌∷◌, ◌++◌, not, ◌&&◌, all, map,
}
use icinga_notifications.Prelude.Bytes.{Bytes, bytes_lt}
use icinga_notifications.Event.Incoming.{Tags}
use mathlib.Core.List.{Perm}

-- make([]KV, len(tags)): one zero value for each tag.
unfoldable pub zero_tags : Tags → Tags
zero_tags tags = map (λ t. ([], [])) tags

-- The pairs that ID sorts: the tags are appended to the zero values.
unfoldable pub unsorted_tags : Tags → Tags
unfolding zero_tags
unsorted_tags tags = zero_tags tags ++ tags

-- No key of a list is less than an earlier one.
unfoldable pub is_sorted : Tags → Bool
is_sorted [] = true
is_sorted (t ∷ rest) = all (λ (u : Bytes × Bytes). not (bytes_lt u.0 t.0)) rest && is_sorted rest

-- What sort.Slice promises, which is not stable: an order of the same pairs, sorted by the keys.
pub record IsSort (sort : Tags → Tags) : Type 0 where
  pub same : (tags : Tags) → Perm (sort tags) tags
  pub sorted : (tags : Tags) → is_sorted (sort tags) ≡ true

-- binary.BigEndian.PutUint64
unfoldable pub put_uint64 : ℕ → Bytes
put_uint64 n =
    n / 2 ^ 56 % 256
    ∷ n / 2 ^ 48 % 256
    ∷ n / 2 ^ 40 % 256
    ∷ n / 2 ^ 32 % 256
    ∷ n / 2 ^ 24 % 256
    ∷ n / 2 ^ 16 % 256
    ∷ n / 2 ^ 8 % 256
    ∷ n % 256
    ∷ []

-- The writes to the hash in the loop over the sorted pairs.
unfoldable pub written_tags : Tags → Bytes
written_tags [] = []
written_tags ((k, v) ∷ rest) = k ++ 0 ∷ (v ++ 0 ∷ written_tags rest)

-- ID, where `sum` is SHA-256 of all that was written.
unfoldable pub id : (Tags → Tags) → (Bytes → Bytes) → ℕ → Tags → Bytes
unfolding unsorted_tags written_tags put_uint64
id sort sum source tags = sum (put_uint64 source ++ written_tags (sort (unsorted_tags tags)))
