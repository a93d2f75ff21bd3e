-- ===== src/Object/Cache.antt =====
-- internal/object/object.go: the global cache of objects, and the synchronisation with the database.
use icinga_notifications.Prelude.{
  ℕ, zero, suc, ◌+◌, Bool, true, false, Option, none, some, List, [], ◌∷◌, ◌++◌, if◌then◌else◌,
  length,
}
use icinga_notifications.Prelude.Bytes.{Bytes, bytes_eq}
use icinga_notifications.Event.Incoming.{Event, Tags, to_db_string}
use icinga_notifications.Object.Objects.{Object, new}
use icinga_notifications.Runtime.Maps.{lookup, put}

pub record TagRow : Type 0 where
  pub object_id : Bytes
  pub tag : Bytes
  pub value : Bytes

unfoldable pub map_to_tag_rows : Bytes → Tags → List TagRow
map_to_tag_rows id [] = []
map_to_tag_rows id ((k, v) ∷ tags) =
    record { object_id = id; tag = k; value = v } ∷ map_to_tag_rows id tags

-- The statements of FromEvent.
pub data ObjectStatement : Type 0 where
  upsert_object : Object → ObjectStatement
  upsert_id_tags insert_extra_tags : List TagRow → ObjectStatement
  delete_extra_tags : Bytes → ObjectStatement

-- The cache by the id of the object, the statements that took effect, and the number of operations on
-- the database.
pub record ObjectStore : Type 0 where
  pub cache : List (Bytes × Object)
  pub statements : List ObjectStatement
  pub operations : ℕ

unfoldable pub get_from_cache : ObjectStore → Bytes → Option Object
unfolding lookup
get_from_cache s id = lookup bytes_eq s.cache id

unfoldable pub clear_cache : ObjectStore → ObjectStore
clear_cache s = record s { cache = [] }

-- The copy of a cached object with what the event changes.
unfoldable pub changed : Event → Object → Object
changed ev o = record o {
  extra_tags = ev.extra_tags;
  name = ev.name;
  url = to_db_string ev.url;
  mute_reason = elim ev.mute [
    | none ↦ o.mute_reason
    | some b ↦ if b then to_db_string ev.mute_reason else none
  ];
}

unfoldable pub statements_of : Object → Event → List ObjectStatement
unfolding map_to_tag_rows
statements_of o ev =
    upsert_object o
    ∷ upsert_id_tags (map_to_tag_rows o.id ev.tags)
    ∷ delete_extra_tags o.id
    ∷ elim ev.extra_tags [
      | [] ↦ []
      | t ∷ rest ↦ insert_extra_tags (map_to_tag_rows o.id (t ∷ rest)) ∷ []
    ]

-- A number of operations on the database, from the n-th on, until one fails.
unfoldable pub attempt : (ℕ → Bool) → ℕ → ℕ → Bool × ℕ
attempt fails zero n = (true, n)
attempt fails (suc k) n =
    let rest = attempt fails k (n + 1) in if fails n then (false, n + 1) else rest

-- The object that FromEvent writes.
unfoldable pub object_of : Bytes → Event → Option Object → Object
unfolding new changed
object_of id ev none = new id ev
object_of id ev (some o) = changed ev o

-- FromEvent, where `id_of` is ID; the transaction begins, executes the statements and commits.
unfoldable pub from_event :
    (ℕ → Bool) → (ℕ → Tags → Bytes) → Event → ObjectStore → Option Object × ObjectStore
unfolding get_from_cache object_of statements_of attempt put
from_event fails id_of ev s =
    let id = id_of ev.source_id ev.tags in
    let o = object_of id ev (get_from_cache s id) in
    let statements = statements_of o ev in
    let (success, n) = attempt fails (2 + length statements) s.operations in
    if success
    then (
      some o,
      record {
        cache = put bytes_eq id o s.cache;
        statements = s.statements ++ statements;
        operations = n;
      },
    )
    else (none, record s { operations = n })
