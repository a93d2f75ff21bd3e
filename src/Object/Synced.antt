-- ===== src/Object/Synced.antt =====
-- internal/object/object.go: FromEvent and the mute reason of an object.
use icinga_notifications.Prelude.{
  ℕ, ◌+◌, ◌≡◌, refl, sym, Bool, Bool-cases, true, false, inl, inr, ◌&&◌, not, Option, none, some,
  [], ◌∷◌, Result, ok, err, ◌==◌, if◌then◌else◌, length, any, ltb, ◌∙◌, ap,
}
use icinga_notifications.Prelude.Bytes.{Bytes}
use icinga_notifications.Event.Severity.{rank}
use icinga_notifications.Event.Incoming.{
  Event, InvalidEvent, Tags, is_empty, is_muting, not_unmuting, is_mute, is_unmute, is_state,
  validate, empty_mute_reason, mute_not_true, mute_not_false, severity_without_state,
  empty_source_id, extra_tag_too_long, tag_too_long, empty_tags,
}
use icinga_notifications.Object.Objects.{Object, new, is_muted}
use icinga_notifications.Object.Cache.{
  ObjectStore, get_from_cache, from_event, object_of, changed, attempt, statements_of,
}

-- A guard that was passed, and what follows it.
passed :
    (guard : Bool) (e : InvalidEvent) (rest : Result InvalidEvent (Unit {0}))
    → (if guard then err e else rest) ≡ ok tt
    → (guard ≡ false) × (rest ≡ ok tt)
passed true e rest h = cc
passed false e rest h = (refl, h)

validate_reason :
    (ev : Event) → validate ev ≡ ok tt → (is_muting ev.mute && is_empty ev.mute_reason) ≡ false
unfolding validate
validate_reason ev h =
    let h1 = (passed (is_empty ev.tags) empty_tags _ h).1 in
    let h2 =
      (passed (any (λ (t : Bytes × Bytes). ltb 255 (length t.0)) ev.tags) tag_too_long _ h1).1 in
    let h3 =
      (passed (any (λ (t : Bytes × Bytes). ltb 255 (length t.0)) ev.extra_tags) extra_tag_too_long _
        h2).1 in
    let h4 = (passed (ev.source_id == 0) empty_source_id _ h3).1 in
    let h5 =
      (passed (not (rank ev.severity == 0) && not (is_state ev.kind)) severity_without_state _
        h4).1 in
    let h6 = (passed (is_mute ev.kind && not (is_muting ev.mute)) mute_not_true _ h5).1 in
    let h7 = (passed (is_unmute ev.kind && not_unmuting ev.mute) mute_not_false _ h6).1 in
    (passed (is_muting ev.mute && is_empty ev.mute_reason) empty_mute_reason _ h7).0

-- Whether an object is muted after an event.
unfoldable pub muted_after : Option Bool → Bool → Bool
muted_after none before = before
muted_after (some b) before = b

unfoldable pub was_muted : Option Object → Bool
unfolding is_muted
was_muted none = false
was_muted (some o) = is_muted o

object_of-muted :
    (id : Bytes) (ev : Event) (old : Option Object) (mute : Option Bool) (reason : Bytes)
    → (is_muting mute && is_empty reason) ≡ false
    → is_muted (object_of id (record ev { mute = mute; mute_reason = reason }) old)
      ≡ muted_after mute (was_muted old)
unfolding object_of new changed is_muted muted_after was_muted
object_of-muted id ev none none reason h = refl
object_of-muted id ev none (some true) reason h = refl
object_of-muted id ev none (some false) reason h = refl
object_of-muted id ev (some o) none reason h = refl
object_of-muted id ev (some o) (some true) [] h = cc
object_of-muted id ev (some o) (some true) (c ∷ cs) h = refl
object_of-muted id ev (some o) (some false) reason h = refl

-- After a valid event, the object is muted if the event mutes it, or if the event says nothing of
-- muting and the cached object was muted.
pub from_event_muted :
    (fails : ℕ → Bool) (id_of : ℕ → Tags → Bytes) (ev : Event) (s : ObjectStore) (o : Object)
    → validate ev ≡ ok tt
    → (from_event fails id_of ev s).0 ≡ some o
    → is_muted o ≡ muted_after ev.mute (was_muted (get_from_cache s (id_of ev.source_id ev.tags)))
unfolding from_event
from_event_muted fails id_of ev s o valid h =
    let p =
      object_of (id_of ev.source_id ev.tags) ev (get_from_cache s (id_of ev.source_id ev.tags)) in
    elim (Bool-cases (attempt fails (2 + length (statements_of p ev)) s.operations).0) [
      | inr e ↦ let bad = rw (e, from_event) at h in cc
      | inl e ↦
          let returned : some p ≡ some o = rw (e, from_event) at h in
          let same : p ≡ o = cc in
          ap is_muted (sym same)
          ∙ object_of-muted (id_of ev.source_id ev.tags) ev
              (get_from_cache s (id_of ev.source_id ev.tags)) ev.mute ev.mute_reason
              (validate_reason ev valid)
    ]
