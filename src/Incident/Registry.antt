-- ===== src/Incident/Registry.antt =====
-- internal/incident/incidents.go: what ProcessEvent promises of the objects and the current incidents.
use icinga_notifications.Prelude.{
  ◌≡◌, refl, sym, Bool-cases, false, inl, inr, none, some, ◌∷◌, ◌∙◌, ap, subst, length, arith,
}
use icinga_notifications.Prelude.Bytes.{Bytes, bytes_eq, eq_of_bytes_eq}
use icinga_notifications.Event.Incoming.{Event}
use icinga_notifications.Object.Objects.{Object}
use icinga_notifications.Object.Cache.{get_from_cache, from_event}
use icinga_notifications.Runtime.Maps.{lookup, put, lookup-put_ne, lookup-put_self}
use icinga_notifications.Incident.State.{Incident}
use icinga_notifications.Incident.Current.{Store, Outside, process_object, process_event}
use icinga_notifications.Incident.Isolated.{
  bytes_eq-IsKey, WellFormed, from_event_lem, object_of-id, process_event-Same,
}

-- A text is not one byte longer.
apart_self : (a : Bytes) → bytes_eq a (0 ∷ a) ≡ false
apart_self a = elim (Bool-cases (bytes_eq a (0 ∷ a))) [
  | inr e ↦ e
  | inl e ↦
      let same : length a ≡ length (0 ∷ a) = ap length (eq_of_bytes_eq a (0 ∷ a) e) in
      absurd (omega (arith, same))
]

-- The cache after ProcessEvent, for the id of an object.
cache_after :
    (out : Outside) (ev : Event) (s : Store)
    → WellFormed s
    → (process_event out ev s).1.objects.cache
      ≡ (from_event out.env.fails out.id_of ev s.objects).1.cache
cache_after out ev s w =
    let id = out.id_of ev.source_id ev.tags in
    (process_event-Same out ev s (0 ∷ id) w (apart_self id)).1

from_event_other :
    (out : Outside) (ev : Event) (s : Store) (q : Bytes)
    → bytes_eq (out.id_of ev.source_id ev.tags) q ≡ false
    → lookup bytes_eq (from_event out.env.fails out.id_of ev s.objects).1.cache q
      ≡ get_from_cache s.objects q
unfolding get_from_cache
from_event_other out ev s q h = elim (from_event_lem out.env.fails out.id_of ev s.objects) [
  | inl (_, cache, _) ↦ rw (cache) refl
  | inr (o, _, _, cache, _) ↦
      rw (cache) (
        lookup-put_ne bytes_eq bytes_eq-IsKey (out.id_of ev.source_id ev.tags) o s.objects.cache q
          h)
]

-- ProcessEvent leaves every object and every current incident as it was whose id is not that of the
-- event's tags and source, whether it succeeds or not.
pub process_event_other :
    (out : Outside) (ev : Event) (s : Store) (q : Bytes)
    → WellFormed s
    → bytes_eq (out.id_of ev.source_id ev.tags) q ≡ false
    → (lookup bytes_eq (process_event out ev s).1.current q ≡ lookup bytes_eq s.current q)
      × (get_from_cache (process_event out ev s).1.objects q ≡ get_from_cache s.objects q)
unfolding get_from_cache
process_event_other out ev s q w h = (
  (process_event-Same out ev s q w h).0,
  ap (λ c. lookup bytes_eq c q) (cache_after out ev s w) ∙ from_event_other out ev s q h,
)

-- The cache after FromEvent, at an id.
from_event_cached :
    (out : Outside) (ev : Event) (s : Store) (q : Bytes) (o : Object)
    → WellFormed s
    → lookup bytes_eq (from_event out.env.fails out.id_of ev s.objects).1.cache q ≡ some o
    → o.id ≡ q
unfolding get_from_cache
from_event_cached out ev s q o w h =
    let id = out.id_of ev.source_id ev.tags in
    elim (from_event_lem out.env.fails out.id_of ev s.objects) [
      | inl (_, cache, _) ↦ w.cached q o (ap (λ c. lookup bytes_eq c q) (sym cache) ∙ h)
      | inr (p, is, _, cache, _) ↦ elim (Bool-cases (bytes_eq id q)) [
        | inr e ↦ w.cached q o (sym (from_event_other out ev s q e) ∙ h)
        | inl e ↦
            let at : id ≡ q = eq_of_bytes_eq id q e in
            let here : lookup bytes_eq (put bytes_eq id p s.objects.cache) q ≡ some p =
              rw (← at) (lookup-put_self bytes_eq bytes_eq-IsKey id p s.objects.cache) in
            let there : lookup bytes_eq (put bytes_eq id p s.objects.cache) q ≡ some o =
              ap (λ c. lookup bytes_eq c q) (sym cache) ∙ h in
            let same : p ≡ o = cc in
            ap (λ x. x.id) (sym same ∙ is)
            ∙ object_of-id id ev (get_from_cache s.objects id) (w.cached id)
            ∙ at
      ]
    ]

-- Where FromEvent fails, the current incidents stay.
current_failed :
    (out : Outside) (ev : Event) (s : Store)
    → (from_event out.env.fails out.id_of ev s.objects).0 ≡ none
    → (process_event out ev s).1.current ≡ s.current
unfolding process_event
current_failed out ev s h = rw (h, process_object) refl

known_after :
    (out : Outside) (ev : Event) (s : Store) (q : Bytes) (i : Incident)
    → WellFormed s
    → lookup bytes_eq (process_event out ev s).1.current q ≡ some i
    → (o : Object) × (lookup bytes_eq (from_event out.env.fails out.id_of ev s.objects).1.cache q
        ≡ some o)
unfolding get_from_cache
known_after out ev s q i w h =
    let id = out.id_of ev.source_id ev.tags in
    elim (Bool-cases (bytes_eq id q)) [
      | inr e ↦
          let (o, is) = w.known q i (sym (process_event-Same out ev s q w e).0 ∙ h) in
          (o, from_event_other out ev s q e ∙ is)
      | inl e ↦ elim (from_event_lem out.env.fails out.id_of ev s.objects) [
        | inl (failed, cache, _) ↦
            let (o, is) =
              w.known q i
                (ap (λ c. lookup bytes_eq c q) (sym (current_failed out ev s failed)) ∙ h) in
            (o, ap (λ c. lookup bytes_eq c q) cache ∙ is)
        | inr (p, _, _, cache, _) ↦ (
          p,
          ap (λ c. lookup bytes_eq c q) cache
              ∙ subst (λ x. lookup bytes_eq (put bytes_eq id p s.objects.cache) x ≡ some p)
                  (eq_of_bytes_eq id q e)
                  (lookup-put_self bytes_eq bytes_eq-IsKey id p s.objects.cache),
        )
      ]
    ]

-- ProcessEvent keeps the store well-formed, whether it succeeds or not: every cached object is cached
-- under its id, and every current incident is that of a cached object.
pub process_event-WellFormed :
    (out : Outside) (ev : Event) (s : Store) → WellFormed s → WellFormed (process_event out ev s).1
unfolding get_from_cache
process_event-WellFormed out ev s w = record {
  cached = λ q o h.
      from_event_cached out ev s q o w
        (ap (λ c. lookup bytes_eq c q) (sym (cache_after out ev s w)) ∙ h);
  known = λ q i h.
      let (o, is) = known_after out ev s q i w h in
      (o, ap (λ c. lookup bytes_eq c q) (cache_after out ev s w) ∙ is);
}
