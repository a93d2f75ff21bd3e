-- ===== src/Listener/Guarded.antt =====
-- internal/listener/listener.go: which requests change the objects and the incidents.
use icinga_notifications.Prelude.{
  ◌≡◌, ◌≢◌, refl, sym, ap, ◌∙◌, Bool, Bool-cases, Option-cases, true, false, inl, inr, ◌⊎◌, Option,
  none, some, Result, ok, err,
}
use icinga_notifications.Prelude.Int.{ℤ}
use icinga_notifications.Prelude.Bytes.{Bytes, bytes_eq, codes}
use icinga_notifications.Event.Incoming.{
  Event, EventType, InvalidEvent, Tags, untyped, mute, unmute, set_mute, validate,
}
use icinga_notifications.Runtime.Maps.{lookup}
use icinga_notifications.Runtime.Elements.{Source}
use icinga_notifications.Runtime.Credentials.{
  cut_prefix, parse_int, source_of, check_password, get_source_from_credentials,
}
use icinga_notifications.Object.Cache.{get_from_cache}
use icinga_notifications.Incident.Current.{Store, process_event}
use icinga_notifications.Incident.Isolated.{WellFormed}
use icinga_notifications.Incident.Registry.{process_event_other}
use icinga_notifications.Listener.Handler.{
  Request, Status, status_ok, bad_request, Listener, with_defaults, stamped, status_of,
  handle_event, authenticate, handle,
}

-- The password that a source was given is that of its hash.
password_known :
    (compare : Bytes → Bytes → Bool) (pass : Bytes) (source found : Source)
    → check_password compare pass source ≡ some found
    → (source ≡ found)
      × (hash : Bytes) × (found.listener_password_hash ≡ some hash)
      × (compare hash pass ≡ true)
unfolding check_password
password_known compare pass source found h = elim (Option-cases source.listener_password_hash) [
  | inl e ↦ let bad = rw (e, check_password) at h in cc
  | inr (hash, e) ↦ elim (Bool-cases (compare hash pass)) [
    | inr f ↦ let bad = rw (e, f, check_password) at h in cc
    | inl f ↦
        let is : some source ≡ some found = rw (e, f, check_password) at h in
        let same : source ≡ found = cc in
        (same, hash, ap (λ x. x.listener_password_hash) (sym same) ∙ e, f)
  ]
]

-- The source that the credentials name has a password, and it was given.
credentials_known :
    (l : Listener) (user pass : Bytes) (source : Source)
    → get_source_from_credentials l.compare l.runtime user pass ≡ some source
    → (hash : Bytes) × (source.listener_password_hash ≡ some hash) × (l.compare hash pass ≡ true)
unfolding get_source_from_credentials
credentials_known l user pass source h = elim (Option-cases (cut_prefix (codes "source-") user)) [
  | inl e ↦ let bad = rw (e, get_source_from_credentials) at h in cc
  | inr (raw, e) ↦ elim (Option-cases (parse_int raw)) [
    | inl f ↦ let bad = rw (e, f, get_source_from_credentials) at h in cc
    | inr (id, f) ↦ elim (Option-cases (source_of l.runtime id)) [
      | inl g ↦ let bad = rw (e, f, g, get_source_from_credentials) at h in cc
      | inr (x, g) ↦
          let (_, hash, has, matches) =
            password_known l.compare pass x source
              (rw (e, f, g, get_source_from_credentials) at h) in
          (hash, has, matches)
    ]
  ]
]

with_defaults-source_id :
    (k : EventType) (m : Option Bool) (e : Event) → (with_defaults k m e).source_id ≡ e.source_id
unfolding with_defaults set_mute
with_defaults-source_id untyped m e = refl
with_defaults-source_id mute none e = refl
with_defaults-source_id unmute none e = refl
with_defaults-source_id mute (some b) e = refl
with_defaults-source_id unmute (some b) e = refl
with_defaults-source_id _ _ e = refl

stamped-source_id :
    (now : ℤ) (source : Source) (ev : Event) → (stamped now source ev).source_id ≡ source.id
unfolding stamped
stamped-source_id now source ev = with_defaults-source_id ev.kind ev.mute _

-- An event that the handler passes on.
abbrev pub Accepted : Listener → Request → Store → Status × Store → Type 0
Accepted l req s r =
    (source : Source) × (hash : Bytes) × (user : Bytes) × (pass : Bytes) × (ev : Event) × (req.auth
      ≡ some (user, pass))
    × (get_source_from_credentials l.compare l.runtime user pass ≡ some source)
    × (source.listener_password_hash ≡ some hash)
    × (l.compare hash pass ≡ true)
    × (l.decode req.body ≡ some ev)
    × ((stamped l.now source ev).source_id ≡ source.id)
    × (validate (stamped l.now source ev) ≡ ok tt)
    × (r ≡ (
      status_of (process_event l.outside (stamped l.now source ev) s).0,
      (process_event l.outside (stamped l.now source ev) s).1,
    ))

valid_or_not :
    (r : Result InvalidEvent (Unit {0})) → ((e : InvalidEvent) × (r ≡ err e)) ⊎ (r ≡ ok tt)
valid_or_not (ok t) = inr refl
valid_or_not (err e) = inl (e, refl)

handle_event_cases :
    (l : Listener) (ev : Event) (s : Store)
    → (handle_event l ev s ≡ (bad_request, s))
      ⊎ ((validate ev ≡ ok tt)
          × (handle_event l ev s
              ≡ (status_of (process_event l.outside ev s).0, (process_event l.outside ev s).1)))
unfolding handle_event
handle_event_cases l ev s = elim (valid_or_not (validate ev)) [
  | inl (e, h) ↦ inl (rw (h, handle_event) refl)
  | inr h ↦ inr (h, rw (h, handle_event) refl)
]

-- A request is refused, with a status that says so, and changes nothing; or it is a POST with the
-- password of a source, and its event, which is valid and has the id of this source, is processed.
pub handle_cases :
    (l : Listener) (req : Request) (s : Store)
    → (((handle l req s).0 ≢ status_ok) × ((handle l req s).1 ≡ s))
      ⊎ ((req.is_post ≡ true) × Accepted l req s (handle l req s))
unfolding handle authenticate
handle_cases l req s = elim (Bool-cases req.is_post) [
  | inr e ↦ inl (rw (e) ((λ h. cc), refl))
  | inl e ↦ elim (Option-cases req.auth) [
    | inl f ↦ inl (rw (e, f, handle) ((λ h. cc), refl))
    | inr ((user, pass), f) ↦
        elim (Option-cases (get_source_from_credentials l.compare l.runtime user pass)) [
          | inl g ↦ inl (rw (e, f, g, handle) ((λ h. cc), refl))
          | inr (source, g) ↦ elim (Option-cases (l.decode req.body)) [
            | inl d ↦ inl (rw (e, f, g, d, handle) ((λ h. cc), refl))
            | inr (ev, d) ↦
                let passed_on : handle l req s ≡ handle_event l (stamped l.now source ev) s =
                  rw (e, f, g, d, handle) refl in
                elim (handle_event_cases l (stamped l.now source ev) s) [
                  | inl bad ↦ inl (rw (passed_on, bad) ((λ h. cc), refl))
                  | inr (valid, is) ↦
                      let (hash, has, matches) = credentials_known l user pass source g in
                      inr (
                        e,
                        (
                          source,
                          hash,
                          user,
                          pass,
                          ev,
                          f,
                          g,
                          has,
                          matches,
                          d,
                          stamped-source_id l.now source ev,
                          valid,
                          passed_on ∙ is,
                        ),
                      )
                ]
          ]
        ]
  ]
]

-- A request changes no object and no incident but those of the source that it authenticates as: those
-- with an id that ID does not give to the tags of this source are as before.
pub handle_other :
    (l : Listener) (req : Request) (s : Store) (q : Bytes)
    → WellFormed s
    → ((user pass : Bytes) (source : Source) (tags : Tags)
        → req.auth ≡ some (user, pass)
        → get_source_from_credentials l.compare l.runtime user pass ≡ some source
        → bytes_eq (l.outside.id_of source.id tags) q ≡ false)
    → (lookup bytes_eq (handle l req s).1.current q ≡ lookup bytes_eq s.current q)
      × (get_from_cache (handle l req s).1.objects q ≡ get_from_cache s.objects q)
handle_other l req s q w others = elim (handle_cases l req s) [
  | inl (_, same) ↦ rw (same) (refl, refl)
  | inr (_, (source, hash, user, pass, decoded, f, g, _, _, _, id, _, is)) ↦
      let ev = stamped l.now source decoded in
      let apart : bytes_eq (l.outside.id_of ev.source_id ev.tags) q ≡ false =
        rw (id) (others user pass source ev.tags f g) in
      rw (is) (process_event_other l.outside ev s q w apart)
]
