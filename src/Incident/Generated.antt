-- ===== src/Incident/Generated.antt =====
-- internal/incident/sync.go, generateNotifications: the notifications of one event.
use icinga_notifications.Prelude.{
  ℕ, ◌≡◌, refl, ap, sym, Bool, Bool-cases, true, false, inl, inr, List, [], ◌∷◌, ◌++◌, Result, ok,
  err, ◌&&◌, if◌then◌else◌,
}
use icinga_notifications.Event.Incoming.{Event}
use icinga_notifications.Object.Objects.{is_muted}
use icinga_notifications.Recipient.Rotations.{Contact}
use icinga_notifications.Rule.Escalation.{ContactChannels}
use icinga_notifications.Incident.History.{NotificationState, state_pending}
use icinga_notifications.Incident.State.{NotificationEntry}
use icinga_notifications.Incident.Exec.{Env, Error, World, Exec, continue, pure, ◌>>=◌}
use icinga_notifications.Incident.Notifications.{
  entry_unless, generate_one, generate_channels, generate_contacts, generate_notifications,
}

-- The contact, the channel and the state of each entry.
unfoldable pub summary : List NotificationEntry → List (ℕ × ℕ × NotificationState)
summary [] = []
summary (e ∷ es) = (e.contact_id, e.channel_id, e.state) ∷ summary es

-- A pending notification for each channel of the contact.
unfoldable pub pending_of : Contact → List ℕ → List (ℕ × ℕ × NotificationState)
pending_of c [] = []
pending_of c (n ∷ ns) = (c.id, n, state_pending) ∷ pending_of c ns

-- A pending notification for each contact and each of its channels.
unfoldable pub all_pending : ContactChannels → List (ℕ × ℕ × NotificationState)
unfolding pending_of
all_pending [] = []
all_pending ((c, ns) ∷ chs) = pending_of c ns ++ all_pending chs

abbrev pub unless : {A : Type 0} → Bool → List A → List A
unless true xs = []
unless false xs = xs

summary-append : (xs ys : List NotificationEntry) → summary (xs ++ ys) ≡ summary xs ++ summary ys
unfolding summary
summary-append [] ys = refl
summary-append (x ∷ xs) ys =
    ap (λ zs. (x.contact_id, x.channel_id, x.state) ∷ zs) (summary-append xs ys)

unless-append :
    {A : Type 0} (b : Bool) (xs ys : List A) → unless b (xs ++ ys) ≡ unless b xs ++ unless b ys
unless-append true xs ys = refl
unless-append false xs ys = refl

continue-ok {ℓ κ} :
    {A : Type ℓ} {B : Type κ} (r : Result Error A) (w : World) (f : A → Exec B) (b : B)
    → (continue r f w).0 ≡ ok b
    → (a : A) × (r ≡ ok a) × ((f a w).0 ≡ ok b)
continue-ok (ok a) w f b h = (a, refl, h)
continue-ok (err e) w f b h = cc

-- What a successful run consists of.
bind-ok {ℓ κ} :
    {A : Type ℓ} {B : Type κ} (m : Exec A) (f : A → Exec B) (w : World) (b : B)
    → ((m >>= f) w).0 ≡ ok b
    → (a : A) × ((m w).0 ≡ ok a) × ((f a (m w).1).0 ≡ ok b)
unfolding ◌>>=◌
bind-ok m f w b h = continue-ok (m w).0 (m w).1 f b h

summary-entry_unless :
    (b : Bool) (row : ℕ) (c : Contact) (n : ℕ)
    → summary (entry_unless b row c.id n) ≡ unless b (pending_of c (n ∷ []))
unfolding summary pending_of
summary-entry_unless true row c n = refl
summary-entry_unless false row c n = refl

appended :
    (b : Bool) (xs ys : List NotificationEntry) (p q : List (ℕ × ℕ × NotificationState))
    → summary xs ≡ unless b p
    → summary ys ≡ unless b q
    → summary (xs ++ ys) ≡ unless b (p ++ q)
appended b xs ys p q h k = rw (summary-append xs ys, h, k) (sym (unless-append b p q))

unless-nil : (b : Bool) (es : List NotificationEntry) → [] ≡ es → summary es ≡ unless b []
unfolding summary
unless-nil true es h = rw (← h) refl
unless-nil false es h = rw (← h) refl

module _ (env : Env) (ev : Event) (b : Bool) where
  generate_one_lem :
      (c : Contact) (n : ℕ) (w : World) (es : List NotificationEntry)
      → (generate_one env ev b c n w).0 ≡ ok es
      → summary es ≡ unless b (pending_of c (n ∷ []))
  unfolding generate_one pure
  generate_one_lem c n w es h =
      let (i, hi, h1) = bind-ok _ _ w es h in
      let (t, ht, h2) = bind-ok _ _ _ es h1 in
      let (row, hr, h3) = bind-ok _ _ _ es h2 in
      let same : entry_unless b row c.id n ≡ es = cc in rw same at (summary-entry_unless b row c n)

  generate_channels_lem :
      (c : Contact) (ns : List ℕ) (w : World) (es : List NotificationEntry)
      → (generate_channels env ev b c ns w).0 ≡ ok es
      → summary es ≡ unless b (pending_of c ns)
  unfolding generate_channels pure pending_of
  generate_channels_lem c [] w es h = unless-nil b es cc
  generate_channels_lem c (n ∷ ns) w es h =
      let (xs, hx, h1) = bind-ok (generate_one env ev b c n) _ w es h in
      let (ys, hy, h2) = bind-ok (generate_channels env ev b c ns) _ _ es h1 in
      let same : xs ++ ys ≡ es = cc in
      let one = generate_one_lem c n w xs hx in
      let more = generate_channels_lem c ns _ ys hy in
      rw same at (appended b xs ys (pending_of c (n ∷ [])) (pending_of c ns) one more)

  generate_contacts_lem :
      (chs : ContactChannels) (w : World) (es : List NotificationEntry)
      → (generate_contacts env ev b chs w).0 ≡ ok es
      → summary es ≡ unless b (all_pending chs)
  unfolding generate_contacts pure all_pending
  generate_contacts_lem [] w es h = unless-nil b es cc
  generate_contacts_lem ((c, ns) ∷ chs) w es h =
      let (xs, hx, h1) = bind-ok (generate_channels env ev b c ns) _ w es h in
      let (ys, hy, h2) = bind-ok (generate_contacts env ev b chs) _ _ es h1 in
      let same : xs ++ ys ≡ es = cc in
      let one = generate_channels_lem c ns w xs hx in
      let more = generate_contacts_lem chs _ ys hy in
      rw same at (appended b xs ys (pending_of c ns) (all_pending chs) one more)

-- If generateNotifications succeeds, it returns one pending notification for each contact and each of
-- its channels, in their order, or none at all if both the incident was muted and its object is muted.
pub generate_notifications_lem :
    (env : Env) (ev : Event) (chs : ContactChannels) (w : World) (es : List NotificationEntry)
    → (generate_notifications env ev chs w).0 ≡ ok es
    → summary es
      ≡ (if w.incident.is_muted && is_muted w.incident.object then [] else all_pending chs)
unfolding generate_notifications
generate_notifications_lem env ev chs w es h =
    elim (Bool-cases (w.incident.is_muted && is_muted w.incident.object)) [
      | inl e ↦ rw (e) (generate_contacts_lem env ev true chs w es (rw (e) at h))
      | inr e ↦ rw (e) (generate_contacts_lem env ev false chs w es (rw (e) at h))
    ]
