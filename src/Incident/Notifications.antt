-- ===== src/Incident/Notifications.antt =====
-- internal/incident/incident.go and sync.go: whom an incident notifies, and the notifications.
use icinga_notifications.Prelude.{
  ℕ, ◌+◌, Bool, true, false, ◌&&◌, Option, none, some, List, [], ◌∷◌, ◌++◌, ok, err, ◌==◌,
  if◌then◌else◌,
}
use icinga_notifications.Prelude.Int.{ℤ}
use icinga_notifications.Event.Incoming.{Event, to_db_int, to_db_string}
use icinga_notifications.Object.Objects.{is_muted}
use icinga_notifications.Recipient.Rotations.{Contact}
use icinga_notifications.Recipient.Recipients.{of_contact, to_key, contacts_at}
use icinga_notifications.Rule.Escalation.{ContactChannels, load_from_escalation, add_channel}
use icinga_notifications.Incident.History.{
  notified, state_pending, state_suppressed, state_sent, state_failed,
}
use icinga_notifications.Incident.State.{
  Incident, Config, Recipients, find, has_id, get_recipient, get_rule_escalation, NotificationEntry,
  update_notification,
}
use icinga_notifications.Incident.Exec.{
  Env, context_cancelled, World, Exec, pure, sync_history, time_now, for_each, ◌>>=◌,
}
use icinga_notifications.Incident.Contacts.{
  history_row, incident, is_notifiable, is_recipient_notifiable,
}

-- The loop over the escalations that were triggered.
unfoldable pub load_escalations :
    Config → Incident → ℤ → List ℕ → ContactChannels → Option ContactChannels
load_escalations c i t [] chs = some chs
load_escalations c i t (id ∷ ids) chs = elim (get_rule_escalation c id) [
  | none ↦ load_escalations c i t ids chs
  | some e ↦ elim (load_from_escalation (is_recipient_notifiable c i) t e chs) [
    | none ↦ none
    | some chs' ↦ load_escalations c i t ids chs'
  ]
]

-- contactChs[contact] == nil
unfoldable pub has_contact : ContactChannels → ℕ → Bool
has_contact [] id = false
has_contact ((c, ns) ∷ chs) id = if c.id == id then true else has_contact chs id

unfoldable pub add_defaults : List Contact → ContactChannels → ContactChannels
unfolding has_contact
add_defaults [] chs = chs
add_defaults (c ∷ cs) chs =
    add_defaults cs (if has_contact chs c.id then chs else add_channel c c.default_channel_id chs)

-- The loop over the recipients of the incident.
unfoldable pub load_incident_recipients :
    Config → Incident → ℤ → Recipients → ContactChannels → Option ContactChannels
unfolding add_defaults
load_incident_recipients c i t [] chs = some chs
load_incident_recipients c i t ((key, role) ∷ rs) chs = elim (get_recipient c key) [
  | none ↦ load_incident_recipients c i t rs chs
  | some r ↦ elim (is_notifiable c i role) [
    | false ↦ load_incident_recipients c i t rs chs
    | true ↦ elim (contacts_at r t) [
      | none ↦ none
      | some contacts ↦ load_incident_recipients c i t rs (add_defaults contacts chs)
    ]
  ]
]

unfoldable pub get_recipients_channel : Config → Incident → ℤ → Option ContactChannels
unfolding load_escalations load_incident_recipients
get_recipients_channel c i t = elim (load_escalations c i t i.escalation_state []) [
  | none ↦ none
  | some chs ↦ load_incident_recipients c i t i.recipients chs
]

abbrev pub entry_unless : Bool → ℕ → ℕ → ℕ → List NotificationEntry
entry_unless true row_id contact_id channel_id = []
entry_unless false row_id contact_id channel_id =
    record {
      history_row_id = row_id;
      contact_id = contact_id;
      channel_id = channel_id;
      state = state_pending;
    }
    ∷ []

-- One notification of generateNotifications: its history row, and its entry if it is not suppressed.
unfoldable pub generate_one : Env → Event → Bool → Contact → ℕ → Exec (List NotificationEntry)
generate_one env ev suppress contact channel_id = do
  i ← incident
  now ← time_now env
  row_id ← sync_history env (record (history_row i (to_db_int ev.id) now notified) {
    key = some (to_key (of_contact contact));
    channel_id = to_db_int channel_id;
    notification_state = some (if suppress then state_suppressed else state_pending);
    message = to_db_string ev.message;
  })
  pure (entry_unless suppress row_id contact.id channel_id)

unfoldable pub generate_channels :
    Env → Event → Bool → Contact → List ℕ → Exec (List NotificationEntry)
unfolding generate_one
generate_channels env ev suppress contact [] = pure []
generate_channels env ev suppress contact (n ∷ ns) = do
  entries ← generate_one env ev suppress contact n
  more ← generate_channels env ev suppress contact ns
  pure (entries ++ more)

unfoldable pub generate_contacts :
    Env → Event → Bool → ContactChannels → Exec (List NotificationEntry)
unfolding generate_channels
generate_contacts env ev suppress [] = pure []
generate_contacts env ev suppress ((contact, channels) ∷ chs) = do
  entries ← generate_channels env ev suppress contact channels
  more ← generate_contacts env ev suppress chs
  pure (entries ++ more)

unfoldable pub generate_notifications :
    Env → Event → ContactChannels → Exec (List NotificationEntry)
unfolding generate_contacts
generate_notifications env ev chs w =
    generate_contacts env ev (w.incident.is_muted && is_muted w.incident.object) chs w

-- notifyContact: whether the notification was sent.
unfoldable pub notify_contact : Env → Contact → ℕ → Bool
notify_contact env contact channel_id =
    has_id env.config.channels channel_id && env.notify contact.id channel_id

-- The update of a notification's row; a failure is logged only.
unfoldable pub update_entry : Env → NotificationEntry → World → World
update_entry env entry w = record w {
  operations = w.operations + 1;
  committed =
      if env.fails w.operations
      then w.committed
      else w.committed ++ update_notification entry.history_row_id entry.state ∷ [];
}

-- The body of notifyContacts' loop.
unfoldable pub notify_one : Env → NotificationEntry → Exec (Unit {0})
unfolding update_entry notify_contact find has_id
notify_one env entry w = elim (find env.config.contacts entry.contact_id) [
  | none ↦ (ok tt, w)
  | some contact ↦
      let sent = notify_contact env contact entry.channel_id in
      let w' =
        update_entry env (record entry { state = if sent then state_sent else state_failed }) w in
      (if env.cancelled w'.operations then err context_cancelled else ok tt, w')
]

unfoldable pub notify_contacts : Env → List NotificationEntry → Exec (Unit {0})
unfolding notify_one for_each
notify_contacts env entries = for_each entries (notify_one env)
