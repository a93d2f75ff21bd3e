-- ===== src/Incident/Contacts.antt =====
-- internal/incident/incident.go and sync.go: the roles of an incident's recipients.
use icinga_notifications.Prelude.{
  ℕ, Bool, true, false, not, ◌&&◌, Option, none, some, [], ◌∷◌, ok, ltb, ◌==◌, if◌then◌else◌,
}
use icinga_notifications.Prelude.Int.{ℤ}
use icinga_notifications.Event.Incoming.{Event, to_db_int, to_db_string}
use icinga_notifications.Recipient.Recipients.{Key, of_contact, to_key}
use icinga_notifications.Rule.Escalation.{Escalation, EscalationRecipient}
use icinga_notifications.Incident.Role.{
  ContactRole, role_none, role_recipient, role_subscriber, role_manager, role_rank,
}
use icinga_notifications.Incident.History.{HistoryEventType, recipient_role_changed}
use icinga_notifications.Incident.State.{
  Incident, Config, Recipients, find_role, set_role, get_recipient, contact_named, HistoryRow,
  upsert_contact,
}
use icinga_notifications.Incident.Exec.{
  Env, superfluous_ack, unknown_author, Exec, pure, raise, modify, execute, sync_history, time_now,
  for_each, ◌>>=◌, ◌>>◌,
}

abbrev pub is_manager : ContactRole → Bool
is_manager r = role_rank r == 3

abbrev pub is_some {ℓ} : {A : Type ℓ} → Option A → Bool
is_some none = false
is_some (some _) = true

-- The loop of HasManager.
unfoldable pub any_manager : Config → Recipients → Bool
any_manager c [] = false
any_manager c ((k, role) ∷ rs) =
    if is_some (get_recipient c k) && is_manager role then true else any_manager c rs

unfoldable pub has_manager : Config → Incident → Bool
unfolding any_manager role_rank
has_manager c i = any_manager c i.recipients

unfoldable pub is_notifiable : Config → Incident → ContactRole → Bool
unfolding has_manager
is_notifiable c i role =
    if not (has_manager c i) then true else ltb (role_rank role_recipient) (role_rank role)

unfoldable pub is_recipient_notifiable : Config → Incident → Key → Bool
unfolding is_notifiable find_role
is_recipient_notifiable c i key = elim (find_role i.recipients key) [
  | none ↦ false
  | some role ↦ is_notifiable c i role
]

-- A history row of the fields that every row has.
abbrev pub history_row : Incident → Option ℕ → ℤ → HistoryEventType → HistoryRow
history_row i event_id time kind = record {
  incident_id = i.id;
  rule_escalation_id = none;
  event_id = event_id;
  key = none;
  rule_id = none;
  time = time;
  kind = kind;
  channel_id = none;
  new_severity = none;
  old_severity = none;
  new_recipient_role = none;
  old_recipient_role = none;
  message = none;
  notification_state = none;
}

abbrev pub incident : Exec Incident
incident w = (ok w.incident, w)

unfoldable pub assign_role : Key → ContactRole → Exec (Unit {0})
unfolding modify set_role
assign_role key role = modify (λ i. record i { recipients = set_role key role i.recipients })

-- The state of a recipient of a triggered escalation: the role to write for it.
unfoldable pub raise_role : Env → ℕ → ContactRole → Key → Option ContactRole → Exec ContactRole
unfolding assign_role
raise_role env event_id new_role key none = do assign_role key new_role; pure new_role
raise_role env event_id new_role key (some old_role) =
    if ltb (role_rank old_role) (role_rank new_role)
    then (do
      assign_role key new_role
      i ← incident
      now ← time_now env
      row ←
          sync_history env (record (history_row i (to_db_int event_id) now recipient_role_changed) {
            key = some key;
            new_recipient_role = some new_role;
            old_recipient_role = some old_role;
          })
      pure new_role)
    else pure old_role

-- The body of AddRecipient's loop.
unfoldable pub add_one_recipient : Env → ℕ → ContactRole → EscalationRecipient → Exec (Unit {0})
unfolding raise_role to_key find_role
add_one_recipient env event_id new_role er = do
  let key = to_key er.recipient
  i ← incident
  role ← raise_role env event_id new_role key (find_role i.recipients key)
  execute env (upsert_contact i.id key role)

unfoldable pub add_recipient : Env → Escalation → ℕ → Exec (Unit {0})
unfolding add_one_recipient for_each has_manager
add_recipient env escalation event_id = do
  i ← incident
  let new_role = if has_manager env.config i then role_subscriber else role_recipient
  for_each escalation.recipients (add_one_recipient env event_id new_role)

-- The acknowledgement of a known contact, by its state in the incident. The role of a contact that has
-- a state is changed in the database only.
unfoldable pub acknowledge : Env → Event → Key → Option ContactRole → Exec (Unit {0})
unfolding assign_role
acknowledge env ev key state =
    if elim state [ none ↦ false | some old ↦ is_manager old ] then raise superfluous_ack else do
      elim state [ none ↦ assign_role key role_manager | some _ ↦ pure tt ]
      i ← incident
      now ← time_now env
      row ← sync_history env (record (history_row i (to_db_int ev.id) now recipient_role_changed) {
        key = some key;
        new_recipient_role = some role_manager;
        old_recipient_role = some (elim state [ none ↦ role_none | some old ↦ old ]);
        message = to_db_string ev.message;
      })
      execute env (upsert_contact i.id key role_manager)

unfoldable pub process_acknowledgement_event : Env → Event → Exec (Unit {0})
unfolding acknowledge contact_named to_key find_role
process_acknowledgement_event env ev =
    elim (contact_named env.equal_fold env.config.contacts ev.username) [
      | none ↦ raise unknown_author
      | some contact ↦ do
        let key = to_key (of_contact contact)
        i ← incident
        acknowledge env ev key (find_role i.recipients key)
    ]
