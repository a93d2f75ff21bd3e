-- ===== src/Rule/Escalation.antt =====
-- internal/rule/escalation.go and rule.go: rules, escalations and their recipients, and the channels on
-- which contacts are notified.
use icinga_notifications.Prelude.{
  ℕ, Bool, true, Option, none, some, List, [], ◌∷◌, Result, ok, err, ◌>>=◌, ◌==◌, if◌then◌else◌,
}
use icinga_notifications.Prelude.Int.{ℤ}
use icinga_notifications.Prelude.Bytes.{Bytes}
use icinga_notifications.Filter.Types.{Filter, Filterable, EvalError, eval}
use icinga_notifications.Filter.Parser.Chars.{ParseError}
use icinga_notifications.Filter.Parser.Loop.{parse}
use icinga_notifications.Recipient.Rotations.{Contact}
use icinga_notifications.Recipient.Recipients.{Recipient, Key, contacts_at}
use icinga_notifications.Rule.Condition.{EscalationFilter, as_filterable}

pub record EscalationRecipient : Type 0 where
  pub id : ℕ
  pub escalation_id : ℕ
  pub channel_id : Option ℕ
  pub key : Key
  pub recipient : Recipient

pub record Escalation : Type 0 where
  pub id : ℕ
  pub rule_id : ℕ
  pub condition : Option Filter
  pub condition_expr : Option Bytes
  pub fallback_for_id : Option ℕ
  pub recipients : List EscalationRecipient

pub data EscalationError : Type 0 where
  bad_condition : ParseError → EscalationError
  fallback_not_implemented : EscalationError

-- Escalation.IncrementalInitAndValidate
unfoldable pub init_escalation : Escalation → Result EscalationError Escalation
init_escalation e =
    elim e.condition_expr [
      | none ↦ ok e
      | some text ↦ elim (parse text) [
        | err x ↦ err (bad_condition x)
        | ok cond ↦ ok (record e { condition = some cond })
      ]
    ]
    >>= λ e'. elim e'.fallback_for_id [ none ↦ ok e' | some _ ↦ err fallback_not_implemented ]

unfoldable pub eval_escalation :
    (Bytes → Option ℤ) → Escalation → EscalationFilter → Result EvalError Bool
eval_escalation parse_duration e filterable = elim e.condition [
  | none ↦ ok true
  | some cond ↦ eval cond (as_filterable parse_duration filterable)
]

pub record Rule : Type 0 where
  pub id : ℕ
  pub name : Bytes
  pub object_filter : Option Filter
  pub object_filter_expr : Option Bytes
  -- map[int64]*Escalation, in the order of the iteration
  pub escalations : List (ℕ × Escalation)

-- Rule.IncrementalInitAndValidate
unfoldable pub init_rule : Rule → Result ParseError Rule
init_rule r = elim r.object_filter_expr [
  | none ↦ ok r
  | some text ↦ elim (parse text) [
    | err x ↦ err x
    | ok f ↦ ok (record r { object_filter = some f })
  ]
]

unfoldable pub eval_rule : Rule → Filterable → Result EvalError Bool
eval_rule r filterable = elim r.object_filter [ none ↦ ok true | some f ↦ eval f filterable ]

-- map[*recipient.Contact]map[int64]bool, in the order of the iteration. A contact has one object in
-- the configuration, so its id stands for the pointer.
abbrev pub ContactChannels : Type 0
ContactChannels = List (Contact × List ℕ)

unfoldable pub add_id : ℕ → List ℕ → List ℕ
add_id n [] = n ∷ []
add_id n (m ∷ ms) = if m == n then m ∷ ms else m ∷ add_id n ms

-- ch[c][id] = true, where ch[c] is made if it is nil
unfoldable pub add_channel : Contact → ℕ → ContactChannels → ContactChannels
unfolding add_id
add_channel c n [] = (c, n ∷ []) ∷ []
add_channel c n ((d, ns) ∷ chs) =
    if d.id == c.id then (d, add_id n ns) ∷ chs else (d, ns) ∷ add_channel c n chs

abbrev pub channel_for : Option ℕ → Contact → ℕ
channel_for none c = c.default_channel_id
channel_for (some n) c = n

unfoldable pub add_contacts : Option ℕ → List Contact → ContactChannels → ContactChannels
unfolding add_channel
add_contacts channel [] chs = chs
add_contacts channel (c ∷ cs) chs =
    add_contacts channel cs (add_channel c (channel_for channel c) chs)

-- LoadRecipientChannel; nothing is the panic of a time period entry that is not initialized.
unfoldable pub load_recipient_channel :
    (Key → Bool) → ℤ → EscalationRecipient → ContactChannels → Option ContactChannels
unfolding add_contacts
load_recipient_channel is_notifiable t er chs =
    if is_notifiable er.key
    then elim (contacts_at er.recipient t) [
      | none ↦ none
      | some contacts ↦ some (add_contacts er.channel_id contacts chs)
    ]
    else some chs

unfoldable pub load_recipients :
    (Key → Bool) → ℤ → List EscalationRecipient → ContactChannels → Option ContactChannels
unfolding load_recipient_channel
load_recipients is_notifiable t [] chs = some chs
load_recipients is_notifiable t (er ∷ ers) chs =
    elim (load_recipient_channel is_notifiable t er chs) [
      | none ↦ none
      | some chs' ↦ load_recipients is_notifiable t ers chs'
    ]

-- LoadFromEscalationRecipients
abbrev pub load_from_escalation :
    (Key → Bool) → ℤ → Escalation → ContactChannels → Option ContactChannels
load_from_escalation is_notifiable t e chs = load_recipients is_notifiable t e.recipients chs
