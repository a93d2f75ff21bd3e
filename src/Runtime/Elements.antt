-- ===== src/Runtime/Elements.antt =====
-- The elements of config.ConfigSet, with pointers between them: internal/channel/channel.go,
-- internal/recipient, internal/timeperiod, internal/rule and internal/config/source.go.
use icinga_notifications.Prelude.{ℕ, Bool, ◌&&◌, Option, List, ◌==◌}
use icinga_notifications.Prelude.Int.{ℤ}
use icinga_notifications.Prelude.Bytes.{Bytes}
use icinga_notifications.Filter.Types.{Filter}
use icinga_notifications.Recipient.Recipients.{Key}
use icinga_notifications.Recipient.Rotations.{Resolver}
use icinga_notifications.Runtime.Tables.{Pointer}

-- The plugin of a channel, as far as the configuration is concerned.
pub data PluginState : Type 0 where
  not_started running stopped : PluginState

pub record Channel : Type 0 where
  pub id : ℕ
  pub changed_at : ℤ
  pub name : Bytes
  pub kind : Bytes
  pub config : Bytes
  pub plugin : PluginState
  -- how often the plugin was restarted
  pub restarts : ℕ

pub record Contact : Type 0 where
  pub id : ℕ
  pub changed_at : ℤ
  pub full_name : Bytes
  pub username : Option Bytes
  pub default_channel_id : ℕ
  pub addresses : List Pointer

pub record Address : Type 0 where
  pub id : ℕ
  pub changed_at : ℤ
  pub contact_id : ℕ
  pub kind : Bytes
  pub address : Bytes

pub record Group : Type 0 where
  pub id : ℕ
  pub changed_at : ℤ
  pub name : Bytes
  pub members : List Pointer

-- The key of a membership is a group and a contact.
abbrev pub MemberKey : Type 0
MemberKey = ℕ × ℕ

abbrev pub same_member : MemberKey → MemberKey → Bool
same_member (g, c) (h, d) = (g == h) && (c == d)

pub record GroupMember : Type 0 where
  pub group_id : ℕ
  pub contact_id : ℕ

pub record TimePeriod : Type 0 where
  pub id : ℕ
  pub changed_at : ℤ
  pub name : Bytes
  pub entries : List Pointer

pub record Schedule : Type 0 where
  pub id : ℕ
  pub changed_at : ℤ
  pub name : Bytes
  pub rotations : List Pointer
  -- built by RefreshRotations; the members of a rotation are read through its pointer
  pub resolver : Resolver

pub record ScheduleRotation : Type 0 where
  pub id : ℕ
  pub changed_at : ℤ
  pub schedule_id : ℕ
  pub actual_handoff : ℤ
  pub priority : Option ℤ
  pub name : Bytes
  pub members : List Pointer

pub record Member : Type 0 where
  pub id : ℕ
  pub rotation_id : ℕ
  pub contact_id : Option ℕ
  pub contact : Option Pointer
  pub contact_group_id : Option ℕ
  pub contact_group : Option Pointer
  -- nothing is a nil map
  pub entries : Option (List (ℕ × Pointer))

pub record RuleElement : Type 0 where
  pub id : ℕ
  pub changed_at : ℤ
  pub name : Bytes
  pub time_period_id : Option ℕ
  pub time_period : Option Pointer
  pub object_filter : Option Filter
  pub object_filter_expr : Option Bytes
  pub escalations : List (ℕ × Pointer)

pub record EscalationElement : Type 0 where
  pub id : ℕ
  pub changed_at : ℤ
  pub rule_id : ℕ
  pub name : Option Bytes
  pub condition : Option Filter
  pub condition_expr : Option Bytes
  pub fallback_for_id : Option ℕ
  pub recipients : List Pointer

-- recipient.Recipient: a pointer to one of its three implementations.
pub data RecipientPointer : Type 0 where
  to_contact to_group to_schedule : Pointer → RecipientPointer

pub record RecipientElement : Type 0 where
  pub id : ℕ
  pub escalation_id : ℕ
  pub channel_id : Option ℕ
  pub key : Key
  pub recipient : Option RecipientPointer

pub data SourceType : Type 0 where
  icinga2 : SourceType
  other_source : Bytes → SourceType

pub record Source : Type 0 where
  pub id : ℕ
  pub kind : SourceType
  pub name : Bytes
  pub listener_password_hash : Option Bytes
  -- whether an event stream client runs that can be cancelled
  pub cancel : Bool
