-- ===== src/Tests/Samples.antt =====
-- An incident of one object with one rule, one escalation and two contacts.
use icinga_notifications.Prelude.{ℕ, true, false, Option, none, some, List, [], ◌∷◌, ◌==◌}
use icinga_notifications.Prelude.Int
use icinga_notifications.Prelude.Int.{ℤ}
use icinga_notifications.Prelude.Bytes.{Bytes, codes}
use icinga_notifications.Event.Severity.{severity_crit}
use icinga_notifications.Event.Incoming.{Event, EventType}
use icinga_notifications.Filter.Types
use icinga_notifications.Filter.Types.{Filter, Condition, greater_than_equal}
use icinga_notifications.Object.Objects.{Object}
use icinga_notifications.Recipient.Rotations.{Contact}
use icinga_notifications.Recipient.Recipients.{Key, of_contact}
use icinga_notifications.Rule.Escalation.{Rule, Escalation}
use icinga_notifications.Incident.Role.{role_recipient}
use icinga_notifications.Incident.State.{Incident, Config}
use icinga_notifications.Incident.Exec.{Env, World}

abbrev pub tags : List (Bytes × Bytes)
tags = (codes "host", codes "web01") ∷ []

abbrev pub event_of : EventType → Event
event_of kind = record {
  time = Int.pos 5000;
  source_id = 1;
  name = codes "web01";
  url = [];
  tags = tags;
  extra_tags = [];
  kind = kind;
  severity = severity_crit;
  username = codes "alice";
  message = [];
  mute = none;
  mute_reason = [];
  id = 0;
}

abbrev pub object : Object
object = record {
  id = codes "id";
  source_id = 1;
  name = codes "web01";
  url = none;
  mute_reason = none;
  tags = tags;
  extra_tags = [];
}

abbrev pub alice : Contact
alice = record {
  id = 1;
  full_name = codes "Alice";
  username = some (codes "alice");
  default_channel_id = 1;
}

abbrev pub alice_key : Key
alice_key = record { contact_id = some 1; group_id = none; schedule_id = none }

abbrev pub after_an_hour : Filter
after_an_hour =
    Types.condition
      (record { op = greater_than_equal; column = codes "incident_age"; value = codes "1h" })

abbrev pub escalation : Escalation
escalation = record {
  id = 9;
  rule_id = 4;
  condition = some after_an_hour;
  condition_expr = some (codes "incident_age>=1h");
  fallback_for_id = none;
  recipients =
      record {
        id = 3;
        escalation_id = 9;
        channel_id = none;
        key = alice_key;
        recipient = of_contact alice;
      }
      ∷ [];
}

abbrev pub rule : Rule
rule = record {
  id = 4;
  name = codes "rule";
  object_filter = none;
  object_filter_expr = none;
  escalations = (9, escalation) ∷ [];
}

abbrev pub config : Config
config = record {
  contacts = (1, alice) ∷ [];
  groups = [];
  schedules = [];
  rules = (4, rule) ∷ [];
  channels = 1 ∷ [];
}

abbrev pub an_hour : Bytes → Option ℤ
an_hour text = some (Int.pos 3600)

-- The operation with this number fails.
abbrev pub env_failing_at : ℕ → Env
env_failing_at n = record {
  config = config;
  fails = λ m. m == n;
  new_id = λ m. m;
  clock = λ m. Int.pos 6000;
  cancelled = λ m. false;
  parse_duration = an_hour;
  equal_fold = λ a b. true;
  notify = λ contact channel. true;
}

-- Since the start at 1000, the incident has an age of 4000 at the event.
abbrev pub incident : Incident
incident = record {
  id = 7;
  object = object;
  started_at = some (Int.pos 1000);
  recovered_at = none;
  severity = severity_crit;
  escalation_state = 8 ∷ [];
  rules = 4 ∷ [];
  recipients = (alice_key, role_recipient) ∷ [];
  timer = none;
  is_muted = false;
}

abbrev pub world : World
world = record {
  incident = incident;
  pending = [];
  committed = [];
  operations = 0;
  registered = true;
}
