-- ===== src/Runtime/Consistent.antt =====
-- internal/config/verify.go: what holds of a configuration that debugVerify accepts.
use icinga_notifications.Prelude.{
  both, all-Member, ℕ, ◌≡◌, refl, Bool, true, false, ◌&&◌, Option, none, some, ◌==◌, all, Member,
  arith, ◌∙◌,
}
use icinga_notifications.Runtime.Tables.{Pointer}
use icinga_notifications.Runtime.Elements.{
  Contact, RuleElement, EscalationElement, RecipientElement, to_contact,
}
use icinga_notifications.Runtime.State.{
  Runtime, by_id, in_channels, in_contacts, in_rules, in_rule_escalations,
  in_rule_escalation_recipients, pointer, read,
}
use icinga_notifications.Runtime.Verify.{
  points_to, is_some, int_of, present, if_present, verify_channel, verify_contact_address,
  verify_group, verify_time_period, verify_schedule, verify_contact, verify_target,
  verify_recipient, verify_escalation, verify_rule, debug_verify,
}

sixth : (a b c d e f : Bool) → (a && (b && (c && (d && (e && f))))) ≡ true → f ≡ true
sixth a b c d e f h =
    (both e f
      (both d (e && f)
        (both c (d && (e && f))
          (both b (c && (d && (e && f))) (both a (b && (c && (d && (e && f)))) h).1).1).1).1).1

same_id : (a b : ℕ) → (a == b) ≡ true → a ≡ b
same_id a b h = ground arith

target : (o : Option Pointer) (p : Pointer) → points_to o p ≡ true → o ≡ some p
target none p h = cc
target (some q) p h = let e = same_id q p h in rw (e) refl

found : {A : Type 0} (o : Option A) → is_some o ≡ true → (a : A) × (o ≡ some a)
found none h = cc
found (some a) h = (a, refl)

guarded :
    {A : Type 0} (o : Option A) (test : A → Bool)
    → (elim o [ none ↦ false | some a ↦ test a ]) ≡ true
    → (a : A) × (o ≡ some a) × (test a ≡ true)
guarded none test h = cc
guarded (some a) test h = (a, refl, h)

-- A known value makes the test hold.
known :
    {A : Type 0} (o : Option A) (test : A → Bool) (a : A)
    → (elim o [ none ↦ false | some a ↦ test a ]) ≡ true
    → o ≡ some a
    → test a ≡ true
known none test a h e = cc
known (some b) test a h e = let same : b ≡ a = cc in rw (← same) h

-- What `verify_contact` requires of a contact.
pub verify_contact_lem :
    (r : Runtime) (id : ℕ) (p : Pointer)
    → verify_contact r id p ≡ true
    → (contact : Contact) × (read in_contacts r p ≡ some contact)
      × (contact.id ≡ id)
      × (pointer by_id in_contacts r id ≡ some p)
      × (channel : Pointer) × (pointer by_id in_channels r contact.default_channel_id
          ≡ some channel)
unfolding verify_contact
verify_contact_lem r id p h =
    let (contact, is, h1) = guarded (read in_contacts r p) _ h in
    let (same, h2) = both (contact.id == id) _ h1 in
    let (live, h3) = both (points_to (pointer by_id in_contacts r id) p) _ h2 in
    let (channel, has) =
      found (pointer by_id in_channels r contact.default_channel_id) (both _ _ h3).0 in
    (
      contact,
      is,
      same_id contact.id id same,
      target (pointer by_id in_contacts r id) p live,
      channel,
      has,
    )

-- The check of a recipient of an escalation of a rule that is live.
checked_recipient :
    (r : Runtime) (id eid : ℕ) (p ep rp : Pointer) (rule : RuleElement)
    (escalation : EscalationElement) (er : RecipientElement)
    → verify_rule r id p ≡ true
    → read in_rules r p ≡ some rule
    → Member (eid, ep) rule.escalations
    → read in_rule_escalations r ep ≡ some escalation
    → Member rp escalation.recipients
    → read in_rule_escalation_recipients r rp ≡ some er
    → (escalation.rule_id ≡ id) × (er.escalation_id ≡ eid) × (verify_target r er ≡ true)
unfolding verify_rule verify_escalation verify_recipient
checked_recipient r id eid p ep rp rule escalation er h is_rule in_rule is_escalation in_escalation
      is_recipient =
    let h0 = known (read in_rules r p) _ rule h is_rule in
    let (same_rule, h1) = both (rule.id == id) _ h0 in
    let h2 =
      sixth (rule.id == id) (points_to (pointer by_id in_rules r id) p)
        (present rule.time_period_id rule.time_period)
        (if_present rule.time_period (verify_time_period r (int_of rule.time_period_id)))
        (present rule.object_filter_expr rule.object_filter) _ h0 in
    let e = all-Member {A = ℕ × Pointer} (λ e. verify_escalation r rule.id e) in_rule h2 in
    let e0 = known (read in_rule_escalations r ep) _ escalation e is_escalation in
    let (same_eid, e1) = both (escalation.id == eid) _ e0 in
    let (same_rid, e2) = both (escalation.rule_id == rule.id) _ e1 in
    let x = all-Member (λ x. verify_recipient r escalation.id x) in_escalation (both _ _ e2).1 in
    let x0 = known (read in_rule_escalation_recipients r rp) _ er x is_recipient in
    let (same_e, valid) = both (er.escalation_id == escalation.id) _ x0 in
    (
      same_id escalation.rule_id rule.id same_rid ∙ same_id rule.id id same_rule,
      same_id er.escalation_id escalation.id same_e ∙ same_id escalation.id eid same_eid,
      valid,
    )

live_rule :
    (r : Runtime) (id : ℕ) (p : Pointer)
    → debug_verify r ≡ true
    → Member (id, p) r.rules.entries
    → verify_rule r id p ≡ true
unfolding debug_verify
live_rule r id p h m =
    all-Member {A = ℕ × Pointer} (λ e. verify_rule r e.0 e.1) m
      (sixth (all {A = ℕ × Pointer} (λ e. verify_contact r e.0 e.1) r.contacts.entries)
        (all {A = ℕ × Pointer} (λ e. verify_contact_address r e.0 e.1) r.contact_addresses.entries)
        (all {A = ℕ × Pointer} (λ e. verify_group r e.0 e.1) r.groups.entries)
        (all {A = ℕ × Pointer} (λ e. verify_time_period r e.0 e.1) r.time_periods.entries)
        (all {A = ℕ × Pointer} (λ e. verify_schedule r e.0 e.1) r.schedules.entries)
        (all {A = ℕ × Pointer} (λ e. verify_rule r e.0 e.1) r.rules.entries)
        (both (all {A = ℕ × Pointer} (λ e. verify_channel r e.0 e.1) r.channels.entries) _ h).1)

-- In a configuration that debugVerify accepts, a recipient of an escalation of a live rule belongs to
-- this escalation, which belongs to this rule; and if it is a contact, this is the live contact with the
-- id of the recipient, and its default channel is live.
pub debug_verify_contact :
    (r : Runtime) (id eid : ℕ) (p ep rp : Pointer) (rule : RuleElement)
    (escalation : EscalationElement) (er : RecipientElement) (c : Pointer)
    → debug_verify r ≡ true
    → Member (id, p) r.rules.entries
    → read in_rules r p ≡ some rule
    → Member (eid, ep) rule.escalations
    → read in_rule_escalations r ep ≡ some escalation
    → Member rp escalation.recipients
    → read in_rule_escalation_recipients r rp ≡ some er
    → er.recipient ≡ some (to_contact c)
    → (escalation.rule_id ≡ id)
      × (er.escalation_id ≡ eid)
      × (contact : Contact) × (read in_contacts r c ≡ some contact)
      × (contact.id ≡ int_of er.key.contact_id)
      × (pointer by_id in_contacts r contact.id ≡ some c)
      × (channel : Pointer) × (pointer by_id in_channels r contact.default_channel_id
          ≡ some channel)
unfolding verify_target
debug_verify_contact r id eid p ep rp rule escalation er c h in_rules_ is_rule in_rule is_escalation
      in_escalation is_recipient is_contact =
    let (of_rule, of_escalation, valid) =
      checked_recipient r id eid p ep rp rule escalation er (live_rule r id p h in_rules_) is_rule
        in_rule is_escalation in_escalation is_recipient in
    let valid_contact : verify_contact r (int_of er.key.contact_id) c ≡ true =
      rw (is_contact) at valid in
    let (contact, is, same, live, channel, has) =
      verify_contact_lem r (int_of er.key.contact_id) c valid_contact in
    (of_rule, of_escalation, contact, is, same, rw (same) live, channel, has)
