-- ===== src/Runtime/Overdeleted.antt =====
-- internal/config/rule.go: the removal of a recipient of an escalation.
use icinga_notifications.Prelude.{
  ℕ, zero, suc, ◌≡◌, refl, true, some, List, [], ◌∷◌, ◌==◌, All, get_elem?, arith, ◌∙◌,
}
use icinga_notifications.Runtime.Tables.{Pointer, load, modify, modify_at}
use icinga_notifications.Runtime.Elements.{EscalationElement, RecipientElement}
use icinga_notifications.Runtime.State.{
  Runtime, in_rule_escalations, in_rule_escalation_recipients, read, assign, delete_where,
  escalation_pointer,
}
use icinga_notifications.Runtime.Pending.Rules.{remove_recipient}

pub get_elem-modify_at :
    {A : Type 0} (f : A → A) (l : List A) (p : Pointer) (a : A)
    → get_elem? l p ≡ some a
    → get_elem? (modify_at f l p) p ≡ some (f a)
unfolding modify_at
get_elem-modify_at f [] p a h = cc
get_elem-modify_at f (b ∷ l) zero a h = let e : b ≡ a = cc in rw e refl
get_elem-modify_at f (b ∷ l) (suc p) a h = get_elem-modify_at f l p a h

-- A recipient that belongs to an escalation.
abbrev pub BelongsTo : Runtime → ℕ → Pointer → Type 0
BelongsTo r escalation p =
    (er : RecipientElement) × (read in_rule_escalation_recipients r p ≡ some er)
    × (er.escalation_id ≡ escalation)

delete_where-BelongsTo :
    (r : Runtime) (escalation : ℕ) (ps : List Pointer)
    → All (BelongsTo r escalation) ps
    → delete_where r.rule_escalation_recipients (λ y. y.escalation_id == escalation) ps ≡ []
unfolding delete_where read
delete_where-BelongsTo r escalation [] h = refl
delete_where-BelongsTo r escalation (p ∷ ps) ((er, is, same), h) =
    let eq : (er.escalation_id == escalation) ≡ true = ground arith in
    rw (is, eq, delete_where) (delete_where-BelongsTo r escalation ps h)

-- If every recipient of an escalation belongs to it, then the removal of one of its recipients removes
-- all of them.
pub remove_recipient_removes_every :
    (r : Runtime) (p e : Pointer) (er : RecipientElement) (escalation : EscalationElement)
    → read in_rule_escalation_recipients r p ≡ some er
    → escalation_pointer r er.escalation_id ≡ some e
    → read in_rule_escalations r e ≡ some escalation
    → All (BelongsTo r er.escalation_id) escalation.recipients
    → ((remove_recipient p r).0 ≡ true)
      × (read in_rule_escalations (remove_recipient p r).1 e
          ≡ some (record escalation { recipients = [] }))
unfolding remove_recipient read load assign modify
remove_recipient_removes_every r p e er escalation is is_of is_escalation all_belong = (
  rw (is, is_of, remove_recipient) refl,
  rw (is, is_of, remove_recipient)
      (get_elem-modify_at _ r.rule_escalations.elements e escalation is_escalation
        ∙ rw (delete_where-BelongsTo r er.escalation_id escalation.recipients all_belong) refl),
)
