-- ===== src/Incident/Role.antt =====
-- internal/incident/contact_role.go
use icinga_notifications.Prelude.{ℕ, Option, List, [], ◌∷◌, Result, ◌==◌, if◌then◌else◌}
use icinga_notifications.Prelude.Bytes.{Bytes, codes}
use icinga_notifications.Named.{DbValue, null, NameError, value_of, name_of, scan_text, text_of}

pub data ContactRole : Type 0 where
  role_none role_recipient role_subscriber role_manager : ContactRole

-- The constant's value, by `iota`.
unfoldable pub role_rank : ContactRole → ℕ
role_rank role_none = 0
role_rank role_recipient = 1
role_rank role_subscriber = 2
role_rank role_manager = 3

unfoldable pub contact_role_by_name : List (Bytes × ContactRole)
contact_role_by_name =
    (codes "recipient", role_recipient)
    ∷ (codes "subscriber", role_subscriber)
    ∷ (codes "manager", role_manager)
    ∷ []

unfoldable pub contact_role_to_name : ContactRole → Option Bytes
unfolding contact_role_by_name role_rank name_of
contact_role_to_name r = name_of role_rank contact_role_by_name (role_rank r)

-- The method tests its receiver for nil where its siblings test the value, so NULL is an error.
unfoldable pub scan_role : DbValue → Result NameError ContactRole
unfolding contact_role_by_name scan_text value_of
scan_role src = scan_text contact_role_by_name src

unfoldable pub role_value : ContactRole → DbValue
unfolding contact_role_to_name
role_value r = if role_rank r == 0 then null else text_of (contact_role_to_name r)
