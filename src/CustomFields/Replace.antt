-- ===== src/CustomFields/Replace.antt =====
-- `_replace_one_field` and `replace_custom_value` of custom_fields.py.
use password_bonobo.Prelude.{◌+◌, ◌≡◌, Bool, Option, List, if◌then◌else◌}
use password_bonobo.Prelude.Bytes.{Bytes}
use password_bonobo.CustomFields.{CustomField}
use password_bonobo.CustomFields.Keeps.{targets, Edited}

-- The edited fields, and one target in all, an earlier one included.
record IsReplaced (name value : Bytes) (sensitive : Option Bool) (found : Bool)
    (fields out : List CustomField) : Type 0 where
  edited : Edited name value sensitive fields out
  single : targets name fields + (if found then 1 else 0) ≡ 1
