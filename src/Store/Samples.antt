-- ===== src/Store/Samples.antt =====
-- The theorem on the scan for a task's name at a small record.
use vibeflow.Prelude.{◌≡◌, ◌↔◌, false, [], ◌∷◌, any}
use vibeflow.Store.Scan.{Text, in_hex, extract_task_name, serialize}
use vibeflow.Store.Scan.Mangled.{extract_task_name-serialize_iff}

-- `u"task_name`
abbrev workflow_id : Text
workflow_id = 117 ∷ 34 ∷ 116 ∷ 97 ∷ 115 ∷ 107 ∷ 95 ∷ 110 ∷ 97 ∷ 109 ∷ 101 ∷ []

-- `a"b`
abbrev quoted : Text
quoted = 97 ∷ 34 ∷ 98 ∷ []

extract_task_name-serialize_example :
    (extract_task_name (serialize workflow_id quoted (125 ∷ [])) ≡ quoted)
    ↔ (any in_hex quoted ≡ false)
extract_task_name-serialize_example = extract_task_name-serialize_iff workflow_id quoted (125 ∷ [])
