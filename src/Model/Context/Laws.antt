-- ===== src/Model/Context/Laws.antt =====
-- The control marks of a task context (domain/model/context.go) do not disturb one another.
use vibeflow.Prelude.{◌≡◌, String, ℤ, lookup-insert}
use vibeflow.Model.Context.{
  Context, set_branch, set_approval, skip_groups, get_branch, get_approval, get_skip_groups,
}

-- Each control mark reads back as it was set, and setting one leaves the other two as they were.
pub control_marks :
    (name msg : String) (n : ℤ) (c : Context)
    → (get_branch (set_branch name c) ≡ name)
      × (get_approval (set_approval msg c) ≡ msg)
      × (get_skip_groups (skip_groups n c) ≡ n)
      × (get_approval (set_branch name c) ≡ get_approval c)
      × (get_skip_groups (set_branch name c) ≡ get_skip_groups c)
      × (get_branch (set_approval msg c) ≡ get_branch c)
      × (get_skip_groups (set_approval msg c) ≡ get_skip_groups c)
      × (get_branch (skip_groups n c) ≡ get_branch c)
      × (get_approval (skip_groups n c) ≡ get_approval c)
unfolding set_branch set_approval skip_groups get_branch get_approval get_skip_groups
control_marks name msg n c = (
  simp lookup-insert,
  simp lookup-insert,
  simp lookup-insert,
  simp lookup-insert,
  simp lookup-insert,
  simp lookup-insert,
  simp lookup-insert,
  simp lookup-insert,
  simp lookup-insert,
)
