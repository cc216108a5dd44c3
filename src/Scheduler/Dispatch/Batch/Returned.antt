-- ===== src/Scheduler/Dispatch/Batch/Returned.antt =====
-- infra/engine/scheduler/task_dispatcher.go, `decPerWfActive`: what a slot given back does to the
-- counters.
use vibeflow.Prelude.{
  ℕ, ◌≡◌, sym, ap, ◌∙◌, Bool, true, false, String, none, some, ℤ, pos, negsuc, ◌+ℤ◌, int_laws,
  arith, lookup, insert, delete, lookup-insert, lookup-delete, string_eq, beq_refl, ◌==◌,
  if◌then◌else◌, if_true, if_false, Bool-cases, inl, inr, subst,
}
use vibeflow.Scheduler.Dispatch.{Slots, dec_wf, add_global, wf_active, or_zero, is_zero}
use vibeflow.Scheduler.Dispatch.Batch.{give_back}

-- One if the test holds.
abbrev pub one_if : Bool → ℕ
one_if b = if b then 1 else 0

pub given_back-global :
    (name : String) (s : Slots) → (give_back true name s).global_active +ℤ pos 1 ≡ s.global_active
unfolding give_back dec_wf add_global
given_back-global name s = grind int_laws

zero_left : (n : ℤ) → is_zero (n +ℤ negsuc 0) ≡ true → n ≡ pos 1
zero_left n h = let e : n +ℤ negsuc 0 ≡ pos 0 = ground (arith, h) in grind (int_laws, e)

dec_wf-same :
    (uuid : String) (s : Slots) → wf_active uuid (dec_wf uuid s) +ℤ pos 1 ≡ wf_active uuid s
unfolding dec_wf
dec_wf-same uuid s =
    let left = wf_active uuid s +ℤ negsuc 0 in
    elim (Bool-cases (is_zero left)) [
      | inl z ↦
          let gone : lookup uuid (delete uuid s.per_wf_active) ≡ none =
            lookup-delete uuid uuid s.per_wf_active ∙ if_true _ _ _ (beq_refl uuid) in
          rw z (grind (int_laws, ap or_zero gone, zero_left (wf_active uuid s) z))
      | inr more ↦
          let kept : lookup uuid (insert uuid left s.per_wf_active) ≡ some left =
            lookup-insert uuid uuid left s.per_wf_active ∙ if_true _ _ _ (beq_refl uuid) in
          rw more (grind (int_laws, ap or_zero kept))
    ]

dec_wf-other :
    (uuid name : String) (s : Slots)
    → (name == uuid) ≡ false
    → wf_active uuid (dec_wf name s) ≡ wf_active uuid s
unfolding dec_wf
dec_wf-other uuid name s other =
    let left = wf_active name s +ℤ negsuc 0 in
    elim (Bool-cases (is_zero left)) [
      | inl z ↦ rw z (ap or_zero (lookup-delete name uuid s.per_wf_active ∙ if_false _ _ _ other))
      | inr more ↦
          rw more (ap or_zero (lookup-insert name uuid left s.per_wf_active ∙ if_false _ _ _ other))
    ]

pub given_back-workflow :
    (uuid name : String) (s : Slots)
    → wf_active uuid (give_back true name s) +ℤ pos (one_if (name == uuid)) ≡ wf_active uuid s
unfolding give_back add_global
given_back-workflow uuid name s =
    let t = add_global (negsuc 0) s in
    elim (Bool-cases (name == uuid)) [
      | inl same ↦
          let e : name ≡ uuid = (string_eq.beq_iff name uuid).0 same in
          let down =
            subst (λ x. wf_active uuid (dec_wf x t) +ℤ pos 1 ≡ wf_active uuid t) (sym e)
              (dec_wf-same uuid t) in
          rw same (grind (int_laws, down))
      | inr other ↦ rw other (grind (int_laws, dec_wf-other uuid name t other))
    ]
