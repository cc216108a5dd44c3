-- ===== src/Store/Scan/Mangled.antt =====
-- infra/store/model.go: when the scan answers with the name of a task.
use vibeflow.Prelude.{
  ℕ, ◌≤◌, ◌≡◌, ◌↔◌, refl, sym, ap, ◌∙◌, Bool, true, false, ◌||◌, [], ◌∷◌, ◌++◌, Option, none, some,
  lookup, nat_eq, nat_beq, if_true, if_false, length, length-append, any, arith, Option-cases,
  Bool-cases, inl, inr,
}
use vibeflow.Store.Scan.{
  Text, after_prefix, after_first, skip_blanks, text_or_empty, read_value, extract_json_field,
  task_name_key, extract_task_name, hex_digits, shown_point, short_forms, in_hex, escaped_as,
  escape, string_member, serialize,
}
use vibeflow.Store.Scan.Coded.{mangled_code, mangled, Letters, coded, read_text-escape}
use vibeflow.Store.Scan.Found.{then_comma, unfound, key_mark, pass_before, pass-value}

task_name_key-Letters : Letters task_name_key
task_name_key-Letters = (
  refl,
  refl,
  (
    refl,
    refl,
    (
      refl,
      refl,
      (refl, refl, (refl, refl, (refl, refl, (refl, refl, (refl, refl, (refl, refl, tt)))))),
    ),
  ),
)

found-name :
    (workflow_id task_name rest : Text)
    → after_first (34 ∷ task_name_key ++ 34 ∷ 58 ∷ []) (serialize workflow_id task_name rest)
      ≡ some (34 ∷ escape task_name ++ 34 ∷ rest)
unfolding serialize after_first after_prefix key_mark
found-name workflow_id task_name rest =
    let t = string_member task_name_key task_name rest in
    pass_before t task_name_key task_name_key-Letters 34 (then_comma workflow_id t)
      (unfound t task_name_key [] workflow_id task_name_key-Letters tt)
    ∙ pass-value t task_name_key task_name_key-Letters workflow_id

-- What the scan finds in a record that was written.
extract_task_name-serialize :
    (workflow_id task_name rest : Text)
    → extract_task_name (serialize workflow_id task_name rest) ≡ mangled task_name
unfolding extract_task_name extract_json_field read_value skip_blanks
extract_task_name-serialize workflow_id task_name rest =
    ap
      (λ (o : Option Text). elim o as (λ _. Text) [
        | none ↦ []
        | some r ↦ read_value (skip_blanks r)
      ])
      (found-name workflow_id task_name rest)
    ∙ ap text_or_empty (read_text-escape task_name rest)

length-mangled : (w : Text) → length w ≤ length (mangled w)
unfolding mangled
length-mangled [] = omega arith
length-mangled (c ∷ w) =
    let rest = length-mangled w in
    elim (coded c) [
      | inl (e, m, q, b) ↦ rw m (omega (arith, rest))
      | inr (a, as', e, m, l) ↦ rw m (omega (arith, rest, length-append as' (mangled w)))
    ]

kept_form : (c a : ℕ) → lookup c short_forms ≡ some a → in_hex c ≡ false → a ≡ c
unfolding lookup
kept_form c a n h = ground (arith, n, h)

lost_form : (c a : ℕ) → lookup c short_forms ≡ some a → in_hex c ≡ true → nat_beq a c ≡ false
unfolding lookup
lost_form c a n h = ground (arith, n, h)

code_of :
    (c : ℕ) (o : Option Text)
    → escaped_as c ≡ o
    → mangled_code c ≡ (elim o [ none ↦ c ∷ [] | some t ↦ t ])
unfolding mangled_code
code_of c o h = ap (λ (x : Option Text). elim x as (λ _. Text) [ none ↦ c ∷ [] | some t ↦ t ]) h

short_code : (c a : ℕ) → lookup c short_forms ≡ some a → mangled_code c ≡ a ∷ []
unfolding escaped_as
short_code c a n = code_of c (some (a ∷ [])) (rw (n, escaped_as) refl)

hex_code :
    (c : ℕ)
    → lookup c short_forms ≡ none
    → in_hex c ≡ true
    → mangled_code c ≡ 117 ∷ hex_digits (shown_point c)
unfolding escaped_as
hex_code c n h =
    code_of c (some (117 ∷ hex_digits (shown_point c))) (rw (n, escaped_as) (if_true _ _ _ h))

kept_code : (c : ℕ) → in_hex c ≡ false → mangled_code c ≡ c ∷ []
unfolding escaped_as
kept_code c h = elim (Option-cases (lookup c short_forms)) [
  | inl n ↦ code_of c none (rw (n, escaped_as) (if_false _ _ _ h))
  | inr (a, n) ↦ short_code c a n ∙ ap (λ x. x ∷ []) (kept_form c a n h)
]

lost_code : (c : ℕ) (w : Text) → in_hex c ≡ true → ¬ (mangled_code c ++ mangled w ≡ c ∷ w)
lost_code c w h same = elim (Option-cases (lookup c short_forms)) [
  | inl n ↦
      let long = ap (λ x. length (x ++ mangled w)) (sym (hex_code c n h)) ∙ ap length same in
      omega (arith, long, length-mangled w)
  | inr (a, n) ↦
      let other = lost_form c a n h in
      let both : a ∷ mangled w ≡ c ∷ w = ap (λ x. x ++ mangled w) (sym (short_code c a n)) ∙ same in
      let head : a ≡ c = cc in absurd (ground (arith, other, head))
]

unmangled : (w : Text) → mangled w ≡ w → any in_hex w ≡ false
unfolding any mangled
unmangled [] h = refl
unmangled (c ∷ w) h = elim (Bool-cases (in_hex c)) [
  | inl b ↦ absurd (lost_code c w b h)
  | inr b ↦
      let both : c ∷ mangled w ≡ c ∷ w = ap (λ x. x ++ mangled w) (sym (kept_code c b)) ∙ h in
      let rest : mangled w ≡ w = cc in ap (λ x. x || any in_hex w) b ∙ unmangled w rest
]

both_false : (a b : Bool) → (a || b) ≡ false → (a ≡ false) × (b ≡ false)
both_false true b h = absurd (cc)
both_false false b h = (refl, h)

mangled-kept : (w : Text) → any in_hex w ≡ false → mangled w ≡ w
unfolding any mangled
mangled-kept [] h = refl
mangled-kept (c ∷ w) h =
    let (kept, rest) = both_false (in_hex c) (any in_hex w) h in
    ap (λ x. x ++ mangled w) (kept_code c kept) ∙ ap (λ x. c ∷ x) (mangled-kept w rest)

-- A record that is written with a task's name gives the same name to the scan if and only if the name
-- has no character below U+0020, none of `&`, `<`, `>`, U+2028 and U+2029, and no byte that is not of valid
-- UTF-8, whatever the UUID of the workflow is.
pub extract_task_name-serialize_iff :
    (workflow_id task_name rest : Text)
    → (extract_task_name (serialize workflow_id task_name rest) ≡ task_name)
      ↔ (any in_hex task_name ≡ false)
extract_task_name-serialize_iff workflow_id task_name rest = (
  λ h. unmangled task_name (sym (extract_task_name-serialize workflow_id task_name rest) ∙ h),
  λ h. extract_task_name-serialize workflow_id task_name rest ∙ mangled-kept task_name h,
)
