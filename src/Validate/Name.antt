-- ===== src/Validate/Name.antt =====
-- `validateWorkflowName` (infra/engine/scheduler/types.go). `len` counts bytes, and the loop runs
-- over code points, as Go's do on valid UTF-8.
use Prim.Native.Char.{code}
use Prim.Native.String
use vibeflow.Prelude.{
  ℕ, ◌≤◌, ◌≡◌, refl, Bool, true, false, ◌&&◌, ◌||◌, String, List, [], ◌∷◌, Option, none, some, leb,
  ltb, nat_beq, if◌then◌else◌, ◌==◌, string_eq, arith, all, ◌↔◌, ◌⊎◌, ◌≢◌, inl,
}

pub data NameError : Type 0 where
  empty too_long : NameError
  bad_char : ℕ → NameError

-- The code points of a text.
abbrev pub codes : String → List ℕ
codes String.[] = []
codes (String.◌∷◌ c s) = code c ∷ codes s

unfoldable pub is_name_char : ℕ → Bool
is_name_char c =
    (leb b'a' c && leb c b'z')
    || (leb b'A' c && leb c b'Z')
    || (leb b'0' c && leb c b'9')
    || nat_beq c b'_'
    || nat_beq c b'-'

char_error : List ℕ → Option NameError
char_error [] = none
char_error (c ∷ cs) = let rest = char_error cs in if is_name_char c then rest else some (bad_char c)

-- `none` is the nil error.
unfoldable pub validate_workflow_name : String → Option NameError
unfolding char_error
validate_workflow_name name =
    if name == ""
    then some empty
    else if ltb 128 (String.len name)
    then some too_long
    else char_error (codes name)

char_error_iff_all :
    (cs : List ℕ)
    → (char_error cs ≡ none) × (all is_name_char cs ≡ true)
      ⊎ (char_error cs ≢ none) × (all is_name_char cs ≡ false)
unfolding char_error all
char_error_iff_all [] = inl (refl, refl)
char_error_iff_all (c ∷ cs) = ground (arith, char_error_iff_all cs)

-- A name is accepted exactly when it is not empty, takes at most 128 bytes, and every one of its
-- characters is an ASCII letter, a digit, an underscore or a hyphen.
pub validate_workflow_name_iff :
    (name : String)
    → (validate_workflow_name name ≡ none)
      ↔ ((name ≢ "") × (String.len name ≤ 128) × (all is_name_char (codes name) ≡ true))
unfolding validate_workflow_name
validate_workflow_name_iff name = (
  λ h. (
    ground (arith, string_eq.beq_iff name ""),
    ground (arith, string_eq.beq_iff name ""),
    ground (arith, char_error_iff_all (codes name)),
  ),
  λ h. ground (arith, string_eq.beq_iff name "", char_error_iff_all (codes name)),
)
