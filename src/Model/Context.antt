-- ===== src/Model/Context.antt =====
-- domain/model/context.go: the variables that tasks pass on, and the keys that steer the workflow.
-- Each method holds the context's lock, so it is one step. `GetFloat64` is not modelled.
pub mod Laws
use vibeflow.Prelude.{
  ◌≡◌, Bool, true, false, String, List, [], ◌∷◌, Option, none, some, ℤ, pos, lookup, insert,
  string_eq,
}
use vibeflow.Model.Value.{
  Value, bool, int, int64, float64, number, string, strings, slice, object, Values, end, item,
  Output, entries,
}

abbrev pub skip_groups_key : String
skip_groups_key = "__vibeflow_skip_groups"

abbrev pub branch_key : String
branch_key = "__vibeflow_branch"

abbrev pub approval_key : String
approval_key = "__vibeflow_approval"

-- `NewContextWith` and `NewContextFromMap` give the same variables.
pub record Context : Type 0 where
  pub vars : Output

abbrev pub new_context : Context
new_context = record { vars = [] }

abbrev pub new_context_from_map : Output → Context
new_context_from_map vars = record { vars = vars }

unfoldable pub set : String → Value → Context → Context
set key value c = record { vars = insert key value c.vars }

unfoldable pub get : String → Context → Option Value
get key c = lookup key c.vars

infixl 5 ◌>>=◌
abbrev ◌>>=◌ : {A B : Type 0} → Option A → (A → Option B) → Option B
none >>= f = none
some a >>= f = f a

as_string : Value → Option String
as_string (string s) = some s
as_string _ = none

-- `none` is the code's answer `ok == false`.
unfoldable pub get_string : String → Context → Option String
unfolding get as_string
get_string key c = do v ← get key c; as_string v

as_int : Value → Option ℤ
as_int (int n) = some n
as_int (int64 n) = some n
as_int (float64 n r) = some n
as_int (number o) = o
as_int _ = none

-- `GetInt` and `GetInt64`, which read the same on a 64-bit machine.
unfoldable pub get_int : String → Context → Option ℤ
unfolding get as_int
get_int key c = do v ← get key c; as_int v

as_bool : Value → Option Bool
as_bool (bool b) = some b
as_bool _ = none

unfoldable pub get_bool : String → Context → Option Bool
unfolding get as_bool
get_bool key c = do v ← get key c; as_bool v

string_items : Values → Option (List String)
string_items end = some []
string_items (item (string s) vs) = do ss ← string_items vs; some (s ∷ ss)
string_items (item _ vs) = none

as_strings : Value → Option (List String)
unfolding string_items
as_strings (slice vs) = string_items vs
as_strings (strings ss) = some ss
as_strings _ = none

pub get_string_slice : String → Context → Option (List String)
unfolding get as_strings
get_string_slice key c = do v ← get key c; as_strings v

as_map : Value → Option Output
as_map (object fs) = some (entries fs)
as_map _ = none

pub get_map : String → Context → Option Output
unfolding get as_map
get_map key c = do v ← get key c; as_map v

unfoldable pub skip_groups : ℤ → Context → Context
unfolding set
skip_groups n c = set skip_groups_key (int n) c

skip_value : Option Value → ℤ
skip_value (some (float64 n r)) = n
skip_value (some (int n)) = n
skip_value (some (int64 n)) = n
skip_value _ = pos 0

unfoldable pub get_skip_groups : Context → ℤ
unfolding get skip_value
get_skip_groups c = skip_value (get skip_groups_key c)

unfoldable pub set_branch : String → Context → Context
unfolding set
set_branch name c = set branch_key (string name) c

string_or_empty : Option Value → String
string_or_empty (some (string s)) = s
string_or_empty _ = ""

unfoldable pub get_branch : Context → String
unfolding get string_or_empty
get_branch c = string_or_empty (get branch_key c)

unfoldable pub set_approval : String → Context → Context
unfolding set
set_approval msg c = set approval_key (string msg) c

unfoldable pub get_approval : Context → String
unfolding get string_or_empty
get_approval c = string_or_empty (get approval_key c)
