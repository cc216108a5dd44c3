-- ===== src/Worker/Registry.antt =====
-- infra/engine/runtime/registry.go and domain/model/task.go: the tasks that a worker can run. What a
-- task does is user code: a value of `Handler`.
use vibeflow.Prelude.{
  Bool, false, String, List, [], ◌∷◌, Map, Option, none, some, lookup, insert, has, string_eq, ◌==◌,
  if◌then◌else◌, map,
}
use vibeflow.Model.Value.{Value}
use vibeflow.Model.Context.{Context}

-- What a call of user code ends with: no error, an error (and whether it wraps `ErrNoRetry`), or a
-- panic.
pub data Ended : Type 0 where
  fine : Ended
  failing : String → Bool → Ended
  panicking : String → Ended

-- From the parameters and the variables to the end and the variables then.
abbrev pub Handler : Type 0
Handler = Context → Context → Ended × Context

pub record Param : Type 0 where
  pub key : String
  pub label : String
  pub required : Bool
  pub default : Option Value

-- What the master is told of a task.
pub record TaskType : Type 0 where
  pub name : String
  pub description : String
  pub params : List Param

-- `Task`, with `OnRollback` where it is `Rollbackable`.
pub record Task : Type 0 where
  pub name : String
  pub params : List Param
  pub execute : Handler
  pub on_rollback : Option Handler

abbrev pub Registry : Type 0
Registry = Map String Task

pub data Registered : Type 0 where
  registered : Registered
  no_name : Registered
  without_default : String → String → Registered
  twice : String → Registered

lacks_default : Param → Bool
lacks_default p = elim p.default [ none ↦ p.required | some v ↦ false ]

-- `ValidateTaskParams`: the first required parameter that has no default.
unfoldable pub validate_task_params : List Param → Option Param
unfolding lacks_default
validate_task_params [] = none
validate_task_params (p ∷ ps) =
    let rest = validate_task_params ps in if lacks_default p then some p else rest

add_task : Task → Registry → Registry × Registered
add_task t r = if has t.name r then (r, twice t.name) else (insert t.name t r, registered)

-- `Register`.
unfoldable pub register : Task → Registry → Registry × Registered
unfolding validate_task_params add_task
register t r = if t.name == "" then (r, no_name) else elim (validate_task_params t.params) [
  | some p ↦ (r, without_default t.name p.key)
  | none ↦ add_task t r
]

-- `Get`.
unfoldable pub get : String → Registry → Option Task
get name r = lookup name r

-- `Registered`, in the map's order.
unfoldable pub names : Registry → List String
names r = map (λ e. e.0) r

-- `RegisteredTypes`.
unfoldable pub types : Registry → List TaskType
types r = map (λ e. record { name = e.1.name; description = ""; params = e.1.params }) r

abbrev pub or_no_hash : Option String → String
or_no_hash none = ""
or_no_hash (some h) = h

-- `TypesHash`; `digest` is SHA-256 of the JSON text, or the failure of the JSON library.
unfoldable pub types_hash : (List TaskType → Option String) → Registry → String
types_hash digest [] = ""
types_hash digest (t ∷ ts) = or_no_hash (digest (types (t ∷ ts)))
