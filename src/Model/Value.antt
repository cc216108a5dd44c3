-- ===== src/Model/Value.antt =====
-- Go's `any`, as far as the program meets it in task outputs and parameters, and the outputs.
use vibeflow.Prelude.{ℕ, Bool, String, List, [], ◌∷◌, Map, ℤ, Option}

-- `float64 n r` is a float whose integer part, as Go's conversion `int(f)` cuts it, is `n`; `r`
-- stands for the rest, which no code of the model reads. `number o` is a `json.Number` as what its
-- `Int64` answers.
mutual
  pub data Value : Type 0 where
    null : Value
    bool : Bool → Value
    int : ℤ → Value
    int64 : ℤ → Value
    float64 : ℤ → ℕ → Value
    number : Option ℤ → Value
    string : String → Value
    strings : List String → Value
    slice : Values → Value
    object : Fields → Value

  pub data Values : Type 0 where
    end : Values
    item : Value → Values → Values

  pub data Fields : Type 0 where
    empty : Fields
    field : String → Value → Fields → Fields

-- `map[string]any`.
abbrev pub Output : Type 0
Output = Map String Value

unfoldable pub entries : Fields → Output
entries empty = []
entries (field k v fs) = (k, v) ∷ entries fs

unfoldable pub items : Values → List Value
items end = []
items (item v vs) = v ∷ items vs
