-- ===== src/Store/Scan.antt =====
-- infra/store/model.go: the task's name in the text of its record. A text is the list of its code points, with
-- `1114112 + b` for a byte `b` that is of no valid UTF-8: the scan looks for bytes below 128 only, which
-- are code points of their own. A record is written with its first two fields by the JSON library, as
-- `Serialize` does.
pub mod Coded
pub mod Found
pub mod Mangled
use vibeflow.Prelude.{
  ℕ, ◌+◌, ◌/◌, ◌%◌, Bool, true, false, ◌||◌, List, [], ◌∷◌, ◌++◌, Map, Option, none, some, lookup,
  nat_eq, nat_beq, ltb, if◌then◌else◌,
}

abbrev pub Text : Type 0
Text = List ℕ

-- What follows the prefix.
unfoldable pub after_prefix : Text → Text → Option Text
after_prefix [] t = some t
after_prefix (c ∷ cs) [] = none
after_prefix (c ∷ cs) (d ∷ ds) = let rest = after_prefix cs ds in if nat_beq c d then rest else none

-- What follows the first occurrence, which `strings.Index` finds.
unfoldable pub after_first : Text → Text → Option Text
unfolding after_prefix
after_first p [] = after_prefix p []
after_first p (c ∷ cs) =
    let later = after_first p cs in
    elim (after_prefix p (c ∷ cs)) [ none ↦ later | some rest ↦ some rest ]

unfoldable pub skip_blanks : Text → Text
skip_blanks [] = []
skip_blanks (c ∷ cs) =
    let rest = skip_blanks cs in if nat_beq c 32 || nat_beq c 9 then rest else c ∷ cs

abbrev pub longer : ℕ → Option Text → Option Text
longer c none = none
longer c (some t) = some (c ∷ t)

-- Up to the closing quote, a byte after a backslash as it is; whether such a byte is next is the first
-- argument. `none`: there is no closing quote.
unfoldable pub read_text : Bool → Text → Option Text
read_text escaped [] = none
read_text true (c ∷ cs) = longer c (read_text false cs)
read_text false (c ∷ cs) =
    let rest = read_text (nat_beq c 92) cs in
    if nat_beq c 92 then rest else if nat_beq c 34 then some [] else longer c rest

abbrev pub text_or_empty : Option Text → Text
text_or_empty none = []
text_or_empty (some t) = t

unfoldable pub read_value : Text → Text
unfolding read_text
read_value [] = []
read_value (c ∷ cs) = let t = text_or_empty (read_text false cs) in if nat_beq c 34 then t else []

-- `extractJSONField`.
unfoldable pub extract_json_field : Text → Text → Text
unfolding after_first skip_blanks read_value
extract_json_field text key = elim (after_first (34 ∷ key ++ 34 ∷ 58 ∷ []) text) [
  | none ↦ []
  | some rest ↦ read_value (skip_blanks rest)
]

-- `task_name`
abbrev pub task_name_key : Text
task_name_key = 116 ∷ 97 ∷ 115 ∷ 107 ∷ 95 ∷ 110 ∷ 97 ∷ 109 ∷ 101 ∷ []

-- `workflow_id`
abbrev pub workflow_id_key : Text
workflow_id_key = 119 ∷ 111 ∷ 114 ∷ 107 ∷ 102 ∷ 108 ∷ 111 ∷ 119 ∷ 95 ∷ 105 ∷ 100 ∷ []

unfoldable pub extract_task_name : Text → Text
unfolding extract_json_field
extract_task_name text = extract_json_field text task_name_key

unfoldable pub extract_workflow_uuid : Text → Text
unfolding extract_json_field
extract_workflow_uuid text = extract_json_field text workflow_id_key

abbrev pub hex_digit : ℕ → ℕ
hex_digit n = if ltb n 10 then 48 + n else 87 + n

-- The short forms, by the letter after the backslash.
abbrev pub short_forms : Map ℕ ℕ
short_forms = (34, 34) ∷ (92, 92) ∷ (8, 98) ∷ (9, 116) ∷ (10, 110) ∷ (12, 102) ∷ (13, 114) ∷ []

-- The code points that are written in hexadecimal: control characters, `&`, `<` and `>`, U+2028, U+2029,
-- and the bytes that are not valid.
abbrev pub in_hex : ℕ → Bool
in_hex c =
    ltb c 32
    || (nat_beq c 38
        || (nat_beq c 60
            || (nat_beq c 62 || (nat_beq c 8232 || (nat_beq c 8233 || ltb 1114111 c)))))

-- A byte that is not valid is written as U+FFFD.
abbrev pub shown_point : ℕ → ℕ
shown_point c = if ltb 1114111 c then 65533 else c

abbrev pub hex_digits : ℕ → Text
hex_digits c =
    hex_digit (c / 4096 % 16)
    ∷ hex_digit (c / 256 % 16)
    ∷ hex_digit (c / 16 % 16)
    ∷ hex_digit (c % 16)
    ∷ []

-- The letters after the backslash of an escaped code point: a short form, or `u` and four digits.
unfoldable pub escaped_as : ℕ → Option Text
escaped_as c = elim (lookup c short_forms) [
  | some a ↦ some (a ∷ [])
  | none ↦ if in_hex c then some (117 ∷ hex_digits (shown_point c)) else none
]

unfoldable pub escape_code : ℕ → Text
unfolding escaped_as
escape_code c = elim (escaped_as c) [ none ↦ c ∷ [] | some t ↦ 92 ∷ t ]

unfoldable pub escape : Text → Text
unfolding escape_code
escape [] = []
escape (c ∷ cs) = escape_code c ++ escape cs

abbrev pub string_member : Text → Text → Text → Text
string_member key value rest = 34 ∷ key ++ 34 ∷ 58 ∷ 34 ∷ escape value ++ 34 ∷ rest

-- `Serialize`, up to the task's name.
unfoldable pub serialize : Text → Text → Text → Text
unfolding escape
serialize workflow_id task_name rest =
    123
    ∷ string_member workflow_id_key workflow_id (44 ∷ string_member task_name_key task_name rest)
