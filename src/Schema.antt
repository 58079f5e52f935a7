-- ===== src/Schema.antt =====
-- `extractParameterSchema` and `inferParameterType` (frontend/src/components/ChatViewer.tsx): the rows
-- of the table of a tool's parameters.
mod Declared
mod Tests
use ailens.Base.Decimal.{decimal}
use ailens.Base.{
  ℕ, ◌+◌, String, Bool, true, false, ◌&&◌, ◌||◌, List, [], ◌∷◌, ◌++◌, Option, none, some, ◌==◌,
  string_has_eq, if◌then◌else◌,
}
use ailens.Value.{
  Value, undefined, null, str, obj, arr, Items, cons, nil, items, entries, opt_prop, truthy,
  nullish, or_else, is_array, is_object, is_text, is_str, string?, array?, text_of,
}

pub record ParameterInfo : Type 0 where
  pub name : String
  pub type : String
  pub required : Bool
  pub description : Option String
  pub default_value : Value

unfoldable pub infer_parameter_type : Value → String
infer_parameter_type property =
    if is_text (opt_prop "type" property)
    then text_of (opt_prop "type" property)
    else if is_array (opt_prop "enum" property)
    then "enum"
    else if is_text (opt_prop "$ref" property) && truthy (opt_prop "$ref" property)
    then "ref"
    else "any"

-- The `properties` of the schema itself, of its `parameters` or of its `input_schema`.
unfoldable pub properties_of : Value → Value
properties_of s =
    let in_parameters = opt_prop "properties" (opt_prop "parameters" s) in
    let in_input = opt_prop "properties" (opt_prop "input_schema" s) in
    if is_object (opt_prop "properties" s)
    then opt_prop "properties" s
    else or_else (if is_object (opt_prop "parameters" s) then in_parameters else null)
        (if is_object (opt_prop "input_schema" s) then in_input else null)

abbrev pub required_raw : Value → Value
required_raw s = nullish (opt_prop "required" s) (
    nullish (opt_prop "required" (opt_prop "parameters" s))
      (opt_prop "required" (opt_prop "input_schema" s)))

-- `requiredList.has(name)`
abbrev pub lists : String → List Value → Bool
lists name [] = false
lists name (v ∷ vs) = is_str v name || lists name vs

abbrev pub required_list : Value → List Value
required_list s = elim (array? (required_raw s)) [ none ↦ [] | some vs ↦ vs ]

-- `Object.entries` at a list, from an index on.
unfoldable pub indexed : ℕ → List Value → List (String × Value)
unfolding decimal
indexed i [] = []
indexed i (v ∷ vs) = (decimal i, v) ∷ indexed (i + 1) vs

abbrev pub entries_of : Value → List (String × Value)
unfolding indexed
entries_of (obj fs) = entries fs
entries_of (arr vs) = indexed 0 (items vs)
entries_of _ = []

unfoldable pub row : List Value → String → Value → ParameterInfo
unfolding infer_parameter_type
row required name property = record {
  name = name;
  type = infer_parameter_type property;
  required = lists name required;
  description = string? (opt_prop "description" property);
  default_value = opt_prop "default" property;
}

unfoldable pub rows : List Value → List (String × Value) → List ParameterInfo
unfolding row
rows required [] = []
rows required (e ∷ es) =
    let rest = rows required es in if is_object e.1 then row required e.0 e.1 ∷ rest else rest

unfoldable pub extract_parameter_schema : Value → List ParameterInfo
unfolding properties_of rows entries_of
extract_parameter_schema schema =
    if is_object schema then rows (required_list schema) (entries_of (properties_of schema)) else []
