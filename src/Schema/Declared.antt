-- ===== src/Schema/Declared.antt =====
-- The table of the parameters that a tool declares.
use ailens.Base.{
  String, Bool, List, [], ◌∷◌, Option, none, some, ◌==◌, string_has_eq, if◌then◌else◌, map, ◌≡◌,
}
use ailens.Schema.{ParameterInfo, lists}
use ailens.Value.{Value, undefined, str, obj, arr, Fields, field, end, Items, of_list}

-- How a parameter says what it takes.
pub data Kind : Type 0 where
  typed : String → Kind
  one_of : Items → Kind
  ref_to : String → Kind
  untold : Kind

pub record Param : Type 0 where
  pub name : String
  pub kind : Kind
  pub description : Option String
  pub default : Option Value
  pub required : Bool

-- Where a tool keeps the schema: at the top, or as its `parameters` or its `input_schema`.
pub data Place : Type 0 where
  top parameters input_schema : Place

abbrev kind_fields : Kind → Fields → Fields
kind_fields (typed t) rest = field "type" (str t) rest
kind_fields (one_of vs) rest = field "enum" (arr vs) rest
kind_fields (ref_to s) rest = field "$ref" (str s) rest
kind_fields untold rest = rest

abbrev description_field : Option String → Fields → Fields
description_field none rest = rest
description_field (some s) rest = field "description" (str s) rest

abbrev default_field : Option Value → Fields → Fields
default_field none rest = rest
default_field (some v) rest = field "default" v rest

abbrev property : Param → Value
property p =
    obj (kind_fields p.kind (description_field p.description (default_field p.default end)))

abbrev properties : List Param → Fields
properties [] = end
properties (p ∷ ps) = field p.name (property p) (properties ps)

abbrev required_names : List Param → List Value
required_names [] = []
required_names (p ∷ ps) =
    let rest = required_names ps in if p.required then str p.name ∷ rest else rest

abbrev declared : List Param → Value
declared ps = obj (
    field "type" (str "object") (
      field "properties" (obj (properties ps))
        (field "required" (arr (of_list (required_names ps))) end)))

abbrev pub schema_at : Place → List Param → Value
schema_at top ps = declared ps
schema_at parameters ps = obj (field "parameters" (declared ps) end)
schema_at input_schema ps = obj (field "input_schema" (declared ps) end)

-- The row of a parameter.
abbrev type_name : Kind → String
type_name (typed t) = t
type_name (one_of vs) = "enum"
type_name (ref_to s) = if s == "" then "any" else "ref"
type_name untold = "any"

abbrev or_undefined : Option Value → Value
or_undefined none = undefined
or_undefined (some v) = v

abbrev pub row_of : Param → ParameterInfo
row_of p = record {
  name = p.name;
  type = type_name p.kind;
  required = p.required;
  description = p.description;
  default_value = or_undefined p.default;
}

-- The row of a property, whatever says that it is required.
abbrev made : Bool → String → Kind → Option String → Option Value → ParameterInfo
made r n k d v = record {
  name = n;
  type = type_name k;
  required = r;
  description = d;
  default_value = or_undefined v;
}

-- A list names exactly the parameters that are required.
abbrev Says : List Value → Param → Type 0
Says required p = lists p.name required ≡ p.required

abbrev pub names : List Param → List String
names ps = map (λ (p : Param). p.name) ps
