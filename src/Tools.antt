-- ===== src/Tools.antt =====
-- `extractToolDefinitions` and what it calls (frontend/src/components/ChatViewer.tsx): the tools that
-- a request declares, in the shapes of the APIs that the viewer knows.
mod Named
mod Tests
use Prim.Native.String
use ailens.Base.Decimal.{decimal}
use ailens.Base.Text.{trim}
use ailens.Base.{
  ℕ, ◌+◌, String, Bool, true, false, not, ◌&&◌, List, [], ◌∷◌, ◌++◌, Option, none, some, ◌==◌,
  string_has_eq, length, leb, if◌then◌else◌,
}
use ailens.Cache.{ToolDefinition}
use ailens.Messages.{is_full_text}
use ailens.Value.{
  Value, undefined, null, str, obj, arr, Fields, field, end, Items, cons, nil, items, opt_prop,
  truthy, nullish, is_object, array?, text_of, string?,
}

abbrev cat : String → String → String
cat = String.◌++◌

-- `firstString(...)`
unfoldable pub first_string : List Value → Option String
unfolding is_full_text
first_string [] = none
first_string (v ∷ vs) =
    let rest = first_string vs in if is_full_text v then some (text_of v) else rest

-- `firstPresent(...)`
unfoldable pub first_present : List Value → Value
first_present [] = undefined
first_present (v ∷ vs) = nullish v (first_present vs)

-- `findCacheControl`, which goes six levels deep; `none` where nothing truthy is found.
abbrev cache_control_of : Value → Option Value
cache_control_of v =
    if truthy (opt_prop "cache_control" v)
    then some (opt_prop "cache_control" v)
    else if truthy (opt_prop "cacheControl" v)
    then some (opt_prop "cacheControl" v)
    else none

abbrev or_found : Option Value → Option Value → Option Value
or_found none b = b
or_found (some v) b = some v

unfoldable mutual
  pub find_cache_control : ℕ → Value → Option Value
  find_cache_control depth (obj fs) =
      let below = find_in_fields (depth + 1) fs in
      if leb 7 depth then none else or_found (cache_control_of (obj fs)) below
  find_cache_control depth (arr vs) =
      let below = find_in_items (depth + 1) vs in if leb 7 depth then none else below
  find_cache_control depth _ = none

  pub find_in_fields : ℕ → Fields → Option Value
  find_in_fields depth end = none
  find_in_fields depth (field k v fs) =
      or_found (find_cache_control depth v) (find_in_fields depth fs)

  pub find_in_items : ℕ → Items → Option Value
  find_in_items depth nil = none
  find_in_items depth (cons v vs) = or_found (find_cache_control depth v) (find_in_items depth vs)

-- `cacheControlLabel`, where the empty label is none.
abbrev pub cache_control_label : Value → Option String
unfolding is_full_text
cache_control_label v =
    if is_object v && is_full_text (opt_prop "type" v)
    then some (text_of (opt_prop "type" v))
    else none

unfoldable pub first_cache_control_label : List Value → Option String
unfolding find_cache_control cache_control_label
first_cache_control_label [] = none
first_cache_control_label (v ∷ vs) =
    let rest = first_cache_control_label vs in
    elim (find_cache_control 0 v) [
      | none ↦ rest
      | some found ↦ elim (cache_control_label found) [ none ↦ rest | some label ↦ some label ]
    ]

-- `rawType`
unfoldable pub raw_type : Value → Value → String
unfolding is_full_text
raw_type raw_object v =
    if is_full_text (opt_prop "type" raw_object)
    then text_of (opt_prop "type" raw_object)
    else if is_full_text (opt_prop "type" v)
    then text_of (opt_prop "type" v)
    else "function"

-- `firstString(...) || d`; what it finds is never empty.
abbrev pub string_or : Option String → String → String
string_or none d = d
string_or (some s) d = s

-- The definition of an item that is an object.
unfoldable pub definition_of : Value → ℕ → Value → ToolDefinition
unfolding raw_type first_string first_present first_cache_control_label decimal
definition_of v index raw =
    let raw_object = if is_object raw then raw else v in
    let type = raw_type raw_object v in
    record {
      name =
          string_or (first_string (opt_prop "name" v ∷ opt_prop "name" raw_object ∷ str type ∷ []))
            (cat "tool_" (decimal (index + 1)));
      type = type;
      description =
          first_string (opt_prop "description" v ∷ opt_prop "description" raw_object ∷ []);
      schema = first_present (
          opt_prop "parameters" v
          ∷ opt_prop "parametersJsonSchema" v
          ∷ opt_prop "input_schema" v
          ∷ opt_prop "inputSchema" v
          ∷ opt_prop "parameters" raw_object
          ∷ opt_prop "input_schema" raw_object
          ∷ opt_prop "inputSchema" raw_object
          ∷ []);
      raw = raw;
      cache_control_label = first_cache_control_label (raw ∷ v ∷ []);
      cache_estimate = none;
    }

abbrev pub normalize_single_tool_definition : Value → ℕ → Value → List ToolDefinition
unfolding definition_of
normalize_single_tool_definition item index raw =
    if is_object item then definition_of item index raw ∷ [] else []

unfoldable pub declared : List Value → ℕ → Value → List ToolDefinition
unfolding normalize_single_tool_definition
declared [] index tool = []
declared (decl ∷ decls) index tool =
    normalize_single_tool_definition decl index tool ++ declared decls (index + 1) tool

-- The declarations that an entry groups, if it does.
abbrev pub declarations_of : Value → Option (List Value)
declarations_of tool = elim (array? (opt_prop "function_declarations" tool)) [
  | none ↦ array? (opt_prop "functionDeclarations" tool)
  | some l ↦ some l
]

-- `t.function && typeof t.function === 'object' ? t.function : t`
abbrev pub function_of : Value → Value
function_of tool = if is_object (opt_prop "function" tool) then opt_prop "function" tool else tool

unfoldable pub normalize_tool_definitions : Value → ℕ → List ToolDefinition
unfolding declared normalize_single_tool_definition
normalize_tool_definitions tool base =
    if is_object tool
    then (elim (declarations_of tool) [
      | some declarations ↦ declared declarations base tool
      | none ↦ normalize_single_tool_definition (function_of tool) base tool
    ])
    else []

-- The loop over a list of tools, behind those that are there.
unfoldable pub collect_tools : List ToolDefinition → List Value → List ToolDefinition
unfolding normalize_tool_definitions
collect_tools out [] = out
collect_tools out (tool ∷ tools) =
    collect_tools (out ++ normalize_tool_definitions tool (length out)) tools

-- The legacy shape: `{ type: 'function', function: fn }`
abbrev pub legacy : List Value → List Value
legacy [] = []
legacy (fn ∷ fns) = obj (field "type" (str "function") (field "function" fn end)) ∷ legacy fns

abbrev pub list_at : String → Value → List Value
list_at k p = elim (array? (opt_prop k p)) [ none ↦ [] | some vs ↦ vs ]

unfoldable pub extract_tool_definitions : Value → List ToolDefinition
unfolding collect_tools
extract_tool_definitions p =
    if truthy p
    then collect_tools (collect_tools [] (list_at "tools" p)) (legacy (list_at "functions" p))
    else []
