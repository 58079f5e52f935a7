-- ===== src/ChatViewer/Cards.antt =====
-- The tools of a request and the calls of tools (`ToolDefinitionsPanel`, `ToolCallCard` and `ParamValue`
-- in frontend/src/components/ChatViewer.tsx).
use Prim.Native.String.{String, ◌++◌ as cat}
use ailens.Base.Decimal.{decimal}
use ailens.Base.Text.{join}
use ailens.Base.{
  ℕ, ◌+◌, Bool, true, false, not, ◌||◌, List, map, Option, none, some, ltb, ◌==◌, string_has_eq,
  if◌then◌else◌, length, any, keep,
}
use ailens.Cache.{CacheEstimate, ToolDefinition}
use ailens.ChatViewer.Bubble.{badge, is_uncached, short_id}
use ailens.Schema.{ParameterInfo, extract_parameter_schema}
use ailens.Value.{
  Value, Fields, Items, undefined, null, str, num, bool, obj, arr, field, end, cons, nil, opt_prop,
  nullish, is_object,
}

-- The state of the panel: the name of the tool whose card is open.
unfoldable pub toggle : String → Option String → Option String
toggle name none = some name
toggle name (some opened) = if opened == name then none else some name

abbrev is_open : Option String → String → Bool
is_open none name = false
is_open (some opened) name = opened == name

pub record CardView : Type 0 where
  pub name : String
  pub type : String
  pub badge_label : Option String
  pub cache_control : Option String
  pub count_label : String
  pub is_expanded : Bool
  pub description : Option String
  pub parameters : List ParameterInfo

pub record PanelView : Type 0 where
  pub count : ℕ
  pub cached_count : ℕ
  pub has_cache_control : Bool
  pub names : String
  pub cards : List CardView

-- `tool.schema !== undefined ? tool.schema : tool.raw`
abbrev schema_of : Value → Value → Value
schema_of undefined raw = raw
schema_of schema raw = schema

abbrev is_some_text : Option String → Bool
is_some_text none = false
is_some_text (some s) = not (s == "")

abbrev is_cached : Option CacheEstimate → Bool
is_cached none = false
is_cached (some e) = not (is_uncached e.state)

abbrev count_text : ℕ → String
unfolding decimal
count_text n = if ltb 0 n then cat (decimal n) " params" else "no params"

-- `fixed` is that of `fmt_tokens`.
module _ (fixed : ℕ → ℕ → ℕ) where
  unfoldable pub card : Option String → ToolDefinition → CardView
  unfolding extract_parameter_schema badge count_text
  card expanded tool =
      let params = extract_parameter_schema (schema_of tool.schema tool.raw) in
      record {
        name = tool.name;
        type = tool.type;
        badge_label = badge fixed tool.cache_estimate;
        cache_control = tool.cache_control_label;
        count_label = count_text (length params);
        is_expanded = is_open expanded tool.name;
        description = tool.description;
        parameters = params;
      }

  unfoldable pub panel : Option String → List ToolDefinition → PanelView
  unfolding card join
  panel expanded tools = record {
    count = length tools;
    cached_count = length (keep (λ (t : ToolDefinition). is_cached t.cache_estimate) tools);
    has_cache_control = any (λ (t : ToolDefinition). is_some_text t.cache_control_label) tools;
    names =
        join ", " (keep (λ name. not (name == "")) (map (λ (t : ToolDefinition). t.name) tools));
    cards = map (card expanded) tools;
  }

-- How a value is shown: as a word, as a text in quotes, or as rows of values.
mutual
  pub data ParamView : Type 0 where
    word : String → ParamView
    quote : String → ParamView
    nested : ParamRows → ParamView

  pub data ParamRows : Type 0 where
    param_row : String → ParamView → ParamRows → ParamRows
    no_row : ParamRows

unfoldable mutual
  unfolding decimal

  -- `ParamValue`
  pub param_value : Value → ParamView
  param_value undefined = word "undefined"
  param_value null = word "null"
  param_value (bool b) = word (if b then "true" else "false")
  param_value (num n) = word (decimal n)
  param_value (str s) = quote s
  param_value (arr nil) = word "[]"
  param_value (arr (cons v vs)) = nested (param_row "0" (param_value v) (item_rows 1 vs))
  param_value (obj end) = word "{ }"
  param_value (obj (field k v fs)) = nested (param_row k (param_value v) (field_rows fs))

  pub item_rows : ℕ → Items → ParamRows
  item_rows i nil = no_row
  item_rows i (cons v vs) = param_row (decimal i) (param_value v) (item_rows (i + 1) vs)

  pub field_rows : Fields → ParamRows
  field_rows end = no_row
  field_rows (field k v fs) = param_row k (param_value v) (field_rows fs)

-- `tc.function?.name || tc.name || '(tool)'`, where a name is a text.
abbrev name_or : Value → String → String
name_or (str s) fallback = if s == "" then fallback else s
name_or v fallback = fallback

-- What the card of a call shows of its arguments: the text as it is, or their rows.
pub data Arguments : Type 0 where
  raw_arguments : Value → Arguments
  pretty_arguments : (is_multiline : Bool) → ParamRows → Arguments

pub record CallView : Type 0 where
  pub name : String
  pub id : Option String
  pub has_toggle : Bool
  pub arguments : Arguments

abbrev has_rows : ParamRows → Bool
has_rows no_row = false
has_rows (param_row k v rest) = true

abbrev any_object : Fields → Bool
any_object end = false
any_object (field k v fs) = is_object v || any_object fs

abbrev any_object_item : Items → Bool
any_object_item nil = false
any_object_item (cons v vs) = is_object v || any_object_item vs

-- Whether there are several rows.
abbrev is_many : ParamRows → Bool
is_many no_row = false
is_many (param_row k v rest) = has_rows rest

abbrev raw_call : String → Option String → Value → CallView
raw_call name id args = record {
  name = name;
  id = id;
  has_toggle = false;
  arguments = raw_arguments args;
}

abbrev pretty_call : Bool → String → Option String → Value → Bool → ParamRows → CallView
pretty_call show_raw name id args objects rows = record {
  name = name;
  id = id;
  has_toggle = has_rows rows;
  arguments =
      if show_raw then raw_arguments args else pretty_arguments (is_many rows || objects) rows;
}

-- The card for the parsed arguments.
abbrev call_of : Bool → String → Option String → Value → Option Value → CallView
unfolding param_value item_rows field_rows
call_of show_raw name id args (some (obj fs)) =
    pretty_call show_raw name id args (any_object fs) (field_rows fs)
call_of show_raw name id args (some (arr vs)) =
    pretty_call show_raw name id args (any_object_item vs) (item_rows 0 vs)
call_of show_raw name id args _ = raw_call name id args

abbrev call_id : Value → Option String
unfolding short_id
call_id (str s) = if s == "" then none else some (short_id s)
call_id _ = none

-- `parse` is `JSON.parse`, and `print` is `JSON.stringify(v, null, 2)`.
module _ (parse : String → Option Value) (print : Value → String) where
  abbrev input_text : Value → Value
  input_text (str s) = str s
  input_text v = str (print (nullish v (obj end)))

  -- `argsRaw`
  abbrev args_raw : Value → Value
  args_raw tc =
      nullish (opt_prop "arguments" (opt_prop "function" tc)) (input_text (opt_prop "input" tc))

  -- `JSON.parse(argsRaw)`, for arguments that are a text.
  abbrev parsed_args : Value → Option Value
  parsed_args (str s) = parse s
  parsed_args _ = none

  -- `ToolCallCard`, for a call whose arguments are a text.
  unfoldable pub tool_call_card : Bool → Value → CallView
  unfolding call_of call_id
  tool_call_card show_raw tc =
      call_of show_raw
        (name_or (opt_prop "name" (opt_prop "function" tc)) (name_or (opt_prop "name" tc) "(tool)"))
        (call_id (opt_prop "id" tc)) (args_raw tc) (parsed_args (args_raw tc))

  abbrev printed_or : String → Option Value → String
  printed_or s none = s
  printed_or s (some v) = print v

  -- `formatUnknown`
  unfoldable pub format_unknown : Value → String
  format_unknown (str s) = printed_or s (parse s)
  format_unknown v = print (nullish v (obj end))
