-- ===== src/Responses.antt =====
-- `assembleResponsesStream` (frontend/src/components/ChatViewer.tsx): the events of a stream of the
-- Responses API are folded back into one message.
pub mod Tools
pub mod Texts
pub mod Calls
mod Tests
use Prim.Native.String
use ailens.Base.Decimal.{decimal}
use ailens.Base.Keyed.{Keyed, empty, lookup, store, value_at}
use ailens.Base.Outcome.{Outcome, done, untyped, ◌>>=◌, fold, or_type_error, collect}
use ailens.Base.Text.{join}
use ailens.Base.{
  ℕ, String, Bool, true, false, not, ◌&&◌, ◌||◌, List, [], ◌∷◌, ◌++◌, Option, none, some, ◌==◌,
  string_has_eq, ℕ_has_eq, is_nil, length, if◌then◌else◌,
}
use ailens.OpenAi.{ToolCallBuilder, fresh_tool}
use ailens.Value.{
  Value, undefined, null, bool, num, str, obj, arr, Fields, field, end, of_list, opt_prop, truthy,
  or_else, is_str, string?, array?, text_of, is_text, is_object,
}

abbrev cat : String → String → String
cat = String.◌++◌

-- `String(v)`; an object or an array leaves the declared types.
unfoldable pub string_of : Value → Outcome String
unfolding decimal
string_of undefined = done "undefined"
string_of null = done "null"
string_of (bool true) = done "true"
string_of (bool false) = done "false"
string_of (num n) = done (decimal n)
string_of (str s) = done s
string_of (arr _) = untyped
string_of (obj _) = untyped

-- `msg.content`, and `tools` with `order`.
pub record Assembly : Type 0 where
  pub content : String
  pub tools : Keyed String ToolCallBuilder

-- `toolFor(key)` and the changes made to what it returns.
pub change_tool :
    String
    → (ToolCallBuilder → ToolCallBuilder)
    → Keyed String ToolCallBuilder
    → Keyed String ToolCallBuilder
unfolding store value_at
change_tool key change tools = store key (change (value_at fresh_tool key tools)) tools

-- `String(obj.item_id || obj.call_id || obj.output_index || order.length || '0')`
pub delta_key : Value → ℕ → Outcome String
unfolding string_of
delta_key object count = string_of (
    or_else (opt_prop "item_id" object) (
      or_else (opt_prop "call_id" object)
        (or_else (opt_prop "output_index" object) (or_else (num count) (str "0")))))

-- What `captureResponsesItem` writes to the builder, where `name` is `String(item.name)`.
pub item_change : Value → String → ToolCallBuilder → ToolCallBuilder
item_change item name tb =
    let id = or_else (opt_prop "id" item) (opt_prop "call_id" item) in
    record {
      id = if truthy id then id else tb.id;
      type = str "function";
      name = if truthy (opt_prop "name" item) then str name else tb.name;
      args =
          if is_text (opt_prop "arguments" item)
          then text_of (opt_prop "arguments" item)
          else tb.args;
    }

pub capture_item : Value → ℕ → Keyed String ToolCallBuilder → Outcome (Keyed String ToolCallBuilder)
unfolding string_of change_tool item_change
capture_item item fallback tools =
    if is_object item && is_str (opt_prop "type" item) "function_call"
    then (do
      key ←
          string_of
            (or_else (opt_prop "id" item) (or_else (opt_prop "call_id" item) (num fallback)))
      name ← if truthy (opt_prop "name" item) then string_of (opt_prop "name" item) else done ""
      done (change_tool key (item_change item name) tools))
    else done tools

-- The texts of a message's parts.
pub part_texts : List Value → List String
part_texts [] = []
part_texts (part ∷ parts) =
    let rest = part_texts parts in
    let type = opt_prop "type" part in
    if (is_str type "output_text" || is_str type "text") && is_text (opt_prop "text" part)
    then text_of (opt_prop "text" part) ∷ rest
    else rest

-- The variables of the loop over `resp.output`.
pub record Output : Type 0 where
  pub text : List String
  pub tools : Keyed String ToolCallBuilder

pub output_step : Output → Value → Outcome Output
unfolding part_texts capture_item
output_step out item = elim (array? (opt_prop "content" item)) [
  | none ↦ capture_item item 0 out.tools >>= λ tools. done (record out { tools = tools })
  | some parts ↦
      if is_str (opt_prop "type" item) "message"
      then done (record out { text = out.text ++ part_texts parts })
      else (capture_item item 0 out.tools >>= λ tools. done (record out { tools = tools }))
]

-- `!msg.content` lets a text take the content's place.
abbrev pub content_or : Bool → String → String → String
content_or usable text content = if content == "" && usable then text else content

pub capture_output : Assembly → List Value → Outcome Assembly
unfolding output_step join
capture_output a output = do
  out ← fold output_step (record { text = []; tools = a.tools }) output
  done (record {
    content = content_or (not (is_nil out.text)) (join "\n" out.text) a.content;
    tools = out.tools;
  })

pub capture_object : Assembly → Value → Outcome Assembly
unfolding capture_output
capture_object a response =
    if is_object response
    then (let text = opt_prop "output_text" response in
        let b = record a { content = content_or (is_text text) (text_of text) a.content } in
        elim (array? (opt_prop "output" response)) [
          | none ↦ done b
          | some output ↦ capture_output b output
        ])
    else done a

abbrev pub add_args : String → ToolCallBuilder → ToolCallBuilder
add_args t tb = record tb { args = cat tb.args t }

abbrev pub set_args : String → ToolCallBuilder → ToolCallBuilder
set_args t tb = record tb { args = t }

-- The events of a tool call's arguments.
pub arguments_delta : Assembly → Value → Outcome Assembly
unfolding delta_key change_tool
arguments_delta a object = do
  key ← delta_key object (length a.tools.order)
  done (record a { tools = change_tool key (add_args (text_of (opt_prop "delta" object))) a.tools })

pub arguments_done : Assembly → Value → Outcome Assembly
unfolding delta_key change_tool
arguments_done a object = do
  key ← delta_key object (length a.tools.order)
  if is_text (opt_prop "arguments" object)
      then done (record a {
        tools = change_tool key (set_args (text_of (opt_prop "arguments" object))) a.tools;
      })
      else done a

-- The body of the loop, for an event of a type.
pub typed_step : String → Assembly → Value → Outcome Assembly
unfolding arguments_delta arguments_done capture_item capture_object
typed_step typ a object =
    let delta = opt_prop "delta" object in
    let text = opt_prop "text" object in
    if (typ == "response.output_text.delta" || typ == "response.refusal.delta") && is_text delta
    then done (record a { content = cat a.content (text_of delta) })
    else if typ == "response.output_text.done" && a.content == "" && is_text text
    then done (record a { content = text_of text })
    else if typ == "response.function_call_arguments.delta"
    then arguments_delta a object
    else if typ == "response.function_call_arguments.done"
    then arguments_done a object
    else if typ == "response.output_item.added" || typ == "response.output_item.done"
    then (capture_item (opt_prop "item" object) (length a.tools.order) a.tools >>= λ tools.
        done (record a { tools = tools }))
    else if (typ == "response.completed" || typ == "response.incomplete")
        && truthy (opt_prop "response" object)
    then capture_object a (opt_prop "response" object)
    else done a

pub frame_step : Assembly → Value → Outcome Assembly
unfolding typed_step string_of
frame_step a object =
    string_of (or_else (opt_prop "type" object) (str "")) >>= λ typ. typed_step typ a object

pub packed_call : ToolCallBuilder → Value
packed_call tb = obj (
    field "id" tb.id (
      field "type" (or_else tb.type (str "function")) (
        field "function"
          (obj (field "name" (or_else tb.name (str "")) (field "arguments" (str tb.args) end)))
          end)))

-- The message, if it has content or a tool call.
pub packed : Assembly → List Value → List Value
packed a calls =
    if a.content == "" && is_nil calls
    then []
    else obj (
        field "role" (str "assistant") (
          field "content" (str a.content)
            (if is_nil calls then end else field "tool_calls" (arr (of_list calls)) end)))
      ∷ []

abbrev pub opening : Assembly
opening = record { content = ""; tools = empty }

unfoldable pub assemble_responses_stream : List Value → Outcome (List Value)
unfolding frame_step lookup collect packed_call packed
assemble_responses_stream objects = do
  a ← fold frame_step opening objects
  calls ←
      collect (λ k. or_type_error (lookup k a.tools.entries) >>= λ tb. done (packed_call tb))
        a.tools.order
  done (packed a calls)
