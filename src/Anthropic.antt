-- ===== src/Anthropic.antt =====
-- `assembleAnthropicStream` (frontend/src/components/ChatViewer.tsx): the events of a streamed
-- message are folded back into one message, part by part.
pub mod Parts
pub mod Message
pub mod Blocks
mod Tests
use mathlib.Core.List.{flatten}
use Prim.Native.String
use ailens.Base.Keyed.{Keyed, empty, lookup, put, store, value_at}
use ailens.Base.Outcome.{Outcome, done, ◌>>=◌, or_type_error, collect}
use ailens.Base.{
  ℕ, ◌+◌, String, Bool, true, false, not, ◌&&◌, ◌||◌, List, [], ◌∷◌, ◌++◌, Option, none, some, ◌==◌,
  string_has_eq, ℕ_has_eq, is_nil, keep, if◌then◌else◌,
}
use ailens.Value.{
  Value, undefined, str, obj, arr, Fields, field, end, of_list, find, set_field, opt_prop, truthy,
  nullish, is_str, string?, number?, text_of, is_text, objects,
}

abbrev cat : String → String → String
cat = String.◌++◌

-- A frame with the object that its data parses to.
pub record Event : Type 0 where
  pub event : String
  pub object : Value

-- The variables of the loop: `msg.role`, `parts` with `order`, and `fallbackIndex`.
pub record Assembly : Type 0 where
  pub role : Value
  pub parts : Keyed ℕ Fields
  pub fallback_index : ℕ

-- What `partFor` creates.
abbrev pub fresh_part : Fields
fresh_part = field "type" (str "text") (field "text" (str "") end)

-- `part.type = 'text'; part.text = (part.text || '') + t`
pub add_text : String → Fields → Fields
add_text t part =
    let typed = set_field "type" (str "text") part in
    set_field "text" (str (cat (text_of (find "text" typed)) t)) typed

-- `part.type = 'tool_use'; part.input = base + t`, where `base` is the input if that is a text.
pub add_json : String → Fields → Fields
add_json t part =
    let typed = set_field "type" (str "tool_use") part in
    set_field "input" (str (cat (text_of (find "input" typed)) t)) typed

-- The change that a delta makes to a part, if it makes one.
pub delta_change : Value → Option (Fields → Fields)
unfolding add_text add_json
delta_change delta =
    if is_str (opt_prop "type" delta) "text_delta" && is_text (opt_prop "text" delta)
    then some (add_text (text_of (opt_prop "text" delta)))
    else if is_str (opt_prop "type" delta) "input_json_delta"
        && is_text (opt_prop "partial_json" delta)
    then some (add_json (text_of (opt_prop "partial_json" delta)))
    else none

-- `typeof obj.index === 'number' ? obj.index : 0`
abbrev pub delta_index : Value → ℕ
delta_index object = elim (number? (opt_prop "index" object)) [ none ↦ 0 | some k ↦ k ]

-- `partFor(idx)` and the change to what it returns, if there is a change.
abbrev pub change_part : Option (Fields → Fields) → ℕ → Keyed ℕ Fields → Keyed ℕ Fields
change_part none k parts = parts
change_part (some change) k parts = store k (change (value_at fresh_part k parts)) parts

-- `content_block_delta`
unfoldable pub block_delta : Keyed ℕ Fields → Value → Keyed ℕ Fields
unfolding delta_change
block_delta parts object =
    change_part (delta_change (opt_prop "delta" object)) (delta_index object) parts

-- The part of a tool call, as the start of its block gives it.
abbrev pub tool_part : Value → Fields
tool_part block = field "type" (str "tool_use") (
    field "id" (opt_prop "id" block) (
      field "name" (opt_prop "name" block)
        (field "input" (nullish (opt_prop "input" block) (obj end)) end)))

-- `content_block_start` at an index: a tool call replaces what stood there and is listed again.
pub block_start : Keyed ℕ Fields → ℕ → Value → Keyed ℕ Fields
unfolding value_at store put
block_start parts k block =
    if is_str (opt_prop "type" block) "tool_use"
    then record { entries = put k (tool_part block) parts.entries; order = parts.order ++ k ∷ [] }
    else store k (value_at fresh_part k parts) parts

-- The index of a block's start, and the next fallback.
pub start_index : ℕ → Value → ℕ × ℕ
start_index fallback object = elim (number? (opt_prop "index" object)) [
  | none ↦ (fallback, fallback + 1)
  | some k ↦ (k, fallback)
]

pub event_step : Assembly → Event → Assembly
unfolding block_start block_delta start_index
event_step a e =
    if e.event == "message_start" && truthy (opt_prop "role" (opt_prop "message" e.object))
    then record a { role = opt_prop "role" (opt_prop "message" e.object) }
    else if e.event == "content_block_start"
    then (let (k, fallback) = start_index a.fallback_index e.object in
        record a {
          parts = block_start a.parts k (opt_prop "content_block" e.object);
          fallback_index = fallback;
        })
    else if e.event == "content_block_delta"
    then record a { parts = block_delta a.parts e.object }
    else a

pub event_loop : Assembly → List Event → Assembly
unfolding event_step
event_loop a [] = a
event_loop a (e ∷ es) = event_loop (event_step a e) es

-- `part.type !== 'text' || !!part.text`
abbrev pub is_shown : Fields → Bool
is_shown part = not (is_str (find "type" part) "text") || truthy (find "text" part)

-- A single text part is the message's text; else the parts are its content.
abbrev content_of : List Fields → Value
content_of [] = arr (of_list [])
content_of (part ∷ []) =
    if is_str (find "type" part) "text"
    then str (text_of (find "text" part))
    else arr (of_list (obj part ∷ []))
content_of (part ∷ more) = arr (of_list (obj part ∷ objects more))

-- The message of the parts that are shown, if there are any.
abbrev pub pack : Value → List Fields → List Value
pack role content =
    if is_nil content
    then []
    else obj (field "role" role (field "content" (content_of content) end)) ∷ []

pub finish : Assembly → Outcome (List Value)
unfolding lookup collect
finish a = do
  parts ← collect (λ k. or_type_error (lookup k a.parts.entries)) a.parts.order
  done (pack a.role (keep is_shown parts))

-- The state before the first event.
abbrev pub opening : Assembly
opening = record { role = str "assistant"; parts = empty; fallback_index = 0 }

unfoldable pub assemble_anthropic_stream : List Event → Outcome (List Value)
unfolding event_loop finish
assemble_anthropic_stream events = finish (event_loop opening events)
