-- ===== src/Anthropic/Blocks.antt =====
-- The events of an Anthropic message, block by block, and the message that is shown of them: texts,
-- and tool calls with the fragments of their input.
pub mod States
pub mod Message
use mathlib.Core.List.{append-nil, append_assoc}
use text.Mathlib.TextEquality.{eq_iff}
use text.Mathlib.TextLemmas
use ailens.Base.Keyed.Order.{SameKeys}
use ailens.Base.Keyed.{
  Keyed, lookup, put, lookup-put, lookup-put_same, put-put, store, value_at, value_of,
}
use ailens.Base.Outcome.{done}
use ailens.Base.Text.{concat}
use ailens.Base.{
  ℕ, ◌+◌, ◌≤◌, ◌<◌, String, Bool, true, false, not, ◌||◌, List, [], ◌∷◌, ◌++◌, none, some, ◌==◌,
  string_has_eq, ℕ_has_eq, keep, map, ◌≡◌, ◌≢◌, refl, sym, ap, ap₂, subst, ◌∙◌, arith, inl, inr,
  Bool-cases,
}
use ailens.Anthropic.{
  Event, Assembly, fresh_part, add_text, add_json, delta_change, block_delta, block_start,
  start_index, event_step, event_loop, cat, assemble_anthropic_stream, opening, pack, is_shown,
  finish,
}
use ailens.Anthropic.Message.{finish-eq, event_loop-SameKeys}
use ailens.Value.{
  opt_prop, Value, str, num, obj, arr, of_list, Fields, field, end, objects, text_of,
}

-- A block of a message: a text in pieces; a call with the name of its tool and the pieces of its
-- input; or a call whose start is missing, with a piece of its input and more of them.
pub data Block : Type 0 where
  text_block : List String → Block
  tool_block : String → String → List String → Block
  cut_call : String → List String → Block

-- The events of a block, at its index.
abbrev pub starts : ℕ → Fields → Event
starts i block = record {
  event = "content_block_start";
  object = obj (
      field "type" (str "content_block_start")
        (field "index" (num i) (field "content_block" (obj block) end)));
}

abbrev pub adds : ℕ → Fields → Event
adds i delta = record {
  event = "content_block_delta";
  object = obj (
      field "type" (str "content_block_delta")
        (field "index" (num i) (field "delta" (obj delta) end)));
}

abbrev pub adds_text : ℕ → String → Event
adds_text i t = adds i (field "type" (str "text_delta") (field "text" (str t) end))

abbrev pub adds_json : ℕ → String → Event
adds_json i t = adds i (field "type" (str "input_json_delta") (field "partial_json" (str t) end))

abbrev pub block_events : ℕ → Block → List Event
block_events i (text_block ts) =
    starts i (field "type" (str "text") (field "text" (str "") end)) ∷ map (adds_text i) ts
block_events i (tool_block id name ts) =
    starts i (
      field "type" (str "tool_use")
        (field "id" (str id) (field "name" (str name) (field "input" (obj end) end))))
    ∷ map (adds_json i) ts
block_events i (cut_call t ts) = map (adds_json i) (t ∷ ts)

abbrev pub blocks_events : ℕ → List Block → List Event
blocks_events i [] = []
blocks_events i (b ∷ bs) = block_events i b ++ blocks_events (i + 1) bs

-- The events of a message of a role.
abbrev pub opens : String → Event
opens role = record {
  event = "message_start";
  object = obj (
      field "type" (str "message_start") (field "message" (obj (field "role" (str role) end)) end));
}

abbrev pub message_events : String → List Block → List Event
message_events role bs = opens role ∷ blocks_events 0 bs

-- The events that the assembly reads; it skips `ping`, `content_block_stop` and the others.
abbrev pub is_read : Event → Bool
is_read e =
    e.event == "message_start"
    || e.event == "content_block_start"
    || e.event == "content_block_delta"

-- What the assembly reads of a block's start, and of a delta.
abbrev pub seen_block : Value → Value
seen_block block = obj (
    field "type" (opt_prop "type" block) (
      field "id" (opt_prop "id" block)
        (field "name" (opt_prop "name" block) (field "input" (opt_prop "input" block) end))))

abbrev pub seen_delta : Value → Value
seen_delta delta = obj (
    field "type" (opt_prop "type" delta) (
      field "text" (opt_prop "text" delta)
        (field "partial_json" (opt_prop "partial_json" delta) end)))

-- An event without the fields that the assembly does not read, such as a message's model and usage.
abbrev pub seen : Event → Event
seen e = record {
  event = e.event;
  object = obj (
      field "index" (opt_prop "index" e.object) (
        field "message" (obj (field "role" (opt_prop "role" (opt_prop "message" e.object)) end)) (
          field "content_block" (seen_block (opt_prop "content_block" e.object))
            (field "delta" (seen_delta (opt_prop "delta" e.object)) end))));
}

-- The message as it is shown.
abbrev pub input_of : List String → Value
input_of [] = obj end
input_of (t ∷ ts) = str (concat (t ∷ ts))

abbrev pub part_of : Block → Fields
part_of (text_block ts) = field "type" (str "text") (field "text" (str (concat ts)) end)
part_of (tool_block id name ts) =
    field "type" (str "tool_use")
      (field "id" (str id) (field "name" (str name) (field "input" (input_of ts) end)))
part_of (cut_call t ts) =
    field "type" (str "tool_use")
      (field "text" (str "") (field "input" (str (concat (t ∷ ts))) end))

abbrev pub has_content : Block → Bool
has_content (text_block ts) = not (concat ts == "")
has_content (tool_block id name ts) = true
has_content (cut_call t ts) = true

abbrev pub content_of_blocks : List Block → Value
content_of_blocks (text_block ts ∷ []) = str (concat ts)
content_of_blocks bs = arr (of_list (objects (map part_of bs)))

abbrev pub message_of_shown : String → List Block → List Value
message_of_shown role [] = []
message_of_shown role (b ∷ bs) =
    obj (field "role" (str role) (field "content" (content_of_blocks (b ∷ bs)) end)) ∷ []

abbrev pub message_of_blocks : String → List Block → List Value
message_of_blocks role bs = message_of_shown role (keep has_content bs)
