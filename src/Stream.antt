-- ===== src/Stream.antt =====
-- `assembleStream` and `parseJSONObject` (frontend/src/components/ChatViewer.tsx): the messages of a
-- streamed response body, by the kind of its events. `JSON.parse` is the parameter `parse`.
mod Printed
mod Tests
use ailens.Anthropic.{Event, assemble_anthropic_stream}
use ailens.Base.Outcome.{Outcome, done}
use ailens.Base.Text.{starts_with}
use ailens.Base.{
  String, Bool, true, false, ◌||◌, List, [], ◌∷◌, Option, none, some, ◌==◌, string_has_eq, any,
  is_nil, map, if◌then◌else◌,
}
use ailens.OpenAi.{assemble_openai_stream}
use ailens.Responses.{assemble_responses_stream}
use ailens.Sse.{Frame, parse_sse}
use ailens.Value.{Value, obj, opt_prop, string?, is_array}

-- `v && typeof v === 'object' && !Array.isArray(v)`
abbrev pub object? : Value → Option Value
object? (obj fs) = some (obj fs)
object? _ = none

abbrev pub is_response : Event → Bool
unfolding starts_with
is_response e = elim (string? (opt_prop "type" e.object)) [
  | none ↦ false
  | some t ↦ starts_with "response." t
]

abbrev pub is_anthropic : Frame → Bool
is_anthropic f =
    f.event == "message_start" || f.event == "content_block_delta" || f.event == "message_delta"

module _ (parse : String → Option Value) where
  abbrev pub parse_json_object : String → Option Value
  parse_json_object s = elim (parse s) [ none ↦ none | some v ↦ object? v ]

  -- The frames whose data is an object.
  unfoldable pub objects_of : List Frame → List Event
  objects_of [] = []
  objects_of (f ∷ fs) =
      let rest = objects_of fs in
      elim (parse_json_object f.text) [
        | none ↦ rest
        | some object ↦ record { event = f.event; object = object } ∷ rest
      ]

  -- The choice between the assemblers.
  unfoldable pub dispatch : Option String → List Frame → List Event → Outcome (List Value)
  dispatch raw frames events =
      if is_nil frames
      then done []
      else if any is_response events
      then assemble_responses_stream (map (λ (e : Event). e.object) events)
      else if any is_anthropic frames
      then assemble_anthropic_stream events
      else if any (λ (e : Event). is_array (opt_prop "choices" e.object)) events
      then assemble_openai_stream parse raw
      else done []

  unfoldable pub assemble_stream : Option String → Outcome (List Value)
  unfolding parse_sse objects_of dispatch
  assemble_stream raw = let frames = parse_sse raw in dispatch raw frames (objects_of frames)
