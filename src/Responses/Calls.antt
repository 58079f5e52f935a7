-- ===== src/Responses/Calls.antt =====
-- The events of tool calls in a stream of the Responses API, and the message that is shown of them.
pub mod States
pub mod Read
pub mod Message
use mathlib.Core.List.{append-nil, append_assoc}
use text.Mathlib.TextEquality.{eq_iff}
use text.Mathlib.TextLemmas
use ailens.Base.Keyed.Order.{IsCoherent, Distinct, contains, empty-IsCoherent}
use ailens.Base.Keyed.{
  Keyed, lookup, put, lookup-put, lookup-put_same, put-put, store, value_at, value_of,
}
use ailens.Base.Outcome.{Outcome, done, ◌>>=◌, fold, >>=_of_done, >>=-eq-done, done-injective}
use ailens.Base.Text.{concat}
use ailens.Base.{
  String, Bool, true, false, ◌||◌, List, [], ◌∷◌, ◌++◌, Option, none, some, ◌==◌, string_has_eq,
  ℕ_has_eq, map, All, if◌then◌else◌, ◌≡◌, ◌≢◌, refl, sym, ap, ap₂, ◌∙◌, arith,
}
use ailens.OpenAi.{ToolCallBuilder, fresh_tool}
use ailens.Responses.Tools.{frame_step-Coherent, fold-Gives, finished}
use ailens.Responses.{
  Assembly, cat, change_tool, capture_item, item_change, add_args, set_args, arguments_delta,
  arguments_done, delta_key, string_of, typed_step, frame_step, packed_call, packed, opening,
  assemble_responses_stream,
}
use ailens.Value.{Value, str, obj, arr, of_list, field, end, opt_prop, string?}

-- A call with the pieces of its arguments; `is_ended` tells whether the event at their end has come.
pub record Call : Type 0 where
  pub id : String
  pub call_id : String
  pub name : String
  pub pieces : List String
  pub is_ended : Bool

abbrev pub added : Call → Value
added c = obj (
    field "type" (str "response.output_item.added") (
      field "item"
        (obj (
          field "type" (str "function_call") (
            field "id" (str c.id) (
              field "call_id" (str c.call_id)
                (field "name" (str c.name) (field "arguments" (str "") end))))))
        end))

abbrev pub delta : String → String → Value
delta id t = obj (
    field "type" (str "response.function_call_arguments.delta")
      (field "item_id" (str id) (field "delta" (str t) end)))

abbrev pub ended : Call → Value
ended c = obj (
    field "type" (str "response.function_call_arguments.done")
      (field "item_id" (str c.id) (field "arguments" (str (concat c.pieces)) end)))

abbrev pub call_events : Call → List Value
call_events c = added c ∷ (map (delta c.id) c.pieces ++ (if c.is_ended then ended c ∷ [] else []))

abbrev pub calls_events : List Call → List Value
calls_events [] = []
calls_events (c ∷ cs) = call_events c ++ calls_events cs

-- A call as it is shown.
abbrev pub shown_call : Call → Value
shown_call c = obj (
    field "id" (str c.id) (
      field "type" (str "function") (
        field "function"
          (obj (field "name" (str c.name) (field "arguments" (str (concat c.pieces)) end))) end)))

abbrev pub message_of_calls : List Call → List Value
message_of_calls [] = []
message_of_calls (c ∷ cs) =
    obj (
      field "role" (str "assistant") (
        field "content" (str "")
          (field "tool_calls" (arr (of_list (map shown_call (c ∷ cs)))) end)))
    ∷ []

-- A call that can be told from others and has a name.
pub record IsCall (c : Call) : Type 0 where
  pub has_id : c.id ≢ ""
  pub has_name : c.name ≢ ""

abbrev pub ids : List Call → List String
ids cs = map (λ (c : Call). c.id) cs

-- What the assembly reads of an item and of an event.
abbrev pub seen_item : Value → Value
seen_item item = obj (
    field "type" (opt_prop "type" item) (
      field "id" (opt_prop "id" item) (
        field "call_id" (opt_prop "call_id" item) (
          field "name" (opt_prop "name" item)
            (field "arguments" (opt_prop "arguments" item) end)))))

-- An event without the fields that the assembly does not read, such as its number in the sequence.
abbrev pub seen : Value → Value
seen o = obj (
    field "type" (opt_prop "type" o) (
      field "delta" (opt_prop "delta" o) (
        field "text" (opt_prop "text" o) (
          field "item_id" (opt_prop "item_id" o) (
            field "call_id" (opt_prop "call_id" o) (
              field "output_index" (opt_prop "output_index" o) (
                field "arguments" (opt_prop "arguments" o) (
                  field "response" (opt_prop "response" o)
                    (field "item" (seen_item (opt_prop "item" o)) end)))))))))

-- The types of the events that the assembly takes something from.
abbrev pub known_type : String → Bool
known_type t =
    t == "response.output_text.delta"
    || t == "response.refusal.delta"
    || t == "response.output_text.done"
    || t == "response.function_call_arguments.delta"
    || t == "response.function_call_arguments.done"
    || t == "response.output_item.added"
    || t == "response.output_item.done"
    || t == "response.completed"
    || t == "response.incomplete"

-- `response.created`, `response.in_progress` and the like are no such events.
abbrev pub is_read : Value → Bool
is_read o = elim (string? (opt_prop "type" o)) [ none ↦ true | some t ↦ known_type t ]
