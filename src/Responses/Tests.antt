-- ===== src/Responses/Tests.antt =====
-- Runs of the assembler of the Responses API's streams.
use text.Mathlib.TextEquality.{eq_iff}
use ailens.Base.Decimal.{decimal}
use ailens.Base.Outcome.{done}
use ailens.Base.{true, false, String, ◌≡◌, ◌≢◌, refl, List, [], ◌∷◌, arith}
use ailens.Responses.Texts.{assemble_responses_stream_of_deltas}
use ailens.Responses.Calls.{Call, calls_events}
use ailens.Responses.{assemble_responses_stream}
use ailens.Value.{num, Value, str, obj, arr, cons, nil, field, end}

abbrev delta : String → Value
delta t = obj (field "type" (str "response.output_text.delta") (field "delta" (str t) end))

abbrev arguments : String → Value
arguments t = obj (
    field "type" (str "response.function_call_arguments.delta")
      (field "item_id" (str "fc_1") (field "delta" (str t) end)))

abbrev added : Value
added = obj (
    field "type" (str "response.output_item.added") (
      field "item"
        (obj (
          field "type" (str "function_call")
            (field "id" (str "fc_1") (field "name" (str "ls") end))))
        end))

abbrev run : List Value
run = added ∷ arguments "{\"a\"" ∷ arguments ":1}" ∷ delta "hi" ∷ []

abbrev answer : List Value
answer =
    obj (
      field "role" (str "assistant") (
        field "content" (str "hi") (
          field "tool_calls"
            (arr (
              cons
                (obj (
                  field "id" (str "fc_1") (
                    field "type" (str "function") (
                      field "function"
                        (obj (field "name" (str "ls") (field "arguments" (str "{\"a\":1}") end)))
                        end))))
                nil))
            end)))
    ∷ []

run_of_both : assemble_responses_stream run ≡ done answer
unfolding assemble_responses_stream
run_of_both = refl

decimal_of_number : decimal 1024 ≡ "1024"
unfolding decimal
decimal_of_number = refl

-- A call with its end, and one that is cut off.
abbrev calls : List Call
calls =
    record {
      id = "fc_1";
      call_id = "c1";
      name = "ls";
      pieces = "{\"a\"" ∷ ":1}" ∷ [];
      is_ended = true;
    }
    ∷ record { id = "fc_2"; call_id = "c2"; name = "pwd"; pieces = "{" ∷ []; is_ended = false }
    ∷ []

-- Their events, behind one that says that the response has been created.
abbrev events : List Value
events =
    obj (field "type" (str "response.created") (field "sequence_number" (num 0) end))
    ∷ calls_events calls

some_text : ◌≢◌ {A = String} "hello" ""
some_text = ground (arith, eq_iff "hello" "")

assemble_responses_stream_of_deltas_example :
    assemble_responses_stream (delta "he" ∷ delta "llo" ∷ [])
    ≡ done (obj (field "role" (str "assistant") (field "content" (str "hello") end)) ∷ [])
assemble_responses_stream_of_deltas_example =
    assemble_responses_stream_of_deltas (delta "he" ∷ delta "llo" ∷ []) refl some_text
