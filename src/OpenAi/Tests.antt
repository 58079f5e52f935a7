-- ===== src/OpenAi/Tests.antt =====
-- A stream of two interleaved choices, and the theorems at it.
use mathlib.Core.List.{flatten}
use text.Mathlib.TextEquality.{eq_iff}
use ailens.Base.Keyed.{modify}
use ailens.Base.Outcome.{done}
use ailens.Base.Text.{split_newline}
use ailens.Base.{
  ℕ, String, ◌≡◌, ◌≢◌, refl, true, List, [], ◌∷◌, Option, none, some, arith, all, any, keep,
  string_has_eq, ◌==◌, if◌then◌else◌,
}
use ailens.OpenAi.Assembly.{IsAssembly, assemble_openai_stream-IsAssembly, own_builder, has_index}
use ailens.OpenAi.Contents.{HoldsTexts, own_builder-HoldsTexts}
use ailens.OpenAi.Failure.{sends_null, assemble_openai_stream_of_null}
use ailens.OpenAi.Total.{line_typed, assemble_openai_stream-done}
use ailens.OpenAi.{
  ChoiceBuilder, assemble_openai_stream, line_step, apply_choice, apply_tool_delta, index_of,
  payload, fresh_choice,
}
use ailens.Value.{Value, null, num, str, arr, obj, nil, cons, end, field}

abbrev choice : ℕ → String → Value
choice k text =
    obj (field "index" (num k) (field "delta" (obj (field "content" (str text) end)) end))

abbrev call : ℕ → String → Value
call k text = obj (
    field "index" (num k) (
      field "delta"
        (obj (
          field "tool_calls"
            (arr (
              cons
                (obj (
                  field "index" (num 0)
                    (field "function" (obj (field "arguments" (str text) end)) end)))
                nil))
            end))
        end))

abbrev chunk : Value → Value → Value
chunk a b = obj (field "choices" (arr (cons a (cons b nil))) end)

abbrev parse : String → Option Value
parse s =
    if s == "A"
    then some (chunk (choice 1 "x") (choice 0 "he"))
    else if s == "B"
    then some (chunk (choice 0 "llo") (call 1 "{}"))
    else if s == "null"
    then some null
    else none

abbrev stream : String
stream = "data: A\n\ndata: B\ndata: [DONE]\n"

abbrev expected : List Value
expected =
    obj (field "role" (str "assistant") (field "content" (str "hello") end))
    ∷ obj (
        field "role" (str "assistant") (
          field "content" (str "x") (
            field "tool_calls"
              (arr (
                cons
                  (obj (
                    field "id" Value.undefined (
                      field "type" (str "function") (
                        field "function"
                          (obj (field "name" (str "") (field "arguments" (str "{}") end))) end))))
                  nil))
              end)))
    ∷ []

assembled : assemble_openai_stream parse (some stream) ≡ done expected
unfolding assemble_openai_stream line_step flatten modify apply_tool_delta
assembled = refl

assemble_openai_stream-IsAssembly_example : IsAssembly parse stream expected
assemble_openai_stream-IsAssembly_example =
    assemble_openai_stream-IsAssembly parse stream expected (ground (arith, eq_iff stream ""))
      assembled

abbrev arrived : List Value
arrived = choice 1 "x" ∷ choice 0 "he" ∷ choice 0 "llo" ∷ []

abbrev greeting : ChoiceBuilder
greeting = record fresh_choice { content = "hello"; content_delta_seen = true }

greeting_built : own_builder arrived 0 ≡ done greeting
unfolding apply_choice index_of
greeting_built = refl

own_builder-HoldsTexts_example : HoldsTexts (keep (has_index 0) arrived) greeting
own_builder-HoldsTexts_example = own_builder-HoldsTexts arrived 0 greeting greeting_built

lines_typed : all (line_typed parse) (split_newline stream) ≡ true
unfolding split_newline payload
lines_typed = refl

assemble_openai_stream-done_example :
    (messages : List Value) × (assemble_openai_stream parse (some stream) ≡ done messages)
assemble_openai_stream-done_example = assemble_openai_stream-done parse stream lines_typed

null_sent : any (sends_null parse) (split_newline "data: A\ndata: null") ≡ true
unfolding split_newline payload
null_sent = refl

assemble_openai_stream_of_null_example :
    assemble_openai_stream parse (some "data: A\ndata: null") ≢ done []
assemble_openai_stream_of_null_example =
    assemble_openai_stream_of_null parse "data: A\ndata: null" []
      (ground (arith, eq_iff "data: A\ndata: null" "")) null_sent
