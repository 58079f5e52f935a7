-- ===== src/Anthropic/Tests.antt =====
-- Runs of the assembler of Anthropic streams.
use ailens.Base.Outcome.{done}
use ailens.Base.{ℕ, String, ◌≡◌, string_has_eq, refl, List, [], ◌∷◌, length, ◌≤◌}
use ailens.Anthropic.Blocks.{Block, text_block, tool_block, cut_call, message_of_blocks}
use ailens.Anthropic.Message.{assemble_anthropic_stream-done}
use ailens.Anthropic.{Event, assemble_anthropic_stream}
use ailens.Value.{Value, str, num, obj, arr, cons, nil, field, end}

abbrev delta : ℕ → String → Event
delta k text = record {
  event = "content_block_delta";
  object = obj (
      field "index" (num k)
        (field "delta" (obj (field "type" (str "text_delta") (field "text" (str text) end))) end));
}

abbrev begins : Event
begins = record {
  event = "content_block_start";
  object =
      obj (field "index" (num 0) (field "content_block" (obj (field "type" (str "text") end)) end));
}

abbrev tool_begins : Event
tool_begins = record {
  event = "content_block_start";
  object = obj (
      field "index" (num 1) (
        field "content_block"
          (obj
            (field "type" (str "tool_use") (field "id" (str "t1") (field "name" (str "ls") end))))
          end));
}

abbrev fragment : String → Event
fragment json = record {
  event = "content_block_delta";
  object = obj (
      field "index" (num 1) (
        field "delta"
          (obj (field "type" (str "input_json_delta") (field "partial_json" (str json) end))) end));
}

one_text :
    assemble_anthropic_stream (begins ∷ delta 0 "he" ∷ delta 0 "llo" ∷ [])
    ≡ done (obj (field "role" (str "assistant") (field "content" (str "hello") end)) ∷ [])
unfolding assemble_anthropic_stream
one_text = refl

-- The object that a tool call's input starts from is dropped when its fragments arrive.
one_tool :
    assemble_anthropic_stream (begins ∷ tool_begins ∷ fragment "{\"a\"" ∷ fragment ":1}" ∷ [])
    ≡ done (
        obj (
          field "role" (str "assistant") (
            field "content"
              (arr (
                cons
                  (obj (
                    field "type" (str "tool_use") (
                      field "id"
                        (str "t1")
                        (field "name" (str "ls") (field "input" (str "{\"a\":1}") end)))))
                  nil))
              end))
        ∷ [])
unfolding assemble_anthropic_stream
one_tool = refl

assemble_anthropic_stream-done_example :
    (messages : List Value) × (assemble_anthropic_stream (begins ∷ tool_begins ∷ tool_begins ∷ [])
      ≡ done messages)
    × (length messages ≤ 1)
assemble_anthropic_stream-done_example =
    assemble_anthropic_stream-done (begins ∷ tool_begins ∷ tool_begins ∷ [])

-- Two texts, one of them empty, and three calls, one without a fragment and one without its start.
abbrev some_blocks : List Block
some_blocks =
    text_block ("he" ∷ "llo" ∷ [])
    ∷ text_block []
    ∷ tool_block "t1" "ls" ("{\"a\"" ∷ ":1}" ∷ [])
    ∷ tool_block "t2" "pwd" []
    ∷ cut_call "{" ("}" ∷ [])
    ∷ []

abbrev ping : Event
ping = record { event = "ping"; object = obj end }

abbrev call_part : String → String → Value → Value
call_part id name input = obj (
    field "type" (str "tool_use")
      (field "id" (str id) (field "name" (str name) (field "input" input end))))

blocks_shown :
    message_of_blocks "assistant" some_blocks
    ≡ obj (
        field "role" (str "assistant") (
          field "content"
            (arr (
              cons (obj (field "type" (str "text") (field "text" (str "hello") end))) (
                cons (call_part "t1" "ls" (str "{\"a\":1}")) (
                  cons (call_part "t2" "pwd" (obj end)) (
                    cons
                      (obj (
                        field "type"
                          (str "tool_use")
                          (field "text" (str "") (field "input" (str "{}") end))))
                      nil)))))
            end))
      ∷ []
blocks_shown = refl
