-- ===== src/Messages/Tests.antt =====
-- Bodies, and the messages that are shown of them.
use mathlib.Core.List.{flatten}
use ailens.Base.{◌≡◌, refl, List, [], ◌∷◌}
use ailens.Messages.Kept.{
  HasOutput, items_of_texts, message_item, other_part, extract_messages_of_texts,
  extract_messages_of_other_part,
}
use ailens.Messages.{message, text_part, extract_messages, request, response}
use ailens.Value.{Value, Fields, str, obj, arr, of_list, field, end}

chat_request :
    extract_messages
      (obj (
        field "system"
          (str "be brief")
          (field "messages" (arr (of_list (message (str "user") (str "hi") ∷ []))) end)))
      request
    ≡ message (str "system") (str "be brief") ∷ message (str "user") (str "hi") ∷ []
unfolding extract_messages
chat_request = refl

responses_request :
    extract_messages (obj (field "instructions" (str " ") (field "input" (str "hi") end))) request
    ≡ message (str "user") (str "hi") ∷ []
unfolding extract_messages
responses_request = refl

abbrev answer : List Value → Fields
answer output =
    field "id" (str "resp_1") (field "output" (arr (of_list output)) (field "model" (str "m") end))

answer-HasOutput : (output : List Value) → HasOutput (answer output) output
answer-HasOutput output = record { no_choices = refl; no_role = refl; no_text = refl; items = refl }

extract_messages_of_texts_example :
    extract_messages (obj (answer (items_of_texts (("a" ∷ []) ∷ [] ∷ ("b" ∷ []) ∷ [])))) response
    ≡ message (str "assistant") (arr (of_list (text_part (str "a") ∷ text_part (str "b") ∷ [])))
      ∷ []
unfolding flatten
extract_messages_of_texts_example =
    extract_messages_of_texts (answer (items_of_texts (("a" ∷ []) ∷ [] ∷ ("b" ∷ []) ∷ [])))
      (("a" ∷ []) ∷ [] ∷ ("b" ∷ []) ∷ []) (answer-HasOutput _)

abbrev refusal : Fields
refusal = field "refusal" (str "I cannot help with that.") end

extract_messages_of_other_part_example :
    extract_messages (obj (answer (message_item (other_part "refusal" refusal ∷ []) ∷ []))) response
    ≡ []
extract_messages_of_other_part_example =
    extract_messages_of_other_part "refusal" refusal refl
      (answer (message_item (other_part "refusal" refusal ∷ []) ∷ [])) (answer-HasOutput _) refl
