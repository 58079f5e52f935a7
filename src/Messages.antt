-- ===== src/Messages.antt =====
-- `extractMessages` and what it calls (frontend/src/components/ChatViewer.tsx): the messages of a
-- request's or a response's body, in the shapes of the APIs that the viewer knows.
mod Kept
mod Tests
use ailens.Base.Text.{trim}
use ailens.Base.{
  String, Bool, true, false, not, ◌&&◌, ◌||◌, List, [], ◌∷◌, ◌++◌, Option, none, some, ◌==◌,
  string_has_eq, is_nil, if◌then◌else◌,
}
use ailens.Value.{
  Value, str, obj, arr, Fields, field, end, Items, of_list, items, opt_prop, truthy, or_else,
  is_str, is_text, is_object, string?, array?, is_array,
}

-- `typeof v === 'string' && v.trim()`
unfoldable pub is_full_text : Value → Bool
unfolding trim
is_full_text v = elim (string? v) [ none ↦ false | some s ↦ not (trim s == "") ]

-- `{ role, content }`
abbrev pub message : Value → Value → Value
message role content = obj (field "role" role (field "content" content end))

abbrev pub text_part : Value → Value
text_part text = obj (field "type" (str "text") (field "text" text end))

-- What a part of a Responses message becomes.
unfoldable pub normalize_part : Value → List Value
normalize_part (str s) = text_part (str s) ∷ []
normalize_part part =
    let type = opt_prop "type" part in
    if not (is_object part)
    then []
    else if (is_str type "input_text" || is_str type "output_text" || is_str type "text")
        && is_text (opt_prop "text" part)
    then text_part (opt_prop "text" part) ∷ []
    else if is_str type "input_image" && truthy (opt_prop "image_url" part)
    then obj (field "type" (str "image_url") (field "image_url" (opt_prop "image_url" part) end))
      ∷ []
    else part ∷ []

unfoldable pub normalize_parts : List Value → List Value
unfolding normalize_part
normalize_parts [] = []
normalize_parts (part ∷ parts) = normalize_part part ++ normalize_parts parts

-- No parts are no content, a single text stands for itself.
abbrev pub content_of_parts : List Value → Option Value
content_of_parts [] = none
content_of_parts (part ∷ []) =
    if is_str (opt_prop "type" part) "text"
    then some (or_else (opt_prop "text" part) (str ""))
    else some (arr (of_list (part ∷ [])))
content_of_parts (part ∷ parts) = some (arr (of_list (part ∷ parts)))

unfoldable pub normalize_responses_content : Value → Option Value
unfolding normalize_parts
normalize_responses_content (str s) = some (str s)
normalize_responses_content (arr vs) = content_of_parts (normalize_parts (items vs))
normalize_responses_content _ = none

-- The role and the content of a Responses message.
unfoldable pub normalize_responses_message : Value → Option (Value × Value)
unfolding normalize_responses_content
normalize_responses_message item =
    let is_message = is_str (opt_prop "type" item) "message" in
    let content = opt_prop "content" item in
    let role = or_else (opt_prop "role" item) (str (if is_message then "assistant" else "user")) in
    if not (is_object item)
    then none
    else if not is_message && not (truthy (opt_prop "role" item)) && not (truthy content)
    then none
    else elim (normalize_responses_content content) [ none ↦ none | some c ↦ some (role, c) ]

unfoldable pub input_messages : List Value → List Value
unfolding normalize_responses_message
input_messages [] = []
input_messages (item ∷ more) =
    let rest = input_messages more in
    elim (normalize_responses_message item) [ none ↦ rest | some m ↦ message m.0 m.1 ∷ rest ]

abbrev pub input_of : Value → List Value
unfolding input_messages
input_of (str s) = message (str "user") (str s) ∷ []
input_of (arr vs) = input_messages (items vs)
input_of _ = []

unfoldable pub extract_responses_request : Value → List Value
unfolding input_messages is_full_text
extract_responses_request p =
    let instructions = opt_prop "instructions" p in
    (if is_full_text instructions then message (str "developer") instructions ∷ [] else [])
    ++ input_of (opt_prop "input" p)

-- The parts that an item of the output adds.
unfoldable pub item_parts : Value → List Value
unfolding normalize_responses_message
item_parts item =
    if is_str (opt_prop "type" item) "message"
    then (elim (normalize_responses_message item) [
      | none ↦ []
      | some m ↦ elim m.1 [ str s ↦ text_part (str s) ∷ [] | arr vs ↦ items vs | _ ↦ [] ]
    ])
    else []

unfoldable pub item_calls : Value → List Value
item_calls item =
    if is_str (opt_prop "type" item) "function_call"
    then obj (
        field "id" (or_else (opt_prop "id" item) (opt_prop "call_id" item)) (
          field "type" (str "function") (
            field "function"
              (obj (
                field "name" (or_else (opt_prop "name" item) (str ""))
                  (field "arguments" (or_else (opt_prop "arguments" item) (str "")) end)))
              end)))
      ∷ []
    else []

unfoldable pub output_parts : List Value → List Value
unfolding item_parts
output_parts [] = []
output_parts (item ∷ more) = item_parts item ++ output_parts more

unfoldable pub output_calls : List Value → List Value
unfolding item_calls
output_calls [] = []
output_calls (item ∷ more) = item_calls item ++ output_calls more

-- `content.length === 1 ? content[0].text || '' : content`
abbrev pub response_content : List Value → Value
response_content [] = str ""
response_content (part ∷ []) = or_else (opt_prop "text" part) (str "")
response_content parts = arr (of_list parts)

abbrev pub elements_of : Value → List Value
elements_of v = elim (array? v) [ none ↦ [] | some vs ↦ vs ]

unfoldable pub extract_responses_response : Value → List Value
unfolding output_parts output_calls
extract_responses_response p =
    let output = elements_of (opt_prop "output" p) in
    let calls = output_calls output in
    let text = opt_prop "output_text" p in
    let content =
      if is_text text && truthy text then text else response_content (output_parts output) in
    if truthy content || not (is_nil calls)
    then obj (
        field "role" (str "assistant") (
          field "content" content
            (if is_nil calls then end else field "tool_calls" (arr (of_list calls)) end)))
      ∷ []
    else []

unfoldable pub extract_request_messages : Value → List Value
unfolding is_full_text
extract_request_messages p =
    let system = opt_prop "system" p in
    (if is_full_text system || not (is_nil (elements_of system))
      then message (str "system") system ∷ []
      else [])
    ++ elements_of (opt_prop "messages" p)

unfoldable pub choice_messages : List Value → List Value
choice_messages [] = []
choice_messages (c ∷ cs) =
    let rest = choice_messages cs in
    if is_object (opt_prop "message" c) then opt_prop "message" c ∷ rest else rest

pub data Mode : Type 0 where
  request response : Mode

abbrev pub extract_request : Value → List Value
unfolding extract_responses_request extract_request_messages
extract_request p =
    let messages = extract_responses_request p in
    if is_nil messages then extract_request_messages p else messages

abbrev pub extract_response : Value → List Value
unfolding choice_messages extract_responses_response
extract_response p =
    let role = opt_prop "role" p in
    let content = opt_prop "content" p in
    elim (array? (opt_prop "choices" p)) [
      | some choices ↦ choice_messages choices
      | none ↦
          if truthy role && (is_text content || is_array content)
          then message role content ∷ []
          else extract_responses_response p
    ]

unfoldable pub extract_messages : Value → Mode → List Value
unfolding extract_request extract_response
extract_messages p mode =
    if truthy p
    then (elim mode [ request ↦ extract_request p | response ↦ extract_response p ])
    else []
