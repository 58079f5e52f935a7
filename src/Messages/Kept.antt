-- ===== src/Messages/Kept.antt =====
-- What of a Responses body's output is shown.
use mathlib.Core.List.{flatten}
use text.Mathlib.TextEquality.{eq_iff}
use ailens.Base.{
  String, Bool, true, false, ◌||◌, List, [], ◌∷◌, ◌++◌, none, ◌&&◌, some, ◌==◌, string_has_eq, map,
  if◌then◌else◌, ◌≡◌, refl, sym, ap, ap₂, ◌∙◌, arith,
}
use ailens.Messages.{
  message, text_part, normalize_part, normalize_parts, normalize_responses_content, item_parts,
  output_parts, output_calls, response_content, extract_responses_response, extract_messages,
  response,
}
use ailens.Value.{
  Value, str, obj, arr, Fields, field, end, items, of_list, items-of_list, opt_prop, truthy,
  or_else, array?, is_text,
}

-- A part of an output's message, and an item with a list of texts.
abbrev pub output_text : String → Value
output_text t = obj (field "type" (str "output_text") (field "text" (str t) end))

abbrev pub message_item : List Value → Value
message_item parts = obj (
    field "type" (str "message")
      (field "role" (str "assistant") (field "content" (arr (of_list parts)) end)))

-- A Responses body with an output, beside other fields: a body of another API has choices or a role,
-- and some clients put the text of the output into `output_text` as well.
pub record HasOutput (body : Fields) (output : List Value) : Type 0 where
  pub no_choices : array? (opt_prop "choices" (obj body)) ≡ none
  pub no_role : truthy (opt_prop "role" (obj body)) ≡ false
  pub no_text : truthy (opt_prop "output_text" (obj body)) ≡ false
  pub items : opt_prop "output" (obj body) ≡ arr (of_list output)

normalize_parts-texts :
    (ts : List String) → normalize_parts (map output_text ts) ≡ map (λ t. text_part (str t)) ts
unfolding normalize_parts
normalize_parts-texts [] = refl
normalize_parts-texts (t ∷ ts) = ap (λ l. text_part (str t) ∷ l) (normalize_parts-texts ts)

or_else-text : (t : String) → or_else (str t) (str "") ≡ str t
or_else-text t = ground (arith, eq_iff t "")

-- What the content of an item adds, once it is read.
abbrev read_parts : Value → List Value
read_parts (str s) = text_part (str s) ∷ []
read_parts (arr vs) = items vs
read_parts _ = []

item_parts-texts :
    (ts : List String)
    → item_parts (message_item (map output_text ts)) ≡ map (λ t. text_part (str t)) ts
unfolding item_parts
item_parts-texts [] = refl
item_parts-texts (t ∷ []) = ap read_parts (or_else-text t)
item_parts-texts (t ∷ u ∷ ts) =
    ap (λ l. text_part (str t) ∷ text_part (str u) ∷ l)
      (items-of_list _
        ∙ ap normalize_parts (items-of_list (map output_text ts))
        ∙ normalize_parts-texts ts)

abbrev pub items_of_texts : List (List String) → List Value
items_of_texts tss = map (λ ts. message_item (map output_text ts)) tss

map-append {ℓ κ} :
    {A : Type ℓ} {B : Type κ} (f : A → B) (xs ys : List A) → map f (xs ++ ys) ≡ map f xs ++ map f ys
map-append f [] ys = refl
map-append f (x ∷ xs) ys = ap (λ l. f x ∷ l) (map-append f xs ys)

output_parts-texts :
    (tss : List (List String))
    → output_parts (items_of_texts tss) ≡ map (λ t. text_part (str t)) (flatten tss)
unfolding output_parts flatten
output_parts-texts [] = refl
output_parts-texts (ts ∷ tss) =
    ap₂ (λ l m. l ++ m) (item_parts-texts ts) (output_parts-texts tss)
    ∙ sym (map-append (λ t. text_part (str t)) ts (flatten tss))

output_calls-texts : (tss : List (List String)) → output_calls (items_of_texts tss) ≡ []
unfolding output_calls
output_calls-texts [] = refl
output_calls-texts (ts ∷ tss) = output_calls-texts tss

-- The message of a list of texts: none if there is no text, one text as it is, and else each of them
-- as a part.
abbrev pub shown : List String → List Value
shown [] = []
shown (t ∷ []) = if t == "" then [] else message (str "assistant") (str t) ∷ []
shown ts = message (str "assistant") (arr (of_list (map (λ t. text_part (str t)) ts))) ∷ []

-- The message of the parts of an output without tool calls.
abbrev of_parts : List Value → List Value
of_parts parts =
    if truthy (response_content parts)
    then message (str "assistant") (response_content parts) ∷ []
    else []

shown-of_parts : (ts : List String) → of_parts (map (λ t. text_part (str t)) ts) ≡ shown ts
shown-of_parts [] = refl
shown-of_parts (t ∷ []) = ground (arith, eq_iff t "")
shown-of_parts (t ∷ u ∷ ts) = refl

if_or_false {ℓ} :
    {A : Type ℓ} (b : Bool) (x y : A) → (if b || false then x else y) ≡ (if b then x else y)
if_or_false true x y = refl
if_or_false false x y = refl

-- `!msg.content`, where the text of the output is not given.
content_without_text :
    (b c : Bool) (x y : Value) → c ≡ false → ◌≡◌ {A = Value} (if b && c then x else y) y
content_without_text true c x y h = rw h refl
content_without_text false c x y h = refl

extract_messages_of_response :
    (fs : Fields) (output : List Value)
    → HasOutput fs output
    → extract_messages (obj fs) response ≡ extract_responses_response (obj fs)
unfolding extract_messages
extract_messages_of_response fs output has = ground (arith, has.no_choices, has.no_role)

extract_responses_response_of_output :
    (fs : Fields) (output : List Value)
    → HasOutput fs output
    → output_calls output ≡ []
    → extract_responses_response (obj fs) ≡ of_parts (output_parts output)
unfolding extract_responses_response
extract_responses_response_of_output fs output has h =
    rw
      (
        has.items,
        items-of_list output,
        h,
        content_without_text (is_text (opt_prop "output_text" (obj fs)))
            (truthy (opt_prop "output_text" (obj fs))) (opt_prop "output_text" (obj fs))
            (response_content (output_parts output)) has.no_text,
      )
      (if_or_false (truthy (response_content (output_parts output)))
        (message (str "assistant") (response_content (output_parts output)) ∷ []) [])

extract_messages_of_output :
    (fs : Fields) (output : List Value)
    → HasOutput fs output
    → output_calls output ≡ []
    → extract_messages (obj fs) response ≡ of_parts (output_parts output)
extract_messages_of_output fs output has h =
    extract_messages_of_response fs output has
    ∙ extract_responses_response_of_output fs output has h

-- If a body has an output, and neither choices nor a role nor an `output_text`, and the output is
-- messages that hold a type, a role and a list of `output_text` parts, then the viewer shows all
-- the texts, in order: a single one as the message's content, more of them as its parts.
pub extract_messages_of_texts :
    (fs : Fields) (tss : List (List String))
    → HasOutput fs (items_of_texts tss)
    → extract_messages (obj fs) response ≡ shown (flatten tss)
extract_messages_of_texts fs tss has =
    extract_messages_of_output fs (items_of_texts tss) has (output_calls-texts tss)
    ∙ ap of_parts (output_parts-texts tss)
    ∙ shown-of_parts (flatten tss)

-- A part that is no text: a refusal, for one.
abbrev pub other_part : String → Fields → Value
other_part type fs = obj (field "type" (str type) fs)

-- A type that the viewer takes for a text or an image.
abbrev pub is_known : String → Bool
is_known type =
    type == "input_text" || type == "output_text" || type == "text" || type == "input_image"

module _ (type : String) (fs : Fields) (other : is_known type ≡ false) where
  normalize_part_of_other : normalize_part (other_part type fs) ≡ other_part type fs ∷ []
  unfolding normalize_part
  normalize_part_of_other = ground arith

  normalize_content_of_other :
      normalize_responses_content (arr (of_list (other_part type fs ∷ [])))
      ≡ some (arr (of_list (other_part type fs ∷ [])))
  unfolding normalize_responses_content
  normalize_content_of_other = rw normalize_part_of_other (ground arith)

  output_parts_of_other :
      output_parts (message_item (other_part type fs ∷ []) ∷ []) ≡ other_part type fs ∷ []
  unfolding output_parts
  output_parts_of_other =
      let a : (type == "input_text") ≡ false = ground arith in
      let b : (type == "output_text") ≡ false = ground arith in
      let c : (type == "text") ≡ false = ground arith in
      let d : (type == "input_image") ≡ false = ground arith in rw (a, b, c, d) (ground arith)

  no_calls : output_calls (message_item (other_part type fs ∷ []) ∷ []) ≡ []
  unfolding output_calls
  no_calls = refl

  -- If a body has an output, and neither choices nor a role nor an `output_text`, and the output is one
  -- message that holds a type, a role and one part, which is neither a text nor an image and has no
  -- text, then the viewer shows no message.
  pub extract_messages_of_other_part :
      (body : Fields)
      → HasOutput body (message_item (other_part type fs ∷ []) ∷ [])
      → truthy (opt_prop "text" (other_part type fs)) ≡ false
      → extract_messages (obj body) response ≡ []
  extract_messages_of_other_part body has no_text =
      extract_messages_of_output body (message_item (other_part type fs ∷ []) ∷ []) has no_calls
      ∙ ap of_parts output_parts_of_other
      ∙ ground arith
