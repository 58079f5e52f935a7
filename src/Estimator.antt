-- ===== src/Estimator.antt =====
-- The estimates of a request's tokens (frontend/src/lib/chatTokenEstimator.ts). A tokenizer is a
-- parameter, the count of the tokens of a text; `none` stands for one that could not be loaded. The
-- bodies keep to the declared types: a field that is to be a text is one, or it is missing.
pub mod Heuristic
pub mod Think
pub mod Turns
mod Tests
use Prim.Native.Char.{Char, code}
use Prim.Native.String.{String, [] as empty_text, ◌∷◌ as cons_text, ◌++◌ as cat}
use ailens.Base.Decimal.{char_at}
use ailens.Base.Text.{after, concat, is_space, starts_with, trim}
use ailens.Base.{
  ℕ, ◌+◌, ◌*◌, ◌-◌, ◌/◌, Bool, true, false, not, ◌&&◌, ◌||◌, List, [], ◌∷◌, Option, none, some,
  ◌==◌, ℕ_has_eq, string_has_eq, any, is_nil, leb, map, if◌then◌else◌,
}
use ailens.Cache.{Segments}
use ailens.Json.{stable_stringify}
use ailens.Value.{
  Value, str, obj, arr, Fields, field, end, Items, cons, nil, opt_prop, truthy, array?, is_text,
  is_array, text_of,
}

-- `s.toLowerCase()` where it matters for a comparison with an ASCII text: besides A to Z the Kelvin
-- sign alone becomes an ASCII letter.
abbrev lower_char : Char → String
lower_char c =
    if leb 65 (code c) && leb (code c) 90
    then char_at (code c - 65) "abcdefghijklmnopqrstuvwxyz"
    else if code c == 0x212a
    then "k"
    else cons_text c empty_text

unfoldable pub lower : String → String
lower empty_text = ""
lower (cons_text c s) = cat (lower_char c) (lower s)

-- `s.includes(p)`
unfoldable pub includes : String → String → Bool
unfolding starts_with
includes p empty_text = starts_with p empty_text
includes p (cons_text c s) = starts_with p (cons_text c s) || includes p s

unfoldable pub is_deepseek_model : String → Bool
unfolding includes lower
is_deepseek_model model = includes "deepseek" (lower model)

pub data Encoding : Type 0 where
  o200k_base cl100k_base : Encoding

abbrev o200k_names : List String
o200k_names = "gpt-5" ∷ "gpt-4o" ∷ "gpt-4.1" ∷ "gpt-4.5" ∷ "o1" ∷ "o3" ∷ "o4" ∷ []

abbrev cl100k_names : List String
cl100k_names = "gpt-4" ∷ "gpt-3.5" ∷ "gpt-35" ∷ "text-embedding-3" ∷ "text-embedding-ada-002" ∷ []

unfoldable pub encoding_for_openai_model : String → Option Encoding
unfolding starts_with lower
encoding_for_openai_model model =
    let m = lower model in
    if m == ""
    then none
    else if any (λ p. starts_with p m) o200k_names
    then some o200k_base
    else if any (λ p. starts_with p m) cl100k_names
    then some cl100k_base
    else none

-- `contentPartToText`, and the text of a part's own content if that is a text or a list.
unfoldable mutual
  unfolding stable_stringify lower

  pub content_part_to_text : Value → String
  content_part_to_text (obj fs) =
      let content = own_content fs in
      if lower (text_of (opt_prop "type" (obj fs))) == "text" && is_text (opt_prop "text" (obj fs))
      then text_of (opt_prop "text" (obj fs))
      else elim content [ some t ↦ t | none ↦ stable_stringify (obj fs) ]
  content_part_to_text v = stable_stringify v

  pub own_content : Fields → Option String
  own_content end = none
  own_content (field k v fs) =
      let here = nested_text v in let rest = own_content fs in if k == "content" then here else rest

  pub nested_text : Value → Option String
  nested_text (str t) = some t
  nested_text (arr vs) = some (parts_text vs)
  nested_text _ = none

  pub parts_text : Items → String
  parts_text nil = ""
  parts_text (cons v vs) = cat (content_part_to_text v) (parts_text vs)

unfoldable pub content_to_text : Value → String
unfolding content_part_to_text
content_to_text (str t) = t
content_to_text (arr vs) = parts_text vs
content_to_text _ = ""

-- `content.slice(content.lastIndexOf('</think>') + 8)`, `none` where the marker does not occur.
unfoldable pub behind_last : String → String → Option String
unfolding after
behind_last marker empty_text = after marker empty_text
behind_last marker (cons_text c s) =
    let later = behind_last marker s in
    let here = after marker (cons_text c s) in elim later [ some t ↦ some t | none ↦ here ]

unfoldable pub strip_think : String → String
unfolding behind_last
strip_think content = elim (behind_last "</think>" content) [ some t ↦ t | none ↦ content ]

-- The ideographs, the kana and the syllables that the regular expression names.
abbrev pub is_cjk : ℕ → Bool
is_cjk c =
    leb 0x4e00 c && leb c 0x9fff || leb 0x3040 c && leb c 0x30ff || leb 0xac00 c && leb c 0xd7af

-- The counters of the loop.
pub record Counts : Type 0 where
  pub cjk : ℕ
  pub other : ℕ
  pub whitespace : ℕ

unfoldable pub counts : String → Counts
unfolding is_space
counts empty_text = record { cjk = 0; other = 0; whitespace = 0 }
counts (cons_text c s) =
    let rest = counts s in
    if is_space (code c)
    then record rest { whitespace = rest.whitespace + 1 }
    else if is_cjk (code c)
    then record rest { cjk = rest.cjk + 1 }
    else record rest { other = rest.other + 1 }

-- `Math.ceil(n / 3.5)` is the ceiling of `2 * n / 7`.
unfoldable pub heuristic_count : String → ℕ
unfolding trim counts
heuristic_count text =
    let n = counts text in
    if trim text == "" then 0 else n.cjk + (2 * (n.other + n.whitespace) + 6) / 7

-- A field of a message, the empty text where it is missing.
abbrev pub text_field : String → Value → String
text_field k message = text_of (opt_prop k message)

-- `deepSeekToolCallsText`
unfoldable pub deepseek_tool_calls_text : Value → String
unfolding stable_stringify
deepseek_tool_calls_text message = elim (array? (opt_prop "tool_calls" message)) [
  | none ↦ ""
  | some calls ↦ if is_nil calls then "" else stable_stringify (opt_prop "tool_calls" message)
]

-- The variables `seenSystem` and `inToolOutput`.
pub record Turn : Type 0 where
  pub seen_system : Bool
  pub in_tool_output : Bool

abbrev bos : String
bos = "<｜begin▁of▁sentence｜>"

abbrev eos : String
eos = "<｜end▁of▁sentence｜>"

-- The text that is counted for a message, and the variables behind it.
unfoldable pub turn_step : Turn → Value → String × Turn
unfolding content_to_text strip_think deepseek_tool_calls_text lower
turn_step turn message =
    let role = lower (text_field "role" message) in
    let content = content_to_text (opt_prop "content" message) in
    if role == "system"
    then (
      cat (if turn.seen_system then "\n\n" else bos) content,
      record turn { seen_system = true },
    )
    else if role == "user"
    then (cat "<｜User｜>" content, record turn { in_tool_output = false })
    else if role == "assistant"
    then (if turn.in_tool_output
        then (
          cat "<｜tool▁outputs▁end｜>" (cat (strip_think content) eos),
          record turn { in_tool_output = false },
        )
        else (
          cat "<｜Assistant｜>"
              (cat (strip_think content) (cat (deepseek_tool_calls_text message) eos)),
          turn,
        ))
    else if role == "tool"
    then (
      cat
          (if turn.in_tool_output
            then "<｜tool▁output▁begin｜>"
            else "<｜tool▁outputs▁begin｜><｜tool▁output▁begin｜>")
          (cat content "<｜tool▁output▁end｜>"),
      record turn { in_tool_output = true },
    )
    else (stable_stringify message, turn)

unfoldable pub turn_texts : Turn → List Value → List String
unfolding turn_step
turn_texts turn [] = []
turn_texts turn (m ∷ ms) = let (text, next) = turn_step turn m in text ∷ turn_texts next ms

abbrev pub first_turn : Turn
first_turn = record { seen_system = false; in_tool_output = false }

abbrev Count : Type 0
Count = String → ℕ

-- The estimates with the DeepSeek tokenizer; `tools` are the `raw` fields.
unfoldable pub estimate_deepseek_segments : Count → List Value → List Value → Segments
unfolding turn_texts
estimate_deepseek_segments count tools messages = record {
  tool_tokens = map (λ tool. count (stable_stringify tool)) tools;
  message_tokens = map count (turn_texts first_turn messages);
}

unfoldable pub estimate_openai_message_tokens : Count → Value → ℕ
unfolding content_to_text stable_stringify
estimate_openai_message_tokens count message =
    let optional =
      λ (k : String). if text_field k message == "" then 0 else count (text_field k message) in
    let stringified = λ (k : String).
      if truthy (opt_prop k message) then count (stable_stringify (opt_prop k message)) else 0 in
    3
    + count (text_field "role" message)
    + (if text_field "name" message == "" then 0 else 1 + count (text_field "name" message))
    + optional "tool_call_id"
    + count (content_to_text (opt_prop "content" message))
    + optional "reasoning_content"
    + stringified "tool_calls"
    + stringified "function_call"

unfoldable pub estimate_openai_segments : Count → List Value → List Value → Segments
unfolding estimate_openai_message_tokens
estimate_openai_segments count tools messages = record {
  tool_tokens = map (λ tool. count (stable_stringify tool)) tools;
  message_tokens = map (estimate_openai_message_tokens count) messages;
}

unfoldable pub estimate_heuristic_segments : List Value → List Value → Segments
unfolding heuristic_count
estimate_heuristic_segments tools messages = record {
  tool_tokens = map (λ tool. heuristic_count (stable_stringify tool)) tools;
  message_tokens = map (λ m. heuristic_count (stable_stringify m)) messages;
}

-- `estimateRequestTokenSegments`: what fails falls back to the estimate by characters.
unfoldable pub estimate_request_token_segments :
    Option Count → (Encoding → Option Count) → String → List Value → List Value → Segments
unfolding is_deepseek_model encoding_for_openai_model estimate_deepseek_segments
    estimate_openai_segments estimate_heuristic_segments
estimate_request_token_segments deepseek tiktoken model tools messages =
    let fallback = estimate_heuristic_segments tools messages in
    if is_deepseek_model model
    then elim deepseek [
      | none ↦ fallback
      | some count ↦ estimate_deepseek_segments count tools messages
    ]
    else elim (encoding_for_openai_model model) [
      | none ↦ fallback
      | some encoding ↦ elim (tiktoken encoding) [
        | none ↦ fallback
        | some count ↦ estimate_openai_segments count tools messages
      ]
    ]
