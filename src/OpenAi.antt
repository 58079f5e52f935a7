-- ===== src/OpenAi.antt =====
-- `assembleOpenAIStream` (frontend/src/components/ChatViewer.tsx): the frames of a streamed chat
-- completion are folded back into one message for each choice.
-- `JSON.parse` is the parameter `parse`, `none` where it throws.
pub mod Indices
pub mod Chunks
pub mod Assembly
pub mod Contents
pub mod Failure
pub mod Typed
pub mod Total
mod Tests
use ailens.Base.{
  ℕ, String, Bool, true, false, not, ◌&&◌, ◌||◌, List, [], ◌∷◌, ◌++◌, Option, none, some, ◌==◌,
  string_has_eq, ℕ_has_eq, leb, map, if◌then◌else◌, is_nil,
}
use ailens.Base.Keyed.{Keyed, empty, lookup, modify}
use ailens.Base.Outcome.{Outcome, done, type_error, untyped, ◌>>=◌, fold, or_type_error, collect}
use ailens.Base.Text.{after, split_newline, trim}
use ailens.Value.{
  Value, undefined, null, bool, num, str, arr, obj, Fields, end, field, of_list, prop, opt_prop,
  truthy, or_else, string?, array?, is_text,
}
use Prim.Native.String
use mathlib.Core.List.{flatten}

abbrev cat : String → String → String
cat = String.◌++◌

pub record ToolCallBuilder : Type 0 where
  pub id : Value
  pub type : Value
  pub name : Value
  pub args : String

pub record ChoiceBuilder : Type 0 where
  pub role : Value
  pub content : String
  pub content_delta_seen : Bool
  pub reasoning_content : String
  pub finish_reason : String
  pub tools : Keyed ℕ ToolCallBuilder

-- `{ args: '' }`
abbrev pub fresh_tool : ToolCallBuilder
fresh_tool = record { id = undefined; type = undefined; name = undefined; args = "" }

-- What `choiceFor` creates; no finish reason is the empty one, which the code treats alike.
abbrev pub fresh_choice : ChoiceBuilder
fresh_choice = record {
  role = str "assistant";
  content = "";
  content_delta_seen = false;
  reasoning_content = "";
  finish_reason = "";
  tools = empty;
}

-- `v ?? 0` at an index, which the declared types make a number.
abbrev pub index_or_zero : Value → Outcome ℕ
index_or_zero undefined = done 0
index_or_zero null = done 0
index_or_zero (num n) = done n
index_or_zero _ = untyped

-- `x.index ?? 0`
unfoldable pub index_of : Value → Outcome ℕ
index_of x = do v ← or_type_error (prop "index" x); index_or_zero v

-- `args += v`, which coerces what is not a text.
abbrev append_args : Value → String → Outcome String
append_args (str s) args = done (cat args s)
append_args _ args = untyped

-- The body of the loop over `delta.tool_calls`, after the builder is found.
unfoldable pub apply_tool_delta : Value → ToolCallBuilder → Outcome ToolCallBuilder
apply_tool_delta tcd tb = do
  id ← or_type_error (prop "id" tcd)
  type ← or_type_error (prop "type" tcd)
  function ← or_type_error (prop "function" tcd)
  let name = opt_prop "name" function
  let arguments = opt_prop "arguments" function
  args ← if truthy arguments then append_args arguments tb.args else done tb.args
  done (record {
    id = if truthy id then id else tb.id;
    type = if truthy type then type else tb.type;
    name = if truthy name then name else tb.name;
    args = args;
  })

tool_step : Keyed ℕ ToolCallBuilder → Value → Outcome (Keyed ℕ ToolCallBuilder)
unfolding index_of
tool_step tools tcd = do k ← index_of tcd; modify fresh_tool k (apply_tool_delta tcd) tools

-- `typeof v === 'string' ? s + v : s`
abbrev pub append_text : String → Value → String
append_text s v = elim (string? v) [ none ↦ s | some t ↦ cat s t ]

abbrev pub tool_deltas : Value → List Value
tool_deltas v = elim (array? v) [ none ↦ [] | some l ↦ l ]

-- The part of the body under `if (!delta) continue`. Past it no property read can throw.
unfoldable pub apply_delta : Value → ChoiceBuilder → Outcome ChoiceBuilder
unfolding tool_step
apply_delta delta cb = do
  let role = opt_prop "role" delta
  tools ← fold tool_step cb.tools (tool_deltas (opt_prop "tool_calls" delta))
  done (record {
    role = if truthy role then role else cb.role;
    content = append_text cb.content (opt_prop "content" delta);
    content_delta_seen = cb.content_delta_seen || is_text (opt_prop "content" delta);
    reasoning_content = append_text cb.reasoning_content (opt_prop "reasoning_content" delta);
    finish_reason = cb.finish_reason;
    tools = tools;
  })

-- `typeof v === 'string' && v`, and else what stood before.
abbrev pub text_or : Value → String → String
text_or (str s) old = if s == "" then old else s
text_or _ old = old

-- The body of the loop over `chunk.choices`, after the builder is found.
unfoldable pub apply_choice : Value → ChoiceBuilder → Outcome ChoiceBuilder
unfolding apply_delta
apply_choice choice cb = do
  finish ← or_type_error (prop "finish_reason" choice)
  delta ← or_type_error (prop "delta" choice)
  let finished = record cb { finish_reason = text_or finish cb.finish_reason }
  if truthy delta then apply_delta delta finished else done finished

pub choice_step : Keyed ℕ ChoiceBuilder → Value → Outcome (Keyed ℕ ChoiceBuilder)
unfolding index_of apply_choice
choice_step choices choice = do
  k ← index_of choice
  modify fresh_choice k (apply_choice choice) choices

-- The text behind `data:` on a line, unless there is none or it is the end mark.
pub payload : String → Option String
unfolding after trim
payload line = elim (after "data:" line) [
  | none ↦ none
  | some rest ↦ let text = trim rest in if text == "" || text == "[DONE]" then none else some text
]

-- The elements of `chunk.choices`, none where it is no array.
pub choices_of : Value → Outcome (List Value)
choices_of chunk = do
  choices ← or_type_error (prop "choices" chunk)
  done (elim (array? choices) [ none ↦ [] | some l ↦ l ])

-- `choiceOrder.sort((a, b) => a - b)`
pub insert : ℕ → List ℕ → List ℕ
insert k [] = k ∷ []
insert k (j ∷ js) = if leb k j then k ∷ j ∷ js else j ∷ insert k js

unfoldable pub sort : List ℕ → List ℕ
unfolding insert
sort [] = []
sort (k ∷ ks) = insert k (sort ks)

unfoldable pub tool_call : Keyed ℕ ToolCallBuilder → ℕ → Outcome Value
unfolding lookup
tool_call tools k = do
  tb ← or_type_error (lookup k tools.entries)
  let function = obj (field "name" (or_else tb.name (str "")) (field "arguments" (str tb.args) end))
  done (
      obj (
        field "id" tb.id
          (field "type" (or_else tb.type (str "function")) (field "function" function end))))

abbrev pub is_blank : ChoiceBuilder → Bool
is_blank cb =
    cb.content == ""
    && not cb.content_delta_seen
    && cb.reasoning_content == ""
    && is_nil cb.tools.order
    && cb.finish_reason == ""

-- The message of a builder: the fields that the code sets, in its order.
unfoldable pub message_of : ChoiceBuilder → Outcome Value
unfolding collect tool_call
message_of cb = do
  calls ← collect (tool_call cb.tools) cb.tools.order
  let with_calls =
      if is_nil cb.tools.order then end else field "tool_calls" (arr (of_list calls)) end
  let with_reasoning =
      if cb.reasoning_content == ""
      then with_calls
      else field "reasoning_content" (str cb.reasoning_content) with_calls
  let with_content =
      if not (cb.content == "") || cb.content_delta_seen || not (cb.finish_reason == "")
      then field "content" (str cb.content) with_reasoning
      else with_reasoning
  done (obj (field "role" cb.role with_content))

-- The message of one index, if its builder holds anything.
unfoldable pub emit : Keyed ℕ ChoiceBuilder → ℕ → Outcome (List Value)
unfolding lookup message_of
emit choices k = do
  cb ← or_type_error (lookup k choices.entries)
  if is_blank cb then done [] else (message_of cb >>= λ m. done (m ∷ []))

module _ (parse : String → Option Value) where
  -- One round of the loop over the lines.
  pub line_step : Keyed ℕ ChoiceBuilder → String → Outcome (Keyed ℕ ChoiceBuilder)
  unfolding payload choices_of choice_step
  line_step choices line = elim (payload line) [
    | none ↦ done choices
    | some text ↦ elim (parse text) [
      | none ↦ done choices
      | some chunk ↦ choices_of chunk >>= λ l. fold choice_step choices l
    ]
  ]

  pub read_stream : String → Outcome (Keyed ℕ ChoiceBuilder)
  unfolding line_step split_newline
  read_stream raw = fold line_step empty (split_newline raw)

  unfoldable pub assemble_openai_stream : Option String → Outcome (List Value)
  unfolding read_stream sort emit collect
  assemble_openai_stream none = done []
  assemble_openai_stream (some raw) = if raw == "" then done [] else (do
    choices ← read_stream raw
    messages ← collect (emit choices) (sort choices.order)
    done (flatten messages))
