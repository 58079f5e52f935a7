-- ===== src/ChatViewer.antt =====
-- The viewer of a recorded body (`ChatViewer` in frontend/src/components/ChatViewer.tsx): which messages
-- and tools it shows, with which estimates, and whether it can show them at all. ChatViewer/Bubble,
-- ChatViewer/Content and ChatViewer/TextBlock model what is shown of a message.
pub mod Visual
pub mod TextBlock
pub mod Content
pub mod Bubble
pub mod Cards
pub mod Stale
mod Tests
use ailens.Base.Outcome.{Outcome, done, type_error, untyped, ◌>>=◌}
use ailens.Base.{
  ℕ, ◌+◌, String, Bool, true, false, not, ◌||◌, ◌&&◌, List, [], ◌∷◌, Option, none, some, leb, ltb,
  ◌==◌, ℕ_has_eq, string_has_eq, if◌then◌else◌, is_nil, get_or, map,
}
use ailens.Cache.{Annotated, Message, Segments, ToolDefinition, annotate_cached_prefix}
use ailens.Messages.{Mode, request, response, extract_messages}
use ailens.Stream.{assemble_stream}
use ailens.Tools.{extract_tool_definitions}
use ailens.Value.{Value, null, opt_prop, string?}

pub data View : Type 0 where
  pretty raw_view : View

abbrev or_null : Option Value → Value
or_null none = null
or_null (some v) = v

abbrev or_zero : Option ℕ → ℕ
or_zero none = 0
or_zero (some n) = n

abbrev or_empty : Option String → String
or_empty none = ""
or_empty (some s) = s

abbrev chosen : List Value → List Value → List Value
chosen [] fallback = fallback
chosen (m ∷ ms) fallback = m ∷ ms

abbrev fresh_message : Value → Message
fresh_message body = record { body = body; cache_estimate = none }

-- `parse` is `JSON.parse`.
module _ (parse : String → Option Value) where
  -- `parseJSON`
  unfoldable pub parse_json : String → Value
  parse_json s = if s == "" then null else or_null (parse s)

  -- The assembled messages of a streamed response, or else those of the document.
  unfoldable pub messages_of : String → Mode → Outcome (List Value)
  unfolding parse_json assemble_stream extract_messages
  messages_of raw request = done (extract_messages (parse_json raw) request)
  messages_of raw response = assemble_stream parse (some raw) >>= λ (ms : List Value).
      done (chosen ms (extract_messages (parse_json raw) response))

  unfoldable pub tools_of : String → Mode → List ToolDefinition
  unfolding parse_json extract_tool_definitions
  tools_of raw request = extract_tool_definitions (parse_json raw)
  tools_of raw response = []

  -- `effectiveModel`, for the model that the page knows.
  unfoldable pub effective_model : String → String → String
  unfolding parse_json
  effective_model model raw =
      if model == "" then or_empty (string? (opt_prop "model" (parse_json raw))) else model

-- `cacheTokens`
unfoldable pub cache_tokens : Mode → Option ℕ → ℕ
cache_tokens request cached = or_zero cached
cache_tokens response cached = 0

-- What is shown: `segments` are there once their estimation has ended.
unfoldable pub annotated : Mode → List ToolDefinition → List Value → ℕ → Option Segments → Annotated
annotated request tools ms tokens segments =
    annotate_cached_prefix tools (map fresh_message ms) tokens segments
annotated response tools ms tokens segments = record {
  tool_definitions = tools;
  messages = map fresh_message ms;
}

unfoldable pub can_pretty : Annotated → Bool
can_pretty a = not (is_nil a.messages) || not (is_nil a.tool_definitions)

unfoldable pub effective_view : Annotated → View → View
unfolding can_pretty
effective_view a view = if can_pretty a then view else raw_view

-- The effect that estimates. A run of it has a number; `runs` have been started, and a run is cancelled
-- when the next one starts, since its cleanup comes first.
pub record Estimates : Type 0 where
  pub runs : ℕ
  pub segments : Option Segments

-- `setSegments(null)` at the start of a run. The effect runs when a render with the new inputs has been
-- committed; that render still had the old `segments`.
unfoldable pub start_run : Estimates → Estimates
start_run e = record { runs = e.runs + 1; segments = none }

-- The end of the estimation of a run, `none` where it is rejected.
unfoldable pub end_run : ℕ → Option Segments → Estimates → Estimates
end_run run next e = if run == e.runs then record e { segments = next } else e

-- Whether a run estimates at all.
unfoldable pub estimates_now : Mode → ℕ → Bool
estimates_now request tokens = ltb 0 tokens
estimates_now response tokens = false
