-- ===== src/Responses/Calls/Message.antt =====
-- What `assembleResponsesStream` makes of the events of calls.
use ailens.Base.Keyed.{lookup, value_of}
use ailens.Base.{String, List, string_has_eq, ℕ_has_eq}
use ailens.OpenAi.{ToolCallBuilder, fresh_tool}
use ailens.Responses.{Assembly, packed_call, opening}
use ailens.Value.{Value}
use ailens.Responses.Calls.{Call}
use ailens.Responses.Calls.States.{put_at_all}

call_in : List (String × ToolCallBuilder) → String → Value
call_in es k = packed_call (value_of fresh_tool (lookup k es))

-- The state behind the events of calls.
last_state : List Call → Assembly
last_state cs = put_at_all opening cs
