-- ===== src/Stream/Tests.antt =====
-- Printed bodies, and what is shown of them.
use text.Mathlib.TextEquality.{eq_iff}
use ailens.Anthropic.Blocks.{message_of_blocks, text_block}
use ailens.Base.Outcome.{done}
use ailens.Base.Text.{trim, join}
use ailens.Base.{
  String, ◌≡◌, ◌≢◌, refl, List, [], ◌∷◌, Option, none, some, ◌==◌, string_has_eq, arith,
  if◌then◌else◌,
}
use ailens.Sse.Blocks.{Block}
use ailens.Stream.{assemble_stream, is_response}
use ailens.Stream.Printed.{
  Sent, printed, IsSent, assemble_stream-printed_deltas, assemble_stream-printed_message,
}
use ailens.Value.{Value, Fields, str, num, obj, field, end}

abbrev he_json : String
he_json = "{\"type\":\"response.output_text.delta\",\"delta\":\"he\"}"

abbrev llo_json : String
llo_json = "{\"type\":\"response.output_text.delta\",\"delta\":\"llo\"}"

abbrev hi_json : String
hi_json =
    "{\"type\":\"content_block_delta\",\"index\":0,\"delta\":{\"type\":\"text_delta\",\"text\":\"hi\"}}"

abbrev text_delta : String → Fields
text_delta t = field "type" (str "response.output_text.delta") (field "delta" (str t) end)

abbrev message_delta : Fields
message_delta = field "type" (str "content_block_delta") (
    field "index" (num 0)
      (field "delta" (obj (field "type" (str "text_delta") (field "text" (str "hi") end))) end))

abbrev ping : Fields
ping = field "type" (str "ping") end

abbrev message_start : Fields
message_start =
    field "type" (str "message_start")
      (field "message" (obj (field "role" (str "assistant") (field "model" (str "m") end))) end)

abbrev block_start : Fields
block_start = field "type" (str "content_block_start") (
    field "index" (num 0)
      (field "content_block" (obj (field "type" (str "text") (field "text" (str "") end))) end))

abbrev ping_json : String
ping_json = "{\"type\":\"ping\"}"

abbrev start_json : String
start_json = "{\"type\":\"message_start\",\"message\":{\"role\":\"assistant\",\"model\":\"m\"}}"

abbrev block_json : String
block_json =
    "{\"type\":\"content_block_start\",\"index\":0,\"content_block\":{\"type\":\"text\",\"text\":\"\"}}"

-- A parser of these documents.
abbrev parse : String → Option Value
parse s =
    if s == he_json
    then some (obj (text_delta "he"))
    else if s == llo_json
    then some (obj (text_delta "llo"))
    else if s == hi_json
    then some (obj message_delta)
    else if s == ping_json
    then some (obj ping)
    else if s == start_json
    then some (obj message_start)
    else if s == block_json
    then some (obj block_start)
    else none

abbrev block : String → String → Block
block event text = record { event = event; pieces = text ∷ [] }

abbrev sent_delta : String → String → Sent
sent_delta name t = record { block = block "delta" name; object = text_delta t }

abbrev sent_message : Sent
sent_message = record { block = block "content_block_delta" hi_json; object = message_delta }

abbrev sent_ping : Sent
sent_ping = record { block = block "ping" ping_json; object = ping }

abbrev sent_start : Sent
sent_start = record { block = block "message_start" start_json; object = message_start }

abbrev sent_block : Sent
sent_block = record { block = block "content_block_start" block_json; object = block_start }

abbrev printed_message : List Sent
printed_message = sent_start ∷ sent_block ∷ sent_ping ∷ sent_message ∷ []

a-IsSent : IsSent parse (sent_delta he_json "he")
unfolding trim join
a-IsSent = record {
  block = record {
    named = refl;
    whole = (
      record {
        trimmed = refl;
        full = ground (arith, eq_iff he_json "");
        goes_on = ground (arith, eq_iff he_json "[DONE]");
      },
      tt,
    );
    some_data = λ e. cc e;
  };
  one_line = record { event = omega arith; pieces = omega arith };
  carries = refl;
}

b-IsSent : IsSent parse (sent_delta llo_json "llo")
unfolding trim join
b-IsSent = record {
  block = record {
    named = refl;
    whole = (
      record {
        trimmed = refl;
        full = ground (arith, eq_iff llo_json "");
        goes_on = ground (arith, eq_iff llo_json "[DONE]");
      },
      tt,
    );
    some_data = λ e. cc e;
  };
  one_line = record { event = omega arith; pieces = omega arith };
  carries = refl;
}

c-IsSent : IsSent parse sent_message
unfolding trim join
c-IsSent = record {
  block = record {
    named = refl;
    whole = (
      record {
        trimmed = refl;
        full = ground (arith, eq_iff hi_json "");
        goes_on = ground (arith, eq_iff hi_json "[DONE]");
      },
      tt,
    );
    some_data = λ e. cc e;
  };
  one_line = record { event = omega arith; pieces = omega arith };
  carries = refl;
}

d-IsSent : IsSent parse sent_start
unfolding trim join
d-IsSent = record {
  block = record {
    named = refl;
    whole = (
      record {
        trimmed = refl;
        full = ground (arith, eq_iff start_json "");
        goes_on = ground (arith, eq_iff start_json "[DONE]");
      },
      tt,
    );
    some_data = λ e. cc e;
  };
  one_line = record { event = omega arith; pieces = omega arith };
  carries = refl;
}

e-IsSent : IsSent parse sent_block
unfolding trim join
e-IsSent = record {
  block = record {
    named = refl;
    whole = (
      record {
        trimmed = refl;
        full = ground (arith, eq_iff block_json "");
        goes_on = ground (arith, eq_iff block_json "[DONE]");
      },
      tt,
    );
    some_data = λ e. cc e;
  };
  one_line = record { event = omega arith; pieces = omega arith };
  carries = refl;
}

f-IsSent : IsSent parse sent_ping
unfolding trim join
f-IsSent = record {
  block = record {
    named = refl;
    whole = (
      record {
        trimmed = refl;
        full = ground (arith, eq_iff ping_json "");
        goes_on = ground (arith, eq_iff ping_json "[DONE]");
      },
      tt,
    );
    some_data = λ e. cc e;
  };
  one_line = record { event = omega arith; pieces = omega arith };
  carries = refl;
}

some_text : ◌≢◌ {A = String} "hello" ""
some_text = ground (arith, eq_iff "hello" "")

assemble_stream-printed_deltas_example :
    assemble_stream parse (printed (sent_delta he_json "he" ∷ sent_delta llo_json "llo" ∷ []))
    ≡ done (obj (field "role" (str "assistant") (field "content" (str "hello") end)) ∷ [])
assemble_stream-printed_deltas_example =
    assemble_stream-printed_deltas parse (sent_delta he_json "he" ∷ sent_delta llo_json "llo" ∷ [])
      (a-IsSent, (b-IsSent, tt)) refl some_text

some_role : ◌≢◌ {A = String} "assistant" ""
some_role = ground (arith, eq_iff "assistant" "")

assemble_stream-printed_message_example :
    assemble_stream parse (printed printed_message)
    ≡ done (message_of_blocks "assistant" (text_block ("hi" ∷ []) ∷ []))
unfolding is_response
assemble_stream-printed_message_example =
    assemble_stream-printed_message parse printed_message "assistant" (text_block ("hi" ∷ []) ∷ [])
      (d-IsSent, (e-IsSent, (f-IsSent, (c-IsSent, tt)))) refl refl some_role refl
