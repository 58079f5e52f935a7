-- ===== src/Sse/Tests.antt =====
-- Runs of the frame reader.
use text.Mathlib.TextEquality.{eq_iff}
use ailens.Base.Text.{trim}
use ailens.Base.{◌≡◌, refl, [], ◌∷◌, some, arith}
use ailens.Sse.Blocks.{Block, IsBlock, all_lines, frame_of}
use ailens.Sse.Blocks.RoundTrip.{text_of, parse_sse-text_of}
use ailens.Sse.{parse_sse}

two_frames :
    parse_sse
      (some ": hello\r\nevent: delta\r\ndata: {\"a\":\ndata:1}\r\n\r\ndata: [DONE]\n\ndata: x")
    ≡ record { event = "delta"; text = "{\"a\":\n1}" } ∷ record { event = ""; text = "x" } ∷ []
unfolding parse_sse
two_frames = refl

abbrev hello : Block
hello = record { event = "message_start"; pieces = "{\"a\":" ∷ "1}" ∷ [] }

hello-IsBlock : IsBlock hello
unfolding trim
hello-IsBlock = record {
  named = refl;
  whole = (
    record {
      trimmed = refl;
      full = ground (arith, eq_iff "{\"a\":" "");
      goes_on = ground (arith, eq_iff "{\"a\":" "[DONE]");
    },
    (
      record {
        trimmed = refl;
        full = ground (arith, eq_iff "1}" "");
        goes_on = ground (arith, eq_iff "1}" "[DONE]");
      },
      tt,
    ),
  );
  some_data = λ e. cc e;
}

parse_sse-text_of_example :
    parse_sse (some (text_of (all_lines (hello ∷ hello ∷ []))))
    ≡ frame_of hello ∷ frame_of hello ∷ []
parse_sse-text_of_example =
    parse_sse-text_of (hello ∷ hello ∷ []) (hello-IsBlock, (hello-IsBlock, tt))
      (
        record { event = omega arith; pieces = omega arith },
        (record { event = omega arith; pieces = omega arith }, tt),
      )
