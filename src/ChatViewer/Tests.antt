-- ===== src/ChatViewer/Tests.antt =====
-- Views of recorded bodies.
use Prim.Native.String.{String}
use ailens.Base.Outcome.{done}
use ailens.Base.Text.{text_length}
use ailens.Base.{
  Option, ℕ, ℕ_has_eq, ◌+◌, ◌*◌, ◌/◌, ◌≤◌, ◌==◌, ◌≡◌, refl, true, false, if◌then◌else◌, List, [],
  ◌∷◌, any, none, some,
}
use ailens.Cache.{partial, Segments}
use ailens.ChatViewer.Bubble.{message_bubble, badge, hidden}
use ailens.ChatViewer.Cards.{
  tool_call_card, toggle, pretty_arguments, param_row, no_row, quote, nested, word,
}
use ailens.ChatViewer.Content.{part_view, result_view}
use ailens.ChatViewer.Stale.{end_runs, end_runs-start_run}
use ailens.ChatViewer.TextBlock.{collapse_chars, needs_collapse, preview, text_block}
use ailens.ChatViewer.TextBlock.Preview.{LeavesOut, preview-LeavesOut}
use ailens.ChatViewer.Visual.{fallback_visual}
use ailens.ChatViewer.{Estimates, end_run, start_run}
use ailens.I18n.{english}
use ailens.Messages.{response}
use ailens.Value.{num, Value, str, obj, arr, field, end, cons, nil}

abbrev ten_lines : String
ten_lines = "1\n2\n3\n4\n5\n6\n7\n8\n9\n10"

collapsed :
    text_block english false ten_lines
    ≡ record { text = "1\n2\n3\n4\n5\n6\n7\n8"; button = some "…expand (5 more characters)" }
unfolding text_block
collapsed = refl

many_lines : needs_collapse ten_lines ≡ true
unfolding needs_collapse
many_lines = refl

preview-LeavesOut_example :
    (text_length (preview ten_lines) ≤ collapse_chars) × (rest : String) × LeavesOut ten_lines rest
preview-LeavesOut_example = preview-LeavesOut ten_lines many_lines

-- Rounding to the nearest hundredth.
abbrev fixed : ℕ → ℕ → ℕ
fixed n d = (200 * n + d) / (2 * d)

abbrev same_case : String → String
same_case s = s

abbrev print : Value → String
print v = "{}"

labelled :
    badge fixed (some (record { state = partial; cached_tokens = 500; estimated_tokens = 2000 }))
    ≡ some "partial cached 500/2k"
unfolding badge ailens.Fmt.fmt_tokens
labelled = refl

abbrev critic : Value
critic = obj (
    field "role" (str "critic")
      (field "content" (str " ") (field "reasoning_content" (str "hm") end)))

thinking :
    message_bubble same_case same_case print fixed response
      (record { body = critic; cache_estimate = none })
    ≡ done (record {
      visual = record fallback_visual { label = "critic" };
      name = Value.undefined;
      tool_call_id = none;
      cache_ring = "";
      stats_label = none;
      reasoning = some "hm";
      body = hidden;
      calls = [];
    })
unfolding message_bubble
thinking = refl

result :
    part_view same_case print (
      obj (
        field "type" (str "tool_result") (
          field "tool_use_id" (str "t1") (
            field "content"
              (arr (
                cons
                  (obj (field "text" (str "a") end))
                  (cons (obj (field "text" (str "b") end)) nil)))
              end))))
    ≡ done (result_view (str "t1") "a\nb")
unfolding part_view
result = refl

-- The end of an estimation that a later one has overtaken.
stale :
    end_run 1
      (some (record { tool_tokens = []; message_tokens = 7 ∷ [] }))
      (start_run (start_run (record { runs = 0; segments = none })))
    ≡ record { runs = 2; segments = none }
unfolding end_run start_run
stale = refl

-- Each run estimates its own number.
abbrev numbered : ℕ → Option Segments
numbered r = some (record { tool_tokens = []; message_tokens = r ∷ [] })

abbrev second_first : List ℕ
second_first = 2 ∷ 1 ∷ []

abbrev first_run : Estimates
first_run = record { runs = 1; segments = none }

end_runs-start_run_example : (end_runs numbered second_first (start_run first_run)).segments ≡ (
    if any (λ r. r == first_run.runs + 1) second_first then numbered (first_run.runs + 1) else none)
end_runs-start_run_example = end_runs-start_run numbered second_first first_run

-- The arguments of a call, as the model sent them.
abbrev parse_args : String → Option Value
parse_args s = some (obj (field "city" (str "Oslo") (field "days" (arr (cons (num 1) nil)) end)))

call :
    tool_call_card parse_args print false (
      obj (
        field "id" (str "call_0123456789") (
          field "function"
            (obj (field "name" (str "weather") (field "arguments" (str "…") end)))
            end)))
    ≡ record {
      name = "weather";
      id = some "call_0123456...";
      has_toggle = true;
      arguments = pretty_arguments true (
          param_row "city"
            (quote "Oslo")
            (param_row "days" (nested (param_row "0" (word "1") no_row)) no_row));
    }
unfolding tool_call_card
call = refl

closed : toggle "weather" (some "weather") ≡ none
unfolding toggle
closed = refl
