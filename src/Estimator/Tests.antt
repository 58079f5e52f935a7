-- ===== src/Estimator/Tests.antt =====
-- Runs of the estimates.
use ailens.Base.{true, map, String, ◌≡◌, refl, List, [], ◌∷◌, ◌++◌, none, some}
use ailens.Estimator.Heuristic.{IsEstimate, heuristic_count-IsEstimate, size}
use ailens.Estimator.Think.{IsStripped, strip_think-IsStripped}
use ailens.Estimator.Turns.{
  estimate_request_token_segments-turn_after, turn_after, turn_texts-append,
}
use ailens.Estimator.{
  strip_think, heuristic_count, turn_step, turn_texts, first_turn, estimate_request_token_segments,
  encoding_for_openai_model, o200k_base, is_deepseek_model,
}
use ailens.Value.{Value, str, obj, field, end}

abbrev message : String → String → Value
message role content = obj (field "role" (str role) (field "content" (str content) end))

stripped : strip_think "<think>a</think>b</think> c" ≡ " c"
unfolding strip_think
stripped = refl

counted : heuristic_count "你好 world" ≡ 4
unfolding heuristic_count
counted = refl

known_model : encoding_for_openai_model "GPT-4o-mini" ≡ some o200k_base
unfolding encoding_for_openai_model
known_model = refl

framed :
    turn_texts first_turn (
      message "System" "s" ∷ message "tool" "a" ∷ message "tool" "b" ∷ message "assistant" "c" ∷ [])
    ≡ "<｜begin▁of▁sentence｜>s" ∷ "<｜tool▁outputs▁begin｜><｜tool▁output▁begin｜>a<｜tool▁output▁end｜>"
      ∷ "<｜tool▁output▁begin｜>b<｜tool▁output▁end｜>" ∷ "<｜tool▁outputs▁end｜>c<｜end▁of▁sentence｜>"
      ∷ []
unfolding turn_texts
framed = refl

heuristic_count-IsEstimate_example : IsEstimate "你好 world" (heuristic_count "你好 world")
heuristic_count-IsEstimate_example = heuristic_count-IsEstimate "你好 world"

strip_think-IsStripped_example : IsStripped "<think>a</think> b" (strip_think "<think>a</think> b")
strip_think-IsStripped_example = strip_think-IsStripped "<think>a</think> b"

abbrev request : List Value
request = message "user" "hi" ∷ message "assistant" "ho" ∷ []

for_deepseek : is_deepseek_model "deepseek-chat" ≡ true
unfolding is_deepseek_model
for_deepseek = refl

abbrev called : Value
called = message "tool" "x"

estimate_request_token_segments-turn_after_example :
    (estimate_request_token_segments
      (some size)
      (λ e. none)
      "deepseek-chat"
      []
      (request ++ called ∷ request)).message_tokens
    ≡ (estimate_request_token_segments
        (some size)
        (λ e. none)
        "deepseek-chat"
        []
        request).message_tokens
      ++ (size (turn_step (turn_after first_turn request) called).0
          ∷ map size (turn_texts (turn_after first_turn (request ++ called ∷ [])) request))
estimate_request_token_segments-turn_after_example =
    estimate_request_token_segments-turn_after size (λ e. none) "deepseek-chat" [] request called
      request for_deepseek

turn_texts-append_run :
    turn_texts first_turn (request ++ message "tool" "x" ∷ request)
    ≡ turn_texts first_turn request
      ++ ((turn_step (turn_after first_turn request) (message "tool" "x")).0
          ∷ turn_texts (turn_after first_turn (request ++ message "tool" "x" ∷ [])) request)
turn_texts-append_run = turn_texts-append first_turn request (message "tool" "x") request
