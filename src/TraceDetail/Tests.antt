-- ===== src/TraceDetail/Tests.antt =====
-- A trace of two spans.
use ailens.Base.{
  ◌<◌, ℕ, ◌+◌, ◌≤◌, ◌↔◌, String, true, false, List, [], ◌∷◌, map, none, ◌==◌, string_has_eq, ◌≡◌,
  refl, sum, All, arith, if◌then◌else◌,
}
use ailens.Base.Int.{pos}
use ailens.Base.Params.{Params, get}
use ailens.I18n.{english, chinese}
use ailens.TraceDetail.Analysis.{
  State, Quiet, Reachable, initial, next, clicking, quiet, ending, click, finish, failed, opening,
}
use ailens.TraceDetail.Analysis.Settled.{IsCoherent, pending, Reachable-Settles}
use ailens.TraceDetail.Selection.{root, span, run, replay, shown, run-replay}
use ailens.TraceDetail.Timeline.{TimelineEvt, block_of}
use ailens.TraceDetail.Timeline.Sums.{
  FitsTrack, rows_shown, steps, total_shown, block_of-IsTimeline,
}
use ailens.TraceDetail.Totals.{has_status, summary-IsTotal}
use ailens.TraceDetail.Waterfall.{IsInside, span_row-IsInside}
use ailens.TraceDetail.Rows.{span_row}
use ailens.TraceDetail.{summary, worst, total_dur, t0, tn, status_label}
use ailens.Types.{Trace}

abbrev first_span : Trace ℕ
first_span = record {
  id = "s1";
  trace_id = "t1";
  trace_name = "agent";
  project_id = "p1";
  user_id = "";
  session_id = "";
  tags = "";
  model = "gpt-5";
  is_stream = true;
  status = "success";
  status_code = 200;
  error_message = "";
  request_headers = "";
  request_path = "/v1/chat/completions";
  response_headers = "";
  request_body_key = "";
  response_body_key = "";
  request_body_size = 0;
  response_body_size = 0;
  timeline = "";
  input_tokens = 10;
  output_tokens = 20;
  total_tokens = 30;
  reasoning_tokens = 0;
  cached_input_tokens = 5;
  cache_creation_input_tokens = 0;
  tokens_estimated = false;
  cost_usd = 1;
  latency_ms = 400;
  ttft_ms = none;
  ttfb_ms = none;
  gen_duration_ms = none;
  tps = 0;
  chunk_count = 0;
  bytes_streamed = 0;
  finish_reason = "";
  stream_status = "";
  created_at = "a";
}

abbrev second_span : Trace ℕ
second_span = record first_span {
  id = "s2";
  status = "aborted";
  latency_ms = 700;
  created_at = "b";
}

abbrev spans : List (Trace ℕ)
spans = first_span ∷ second_span ∷ []

-- The times of the two dates.
abbrev time : String → ℕ
time s = if s == "a" then 1000 else 1300

interrupted : worst spans ≡ "aborted"
unfolding worst
interrupted = refl

translated : status_label chinese "weird" ≡ "weird"
unfolding status_label
translated = refl

abbrev params : Params
params = ("tab", "raw") ∷ []

run-replay_example :
    (shown spans (run (span "s2" ∷ root ∷ span "s1" ∷ []) params)
      ≡ replay (span "s2" ∷ root ∷ span "s1" ∷ []) (shown spans params))
    × ((j : String)
        → (j == "span") ≡ false
        → get j (run (span "s2" ∷ root ∷ span "s1" ∷ []) params) ≡ get j params)
run-replay_example =
    run-replay spans (span "s2" ∷ root ∷ span "s1" ∷ []) params (refl, (refl, (refl, tt)))

summary-IsTotal_example :
    ((summary time 0 ◌+◌ spans).status ≡ (
      if has_status "error" spans
      then "error"
      else if has_status "aborted" spans
      then "aborted"
      else "success"))
    × ((summary time 0 ◌+◌ spans).total_in ≡ sum (map (λ (x : Trace ℕ). x.input_tokens) spans))
    × ((summary time 0 ◌+◌ spans).total_out ≡ sum (map (λ (x : Trace ℕ). x.output_tokens) spans))
    × ((summary time 0 ◌+◌ spans).total_cached
        ≡ sum (map (λ (x : Trace ℕ). x.cached_input_tokens) spans))
    × ((summary time 0 ◌+◌ spans).total_cache_write
        ≡ sum (map (λ (x : Trace ℕ). x.cache_creation_input_tokens) spans))
    × ((summary time 0 ◌+◌ spans).total_reasoning
        ≡ sum (map (λ (x : Trace ℕ). x.reasoning_tokens) spans))
summary-IsTotal_example = summary-IsTotal time 0 ◌+◌ spans

lasting : total_dur time spans ≡ pos 1000
unfolding total_dur
lasting = refl

after_start : t0 time spans ≤ time first_span.created_at
unfolding t0
after_start = ground arith

span_row-IsInside_example :
    IsInside (span_row time params spans 0 first_span)
    ↔ (time first_span.created_at + first_span.latency_ms ≤ tn time spans)
span_row-IsInside_example =
    span_row-IsInside time params spans 0 999 first_span lasting after_start (ground arith)

abbrev received : TimelineEvt
received = record { event = "request_received"; ts = 100 }

abbrev later : List TimelineEvt
later = record { event = "upstream_done"; ts = 160 } ∷ record { event = "x"; ts = 160 } ∷ []

block_of-IsTimeline_example :
    All FitsTrack (rows_shown (block_of english (received ∷ later)))
    × (sum (steps (rows_shown (block_of english (received ∷ later))))
        ≡ total_shown (block_of english (received ∷ later)))
block_of-IsTimeline_example =
    block_of-IsTimeline english received later (ground arith, (ground arith, tt))

-- A click, and a run that fails.
abbrev after_failure : State
after_failure = finish (failed "offline") (click opening).panel 0 0

failing : Reachable after_failure
unfolding click
failing =
    next (next initial (clicking opening))
      (quiet (ending (failed "offline") (click opening).panel 0 0))

Reachable-Settles_example :
    IsCoherent after_failure
    × (0 < pending after_failure → (t : State) × Quiet after_failure t)
    × ((t : State) → Quiet after_failure t → pending t < pending after_failure)
    × (pending after_failure ≡ 0
        → (after_failure.panel.is_copying ≡ false) × (after_failure.panel.copy_success ≡ false))
Reachable-Settles_example = Reachable-Settles failing
