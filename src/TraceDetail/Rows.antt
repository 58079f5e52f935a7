-- ===== src/TraceDetail/Rows.antt =====
-- The rows of the list of spans (frontend/src/pages/project/TraceDetail.tsx).
use ailens.Base.{
  ℕ, zero, suc, ◌+◌, ◌*◌, String, Bool, false, List, [], ◌∷◌, Option, none, some, leb, ◌==◌,
  string_has_eq, if◌then◌else◌,
}
use ailens.Base.Int.{ℤ, pos, negsuc, difference}
use ailens.Base.Params.{Params}
use ailens.TokenCell.{TokenStats}
use ailens.TraceDetail.{Summary, active_span_id, dot_cls, is_root_selected, summary, t0, total_dur}
use ailens.Types.{Trace}

-- A percentage as a fraction, which the code computes in floating point.
pub record Percent : Type 0 where
  pub num : ℤ
  pub den : ℕ

-- `100 * z`
abbrev pub hundredfold : ℤ → ℤ
hundredfold (pos n) = pos (100 * n)
hundredfold (negsuc n) = negsuc (100 * n + 99)

unfoldable pub start_pct : ℤ → ℤ → Percent
start_pct (pos (suc n)) start = record { num = hundredfold start; den = suc n }
start_pct (pos zero) start = record { num = pos 0; den = 1 }
start_pct (negsuc n) start = record { num = pos 0; den = 1 }

-- `Math.max(2, (dur / totalDur) * 100)`
unfoldable pub dur_pct : ℤ → ℕ → Percent
dur_pct (pos (suc n)) dur =
    if leb (2 * suc n) (100 * dur)
    then record { num = pos (100 * dur); den = suc n }
    else record { num = pos 2; den = 1 }
dur_pct (pos zero) dur = record { num = pos 100; den = 1 }
dur_pct (negsuc n) dur = record { num = pos 100; den = 1 }

-- The counts that the cell of a span gets.
abbrev pub tokens_of : {N : Type 0} → Trace N → TokenStats
tokens_of s = record {
  input = some s.input_tokens;
  output = some s.output_tokens;
  cached = some s.cached_input_tokens;
  cache_create = some s.cache_creation_input_tokens;
  reasoning = some s.reasoning_tokens;
  total = some s.total_tokens;
  estimated = s.tokens_estimated;
}

-- The button of a span in the list on the left.
pub record SpanRow (N : Type 0) : Type 0 where
  pub number : ℕ
  pub is_active : Bool
  pub dot_tone : String
  pub model : String
  pub is_stream : Bool
  pub dur : ℕ
  pub start : ℤ
  pub left : Percent
  pub width : Percent
  pub tokens : TokenStats
  pub cost : N

module _ {N : Type 0} (time : String → ℕ) where
  unfoldable pub span_row : Params → List (Trace N) → ℕ → Trace N → SpanRow N
  unfolding total_dur t0 active_span_id dot_cls start_pct dur_pct difference
  span_row search items i s =
      let start = difference (time s.created_at) (t0 time items) in
      record {
        number = i + 1;
        is_active = s.id == active_span_id search items;
        dot_tone = dot_cls s.status;
        model = s.model;
        is_stream = s.is_stream;
        dur = s.latency_ms;
        start = start;
        left = start_pct (total_dur time items) start;
        width = dur_pct (total_dur time items) s.latency_ms;
        tokens = tokens_of s;
        cost = s.cost_usd;
      }

  abbrev rows_from : Params → List (Trace N) → ℕ → List (Trace N) → List (SpanRow N)
  unfolding span_row
  rows_from search items i [] = []
  rows_from search items i (s ∷ rest) =
      span_row search items i s ∷ rows_from search items (i + 1) rest

  pub span_rows : Params → List (Trace N) → List (SpanRow N)
  unfolding rows_from
  span_rows search items = rows_from search items 0 items

-- The button of the trace as a whole, above those of its spans.
pub record RootRow (N : Type 0) : Type 0 where
  pub is_selected : Bool
  pub name : String
  pub trace_id : String
  pub dur : ℤ
  pub spans : ℕ
  pub cost : N
  pub tokens : TokenStats

abbrev pub first_or : {A : Type 0} → (A → String) → List A → String
first_or f [] = ""
first_or f (x ∷ xs) = f x

module _ {N : Type 0} (time : String → ℕ) (free : N) (add : N → N → N) where
  abbrev root_of : Params → List (Trace N) → Summary N → RootRow N
  unfolding is_root_selected
  root_of search items sums = record {
    is_selected = is_root_selected search items;
    name = first_or (λ (s : Trace N). s.trace_name) items;
    trace_id = first_or (λ (s : Trace N). s.trace_id) items;
    dur = sums.total_dur;
    spans = sums.span_count;
    cost = sums.total_cost;
    tokens = record {
      input = some sums.total_in;
      output = some sums.total_out;
      cached = some sums.total_cached;
      cache_create = some sums.total_cache_write;
      reasoning = some sums.total_reasoning;
      total = none;
      estimated = false;
    };
  }

  -- There is none for a single span, nor where there is no span at all.
  unfoldable pub root_row : Params → List (Trace N) → Option (RootRow N)
  unfolding root_of summary
  root_row search [] = none
  root_row search (x ∷ []) = none
  root_row search (x ∷ (y ∷ items)) =
      some (root_of search (x ∷ (y ∷ items)) (summary time free add (x ∷ (y ∷ items))))
