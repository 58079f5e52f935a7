-- ===== src/AnalysisPrompt.antt =====
-- The texts for an analysis of a span or of a trace (frontend/src/lib/aiAnalysisPrompt.ts).
mod Tests
use Prim.Native.String.{String, ◌++◌ as cat}
use ailens.Base.{
  ℕ, zero, suc, ◌+◌, Bool, true, false, List, [], ◌∷◌, ◌++◌, Option, none, some, ltb, leb, ◌==◌,
  ℕ_has_eq, string_has_eq, if◌then◌else◌, length,
}
use ailens.Base.Decimal.{decimal}
use ailens.Base.Text.{join, concat}
use ailens.Types.{Trace}

pub record AnalysisContext (N : Type 0) : Type 0 where
  pub model : String
  pub latency : ℕ
  pub ttft : Option ℕ
  pub ttfb : Option ℕ
  pub input_tokens : ℕ
  pub output_tokens : ℕ
  pub cached_tokens : ℕ
  pub cache_write_tokens : ℕ
  pub cost : N
  pub is_stream : Bool
  pub status : String
  pub created_at : Option String
  pub request_body : Option String
  pub response_body : Option String

-- What the language prints of a number: `grouped n` is `n.toLocaleString()`, `seconds ms` is
-- `(ms / 1000).toFixed(2)`, `percent n d` is `Math.round((n / d) * 100)`, and `fixed k x` is
-- `x.toFixed(k)`.
pub record Printers (N : Type 0) : Type 0 where
  pub grouped : ℕ → String
  pub seconds : ℕ → String
  pub percent : ℕ → ℕ → ℕ
  pub fixed : ℕ → N → String

-- `s || fallback`
abbrev pub text_or : Option String → String → String
text_or none fallback = fallback
text_or (some s) fallback = if s == "" then fallback else s

abbrev pub line : String → String → List String
line label value = cat label value ∷ []

-- A body in its fence, unless it is missing or empty.
abbrev pub body_section : String → Option String → List String
body_section title none = []
body_section title (some body) =
    if body == "" then [] else title ∷ "```json" ∷ body ∷ "```" ∷ "" ∷ []

module _ {N : Type 0} (p : Printers N) where
  -- `formatDuration`, at a number that is there.
  unfoldable pub format_duration : ℕ → String
  format_duration ms = if ltb ms 1000 then cat (decimal ms) "ms" else cat (p.seconds ms) "s"

  unfoldable pub calculate_cache_hit_rate : ℕ → ℕ → ℕ
  calculate_cache_hit_rate input_tokens cached_tokens =
      if leb input_tokens 0 then 0 else p.percent cached_tokens input_tokens

  -- `if (ms) sections.push(...)`
  abbrev duration_line : String → Option ℕ → List String
  unfolding format_duration
  duration_line label none = []
  duration_line label (some ms) = if ms == 0 then [] else line label (format_duration ms)

  abbrev cache_text : ℕ → ℕ → String
  unfolding calculate_cache_hit_rate
  cache_text input cached =
      cat (p.grouped cached) (cat " (" (cat (decimal (calculate_cache_hit_rate input cached)) "%)"))

  -- The lines up to the bodies.
  unfoldable pub metrics : AnalysisContext N → List String
  unfolding format_duration duration_line cache_text
  metrics c =
      "## 性能指标"
      ∷ cat "- **请求时间**: " (text_or c.created_at "N/A")
      ∷ cat "- **模型**: " c.model
      ∷ cat "- **状态**: " c.status
      ∷ cat "- **流式**: " (if c.is_stream then "是" else "否")
      ∷ cat "- **总延迟**: " (format_duration c.latency)
      ∷ (duration_line "- **TTFT (首字时间)**: " c.ttft
          ++ (duration_line "- **TTFB (首字节时间)**: " c.ttfb
              ++ (cat "- **输入 Token**: " (p.grouped c.input_tokens)
                  ∷ cat "- **输出 Token**: " (p.grouped c.output_tokens)
                  ∷ cat "- **缓存命中 Token**: " (cache_text c.input_tokens c.cached_tokens)
                  ∷ ((if ltb 0 c.cache_write_tokens
                        then line "- **缓存写入 Token**: " (p.grouped c.cache_write_tokens)
                        else [])
                      ++ (cat "- **成本**: $" (p.fixed 6 c.cost) ∷ "" ∷ [])))))

  unfoldable pub sections : AnalysisContext N → List String
  unfolding metrics
  sections c =
      metrics c ++ (body_section "## 请求体" c.request_body ++ body_section "## 响应体" c.response_body)

  unfoldable pub generate_ai_analysis_prompt : AnalysisContext N → String
  unfolding sections
  generate_ai_analysis_prompt c = join "\n" (sections c)

  pub record Bodies : Type 0 where
    pub span : Trace N
    pub request_body : String
    pub response_body : String

  pub record TotalMetrics : Type 0 where
    pub total_dur : ℕ
    pub total_in : ℕ
    pub total_out : ℕ
    pub total_cached : ℕ
    pub total_cost : N

  -- A round of the loop, for the span's number.
  unfoldable pub turn : ℕ → Bodies → List String
  unfolding format_duration
  turn i b =
      "---"
      ∷ ""
      ∷ cat "## 第 " (cat (decimal (i + 1)) (cat " 轮: " b.span.model))
      ∷ cat "- **请求时间**: " (text_or (some b.span.created_at) "N/A")
      ∷ cat "- **状态**: " b.span.status
      ∷ cat "- **延迟**: " (format_duration b.span.latency_ms)
      ∷ cat "- **Token**: " (
          cat (p.grouped b.span.input_tokens)
            (cat " 输入 / " (cat (p.grouped b.span.output_tokens) " 输出")))
      ∷ cat "- **缓存**: " (cat (p.grouped b.span.cached_input_tokens) " Token")
      ∷ cat "- **成本**: $" (p.fixed 6 b.span.cost_usd)
      ∷ ""
      ∷ (body_section "### 请求体" (some b.request_body)
          ++ body_section "### 响应体" (some b.response_body))

  unfoldable pub turns : ℕ → List Bodies → List String
  unfolding turn
  turns i [] = []
  turns i (b ∷ bodies) = turn i b ++ turns (i + 1) bodies

  unfoldable pub overview : ℕ → TotalMetrics → List String
  unfolding format_duration cache_text
  overview count total =
      "## 总体性能指标"
      ∷ cat "- **总轮次**: " (decimal count)
      ∷ cat "- **总耗时**: " (format_duration total.total_dur)
      ∷ cat "- **总成本**: $" (p.fixed 6 total.total_cost)
      ∷ cat "- **总 Token**: "
          (cat (p.grouped total.total_in) (cat " 输入 / " (cat (p.grouped total.total_out) " 输出")))
      ∷ cat "- **缓存命中 Token**: " (cache_text total.total_in total.total_cached)
      ∷ ""
      ∷ []

  unfoldable pub generate_multi_turn_analysis_content :
      List (Trace N) → List Bodies → TotalMetrics → String
  unfolding overview turns
  generate_multi_turn_analysis_content spans bodies total =
      join "\n" (overview (length spans) total ++ turns 0 bodies)
