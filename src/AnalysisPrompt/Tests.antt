-- ===== src/AnalysisPrompt/Tests.antt =====
-- A prompt for one span.
use ailens.AnalysisPrompt.{AnalysisContext, Printers, sections}
use ailens.Base.Decimal.{decimal}
use ailens.Base.{ℕ, ◌+◌, ◌*◌, ◌/◌, ◌≡◌, refl, false, [], ◌∷◌, none, some}

abbrev printers : Printers ℕ
unfolding decimal
printers = record {
  grouped = decimal;
  seconds = λ ms. decimal (ms / 1000);
  percent = λ n d. (200 * n + d) / (2 * d);
  fixed = λ k x. decimal x;
}

abbrev context : AnalysisContext ℕ
context = record {
  model = "gpt-5";
  latency = 640;
  ttft = some 0;
  ttfb = some 120;
  input_tokens = 100;
  output_tokens = 20;
  cached_tokens = 900;
  cache_write_tokens = 0;
  cost = 3;
  is_stream = false;
  status = "success";
  created_at = none;
  request_body = some "{}";
  response_body = some "";
}

prompt :
    sections printers context
    ≡ "## 性能指标" ∷ "- **请求时间**: N/A" ∷ "- **模型**: gpt-5" ∷ "- **状态**: success" ∷ "- **流式**: 否"
      ∷ "- **总延迟**: 640ms" ∷ "- **TTFB (首字节时间)**: 120ms" ∷ "- **输入 Token**: 100"
      ∷ "- **输出 Token**: 20" ∷ "- **缓存命中 Token**: 900 (900%)" ∷ "- **成本**: $3" ∷ "" ∷ "## 请求体"
      ∷ "```json" ∷ "{}" ∷ "```" ∷ "" ∷ []
unfolding sections printers
prompt = refl
