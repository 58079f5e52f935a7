-- ===== src/Types.antt =====
-- What the API sends (frontend/src/lib/types.ts). `N` is the type of the numbers with fractions, of
-- which the model uses only what it is given.
use ailens.Base.{ℕ, String, Bool, Option}

pub record TraceGroup (N : Type 0) : Type 0 where
  pub trace_id : String
  pub trace_name : String
  pub project_id : String
  pub user_id : String
  pub session_id : String
  pub span_count : ℕ
  pub input_tokens : ℕ
  pub output_tokens : ℕ
  pub total_tokens : ℕ
  pub reasoning_tokens : ℕ
  pub cached_input_tokens : ℕ
  pub cache_creation_input_tokens : ℕ
  pub cost_usd : N
  pub latency_ms : ℕ
  pub status : String
  pub started_at : String

pub record Trace (N : Type 0) : Type 0 where
  pub id : String
  pub trace_id : String
  pub trace_name : String
  pub project_id : String
  pub user_id : String
  pub session_id : String
  pub tags : String
  pub model : String
  pub is_stream : Bool
  pub status : String
  pub status_code : ℕ
  pub error_message : String
  pub request_headers : String
  pub request_path : String
  pub response_headers : String
  pub request_body_key : String
  pub response_body_key : String
  pub request_body_size : ℕ
  pub response_body_size : ℕ
  pub timeline : String
  pub input_tokens : ℕ
  pub output_tokens : ℕ
  pub total_tokens : ℕ
  pub reasoning_tokens : ℕ
  pub cached_input_tokens : ℕ
  pub cache_creation_input_tokens : ℕ
  pub tokens_estimated : Bool
  pub cost_usd : N
  pub latency_ms : ℕ
  pub ttft_ms : Option ℕ
  pub ttfb_ms : Option ℕ
  pub gen_duration_ms : Option ℕ
  pub tps : N
  pub chunk_count : ℕ
  pub bytes_streamed : ℕ
  pub finish_reason : String
  pub stream_status : String
  pub created_at : String
