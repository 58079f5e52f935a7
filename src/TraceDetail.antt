-- ===== src/TraceDetail.antt =====
-- The page of one trace (frontend/src/pages/project/TraceDetail.tsx): what its parts show, which of
-- them is selected, and the totals over its spans. TraceDetail/Timeline and TraceDetail/Analysis
-- model the timeline of a span and the button that hands a trace to an analysis.
pub mod Rows
pub mod Selection
pub mod Waterfall
pub mod Totals
pub mod Timeline
pub mod Analysis
mod Tests
use Prim.Native.String.{String, ◌++◌ as cat}
use ailens.Base.{
  ℕ, ◌+◌, ◌*◌, Bool, true, false, not, ◌&&◌, ◌||◌, List, [], ◌∷◌, Option, none, some, leb, ◌==◌,
  string_has_eq, if◌then◌else◌, zero, suc, length,
}
use ailens.Base.Int.{ℤ, pos, negsuc, difference}
use ailens.Base.Params.{Params, get, has, delete, set}
use ailens.I18n.{Locale, translate}
use ailens.Types.{Trace}

-- `dotCls`
unfoldable pub dot_cls : String → String
dot_cls s = if s == "error" then "err" else if s == "aborted" then "warn" else "ok"

-- The colours that `toneCls` gives to a status.
unfoldable pub tone_cls : String → String
tone_cls s =
    if s == "error"
    then "bg-rose-50 text-rose-700 border-rose-200/70"
    else if s == "aborted"
    then "bg-amber-50 text-amber-700 border-amber-200/70"
    else "bg-emerald-50 text-emerald-700 border-emerald-200/70"

-- `statusLabel`: a status without a translation is shown as it is.
unfoldable pub status_label : Locale → String → String
unfolding translate
status_label l s =
    let key = cat "traces.status." s in let v = translate l key [] in if v == key then s else v

abbrev pub is_single_span : {A : Type 0} → List A → Bool
is_single_span [] = false
is_single_span (x ∷ []) = true
is_single_span (x ∷ (y ∷ xs)) = false

-- `s || fallback` for a parameter that may be missing.
abbrev pub or_else : Option String → String → String
or_else none fallback = fallback
or_else (some s) fallback = if s == "" then fallback else s

module _ {N : Type 0} where
  abbrev pub first_id : List (Trace N) → String
  first_id [] = ""
  first_id (s ∷ items) = s.id

  unfoldable pub is_root_selected : Params → List (Trace N) → Bool
  unfolding get
  is_root_selected search items = or_else (get "span" search) "" == "" && not (is_single_span items)

  unfoldable pub active_span_id : Params → List (Trace N) → String
  unfolding get
  active_span_id search items =
      or_else (get "span" search) (if is_single_span items then first_id items else "")

-- `selectRoot` and `selectSpan`, on the parameters that they leave in the URL.
unfoldable pub select_root : Params → Params
unfolding has delete
select_root search = if has "span" search then delete "span" search else search

unfoldable pub select_span : String → Params → Params
unfolding set
select_span id search = set "span" id search

-- `time` is the number of milliseconds that `new Date(s).getTime()` gives for a valid date.
module _ {N : Type 0} (time : String → ℕ) where
  unfoldable pub t0 : List (Trace N) → ℕ
  t0 [] = 0
  t0 (s ∷ items) = time s.created_at

  unfoldable pub tn : List (Trace N) → ℕ
  tn [] = 0
  tn (s ∷ []) = time s.created_at + s.latency_ms
  tn (s ∷ (u ∷ items)) = tn (u ∷ items)

  unfoldable pub total_dur : List (Trace N) → ℤ
  unfolding t0 tn difference
  total_dur items = difference (tn items) (t0 items)

-- The callback of the `reduce` that finds the worst status.
abbrev pub worse : String → String → String
worse acc status =
    if status == "error"
    then "error"
    else if status == "aborted" && not (acc == "error")
    then "aborted"
    else acc

module _ {N : Type 0} where
  -- `items.reduce((s, x) => s + (count(x) || 0), s)`
  abbrev pub total_from : (Trace N → ℕ) → ℕ → List (Trace N) → ℕ
  total_from count s [] = s
  total_from count s (x ∷ items) = total_from count (s + count x) items

  unfoldable pub worst_from : String → List (Trace N) → String
  worst_from acc [] = acc
  worst_from acc (x ∷ items) = worst_from (worse acc x.status) items

  unfoldable pub worst : List (Trace N) → String
  unfolding worst_from
  worst items = worst_from "success" items

-- The props of the summary that are computed from the spans; `add` adds two costs, and `free` is 0.
pub record Summary (N : Type 0) : Type 0 where
  pub status : String
  pub span_count : ℕ
  pub total_dur : ℤ
  pub total_in : ℕ
  pub total_out : ℕ
  pub total_cached : ℕ
  pub total_cache_write : ℕ
  pub total_reasoning : ℕ
  pub total_cost : N

module _ {N : Type 0} (time : String → ℕ) (free : N) (add : N → N → N) where
  abbrev pub cost_from : N → List (Trace N) → N
  cost_from s [] = s
  cost_from s (x ∷ items) = cost_from (add s x.cost_usd) items

  unfoldable pub summary : List (Trace N) → Summary N
  unfolding total_dur worst
  summary items = record {
    status = worst items;
    span_count = length items;
    total_dur = total_dur time items;
    total_in = total_from (λ (x : Trace N). x.input_tokens) 0 items;
    total_out = total_from (λ (x : Trace N). x.output_tokens) 0 items;
    total_cached = total_from (λ (x : Trace N). x.cached_input_tokens) 0 items;
    total_cache_write = total_from (λ (x : Trace N). x.cache_creation_input_tokens) 0 items;
    total_reasoning = total_from (λ (x : Trace N). x.reasoning_tokens) 0 items;
    total_cost = cost_from free items;
  }
