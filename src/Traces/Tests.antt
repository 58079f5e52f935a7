-- ===== src/Traces/Tests.antt =====
-- The filters of a page and the requests that they make.
use ailens.Base.{
  ℕ, ◌≡◌, refl, String, true, false, [], ◌∷◌, Option, none, some, ◌==◌, string_has_eq, All,
  if◌then◌else◌,
}
use ailens.Base.Int.{ℤ, pos, negsuc}
use ailens.Base.Params.{get}
use ailens.I18n.{english}
use ailens.Traces.Picker.{
  Picker, IsOrdered, apply_custom, apply_custom-IsOrdered, button_label, format_local_short,
  is_disabled,
}
use ailens.Traces.Query.{base, filter_names, query-HasFilters, query_of_inactive}
use ailens.Traces.{
  Filters, week, day, custom, query, filled, start_ms, end_ms, has_active_filter, clear_all,
  parse_time_range, listing, no_match,
}

abbrev filters : Filters
filters = record {
  user_id = "u1";
  session_id = "";
  trace_name = "";
  model = "";
  status = "error";
  time_range = week;
  custom_start = "2026-05-12T10:00";
  custom_end = "2026-05-13T14:30";
}

-- The times of the two dates.
abbrev time : String → Option ℤ
time s = if s == "2026-05-12T10:00" then some (pos 1000) else some (pos 2000)

asked :
    query time "p1" 604800500 filters
    ≡ ("limit", "50")
      ∷ ("project_id", "p1")
      ∷ ("user_id", "u1")
      ∷ ("status", "error")
      ∷ ("start_time", "500")
      ∷ []
unfolding query
asked = refl

unknown_range : parse_time_range (some "2h") ≡ day
unfolding parse_time_range
unknown_range = refl

shortened : format_local_short "2026-05-13T14:30" ≡ "5/13 14:30"
unfolding format_local_short
shortened = refl

labelled : button_label english (record filters { time_range = custom }) ≡ "5/12 10:00 → 5/13 14:30"
unfolding button_label
labelled = refl

filtered_away : listing {N = ℕ} false true filters [] ≡ no_match true
unfolding listing
filtered_away = refl

query-HasFilters_example :
    (get "limit" (query time "p1" 604800500 filters) ≡ some "50")
    × (get "project_id" (query time "p1" 604800500 filters) ≡ some "p1")
    × (get "user_id" (query time "p1" 604800500 filters) ≡ filled "u1")
    × (get "session_id" (query time "p1" 604800500 filters) ≡ filled "")
    × (get "trace_name" (query time "p1" 604800500 filters) ≡ filled "")
    × (get "model" (query time "p1" 604800500 filters) ≡ filled "")
    × (get "status" (query time "p1" 604800500 filters) ≡ filled "error")
    × (get "start_time" (query time "p1" 604800500 filters) ≡ start_ms time 604800500 filters)
    × (get "end_time" (query time "p1" 604800500 filters) ≡ end_ms time filters)
    × ((j : String)
        → All (λ k. (k == j) ≡ false) ("limit" ∷ "project_id" ∷ filter_names)
        → get j (query time "p1" 604800500 filters) ≡ none)
query-HasFilters_example = query-HasFilters time "p1" 604800500 filters

query_of_inactive_run :
    (has_active_filter (clear_all filters) ≡ false
      → query time "p1" 7 (clear_all filters) ≡ base "p1")
    × (has_active_filter (clear_all (clear_all filters)) ≡ false)
query_of_inactive_run = query_of_inactive time "p1" 7 (clear_all filters)

abbrev picker : Picker
picker = record {
  is_open = true;
  draft_start = "2026-05-12T10:00";
  draft_end = "2026-05-13T14:30";
  filters = filters;
}

enabled : is_disabled time picker ≡ false
unfolding is_disabled
enabled = refl

-- The start is before 1970, and the end is no date.
abbrev early : String → Option ℤ
early s = if s == "2026-05-12T10:00" then some (negsuc 4) else none

endless :
    (start_ms early 7 (apply_custom early picker).filters ≡ some "-5")
    × (end_ms early (apply_custom early picker).filters ≡ none)
unfolding apply_custom start_ms end_ms
endless = (refl, refl)

apply_custom-IsOrdered_example :
    IsOrdered
      (start_ms time 7 (apply_custom time picker).filters)
      (end_ms time (apply_custom time picker).filters)
apply_custom-IsOrdered_example = apply_custom-IsOrdered time picker 7 enabled
