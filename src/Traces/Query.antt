-- ===== src/Traces/Query.antt =====
-- The query beside the filters that make it.
use ailens.Base.{
  ℕ, String, false, not, List, [], ◌∷◌, Option, none, some, ◌==◌, string_has_eq, ◌≡◌, refl, arith,
  All, ◌∙◌,
}
use ailens.Base.Params.{
  Params, get, get-set_all, or_value-none, after_all_of_other, set_all_of_none,
}
use ailens.Base.Int.{ℤ}
use ailens.Traces.{
  Filters, TimeKey, all_time, hour, day, three_days, week, month, custom, key_of, query, bindings,
  filled, start_ms, end_ms, has_active_filter, clear_all,
}

-- The names of the parameters that a filter may set.
abbrev pub filter_names : List String
filter_names =
    "user_id" ∷ "session_id" ∷ "trace_name" ∷ "model" ∷ "status" ∷ "start_time" ∷ "end_time" ∷ []

abbrev pub base : String → Params
base project_id = ("limit", "50") ∷ ("project_id", project_id) ∷ []

filled_of_blank : (s : String) → not (s == "") ≡ false → filled s ≡ none
filled_of_blank s h = ground arith

range_of_inactive : (k : TimeKey) → not (key_of k == "") ≡ false → k ≡ all_time
range_of_inactive all_time h = refl
range_of_inactive hour h = ground arith
range_of_inactive day h = ground arith
range_of_inactive three_days h = ground arith
range_of_inactive week h = ground arith
range_of_inactive month h = ground arith
range_of_inactive custom h = ground arith

module _ (time : String → Option ℤ) (project_id : String) (now : ℕ) where
  get-base :
      (j : String)
      → ("limit" == j) ≡ false
      → ("project_id" == j) ≡ false
      → get j (base project_id) ≡ none
  unfolding get
  get-base j p q = rw (p, q) refl

  -- A request asks for 50 traces of the project; each filter that is set is a parameter of it with
  -- the filter's value, a filter that is not set is none, and there is no other parameter.
  pub query-HasFilters :
      (f : Filters)
      → (get "limit" (query time project_id now f) ≡ some "50")
        × (get "project_id" (query time project_id now f) ≡ some project_id)
        × (get "user_id" (query time project_id now f) ≡ filled f.user_id)
        × (get "session_id" (query time project_id now f) ≡ filled f.session_id)
        × (get "trace_name" (query time project_id now f) ≡ filled f.trace_name)
        × (get "model" (query time project_id now f) ≡ filled f.model)
        × (get "status" (query time project_id now f) ≡ filled f.status)
        × (get "start_time" (query time project_id now f) ≡ start_ms time now f)
        × (get "end_time" (query time project_id now f) ≡ end_ms time f)
        × ((j : String)
            → All (λ k. (k == j) ≡ false) ("limit" ∷ "project_id" ∷ filter_names)
            → get j (query time project_id now f) ≡ none)
  unfolding query get
  query-HasFilters f =
      let bs = bindings time now f in
      let ps = base project_id in
      (
        get-set_all "limit" bs ps,
        get-set_all "project_id" bs ps,
        get-set_all "user_id" bs ps ∙ or_value-none (filled f.user_id),
        get-set_all "session_id" bs ps ∙ or_value-none (filled f.session_id),
        get-set_all "trace_name" bs ps ∙ or_value-none (filled f.trace_name),
        get-set_all "model" bs ps ∙ or_value-none (filled f.model),
        get-set_all "status" bs ps ∙ or_value-none (filled f.status),
        get-set_all "start_time" bs ps ∙ or_value-none (start_ms time now f),
        get-set_all "end_time" bs ps ∙ or_value-none (end_ms time f),
        λ j other.
            get-set_all j bs ps
            ∙ (after_all_of_other j bs (get j ps) other.1.1 ∙ get-base j other.0 other.1.0),
      )

  start_ms_of_all_time : (f : Filters) → f.time_range ≡ all_time → start_ms time now f ≡ none
  unfolding start_ms
  start_ms_of_all_time f h = rw h refl

  end_ms_of_all_time : (f : Filters) → f.time_range ≡ all_time → end_ms time f ≡ none
  unfolding end_ms
  end_ms_of_all_time f h = rw h refl

  -- Where no filter is active, the request is that for all traces of the project; and clearing the
  -- filters leaves none active.
  pub query_of_inactive :
      (f : Filters)
      → (has_active_filter f ≡ false → query time project_id now f ≡ base project_id)
        × (has_active_filter (clear_all f) ≡ false)
  unfolding query
  query_of_inactive f = (
    λ inactive.
        let range = range_of_inactive f.time_range (ground arith) in
        set_all_of_none (bindings time now f) (base project_id) (
          filled_of_blank f.user_id (ground arith),
          (
            filled_of_blank f.session_id (ground arith),
            (
              filled_of_blank f.trace_name (ground arith),
              (
                filled_of_blank f.model (ground arith),
                (
                  filled_of_blank f.status (ground arith),
                  (start_ms_of_all_time f range, (end_ms_of_all_time f range, tt)),
                ),
              ),
            ),
          ),
        ),
    refl,
  )
