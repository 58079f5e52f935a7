-- ===== src/TraceDetail/Totals.antt =====
-- The totals over the spans of a trace, and its status.
use text.Mathlib.TextEquality.{eq_iff}
use ailens.Base.{
  ℕ, ◌+◌, String, Bool, ◌||◌, List, [], ◌∷◌, map, ◌==◌, string_has_eq, ◌≡◌, arith, any, sum,
  if◌then◌else◌, ◌∙◌,
}
use ailens.TraceDetail.{total_from, worse, worst, worst_from, summary}
use ailens.Types.{Trace}

worse_lem :
    (acc st : String) (e a : Bool)
    → (if worse acc st == "error" || e then "error" else if a then "aborted" else worse acc st) ≡ (
        if acc == "error" || (st == "error" || e)
        then "error"
        else if st == "aborted" || a
        then "aborted"
        else acc)
worse_lem acc st e a =
    ground (arith, eq_iff acc "error", eq_iff st "error", eq_iff st "aborted", eq_iff acc "aborted")

module _ {N : Type 0} where
  abbrev pub has_status : String → List (Trace N) → Bool
  has_status st items = any (λ (x : Trace N). x.status == st) items

  total_from-sum :
      (count : Trace N → ℕ) (s : ℕ) (items : List (Trace N))
      → total_from count s items ≡ s + sum (map count items)
  total_from-sum count s [] = omega arith
  total_from-sum count s (x ∷ items) = omega (arith, total_from-sum count (s + count x) items)

  total_from_zero :
      (count : Trace N → ℕ) (items : List (Trace N))
      → total_from count 0 items ≡ sum (map count items)
  total_from_zero count items = omega (arith, total_from-sum count 0 items)

  worst_from_lem :
      (acc : String) (items : List (Trace N))
      → worst_from acc items ≡ (
          if acc == "error" || has_status "error" items
          then "error"
          else if has_status "aborted" items
          then "aborted"
          else acc)
  unfolding worst_from
  worst_from_lem acc [] = ground (arith, eq_iff acc "error")
  worst_from_lem acc (x ∷ items) =
      worst_from_lem (worse acc x.status) items
      ∙ worse_lem acc x.status (has_status "error" items) (has_status "aborted" items)

  -- The status of a trace is that of an error if one of its spans has one, else that of an
  -- interruption if one was interrupted, else success; and its counts are the sums of the spans'.
  pub summary-IsTotal :
      (time : String → ℕ) (free : N) (add : N → N → N) (items : List (Trace N))
      → ((summary time free add items).status ≡ (
          if has_status "error" items
          then "error"
          else if has_status "aborted" items
          then "aborted"
          else "success"))
        × ((summary time free add items).total_in
            ≡ sum (map (λ (x : Trace N). x.input_tokens) items))
        × ((summary time free add items).total_out
            ≡ sum (map (λ (x : Trace N). x.output_tokens) items))
        × ((summary time free add items).total_cached
            ≡ sum (map (λ (x : Trace N). x.cached_input_tokens) items))
        × ((summary time free add items).total_cache_write
            ≡ sum (map (λ (x : Trace N). x.cache_creation_input_tokens) items))
        × ((summary time free add items).total_reasoning
            ≡ sum (map (λ (x : Trace N). x.reasoning_tokens) items))
  unfolding summary worst
  summary-IsTotal time free add items = (
    worst_from_lem "success" items,
    total_from_zero (λ (x : Trace N). x.input_tokens) items,
    total_from_zero (λ (x : Trace N). x.output_tokens) items,
    total_from_zero (λ (x : Trace N). x.cached_input_tokens) items,
    total_from_zero (λ (x : Trace N). x.cache_creation_input_tokens) items,
    total_from_zero (λ (x : Trace N). x.reasoning_tokens) items,
  )
