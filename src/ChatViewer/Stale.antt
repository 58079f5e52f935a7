-- ===== src/ChatViewer/Stale.antt =====
-- Estimations that end in any order (the effect of `ChatViewer` in
-- frontend/src/components/ChatViewer.tsx).
use ailens.Base.{
  ℕ, ◌+◌, Bool, true, false, ◌||◌, List, [], ◌∷◌, Option, none, ◌==◌, ℕ_has_eq, if◌then◌else◌, ◌≡◌,
  refl, ap, ap₂, ◌∙◌, arith, any, Bool-cases, inl, inr, eq_of_same,
}
use ailens.Cache.{Segments}
use ailens.ChatViewer.{Estimates, end_run, start_run}

-- The runs in the list end one after the other, each with its own result.
unfoldable pub end_runs : (ℕ → Option Segments) → List ℕ → Estimates → Estimates
unfolding end_run
end_runs result [] e = e
end_runs result (r ∷ rs) e = end_runs result rs (end_run r (result r) e)

or_if :
    (a b : Bool) (x s : Option Segments)
    → ◌≡◌ {A = Option Segments} (if a then x else if b then x else s) (if b || a then x else s)
or_if true true x s = refl
or_if true false x s = refl
or_if false true x s = refl
or_if false false x s = refl

module _ (result : ℕ → Option Segments) where
  runs-end_run : (r : ℕ) (e : Estimates) → (end_run r (result r) e).runs ≡ e.runs
  unfolding end_run
  runs-end_run r e = ground arith

  segments-end_run :
      (r : ℕ) (e : Estimates)
      → (end_run r (result r) e).segments ≡ (if r == e.runs then result e.runs else e.segments)
  unfolding end_run
  segments-end_run r e = elim (Bool-cases (r == e.runs)) [
    | inl same ↦ ground (arith, ap result (eq_of_same r e.runs same))
    | inr other ↦ ground arith
  ]

  -- What the later ends make of the state.
  shown_after : List ℕ → ℕ → Option Segments → Option Segments
  shown_after rs n segments = if any (λ k. k == n) rs then result n else segments

  segments-end_runs :
      (rs : List ℕ) (e : Estimates)
      → (end_runs result rs e).segments
        ≡ (if any (λ r. r == e.runs) rs then result e.runs else e.segments)
  unfolding end_runs shown_after
  segments-end_runs [] e = refl
  segments-end_runs (r ∷ rs) e =
      segments-end_runs rs (end_run r (result r) e)
      ∙ (ap₂ (shown_after rs) (runs-end_run r e) (segments-end_run r e)
          ∙ or_if (any (λ k. k == e.runs) rs) (r == e.runs) (result e.runs) e.segments)

  -- From the start of a run of the effect on, which follows the render with the new inputs, the
  -- estimates of the runs before are not kept: whatever runs end, in whatever order, the state holds
  -- the result of the last run once it has ended, and until then nothing.
  pub end_runs-start_run :
      (rs : List ℕ) (e : Estimates)
      → (end_runs result rs (start_run e)).segments
        ≡ (if any (λ r. r == e.runs + 1) rs then result (e.runs + 1) else none)
  unfolding start_run
  end_runs-start_run rs e = segments-end_runs rs (start_run e)
