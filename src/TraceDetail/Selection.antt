-- ===== src/TraceDetail/Selection.antt =====
-- Clicks on the rows of a trace, and what the page shows after them.
use text.Mathlib.TextEquality.{eq_iff}
use ailens.Base.{
  String, false, not, ◌&&◌, List, [], ◌∷◌, Option, none, some, ◌==◌, string_has_eq, ◌≡◌, refl, ap,
  ◌∙◌, arith, All, if◌then◌else◌, inl, inr, Option-cases,
}
use ailens.Base.Params.{Params, get, has, get-set, get-delete}
use ailens.TraceDetail.{
  is_single_span, or_else, first_id, is_root_selected, active_span_id, select_root, select_span,
}
use ailens.Types.{Trace}

-- What stands in the panel on the right.
pub data Panel : Type 0 where
  summary : Panel
  detail : String → Panel

pub data Click : Type 0 where
  root : Click
  span : String → Click

unfoldable pub run : List Click → Params → Params
unfolding select_root select_span
run [] params = params
run (root ∷ clicks) params = run clicks (select_root params)
run (span id ∷ clicks) params = run clicks (select_span id params)

-- The panel alone, as the comment in the source describes it: a click chooses it.
unfoldable pub replay : List Click → Panel → Panel
replay [] p = p
replay (root ∷ clicks) p = replay clicks summary
replay (span id ∷ clicks) p = replay clicks (detail id)

get-select_root : (params : Params) → get "span" (select_root params) ≡ none
unfolding select_root has
get-select_root params = elim (Option-cases (get "span" params)) [
  | inl missing ↦ ground (arith, missing)
  | inr (v, found) ↦ ground (arith, found, get-delete "span" "span" params)
]

get-select_span : (id : String) (params : Params) → get "span" (select_span id params) ≡ some id
unfolding select_span
get-select_span id params = get-set "span" "span" id params

get-select_root_of_other :
    (j : String) (params : Params)
    → (j == "span") ≡ false
    → get j (select_root params) ≡ get j params
unfolding select_root
get-select_root_of_other j params other =
    ground (arith, get-delete j "span" params, eq_iff j "span", eq_iff "span" j)

get-run :
    (j : String) (clicks : List Click) (params : Params)
    → (j == "span") ≡ false
    → get j (run clicks params) ≡ get j params
unfolding run select_span
get-run j [] params other = refl
get-run j (root ∷ clicks) params other =
    get-run j clicks (select_root params) other ∙ get-select_root_of_other j params other
get-run j (span id ∷ clicks) params other =
    get-run j clicks (select_span id params) other
    ∙ ground (arith, get-set j "span" id params, eq_iff j "span", eq_iff "span" j)

module _ {N : Type 0} (items : List (Trace N)) where
  unfoldable pub shown : Params → Panel
  unfolding is_root_selected active_span_id
  shown params =
      if is_root_selected params items then summary else detail (active_span_id params items)

  -- The root row is there only beside several spans, and a span has an identifier.
  abbrev pub IsOffered : Click → Type 0
  IsOffered root = is_single_span items ≡ false
  IsOffered (span id) = (id == "") ≡ false

  -- The panel that a value of the parameter `span` chooses.
  panel_of : Option String → Panel
  panel_of o =
      if or_else o "" == "" && not (is_single_span items)
      then summary
      else detail (or_else o (if is_single_span items then first_id items else ""))

  shown-panel_of :
      (params : Params) (o : Option String) → get "span" params ≡ o → shown params ≡ panel_of o
  unfolding shown is_root_selected active_span_id panel_of
  shown-panel_of params o h = ap panel_of h

  panel_of-none : is_single_span items ≡ false → panel_of none ≡ summary
  unfolding panel_of
  panel_of-none several = rw several refl

  panel_of-some : (id : String) → (id == "") ≡ false → panel_of (some id) ≡ detail id
  unfolding panel_of
  panel_of-some id named = rw (named, named) refl

  shown-replay :
      (clicks : List Click) (params : Params)
      → All IsOffered clicks
      → shown (run clicks params) ≡ replay clicks (shown params)
  unfolding run replay
  shown-replay [] params offered = refl
  shown-replay (root ∷ clicks) params offered =
      shown-replay clicks (select_root params) offered.1
      ∙ ap (replay clicks) (
          shown-panel_of (select_root params) none (get-select_root params)
          ∙ panel_of-none offered.0)
  shown-replay (span id ∷ clicks) params offered =
      shown-replay clicks (select_span id params) offered.1
      ∙ ap (replay clicks) (
          shown-panel_of (select_span id params) (some id) (get-select_span id params)
          ∙ panel_of-some id offered.0)

  -- If the root row is clicked only where there is one, and spans have identifiers, then whatever
  -- rows are clicked, in whatever order, the page shows what the clicks alone choose, and the other
  -- parameters of the URL stay as they are.
  pub run-replay :
      (clicks : List Click) (params : Params)
      → All IsOffered clicks
      → (shown (run clicks params) ≡ replay clicks (shown params))
        × ((j : String) → (j == "span") ≡ false → get j (run clicks params) ≡ get j params)
  run-replay clicks params offered =
      (shown-replay clicks params offered, λ j other. get-run j clicks params other)
