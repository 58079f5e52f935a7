-- ===== src/TraceDetail/Timeline/Sums.antt =====
-- The steps of a timeline, taken together.
use ailens.Base.{
  ℕ, zero, suc, ◌+◌, ◌*◌, ◌≤◌, List, [], ◌∷◌, map, Option, none, some, ◌≡◌, refl, arith, sum, All,
  ap,
}
use ailens.Base.Int.{ℤ, pos, negsuc, difference, difference_of_le}
use ailens.I18n.{Locale}
use ailens.TraceDetail.Timeline.{
  TimelineEvt, TimelineRow, Block, nothing, timeline, pct, rows_from, block_of, last_ts,
}
use ailens.TraceDetail.Waterfall.{magnitude}

-- No event is before the one that precedes it.
abbrev pub IsAscending : ℕ → List TimelineEvt → Type 0
IsAscending before [] = Unit
IsAscending before (ev ∷ evts) = (before ≤ ev.ts) × IsAscending ev.ts evts

abbrev pub steps : List TimelineRow → List ℕ
steps rows = map (λ (r : TimelineRow). magnitude r.delta) rows

-- A bar stays within its track.
abbrev pub FitsTrack : TimelineRow → Type 0
FitsTrack r = magnitude r.width.num ≤ 100 * r.width.den

pct-bounded : (total delta : ℤ) → magnitude (pct total delta).num ≤ 100 * (pct total delta).den
unfolding pct
pct-bounded (pos zero) delta = omega arith
pct-bounded (negsuc n) delta = omega arith
pct-bounded (pos (suc n)) (negsuc d) = omega arith
pct-bounded (pos (suc n)) (pos zero) = omega arith
pct-bounded (pos (suc n)) (pos (suc d)) = ground arith

rows_from-FitsTrack :
    (l : Locale) (t0 : ℕ) (total : ℤ) (before : Option ℕ) (evts : List TimelineEvt)
    → All FitsTrack (rows_from l t0 total before evts)
unfolding rows_from
rows_from-FitsTrack l t0 total before [] = tt
rows_from-FitsTrack l t0 total none (ev ∷ evts) =
    (pct-bounded total (pos 0), rows_from-FitsTrack l t0 total (some ev.ts) evts)
rows_from-FitsTrack l t0 total (some b) (ev ∷ evts) =
    (pct-bounded total (difference ev.ts b), rows_from-FitsTrack l t0 total (some ev.ts) evts)

last_from : ℕ → List TimelineEvt → ℕ
last_from b [] = b
last_from b (ev ∷ evts) = last_from ev.ts evts

sum-steps :
    (l : Locale) (t0 : ℕ) (total : ℤ) (b : ℕ) (evts : List TimelineEvt)
    → IsAscending b evts
    → b + sum (steps (rows_from l t0 total (some b) evts)) ≡ last_from b evts
unfolding rows_from last_from
sum-steps l t0 total b [] ascending = omega arith
sum-steps l t0 total b (ev ∷ evts) ascending =
    rw (difference_of_le ev.ts b ascending.0)
      (ground (arith, ascending.0, sum-steps l t0 total ev.ts evts ascending.1))

last_ts-last_from :
    (ev : TimelineEvt) (evts : List TimelineEvt) → last_ts ev evts ≡ last_from ev.ts evts
unfolding last_from
last_ts-last_from ev [] = refl
last_ts-last_from ev (e ∷ evts) = last_ts-last_from e evts

-- The total and the rows that a block shows.
abbrev pub total_shown : Block → ℕ
total_shown nothing = 0
total_shown (timeline total rows) = magnitude total

abbrev pub rows_shown : Block → List TimelineRow
rows_shown nothing = []
rows_shown (timeline total rows) = rows

-- If no event is before the one that precedes it, then the bars of a timeline stay within their
-- tracks, and the steps between its events add up to the total.
pub block_of-IsTimeline :
    (l : Locale) (ev : TimelineEvt) (evts : List TimelineEvt)
    → IsAscending ev.ts evts
    → All FitsTrack (rows_shown (block_of l (ev ∷ evts)))
      × (sum (steps (rows_shown (block_of l (ev ∷ evts)))) ≡ total_shown (block_of l (ev ∷ evts)))
unfolding block_of
block_of-IsTimeline l ev evts ascending =
    let total = difference (last_ts ev evts) ev.ts in
    let s = sum-steps l ev.ts total ev.ts evts ascending in
    let e = last_ts-last_from ev evts in
    let le : ev.ts ≤ last_ts ev evts = omega (arith, s, e) in
    let m = ap magnitude (difference_of_le (last_ts ev evts) ev.ts le) in
    (rows_from-FitsTrack l ev.ts total none (ev ∷ evts), omega (arith, s, e, m))
