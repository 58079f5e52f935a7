-- ===== src/TraceDetail/Timeline.antt =====
-- The timeline of a span (`TimelineBlock` in frontend/src/pages/project/TraceDetail.tsx).
pub mod Sums
use Prim.Native.String.{String, ◌++◌ as cat}
use ailens.Base.{
  ℕ, zero, suc, ◌+◌, ◌*◌, List, [], ◌∷◌, Option, none, some, leb, ◌==◌, string_has_eq,
  if◌then◌else◌,
}
use ailens.Base.Int.{ℤ, pos, negsuc, difference}
use ailens.Base.Outcome.{Outcome, done, type_error, untyped, ◌>>=◌, collect}
use ailens.I18n.{Locale, translate}
use ailens.TraceDetail.Rows.{Percent}
use ailens.Value.{Value, undefined, null, obj, str, num, find, array?}

pub record TimelineEvt : Type 0 where
  pub event : String
  pub ts : ℕ

-- An element of the parsed array, as the declared type has it.
abbrev typed_evt : Value → Value → Outcome TimelineEvt
typed_evt (str event) (num ts) = done (record { event = event; ts = ts })
typed_evt _ _ = untyped

abbrev evt_of : Value → Outcome TimelineEvt
evt_of undefined = type_error
evt_of null = type_error
evt_of (obj fs) = typed_evt (find "event" fs) (find "ts" fs)
evt_of _ = untyped

-- `eventLabel`
unfoldable pub event_label : Locale → String → String
unfolding translate
event_label l ev =
    let key = cat "detail.timelineEvent." ev in
    let v = translate l key [] in if v == key then ev else v

-- `Math.min(100, (delta / total) * 100)` for positive numbers, and else 0.
unfoldable pub pct : ℤ → ℤ → Percent
pct (pos (suc n)) (pos (suc d)) =
    if leb (suc d) (suc n)
    then record { num = pos (100 * suc d); den = suc n }
    else record { num = pos 100; den = 1 }
pct _ _ = record { num = pos 0; den = 1 }

pub record TimelineRow : Type 0 where
  pub label : String
  pub delta : ℤ
  pub width : Percent
  pub cum : ℤ

pub data Block : Type 0 where
  nothing : Block
  timeline : (total : ℤ) (rows : List TimelineRow) → Block

abbrev delta_of : Option ℕ → ℕ → ℤ
delta_of none ts = pos 0
delta_of (some before) ts = difference ts before

-- The rows of the events from one on, for the time of the event before it.
unfoldable pub rows_from : Locale → ℕ → ℤ → Option ℕ → List TimelineEvt → List TimelineRow
unfolding event_label pct difference
rows_from l t0 total before [] = []
rows_from l t0 total before (ev ∷ evts) =
    record {
      label = event_label l ev.event;
      delta = delta_of before ev.ts;
      width = pct total (delta_of before ev.ts);
      cum = difference ev.ts t0;
    }
    ∷ rows_from l t0 total (some ev.ts) evts

abbrev pub last_ts : TimelineEvt → List TimelineEvt → ℕ
last_ts ev [] = ev.ts
last_ts ev (e ∷ evts) = last_ts e evts

unfoldable pub block_of : Locale → List TimelineEvt → Block
unfolding rows_from difference
block_of l [] = nothing
block_of l (ev ∷ evts) =
    let total = difference (last_ts ev evts) ev.ts in
    timeline total (rows_from l ev.ts total none (ev ∷ evts))

-- What the elements of the array are, if it is one.
abbrev elements_of : Option Value → List Value
elements_of none = []
elements_of (some v) = elim (array? v) [ none ↦ [] | some vs ↦ vs ]

-- `parse` is `JSON.parse`.
pub timeline_block : (String → Option Value) → Locale → String → Outcome Block
unfolding collect block_of
timeline_block parse l raw =
    collect evt_of (elements_of (parse (if raw == "" then "[]" else raw)))
    >>= λ (evts : List TimelineEvt). done (block_of l evts)
