-- ===== src/Traces.antt =====
-- The list of the traces of a project (frontend/src/pages/project/Traces.tsx): the filters, the query
-- that they make, and what the list shows. Traces/Picker models the picker of the time range.
pub mod Query
pub mod Picker
mod Tests
use Prim.Native.String.{String, ◌++◌ as cat}
use ailens.Base.{
  ℕ, suc, ◌*◌, Bool, true, false, not, ◌||◌, List, [], ◌∷◌, Option, none, some, ◌==◌, string_has_eq,
  if◌then◌else◌,
}
use ailens.Base.Decimal.{decimal}
use ailens.Base.Int.{ℤ, pos, negsuc, difference}
use ailens.Base.Params.{Params, get, set_all}
use ailens.I18n.{Locale, translate}
use ailens.Types.{TraceGroup}

-- `statusTone`
unfoldable pub status_tone : String → String
status_tone s = if s == "error" then "err" else if s == "aborted" then "warn" else "ok"

pub data TimeKey : Type 0 where
  all_time hour day three_days week month custom : TimeKey

-- A time range as the code writes it.
abbrev pub key_of : TimeKey → String
key_of all_time = ""
key_of hour = "1h"
key_of day = "24h"
key_of three_days = "3d"
key_of week = "7d"
key_of month = "30d"
key_of custom = "custom"

-- `TIME_PRESETS`, in milliseconds; there is none for all times and for a custom range.
abbrev pub time_presets : TimeKey → Option ℕ
time_presets all_time = none
time_presets hour = some (60 * 60 * 1000)
time_presets day = some (24 * 60 * 60 * 1000)
time_presets three_days = some (3 * 24 * 60 * 60 * 1000)
time_presets week = some (7 * 24 * 60 * 60 * 1000)
time_presets month = some (30 * 24 * 60 * 60 * 1000)
time_presets custom = none

-- `time` gives the milliseconds of `new Date(s).getTime()` where they are finite: negative ones before
-- 1970.
abbrev pub local_to_ms : (String → Option ℤ) → String → Option ℤ
local_to_ms time s = if s == "" then none else time s

abbrev parsed : String → TimeKey
parsed raw =
    if raw == ""
    then all_time
    else if raw == "1h"
    then hour
    else if raw == "24h"
    then day
    else if raw == "3d"
    then three_days
    else if raw == "7d"
    then week
    else if raw == "30d"
    then month
    else if raw == "custom"
    then custom
    else day

unfoldable pub parse_time_range : Option String → TimeKey
parse_time_range none = day
parse_time_range (some raw) = parsed raw

-- The state of the filters.
pub record Filters : Type 0 where
  pub user_id : String
  pub session_id : String
  pub trace_name : String
  pub model : String
  pub status : String
  pub time_range : TimeKey
  pub custom_start : String
  pub custom_end : String

-- `v || ''`
abbrev or_empty : Option String → String
or_empty none = ""
or_empty (some s) = s

-- The filters that the URL opens the page with, for the dates that a custom range starts from.
unfoldable pub opening : String → String → Params → Filters
unfolding get parse_time_range
opening start end search = record {
  user_id = or_empty (get "user_id" search);
  session_id = or_empty (get "session_id" search);
  trace_name = or_empty (get "trace_name" search);
  model = or_empty (get "model" search);
  status = or_empty (get "status" search);
  time_range = parse_time_range (get "time" search);
  custom_start = start;
  custom_end = end;
}

-- `String(n)`
unfoldable pub int_text : ℤ → String
unfolding decimal
int_text (pos n) = decimal n
int_text (negsuc n) = cat "-" (decimal (suc n))

abbrev since : ℕ → Option ℕ → Option String
unfolding int_text difference
since now none = none
since now (some span) = some (int_text (difference now span))

abbrev pub ms_text : Option ℤ → Option String
unfolding int_text
ms_text none = none
ms_text (some ms) = some (int_text ms)

-- `if (s)`
abbrev pub filled : String → Option String
filled s = if s == "" then none else some s

module _ (time : String → Option ℤ) where
  -- `startMs` and `endMs`, printed, for what `Date.now()` gives.
  unfoldable pub start_ms : ℕ → Filters → Option String
  unfolding since ms_text
  start_ms now f = elim f.time_range [
    | custom ↦ ms_text (local_to_ms time f.custom_start)
    | _ ↦ since now (time_presets f.time_range)
  ]

  unfoldable pub end_ms : Filters → Option String
  unfolding ms_text
  end_ms f = elim f.time_range [ custom ↦ ms_text (local_to_ms time f.custom_end) | _ ↦ none ]

  -- The parameters that are set if there is something to set, in order.
  abbrev pub bindings : ℕ → Filters → List (String × Option String)
  unfolding start_ms end_ms
  bindings now f =
      ("user_id", filled f.user_id)
      ∷ ("session_id", filled f.session_id)
      ∷ ("trace_name", filled f.trace_name)
      ∷ ("model", filled f.model)
      ∷ ("status", filled f.status)
      ∷ ("start_time", start_ms now f)
      ∷ ("end_time", end_ms f)
      ∷ []

  -- The parameters of the request for the traces.
  unfoldable pub query : String → ℕ → Filters → Params
  unfolding bindings set_all
  query project_id now f =
      set_all (bindings now f) (("limit", "50") ∷ ("project_id", project_id) ∷ [])

abbrev pub has_active_filter : Filters → Bool
has_active_filter f =
    not (f.user_id == "")
    || not (f.session_id == "")
    || not (f.trace_name == "")
    || not (f.model == "")
    || not (f.status == "")
    || not (key_of f.time_range == "")

abbrev pub clear_all : Filters → Filters
clear_all f = record f {
  user_id = "";
  session_id = "";
  trace_name = "";
  model = "";
  status = "";
  time_range = all_time;
}

-- What stands in the place of the list.
pub data Listing (N : Type 0) : Type 0 where
  loading empty : Listing N
  no_match : (can_reset : Bool) → Listing N
  table : List (TraceGroup N) → Listing N

unfoldable pub listing :
    {N : Type 0} (is_loading has_data : Bool) → Filters → List (TraceGroup N) → Listing N
listing true has_data f items = loading
listing false has_data f (g ∷ items) = table (g ∷ items)
listing false true f [] = no_match (has_active_filter f)
listing false false f [] = empty

-- `statusLabel` of a row.
unfoldable pub status_label : Locale → String → String
unfolding translate
status_label l status =
    if status == "error"
    then translate l "traces.status.error" []
    else if status == "aborted"
    then translate l "traces.status.aborted" []
    else translate l "traces.status.success" []
