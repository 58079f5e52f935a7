-- ===== src/Traces/Picker.antt =====
-- The picker of the time range (`TimeRangePicker` in frontend/src/pages/project/Traces.tsx).
use Prim.Native.Char.{code}
use Prim.Native.String.{String, [] as empty_text, ◌∷◌ as cons_text, ◌++◌ as cat}
use ailens.Base.{
  ℕ, zero, suc, ◌+◌, ◌-◌, ◌*◌, Bool, true, false, not, ◌&&◌, ◌||◌, List, [], ◌∷◌, Option, none,
  some, leb, ltb, ◌==◌, ℕ_has_eq, string_has_eq, if◌then◌else◌, ◌≡◌, arith,
}
use ailens.Base.Decimal.{decimal}
use ailens.Base.Int.{ℤ, pos, negsuc, less}
use ailens.Base.Text.{text_length}
use ailens.I18n.{Locale, translate}
use ailens.Traces.{
  Filters, TimeKey, all_time, hour, day, three_days, week, month, custom, local_to_ms, end_ms,
  start_ms, int_text, ms_text,
}

-- `s.slice(from, from + n)`
unfoldable pub slice : ℕ → ℕ → String → String
slice from n empty_text = ""
slice (suc from) n (cons_text c s) = slice from n s
slice zero zero (cons_text c s) = ""
slice zero (suc n) (cons_text c s) = cons_text c (slice zero n s)

abbrev is_digit : ℕ → Bool
is_digit c = leb b'0' c && leb c b'9'

-- The number of the digits that a text starts with, behind those that have been read.
abbrev digits_from : Option ℕ → String → Option ℕ
digits_from acc empty_text = acc
digits_from none (cons_text c s) = elim (is_digit (code c)) [
  | true ↦ digits_from (some (code c - b'0')) s
  | false ↦ none
]
digits_from (some n) (cons_text c s) = elim (is_digit (code c)) [
  | true ↦ digits_from (some (10 * n + (code c - b'0'))) s
  | false ↦ some n
]

-- `${parseInt(s, 10)}`, for a text that starts neither with a blank nor with a sign.
unfoldable pub parsed_int : String → String
unfolding decimal
parsed_int s = elim (digits_from none s) [ none ↦ "NaN" | some n ↦ decimal n ]

unfoldable pub format_local_short : String → String
unfolding text_length slice parsed_int
format_local_short s =
    if s == "" || ltb (text_length s) 16
    then s
    else cat (parsed_int (slice 5 2 s))
        (cat "/" (cat (parsed_int (slice 8 2 s)) (cat " " (slice 11 5 s))))

-- `TIME_PRESET_KEYS`
abbrev pub time_preset_keys : List TimeKey
time_preset_keys = hour ∷ day ∷ three_days ∷ week ∷ month ∷ all_time ∷ []

-- `presetLabel`; the code does not call it for a custom range.
abbrev pub preset_key : TimeKey → String
preset_key hour = "traces.filter.time.1h"
preset_key day = "traces.filter.time.24h"
preset_key three_days = "traces.filter.time.3d"
preset_key week = "traces.filter.time.7d"
preset_key month = "traces.filter.time.30d"
preset_key all_time = "traces.filter.time.all"
preset_key custom = "traces.filter.time.all"

unfoldable pub button_label : Locale → Filters → String
unfolding translate format_local_short
button_label l f = elim f.time_range [
  | custom ↦ cat (format_local_short f.custom_start) (cat " → " (format_local_short f.custom_end))
  | k ↦ translate l (preset_key k) []
]

-- The picker's own state beside the filters of the page.
pub record Picker : Type 0 where
  pub is_open : Bool
  pub draft_start : String
  pub draft_end : String
  pub filters : Filters

-- The effect that runs when the picker opens or the custom range changes.
abbrev sync : Picker → Picker
sync p =
    if p.is_open
    then record p { draft_start = p.filters.custom_start; draft_end = p.filters.custom_end }
    else p

-- A click on the pill.
unfoldable pub toggle : Picker → Picker
toggle p = sync (record p { is_open = not p.is_open })

unfoldable pub pick_preset : TimeKey → Picker → Picker
pick_preset k p = record p { is_open = false; filters = record p.filters { time_range = k } }

-- `ms ?? 0`
abbrev nullish : Option ℤ → ℤ
nullish none = pos 0
nullish (some n) = n

-- The start and the end of a range, as they are sent: the end is later than the start, or than 1970
-- where there is no start, or else there is none and the start is before 1970.
pub data IsOrdered : Option String → Option String → Type 0 where
  both : (s e : ℤ) → less s e ≡ true → IsOrdered (some (int_text s)) (some (int_text e))
  end_only : (e : ℤ) → less (pos 0) e ≡ true → IsOrdered none (some (int_text e))
  early_start : (m : ℕ) → IsOrdered (some (int_text (negsuc m))) none

ordered : (s e : Option ℤ) → less (nullish s) (nullish e) ≡ true → IsOrdered (ms_text s) (ms_text e)
unfolding ms_text less
ordered none none h = ground arith
ordered none (some e) h = end_only e h
ordered (some (pos m)) none h = ground arith
ordered (some (negsuc m)) none h = early_start m
ordered (some s) (some e) h = both s e h

module _ (time : String → Option ℤ) where
  -- Whether the button that applies a custom range is disabled.
  unfoldable pub is_disabled : Picker → Bool
  unfolding less
  is_disabled p =
      p.draft_start == ""
      || p.draft_end == ""
      || not
          (less (nullish (local_to_ms time p.draft_start)) (nullish (local_to_ms time p.draft_end)))

  -- A click on that button.
  unfoldable pub apply_custom : Picker → Picker
  unfolding is_disabled
  apply_custom p = if is_disabled p then p else record p {
    is_open = false;
    filters = record p.filters {
      time_range = custom;
      custom_start = p.draft_start;
      custom_end = p.draft_end;
    };
  }

  later_of_enabled :
      (p : Picker)
      → is_disabled p ≡ false
      → less (nullish (local_to_ms time p.draft_start)) (nullish (local_to_ms time p.draft_end))
        ≡ true
  unfolding is_disabled
  later_of_enabled p enabled = ground arith

  -- If the button is enabled, then the range that it applies ends later than it starts, or ends after
  -- 1970 where its start is no date; or its end is no date and it starts before 1970.
  pub apply_custom-IsOrdered :
      (p : Picker) (now : ℕ)
      → is_disabled p ≡ false
      → IsOrdered
          (start_ms time now (apply_custom p).filters)
          (end_ms time (apply_custom p).filters)
  unfolding apply_custom start_ms end_ms
  apply_custom-IsOrdered p now enabled = rw enabled (
      ordered (local_to_ms time p.draft_start) (local_to_ms time p.draft_end)
        (later_of_enabled p enabled))
